-- ===== src/Protocol/Listing.antt =====
-- A request in the states that the daemon comes to: listen_for_nreqs of src/nreq_responder.c.
use name_spread.Prelude.{
  ℕ, ◌<◌, ◌≤◌, ◌≡◌, ◌++◌, true, Option, none, some, List, [], ◌∷◌, ◌∙◌, inl, inr, length, arith,
}
use name_spread.Text.{Str, Lacks}
use name_spread.Machine.Run.{ok}
use name_spread.Machine.Ensures.{Ensures-ok}
use name_spread.Machine.Cfu.{Cfu}
use name_spread.Machine.System.{System}
use name_spread.Machine.World.{World}
use name_spread.Logger.{CanLog}
use name_spread.LinkedList.Chain.{IsHeap}
use name_spread.Hosts.Table.{HostLine, lookup_name}
use name_spread.Hosts.Cache.{HoldsTable}
use name_spread.Network.{nreq_text, nrep_max_len}
use name_spread.Timers.{n_timers}
use name_spread.Timers.Count.{taken-all}
use name_spread.Timers.Ids.{FirstFree}
use name_spread.Timers.Slots.{first-or-taken}
use name_spread.Pnr.Requesters.{enlist}
use name_spread.Pnr.Waiting.{Waiting}
use name_spread.Responder.Messages.{IsWord, listen_step-text}
use name_spread.Responder.Names.{handle_message-unknown}
use name_spread.Daemon.Events.{datagram, handle, handled, Reaches, stepped}
use name_spread.Protocol.{tables}
use name_spread.Protocol.Lists.{Requesters}
use name_spread.Protocol.Requests.{IsSound}
use name_spread.Protocol.Reached.{Reaches-IsSound}
use name_spread.Protocol.Matched.{Reaches-taken}

module _ ⦃pnr_table : Cfu ℕ⦄ ⦃timer_table : Cfu Str⦄ ⦃sys : System⦄ where
  IsSound-Waiting :
      (reqs : Requesters) (dst_addr : Option Str) (u : World)
      → IsSound reqs (tables u)
      → Waiting dst_addr (reqs dst_addr) u
  IsSound-Waiting reqs dst_addr u good = record {
    cells = good.lists.cells dst_addr;
    head = good.lists.head dst_addr;
    vals = good.lists.vals dst_addr;
    chain = good.lists.chain dst_addr;
    heap = good.lists.is_heap;
  }

  module _ (argument : Option Str) (w u : World) (is : IsHeap w.heap)
      (set_up : sys.handler_set ≡ true) (r : Reaches argument w u) where
    -- While fewer than N_TIMERS timers run, an id is free.
    Reaches-FirstFree : length u.alarms < n_timers → (i : ℕ) × FirstFree u.timer_ids i
    Reaches-FirstFree few = elim (first-or-taken u.timer_ids) [
      | inl free ↦ free
      | inr full ↦
          let (reqs, good, lead) = Reaches-IsSound argument w u is r in
          absurd (
            omega (
              arith,
              few,
              taken-all u.timer_ids full,
              Reaches-taken set_up argument w u is r,
              good.clock.size,
            ))
    ]

    -- Let the heap have handed out no address from `fresh` on when the daemon starts, and
    -- sigaction succeed. In a state that the daemon comes to, let fewer than N_TIMERS timers run,
    -- the log be writable, malloc have memory, and the table of lines that fit the buffer have no
    -- name for an address that is a one-line word. Let a request for it arrive in a datagram that
    -- has no NUL but the one at its end and fits the receive buffer. Then, whatever the buffer
    -- held, the handling returns, in a state that is again one that the daemon comes to, and the
    -- sender is listed once among the address's requesters, behind those that were listed before.
    pub datagram-Waiting :
        (old : List ℕ) (requester : ℕ) (dst : Str) (ls : List HostLine)
        → CanLog u
        → IsWord dst
        → HoldsTable 512 ls u
        → lookup_name dst ls ≡ none
        → length u.alarms < n_timers
        → 0 < u.heap.room
        → Lacks 0 (nreq_text (some dst))
        → length (nreq_text (some dst) ++ 0 ∷ []) ≤ nrep_max_len
        → (vs : List (Option Str)) × (v : World) × Waiting (some dst) vs u
          × (handle (datagram old requester (nreq_text (some dst) ++ 0 ∷ [])) u ≡ ok tt v)
          × Waiting (some dst) (enlist (some (sys.inet_ntoa requester)) vs) v
          × Reaches argument w v
    unfolding handle
    datagram-Waiting old requester dst ls can is_word holds new few room clean short =
        let (reqs, good, lead) = Reaches-IsSound argument w u is r in
        let wait = IsSound-Waiting reqs (some dst) u good in
        let (i, first) = Reaches-FirstFree few in
        let (a, v, run, listed) = Ensures-ok (
          handle_message-unknown dst ls u can is_word holds requester i (reqs (some dst)) new set_up
            first room wait) in
        let heard = listen_step-text old requester (nreq_text (some dst)) u clean short ∙ run in
        (
          reqs (some dst),
          v,
          wait,
          heard,
          listed,
          stepped r (handled (datagram old requester (nreq_text (some dst) ++ 0 ∷ [])) heard),
        )
