-- ===== src/Responder/Exchange.antt =====
-- A request that arrives before the name is known, and the reply that answers it.
use name_spread.Prelude.{
  ℕ, ◌^◌, ◌≤◌, ◌<◌, ◌≡◌, true, false, none, some, List, [], ◌∷◌, ◌++◌, length, ◌∙◌, ap,
}
use name_spread.Text.{Str, codes, strstr, Lacks}
use name_spread.Machine.Run.{ok}
use name_spread.Machine.Ensures.{Ensures-ok}
use name_spread.Machine.Cfu.{Cfu}
use name_spread.Machine.System.{System}
use name_spread.Machine.World.{World, Heap}
use name_spread.Logger.{CanLog}
use name_spread.Logger.Yields.{quiet, Yields, Yields-bind, Yields-here, Yields-quiet, log-Yields}
use name_spread.LinkedList.{new_linked_list}
use name_spread.LinkedList.Chain.{SameOutside, IsHeap}
use name_spread.LinkedList.Fresh.{new_linked_list-single}
use name_spread.Hosts.{hosts_path}
use name_spread.Hosts.Table.{HostLine, lookup_name}
use name_spread.Hosts.Cache.{HoldsTable, get_name_by_addr-lookup}
use name_spread.Network.{nreq_text, nrep_text, nrep_max_len}
use name_spread.Timers.{pnr}
use name_spread.Timers.Ids.{FirstFree}
use name_spread.Pnr.Requesters.{remote, all}
use name_spread.Pnr.Register.{opened, put_self, register_nreq-new_linked_list}
use name_spread.Responder.{handle_message, handle_nreq, want_name, listen_loop, cleared}
use name_spread.Responder.Messages.{IsWord, request-words, nreq_text-strstr, listen_step-text}
use name_spread.Responder.Names.{FitsArray, counted}
use name_spread.Responder.Replies.{accepted, handle_message-accepted}

-- The text can be sent to the responder: no NUL within it, and it fits the buffer with one behind.
abbrev pub IsMessage : Str → Type 0
IsMessage text = Lacks 0 text × (length (text ++ 0 ∷ []) ≤ nrep_max_len)

module _ ⦃pnr_table : Cfu ℕ⦄ ⦃timer_table : Cfu Str⦄ ⦃sys : System⦄ where
  module _ (dst name : Str) (ls : List HostLine) (w : World) (can : CanLog w) (is : IsWord dst)
      (word : IsWord name) (holds : HoldsTable 512 ls w) (new : lookup_name dst ls ≡ none)
      (requester i : ℕ) (set_up : sys.handler_set ≡ true) (first : FirstFree w.timer_ids i)
      (free : pnr (some dst) w ≡ 0) where
    want_name-opened :
        (g : Heap)
        → new_linked_list (some (sys.inet_ntoa requester)) w.heap ≡ ok w.heap.fresh g
        → Yields tt (opened i dst g (counted w)) (want_name requester (some dst) (counted w))
    unfolding want_name
    want_name-opened g made = Yields-bind _ (log-Yields _ (counted w) can) λ l p.
        Yields-bind _
          (Yields-quiet (counted w) l p (
            rw new at (
              get_name_by_addr-lookup dst ls (quiet (counted w) l p) can is.one_line
                (record { text = holds.text; lines = holds.lines }))))
          λ l p. Yields-quiet (opened i dst g (counted w)) l p (
            register_nreq-new_linked_list (quiet (counted w) l p) dst (some [])
              (some (sys.inet_ntoa requester)) can i g set_up first made free)

    handle_message-opened :
        (g : Heap)
        → new_linked_list (some (sys.inet_ntoa requester)) w.heap ≡ ok w.heap.fresh g
        → Yields tt (opened i dst g (counted w)) (handle_message requester (nreq_text (some dst)) w)
    unfolding handle_message handle_nreq
    handle_message-opened g made =
        rw (nreq_text-strstr dst, request-words dst is) (want_name-opened g made)

    -- Let the log and /etc/hosts be writable, malloc have memory, sigaction succeed and a timer id
    -- be free, and let the address be a one-line word with neither a name in the table nor a
    -- pending request, such that the request and the reply fit the receive buffer, and the reply
    -- fits its copy and does not contain "NREQ". Whatever the buffer holds, when a request for the
    -- address arrives and then, from any sender, a reply with a one-line word as its name, the
    -- responder's loop returns. It has started a timer for the request, stored the name at the end
    -- of the table, sent the reply's text once, to the requester, and left no pending request for
    -- the address; the counters have been raised accordingly, and nothing else has changed but the
    -- log, one socket and one new node of the heap.
    pub listen_loop-exchange :
        (old : List ℕ) (neighbour : ℕ)
        → sys.writable hosts_path ≡ true
        → IsHeap w.heap
        → 0 < w.heap.room
        → requester < 2 ^ 32
        → IsMessage (nreq_text (some dst))
        → IsMessage (nrep_text (some dst) (some name))
        → strstr (nrep_text (some dst) (some name)) (codes "NREQ") ≡ false
        → FitsArray (length (nrep_text (some dst) (some name))) (nrep_text (some dst) (some name))
        → (g : Heap) × Yields tt
            (accepted dst name ls (requester ∷ []) (opened i dst g (counted w)))
            (listen_loop old
              ((requester, nreq_text (some dst) ++ 0 ∷ [])
                ∷ (neighbour, nrep_text (some dst) (some name) ++ 0 ∷ [])
                ∷ [])
              w)
          × SameOutside ((w.heap.fresh, some (sys.inet_ntoa requester)) ∷ []) w.heap g
    unfolding listen_loop
    listen_loop-exchange old neighbour open_ok heap room small ask tell tagged fit =
        let (a, g, e, (at, c, is', same, fr, rm)) =
          Ensures-ok (new_linked_list-single w.heap (some (sys.inet_ntoa requester)) heap room) in
        let v = opened i dst g (counted w) in
        (
          g,
          rw (listen_step-text old requester (nreq_text (some dst)) w ask.0 ask.1) (
              Yields-bind _ (handle_message-opened g (e ∙ ap (λ x. ok x g) at)) λ l p.
                rw
                  (listen_step-text cleared neighbour (nrep_text (some dst) (some name))
                    (quiet v l p) tell.0 tell.1)
                  (Yields-bind _
                    (Yields-quiet (accepted dst name ls (requester ∷ []) v) l p (
                      handle_message-accepted dst ls (quiet v l p) can is
                        (record { text = holds.text; lines = holds.lines }) name neighbour word
                        tagged fit ((w.heap.fresh, some (sys.inet_ntoa requester)) ∷ [])
                        (requester ∷ []) new open_ok is' c
                        (put_self (counted w) dst (some []) none can w.heap.fresh g i)
                        (remote (sys.inet_aton-ntoa requester small) all)))
                    λ l p. Yields-here tt (accepted dst name ls (requester ∷ []) v) l p)),
          same,
        )
