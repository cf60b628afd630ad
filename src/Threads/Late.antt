-- ===== src/Threads/Late.antt =====
-- A route to an address appears while the reply for it is handled.
use name_spread.Prelude.{
  ℕ, ◌<◌, ◌≡◌, refl, true, Bool, Option, none, some, List, [], ◌∷◌, ◌++◌, arith, ◌∙◌, ap,
}
use name_spread.Text.{Str}
use name_spread.Machine.Run.{ok}
use name_spread.Machine.Ensures.{Ensures, ensured, Ensures-ok}
use name_spread.Machine.Cfu.{Cfu, key_eq_iff}
use name_spread.Machine.System.{System}
use name_spread.Machine.World.{World}
use name_spread.Logger.{CanLog}
use name_spread.Logger.Yields.{quiet, Yields, Yields-quiet, Yields-bind, Yields-here}
use name_spread.LinkedList.Chain.{Cells, head_of, values, IsHeap, Chain}
use name_spread.LinkedList.Fresh.{new_linked_list-single}
use name_spread.Hosts.{hosts_path, get_name_by_addr}
use name_spread.Hosts.Table.{HostLine, IsLine, entry, lookup_name}
use name_spread.Hosts.Cache.{HoldsTable, with_name-HoldsTable, get_name_by_addr-lookup}
use name_spread.Hosts.Files.{contents}
use name_spread.Hosts.Lookup.{lookup_name-append}
use name_spread.Responder.{take_name}
use name_spread.Network.{nrep_text}
use name_spread.Network.Requests.{requested, FitsRequest}
use name_spread.Timers.{pnr}
use name_spread.Timers.Ids.{FirstFree}
use name_spread.Pnr.Register.{opened, put_self}
use name_spread.Pnr.Requesters.{Reached}
use name_spread.Pnr.Waiting.{Waiting}
use name_spread.Responder.Messages.{IsWord, reply-name}
use name_spread.Responder.Names.{cached}
use name_spread.Responder.Replies.{accepted, take_name-passed_on}
use name_spread.Watcher.Routes.{seek_name-opened}
use name_spread.Threads.{watcher}
use name_spread.Threads.Calls.{interleave}
use name_spread.Threads.Handlers.{look_up_task, take_task, run_task-seek_task, run_task-take_task}

module _ ⦃pnr_table : Cfu ℕ⦄ ⦃timer_table : Cfu Str⦄ ⦃sys : System⦄ where
  module _ (dst name hop : Str) (ls : List HostLine) (w : World) (can : CanLog w) (is : IsWord dst)
      (holds : HoldsTable 512 ls w) (word : IsWord name) (cs : Cells) (tos : List ℕ)
      (new : lookup_name dst ls ≡ none) (open_ok : sys.writable hosts_path ≡ true)
      (heap : IsHeap w.heap) (chain : Chain w.heap cs) (at : pnr (some dst) w ≡ head_of cs)
      (reached : Reached (values cs) tos) (is_line : IsLine 512 (entry dst name)) (i to : ℕ)
      (set_up : sys.handler_set ≡ true) (first : FirstFree w.timer_ids i) (room : 0 < w.heap.room)
      (valid : sys.inet_aton hop ≡ some to) (fit : FitsRequest dst) where
    answered :
        (l : List (Str × Str)) (p : List Bool)
        → Yields tt
            (accepted dst name ls tos w)
            (take_name (some dst) (some name) (nrep_text (some dst) (some name)) (quiet w l p))
    answered l p = Yields-quiet (accepted dst name ls tos w) l p (
        take_name-passed_on dst ls (quiet w l p) can is
          (record { text = holds.text; lines = holds.lines }) cs tos new open_ok heap chain at
          reached (some name) (nrep_text (some dst) (some name)) name (reply-name dst name word))

    gone : pnr (some dst) (accepted dst name ls tos w) ≡ 0
    gone =
        ground (arith, key_eq_iff (some dst) (some dst), pnr_table.get-delete w.pnrs dst (some dst))

    -- The name is found in each world with the table of the one after the reply.
    named :
        (v : World)
        → CanLog v
        → contents hosts_path v ≡ contents hosts_path (accepted dst name ls tos w)
        → Yields (some name) v (get_name_by_addr (some dst) v)
    named v can' same =
        let held = with_name-HoldsTable 512 dst name ls w holds is_line in
        rw (lookup_name-append dst name ls new) at (
          get_name_by_addr-lookup dst (ls ++ entry dst name ∷ []) v can' is.one_line
            (record { text = same ∙ held.text; lines = held.lines }))

    ignored :
        (v : World)
        → CanLog v
        → contents hosts_path v ≡ contents hosts_path (accepted dst name ls tos w)
        → (n : Option Str) (text : Str) → Yields tt v (take_name (some dst) n text v)
    unfolding take_name
    ignored v can' same n text = Yields-bind _ (named v can' same) λ l p. Yields-here tt v l p

    -- Let the log and /etc/hosts be writable, the heap have handed out no address from `fresh` on,
    -- the table of lines that fit the buffer have no name for the address, the words of the reply
    -- be one-line words that make a line of the table, and each requester's address be readable;
    -- let malloc have memory, sigaction succeed, a timer id be free, the next hop be readable and
    -- the request's text fit its array. If the watcher, at a new route to the address, looks for
    -- the name just before the responder handles the reply, and goes on after it, the name is
    -- stored and found, and yet a request for the address is pending, with a local requester
    -- alone; each further reply for the address changes nothing but the log, so that the request
    -- stays.
    pub look_up_task-late :
        Ensures
          (λ _ v.
            Waiting (some dst) (none ∷ []) v
            × Yields (some name) v (get_name_by_addr (some dst) v)
            × ((n : Option Str) (text : Str) → Yields tt v (take_name (some dst) n text v)))
          (interleave
            (watcher ∷ [])
            (look_up_task (some dst) (some hop))
            (take_task (some dst) (some name) (nrep_text (some dst) (some name)))
            w)
    unfolding interleave
    look_up_task-late =
        let looked = cached dst ls w can is holds w none can refl new in
        let taken = answered looked.logs looked.popens in
        let w' = quiet (accepted dst name ls tos w) taken.logs taken.popens in
        let (a, g, e, (at_fresh, c, is', same, fr, rm)) =
          Ensures-ok (new_linked_list-single w'.heap none heap room) in
        let sought =
          seek_name-opened dst hop to w' i g can set_up first (e ∙ ap (λ x. ok x g) at_fresh) gone
            valid fit in
        rw (looked.run, run_task-take_task)
          (rw taken.run (
            rw (run_task-seek_task (some dst) (some hop) w', sought.run)
              (ensured (
                record {
                  cells = (w.heap.fresh, none) ∷ [];
                  head = put_self w' dst (some hop) none can w.heap.fresh g i;
                  vals = refl;
                  chain = c;
                  heap = is';
                },
                named (quiet (requested dst to (opened i dst g w')) sought.logs sought.popens) can
                    refl,
                ignored (quiet (requested dst to (opened i dst g w')) sought.logs sought.popens) can
                    refl,
              ))))
