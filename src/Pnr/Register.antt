-- ===== src/Pnr/Register.antt =====
-- register_nreq: the requesters of an address, and the timer of a new request.
use name_spread.Prelude.{
  ◌+◌, ℕ, ◌<◌, ◌≡◌, refl, true, false, Option, none, some, [], ◌∷◌, ◌++◌, arith, ap, ◌∙◌,
}
use name_spread.Text.{Str}
use name_spread.Machine.Run.{ok, fault}
use name_spread.Machine.Ensures.{Ensures-ok}
use name_spread.Machine.Cfu.{Cfu, key_eq_iff}
use name_spread.Machine.System.{System}
use name_spread.Machine.World.{World, Heap}
use name_spread.Logger.{CanLog}
use name_spread.Logger.Yields.{
  quiet, Yields, Yields-bind, Yields-here, Yields-quiet, log-Yields, log-then, log-last,
}
use name_spread.LinkedList.{push, new_linked_list}
use name_spread.LinkedList.Chain.{Cells, head_of, values, Chain, IsHeap, SameOutside, not_null}
use name_spread.LinkedList.Push.{push-append}
use name_spread.LinkedList.Fresh.{new_linked_list-single}
use name_spread.Timers.{pnr}
use name_spread.Timers.Ids.{
  FirstFree, AllTaken, with_timer, start_timer-with_timer, start_timer-full,
}
use name_spread.Pnr.{register_nreq, join_pnr, open_pnr, warn_requester}
use name_spread.Pnr.Requesters.{occurs, on_heap-then, on_heap-bind, exists_in_list-occurs}

module _ ⦃pnr_table : Cfu ℕ⦄ ⦃timer_table : Cfu Str⦄ ⦃sys : System⦄ where
  -- The world after the request is opened, with the heap `g` that holds the new list.
  abbrev pub opened : ℕ → Str → Heap → World → World
  opened i dst g w =
      with_timer i dst (record w { heap = g; pnrs = pnr_table.put w.pnrs (some dst) w.heap.fresh })

  pub warn_requester-Yields :
      (dst_addr r : Option Str) (w : World) → CanLog w → Yields tt w (warn_requester dst_addr r w)
  unfolding warn_requester
  warn_requester-Yields dst_addr none w can = Yields-here tt w w.logs w.popens
  warn_requester-Yields dst_addr (some s) w can = log-Yields _ w can

  module _ (w : World) (dst : Str) (hop r : Option Str) (can : CanLog w) where
    pub open_pnr-opened :
        (i : ℕ) (g : Heap)
        → sys.handler_set ≡ true
        → FirstFree w.timer_ids i
        → new_linked_list r w.heap ≡ ok w.heap.fresh g
        → Yields tt (opened i dst g w) (open_pnr (some dst) r w)
    unfolding open_pnr
    open_pnr-opened i g set_up first new =
        on_heap-then (new_linked_list r) w.heap.fresh g w w.logs w.popens _ new (
          rw
            (start_timer-with_timer
              (record w { heap = g; pnrs = pnr_table.put w.pnrs (some dst) w.heap.fresh }) i dst
              set_up first)
            (log-then _ (opened i dst g w) (opened i dst g w) w.logs w.popens _ can λ l p.
              Yields-bind _
                (Yields-quiet (opened i dst g w) l p
                  (warn_requester-Yields (some dst) r (quiet (opened i dst g w) l p) can))
                λ l p. log-last _ (opened i dst g w) l p can))

    pub register_nreq-new_linked_list :
        (i : ℕ) (g : Heap)
        → sys.handler_set ≡ true
        → FirstFree w.timer_ids i
        → new_linked_list r w.heap ≡ ok w.heap.fresh g
        → pnr (some dst) w ≡ 0
        → Yields tt (opened i dst g w) (register_nreq (some dst) hop r w)
    unfolding register_nreq
    register_nreq-new_linked_list i g set_up first new free =
        rw free (open_pnr-opened i g set_up first new)

    -- Let the log be writable, malloc have memory and sigaction succeed. The first request for an
    -- address makes a list of its requester alone in a new node, enters it in the pending
    -- requests, and starts a timer of ten seconds under the lowest free id, in the table of timers
    -- for the address; nothing else changes but the log.
    pub register_nreq-opened :
        (i : ℕ)
        → sys.handler_set ≡ true
        → FirstFree w.timer_ids i
        → IsHeap w.heap
        → 0 < w.heap.room
        → pnr (some dst) w ≡ 0
        → (g : Heap) × Yields tt (opened i dst g w) (register_nreq (some dst) hop r w)
          × Chain g ((w.heap.fresh, r) ∷ [])
          × IsHeap g
          × SameOutside ((w.heap.fresh, r) ∷ []) w.heap g
    unfolding register_nreq
    register_nreq-opened i set_up first is space free =
        let (a, g, e, (at, c, is', same, fr, rm)) =
          Ensures-ok (new_linked_list-single w.heap r is space) in
        (
          g,
          register_nreq-new_linked_list i g set_up first (e ∙ ap (λ x. ok x g) at) free,
          c,
          is',
          same,
        )

    -- A requester that is listed already changes nothing but the log.
    pub register_nreq-listed :
        (cs : Cells)
        → IsHeap w.heap
        → Chain w.heap cs
        → pnr (some dst) w ≡ head_of cs
        → occurs r (values cs) ≡ true
        → Yields tt w (register_nreq (some dst) hop r w)
    unfolding register_nreq join_pnr
    register_nreq-listed [] is c at listed = absurd (ground (arith, listed))
    register_nreq-listed ((a, v) ∷ cs) is c at listed = rw at (
        rw (not_null a c.0) (
          Yields-bind _ (exists_in_list-occurs w r ((a, v) ∷ cs) can is c)
            λ l p. rw listed (log-last _ w l p can)))

    pub register_nreq-push :
        (a : ℕ) (v : Option Str) (cs : Cells) (g : Heap)
        → IsHeap w.heap
        → Chain w.heap ((a, v) ∷ cs)
        → pnr (some dst) w ≡ a
        → occurs r (v ∷ values cs) ≡ false
        → push a r w.heap ≡ ok tt g
        → Yields tt (record w { heap = g }) (register_nreq (some dst) hop r w)
    unfolding register_nreq join_pnr
    register_nreq-push a v cs g is c at other pushed = rw at (
        rw (not_null a c.0) (
          Yields-bind _ (exists_in_list-occurs w r ((a, v) ∷ cs) can is c) λ l p. rw other (
            log-then _ w _ l p _ can λ l p.
              on_heap-then (push a r) tt g w l p _ pushed
                (log-last _ (record w { heap = g }) l p can))))

    -- Another requester goes to the end of the list, and no timer is started.
    pub register_nreq-joined :
        (a : ℕ) (v : Option Str) (cs : Cells)
        → IsHeap w.heap
        → Chain w.heap ((a, v) ∷ cs)
        → 0 < w.heap.room
        → pnr (some dst) w ≡ a
        → occurs r (v ∷ values cs) ≡ false
        → (g : Heap) × Yields tt (record w { heap = g }) (register_nreq (some dst) hop r w)
          × Chain g (((a, v) ∷ cs) ++ (w.heap.fresh, r) ∷ [])
          × IsHeap g
          × (g.room + 1 ≡ w.heap.room)
    register_nreq-joined a v cs is c space at other =
        let (_, g, e, (c', is', same, fr, rm)) =
          Ensures-ok (push-append w.heap a v cs r is c space) in
        (g, register_nreq-push a v cs g is c at other e, c', is', rm)

    -- With every timer id taken, the first request for an address follows a NULL pointer, if the
    -- log is writable and malloc has memory.
    register_nreq-full :
        IsHeap w.heap
        → 0 < w.heap.room
        → AllTaken w.timer_ids
        → pnr (some dst) w ≡ 0
        → register_nreq (some dst) hop r w ≡ fault
    unfolding register_nreq open_pnr
    register_nreq-full is space taken free =
        let (a, g, e, _) = Ensures-ok (new_linked_list-single w.heap r is space) in
        rw free (
          on_heap-bind (new_linked_list r) a g w _ e
          ∙ rw
              (start_timer-full (record w { heap = g; pnrs = pnr_table.put w.pnrs (some dst) a })
                (some dst) taken)
              refl)

    pub put_self :
        (f : ℕ) (g : Heap) (i : ℕ)
        → pnr
            (some dst)
            (with_timer i dst (record w { heap = g; pnrs = pnr_table.put w.pnrs (some dst) f }))
          ≡ f
    put_self f g i =
        ground (
          arith,
          key_eq_iff (some dst) (some dst),
          pnr_table.get-put w.pnrs (some dst) f (some dst),
        )
