-- ===== src/Protocol/Registering.antt =====
-- register_nreq of src/route_watcher.c on the daemon's course.
use name_spread.Prelude.{
  ℕ, ◌≡◌, refl, false, Option, [], ◌∷◌, ◌++◌, ◌==◌, arith, ap, ◌∙◌, sym, subst, inl, inr,
  Bool-cases, ==_iff,
}
use name_spread.Text.{Str}
use name_spread.Machine.Run.{ok, modify, ◌>>=◌, ◌>>◌}
use name_spread.Machine.Ensures.{Ensures-ok}
use name_spread.Machine.Cfu.{Cfu}
use name_spread.Machine.System.{System}
use name_spread.Machine.World.{World, M}
use name_spread.Machine.Moves.{Sane, faulted, Sane-bind, Moves, Onward, Moves-from, moves_rules}
use name_spread.Logger.{log}
use name_spread.LinkedList.{null, new_linked_list, push}
use name_spread.LinkedList.Chain.{Cells, head_of, values, Chain, SameOutside}
use name_spread.LinkedList.Fresh.{new_linked_list-single, new_linked_list-no_room}
use name_spread.LinkedList.Push.{push-append, push-no_room}
use name_spread.Timers.{pnr, start_timer}
use name_spread.Pnr.{on_heap, warn_requester, open_pnr, join_pnr, register_nreq}
use name_spread.Pnr.Requesters.{occurs, on_heap-bind, on_heap-fault}
use name_spread.Protocol.{tables}
use name_spread.Protocol.Frame.{log-Moves}
use name_spread.Protocol.Lists.{Requesters, Evolves, begun, joins, joined}
use name_spread.Protocol.Changes.{IsPnrs-opened, IsPnrs-failed, IsPnrs-joined}
use name_spread.Protocol.Walks.{log_still, exists_in_list-occurs_still}
use name_spread.Protocol.Requests.{
  IsSound, daemon, daemon-Allows, daemon-Permits, start_timer-Moves, warn_requester-Moves,
}

module _ ⦃pnr_table : Cfu ℕ⦄ ⦃timer_table : Cfu Str⦄ ⦃sys : System⦄ where
  -- A change of the tables, and then code on the course.
  changed-then :
      {B : Type 0} (g h : Requesters) (w : World) (f : World → World) (k : M B)
      → IsSound h (tables (f w))
      → Evolves g h
      → Moves daemon k
      → Sane (λ _ t. Onward daemon g t) ((modify f >> k) w)
  changed-then g h w f k good lead moves = Moves-from daemon g (f w) k (h, good, lead) moves

  -- The end of open_pnr.
  opened-Moves :
      (dst_addr r : Option Str) (m : Str) (text : ℕ → Str)
      → Moves daemon (do id ← start_timer dst_addr; log (text id); warn_requester dst_addr r; log m)
  opened-Moves dst_addr r m text =
      search (moves_rules, start_timer-Moves, warn_requester-Moves, log-Moves daemon daemon-Permits)
        depth 12

  -- A first requester: malloc has memory for its list, or the entry is NULL.
  open_pnr_step :
      (dst_addr r : Option Str) (g : Requesters) (w : World)
      → IsSound g (tables w)
      → pnr dst_addr w ≡ 0
      → Sane (λ _ t. Onward daemon g t) (open_pnr dst_addr r w)
  unfolding open_pnr
  open_pnr_step dst_addr r g w good free = elim (Bool-cases (w.heap.room == 0)) [
    | inl full ↦
        let e = new_linked_list-no_room w.heap r (ground (arith, full)) in
        let lists = IsPnrs-failed g w.heap w.pnrs good.lists dst_addr free in
        rw (on_heap-bind (new_linked_list r) null w.heap w _ e) (
          changed-then g g w (λ v. record v { pnrs = pnr_table.put v.pnrs dst_addr null }) _
            (record { lists = lists; clock = good.clock }) begun (opened-Moves dst_addr r _ _))
    | inr space ↦
        let (a, h, e, (at, c, is, same, next, used)) =
          Ensures-ok (new_linked_list-single w.heap r good.lists.is_heap (ground (arith, space))) in
        let lists = IsPnrs-opened g w.heap w.pnrs good.lists dst_addr r h free c is same in
        rw (on_heap-bind (new_linked_list r) w.heap.fresh h w _ (e ∙ ap (λ x. ok x h) at)) (
          changed-then g (joined dst_addr r g) (record w { heap = h })
            (λ v. record v { pnrs = pnr_table.put v.pnrs dst_addr w.heap.fresh }) _
            (record { lists = lists; clock = good.clock }) (joins dst_addr r begun)
            (opened-Moves dst_addr r _ _))
  ]

  -- Another requester goes to the end of the list, if malloc has memory.
  push_step :
      (dst_addr r : Option Str) (m : Str) (a : ℕ) (v : Option Str) (cs : Cells) (g : Requesters)
      (w : World) (good : IsSound g (tables w))
      → good.lists.cells dst_addr ≡ (a, v) ∷ cs
      → occurs r (g dst_addr) ≡ false
      → Sane (λ _ t. Onward daemon g t) ((on_heap (push a r) >> log m) w)
  push_step dst_addr r m a v cs g w good at other =
      let chain = subst (Chain w.heap) at (good.lists.chain dst_addr) in
      elim (Bool-cases (w.heap.room == 0)) [
        | inl full ↦
            let e = push-no_room w.heap a v cs r good.lists.is_heap chain (ground (arith, full)) in
            rw (on_heap-fault (push a r) w (λ _. log m) e) faulted
        | inr space ↦
            let (x, h, e, (c, is, same, next, used)) =
              Ensures-ok
                (push-append w.heap a v cs r good.lists.is_heap chain (ground (arith, space))) in
            let longer = ap (λ ds. ds ++ (w.heap.fresh, r) ∷ []) at in
            let lists =
              IsPnrs-joined g w.heap w.pnrs good.lists dst_addr r h other
                (subst (Chain h) (sym longer) c) is
                (subst (λ ds. SameOutside ds w.heap h) (sym longer) same)
                (ap head_of longer ∙ sym (ap head_of at)) in
            rw (on_heap-bind (push a r) x h w (λ _. log m) e) (
              Moves-from daemon g (record w { heap = h }) (log m)
                (
                  joined dst_addr r g,
                  record { lists = lists; clock = good.clock },
                  joins dst_addr r begun,
                )
                (log-Moves daemon daemon-Permits m))
      ]

  -- An address that has requesters.
  join_pnr_step :
      (dst_addr r : Option Str) (a : ℕ) (v : Option Str) (cs : Cells) (g : Requesters) (w : World)
      (good : IsSound g (tables w))
      → good.lists.cells dst_addr ≡ (a, v) ∷ cs
      → Sane (λ _ t. Onward daemon g t) (join_pnr a dst_addr r w)
  unfolding join_pnr
  join_pnr_step dst_addr r a v cs g w good at =
      let chain = subst (Chain w.heap) at (good.lists.chain dst_addr) in
      let vals : values ((a, v) ∷ cs) ≡ g dst_addr =
        ap values (sym at) ∙ good.lists.vals dst_addr in
      Sane-bind _ (exists_in_list-occurs_still r ((a, v) ∷ cs) w good.lists.is_heap chain)
        λ found t (e, same). elim (Bool-cases found) [
          | inl listed ↦ rw listed (
              Moves-from daemon g t (log _) (g, daemon-Allows g w t same good, begun)
                (log-Moves daemon daemon-Permits _))
          | inr other ↦ rw other (
              log_still (tables w) _ t _ same λ u same'.
                let (good', at') =
                  subst (λ d. (x : IsSound g d) × (x.lists.cells dst_addr ≡ (a, v) ∷ cs))
                    (sym same') (good, at) in
                push_step dst_addr r _ a v cs g u good' at'
                  (sym (ap (occurs r) vals) ∙ sym e ∙ other))
        ]

  join_pnr_cells :
      (dst_addr r : Option Str) (cs : Cells) (g : Requesters) (w : World)
      (good : IsSound g (tables w))
      → good.lists.cells dst_addr ≡ cs
      → (pnr dst_addr w == 0) ≡ false
      → Sane (λ _ t. Onward daemon g t) (join_pnr (pnr dst_addr w) dst_addr r w)
  join_pnr_cells dst_addr r [] g w good at taken =
      absurd (ground (arith, taken, good.lists.head dst_addr, ap head_of at))
  join_pnr_cells dst_addr r ((a, v) ∷ cs) g w good at taken =
      rw (good.lists.head dst_addr ∙ ap head_of at) (join_pnr_step dst_addr r a v cs g w good at)

  pub register_nreq-Moves :
      (dst_addr next_hop r : Option Str) → Moves daemon (register_nreq dst_addr next_hop r)
  unfolding register_nreq
  register_nreq-Moves dst_addr next_hop r = record {
    at = λ g w good. elim (Bool-cases (pnr dst_addr w == 0)) [
      | inl free ↦ rw free (open_pnr_step dst_addr r g w good ((==_iff (pnr dst_addr w) 0).0 free))
      | inr taken ↦
          rw taken (join_pnr_cells dst_addr r (good.lists.cells dst_addr) g w good refl taken)
    ];
  }
