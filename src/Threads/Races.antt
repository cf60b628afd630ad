-- ===== src/Threads/Races.antt =====
-- Two requests for the same address that are registered at the same time.
use name_spread.Prelude.{
  ℕ, ◌+◌, ◌<◌, ◌≡◌, refl, true, Option, none, some, [], ◌∷◌, arith, ◌∙◌, ap, set, subst, sym,
}
use name_spread.Text.{Str}
use name_spread.Machine.Run.{ok}
use name_spread.Machine.Ensures.{Ensures, ensured, Ensures-ok}
use name_spread.Machine.Cfu.{Cfu}
use name_spread.Machine.System.{System}
use name_spread.Machine.World.{World}
use name_spread.Logger.{CanLog}
use name_spread.Logger.Yields.{quiet, Yields}
use name_spread.LinkedList.Chain.{IsHeap}
use name_spread.LinkedList.Fresh.{new_linked_list-single}
use name_spread.Timers.{pnr}
use name_spread.Timers.Ids.{FirstFree}
use name_spread.Pnr.{open_pnr}
use name_spread.Pnr.Register.{opened, open_pnr-opened, put_self}
use name_spread.Pnr.Requesters.{enlist}
use name_spread.Pnr.Waiting.{Waiting-quiet, Waiting, register_nreq-enlist}
use name_spread.Threads.{watcher, responder}
use name_spread.Threads.Calls.{
  interleave, run_task, register_task, run_task-open_task, run_task-register_task,
}

module _ ⦃pnr_table : Cfu ℕ⦄ ⦃timer_table : Cfu Str⦄ ⦃sys : System⦄ where
  -- Whether or not another request is pending, open_pnr makes its requester the only one.
  open_pnr-Waiting :
      (w : World) (dst : Str) (r : Option Str) (i : ℕ)
      → CanLog w
      → sys.handler_set ≡ true
      → FirstFree w.timer_ids i
      → IsHeap w.heap
      → 0 < w.heap.room
      → (v : World) × Yields tt v (open_pnr (some dst) r w)
        × Waiting (some dst) (r ∷ []) v
        × CanLog v
        × (v.timer_ids ≡ set w.timer_ids i (i + 1))
        × (v.heap.room + 1 ≡ w.heap.room)
  open_pnr-Waiting w dst r i can set_up first is space =
      let (a, g, e, (at, c, is', same, fr, rm)) =
        Ensures-ok (new_linked_list-single w.heap r is space) in
      (
        opened i dst g w,
        open_pnr-opened w dst none r can i g set_up first (e ∙ ap (λ x. ok x g) at),
        record {
          cells = (w.heap.fresh, r) ∷ [];
          head = put_self w dst none r can w.heap.fresh g i;
          vals = refl;
          chain = c;
          heap = is';
        },
        can,
        refl,
        rm,
      )

  run_task-opened :
      (dst_addr r : Option Str) (w : World)
      → pnr dst_addr w ≡ 0
      → run_task (register_task dst_addr r) w ≡ open_pnr dst_addr r w
  unfolding run_task
  run_task-opened dst_addr r w none_yet = rw none_yet (run_task-open_task dst_addr r w)

  module _ (w : World) (dst : Str) (r s : Option Str) (can : CanLog w) (i j : ℕ)
      (set_up : sys.handler_set ≡ true) (first : FirstFree w.timer_ids i)
      (second : FirstFree (set w.timer_ids i (i + 1)) j) (is : IsHeap w.heap)
      (space : 1 < w.heap.room) (none_yet : pnr (some dst) w ≡ 0) where
    in_turn :
        Ensures
          (λ _ v. Waiting (some dst) (enlist r (s ∷ [])) v)
          (interleave [] (register_task (some dst) r) (register_task (some dst) s) w)
    unfolding interleave
    in_turn =
        let (v, y, wait, can', ids, room) =
          open_pnr-Waiting w dst s i can set_up first is (omega (arith, space)) in
        rw (run_task-opened (some dst) s w none_yet, y.run)
          (rw (run_task-register_task (some dst) none r (quiet v y.logs y.popens)) (
            register_nreq-enlist (quiet v y.logs y.popens) dst none r can' j (s ∷ []) set_up
              (subst (λ ts. FirstFree ts j) (sym ids) second) (omega (arith, room, space))
              (Waiting-quiet (some dst) (s ∷ []) v y.logs y.popens wait)))

    both_open :
        Ensures
          (λ _ v. Waiting (some dst) (r ∷ []) v)
          (interleave
            (watcher ∷ responder ∷ [])
            (register_task (some dst) r)
            (register_task (some dst) s)
            w)
    unfolding interleave
    both_open =
        let (v, y, wait, can', ids, room) =
          open_pnr-Waiting w dst s i can set_up first is (omega (arith, space)) in
        let (v', y', wait', can2, ids2, room2) =
          open_pnr-Waiting (quiet v y.logs y.popens) dst r j can' set_up
            (subst (λ ts. FirstFree ts j) (sym ids) second) wait.heap
            (omega (arith, room, space)) in
        rw none_yet (
          rw (run_task-open_task (some dst) s w, y.run)
            (rw (run_task-open_task (some dst) r (quiet v y.logs y.popens), y'.run)
              (ensured (Waiting-quiet (some dst) (r ∷ []) v' y'.logs y'.popens wait'))))

    -- Let the log be writable, the heap have handed out no address from `fresh` on, malloc have
    -- memory for two nodes, sigaction succeed, two timer ids be free and no request be pending for
    -- the address. When the watcher registers the requester `r` for it and the responder the
    -- requester `s`, then in the order in which the responder is first and neither is interrupted
    -- the requesters are `s` and then `r`, unless it has the text of `s`; if each looks for the
    -- pending request before the other opens one, and the responder goes on first, `r` is the only
    -- requester.
    pub register_task-lost :
        Ensures
          (λ _ v. Waiting (some dst) (enlist r (s ∷ [])) v)
          (interleave [] (register_task (some dst) r) (register_task (some dst) s) w)
        × Ensures
            (λ _ v. Waiting (some dst) (r ∷ []) v)
            (interleave
              (watcher ∷ responder ∷ [])
              (register_task (some dst) r)
              (register_task (some dst) s)
              w)
    register_task-lost = (in_turn, both_open)
