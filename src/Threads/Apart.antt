-- ===== src/Threads/Apart.antt =====
-- Requests for different addresses that are registered at the same time.
use name_spread.Prelude.{ℕ, ◌≤◌, ◌≡◌, refl, true, false, Option, some, List, [], ◌∷◌, arith}
use name_spread.Text.{Str}
use name_spread.Machine.Ensures.{Ensures, Ensures-weaken}
use name_spread.Machine.Cfu.{Cfu, key_eq, key_eq_iff}
use name_spread.Machine.System.{System}
use name_spread.Machine.World.{World}
use name_spread.Logger.{CanLog}
use name_spread.LinkedList.Chain.{IsHeap}
use name_spread.Timers.{pnr}
use name_spread.Pnr.Waiting.{Waiting}
use name_spread.Threads.{Thread}
use name_spread.Threads.Calls.{interleave, register_task}
use name_spread.Threads.Rely.{free_count, Kept-refl, interleave-Ready}
use name_spread.Threads.Opening.{one, Alone, Alone-Stable, register_task-Ready}

module _ ⦃pnr_table : Cfu ℕ⦄ ⦃timer_table : Cfu Str⦄ ⦃sys : System⦄ where
  Alone-Waiting :
      (dst : Str) (r : Option Str) (w : World)
      → Alone dst r w
      → IsHeap w.heap
      → Waiting (some dst) (r ∷ []) w
  Alone-Waiting dst r w (l, pos, at, cell) is = record {
    cells = (l, r) ∷ [];
    head = at;
    vals = refl;
    chain = (pos, cell, refl, tt);
    heap = is;
  }

  -- Let the log be writable, the heap have handed out no address from `fresh` on, malloc have
  -- memory for two nodes, sigaction succeed, two timer ids be free, and no request be pending for
  -- either of two different addresses. When the watcher registers a requester for the one and the
  -- responder one for the other, then whatever turns they take, call by call, both come to their
  -- end, and each address has its requester alone.
  pub interleave-Waiting :
      (turns : List Thread) (a b : Str) (r s : Option Str) (w : World)
      → CanLog w
      → sys.handler_set ≡ true
      → IsHeap w.heap
      → 2 ≤ w.heap.room
      → 2 ≤ free_count w.timer_ids
      → key_eq (some a) (some b) ≡ false
      → pnr (some a) w ≡ 0
      → pnr (some b) w ≡ 0
      → Ensures
          (λ _ v. Waiting (some a) (r ∷ []) v × Waiting (some b) (s ∷ []) v)
          (interleave turns (register_task (some a) r) (register_task (some b) s) w)
  interleave-Waiting turns a b r s w can set_up is room ids apart no_a no_b =
      Ensures-weaken
        (interleave-Ready a b apart
          (ground (arith, key_eq_iff (some a) (some b), key_eq_iff (some b) (some a), apart))
          (Alone a r) (Alone b s) (Alone-Stable a r) (Alone-Stable b s) turns
          (register_task (some a) r) (register_task (some b) s) one one w w w
          (register_task-Ready a r set_up w no_a) (register_task-Ready b s set_up w no_b)
          (Kept-refl a w) (Kept-refl b w)
          (record { can = can; heap = is; nodes = room; ids = ids }))
        λ _ v (p, q, h). (Alone-Waiting a r v p h, Alone-Waiting b s v q h)
