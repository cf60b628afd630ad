-- ===== src/Threads/Opening.antt =====
-- register_nreq for an address with no pending request, next to a thread that does so for another.
use name_spread.Prelude.{
  ℕ, ◌+◌, ◌<◌, ◌≡◌, refl, Bool, true, false, Option, some, List, arith, ◌∙◌, sym, subst,
}
use name_spread.Text.{Str}
use name_spread.Machine.Run.{ok, Cmd, on_part}
use name_spread.Machine.Ensures.{Ensures-ok}
use name_spread.Machine.Cfu.{Cfu, key_eq, key_eq_iff}
use name_spread.Machine.System.{System}
use name_spread.Machine.World.{World, M, Heap}
use name_spread.Logger.{CanLog}
use name_spread.Logger.Yields.{quiet, Yields, log-Yields}
use name_spread.LinkedList.{node, null}
use name_spread.LinkedList.Fresh.{new_linked_list-single}
use name_spread.Timers.{pnr, start_timer}
use name_spread.Timers.Ids.{with_timer, start_timer-with_timer}
use name_spread.LinkedList.{new_linked_list}
use name_spread.Pnr.{on_heap}
use name_spread.Pnr.Register.{warn_requester-Yields}
use name_spread.Threads.Calls.{Task, finished, call, said_task, put_task, open_task, register_task}
use name_spread.Threads.Rely.{
  free_count-set, some_free, in_use, Need, Enough, Kept, Kept-refl, Kept-trans, Ready, Stable,
}

-- Nothing more is taken.
abbrev no_need : Need
no_need = record { nodes = 0; ids = 0 }

abbrev one_id : Need
one_id = record { nodes = 0; ids = 1 }

abbrev pub one : Need
one = record { nodes = 1; ids = 1 }

module _ ⦃pnr_table : Cfu ℕ⦄ ⦃timer_table : Cfu Str⦄ ⦃sys : System⦄ where
  -- The address has a list of one node with the requester.
  abbrev pub Alone : Str → Option Str → World → Type 0
  Alone dst r w = (l : ℕ) × (0 < l) × (pnr (some dst) w ≡ l) × (w.heap.cell l ≡ some (node r null))

  pub Alone-Stable : (dst : Str) (r : Option Str) → Stable dst (Alone dst r)
  Alone-Stable dst r w v k (l, pos, at, cell) = (l, pos, k.list ∙ at, k.cells l (node r null) cell)

  Kept-quiet :
      (dst : Str) (w : World) (l : List (Str × Str)) (p : List Bool) → Kept dst w (quiet w l p)
  Kept-quiet dst w l p = record { list = refl; cells = λ a n e. e }

  Enough-quiet :
      (n o : Need) (w : World) (l : List (Str × Str)) (p : List Bool)
      → Enough n o w
      → Enough n o (quiet w l p)
  Enough-quiet n o w l p e = record { can = e.can; heap = e.heap; nodes = e.nodes; ids = e.ids }

  on_heap-ok :
      {A : Type 0} (m : Cmd Heap A) (v : World) (a : A) (g : Heap)
      → m v.heap ≡ ok a g
      → on_heap m v ≡ ok a (record v { heap = g })
  on_heap-ok m v a g e = rw (e, on_part) refl

  module _ (dst : Str) (r : Option Str) where
    -- A call that changes nothing but the log.
    says-Ready :
        (Q : World → Type 0) (m : M (Unit {0})) (next : Task) (n : Need) (w : World)
        → ((v : World) → CanLog v → Yields tt v (m v))
        → ((v : World) → Kept dst w v → Ready dst Q next n v)
        → Ready dst Q (call m (λ _. next)) n w
    unfolding Ready
    says-Ready Q m next n w y ready v o k e =
        let said = y v e.can in
        (
          tt,
          quiet v said.logs said.popens,
          n,
          said.run,
          λ other apart. Kept-quiet other v said.logs said.popens,
          Enough-quiet n o v said.logs said.popens e,
          ready (quiet v said.logs said.popens) (
              Kept-trans dst w v (quiet v said.logs said.popens) k
                (Kept-quiet dst v said.logs said.popens)),
        )

    done-Ready : (Q : World → Type 0) (n : Need) (w : World) → Q w → Ready dst Q finished n w
    unfolding Ready
    done-Ready Q n w q = q

    said_task-Ready :
        (id : ℕ) (w : World)
        → Alone dst r w
        → Ready dst (Alone dst r) (said_task (some dst) r id) no_need w
    said_task-Ready id w alone = says-Ready (Alone dst r) _ _ _ w (log-Yields _) λ v k.
        says-Ready (Alone dst r) _ _ _ v (warn_requester-Yields (some dst) r) λ v' k'.
          says-Ready (Alone dst r) _ _ _ v' (log-Yields _) λ u l.
            done-Ready (Alone dst r) _ u
              (Alone-Stable dst r w u (Kept-trans dst w v u k (Kept-trans dst v v' u k' l)) alone)

    module _ (set_up : sys.handler_set ≡ true) where
      timer_task-Ready :
          (w : World)
          → Alone dst r w
          → Ready dst
              (Alone dst r)
              (call (start_timer (some dst)) λ id. said_task (some dst) r id)
              one_id
              w
      unfolding Ready
      timer_task-Ready w alone v o k e =
          let (i, f) = some_free v.timer_ids (omega (arith, e.ids)) in
          (
            i + 1,
            with_timer i dst v,
            no_need,
            start_timer-with_timer v i dst set_up f,
            λ other apart. record { list = refl; cells = λ a n at. at },
            record {
              can = e.can;
              heap = e.heap;
              nodes = e.nodes;
              ids = omega (arith, e.ids, free_count-set v.timer_ids i (i + 1) f.free (omega arith));
            },
            said_task-Ready (i + 1) (with_timer i dst v) (
                Alone-Stable dst r w (with_timer i dst v)
                  (Kept-trans dst w v (with_timer i dst v) k
                    (record { list = refl; cells = λ a n at. at }))
                  alone),
          )

      put_self :
          (v : World) (l : ℕ)
          → pnr (some dst) (record v { pnrs = pnr_table.put v.pnrs (some dst) l }) ≡ l
      put_self v l = ground (
        arith,
        key_eq_iff (some dst) (some dst),
        pnr_table.get-put v.pnrs (some dst) l (some dst),
      )

      put_other :
          (v : World) (l : ℕ) (other : Str)
          → key_eq (some dst) (some other) ≡ false
          → pnr (some other) (record v { pnrs = pnr_table.put v.pnrs (some dst) l })
            ≡ pnr (some other) v
      put_other v l other apart =
          ground (arith, apart, pnr_table.get-put v.pnrs (some dst) l (some other))

      put_task-Ready :
          (w : World) (l : ℕ)
          → 0 < l
          → w.heap.cell l ≡ some (node r null)
          → Ready dst (Alone dst r) (put_task (some dst) r l) one_id w
      unfolding Ready
      put_task-Ready w l pos cell v o k e =
          let u = record v { pnrs = pnr_table.put v.pnrs (some dst) l } in
          (
            tt,
            u,
            one_id,
            refl,
            λ other apart. record { list = put_other v l other apart; cells = λ a n at. at },
            record { can = e.can; heap = e.heap; nodes = e.nodes; ids = e.ids },
            timer_task-Ready u (l, pos, put_self v l, k.cells l (node r null) cell),
          )

      open_task-Ready : (w : World) → Ready dst (Alone dst r) (open_task (some dst) r) one w
      unfolding Ready
      open_task-Ready w v o k e =
          let (a, g, run, (at, (pos, cell, out, rest), is', same, fr, rm)) =
            Ensures-ok (new_linked_list-single v.heap r e.heap (omega (arith, e.nodes))) in
          let u = record v { heap = g } in
          (
            a,
            u,
            one_id,
            on_heap-ok (new_linked_list r) v a g run,
            λ other apart. record { list = refl; cells = in_use v.heap g e.heap r same },
            record { can = e.can; heap = is'; nodes = omega (arith, e.nodes, rm); ids = e.ids },
            subst (λ l. Ready dst (Alone dst r) (put_task (some dst) r l) one_id u) (sym at)
                (put_task-Ready u v.heap.fresh pos cell),
          )

      pub register_task-Ready :
          (w : World)
          → pnr (some dst) w ≡ 0
          → Ready dst (Alone dst r) (register_task (some dst) r) one w
      unfolding Ready
      register_task-Ready w none_yet v o k e = (
        pnr (some dst) v,
        v,
        one,
        refl,
        λ other apart. Kept-refl other v,
        e,
        rw (k.list ∙ none_yet) (open_task-Ready v),
      )
