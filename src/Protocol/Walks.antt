-- ===== src/Protocol/Walks.antt =====
-- The walks along a list of requesters, which leave the tables alone and end.
use name_spread.Prelude.{
  ℕ, zero, suc, ◌<◌, ◌≡◌, refl, Option, none, some, [], ◌∷◌, arith, ap, ◌∙◌, inl, inr, Bool-cases,
  length,
}
use name_spread.Text.{Str, space, after_last}
use name_spread.Machine.Run.{and_then}
use name_spread.Machine.Cfu.{Cfu}
use name_spread.Machine.System.{System}
use name_spread.Machine.World.{World, Node, M}
use name_spread.Machine.Moves.{
  Sane, returned, Sane-bind, Sane-weaken, Course, Moves, Moves-bind, Moves-then, Moves-need,
  Moves-pure,
}
use name_spread.Logger.{log}
use name_spread.LinkedList.{node, load}
use name_spread.LinkedList.Chain.{
  Cells, head_of, values, Chain, IsHeap, load-ok, not_null, length-lt-fresh,
}
use name_spread.Pnr.{
  same_val, on_heap, exists_loop, exists_in_list, answer, respond_loop, respond_to_pnrs,
}
use name_spread.Pnr.Requesters.{occurs, on_heap-bind}
use name_spread.Timers.{pnr}
use name_spread.Protocol.{Tables, tables, Allows, Permits, permitted}
use name_spread.Protocol.Frame.{log-Moves, with_packet-Moves, parse_addr-Moves, more_nreps-Moves}

module _ ⦃pnr_table : Cfu ℕ⦄ ⦃timer_table : Cfu Str⦄ ⦃sys : System⦄ where
  -- The course on which the tables stay as they are.
  abbrev pub still : Course World
  still = record {
    Cut = ⊥;
    Leave = Unit {0};
    View = Tables;
    Good = λ d w. tables w ≡ d;
    Leads = λ d e. e ≡ d;
    stay = λ d. refl;
    follow = λ d e f p q. q ∙ p;
  }

  pub still-Allows : Allows still
  still-Allows d s t e good = e ∙ good

  -- Code on that course, run from one state.
  pub Moves-still :
      {A : Type 0} (m : M A) (w : World) → Moves still m → Sane (λ _ t. tables t ≡ tables w) (m w)
  Moves-still m w moves =
      Sane-weaken (moves.at (tables w) w refl) λ a t (d, good, lead). good ∙ lead

  -- A node of a list, in any state with the same tables.
  load_still :
      {A : Type 0} {P : A → World → Type 0} (d : Tables) (w : World) (a : ℕ) (n : Node)
      (k : Node → M A)
      → tables w ≡ d
      → 0 < a
      → d.heap.cell a ≡ some n
      → Sane P (k n w)
      → Sane P (and_then (on_heap (load a) w) k)
  load_still d w a n k e pos at next =
      let at' : w.heap.cell a ≡ some n = ap (λ x. x.heap.cell a) e ∙ at in
      rw (on_heap-bind (load a) n w.heap w k (load-ok w.heap a n pos at')) next

  -- A line of log between two steps.
  pub log_still :
      {A : Type 0} {P : A → World → Type 0} (d : Tables) (m : Str) (w : World) (k : M A)
      → tables w ≡ d
      → ((t : World) → tables t ≡ d → Sane P (k t))
      → Sane P (and_then (log m w) (λ _. k))
  log_still d m w k e next =
      Sane-bind (λ _. k)
        (Moves-still (log m) w (log-Moves still (permitted still still-Allows tt) m))
        λ a t q. next t (q ∙ e)

  exists_loop-occurs_still :
      (d : Tables) (elem : Option Str) (k : ℕ) (cs : Cells) (w : World)
      → tables w ≡ d
      → Chain d.heap cs
      → length cs < k
      → Sane
          (λ b t. (b ≡ occurs elem (values cs)) × (tables t ≡ d))
          (exists_loop k (head_of cs) elem w)
  unfolding exists_loop
  exists_loop-occurs_still d elem zero cs w e c lt = absurd (omega (arith, lt))
  exists_loop-occurs_still d elem (suc k) [] w e c lt =
      log_still d _ w _ e λ t q. returned (refl, q)
  exists_loop-occurs_still d elem (suc k) ((a, v) ∷ cs) w e (pos, at, out, c) lt =
      rw (not_null a pos) (
        load_still d w a (node v (head_of cs)) _ e pos at (
          log_still d _ w _ e λ t q. elim (Bool-cases (same_val v elem)) [
            | inl same ↦ rw same (returned (refl, q))
            | inr other ↦ rw other (
                log_still d _ t _ q λ t q.
                  log_still d _ t _ q
                    λ t q. exists_loop-occurs_still d elem k cs t q c (omega arith))
          ]))

  -- exists_in_list on a list of the tables.
  pub exists_in_list-occurs_still :
      (elem : Option Str) (cs : Cells) (w : World)
      → IsHeap w.heap
      → Chain w.heap cs
      → Sane
          (λ b t. (b ≡ occurs elem (values cs)) × (tables t ≡ tables w))
          (exists_in_list (head_of cs) elem w)
  unfolding exists_in_list
  exists_in_list-occurs_still elem cs w is c = log_still (tables w) _ w _ refl λ t q.
      exists_loop-occurs_still (tables w) elem w.heap.fresh cs t q c
        (length-lt-fresh w.heap is cs c)

  pub answer-Moves :
      (c : Course World)
      → Permits c
      → Allows c
      → (to : ℕ) (text : Str) (r : Option Str) → Moves c (answer to text r)
  unfolding answer
  answer-Moves c permits same to text r =
      Moves-bind c _ _ (parse_addr-Moves c permits r to _) λ to'.
        Moves-then c _ _ (with_packet-Moves c permits same to' text) (
          Moves-then c _ _ (more_nreps-Moves c permits same) (
            Moves-bind c _ _ (Moves-need c (after_last space text))
              λ name. Moves-then c _ _ (log-Moves c permits _) (Moves-pure c to')))

  respond_loop_still :
      (d : Tables) (text : Str) (k : ℕ) (cs : Cells) (to : ℕ) (w : World)
      → tables w ≡ d
      → Chain d.heap cs
      → length cs < k
      → Sane (λ _ t. tables t ≡ d) (respond_loop k (head_of cs) to text w)
  unfolding respond_loop
  respond_loop_still d text zero cs to w e c lt = absurd (omega (arith, lt))
  respond_loop_still d text (suc k) [] to w e c lt = returned e
  respond_loop_still d text (suc k) ((a, none) ∷ cs) to w e (pos, at, out, c) lt =
      rw (not_null a pos) (
        load_still d w a (node none (head_of cs)) _ e pos at
          (respond_loop_still d text k cs to w e c (omega arith)))
  respond_loop_still d text (suc k) ((a, some v) ∷ cs) to w e (pos, at, out, c) lt =
      rw (not_null a pos) (
        load_still d w a (node (some v) (head_of cs)) _ e pos at (
          Sane-bind _
            (Moves-still (answer to text (some v)) w
              (answer-Moves still (permitted still still-Allows tt) still-Allows to text (some v)))
            λ to' t q. respond_loop_still d text k cs to' t (q ∙ e) c (omega arith)))

  -- respond_to_pnrs on a list of the tables.
  pub respond_to_pnrs_still :
      (dst_addr : Option Str) (text : Str) (cs : Cells) (w : World)
      → IsHeap w.heap
      → Chain w.heap cs
      → pnr dst_addr w ≡ head_of cs
      → Sane (λ _ t. tables t ≡ tables w) (respond_to_pnrs dst_addr text w)
  unfolding respond_to_pnrs
  respond_to_pnrs_still dst_addr text cs w is c at = rw at (
      respond_loop_still (tables w) text w.heap.fresh cs 0 _ refl c
        (length-lt-fresh w.heap is cs c))
