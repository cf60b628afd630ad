-- ===== src/Threads/Rely.antt =====
-- Two threads that register requests for different addresses: what each relies on, and what the
-- other leaves it, at every call.
use name_spread.Prelude.{
  ℕ, zero, suc, ◌+◌, ◌≤◌, ◌<◌, ◌≡◌, refl, Bool-cases, false, inl, inr, Option, some, List, [], ◌∷◌,
  ◌==◌, if◌then◌else◌, arith, ◌∙◌, set, get_elem?,
}
use name_spread.Text.{Str}
use name_spread.Machine.Run.{ok}
use name_spread.Machine.Ensures.{Ensures, Ensures-weaken}
use name_spread.Machine.Cfu.{Cfu, key_eq}
use name_spread.Machine.System.{System}
use name_spread.Machine.World.{World, Heap, Node}
use name_spread.Logger.{CanLog}
use name_spread.LinkedList.Chain.{IsHeap, SameOutside, not_null}
use name_spread.Timers.{pnr}
use name_spread.Timers.Ids.{FirstFree, AllTaken}
use name_spread.Timers.Slots.{first-or-taken}
use name_spread.Threads.{Thread, watcher, responder}
use name_spread.Threads.Calls.{Task, finished, call, interleave}
use name_spread.Prelude.{
  ℕ, zero, suc, ◌+◌, ◌≤◌, ◌<◌, ◌≡◌, refl, false, Option, some, List, [], ◌∷◌, ◌==◌, if◌then◌else◌,
  arith, ◌∙◌,
}
use name_spread.Text.{Str}
use name_spread.Machine.Run.{ok}
use name_spread.Machine.Ensures.{Ensures, ensured, Ensures-bind, Ensures-weaken}
use name_spread.Machine.Cfu.{Cfu, key_eq}
use name_spread.Machine.System.{System}
use name_spread.Machine.World.{World, Node}
use name_spread.Logger.{CanLog}
use name_spread.LinkedList.Chain.{IsHeap}
use name_spread.Timers.{pnr}
use name_spread.Threads.{Thread, watcher, responder}
use name_spread.Threads.Calls.{Task, finished, call, interleave, run_task}

unfoldable pub free_count : List ℕ → ℕ
free_count [] = 0
free_count (t ∷ ts) = let rest = free_count ts in if t == 0 then suc rest else rest

pub free_count-set :
    (ids : List ℕ) (i v : ℕ)
    → get_elem? ids i ≡ some 0
    → 0 < v
    → free_count (set ids i v) + 1 ≡ free_count ids
unfolding free_count
free_count-set [] i v f pos = absurd (ground (arith, f))
free_count-set (t ∷ ids) zero v f pos = ground (arith, f, pos)
free_count-set (t ∷ ids) (suc i) v f pos = ground (arith, free_count-set ids i v f pos)

free_count-taken : (ids : List ℕ) → AllTaken ids → free_count ids ≡ 0
unfolding free_count
free_count-taken [] taken = refl
free_count-taken (zero ∷ ids) taken = absurd (taken 0 refl)
free_count-taken (suc t ∷ ids) taken =
    rw (not_null (suc t) (omega arith)) (free_count-taken ids (λ j. taken (suc j)))

pub some_free : (ids : List ℕ) → 0 < free_count ids → (i : ℕ) × FirstFree ids i
some_free ids pos = elim (first-or-taken ids) [
  | inl f ↦ f
  | inr taken ↦ absurd (omega (arith, pos, free_count-taken ids taken))
]

-- A node that is in use is not the new one.
pub in_use :
    (h g : Heap) (is : IsHeap h) (r : Option Str)
    → SameOutside ((h.fresh, r) ∷ []) h g
    → (a : ℕ) (n : Node) → h.cell a ≡ some n
    → g.cell a ≡ some n
in_use h g is r same a n at = elim (Bool-cases (a == h.fresh)) [
  | inl e ↦ absurd (ground (arith, e, at, is.unused a))
  | inr ne ↦ same a (ground (arith, ne)) ∙ at
]

-- How many nodes and timer ids a thread may still take.
pub record Need : Type 0 where
  pub nodes : ℕ
  pub ids : ℕ

module _ ⦃pnr_table : Cfu ℕ⦄ ⦃timer_table : Cfu Str⦄ ⦃sys : System⦄ where
  -- There is enough for both threads, and the log can be written.
  pub record Enough (n o : Need) (w : World) : Type 0 where
    pub can : CanLog w
    pub heap : IsHeap w.heap
    pub nodes : n.nodes + o.nodes ≤ w.heap.room
    pub ids : n.ids + o.ids ≤ free_count w.timer_ids

  pub Enough-swap : (n o : Need) (w : World) → Enough n o w → Enough o n w
  Enough-swap n o w e = record {
    can = e.can;
    heap = e.heap;
    nodes = omega (arith, e.nodes);
    ids = omega (arith, e.ids);
  }

  -- The address keeps its list, and no node that is in use changes.
  pub record Kept (dst : Str) (w v : World) : Type 0 where
    pub list : pnr (some dst) v ≡ pnr (some dst) w
    pub cells : (a : ℕ) (n : Node) → w.heap.cell a ≡ some n → v.heap.cell a ≡ some n

  pub Kept-refl : (dst : Str) (w : World) → Kept dst w w
  Kept-refl dst w = record { list = refl; cells = λ a n e. e }

  pub Kept-trans : (dst : Str) (u v w : World) → Kept dst u v → Kept dst v w → Kept dst u w
  Kept-trans dst u v w k l = record {
    list = l.list ∙ k.list;
    cells = λ a n e. l.cells a n (k.cells a n e);
  }

  -- Whatever is kept for `dst` meanwhile, each call of the thread returns, takes no more than the thread's
  -- need, keeps what other addresses have, and leads to `Q`.
  unfoldable pub Ready : Str → (World → Type 0) → Task → Need → World → Type 0
  Ready dst Q finished n w = Q w
  Ready dst Q (call {B} m next) n w =
      (v : World) (o : Need)
      → Kept dst w v
      → Enough n o v
      → (b : B) × (u : World) × (n' : Need) × (m v ≡ ok b u)
        × ((other : Str) → key_eq (some dst) (some other) ≡ false → Kept other v u)
        × Enough n' o u
        × Ready dst Q (next b) n' u

  -- A property of the world that holds as long as the address's list and the nodes are kept.
  abbrev pub Stable : Str → (World → Type 0) → Type 0
  Stable dst Q = (w v : World) → Kept dst w v → Q w → Q v

  module _ (dst other : Str) (apart : key_eq (some dst) (some other) ≡ false) (Q : World → Type 0)
      (stable : Stable dst Q) where
    -- What a thread that runs without a break comes to.
    pub run_task-Ready :
        (s : Task) (n o : Need) (w v : World)
        → Ready dst Q s n w
        → Kept dst w v
        → Enough n o v
        → Ensures (λ _ u. Q u × Kept other v u × ((n' : Need) × Enough n' o u)) (run_task s v)
    unfolding run_task Ready
    run_task-Ready finished n o w v r k e = ensured (stable w v k r, Kept-refl other v, (n, e))
    run_task-Ready (call m next) n o w v r k e =
        let (b, u, n', run, keeps, e', r') = r v o k e in
        rw run (
          Ensures-weaken (run_task-Ready (next b) n' o u u r' (Kept-refl dst u) e')
            λ _ x (q, kept, enough). (q, Kept-trans other v u x (keeps other apart) kept, enough))

  module _ (dst_w dst_r : Str) (apart : key_eq (some dst_w) (some dst_r) ≡ false)
      (apart' : key_eq (some dst_r) (some dst_w) ≡ false) (P Q : World → Type 0)
      (stable_w : Stable dst_w P) (stable_r : Stable dst_r Q) where
    -- The watcher comes to its end after the responder.
    watcher_last :
        (s : Task) (n o : Need) (w v : World)
        → Ready dst_w P s n w
        → Q v
        → Kept dst_w w v
        → Enough n o v
        → Ensures (λ _ u. P u × Q u × IsHeap u.heap) (run_task s v)
    watcher_last s n o w v r q k e =
        Ensures-weaken (run_task-Ready dst_w dst_r apart P stable_w s n o w v r k e)
          λ _ u (p, kept, (m, e')). (p, stable_r v u kept q, e'.heap)

    responder_last :
        (t : Task) (n o : Need) (w v : World)
        → Ready dst_r Q t o w
        → P v
        → Kept dst_r w v
        → Enough n o v
        → Ensures (λ _ u. P u × Q u × IsHeap u.heap) (run_task t v)
    responder_last t n o w v r p k e =
        Ensures-weaken
          (run_task-Ready dst_r dst_w apart' Q stable_r t o n w v r k (Enough-swap n o v e))
          λ _ u (q, kept, (m, e')). (stable_w v u kept p, q, e'.heap)

    -- Whatever turns the threads take, both come to what they come to alone.
    pub interleave-Ready :
        (turns : List Thread) (s t : Task) (n o : Need) (w x v : World)
        → Ready dst_w P s n w
        → Ready dst_r Q t o x
        → Kept dst_w w v
        → Kept dst_r x v
        → Enough n o v
        → Ensures (λ _ u. P u × Q u × IsHeap u.heap) (interleave turns s t v)
    unfolding interleave Ready run_task
    interleave-Ready [] s t n o w x v r r' k k' e =
        Ensures-bind
          (run_task-Ready dst_r dst_w apart' Q stable_r t o n x v r' k' (Enough-swap n o v e))
          λ _ u (q, kept, (m, e')).
            watcher_last s n m w u r q (Kept-trans dst_w w v u k kept) (Enough-swap m n u e')
    interleave-Ready (watcher ∷ turns) finished t n o w x v r r' k k' e =
        responder_last t n o x v r' (stable_w w v k r) k' e
    interleave-Ready (watcher ∷ turns) (call m next) t n o w x v r r' k k' e =
        let (b, u, n', run, keeps, e', next_r) = r v o k e in
        rw run (
          interleave-Ready turns (next b) t n' o u x u next_r r' (Kept-refl dst_w u)
            (Kept-trans dst_r x v u k' (keeps dst_r apart)) e')
    interleave-Ready (responder ∷ turns) s finished n o w x v r r' k k' e =
        watcher_last s n o w v r (stable_r x v k' r') k e
    interleave-Ready (responder ∷ turns) s (call m next) n o w x v r r' k k' e =
        let (b, u, o', run, keeps, e', next_r) = r' v n k' (Enough-swap n o v e) in
        rw run (
          interleave-Ready turns s (next b) n o' w u u r next_r
            (Kept-trans dst_w w v u k (keeps dst_w apart')) (Kept-refl dst_r u)
            (Enough-swap o' n u e'))
