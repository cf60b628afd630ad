-- ===== src/Timers/Slots.antt =====
-- The array of timer ids: each element is 0 or its index plus 1.
use name_spread.Prelude.{
  ℕ, zero, suc, ◌+◌, ◌≡◌, refl, true, false, Option, none, some, List, [], ◌∷◌, ◌==◌, get_elem?,
  set, arith, ◌⊎◌, inl, inr, Bool-cases, ap,
}
use name_spread.Text.{Str, decimal}
use name_spread.Machine.Run.{ok, ◌>>◌}
use name_spread.Machine.Ensures.{Ensures, ensured}
use name_spread.Machine.Cfu.{Cfu}
use name_spread.Machine.System.{System}
use name_spread.Machine.World.{World}
use name_spread.Timers.{next_free_timer_id, drop_timer}
use name_spread.Timers.Ids.{
  FirstFree, AllTaken, get_elem?-set_self, next_free_timer_id-first, next_free_timer_id-none,
}
use name_spread.Timers.Handler.{drop_timer-without_timer}

-- Each element is 0 or its index plus 1.
abbrev pub IsIds : List ℕ → Type 0
IsIds ids = (j t : ℕ) → get_elem? ids j ≡ some t → (t ≡ 0) ⊎ (t ≡ j + 1)

pub set-other :
    (ids : List ℕ) (i j v : ℕ) → (i == j) ≡ false → get_elem? (set ids i v) j ≡ get_elem? ids j
set-other [] i j v ne = refl
set-other (x ∷ xs) zero zero v ne = ground (arith, ne)
set-other (x ∷ xs) zero (suc j) v ne = refl
set-other (x ∷ xs) (suc i) zero v ne = refl
set-other (x ∷ xs) (suc i) (suc j) v ne = set-other xs i j v (ground (arith, ne))

pub set-same :
    (ids : List ℕ) (i j v t : ℕ) → (i == j) ≡ true → get_elem? (set ids i v) j ≡ some t → t ≡ v
set-same [] i j v t same e = absurd (ground (arith, e))
set-same (x ∷ xs) zero zero v t same e = ground (arith, e)
set-same (x ∷ xs) zero (suc j) v t same e = absurd (ground (arith, same))
set-same (x ∷ xs) (suc i) zero v t same e = absurd (ground (arith, same))
set-same (x ∷ xs) (suc i) (suc j) v t same e = set-same xs i j v t (ground (arith, same)) e

set-restored : (ids : List ℕ) (i v t : ℕ) → get_elem? ids i ≡ some t → set (set ids i v) i t ≡ ids
set-restored [] i v t e = refl
set-restored (x ∷ xs) zero v t e = ground (arith, e)
set-restored (x ∷ xs) (suc i) v t e = ap (λ ys. x ∷ ys) (set-restored xs i v t e)

pub IsIds-set : (ids : List ℕ) (i v : ℕ) → (v ≡ 0) ⊎ (v ≡ i + 1) → IsIds ids → IsIds (set ids i v)
IsIds-set ids i v fine is j t e = elim (Bool-cases (i == j)) [
  | inl same ↦ ground (arith, fine, set-same ids i j v t same e)
  | inr ne ↦ ground (arith, is j t, set-other ids i j v ne)
]

behind_taken :
    (t : ℕ) (ids : List ℕ) (j : ℕ)
    → get_elem? (suc t ∷ ids) j ≡ some 0
    → (k : ℕ) × (j ≡ suc k) × (get_elem? ids k ≡ some 0)
behind_taken t ids zero e = absurd (ground (arith, e))
behind_taken t ids (suc j) e = (j, refl, e)

-- A search through the array ends one way or the other.
pub first-or-taken : (ids : List ℕ) → ((i : ℕ) × FirstFree ids i) ⊎ AllTaken ids
first-or-taken [] = inr (λ j e. ground (arith, e))
first-or-taken (zero ∷ ids) =
    inl (0, record { free = refl; lowest = λ j lt. absurd (omega (arith, lt)) })
first-or-taken (suc t ∷ ids) = elim (first-or-taken ids) [
  | inl (i, f) ↦ inl (
    suc i,
    record {
      free = f.free;
      lowest =
          λ j lt e. let (k, q, e') = behind_taken t ids j e in f.lowest k (omega (arith, lt, q)) e';
    },
  )
  | inr taken ↦ inr (λ j e. let (k, q, e') = behind_taken t ids j e in taken k e')
]

module _ ⦃pnr_table : Cfu ℕ⦄ ⦃timer_table : Cfu Str⦄ ⦃sys : System⦄ where
  -- What next_free_timer_id does to the array.
  abbrev pub Taken : List ℕ → Option ℕ → List ℕ → Type 0
  Taken ids none ids' = AllTaken ids × (ids' ≡ ids)
  Taken ids (some i) ids' = FirstFree ids i × (ids' ≡ set ids i (i + 1))

  -- If each timer id is 0 or its index plus 1, next_free_timer_id returns, and this still holds.
  -- It returns NULL and changes no id if none is 0, and else the lowest element that is 0, which
  -- then holds its index plus 1, while no other changes.
  next_free_timer_id-IsIds :
      (w : World)
      → IsIds w.timer_ids
      → Ensures (λ r v. Taken w.timer_ids r v.timer_ids × IsIds v.timer_ids) (next_free_timer_id w)
  next_free_timer_id-IsIds w is = elim (first-or-taken w.timer_ids) [
    | inl (i, f) ↦
        rw (next_free_timer_id-first w i f)
          (ensured ((f, refl), IsIds-set w.timer_ids i (i + 1) (inr refl) is))
    | inr taken ↦ rw (next_free_timer_id-none w taken) (ensured ((taken, refl), is))
  ]

  pub drop_timer-next_free_timer_id :
      (w : World) (i : ℕ)
      → FirstFree w.timer_ids i
      → (next_free_timer_id >> drop_timer (i + 1)) w
        ≡ ok tt (record w { timers = timer_table.delete w.timers (decimal (i + 1)) })
  drop_timer-next_free_timer_id w i f =
      rw
        (
          next_free_timer_id-first w i f,
          drop_timer-without_timer i (record w { timer_ids = set w.timer_ids i (i + 1) })
              (get_elem?-set_self w.timer_ids i 0 (i + 1) f.free),
          set-restored w.timer_ids i (i + 1) 0 f.free,
        )
        refl
