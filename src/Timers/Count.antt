-- ===== src/Timers/Count.antt =====
-- How many of the timer ids are in use.
use name_spread.Prelude.{
  ℕ, zero, suc, ◌+◌, ◌<◌, ◌≤◌, ◌≡◌, refl, some, List, [], ◌∷◌, ◌==◌, get_elem?, set, length,
  replicate, if◌then◌else◌, arith,
}
use name_spread.Timers.Ids.{AllTaken}

unfoldable pub taken : List ℕ → ℕ
taken [] = 0
taken (t ∷ ids) = (if t == 0 then 0 else 1) + taken ids

pub taken-set :
    (ids : List ℕ) (i k : ℕ) → get_elem? ids i ≡ some (k + 1) → taken (set ids i 0) + 1 ≡ taken ids
unfolding taken
taken-set [] i k at = absurd (ground (arith, at))
taken-set (t ∷ ids) zero k at = ground (arith, at)
taken-set (t ∷ ids) (suc i) k at = omega (arith, taken-set ids i k at)

pub taken-le : (ids : List ℕ) → taken ids ≤ length ids
unfolding taken
taken-le [] = omega arith
taken-le (t ∷ ids) = ground (arith, taken-le ids)

-- An id that is 0 is put in use.
pub taken-set_new :
    (ids : List ℕ) (i k : ℕ) → get_elem? ids i ≡ some 0 → taken (set ids i (k + 1)) ≡ taken ids + 1
unfolding taken
taken-set_new [] i k at = absurd (ground (arith, at))
taken-set_new (t ∷ ids) zero k at = ground (arith, at)
taken-set_new (t ∷ ids) (suc i) k at = omega (arith, taken-set_new ids i k at)

pub taken-lt : (ids : List ℕ) (i : ℕ) → get_elem? ids i ≡ some 0 → taken ids < length ids
unfolding taken
taken-lt [] i at = absurd (ground (arith, at))
taken-lt (t ∷ ids) zero at = ground (arith, at, taken-le ids)
taken-lt (t ∷ ids) (suc i) at = ground (arith, taken-lt ids i at)

pub taken-all : (ids : List ℕ) → AllTaken ids → taken ids ≡ length ids
unfolding taken
taken-all [] all = refl
taken-all (t ∷ ids) all = ground (arith, all 0, taken-all ids (λ j. all (suc j)))

pub taken-replicate : (n : ℕ) → taken (replicate n 0) ≡ 0
unfolding taken
taken-replicate zero = refl
taken-replicate (suc n) = ground (arith, taken-replicate n)
