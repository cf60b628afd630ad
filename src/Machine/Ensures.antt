-- ===== src/Machine/Ensures.antt =====
-- Total correctness of a run: it returns, with no fault, exit or cut-off loop, and its result and
-- final state satisfy a predicate.
use name_spread.Prelude.{◌≡◌}
use name_spread.Machine.Run.{Run, ok, Cmd, and_then}

pub data Ensures {S A : Type 0} (P : A → S → Type 0) : Run S A → Type 0 where
  ensured : {a : A} {s : S} → P a s → Ensures P (ok a s)

module _ {S A : Type 0} {P : A → S → Type 0} where
  pub Ensures-bind :
      {B : Type 0} {Q : B → S → Type 0} {r : Run S A} {k : A → Cmd S B}
      → Ensures P r
      → ((a : A) (s : S) → P a s → Ensures Q (k a s))
      → Ensures Q (and_then r k)
  Ensures-bind (ensured p) next = next _ _ p

  pub Ensures-weaken :
      {Q : A → S → Type 0} {r : Run S A}
      → Ensures P r
      → ((a : A) (s : S) → P a s → Q a s)
      → Ensures Q r
  Ensures-weaken (ensured p) weaken = ensured (weaken _ _ p)

  -- A run that returns is known by its result.
  pub Ensures-ok : {r : Run S A} → Ensures P r → (a : A) × (s : S) × (r ≡ ok a s) × P a s
  Ensures-ok (ensured {a} {s} p) = (a, s, λ i. ok a s, p)
