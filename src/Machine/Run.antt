-- ===== src/Machine/Run.antt =====
-- Outcomes of a piece of C code over a state `S`.
use name_spread.Prelude.{Option, none, some}

-- `fault`: undefined behaviour, such as a NULL pointer that is followed or a write behind an array.
-- `exited`: the process has called exit(1). `out_of_fuel`: a loop was cut off.
pub data Run (S A : Type 0) : Type 0 where
  ok : A → S → Run S A
  fault : Run S A
  exited : S → Run S A
  out_of_fuel : Run S A

abbrev pub Cmd : Type 0 → Type 0 → Type 0
Cmd S A = S → Run S A

module _ {S A : Type 0} where
  abbrev pub pure : A → Cmd S A
  pure a s = ok a s

  abbrev pub crash : Cmd S A
  crash s = fault

  abbrev pub leave : Cmd S A
  leave s = exited s

  abbrev pub gets : (S → A) → Cmd S A
  gets f s = ok (f s) s

  -- Following a pointer that may be NULL.
  abbrev pub need : Option A → Cmd S A
  need none s = fault
  need (some a) s = ok a s

abbrev pub modify : {S : Type 0} → (S → S) → Cmd S (Unit {0})
modify f s = ok tt (f s)

module _ {S A B : Type 0} where
  abbrev pub and_then : Run S A → (A → Cmd S B) → Run S B
  and_then (ok a s) k = k a s
  and_then fault k = fault
  and_then (exited s) k = exited s
  and_then out_of_fuel k = out_of_fuel

  infixl 5 ◌>>=◌ ◌>>◌
  abbrev pub ◌>>=◌ : Cmd S A → (A → Cmd S B) → Cmd S B
  ◌>>=◌ m k s = and_then (m s) k

  abbrev pub ◌>>◌ : Cmd S A → Cmd S B → Cmd S B
  ◌>>◌ m k s = and_then (m s) (λ _. k)

-- Runs code over a part of the state.
abbrev pub on_part : {S T A : Type 0} → (S → T) → (S → T → S) → Cmd T A → Cmd S A
on_part part put m s = elim (m (part s)) [
  | ok a t ↦ ok a (put s t)
  | fault ↦ fault
  | exited t ↦ exited (put s t)
  | out_of_fuel ↦ out_of_fuel
]
