-- ===== src/Machine/Moves.antt =====
-- What every outcome of a piece of code satisfies, and relations between the states before and after
-- it, with one rule for each way to build code.
use name_spread.Prelude.{◌≡◌, subst, Bool, true, false, if◌then◌else◌, Option, none, some}
use name_spread.Machine.Run.{
  Run, ok, fault, exited, out_of_fuel, Cmd, and_then, pure, crash, leave, gets, need, modify, ◌>>=◌,
  ◌>>◌,
}

-- If the run returns, its result and its state satisfy `P`; a loop was cut off only if `Cut` holds, and
-- the process has left only if `Leave` does.
pub data Runs {S A : Type 0} (Cut Leave : Type 0) (P : A → S → Type 0) : Run S A → Type 0 where
  returned : {a : A} {s : S} → P a s → Runs Cut Leave P (ok a s)
  faulted : Runs Cut Leave P fault
  left : Leave → (s : S) → Runs Cut Leave P (exited s)
  cut_off : Cut → Runs Cut Leave P out_of_fuel

-- No loop was cut off.
abbrev pub Sane : {S A : Type 0} → (A → S → Type 0) → Run S A → Type 0
Sane P r = Runs ⊥ (Unit {0}) P r

pub Sane-bind :
    {S A B Cut Leave : Type 0} {P : A → S → Type 0} {Q : B → S → Type 0} {r : Run S A}
    (k : A → Cmd S B)
    → Runs Cut Leave P r
    → ((a : A) (s : S) → P a s → Runs Cut Leave Q (k a s))
    → Runs Cut Leave Q (and_then r k)
Sane-bind k (returned p) next = next _ _ p
Sane-bind k faulted next = faulted
Sane-bind k (left l s) next = left l s
Sane-bind k (cut_off c) next = cut_off c

pub Sane-weaken :
    {S A Cut Leave : Type 0} {P Q : A → S → Type 0} {r : Run S A}
    → Runs Cut Leave P r
    → ((a : A) (s : S) → P a s → Q a s)
    → Runs Cut Leave Q r
Sane-weaken (returned p) weaken = returned (weaken _ _ p)
Sane-weaken faulted weaken = faulted
Sane-weaken (left l s) weaken = left l s
Sane-weaken (cut_off c) weaken = cut_off c

-- A run on which no loop was cut off is also one on which one may be.
pub Sane-loosen :
    {S A : Type 0} {P : A → S → Type 0} {r : Run S A} → Sane P r → Runs (Unit {0}) (Unit {0}) P r
Sane-loosen (returned p) = returned p
Sane-loosen faulted = faulted
Sane-loosen (left l s) = left l s
Sane-loosen (cut_off c) = absurd c

-- A run that returns.
pub ran :
    {S A Cut Leave : Type 0} {P : A → S → Type 0} {a : A} {s : S} {r : Run S A}
    → Runs Cut Leave P r
    → r ≡ ok a s
    → P a s
ran runs e = elim (subst (Runs _ _ _) e runs) [ returned p ↦ p ]

-- A course has a view of the state (`Good g s` says that `g` is one), which may change as `Leads` says.
-- `Cut` is empty on a course on which no loop may be cut off, `Leave` on one on which the process may
-- not leave.
pub record Course (S : Type 0) : Type 1 where
  pub Cut : Type 0
  pub Leave : Type 0
  pub View : Type 0
  pub Good : View → S → Type 0
  pub Leads : View → View → Type 0
  pub stay : (g : View) → Leads g g
  pub follow : (g h k : View) → Leads g h → Leads h k → Leads g k

-- The state has a view that `g` leads to.
abbrev pub Onward : {S : Type 0} (c : Course S) → c.View → S → Type 0
Onward c g t = (h : c.View) × c.Good h t × c.Leads g h

-- From a good state no loop is cut off and the process does not leave unless the course allows it, and
-- if the code returns the view has moved by the course.
pub record Moves {S A : Type 0} (c : Course S) (m : Cmd S A) : Type 0 where
  pub at : (g : c.View) (s : S) → c.Good g s → Runs c.Cut c.Leave (λ _ t. Onward c g t) (m s)

module _ {S A : Type 0} (c : Course S) where
  pub Moves-pure : (a : A) → Moves c (pure a)
  Moves-pure a = record { at = λ g s good. returned (g, good, c.stay g) }

  pub Moves-crash : Moves c (crash {A = A})
  Moves-crash = record { at = λ g s good. faulted }

  pub Moves-leave : c.Leave → Moves c (leave {A = A})
  Moves-leave l = record { at = λ g s good. left l s }

  pub Moves-gets : (f : S → A) → Moves c (gets f)
  Moves-gets f = record { at = λ g s good. returned (g, good, c.stay g) }

  pub Moves-need : (a : Option A) → Moves c (need a)
  Moves-need none = record { at = λ g s good. faulted }
  Moves-need (some a) = Moves-pure a

  pub Moves-if : (b : Bool) (m n : Cmd S A) → Moves c m → Moves c n → Moves c (if b then m else n)
  Moves-if true m n x y = x
  Moves-if false m n x y = y

-- Code that starts from a state with a view that `g` leads to.
pub Moves-from :
    {S B : Type 0} (c : Course S) (g : c.View) (t : S) (m : Cmd S B)
    → Onward c g t
    → Moves c m
    → Runs c.Cut c.Leave (λ _ u. Onward c g u) (m t)
Moves-from c g t m (h, good, lead) moves =
    Sane-weaken (moves.at h t good)
      λ b u (h', good', lead'). (h', good', c.follow g h h' lead lead')

module _ {S A B : Type 0} (c : Course S) where
  pub Moves-bind :
      (m : Cmd S A) (k : A → Cmd S B) → Moves c m → ((a : A) → Moves c (k a)) → Moves c (m >>= k)
  Moves-bind m k x y = record {
    at = λ g s good. Sane-bind k (x.at g s good) λ a t on. Moves-from c g t (k a) on (y a);
  }

  pub Moves-then : (m : Cmd S A) (k : Cmd S B) → Moves c m → Moves c k → Moves c (m >> k)
  Moves-then m k x y = Moves-bind m (λ _. k) x (λ _. y)

  -- A test on an optional value.
  pub Moves-option :
      (a : Option A) (m : Cmd S B) (k : A → Cmd S B)
      → Moves c m
      → ((x : A) → Moves c (k x))
      → Moves c (elim a as (λ _. Cmd S B) [ none ↦ m | some x ↦ k x ])
  Moves-option none m k x y = x
  Moves-option (some a) m k x y = y a

pub Moves-modify :
    {S : Type 0} (c : Course S) (f : S → S)
    → ((g : c.View) (s : S) → c.Good g s → Onward c g (f s))
    → Moves c (modify f)
Moves-modify c f h = record { at = λ g s good. returned (h g s good) }

pub ruleset moves_rules = (
  Moves-pure, Moves-crash, Moves-gets, Moves-need, Moves-if, Moves-bind, Moves-then, Moves-option,
)
