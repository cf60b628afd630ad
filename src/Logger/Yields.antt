-- ===== src/Logger/Yields.antt =====
-- What a run comes to when the log and the retried pipes are left out: it returns, with a known
-- result and a known world.
use name_spread.Prelude.{ℕ, ◌≡◌, refl, Bool, List, ◌++◌, ◌∷◌, []}
use name_spread.Text.{Str, space}
use name_spread.Machine.Run.{Run, ok, and_then, Cmd}
use name_spread.Machine.Cfu.{Cfu}
use name_spread.Machine.System.{System}
use name_spread.Machine.World.{World}
use name_spread.Logger.{log, log_path, CanLog}

module _ ⦃pnr_table : Cfu ℕ⦄ ⦃timer_table : Cfu Str⦄ where
  abbrev pub quiet : World → List (Str × Str) → List Bool → World
  quiet w l p = record w { logs = l; popens = p }

  -- The run returns `a`, in the world `w` but for its `logs` and `popens`.
  pub record Yields {A : Type 0} (a : A) (w : World) (r : Run World A) : Type 0 where
    pub logs : List (Str × Str)
    pub popens : List Bool
    pub run : r ≡ ok a (quiet w logs popens)

  pub Yields-bind :
      {A B : Type 0} {a : A} {b : B} {w v : World} {m : Run World A} (k : A → Cmd World B)
      → Yields a w m
      → ((l : List (Str × Str)) (p : List Bool) → Yields b v (k a (quiet w l p)))
      → Yields b v (and_then m k)
  Yields-bind k y next = rw y.run (next y.logs y.popens)

  -- What a run does from a world that differs in the log does not depend on it.
  pub Yields-quiet :
      {A : Type 0} {a : A} (w : World) (l : List (Str × Str)) (p : List Bool) {r : Run World A}
      → Yields a (quiet w l p) r
      → Yields a w r
  Yields-quiet w l p y = record { logs = y.logs; popens = y.popens; run = y.run }

  pub Yields-here :
      {A : Type 0} (a : A) (w : World) (l : List (Str × Str)) (p : List Bool)
      → Yields a w (ok a (quiet w l p))
  Yields-here a w l p = record { logs = l; popens = p; run = refl }

  pub Yields-pure : {A : Type 0} (a : A) (w : World) → Yields a w (ok a w)
  Yields-pure a w = record { logs = w.logs; popens = w.popens; run = refl }

module _ ⦃pnr_table : Cfu ℕ⦄ ⦃timer_table : Cfu Str⦄ ⦃sys : System⦄ where
  pub log-Yields : (m : Str) (w : World) → CanLog w → Yields tt w (log m w)
  unfolding log
  log-Yields m w can = record {
    logs = w.logs ++ (log_path w.own_addr, sys.timestamp w.clock ++ space ∷ m) ∷ [];
    popens = w.popens;
    run = rw can;
  }

  -- A line of log between two steps.
  pub log-then :
      {B : Type 0} {b : B} (m : Str) (w v : World) (l : List (Str × Str)) (p : List Bool)
      (k : Cmd World B)
      → CanLog w
      → ((l : List (Str × Str)) (p : List Bool) → Yields b v (k (quiet w l p)))
      → Yields b v (and_then (log m (quiet w l p)) (λ _. k))
  log-then m w v l p k can next =
      Yields-bind _ (Yields-quiet w l p (log-Yields m (quiet w l p) can)) next

  -- A line of log at the end.
  pub log-last :
      (m : Str) (w : World) (l : List (Str × Str)) (p : List Bool)
      → CanLog w
      → Yields tt w (log m (quiet w l p))
  log-last m w l p can = Yields-quiet w l p (log-Yields m (quiet w l p) can)
