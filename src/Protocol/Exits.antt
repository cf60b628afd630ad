-- ===== src/Protocol/Exits.antt =====
-- Where the process leaves in the handling of an event: exit(1) in log_msg of src/logger.c.
use name_spread.Prelude.{◌≡◌, true, false, ℕ, ap, sym, subst, inl, inr, Bool-cases, arith}
use name_spread.Text.{Str}
use name_spread.Machine.Run.{Run, exited}
use name_spread.Machine.Cfu.{Cfu}
use name_spread.Machine.System.{System}
use name_spread.Machine.World.{World}
use name_spread.Machine.Moves.{Runs, left, Course}
use name_spread.Logger.{CanLog, log_path}
use name_spread.Daemon.Events.{Event, handle}
use name_spread.Protocol.{Permits, Allows}
use name_spread.Protocol.Loose.{Loose, loose-Slack}
use name_spread.Protocol.Replying.{slack-Asking, slack-Listening}
use name_spread.Protocol.Events.{handle-Moves}

stayed :
    {S A Cut : Type 0} {P : A → S → Type 0} {s : S} {r : Run S A}
    → Runs Cut ⊥ P r
    → ¬ (r ≡ exited s)
stayed runs e = elim (subst (Runs _ _ _) e runs) [ left l s ↦ l ]

module _ ⦃pnr_table : Cfu ℕ⦄ ⦃timer_table : Cfu Str⦄ ⦃sys : System⦄ where
  -- The course on which the log can be written. The process does not leave on it.
  abbrev steady : Course World
  steady = record {
    Cut = Unit {0};
    Leave = ⊥;
    View = Unit {0};
    Good = λ g w. CanLog w;
    Leads = λ g h. Unit;
    stay = λ g. tt;
    follow = λ f g h p q. tt;
  }

  same_log : (s t : World) → t.own_addr ≡ s.own_addr → CanLog s → CanLog t
  same_log s t own can = subst (λ a. sys.writable (log_path a) ≡ true) (sym own) can

  steady-Allows : Allows steady
  steady-Allows g s t e good = same_log s t (ap (λ d. d.own_addr) e) good

  steady-Permits : Permits steady
  steady-Permits = record {
    keeps = λ g s t e f good. steady-Allows g s t e good;
    leaves = λ g w good cannot. ground (arith, good, cannot);
  }

  steady-Loose : Loose steady
  steady-Loose = record {
    permits = steady-Permits;
    cuts = tt;
    keeps = λ g s t f own good. same_log s t own good;
  }

  -- The handling of an event, in any state, ends in exit only if the log file of the station's
  -- address cannot be opened for appending.
  pub handle-exit :
      (e : Event) (w v : World) → handle e w ≡ exited v → sys.writable (log_path w.own_addr) ≡ false
  handle-exit e w v left_at = elim (Bool-cases (sys.writable (log_path w.own_addr))) [
    | inl can ↦
        let slack = loose-Slack steady steady-Loose in
        let steps =
          handle-Moves steady steady-Loose e (λ a. slack-Asking steady slack steady-Allows)
            (λ l. slack-Listening steady slack steady-Allows) in
        absurd (stayed (steps.at tt w can) left_at)
    | inr cannot ↦ cannot
  ]
