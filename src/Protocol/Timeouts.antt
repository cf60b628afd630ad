-- ===== src/Protocol/Timeouts.antt =====
-- timeout_handler of src/timer.c on the daemon's course.
use name_spread.Prelude.{ℕ, ◌+◌, ◌≡◌, refl, some, get_elem?, subst, sym, ap, ◌∙◌}
use name_spread.Text.{Str}
use name_spread.Machine.Cfu.{Cfu}
use name_spread.Machine.System.{System}
use name_spread.Machine.World.{World}
use name_spread.Machine.Moves.{Sane, Sane-bind, Onward, Moves-from}
use name_spread.Timers.{timeout_handler}
use name_spread.Protocol.{tables}
use name_spread.Protocol.Clock.{Spares}
use name_spread.Protocol.Starting.{drop_timer-Ticks}
use name_spread.Protocol.Lists.{Requesters, IsPnrs, begun}
use name_spread.Protocol.Walks.{log_still}
use name_spread.Protocol.Requests.{IsSound, daemon, daemon-Allows}
use name_spread.Protocol.Primitives.{daemon-Primitives, daemon-Asking}
use name_spread.Protocol.Handlers.{settle-Moves}

module _ ⦃pnr_table : Cfu ℕ⦄ ⦃timer_table : Cfu Str⦄ ⦃sys : System⦄ where
  -- The signal of a timer that has run out, and so is no longer among the running ones.
  pub timeout_handler_step :
      (slot : ℕ) (g : Requesters) (w : World)
      → IsSound g (tables w)
      → get_elem? w.timer_ids slot ≡ some (slot + 1)
      → Spares slot w.alarms
      → Sane (λ _ t. Onward daemon g t) (timeout_handler slot w)
  unfolding timeout_handler
  timeout_handler_step slot g w good at spare = rw at (
      log_still (tables w) _ w _ refl λ t same.
        let clock = (daemon-Allows g w t same good).clock in
        let at' = ap (λ d. get_elem? d.timer_ids slot) same ∙ at in
        let spare' = subst (λ d. Spares slot d.alarms) (sym same) spare in
        Sane-bind _ (drop_timer-Ticks slot t clock at' spare') λ a u ticks.
          let lists =
            subst (λ h. IsPnrs g h u.pnrs) (sym ticks.heap)
              (subst (λ p. IsPnrs g t.heap p) (sym ticks.pnrs)
                (daemon-Allows g w t same good).lists) in
          Moves-from daemon g u _ (g, record { lists = lists; clock = ticks.clock }, begun)
            (settle-Moves daemon daemon-Primitives daemon-Asking _ _))
