-- ===== src/Daemon.antt =====
-- The start of the daemon and its report: main and log_info of src/namespread.c.
pub mod Start
pub mod Events
use name_spread.Prelude.{ℕ, ◌+◌, Option, [], ◌++◌, ◌∷◌, replicate}
use name_spread.Text.{Str, codes, decimal, newline}
use name_spread.Machine.Run.{modify, ◌>>◌, ◌>>=◌, gets}
use name_spread.Machine.Cfu.{Cfu}
use name_spread.Machine.System.{System}
use name_spread.Machine.World.{World, M}
use name_spread.Logger.{log}
use name_spread.Timers.{n_timers}

module _ ⦃pnr_table : Cfu ℕ⦄ ⦃timer_table : Cfu Str⦄ ⦃sys : System⦄ where
  -- The globals when the threads are created; `argument` is argv[1].
  abbrev pub start : Option Str → World → World
  start argument w = record w {
    pnrs = pnr_table.empty;
    timers = timer_table.empty;
    timer_ids = replicate n_timers 0;
    alarms = [];
    total_nreqs = 0;
    total_nreps_reveived = 0;
    total_nreps = 0;
    total_cached_names = 0;
    own_addr = argument;
  }

  -- One round of log_info.
  unfoldable pub log_info : M (Unit {0})
  log_info = do
    modify (λ w. record w { clock = w.clock + 10 })
    w ← gets (λ w. w)
    log (
        codes "[INFO] NREQs_sent: "
        ++ decimal w.total_nreqs
        ++ codes " NREQs_received: "
        ++ decimal w.total_nreps_reveived
        ++ codes " NREPs_sent: "
        ++ decimal w.total_nreps
        ++ codes " Names_cached: "
        ++ decimal w.total_cached_names
        ++ newline ∷ [])
