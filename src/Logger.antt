-- ===== src/Logger.antt =====
-- The log file of src/logger.c. Messages are made by asprintf, which is taken to succeed.
pub mod Yields
use name_spread.Prelude.{◌++◌, ◌∷◌, [], Option, ◌≡◌, true, if◌then◌else◌}
use name_spread.Text.{Str, codes, shown, space}
use name_spread.Machine.Run.{ok, exited}
use name_spread.Machine.Cfu.{Cfu}
use name_spread.Machine.System.{System}
use name_spread.Machine.World.{World, M}
use name_spread.Prelude.{ℕ}

-- "/tmp/mininet-wifi/log/%s.log"
abbrev pub log_path : Option Str → Str
log_path addr = codes "/tmp/mininet-wifi/log/" ++ shown addr ++ codes ".log"

module _ ⦃pnr_table : Cfu ℕ⦄ ⦃timer_table : Cfu Str⦄ ⦃sys : System⦄ where
  -- strftime of the local time
  abbrev pub get_timestamp : World → Str
  get_timestamp w = sys.timestamp w.clock

  -- "%s %s" of the timestamp and the message, at the end of the file
  abbrev pub with_line : Option Str → Str → World → World
  with_line addr message w = record w {
    logs = w.logs ++ (log_path addr, get_timestamp w ++ space ∷ message) ∷ [];
  }

  unfoldable pub log_msg : Str → Option Str → M (Unit {0})
  log_msg message addr w =
      if sys.writable (log_path addr) then ok tt (with_line addr message w) else exited w

  -- asprintf(&msg, …); log_msg(msg, own_addr);
  unfoldable pub log : Str → M (Unit {0})
  unfolding log_msg
  log message w = log_msg message w.own_addr w

  -- The daemon can write its log file.
  abbrev pub CanLog : World → Type 0
  CanLog w = sys.writable (log_path w.own_addr) ≡ true

  -- `w` with one more line in the daemon's log.
  abbrev pub logged : Str → World → World
  logged message w = with_line w.own_addr message w
