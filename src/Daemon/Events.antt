-- ===== src/Daemon/Events.antt =====
-- The threads that main of src/namespread.c creates, and the timers' signals, as one machine: each
-- event is handled without a break, in any order.
use name_spread.Prelude.{ℕ, suc, ◌≡◌, Option, none, some, List, Bool, ◌++◌, get_elem?, take, drop}
use name_spread.Text.{Str}
use name_spread.Machine.Run.{ok}
use name_spread.Machine.Cfu.{Cfu}
use name_spread.Machine.System.{System}
use name_spread.Machine.World.{World, Alarm, M}
use name_spread.Timers.{timeout_handler}
use name_spread.Responder.{listen_step}
use name_spread.Watcher.{watch_line}
use name_spread.Daemon.{start, log_info}

-- A datagram of a sender in a buffer that held `old`, a line of `ip monitor route`, the end of the
-- `n`-th running timer, and a round of log_info.
pub data Event : Type 0 where
  datagram : (old : List ℕ) (requester : ℕ) (bytes : List ℕ) → Event
  route_line : Str → Event
  expiry : (n : ℕ) → Event
  report : Event

-- The running timers without the `n`-th.
abbrev pub without : ℕ → List Alarm → List Alarm
without n alarms = take n alarms ++ drop (suc n) alarms

module _ ⦃pnr_table : Cfu ℕ⦄ ⦃timer_table : Cfu Str⦄ ⦃sys : System⦄ where
  -- A timer runs once, and its signal is handled when it ends.
  unfoldable pub expire : ℕ → M (Unit {0})
  expire n w = elim (get_elem? w.alarms n) [
    | none ↦ ok tt w
    | some a ↦ timeout_handler a.slot (record w { alarms = without n w.alarms })
  ]

  unfoldable pub handle : Event → M (Unit {0})
  unfolding expire
  handle (datagram old requester bytes) = listen_step old requester bytes
  handle (route_line line) = watch_line line
  handle (expiry n) = expire n
  handle report = log_info

  -- An event is handled to its end, or the files, the routes, the pipes and the clock change.
  pub data Step (w : World) : World → Type 0 where
    handled : {v : World} (e : Event) → handle e w ≡ ok tt v → Step w v
    outside :
        (files : ℕ → Option Str) (routes : Str) (popens : List Bool) (clock : ℕ)
        → Step w (record w { files = files; routes = routes; popens = popens; clock = clock })

  -- The states that the daemon comes to from the one in which its threads are created.
  pub data Reaches (argument : Option Str) (w : World) : World → Type 0 where
    started : Reaches argument w (start argument w)
    stepped : {u v : World} → Reaches argument w u → Step u v → Reaches argument w v
