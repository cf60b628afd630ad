-- ===== src/Protocol/Events.antt =====
-- The handling of an event on a course on which a loop may be cut off.
use name_spread.Prelude.{ℕ, ◌≡◌, refl, Option, none, some, get_elem?}
use name_spread.Text.{Str}
use name_spread.Machine.Cfu.{Cfu}
use name_spread.Machine.System.{System}
use name_spread.Machine.World.{World, Alarm}
use name_spread.Machine.Moves.{Runs, returned, Course, Moves, Onward}
use name_spread.Daemon.Events.{Event, datagram, route_line, expiry, report, expire, handle, without}
use name_spread.Protocol.Primitives.{Asking, Listening}
use name_spread.Protocol.Handlers.{listen_step-Moves, watch_line-Moves, log_info-Moves}
use name_spread.Protocol.Slack.{slack-Primitives}
use name_spread.Protocol.Loose.{Loose, loose-Slack, timeout_handler-Moves}

-- The threads that ask for names are the watcher and the timers.
abbrev pub Asks : Event → Type 0
Asks (datagram old requester bytes) = ⊥
Asks (route_line line) = Unit
Asks (expiry n) = Unit
Asks report = ⊥

-- The responder alone listens.
abbrev pub Listens : Event → Type 0
Listens (datagram old requester bytes) = Unit
Listens (route_line line) = ⊥
Listens (expiry n) = ⊥
Listens report = ⊥

module _ ⦃pnr_table : Cfu ℕ⦄ ⦃timer_table : Cfu Str⦄ ⦃sys : System⦄ where
  module _ (c : Course World) (loose : Loose c) where
    expired :
        (ask : Asking c) (a : Option Alarm) (n : ℕ) (g : c.View) (w : World)
        → get_elem? w.alarms n ≡ a
        → c.Good g w
        → Runs c.Cut c.Leave (λ _ t. Onward c g t) (expire n w)
    unfolding expire
    expired ask none n g w at good = rw (expire, at) (returned (g, good, c.stay g))
    expired ask (some a) n g w at good =
        rw (expire, at)
          ((timeout_handler-Moves c loose ask a.slot).at g
            (record w { alarms = without n w.alarms }) (loose.keeps g w _ refl refl good))

    pub handle-Moves :
        (e : Event) → (Asks e → Asking c) → (Listens e → Listening c) → Moves c (handle e)
    unfolding handle
    handle-Moves (datagram old requester bytes) ask listen =
        listen_step-Moves c (slack-Primitives c (loose-Slack c loose)) (listen tt) old requester
          bytes
    handle-Moves (route_line line) ask listen =
        watch_line-Moves c (slack-Primitives c (loose-Slack c loose)) (ask tt) line
    handle-Moves (expiry n) ask listen = record {
      at = λ g w good. expired (ask tt) (get_elem? w.alarms n) n g w refl good;
    }
    handle-Moves report ask listen = log_info-Moves c (slack-Primitives c (loose-Slack c loose))
