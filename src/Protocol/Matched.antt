-- ===== src/Protocol/Matched.antt =====
-- The timer ids in use and the running timers, counted: next_free_timer_id of src/namespread.c and
-- src/timer.c.
use name_spread.Prelude.{
  ℕ, suc, ◌+◌, ◌<◌, ◌≡◌, refl, true, Option, none, some, List, [], ◌∷◌, get_elem?, set, take, drop,
  length, length-append, ap, ◌∙◌, sym, ◌⊎◌, inl, inr, arith,
}
use name_spread.Text.{Str}
use name_spread.Machine.Run.{ok, fault}
use name_spread.Machine.Cfu.{Cfu}
use name_spread.Machine.System.{System}
use name_spread.Machine.World.{World, Alarm}
use name_spread.Machine.Moves.{
  Runs, returned, faulted, Sane-bind, Sane-loosen, ran, Course, Moves, Onward, Moves-from,
}
use name_spread.Logger.{log}
use name_spread.LinkedList.Chain.{IsHeap}
use name_spread.Timers.{n_timers, start_timer, timeout_handler}
use name_spread.Timers.Count.{taken, taken-set, taken-set_new, taken-lt, taken-all, taken-replicate}
use name_spread.Timers.Ids.{
  FirstFree, get_elem?-set_self, next_free_timer_id-first, start_timer-with_timer, start_timer-full,
  with_timer,
}
use name_spread.Timers.Slots.{first-or-taken}
use name_spread.Timers.Handler.{drop_timer-without_timer, without_timer}
use name_spread.Daemon.Events.{
  Event, datagram, route_line, expiry, report, expire, handle, handled, outside, Reaches, started,
  stepped, without,
}
use name_spread.Protocol.{Permits, permitted, Allows}
use name_spread.Protocol.Frame.{log-Moves}
use name_spread.Protocol.Slack.{Slack, slack-Primitives}
use name_spread.Protocol.Replying.{slack-Asking, slack-Listening}
use name_spread.Protocol.Primitives.{Asking}
use name_spread.Protocol.Walks.{still, still-Allows, Moves-still}
use name_spread.Protocol.Alarms.{Reaches-Running}
use name_spread.Protocol.Reached.{split_at, Reaches-IsSound}
use name_spread.Protocol.Handlers.{
  listen_step-Moves, watch_line-Moves, log_info-Moves, settle-Moves,
}

length-without :
    (al : List Alarm) (n : ℕ) (a : Alarm)
    → get_elem? al n ≡ some a
    → length (without n al) + 1 ≡ length al
length-without al n a at = omega (
  arith,
  ap length (split_at al n a at),
  length-append (take n al) (a ∷ drop (suc n) al),
  length-append (take n al) (drop (suc n) al),
)

module _ ⦃pnr_table : Cfu ℕ⦄ ⦃timer_table : Cfu Str⦄ ⦃sys : System⦄ where
  -- As many ids are in use as timers run, but for `extra` more.
  abbrev tally : ℕ → Course World
  tally extra = record {
    Cut = Unit {0};
    Leave = Unit {0};
    View = Unit {0};
    Good = λ g w. taken w.timer_ids ≡ length w.alarms + extra;
    Leads = λ g h. Unit;
    stay = λ g. tt;
    follow = λ f g h p q. tt;
  }

  tally-Allows : (extra : ℕ) → Allows (tally extra)
  tally-Allows extra g s t e good =
      ap (λ d. taken d.timer_ids) e ∙ good ∙ ap (λ d. length d.alarms + extra) (sym e)

  tally-Permits : (extra : ℕ) → Permits (tally extra)
  tally-Permits extra = permitted (tally extra) (tally-Allows extra) tt

  -- A timer that is started takes an id and runs.
  with_timer-taken :
      (i : ℕ) (dst : Str) (w : World)
      → FirstFree w.timer_ids i
      → taken w.timer_ids ≡ length w.alarms + 0
      → taken (with_timer i dst w).timer_ids ≡ length (with_timer i dst w).alarms + 0
  with_timer-taken i dst w first good = omega (
    arith,
    good,
    taken-set_new w.timer_ids i i first.free,
    length-append w.alarms (record { slot = i; secs = 10 } ∷ []),
  )

  module _ (set_up : sys.handler_set ≡ true) where
    start_timer-tally : (dst_addr : Option Str) → Moves (tally 0) (start_timer dst_addr)
    unfolding start_timer
    start_timer-tally none = record {
      at = λ g w good. elim (first-or-taken w.timer_ids) [
        | inr full ↦ rw (start_timer-full w none full) faulted
        | inl (i, first) ↦
            rw
              (
                next_free_timer_id-first w i first,
                get_elem?-set_self w.timer_ids i 0 (i + 1) first.free,
                set_up,
              )
              faulted
      ];
    }
    start_timer-tally (some dst) = record {
      at = λ g w good. elim (first-or-taken w.timer_ids) [
        | inr full ↦ rw (start_timer, start_timer-full w (some dst) full) faulted
        | inl (i, first) ↦
            rw (start_timer, start_timer-with_timer w i dst set_up first)
              (returned (tt, with_timer-taken i dst w first good, tt))
      ];
    }

    tally-Slack : Slack (tally 0)
    tally-Slack = record {
      permits = tally-Permits 0;
      cuts = tt;
      keeps = λ g s t same own on_time good.
          ap (λ p. taken p.0) on_time ∙ good ∙ ap (λ p. length p.1 + 0) (sym on_time);
      starts = start_timer-tally;
    }

    tally-Asking : Asking (tally 0)
    tally-Asking = slack-Asking (tally 0) tally-Slack (tally-Allows 0)

    -- The handling of a timer that is no longer among the running ones frees its id.
    timeout_handler-tally :
        (slot : ℕ) (w : World)
        → taken w.timer_ids ≡ length w.alarms + 1
        → get_elem? w.timer_ids slot ≡ some (slot + 1)
        → Runs (Unit {0}) (Unit {0}) (λ _ t. Onward (tally 0) tt t) (timeout_handler slot w)
    unfolding timeout_handler
    timeout_handler-tally slot w good at = rw at (
        Sane-bind _
          (Sane-loosen
            (Moves-still (log _) w (log-Moves still (permitted still still-Allows tt) _)))
          λ a t same.
            let at' = ap (λ d. get_elem? d.timer_ids slot) same ∙ at in
            let freed : taken (set t.timer_ids slot 0) ≡ length t.alarms + 0 =
              omega (arith, tally-Allows 1 tt w t same good, taken-set t.timer_ids slot slot at') in
            rw (drop_timer-without_timer slot t at') (
              Moves-from (tally 0) tt (without_timer slot t) _ (tt, freed, tt)
                (settle-Moves (tally 0) (slack-Primitives (tally 0) tally-Slack) tally-Asking _ _)))

    expired-tally :
        (r : Option Alarm) (n : ℕ) (w : World)
        → taken w.timer_ids ≡ length w.alarms + 0
        → ((a : Alarm)
            → get_elem? w.alarms n ≡ some a
            → get_elem? w.timer_ids a.slot ≡ some (a.slot + 1))
        → get_elem? w.alarms n ≡ r
        → Runs (Unit {0}) (Unit {0}) (λ _ t. Onward (tally 0) tt t) (expire n w)
    unfolding expire
    expired-tally none n w good armed at = rw (expire, at) (returned (tt, good, tt))
    expired-tally (some a) n w good armed at =
        rw (expire, at)
          (timeout_handler-tally a.slot (record w { alarms = without n w.alarms })
            (omega (arith, good, length-without w.alarms n a at)) (armed a at))

    -- The handling of an event, if each running timer points to its own id.
    handle-tally :
        (e : Event) (w : World)
        → taken w.timer_ids ≡ length w.alarms + 0
        → ((n : ℕ) (a : Alarm)
            → get_elem? w.alarms n ≡ some a
            → get_elem? w.timer_ids a.slot ≡ some (a.slot + 1))
        → Runs (Unit {0}) (Unit {0}) (λ _ t. Onward (tally 0) tt t) (handle e w)
    unfolding handle
    handle-tally (datagram old requester bytes) w good armed =
        (listen_step-Moves (tally 0) (slack-Primitives (tally 0) tally-Slack)
            (slack-Listening (tally 0) tally-Slack (tally-Allows 0)) old requester bytes).at
          tt w good
    handle-tally (route_line line) w good armed =
        (watch_line-Moves (tally 0) (slack-Primitives (tally 0) tally-Slack) tally-Asking line).at
          tt w good
    handle-tally (expiry n) w good armed =
        expired-tally (get_elem? w.alarms n) n w good (armed n) refl
    handle-tally report w good armed =
        (log_info-Moves (tally 0) (slack-Primitives (tally 0) tally-Slack)).at tt w good

    -- If the heap has handed out no address from `fresh` on when the daemon starts, and sigaction
    -- succeeds, then in every state that the daemon comes to there are as many timer ids that are
    -- not 0 as running timers.
    pub Reaches-taken :
        (argument : Option Str) (w v : World)
        → IsHeap w.heap
        → Reaches argument w v
        → taken v.timer_ids ≡ length v.alarms
    Reaches-taken argument w v is started = taken-replicate n_timers
    Reaches-taken argument w v is (stepped {u} r (handled e run)) =
        let before = Reaches-taken argument w u is r in
        let (g, good, lead) =
          ran
            (handle-tally e u (omega (arith, before))
              (λ n a at. (Reaches-Running argument w u n a is r at).1.id_at))
            run in
        omega (arith, good)
    Reaches-taken argument w v is (stepped {u} r (outside files routes popens clock)) =
        Reaches-taken argument w u is r

    -- If the heap has handed out no address from `fresh` on when the daemon starts, and sigaction
    -- succeeds, then in every state that the daemon comes to either fewer than N_TIMERS timers
    -- run, and starting a timer for an address returns an id, or exactly N_TIMERS run, and
    -- starting one follows a NULL pointer.
    pub start_timer-outcome :
        (argument : Option Str) (dst : Str) (w v : World)
        → IsHeap w.heap
        → Reaches argument w v
        → ((length v.alarms < n_timers)
            × (id : ℕ) × (t : World) × (start_timer (some dst) v ≡ ok id t))
          ⊎ ((length v.alarms ≡ n_timers) × (start_timer (some dst) v ≡ fault))
    start_timer-outcome argument dst w v is r =
        let same = Reaches-taken argument w v is r in
        let (g, good, lead) = Reaches-IsSound argument w v is r in
        elim (first-or-taken v.timer_ids) [
          | inl (i, first) ↦ inl (
            omega (arith, same, good.clock.size, taken-lt v.timer_ids i first.free),
            i + 1,
            with_timer i dst v,
            start_timer-with_timer v i dst set_up first,
          )
          | inr full ↦ inr (
            omega (arith, same, good.clock.size, taken-all v.timer_ids full),
            start_timer-full v (some dst) full,
          )
        ]
