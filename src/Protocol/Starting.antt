-- ===== src/Protocol/Starting.antt =====
-- The timers in order (Protocol.Clock) when one is started or dropped.
use name_spread.Prelude.{
  ℕ, ◌+◌, ◌<◌, ◌≤◌, ◌≡◌, refl, Option, none, some, get_elem?, set, arith, inl, inr, Bool-cases,
}
use name_spread.Text.{Str}
use name_spread.Machine.Moves.{Sane, returned, faulted, left}
use name_spread.Machine.Cfu.{Cfu}
use name_spread.Machine.System.{System}
use name_spread.Machine.World.{World}
use name_spread.Logger.{log, log_msg, log_path}
use name_spread.Timers.{n_timers, nreq_timeout_secs, make_timer, start_timer, drop_timer}
use name_spread.Timers.Slots.{first-or-taken}
use name_spread.Timers.Ids.{
  get_elem?-set_self, lt-length_of_get_elem?, next_free_timer_id-first, start_timer-full,
  add-sub_one,
}
use name_spread.Timers.Handler.{drop_timer-without_timer}
use name_spread.Protocol.Clock.{
  IsClock, IsClock-take, IsClock-arm, IsClock-free, Spares, Armed-Spares,
}

module _ ⦃pnr_table : Cfu ℕ⦄ ⦃timer_table : Cfu Str⦄ ⦃sys : System⦄ where
  abbrev pub HasClock : World → Type 0
  HasClock w = IsClock w.timer_ids w.timers w.alarms

  -- The timers of `t` are in order, and its lists are those of `w`.
  pub record Ticks (w t : World) : Type 0 where
    pub clock : HasClock t
    pub heap : t.heap ≡ w.heap
    pub pnrs : t.pnrs ≡ w.pnrs

  pub start_timer-Ticks :
      (dst_addr : Option Str) (w : World)
      → HasClock w
      → Sane (λ id t. Ticks w t × (0 < id) × (id ≤ n_timers)) (start_timer dst_addr w)
  unfolding start_timer make_timer log log_msg
  start_timer-Ticks none w clock = elim (first-or-taken w.timer_ids) [
    | inr taken ↦ rw (start_timer-full w none taken) faulted
    | inl (i, f) ↦
        let at = get_elem?-set_self w.timer_ids i 0 (i + 1) f.free in
        elim (Bool-cases sys.handler_set) [
          | inl set_up ↦ rw (next_free_timer_id-first w i f, at, set_up) faulted
          | inr failed ↦ elim (Bool-cases (sys.writable (log_path w.own_addr))) [
            | inl can ↦ rw (next_free_timer_id-first w i f, at, failed, can) faulted
            | inr cannot ↦ rw (next_free_timer_id-first w i f, at, failed, cannot) (left tt _)
          ]
        ]
  ]
  start_timer-Ticks (some dst) w clock = elim (first-or-taken w.timer_ids) [
    | inr taken ↦ rw (start_timer-full w (some dst) taken) faulted
    | inl (i, f) ↦
        let taken = IsClock-take w.timer_ids w.timers w.alarms clock i dst f.free in
        let at = get_elem?-set_self w.timer_ids i 0 (i + 1) f.free in
        let bound : i + 1 ≤ n_timers =
          omega (arith, lt-length_of_get_elem? w.timer_ids i 0 f.free, clock.size) in
        elim (Bool-cases sys.handler_set) [
          | inl set_up ↦
              rw (next_free_timer_id-first w i f, at, set_up, add-sub_one i)
                (returned (
                  record {
                    clock =
                        IsClock-arm (set w.timer_ids i (i + 1)) _ w.alarms taken i nreq_timeout_secs
                          at (Armed-Spares w.timer_ids w.alarms i clock.armed f.free);
                    heap = refl;
                    pnrs = refl;
                  },
                  omega arith,
                  bound,
                ))
          | inr failed ↦ elim (Bool-cases (sys.writable (log_path w.own_addr))) [
            | inl can ↦
                rw (next_free_timer_id-first w i f, at, failed, can)
                  (returned
                    (record { clock = taken; heap = refl; pnrs = refl }, omega arith, bound))
            | inr cannot ↦ rw (next_free_timer_id-first w i f, at, failed, cannot) (left tt _)
          ]
        ]
  ]

  pub drop_timer-Ticks :
      (i : ℕ) (w : World)
      → HasClock w
      → get_elem? w.timer_ids i ≡ some (i + 1)
      → Spares i w.alarms
      → Sane (λ _ t. Ticks w t) (drop_timer (i + 1) w)
  drop_timer-Ticks i w clock at spare = rw (drop_timer-without_timer i w at) (
      returned (record {
        clock = IsClock-free w.timer_ids w.timers w.alarms clock i at spare;
        heap = refl;
        pnrs = refl;
      }))
