-- ===== src/Protocol/Loose.antt =====
-- The timers, on any course on which a loop may be cut off and every step that leaves the network and
-- the station's address alone is good.
use name_spread.Prelude.{
  ℕ, ◌+◌, ◌-◌, ◌==◌, ltb, ◌≡◌, refl, Option, none, some, inl, inr, Bool-cases, length, set,
}
use name_spread.Text.{Str, decimal}
use name_spread.Machine.Run.{Run, ok, modify}
use name_spread.Machine.Cfu.{Cfu}
use name_spread.Machine.System.{System}
use name_spread.Machine.World.{World}
use name_spread.Machine.Moves.{
  Runs, returned, faulted, Course, Moves, Onward, Moves-then, Moves-if, Moves-crash, Moves-modify,
  moves_rules,
}
use name_spread.Logger.{log}
use name_spread.Timers.{
  free_from, next_free_timer_id, make_timer, start_timer, set_timer_id, drop_timer, timeout_handler,
}
use name_spread.Protocol.{books, Permits}
use name_spread.Protocol.Frame.{log-Moves}
use name_spread.Protocol.Primitives.{Asking}
use name_spread.Protocol.Slack.{Slack, slack-Primitives}
use name_spread.Protocol.Handlers.{settle-Moves}

module _ ⦃pnr_table : Cfu ℕ⦄ ⦃timer_table : Cfu Str⦄ ⦃sys : System⦄ where
  pub record Loose (c : Course World) : Type 0 where
    pub permits : Permits c
    pub cuts : c.Cut
    pub keeps :
        (g : c.View) (s t : World)
        → books t ≡ books s
        → t.own_addr ≡ s.own_addr
        → c.Good g s
        → c.Good g t

  module _ (c : Course World) (loose : Loose c) where
    say : (m : Str) → Moves c (log m)
    say = log-Moves c loose.permits

    keep :
        (f : World → World)
        → ((w : World) → books (f w) ≡ books w)
        → ((w : World) → (f w).own_addr ≡ w.own_addr)
        → Moves c (modify f)
    keep f same own =
        Moves-modify c f λ g w good. (g, loose.keeps g w (f w) (same w) (own w) good, c.stay g)

    taken_next :
        (g : c.View) (w : World) (free : Option ℕ)
        → c.Good g w
        → Runs c.Cut c.Leave
            (λ _ t. Onward c g t)
            (elim free as (λ _. Run World (Option ℕ)) [
              | none ↦ ok none w
              | some i ↦ ok (some i) (record w { timer_ids = set w.timer_ids i (i + 1) })
            ])
    taken_next g w none good = returned (g, good, c.stay g)
    taken_next g w (some i) good = returned (g, loose.keeps g w _ refl refl good, c.stay g)

    next_free_timer_id-Moves : Moves c next_free_timer_id
    unfolding next_free_timer_id
    next_free_timer_id-Moves = record {
      at = λ b w good. taken_next b w (free_from 0 w.timer_ids) good;
    }

    make_timer-Moves : (slot secs : ℕ) → Moves c (make_timer slot secs)
    unfolding make_timer log
    make_timer-Moves slot secs = record {
      at = λ b w good. elim (Bool-cases sys.handler_set) [
        | inl set_up ↦ rw set_up (returned (b, loose.keeps b w _ refl refl good, c.stay b))
        | inr failed ↦ rw failed ((say _).at b w good)
      ];
    }

    with_timer-Moves :
        (key id : Str)
        → Moves c (modify λ w. record w { timers = timer_table.put w.timers (some id) key })
    with_timer-Moves key id = keep _ (λ w. refl) (λ w. refl)

    start_timer-Moves : (dst_addr : Option Str) → Moves c (start_timer dst_addr)
    unfolding start_timer
    start_timer-Moves dst_addr =
        search (moves_rules, next_free_timer_id-Moves, make_timer-Moves, with_timer-Moves) depth 12

    pub loose-Slack : Slack c
    loose-Slack = record {
      permits = loose.permits;
      cuts = loose.cuts;
      keeps = λ g s t same own on_time good. loose.keeps g s t same own good;
      starts = start_timer-Moves;
    }

    set_timer_id-Moves : (i id : ℕ) → Moves c (set_timer_id i id)
    unfolding set_timer_id
    set_timer_id-Moves i id = record {
      at = λ b w good. elim (Bool-cases (ltb i (length w.timer_ids))) [
        | inl lt ↦ rw lt (returned (b, loose.keeps b w _ refl refl good, c.stay b))
        | inr out ↦ rw out faulted
      ];
    }

    drop_timer-Moves : (id : ℕ) → Moves c (drop_timer id)
    unfolding drop_timer
    drop_timer-Moves id =
        Moves-then c _ _
          (keep (λ w. record w { timers = timer_table.delete w.timers (decimal id) }) (λ w. refl)
            (λ w. refl))
          (Moves-if c (id == 0) _ _ (Moves-crash c) (set_timer_id-Moves (id - 1) 0))

    pub timeout_handler-Moves : Asking c → (slot : ℕ) → Moves c (timeout_handler slot)
    unfolding timeout_handler
    timeout_handler-Moves ask slot =
        search
          (moves_rules, say, drop_timer-Moves, settle-Moves c (slack-Primitives c loose-Slack) ask)
          depth 14
