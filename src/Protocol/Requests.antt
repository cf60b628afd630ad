-- ===== src/Protocol/Requests.antt =====
-- The handlers' changes of the pending requests and of the timers: register_nreq of
-- src/route_watcher.c, respond_to_pnrs of src/nreq_responder.c and the deletion of an entry.
use name_spread.Prelude.{ℕ, ◌≡◌, Option, none, some, sym, subst}
use name_spread.Text.{Str}
use name_spread.Machine.Run.{Run, and_then}
use name_spread.Machine.Cfu.{Cfu}
use name_spread.Machine.System.{System}
use name_spread.Machine.World.{World, M}
use name_spread.Machine.Moves.{
  Sane, returned, faulted, Sane-bind, Sane-weaken, Course, Moves, Onward, Moves-from, Moves-pure,
}
use name_spread.Timers.{delete_pnr, start_timer}
use name_spread.Pnr.{warn_requester, respond_to_pnrs}
use name_spread.Protocol.{Tables, tables, Allows, Permits, permitted}
use name_spread.Protocol.Frame.{log-Moves}
use name_spread.Protocol.Clock.{IsClock}
use name_spread.Protocol.Starting.{start_timer-Ticks}
use name_spread.Protocol.Lists.{
  Requesters, IsPnrs, Evolves, begun, answers, Evolves-follow, answered,
}
use name_spread.Protocol.Changes.{IsPnrs-answered}
use name_spread.Protocol.Walks.{respond_to_pnrs_still}

module _ ⦃pnr_table : Cfu ℕ⦄ ⦃timer_table : Cfu Str⦄ where
  -- The lists of requesters stand for `reqs`, and the timers are in order.
  pub record IsSound (reqs : Requesters) (d : Tables) : Type 0 where
    pub lists : IsPnrs reqs d.heap d.pnrs
    pub clock : IsClock d.timer_ids d.timers d.alarms

  -- The course of the daemon: requesters join and addresses are answered.
  abbrev pub daemon : Course World
  daemon = record {
    Cut = ⊥;
    Leave = Unit {0};
    View = Requesters;
    Good = λ reqs w. IsSound reqs (tables w);
    Leads = Evolves;
    stay = λ reqs. begun;
    follow = Evolves-follow;
  }

  pub daemon-Allows : Allows daemon
  daemon-Allows reqs s t e good = subst (IsSound reqs) (sym e) good

module _ ⦃pnr_table : Cfu ℕ⦄ ⦃timer_table : Cfu Str⦄ ⦃sys : System⦄ where
  pub daemon-Permits : Permits daemon
  daemon-Permits = permitted daemon daemon-Allows tt

  -- A step that leaves the tables alone, and then code on the course.
  still-then :
      {A B : Type 0} {P : A → World → Type 0} {r : Run World A} (g : Requesters) (w : World)
      (k : A → M B)
      → IsSound g (tables w)
      → Sane P r
      → ((a : A) (t : World) → P a t → (tables t ≡ tables w) × Moves daemon (k a))
      → Sane (λ _ t. Onward daemon g t) (and_then r k)
  still-then g w k good run next = Sane-bind k run λ a t p.
      let (same, moves) = next a t p in
      Moves-from daemon g t (k a) (g, daemon-Allows g w t same good, begun) moves

  pub start_timer-Moves : (dst_addr : Option Str) → Moves daemon (start_timer dst_addr)
  start_timer-Moves dst_addr = record {
    at = λ g w good.
        Sane-weaken (start_timer-Ticks dst_addr w good.clock) λ id t (ticks, pos, bound). (
          g,
          record { lists = rw (ticks.heap, ticks.pnrs) good.lists; clock = ticks.clock },
          begun,
        );
  }

  pub delete_pnr-Moves : (dst_addr : Option Str) → Moves daemon (delete_pnr dst_addr)
  unfolding delete_pnr
  delete_pnr-Moves none = record { at = λ g w good. faulted }
  delete_pnr-Moves (some dst) = record {
    at = λ g w good. returned (
      answered (some dst) g,
      record { lists = IsPnrs-answered g w.heap w.pnrs good.lists dst; clock = good.clock },
      answers (some dst) begun,
    );
  }

  pub warn_requester-Moves : (dst_addr r : Option Str) → Moves daemon (warn_requester dst_addr r)
  unfolding warn_requester
  warn_requester-Moves dst_addr none = Moves-pure daemon tt
  warn_requester-Moves dst_addr (some r) = log-Moves daemon daemon-Permits _

  pub respond_to_pnrs-Moves :
      (dst_addr : Option Str) (text : Str) → Moves daemon (respond_to_pnrs dst_addr text)
  respond_to_pnrs-Moves dst_addr text = record {
    at = λ g w good.
        Sane-weaken
          (respond_to_pnrs_still dst_addr text (good.lists.cells dst_addr) w good.lists.is_heap
            (good.lists.chain dst_addr) (good.lists.head dst_addr))
          λ a t same. (g, daemon-Allows g w t same good, begun);
  }
