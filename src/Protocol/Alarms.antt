-- ===== src/Protocol/Alarms.antt =====
-- The running timers of the daemon.
use name_spread.Prelude.{
  ℕ, suc, ◌+◌, ◌<◌, ◌≤◌, ◌≡◌, Option, some, List, [], ◌∷◌, get_elem?, set, take, drop, length, sym,
  subst, All-middle, arith,
}
use name_spread.Text.{Str, decimal}
use name_spread.Machine.Cfu.{Cfu}
use name_spread.Machine.System.{System}
use name_spread.Machine.World.{World, Alarm}
use name_spread.LinkedList.Chain.{IsHeap}
use name_spread.Timers.{n_timers, start_timer}
use name_spread.Text.Decimal.{length-decimal}
use name_spread.Machine.Moves.{Sane, Sane-weaken}
use name_spread.Protocol.Starting.{start_timer-Ticks}
use name_spread.Timers.Handler.{Running}
use name_spread.Timers.Count.{taken, taken-set, taken-le}
use name_spread.Timers.Ids.{lt-length_of_get_elem?}
use name_spread.Daemon.Events.{Reaches}
use name_spread.Protocol.Clock.{Spaced, Armed, Armed-set}
use name_spread.Protocol.Reached.{split_at, Reaches-IsSound}

-- Timers at different taken ids are at most as many as those.
length-taken : (ids : List ℕ) (al : List Alarm) → Armed ids al → Spaced al → length al ≤ taken ids
length-taken ids [] armed spaced = omega arith
length-taken ids (a ∷ al) (at, armed) (far, spaced) =
    let rest = length-taken (set ids a.slot 0) al (Armed-set ids al a.slot 0 far armed) spaced in
    omega (arith, rest, taken-set ids a.slot a.slot at)

module _ ⦃pnr_table : Cfu ℕ⦄ ⦃timer_table : Cfu Str⦄ ⦃sys : System⦄ where
  -- If the heap has handed out no address from `fresh` on when the daemon starts, then in every state
  -- that it comes to each running timer points to an id that is in use, below N_TIMERS elements, for
  -- which the table of timers has an address.
  pub Reaches-Running :
      (argument : Option Str) (w v : World) (n : ℕ) (a : Alarm)
      → IsHeap w.heap
      → Reaches argument w v
      → get_elem? v.alarms n ≡ some a
      → (dst : Str) × Running a.slot dst v × (a.slot < n_timers)
  Reaches-Running argument w v n a is r at =
      let (g, good, lead) = Reaches-IsSound argument w v is r in
      let armed = subst (Armed v.timer_ids) (sym (split_at v.alarms n a at)) good.clock.armed in
      let (at', rest) =
        All-middle (λ b. get_elem? v.timer_ids b.slot ≡ some (b.slot + 1)) (take n v.alarms)
          (drop (suc n) v.alarms) a armed in
      let (dst, entry) = good.clock.entry a.slot at' in
      (
        dst,
        record { id_at = at'; addr = entry },
        omega (arith, lt-length_of_get_elem? v.timer_ids a.slot (a.slot + 1) at', good.clock.size),
      )

  -- Under the same condition at most N_TIMERS timers run at once.
  Reaches-at_most :
      (argument : Option Str) (w v : World)
      → IsHeap w.heap
      → Reaches argument w v
      → length v.alarms ≤ n_timers
  Reaches-at_most argument w v is r =
      let (g, good, lead) = Reaches-IsSound argument w v is r in
      omega (
        arith,
        length-taken v.timer_ids v.alarms good.clock.armed good.clock.spaced,
        taken-le v.timer_ids,
        good.clock.size,
      )

  -- If the heap has handed out no address from `fresh` on when the daemon starts, then in every
  -- state that it comes to the start of a timer ends, and if it returns, the new id is between 1
  -- and N_TIMERS, and the id's text with its NUL fits `timer_id_str`, an array of 12 bytes.
  pub start_timer-fits :
      (argument dst_addr : Option Str) (w v : World)
      → IsHeap w.heap
      → Reaches argument w v
      → Sane
          (λ id t. (0 < id) × (id ≤ n_timers) × (length (decimal id) + 1 ≤ 12))
          (start_timer dst_addr v)
  start_timer-fits argument dst_addr w v is r =
      let (g, good, lead) = Reaches-IsSound argument w v is r in
      Sane-weaken (start_timer-Ticks dst_addr v good.clock) λ id t (ticks, pos, bound).
        (pos, bound, omega (arith, length-decimal id (omega (arith, bound))))
