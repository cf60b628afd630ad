-- ===== src/Timers/Ids.antt =====
-- The ids of timers: which one is given out, and what it starts.
use name_spread.Prelude.{
  ℕ, zero, suc, ◌+◌, ◌-◌, ◌<◌, ◌≡◌, ◌≢◌, refl, true, Option, none, some, List, [], ◌∷◌, ◌++◌,
  length, get_elem?, set, arith, ap, ◌∙◌,
}
use name_spread.Text.{Str, decimal}
use name_spread.Machine.Run.{ok, fault}
use name_spread.Machine.Cfu.{Cfu}
use name_spread.Machine.System.{System}
use name_spread.Machine.World.{World}
use name_spread.Timers.{nreq_timeout_secs, free_from, next_free_timer_id, start_timer}

-- `i` is the lowest index of a 0.
pub record FirstFree (ids : List ℕ) (i : ℕ) : Type 0 where
  pub free : get_elem? ids i ≡ some 0
  pub lowest : (j : ℕ) → j < i → get_elem? ids j ≢ some 0

-- No element is 0.
abbrev pub AllTaken : List ℕ → Type 0
AllTaken ids = (j : ℕ) → get_elem? ids j ≢ some 0

free_from-first : (k : ℕ) (ids : List ℕ) (i : ℕ) → FirstFree ids i → free_from k ids ≡ some (k + i)
unfolding free_from
free_from-first k [] i f = absurd (ground (arith, f.free))
free_from-first k (t ∷ ts) zero f = ground (arith, f.free)
free_from-first k (t ∷ ts) (suc i) f =
    let rest : FirstFree ts i = record {
      free = f.free;
      lowest = λ j lt. f.lowest (suc j) (omega arith);
    } in
    ground (arith, f.lowest 0 (omega arith), free_from-first (k + 1) ts i rest)

free_from-none : (k : ℕ) (ids : List ℕ) → AllTaken ids → free_from k ids ≡ none
unfolding free_from
free_from-none k [] taken = refl
free_from-none k (t ∷ ts) taken =
    ground (arith, taken 0, free_from-none (k + 1) ts (λ j. taken (suc j)))

first_index : (ids : List ℕ) (i : ℕ) → FirstFree ids i → free_from 0 ids ≡ some i
first_index ids i f = free_from-first 0 ids i f ∙ ap some (omega arith)

pub add-sub_one : (i : ℕ) → i + 1 - 1 ≡ i
add-sub_one i = omega arith

pub get_elem?-set_self :
    (ids : List ℕ) (i t v : ℕ) → get_elem? ids i ≡ some t → get_elem? (set ids i v) i ≡ some v
get_elem?-set_self [] i t v h = cc
get_elem?-set_self (x ∷ xs) zero t v h = refl
get_elem?-set_self (x ∷ xs) (suc i) t v h = get_elem?-set_self xs i t v h

pub lt-length_of_get_elem? : (ids : List ℕ) (i t : ℕ) → get_elem? ids i ≡ some t → i < length ids
lt-length_of_get_elem? [] i t h = absurd (ground arith)
lt-length_of_get_elem? (x ∷ xs) zero t h = omega arith
lt-length_of_get_elem? (x ∷ xs) (suc i) t h = omega (arith, lt-length_of_get_elem? xs i t h)

module _ ⦃pnr_table : Cfu ℕ⦄ ⦃timer_table : Cfu Str⦄ ⦃sys : System⦄ where
  -- The world with a timer for the address under the id `i + 1`.
  abbrev pub with_timer : ℕ → Str → World → World
  with_timer i dst v = record v {
    timer_ids = set v.timer_ids i (i + 1);
    alarms = v.alarms ++ record { slot = i; secs = nreq_timeout_secs } ∷ [];
    timers = timer_table.put v.timers (some (decimal (i + 1))) dst;
  }

  module _ (w : World) where
    -- next_free_timer_id returns the lowest element that is 0, which then holds its index plus 1.
    pub next_free_timer_id-first :
        (i : ℕ)
        → FirstFree w.timer_ids i
        → next_free_timer_id w ≡ ok (some i) (record w { timer_ids = set w.timer_ids i (i + 1) })
    unfolding next_free_timer_id
    next_free_timer_id-first i f = rw (first_index w.timer_ids i f, next_free_timer_id)

    -- With every id taken it returns NULL.
    pub next_free_timer_id-none : AllTaken w.timer_ids → next_free_timer_id w ≡ ok none w
    unfolding next_free_timer_id
    next_free_timer_id-none taken = rw (free_from-none 0 w.timer_ids taken, next_free_timer_id)

    -- If sigaction succeeds, a new timer takes the lowest free id, runs for ten seconds on its own
    -- element of the array, and has the address under its id in the table of timers.
    pub start_timer-with_timer :
        (i : ℕ) (dst : Str)
        → sys.handler_set ≡ true
        → FirstFree w.timer_ids i
        → start_timer (some dst) w ≡ ok (i + 1) (with_timer i dst w)
    unfolding start_timer
    start_timer-with_timer i dst set_up f = rw (
      next_free_timer_id-first i f,
      get_elem?-set_self w.timer_ids i 0 (i + 1) f.free,
      set_up,
      add-sub_one i,
    )

    -- With a hundred timers running, starting one more follows a NULL pointer.
    pub start_timer-full :
        (dst_addr : Option Str) → AllTaken w.timer_ids → start_timer dst_addr w ≡ fault
    unfolding start_timer
    start_timer-full dst_addr taken = rw (next_free_timer_id-none taken)
