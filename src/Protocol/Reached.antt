-- ===== src/Protocol/Reached.antt =====
-- The states that the daemon comes to (Daemon.Events): how the tables stand in each of them.
use name_spread.Prelude.{
  ℕ, zero, suc, ◌+◌, ◌≡◌, refl, Option, none, some, List, [], ◌∷◌, ◌++◌, get_elem?, take, drop,
  replicate, length, ap, sym, subst, inl, All-middle, arith,
}
use name_spread.Text.{Str, decimal}
use name_spread.Machine.Run.{Run, ok, out_of_fuel}
use name_spread.Machine.Cfu.{Cfu}
use name_spread.Machine.System.{System}
use name_spread.Machine.World.{World, Alarm}
use name_spread.Machine.Moves.{Sane, returned, cut_off, Onward}
use name_spread.LinkedList.Chain.{IsHeap}
use name_spread.Timers.{n_timers}
use name_spread.Daemon.{start}
use name_spread.Daemon.Events.{
  Event, datagram, route_line, expiry, report, expire, handle, Step, handled, outside, Reaches,
  started, stepped, without,
}
use name_spread.Protocol.{tables}
use name_spread.Protocol.Clock.{Spaced, Spaced-remove, Armed}
use name_spread.Protocol.Lists.{Requesters, Evolves, begun, Evolves-follow}
use name_spread.Protocol.Requests.{IsSound, daemon}
use name_spread.Protocol.Primitives.{daemon-Primitives, daemon-Asking, daemon-Listening}
use name_spread.Protocol.Handlers.{listen_step-Moves, watch_line-Moves, log_info-Moves}
use name_spread.Protocol.Timeouts.{timeout_handler_step}

-- A list around one of its elements.
pub split_at :
    {A : Type 0} (xs : List A) (n : ℕ) (a : A)
    → get_elem? xs n ≡ some a
    → take n xs ++ a ∷ drop (suc n) xs ≡ xs
split_at [] n a e = absurd (ground (arith, e))
split_at (x ∷ xs) zero a e = ground (arith, e)
split_at (x ∷ xs) (suc n) a e = ap (λ ys. x ∷ ys) (split_at xs n a e)

replicate-zero : (n i t : ℕ) → get_elem? (replicate {A = ℕ} n 0) i ≡ some t → t ≡ 0
replicate-zero zero i t e = absurd (ground (arith, e))
replicate-zero (suc n) zero t e = ground (arith, e)
replicate-zero (suc n) (suc i) t e = replicate-zero n i t e

length-replicate : (n : ℕ) → length (replicate {A = ℕ} n 0) ≡ n
length-replicate zero = refl
length-replicate (suc n) = ap suc (length-replicate n)

returned_at : {S A : Type 0} {P : A → S → Type 0} {a : A} {s : S} → Sane P (ok a s) → P a s
returned_at (returned p) = p

pub not_cut_off : {S A : Type 0} {P : A → S → Type 0} {r : Run S A} → Sane P r → ¬ (r ≡ out_of_fuel)
not_cut_off sane e = elim (subst (Sane _) e sane) [ cut_off c ↦ absurd c ]

module _ ⦃pnr_table : Cfu ℕ⦄ ⦃timer_table : Cfu Str⦄ ⦃sys : System⦄ where
  start-IsSound :
      (argument : Option Str) (w : World)
      → IsHeap w.heap
      → IsSound (λ _. []) (tables (start argument w))
  start-IsSound argument w is = record {
    lists = record {
      cells = λ k. [];
      head = λ k. rw (pnr_table.get-empty k) refl;
      vals = λ k. refl;
      chain = λ k. tt;
      apart = λ j k ne a i. refl;
      is_heap = is;
    };
    clock = record {
      ids_ok = λ j t e. inl (replicate-zero n_timers j t e);
      size = length-replicate n_timers;
      entry = λ i e. absurd (omega (arith, replicate-zero n_timers i (i + 1) e));
      no_entry = λ i e. timer_table.get-empty (some (decimal (i + 1)));
      armed = tt;
      spaced = tt;
    };
  }

  expire_step :
      (n : ℕ) (a : Alarm) (g : Requesters) (w : World)
      → IsSound g (tables w)
      → get_elem? w.alarms n ≡ some a
      → Sane (λ _ t. Onward daemon g t) (expire n w)
  unfolding expire
  expire_step n a g w good at =
      let e = split_at w.alarms n a at in
      let (at', armed) =
        All-middle (λ b. get_elem? w.timer_ids b.slot ≡ some (b.slot + 1)) (take n w.alarms)
          (drop (suc n) w.alarms) a (subst (Armed w.timer_ids) (sym e) good.clock.armed) in
      let (spaced, spare) =
        Spaced-remove (take n w.alarms) (drop (suc n) w.alarms) a
          (subst Spaced (sym e) good.clock.spaced) in
      rw (expire, at)
        (timeout_handler_step a.slot g (record w { alarms = without n w.alarms })
          (record {
            lists = good.lists;
            clock = record {
              ids_ok = good.clock.ids_ok;
              size = good.clock.size;
              entry = good.clock.entry;
              no_entry = good.clock.no_entry;
              armed = armed;
              spaced = spaced;
            };
          })
          at' spare)

  expiry_step :
      (n : ℕ) (a : Option Alarm) (g : Requesters) (w : World)
      → IsSound g (tables w)
      → get_elem? w.alarms n ≡ a
      → Sane (λ _ t. Onward daemon g t) (expire n w)
  unfolding expire
  expiry_step n none g w good at = rw (expire, at) (returned (g, good, begun))
  expiry_step n (some a) g w good at = expire_step n a g w good at

  pub handle_step :
      (e : Event) (g : Requesters) (w : World)
      → IsSound g (tables w)
      → Sane (λ _ t. Onward daemon g t) (handle e w)
  unfolding handle
  handle_step (datagram old requester bytes) g w good =
      (listen_step-Moves daemon daemon-Primitives daemon-Listening old requester bytes).at g w good
  handle_step (route_line line) g w good =
      (watch_line-Moves daemon daemon-Primitives daemon-Asking line).at g w good
  handle_step (expiry n) g w good = expiry_step n (get_elem? w.alarms n) g w good refl
  handle_step report g w good = (log_info-Moves daemon daemon-Primitives).at g w good

  Step-Onward : (g : Requesters) (w v : World) → IsSound g (tables w) → Step w v → Onward daemon g v
  Step-Onward g w v good (handled e run) =
      returned_at (subst (Sane (λ _ t. Onward daemon g t)) run (handle_step e g w good))
  Step-Onward g w v good (outside files routes popens clock) = (g, good, begun)

  -- If the heap has handed out no address from `fresh` on when the daemon starts, then in every
  -- state that it comes to there are lists of requesters that arise from none by requesters
  -- joining an address and addresses being answered, and the tables represent them: each address's
  -- entry points to a chain of nodes that holds its list, no two addresses share a node, each
  -- timer id is 0 or its index plus 1, each of the hundred ids has an entry in the table of timers
  -- exactly if it is not 0, and the running timers point to different ids that are not 0.
  pub Reaches-IsSound :
      (argument : Option Str) (w v : World)
      → IsHeap w.heap
      → Reaches argument w v
      → (reqs : Requesters) × IsSound reqs (tables v) × Evolves (λ _. []) reqs
  Reaches-IsSound argument w v is started = ((λ _. []), start-IsSound argument w is, begun)
  Reaches-IsSound argument w v is (stepped {u} r s) =
      let (g, good, lead) = Reaches-IsSound argument w u is r in
      let (h, good', lead') = Step-Onward g u v good s in
      (h, good', Evolves-follow (λ _. []) g h lead lead')

  -- If the heap has handed out no address from `fresh` on when the daemon starts, then in every
  -- state that it comes to the handling of every event ends: no loop in it is cut off.
  pub handle-ends :
      (argument : Option Str) (w v : World) (e : Event)
      → IsHeap w.heap
      → Reaches argument w v
      → ¬ (handle e v ≡ out_of_fuel)
  handle-ends argument w v e is r =
      let (g, good, lead) = Reaches-IsSound argument w v is r in
      not_cut_off (handle_step e g v good)
