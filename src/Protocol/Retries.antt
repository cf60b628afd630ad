-- ===== src/Protocol/Retries.antt =====
-- The end of a pending request's timer: timeout_handler of src/timer.c in the states that the daemon
-- comes to.
use name_spread.Prelude.{
  ℕ, ◌+◌, ◌≡◌, refl, true, false, Option, some, List, [], ◌∷◌, ◌++◌, ◌==◌, get_elem?, set, length,
  ◌∙◌, inl, inr,
}
use name_spread.Text.{Str, decimal, fgets_lines}
use name_spread.Machine.Run.{ok}
use name_spread.Machine.Cfu.{Cfu, key_eq_iff}
use name_spread.Machine.System.{System}
use name_spread.Machine.World.{World, Alarm}
use name_spread.Logger.{CanLog}
use name_spread.Logger.Yields.{quiet}
use name_spread.LinkedList.Chain.{IsHeap}
use name_spread.Network.{nreq_text}
use name_spread.Timers.{pnr}
use name_spread.Timers.Ids.{FirstFree, get_elem?-set_self, with_timer}
use name_spread.Timers.Slots.{first-or-taken}
use name_spread.Timers.Handler.{Finds, Running, without_timer, timeout_handler-retry}
use name_spread.Network.Requests.{FitsRequest, requested}
use name_spread.Daemon.Events.{expiry, expire, handle, Reaches, without}
use name_spread.Protocol.Alarms.{Reaches-Running}

get_elem?-append :
    {A : Type 0} (xs : List A) (x : A) → get_elem? (xs ++ x ∷ []) (length xs) ≡ some x
get_elem?-append [] x = refl
get_elem?-append (y ∷ xs) x = get_elem?-append xs x

-- An id that is 0 can be taken.
some_free : (ids : List ℕ) (i : ℕ) → get_elem? ids i ≡ some 0 → (j : ℕ) × FirstFree ids j
some_free ids i free = elim (first-or-taken ids) [ inl f ↦ f | inr taken ↦ absurd (taken i free) ]

module _ ⦃pnr_table : Cfu ℕ⦄ ⦃timer_table : Cfu Str⦄ ⦃sys : System⦄ where
  -- From `u` to `v` the pending requests have stayed, and the station's address and the routing table, one
  -- request for the address was sent, and a timer of ten seconds runs for it.
  pub record Retried (dst : Str) (to : ℕ) (u v : World) : Type 0 where
    pub heap : v.heap ≡ u.heap
    pub pnrs : v.pnrs ≡ u.pnrs
    pub sent : v.sent ≡ u.sent ++ record { to = to; payload = nreq_text (some dst) ++ 0 ∷ [] } ∷ []
    pub place : ℕ
    pub slot : ℕ
    pub alarm : get_elem? v.alarms place ≡ some (record { slot = slot; secs = 10 })
    pub running : Running slot dst v
    pub own_addr : v.own_addr ≡ u.own_addr
    pub routes : v.routes ≡ u.routes

  get-put_same :
      (t : timer_table.Table) (k v : Str)
      → timer_table.get (timer_table.put t (some k) v) (some k) ≡ some v
  get-put_same t k v =
      timer_table.get-put t (some k) v (some k) ∙ rw ((key_eq_iff (some k) (some k)).1 refl) refl

  -- Let the heap have handed out no address from `fresh` on when the daemon starts. In a state that it comes
  -- to, let a running timer end whose address is pending, while the log is writable, the routing table has a
  -- line for the address with a readable next hop, sigaction succeeds and the request's text fits its array.
  -- Then the handling returns, the address is still pending with the same requesters, one
  -- request has been sent to the next hop, and a new timer of ten seconds runs for the address.
  pub expiry-Retried :
      (argument : Option Str) (w u : World) (n : ℕ) (a : Alarm) (dst hop : Str) (to : ℕ)
      → IsHeap w.heap
      → Reaches argument w u
      → CanLog u
      → get_elem? u.alarms n ≡ some a
      → timer_table.get u.timers (some (decimal (a.slot + 1))) ≡ some dst
      → (pnr (some dst) u == 0) ≡ false
      → Finds dst (fgets_lines 33 u.routes) (some hop)
      → sys.handler_set ≡ true
      → sys.inet_aton hop ≡ some to
      → FitsRequest dst
      → (v : World) × (handle (expiry n) u ≡ ok tt v) × Retried dst to u v
  unfolding handle expire
  expiry-Retried argument w u n a dst hop to is r can at entry pending finds set_up valid fit =
      let (d, run, bound) = Reaches-Running argument w u n a is r at in
      let free = get_elem?-set_self u.timer_ids a.slot (a.slot + 1) 0 run.id_at in
      let (j, first) = some_free (set u.timer_ids a.slot 0) a.slot free in
      let y =
        timeout_handler-retry a.slot dst (record u { alarms = without n u.alarms }) can
          (record { id_at = run.id_at; addr = entry }) pending j hop to finds set_up first valid
          fit in
      (
        quiet
            (requested dst to
              (with_timer j dst (without_timer a.slot (record u { alarms = without n u.alarms }))))
            y.logs y.popens,
        rw (expire, at) y.run,
        record {
          heap = refl;
          pnrs = refl;
          sent = refl;
          own_addr = refl;
          routes = refl;
          place = length (without n u.alarms);
          slot = j;
          alarm = get_elem?-append (without n u.alarms) _;
          running = record {
            id_at = get_elem?-set_self (set u.timer_ids a.slot 0) j 0 (j + 1) first.free;
            addr = get-put_same _ (decimal (j + 1)) dst;
          };
        },
      )
