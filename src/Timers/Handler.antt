-- ===== src/Timers/Handler.antt =====
-- timeout_handler on each of its outcomes, and route_exists.
use name_spread.Prelude.{
  ℕ, ◌+◌, ◌<◌, ◌≡◌, Bool, true, false, Option, none, some, List, [], ◌∷◌, ◌==◌, ltb, length,
  get_elem?, set, arith,
}
use name_spread.Text.{Str, codes, str_eq, str_eq_refl, space, strtok, fgets_lines, decimal}
use name_spread.Machine.Run.{ok, ◌>>◌}
use name_spread.Machine.Cfu.{Cfu}
use name_spread.Machine.System.{System}
use name_spread.Machine.World.{World, M}
use name_spread.Logger.{log, CanLog}
use name_spread.Logger.Yields.{
  quiet, Yields, Yields-bind, Yields-here, Yields-quiet, log-Yields, log-then, log-last,
}
use name_spread.Hosts.Table.{same_text-ok}
use name_spread.Hosts.Cache.{wait_popen-Yields}
use name_spread.Network.Requests.{requested, FitsRequest, request_name-requested}
use name_spread.Timers.{
  pnr, set_timer_id, find_route, route_exists, retry, drop_timer, timeout_handler,
}
use name_spread.Timers.Ids.{
  FirstFree, lt-length_of_get_elem?, add-sub_one, with_timer, start_timer-with_timer,
}

-- The lines of a routing table give `hop` for the address: NULL if no line begins with it, and
-- else the second word of the first that does.
pub data Finds (dst : Str) : List Str → Option Str → Type 0 where
  ended : Finds dst [] none
  found :
      {line rest hop : Str} {lines : List Str}
      → strtok space line ≡ (some dst, rest)
      → (strtok space rest).0 ≡ some hop
      → Finds dst (line ∷ lines) (some hop)
  skipped :
      {line other rest : Str} {lines : List Str} {r : Option Str}
      → strtok space line ≡ (some other, rest)
      → str_eq other dst ≡ false
      → Finds dst lines r
      → Finds dst (line ∷ lines) r

lt→ltb : (a b : ℕ) → a < b → ltb a b ≡ true
lt→ltb a b h = ground arith

id-ne-zero : (i : ℕ) → (i + 1 == 0) ≡ false
id-ne-zero i = ground arith

module _ ⦃pnr_table : Cfu ℕ⦄ ⦃timer_table : Cfu Str⦄ ⦃sys : System⦄ where
  find_route-Finds :
      (dst : Str) (w : World) (l : List (Str × Str)) (p : List Bool) {lines : List Str}
      {r : Option Str}
      → CanLog w
      → Finds dst lines r
      → Yields r w (find_route (some dst) lines (quiet w l p))
  unfolding find_route
  find_route-Finds dst w l p can ended = Yields-here none w l p
  find_route-Finds dst w l p can (found {hop} e h) = rw e (
      log-then _ w w l p _ can λ l' p'.
        rw (same_text-ok dst dst (quiet w l' p'), str_eq_refl dst, h)
          (log-then _ w w l' p' _ can (Yields-here (some hop) w)))
  find_route-Finds dst w l p can (skipped {other} e ne rest) = rw e (
      log-then _ w w l p _ can λ l' p'.
        rw (same_text-ok other dst (quiet w l' p'), ne) (find_route-Finds dst w l' p' can rest))

  -- route_exists returns the next hop that the routing table gives for the address, or NULL, and
  -- changes nothing but the log.
  pub route_exists-Finds :
      (dst : Str) (w : World) (r : Option Str)
      → CanLog w
      → Finds dst (fgets_lines 33 w.routes) r
      → Yields r w (route_exists (some dst) w)
  unfolding route_exists
  route_exists-Finds dst w r can finds = Yields-bind _ (log-Yields _ w can) λ l p.
      Yields-bind _ (Yields-quiet w l p (wait_popen-Yields _ (quiet w l p) can)) λ l p.
        log-then _ w w l p _ can
          λ l p. Yields-bind _ (find_route-Finds dst w l p can finds) (ending r)
    where
      ending :
          (r : Option Str) (l : List (Str × Str)) (p : List Bool)
          → Yields r w (
              (elim r as (λ _. M (Option Str)) [
                | none ↦ (log (codes "[ TIMEOUT ] 4\n") >> λ v. ok none v)
                | some hop ↦ λ v. ok (some hop) v
              ])
                (quiet w l p))
      ending none l p = log-then _ w w l p _ can (Yields-here none w)
      ending (some hop) l p = Yields-here (some hop) w l p

  -- The world without the timer with the id `i + 1`.
  abbrev pub without_timer : ℕ → World → World
  without_timer i w = record w {
    timers = timer_table.delete w.timers (decimal (i + 1));
    timer_ids = set w.timer_ids i 0;
  }

  -- A timer is running for the address: it points to element `i` of the array, which holds its id.
  pub record Running (i : ℕ) (dst : Str) (w : World) : Type 0 where
    pub id_at : get_elem? w.timer_ids i ≡ some (i + 1)
    pub addr : timer_table.get w.timers (some (decimal (i + 1))) ≡ some dst

  pub drop_timer-without_timer :
      (i : ℕ) (w : World)
      → get_elem? w.timer_ids i ≡ some (i + 1)
      → drop_timer (i + 1) w ≡ ok tt (without_timer i w)
  unfolding drop_timer set_timer_id
  drop_timer-without_timer i w at =
      let lt = lt-length_of_get_elem? w.timer_ids i (i + 1) at in
      rw (id-ne-zero i, add-sub_one i, lt→ltb i (length w.timer_ids) lt)

  -- A timeout of a running timer for an address with no pending request, with the log writable,
  -- frees the timer's id, deletes its entry in the table of timers and the address's among the
  -- pending requests, and changes nothing else but the log.
  timeout_handler-settled :
      (i : ℕ) (dst : Str) (w : World)
      → CanLog w
      → Running i dst w
      → pnr (some dst) w ≡ 0
      → Yields tt
          (record (without_timer i w) { pnrs = pnr_table.delete w.pnrs dst })
          (timeout_handler i w)
  unfolding timeout_handler
  timeout_handler-settled i dst w can run settled =
      rw (run.id_at, run.addr)
        (Yields-bind _ (log-Yields _ w can) λ l p.
          rw (drop_timer-without_timer i (quiet w l p) run.id_at) (
            rw settled (
              log-last _ (record (without_timer i w) { pnrs = pnr_table.delete w.pnrs dst }) l p
                can)))

  retry-no_route :
      (dst : Str) (w : World)
      → CanLog w
      → Finds dst (fgets_lines 33 w.routes) none
      → Yields tt w (retry (some dst) w)
  unfolding retry
  retry-no_route dst w can finds = Yields-bind _ (log-Yields _ w can) λ l p.
      Yields-bind _ (Yields-quiet w l p (route_exists-Finds dst (quiet w l p) none can finds))
        λ l p. Yields-here tt w l p

  retry-requested :
      (dst hop : Str) (j to : ℕ) (w : World)
      → CanLog w
      → Finds dst (fgets_lines 33 w.routes) (some hop)
      → sys.handler_set ≡ true
      → FirstFree w.timer_ids j
      → sys.inet_aton hop ≡ some to
      → FitsRequest dst
      → Yields tt (requested dst to (with_timer j dst w)) (retry (some dst) w)
  unfolding retry
  retry-requested dst hop j to w can finds set_up first valid fit =
      Yields-bind _ (log-Yields _ w can) λ l p.
        Yields-bind _
          (Yields-quiet w l p (route_exists-Finds dst (quiet w l p) (some hop) can finds))
          λ l p. log-then _ w _ l p _ can λ l p.
            rw (start_timer-with_timer (quiet w l p) j dst set_up first) (
              log-then _ (with_timer j dst w) _ l p _ can λ l p.
                Yields-quiet (requested dst to (with_timer j dst w)) l p (
                  request_name-requested dst hop to (quiet (with_timer j dst w) l p) can valid fit))

  module _ (i : ℕ) (dst : Str) (w : World) (can : CanLog w) (run : Running i dst w)
      (pending : (pnr (some dst) w == 0) ≡ false) where
    timeout_handler-retry_lem :
        {v : World}
        → ((l : List (Str × Str)) (p : List Bool)
            → Yields tt v (retry (some dst) (quiet (without_timer i w) l p)))
        → Yields tt v (timeout_handler i w)
    unfolding timeout_handler
    timeout_handler-retry_lem next =
        rw (run.id_at, run.addr)
          (Yields-bind _ (log-Yields _ w can)
            λ l p. rw (drop_timer-without_timer i (quiet w l p) run.id_at) (rw pending (next l p)))

    -- A timeout for a pending request, with the log writable, while the routing table has no line
    -- for the address, frees the timer's id and deletes its entry, and changes nothing else but
    -- the log.
    pub timeout_handler-no_route :
        Finds dst (fgets_lines 33 w.routes) none
        → Yields tt (without_timer i w) (timeout_handler i w)
    timeout_handler-no_route finds = timeout_handler-retry_lem λ l p.
        Yields-quiet (without_timer i w) l p
          (retry-no_route dst (quiet (without_timer i w) l p) can finds)

    -- Let a running timer for a pending request time out while the routing table has a line for
    -- the address with a readable next hop, and let the log be writable, sigaction succeed, and
    -- the request's text fit its array. Then the handler returns: the old timer's id is free and
    -- its entry deleted, a new timer for the address runs under the lowest id that is free then,
    -- one request has been sent to the next hop and counted, and nothing else has changed but the
    -- log and one socket.
    pub timeout_handler-retry :
        (j : ℕ) (hop : Str) (to : ℕ)
        → Finds dst (fgets_lines 33 w.routes) (some hop)
        → sys.handler_set ≡ true
        → FirstFree (set w.timer_ids i 0) j
        → sys.inet_aton hop ≡ some to
        → FitsRequest dst
        → Yields tt (requested dst to (with_timer j dst (without_timer i w))) (timeout_handler i w)
    timeout_handler-retry j hop to finds set_up first valid fit = timeout_handler-retry_lem λ l p.
        Yields-quiet (requested dst to (with_timer j dst (without_timer i w))) l p (
          retry-requested dst hop j to (quiet (without_timer i w) l p) can finds set_up first valid
            fit)
