-- ===== src/Timers.antt =====
-- The timers of pending requests: the ids of src/namespread.c and src/timer.c.
pub mod Ids
pub mod Handler
pub mod Slots
pub mod Count
use name_spread.Prelude.{
  ℕ, ◌+◌, ◌-◌, Option, none, some, List, [], ◌∷◌, ◌++◌, ◌==◌, ltb, if◌then◌else◌, length, get_elem?,
  set,
}
use name_spread.Text.{Str, codes, shown, space, newline, strtok, fgets_lines, decimal}
use name_spread.Machine.Run.{ok, fault, pure, crash, gets, need, modify, ◌>>=◌, ◌>>◌}
use name_spread.Machine.Cfu.{Cfu}
use name_spread.Machine.System.{System}
use name_spread.Machine.World.{World, M}
use name_spread.Logger.{log}
use name_spread.Hosts.{same_text}
use name_spread.Hosts.Files.{wait_popen}
use name_spread.Network.{request_name}

-- N_TIMERS and NREQ_TIMEOUT_SECS
abbrev pub n_timers : ℕ
n_timers = 100

abbrev pub nreq_timeout_secs : ℕ
nreq_timeout_secs = 10

-- The loop of next_free_timer_id: the first index from `i` on with a 0.
unfoldable pub free_from : ℕ → List ℕ → Option ℕ
free_from i [] = none
free_from i (t ∷ ts) = if t == 0 then some i else free_from (i + 1) ts

-- A list of requesters, NULL for an address with none.
abbrev pub or_null : Option ℕ → ℕ
or_null none = 0
or_null (some p) = p

module _ ⦃pnr_table : Cfu ℕ⦄ ⦃timer_table : Cfu Str⦄ ⦃sys : System⦄ where
  -- cfuhash_get(pnrs, dst_addr)
  abbrev pub pnr : Option Str → World → ℕ
  pnr dst_addr w = or_null (pnr_table.get w.pnrs dst_addr)

  -- cfuhash_delete(pnrs, dst_addr), which follows its key
  unfoldable pub delete_pnr : Option Str → M (Unit {0})
  delete_pnr dst_addr = do
    key ← need dst_addr
    modify (λ w. record w { pnrs = pnr_table.delete w.pnrs key })

  -- timer_ids[i] = id
  unfoldable pub set_timer_id : ℕ → ℕ → M (Unit {0})
  set_timer_id i id w =
      if ltb i (length w.timer_ids)
      then ok tt (record w { timer_ids = set w.timer_ids i id })
      else fault

  -- The index of the element that the returned pointer points to; NULL if all ids are taken.
  unfoldable pub next_free_timer_id : M (Option ℕ)
  unfolding free_from
  next_free_timer_id w = elim (free_from 0 w.timer_ids) [
    | none ↦ ok none w
    | some i ↦ ok (some i) (record w { timer_ids = set w.timer_ids i (i + 1) })
  ]

  -- The signal of the new timer points to `timer_ids[slot]`.
  unfoldable pub make_timer : ℕ → ℕ → M (Unit {0})
  make_timer slot timeout_secs w =
      if sys.handler_set
      then ok tt
          (record w { alarms = w.alarms ++ record { slot = slot; secs = timeout_secs } ∷ [] })
      else log (codes "[ ERROR ] Failed to setup signal handling\n") w

  -- `int *timer_id_index = next_free_timer_id(); make_timer(…); … cfuhash_put(timers, …);`, the same
  -- lines in register_nreq and in timeout_handler. The new id is returned for their messages.
  unfoldable pub start_timer : Option Str → M ℕ
  unfolding make_timer
  start_timer dst_addr = do
    free ← next_free_timer_id
    i ← need free
    ids ← gets (λ w. w.timer_ids)
    id ← need (get_elem? ids i)
    make_timer (id - 1) nreq_timeout_secs
    key ← need dst_addr
    modify (λ w. record w { timers = timer_table.put w.timers (some (decimal id)) key })
    pure id

  -- The loop of route_exists over the lines of the routing table.
  unfoldable pub find_route : Option Str → List Str → M (Option Str)
  find_route dst_addr [] = pure none
  find_route dst_addr (line ∷ lines) =
      let (route_dst_addr, rest) = strtok space line in
      let message = codes "[ TIMEOUT ] 3.1 dst:" ++ shown route_dst_addr ++ newline ∷ [] in
      let others = find_route dst_addr lines in
      do
        log message
        found ← same_text route_dst_addr dst_addr
        if found
            then (do
              route_next_hop ← need (strtok space rest).0
              log message
              pure (some route_next_hop))
            else others

  unfoldable pub route_exists : Option Str → M (Option Str)
  route_exists dst_addr = do
    log (codes "[ TIMEOUT ] 2\n")
    wait_popen (codes "[WAIT] Trying popen(route -n | tr -s ' ')...\n")
    routes ← gets (λ w. w.routes)
    log (codes "[ TIMEOUT ] 3\n")
    next_hop ← find_route dst_addr (fgets_lines 33 routes)
    elim next_hop [
      | none ↦ (do log (codes "[ TIMEOUT ] 4\n"); pure none)
      | some hop ↦ pure (some hop)
    ]

  -- The end of timeout_handler: the request is sent again under a new timer, if there is a route.
  unfoldable pub retry : Option Str → M (Unit {0})
  retry dst_addr = do
    log (codes "[ TIMEOUT ] 1\n")
    dst ← need dst_addr
    next_hop ← route_exists (some dst)
    elim next_hop [
      | none ↦ pure tt
      | some hop ↦ do
        log (codes "[ TIMEOUT ] 5\n")
        id ← start_timer dst_addr
        log (
            codes "[TIMER++] Reset timer "
            ++ decimal id
            ++ codes " for NREQ of "
            ++ shown dst_addr
            ++ newline ∷ [])
        request_name dst_addr (some hop)
    ]

  -- The timer's own entries go before anything else happens.
  unfoldable pub drop_timer : ℕ → M (Unit {0})
  unfolding set_timer_id
  drop_timer id = do
    modify (λ w. record w { timers = timer_table.delete w.timers (decimal id) })
    if id == 0 then crash else set_timer_id (id - 1) 0

  -- The signal of a timer whose sival_ptr points to `timer_ids[slot]`.
  unfoldable pub timeout_handler : ℕ → M (Unit {0})
  unfolding delete_pnr
  timeout_handler slot = do
    ids ← gets (λ w. w.timer_ids)
    id ← need (get_elem? ids slot)
    dst_addr ← gets (λ w. timer_table.get w.timers (some (decimal id)))
    log (
        codes "[TIMEOUT] Timeout on NREQ for host "
        ++ shown dst_addr
        ++ codes " (timer ID: "
        ++ decimal id
        ++ codes ")\n")
    drop_timer id
    pending ← gets (pnr dst_addr)
    if pending == 0
        then (do
          delete_pnr dst_addr
          log (codes "[TIMER-] Not reseting timer for " ++ shown dst_addr ++ newline ∷ []))
        else retry dst_addr
