-- ===== src/Tests/Protocol.antt =====
-- A daemon that has seen a new route, and waits for the name.
use name_spread.Prelude.{
  ◌≤◌, ◌↔◌, true, map, inl, ℕ, ◌+◌, ◌<◌, length, ◌≡◌, refl, Option, ◌⊎◌, false, none, some, List,
  [], ◌∷◌, ◌++◌, arith, replicate,
}
use name_spread.Text.{Str, codes, str_eq, strtok, newline, fgets_lines, decimal}
use name_spread.Machine.Run.{ok, fault, out_of_fuel}
use name_spread.Machine.Cfu.{key_eq}
use name_spread.Machine.System.{System}
use name_spread.Logger.{log, log_path}
use name_spread.Daemon.{log_info}
use name_spread.Hosts.Files.{popen}
use mathlib.Core.List.{flatten}
use name_spread.Protocol.Exits.{handle-exit}
use name_spread.Protocol.Listing.{datagram-Waiting}
use name_spread.Pnr.Waiting.{Waiting}
use name_spread.Pnr.Requesters.{enlist}
use name_spread.Hosts.Cache.{HoldsTable}
use name_spread.Network.{nreq_text}
use name_spread.Tests.Messages.{dst-IsWord, sta2, sta2-IsWord}
use name_spread.Protocol.Matched.{Reaches-taken, start_timer-outcome}
use name_spread.Timers.Count.{taken}
use name_spread.Machine.World.{World, Heap}
use name_spread.Logger.Yields.{quiet, Yields}
use name_spread.LinkedList.Chain.{Cells, head_of, values, Chain, IsHeap, SameOutside}
use name_spread.Network.Requests.{requested}
use name_spread.Hosts.Table.{lookup_name}
use name_spread.Timers.{n_timers, pnr, start_timer}
use name_spread.Timers.Handler.{found}
use name_spread.Pnr.Register.{opened}
use name_spread.Responder.{listen_loop, listen_step, handle_message}
use name_spread.Responder.Names.{told, handle_message-known}
use name_spread.Watcher.{watch_line, watch_routes}
use name_spread.Watcher.Routes.{watch_line-new}
use name_spread.Daemon.Events.{
  datagram, route_line, expiry, report, handle, handled, outside, Reaches, started, stepped,
}
use name_spread.Protocol.{tables, books}
use name_spread.Protocol.Ledger.{Posts}
use name_spread.Protocol.Ledger.Reached.{handle-Posts}
use name_spread.Protocol.Lists.{Requesters, Evolves}
use name_spread.Protocol.Requests.{IsSound}
use name_spread.Protocol.Reached.{Reaches-IsSound, handle-ends}
use name_spread.Protocol.Repeats.{Due, Expires, Repeated, expiry-Repeated}
use name_spread.Protocol.Once.{Distinct, Reaches-Distinct}
use name_spread.Machine.Moves.{Sane}
use name_spread.Protocol.Alarms.{start_timer-fits}
use name_spread.Protocol.Loops.{Reads, arrived, arrives, listen_loop-Reads}
use name_spread.Protocol.Lines.{Handles, ended, watch_routes-Handles}
use name_spread.Tests.Setup.{pnr_cfu, timer_cfu, test_system}
use name_spread.Tests.Files.{host, table, host-HoldsTable_long}
use name_spread.Tests.Requests.{dst, host-FirstFree}
use name_spread.Tests.Routes.{new_line, new_line-NewRoute}

abbrev own : Option Str
own = some (codes "10.0.0.1")

pub host-IsHeap : IsHeap host.heap
host-IsHeap = record { fresh_pos = omega arith; unused = λ a le. refl }

-- The new route's line is handled at the start.
seen :
    (g : Heap) × Yields tt (requested dst 50 (opened 0 dst g host)) (watch_line new_line host)
    × Chain g ((1, none) ∷ [])
    × IsHeap g
    × SameOutside ((1, none) ∷ []) host.heap g
    × (g.room + 1 ≡ 10)
unfolding lookup_name str_eq
seen =
    watch_line-new dst new_line table host refl (ground arith) host-HoldsTable_long (codes "2")
      new_line-NewRoute 50 refl refl (omega arith) 0 refl host-FirstFree host-IsHeap (omega arith)
      refl

-- The daemon waits, and the kernel has the route.
abbrev waiting : World
waiting = record (quiet (requested dst 50 (opened 0 dst seen.0 host)) seen.1.logs seen.1.popens) {
  routes = codes "10.0.0.3 2 0.0.0.0" ++ newline ∷ [];
  popens = [];
}

waiting-Reaches : Reaches own host waiting
unfolding handle
waiting-Reaches =
    stepped (stepped started (handled (route_line new_line) seen.1.run))
      (outside host.files (codes "10.0.0.3 2 0.0.0.0" ++ newline ∷ []) [] 0)

Reaches-IsSound_example :
    (reqs : Requesters) × IsSound reqs (tables waiting) × Evolves (λ k. []) reqs
Reaches-IsSound_example = Reaches-IsSound own host waiting host-IsHeap waiting-Reaches

handle-ends_example : ¬ (handle (expiry 0) waiting ≡ out_of_fuel)
handle-ends_example = handle-ends own host waiting (expiry 0) host-IsHeap waiting-Reaches

waiting-Due : Due dst (codes "2") waiting
unfolding str_eq key_eq strtok fgets_lines decimal
waiting-Due = record {
  place = 0;
  alarm = record { slot = 0; secs = 10 };
  ten_secs = refl;
  running = refl;
  addr = refl;
  pending = refl;
  route = found refl refl;
  can = refl;
}

expiry-Repeated_example :
    (v : World) × Expires 3 waiting v × Repeated 3 dst (codes "2") 50 waiting v
expiry-Repeated_example =
    expiry-Repeated own host host-IsHeap dst (codes "2") 50 refl refl (omega arith) 3 waiting
      waiting-Reaches waiting-Due

Reaches-Distinct_example :
    (cs : Cells) × Chain waiting.heap cs
    × (pnr (some dst) waiting ≡ head_of cs)
    × Distinct (values cs)
Reaches-Distinct_example = Reaches-Distinct own (some dst) host waiting host-IsHeap waiting-Reaches

-- The answer to a request for a name that the station knows.
told_once :
    Yields tt (told 7 sta2 (codes "sta2") host) (handle_message 7 (nreq_text (some sta2)) host)
unfolding lookup_name str_eq
told_once =
    handle_message-known sta2 table host refl sta2-IsWord host-HoldsTable_long 7 (codes "sta2") refl
      refl

abbrev after_once : World
after_once = quiet (told 7 sta2 (codes "sta2") host) told_once.logs told_once.popens

-- The answer to another one.
told_twice :
    Yields tt
      (told 8 sta2 (codes "sta2") after_once)
      (handle_message 8 (nreq_text (some sta2)) after_once)
unfolding lookup_name str_eq
told_twice =
    handle_message-known sta2 table after_once refl sta2-IsWord
      (record { text = host-HoldsTable_long.text; lines = host-HoldsTable_long.lines }) 8
      (codes "sta2") refl refl

abbrev after_twice : World
after_twice = quiet (told 8 sta2 (codes "sta2") after_once) told_twice.logs told_twice.popens

-- The first datagram ends in a NUL, the second does not.
abbrev two_datagrams : List (ℕ × List ℕ)
two_datagrams = (7, nreq_text (some sta2) ++ 0 ∷ []) ∷ (8, nreq_text (some sta2)) ∷ []

listen_loop-Reads_example :
    (¬ (listen_loop (replicate 53 9) two_datagrams host ≡ out_of_fuel))
    × ((listen_loop (replicate 53 9) two_datagrams host ≡ ok tt after_twice) ↔ (
        (t : World) × (listen_step (replicate 53 9) 7 (nreq_text (some sta2) ++ 0 ∷ []) host
          ≡ ok tt t)
        × Reads ((8, nreq_text (some sta2)) ∷ []) t after_twice))
listen_loop-Reads_example =
    listen_loop-Reads own host host-IsHeap (replicate 53 9) 7 (nreq_text (some sta2) ++ 0 ∷ [])
      ((8, nreq_text (some sta2)) ∷ []) ((8, nreq_text (some sta2)) ∷ []) host after_twice started
      (arrives (ground arith, omega arith, inl refl) arrived)

-- The line of a new route and one that tells of none.
abbrev two_lines : List Str
two_lines = codes "10.0.0.3 via 2 dev wlan0" ∷ codes "fe80::1 dev wlan0" ∷ []

abbrev after_lines : World
after_lines = quiet (requested dst 50 (opened 0 dst seen.0 host)) seen.1.logs seen.1.popens

watch_routes-Handles_example :
    (¬ (watch_routes (flatten (map ended two_lines)) host ≡ out_of_fuel))
    × ((watch_routes (flatten (map ended two_lines)) host ≡ ok tt after_lines) ↔ (
        (t : World) × (popen host ≡ ok true t)
        × Handles (map route_line (map ended two_lines)) t after_lines))
watch_routes-Handles_example =
    watch_routes-Handles own host host-IsHeap two_lines host after_lines started
      ((ground arith, omega arith), ((ground arith, omega arith), tt))

handle-Posts_example :
    Posts
      (Unit {0})
      ⊥
      (books host)
      (books (quiet (requested dst 50 (opened 0 dst seen.0 host)) seen.1.logs seen.1.popens))
unfolding handle
handle-Posts_example = handle-Posts (route_line new_line) host _ seen.1.run

-- The log's file cannot be opened.
abbrev full_disk : System
full_disk = record test_system { writable = λ path. false }

handle-exit_example : full_disk.writable (log_path own) ≡ false
unfolding handle log_info log
handle-exit_example =
    handle-exit ⦃sys = full_disk⦄ report host (record host { clock = host.clock + 10 }) refl

Reaches-taken_example : taken waiting.timer_ids ≡ length waiting.alarms
Reaches-taken_example = Reaches-taken refl own host waiting host-IsHeap waiting-Reaches

start_timer-outcome_example :
    ((length waiting.alarms < n_timers)
      × (id : ℕ) × (t : World) × (start_timer (some dst) waiting ≡ ok id t))
    ⊎ ((length waiting.alarms ≡ n_timers) × (start_timer (some dst) waiting ≡ fault))
start_timer-outcome_example =
    start_timer-outcome refl own dst host waiting host-IsHeap waiting-Reaches

waiting-HoldsTable : HoldsTable 512 table waiting
unfolding str_eq
waiting-HoldsTable = record { text = refl; lines = host-HoldsTable_long.lines }

datagram-Waiting_example :
    (vs : List (Option Str)) × (v : World) × Waiting (some dst) vs waiting
    × (handle (datagram (replicate 53 0) 8 (nreq_text (some dst) ++ 0 ∷ [])) waiting ≡ ok tt v)
    × Waiting (some dst) (enlist (some (8 ∷ [])) vs) v
    × Reaches own host v
unfolding lookup_name str_eq
datagram-Waiting_example =
    datagram-Waiting own host waiting host-IsHeap refl waiting-Reaches (replicate 53 0) 8 dst table
      refl dst-IsWord waiting-HoldsTable refl (omega arith) (omega (arith, seen.5)) (ground arith)
      (omega arith)

start_timer-fits_example :
    Sane
      (λ id t. (0 < id) × (id ≤ n_timers) × (length (decimal id) + 1 ≤ 12))
      (start_timer (some dst) waiting)
start_timer-fits_example = start_timer-fits own (some dst) host waiting host-IsHeap waiting-Reaches
