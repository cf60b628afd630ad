-- ===== src/Tests/Requests.antt =====
-- Pending requests: their timers and their requesters.
use name_spread.Prelude.{
  length, ◌⊎◌, ◌<◌, ◌≤◌, ℕ, suc, ◌≡◌, refl, none, some, [], ◌∷◌, ◌++◌, ◌==◌, if◌then◌else◌, arith,
  replicate,
}
use name_spread.Text.{Str, codes, str_eq, newline, fgets_lines, decimal}
use name_spread.Machine.Run.{fault}
use name_spread.Machine.Ensures.{Ensures}
use name_spread.Machine.World.{World, Heap}
use name_spread.Logger.Yields.{Yields}
use name_spread.LinkedList.{node}
use name_spread.LinkedList.Chain.{Cells, Chain, IsHeap}
use name_spread.Timers.{timeout_handler}
use name_spread.Timers.Ids.{FirstFree}
use name_spread.Timers.Handler.{ended, Running, without_timer, timeout_handler-no_route}
use name_spread.Machine.Run.{ok, ◌>>◌}
use name_spread.Timers.{next_free_timer_id, drop_timer}
use name_spread.Timers.Slots.{drop_timer-next_free_timer_id}
use name_spread.Logger.{get_timestamp}
use name_spread.Dump.{pnrs_log_path, log_pnrs}
use name_spread.Dump.Entries.{table_text, log_pnrs-table_text}
use name_spread.Network.{request_name}
use name_spread.Network.Requests.{requested, request_name-bounds}
use name_spread.Machine.System.{System}
use name_spread.Machine.Cfu.{key_eq}
use name_spread.Pnr.{same_val, register_nreq}
use name_spread.Pnr.Waiting.{Waiting, register_nreq-enlist}
use name_spread.Tests.Setup.{pnr_cfu, timer_cfu, test_system}
use name_spread.Tests.Files.{host}

abbrev pub dst : Str
dst = codes "10.0.0.3"

first_free : (n : ℕ) → FirstFree (replicate (suc n) 0) 0
first_free n = record { free = refl; lowest = λ j lt. absurd (omega arith) }

pub host-FirstFree : FirstFree host.timer_ids 0
host-FirstFree = first_free 99

-- A local request and one from the address "7".
abbrev pub two_requesters : Cells
two_requesters = (1, none) ∷ (2, some (codes "7")) ∷ []

abbrev pub two_nodes : Heap
two_nodes = record {
  cell = λ a.
      if a == 1
      then some (node none 2)
      else if a == 2
      then some (node (some (codes "7")) 0)
      else none;
  fresh = 3;
  room = 5;
}

pub two_nodes-IsHeap : IsHeap two_nodes
two_nodes-IsHeap = record { fresh_pos = omega arith; unused = λ a le. ground arith }

pub two_nodes-Chain : Chain two_nodes two_requesters
two_nodes-Chain = (omega arith, refl, refl, (omega arith, refl, refl, tt))

-- A request is pending: its timer has the id 1.
abbrev pub pending : World
pending = record host {
  heap = two_nodes;
  pnrs = (some dst, 1) ∷ [];
  timers = (some (decimal 1), dst) ∷ [];
  timer_ids = 1 ∷ replicate 99 0;
  routes = codes "10.0.0.3 2 0.0.0.0" ++ newline ∷ [];
}

pub pending-Waiting : Waiting (some dst) (none ∷ some (codes "7") ∷ []) pending
unfolding str_eq key_eq
pending-Waiting = record {
  cells = two_requesters;
  head = refl;
  vals = refl;
  chain = two_nodes-Chain;
  heap = two_nodes-IsHeap;
}

pub pending-FirstFree : FirstFree pending.timer_ids 1
pending-FirstFree = record { free = refl; lowest = λ j lt. ground arith }

pending-Running : Running 0 dst pending
unfolding str_eq decimal key_eq
pending-Running = record { id_at = refl; addr = refl }

timeout_handler-no_route_example :
    Yields tt
      (without_timer 0 (record pending { routes = [] }))
      (timeout_handler 0 (record pending { routes = [] }))
unfolding str_eq fgets_lines key_eq
timeout_handler-no_route_example =
    timeout_handler-no_route 0 dst (record pending { routes = [] }) refl
      (record { id_at = refl; addr = pending-Running.addr }) refl ended

register_nreq-enlist_example :
    Ensures
      (λ _ v. Waiting (some dst) (none ∷ some (codes "7") ∷ some (codes "8") ∷ []) v)
      (register_nreq (some dst) none (some (codes "8")) pending)
unfolding str_eq same_val
register_nreq-enlist_example =
    register_nreq-enlist pending dst none (some (codes "8")) refl 1 (none ∷ some (codes "7") ∷ [])
      refl pending-FirstFree (omega arith) pending-Waiting

-- A compiler that gives each array its bytes and no more.
abbrev exact : System
exact = record test_system { array_room = λ n. n; array_room-le = λ n. omega arith }

abbrev subnet : Str
subnet = codes "192.168.100.0/24"

request_name-bounds_example :
    ((length subnet ≤ 15)
      × Yields tt
          (requested ⦃sys = exact⦄ subnet 50 host)
          (request_name ⦃sys = exact⦄ (some subnet) (some (codes "2")) host))
    ⊎ ((15 < length subnet)
        × (request_name ⦃sys = exact⦄ (some subnet) (some (codes "2")) host ≡ fault))
request_name-bounds_example =
    request_name-bounds ⦃sys = exact⦄ subnet (codes "2") 50 host refl refl refl

drop_timer-next_free_timer_id_example :
    (next_free_timer_id >> drop_timer 1) host
    ≡ ok tt (record host { timers = timer_cfu.delete host.timers (decimal 1) })
drop_timer-next_free_timer_id_example = drop_timer-next_free_timer_id host 0 host-FirstFree

log_pnrs-table_text_example :
    log_pnrs pending
    ≡ ok tt (record pending {
      logs =
          pending.logs
          ++ (
            pnrs_log_path pending.own_addr,
            codes "[START]"
                ++ newline ∷ get_timestamp pending
                ++ newline ∷ codes "{"
                ++ newline
                  ∷ table_text (λ k. none ∷ some (codes "7") ∷ []) (pnr_cfu.keys pending.pnrs)
                ++ codes "}"
                ++ newline ∷ [],
          )
            ∷ [];
    })
log_pnrs-table_text_example =
    log_pnrs-table_text (λ k. none ∷ some (codes "7") ∷ []) pending refl (pending-Waiting, tt)
