-- ===== src/Machine/World.antt =====
-- The daemon's globals (src/namespread.c) and the parts of the outside world that it changes or reads.
use name_spread.Prelude.{ℕ, Bool, Option, List}
use name_spread.Text.{Str}
use name_spread.Machine.Run.{Cmd}
use name_spread.Machine.Cfu.{Cfu}

-- `char *val; struct node *next;` with NULL as address 0
pub record Node : Type 0 where
  pub val : Option Str
  pub next : ℕ

-- The nodes of the program's lists. malloc returns the address `fresh`, or NULL when `room` is 0.
pub record Heap : Type 0 where
  pub cell : ℕ → Option Node
  pub fresh : ℕ
  pub room : ℕ

-- A datagram that was handed to sendto: the address, and the payload with its NUL.
pub record Packet : Type 0 where
  pub to : ℕ
  pub payload : List ℕ

-- A timer that was started: the element of `timer_ids` that its signal points to, and its seconds.
pub record Alarm : Type 0 where
  pub slot : ℕ
  pub secs : ℕ

module _ ⦃pnr_table : Cfu ℕ⦄ ⦃timer_table : Cfu Str⦄ where
  -- `logs` are the lines of the log files, `sockets` the sockets opened by threads that never close them,
  -- `routes` is what `route -n | tr -s ' '` prints; `popens` says of the coming calls of popen whether
  -- each succeeds, and beyond its end all do.
  pub record World : Type 0 where
    pub heap : Heap
    pub pnrs : pnr_table.Table
    pub timers : timer_table.Table
    pub timer_ids : List ℕ
    pub alarms : List Alarm
    pub total_nreqs : ℕ
    pub total_nreps_reveived : ℕ
    pub total_nreps : ℕ
    pub total_cached_names : ℕ
    pub own_addr : Option Str
    pub files : ℕ → Option Str
    pub logs : List (Str × Str)
    pub sent : List Packet
    pub sockets : ℕ
    pub stdout : Str
    pub routes : Str
    pub popens : List Bool
    pub clock : ℕ

  abbrev pub M : Type 0 → Type 0
  M A = Cmd World A
