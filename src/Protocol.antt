-- ===== src/Protocol.antt =====
-- The daemon as a protocol: what the handlers leave alone, and how they change the shared tables.
pub mod Frame
pub mod Clock
pub mod Lists
pub mod Walks
pub mod Changes
pub mod Starting
pub mod Requests
pub mod Registering
pub mod Primitives
pub mod Handlers
pub mod Timeouts
pub mod Reached
pub mod Alarms
pub mod Retries
pub mod Repeats
pub mod Once
pub mod Slack
pub mod Loose
pub mod Replying
pub mod Events
pub mod Ledger
pub mod Exits
pub mod Matched
pub mod Listing
pub mod Loops
pub mod Lines
use name_spread.Prelude.{ℕ, List, ◌≡◌, false, Option}
use name_spread.Text.{Str}
use name_spread.Machine.Cfu.{Cfu}
use name_spread.Machine.Moves.{Course}
use name_spread.Machine.System.{System}
use name_spread.Logger.{log_path}
use name_spread.Machine.World.{World, Heap, Alarm, Packet}

module _ ⦃pnr_table : Cfu ℕ⦄ ⦃timer_table : Cfu Str⦄ where
  -- The tables that the handlers share and the station's address, without the files and the network.
  pub record Tables : Type 0 where
    pub heap : Heap
    pub pnrs : pnr_table.Table
    pub timers : timer_table.Table
    pub timer_ids : List ℕ
    pub alarms : List Alarm
    pub own_addr : Option Str

  abbrev pub tables : World → Tables
  tables w = record {
    heap = w.heap;
    pnrs = w.pnrs;
    timers = w.timers;
    timer_ids = w.timer_ids;
    alarms = w.alarms;
    own_addr = w.own_addr;
  }

  -- The network: what was sent, how many sockets were opened, and the counters of log_info.
  pub record Books : Type 0 where
    pub sent : List Packet
    pub sockets : ℕ
    pub total_nreqs : ℕ
    pub total_nreps : ℕ
    pub total_nreps_reveived : ℕ

  abbrev pub books : World → Books
  books w = record {
    sent = w.sent;
    sockets = w.sockets;
    total_nreqs = w.total_nreqs;
    total_nreps = w.total_nreps;
    total_nreps_reveived = w.total_nreps_reveived;
  }

  -- A course allows every step that leaves the tables alone.
  abbrev pub Allows : Course World → Type 0
  Allows c = (g : c.View) (s t : World) → tables t ≡ tables s → c.Good g s → c.Good g t

module _ ⦃pnr_table : Cfu ℕ⦄ ⦃timer_table : Cfu Str⦄ ⦃sys : System⦄ where
  -- A course permits every step that leaves the tables and the network alone, and that the process
  -- leaves where its log cannot be written.
  pub record Permits (c : Course World) : Type 0 where
    pub keeps :
        (g : c.View) (s t : World)
        → tables t ≡ tables s
        → books t ≡ books s
        → c.Good g s
        → c.Good g t
    pub leaves :
        (g : c.View) (w : World) → c.Good g w → sys.writable (log_path w.own_addr) ≡ false → c.Leave

  pub permitted : (c : Course World) → Allows c → c.Leave → Permits c
  permitted c same leave = record {
    keeps = λ g s t e _ good. same g s t e good;
    leaves = λ g w good _. leave;
  }
