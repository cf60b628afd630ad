-- ===== src/Tests/Setup.antt =====
-- A system in which all calls succeed, and a daemon on the station "sta1".
use name_spread.Prelude.{
  ℕ, ◌+◌, ◌*◌, ◌/◌, refl, true, Option, none, some, [], ◌∷◌, ◌++◌, ◌==◌, if◌then◌else◌, arith,
  replicate,
}
use name_spread.Text.{Str, codes, str_eq, newline}
use name_spread.Machine.Cfu.{Cfu}
use name_spread.Machine.System.{System}
use name_spread.Machine.World.{World, Heap}
use name_spread.Tests.Assoc.{assoc_table}

instance abbrev pub pnr_cfu : Cfu ℕ
pnr_cfu = assoc_table ℕ

instance abbrev pub timer_cfu : Cfu Str
timer_cfu = assoc_table Str

abbrev pub station_hosts : Str
station_hosts = codes "/tmp/mininet-wifi/hosts/hosts-sta1"

-- /etc/hosts is mounted on the station's file.
abbrev pub inode_of : Str → ℕ
inode_of path =
    if str_eq path (codes "/etc/hosts")
    then 1
    else if str_eq path station_hosts
    then 1
    else if str_eq path (codes "/etc/hostname")
    then 2
    else 3

-- An address is written as its one byte here.
abbrev pub text_of : ℕ → Str
text_of a = a ∷ []

abbrev pub addr_of : Str → Option ℕ
addr_of (a ∷ []) = some a
addr_of _ = none

instance abbrev pub test_system : System
test_system = record {
  inode = inode_of;
  readable = λ path. true;
  writable = λ path. true;
  timestamp = λ t. codes "[01-01-2018 00:00:00]";
  handler_set = true;
  array_room = λ n. (n + 15) / 16 * 16;
  inet_aton = addr_of;
  inet_ntoa = text_of;
  array_room-le = λ n. omega arith;
  inet_aton-ntoa = λ a small. refl;
}

abbrev pub empty_heap : Heap
empty_heap = record { cell = λ a. none; fresh = 1; room = 10 }

abbrev pub files_with : Str → ℕ → Option Str
files_with hosts i =
    if i == 1 then some hosts else if i == 2 then some (codes "sta1" ++ newline ∷ []) else none

abbrev pub daemon : Str → World
daemon hosts = record {
  heap = empty_heap;
  pnrs = [];
  timers = [];
  timer_ids = replicate 100 0;
  alarms = [];
  total_nreqs = 0;
  total_nreps_reveived = 0;
  total_nreps = 0;
  total_cached_names = 0;
  own_addr = some (codes "10.0.0.1");
  files = files_with hosts;
  logs = [];
  sent = [];
  sockets = 0;
  stdout = [];
  routes = [];
  popens = [];
  clock = 0;
}
