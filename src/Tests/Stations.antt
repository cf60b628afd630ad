-- ===== src/Tests/Stations.antt =====
-- A station that asks, a neighbour that does not know the name yet, and one that does.
use name_spread.Prelude.{refl, List, [], ◌∷◌, arith}
use name_spread.Text.{codes, str_eq, strstr}
use name_spread.Machine.World.{World}
use name_spread.Hosts.Table.{HostLine, entry, render, lookup_name}
use name_spread.Hosts.Cache.{HoldsTable}
use name_spread.Stations.Roles.{Asks}
use name_spread.Stations.Pair.{Resolved, watch_line-Resolved}
use name_spread.Stations.Relay.{Relayed, watch_line-Relayed}
use name_spread.Tests.Setup.{pnr_cfu, timer_cfu, test_system, daemon}
use name_spread.Tests.Files.{host, table, host-HoldsTable_long}
use name_spread.Tests.Requests.{dst, host-FirstFree}
use name_spread.Tests.Messages.{dst-IsWord, name-IsWord}
use name_spread.Tests.Routes.{new_line, new_line-NewRoute}
use name_spread.Tests.Protocol.{host-IsHeap}

abbrev known_names : List HostLine
known_names = entry dst (codes "sta3") ∷ []

abbrev neighbour : World
neighbour = daemon (render known_names)

neighbour-HoldsTable : HoldsTable 512 known_names neighbour
unfolding str_eq
neighbour-HoldsTable = record { text = refl; lines = ground arith }

host-Asks : Asks dst (codes "2") new_line 50 0 table host
unfolding lookup_name str_eq
host-Asks = record {
  can = refl;
  open_ok = refl;
  holds = host-HoldsTable_long;
  new = refl;
  free = refl;
  first = host-FirstFree;
  set_up = refl;
  is_heap = host-IsHeap;
  room = omega arith;
  route = new_line-NewRoute;
  valid = refl;
  fit = omega arith;
}

watch_line-Resolved_example :
    Resolved test_system test_system dst (codes "sta3") new_line 49 50 50 [] [] host neighbour
unfolding lookup_name str_eq strstr
watch_line-Resolved_example =
    watch_line-Resolved test_system test_system dst (codes "sta3") new_line (codes "2") table
      known_names host neighbour 49 50 50 0 [] [] dst-IsWord name-IsWord (ground arith)
      (ground arith, omega arith) (ground arith, omega arith) refl host-Asks refl refl
      neighbour-HoldsTable refl refl

watch_line-Relayed_example :
    Relayed test_system test_system test_system dst
      (codes "sta3")
      new_line
      new_line
      49
      50
      51
      50
      50
      []
      host
      host
      neighbour
unfolding lookup_name str_eq strstr
watch_line-Relayed_example =
    watch_line-Relayed test_system test_system test_system dst (codes "sta3") new_line new_line
      (codes "2") (codes "2") table table known_names host host neighbour 49 50 51 50 50 0 0 []
      dst-IsWord name-IsWord (ground arith) (ground arith, omega arith) (ground arith, omega arith)
      refl host-Asks host-Asks (omega arith) (omega arith) refl refl refl neighbour-HoldsTable refl
      refl
