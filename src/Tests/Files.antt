-- ===== src/Tests/Files.antt =====
-- The table of names of a station.
use name_spread.Prelude.{refl, none, some, List, [], ◌∷◌, arith, All}
use name_spread.Text.{codes, str_eq}
use name_spread.Machine.Run.{◌>>◌}
use name_spread.Machine.World.{World}
use name_spread.Logger.Yields.{Yields}
use name_spread.Hosts.{get_name_by_addr, cache_name, remove_name, station_path, aux_path}
use name_spread.Hosts.Table.{HostLine, entry, other, render, drop_addr, lookup_name, IsLine}
use name_spread.Hosts.Cache.{
  HoldsTable, with_name, get_name_by_addr-cache_name, get_name_by_addr-lookup,
}
use name_spread.Hosts.Removal.{
  IsStation, replaced, remove_name-drop_addr, get_name_by_addr-remove_name,
}
use name_spread.Tests.Setup.{pnr_cfu, timer_cfu, test_system, daemon}

abbrev pub table : List HostLine
table =
    entry (codes "10.0.0.1") (codes "sta1")
    ∷ other (codes "# routers")
    ∷ entry (codes "10.0.0.2") (codes "sta2")
    ∷ []

table_lines : All (IsLine 100) table
table_lines = ground arith

table_long_lines : All (IsLine 512) table
table_long_lines = ground arith

abbrev pub host : World
host = daemon (render table)

host-HoldsTable : HoldsTable 100 table host
unfolding str_eq
host-HoldsTable = record { text = refl; lines = table_lines }

pub host-HoldsTable_long : HoldsTable 512 table host
unfolding str_eq
host-HoldsTable_long = record { text = refl; lines = table_long_lines }

host-IsStation : IsStation (codes "sta1") host
unfolding str_eq station_path aux_path
host-IsStation = record {
  name_readable = refl;
  name_text = refl;
  name_line = ground arith;
  name_short = omega arith;
  mounted = refl;
  apart = omega arith;
  aux_readable = refl;
  aux_writable = refl;
  hosts_writable = refl;
}

get_name_by_addr-lookup_example :
    Yields (some (codes "sta2")) host (get_name_by_addr (some (codes "10.0.0.2")) host)
unfolding lookup_name str_eq
get_name_by_addr-lookup_example =
    get_name_by_addr-lookup (codes "10.0.0.2") table host refl (ground arith) host-HoldsTable_long

get_name_by_addr-cache_name_example :
    Yields (some (codes "sta3")) (with_name (codes "10.0.0.3") (codes "sta3") table host) (
      (cache_name (some (codes "10.0.0.3")) (some (codes "sta3"))
          >> get_name_by_addr (some (codes "10.0.0.3")))
        host)
unfolding lookup_name str_eq
get_name_by_addr-cache_name_example =
    get_name_by_addr-cache_name (codes "10.0.0.3") (codes "sta3") table host refl refl
      host-HoldsTable_long (ground arith) refl

remove_name-drop_addr_example :
    Yields tt
      (replaced (codes "sta1") (render (drop_addr (codes "10.0.0.2") table)) host)
      (remove_name (some (codes "10.0.0.2")) host)
remove_name-drop_addr_example =
    remove_name-drop_addr (codes "sta1") (codes "10.0.0.2") table host refl host-IsStation refl
      (ground arith) host-HoldsTable

get_name_by_addr-remove_name_example :
    Yields none
      (replaced (codes "sta1") (render (drop_addr (codes "10.0.0.2") table)) host)
      ((remove_name (some (codes "10.0.0.2")) >> get_name_by_addr (some (codes "10.0.0.2"))) host)
unfolding str_eq
get_name_by_addr-remove_name_example =
    get_name_by_addr-remove_name (codes "sta1") (codes "10.0.0.2") (codes "10.0.0.2") table host
      refl host-IsStation refl (ground arith) (ground arith) host-HoldsTable
