-- ===== src/Tests/Routes.antt =====
-- Changes of the routing table of a station.
use name_spread.Prelude.{◌+◌, ◌≡◌, refl, none, [], ◌∷◌, ◌++◌, arith}
use name_spread.Text.{Str, codes, str_eq, strstr, strtok, newline}
use name_spread.Machine.World.{Heap}
use name_spread.Logger.Yields.{Yields}
use name_spread.LinkedList.Chain.{Chain, IsHeap, SameOutside}
use name_spread.Hosts.Table.{lookup_name}
use name_spread.Network.Requests.{requested}
use name_spread.Pnr.Register.{opened}
use name_spread.Watcher.{watch_line}
use name_spread.Watcher.Routes.{NewRoute, GoneRoute, watch_line-new, watch_line-gone}
use name_spread.Tests.Setup.{pnr_cfu, timer_cfu, test_system}
use name_spread.Tests.Files.{host, table, host-HoldsTable_long}
use name_spread.Tests.Requests.{dst, host-FirstFree}

abbrev pub new_line : Str
new_line = codes "10.0.0.3 via 2 dev wlan0" ++ newline ∷ []

pub new_line-NewRoute : NewRoute dst (codes "2") new_line
unfolding strstr strtok
new_line-NewRoute = record {
  via = refl;
  kept = refl;
  rest = codes "via 2 dev wlan0" ++ newline ∷ [];
  to = refl;
  by = refl;
}

abbrev gone_line : Str
gone_line = codes "Deleted 10.0.0.2 via 2 dev wlan0" ++ newline ∷ []

gone_line-GoneRoute : GoneRoute (codes "10.0.0.2") gone_line
unfolding strstr strtok
gone_line-GoneRoute = record { via = refl; deleted = refl; to = refl }

watch_line-new_example :
    (g : Heap) × Yields tt (requested dst 50 (opened 0 dst g host)) (watch_line new_line host)
    × Chain g ((1, none) ∷ [])
    × IsHeap g
    × SameOutside ((1, none) ∷ []) host.heap g
    × (g.room + 1 ≡ 10)
unfolding lookup_name str_eq
watch_line-new_example =
    watch_line-new dst new_line table host refl (ground arith) host-HoldsTable_long (codes "2")
      new_line-NewRoute 50 refl refl (omega arith) 0 refl host-FirstFree
      (record { fresh_pos = omega arith; unused = λ a le. refl }) (omega arith) refl

watch_line-gone_example : Yields tt host (watch_line gone_line host)
unfolding lookup_name str_eq
watch_line-gone_example =
    watch_line-gone (codes "10.0.0.2") gone_line table host refl (ground arith) host-HoldsTable_long
      (codes "sta2") gone_line-GoneRoute refl
