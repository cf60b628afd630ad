-- ===== src/Watcher.antt =====
-- watch_routes of src/route_watcher.c: one line of `ip monitor route` is one step.
pub mod Routes
use name_spread.Prelude.{ℕ, Option, none, some, List, [], ◌∷◌, ◌++◌, ◌==◌, if◌then◌else◌}
use name_spread.Text.{Str, codes, shown, space, strtok, strstr, fgets_lines, newline}
use name_spread.Machine.Run.{pure, leave, gets, ◌>>=◌, ◌>>◌}
use name_spread.Machine.Cfu.{Cfu}
use name_spread.Machine.System.{System}
use name_spread.Machine.World.{M}
use name_spread.Logger.{log}
use name_spread.Hosts.{get_name_by_addr, remove_name}
use name_spread.Hosts.Files.{popen}
use name_spread.Network.{request_name}
use name_spread.Timers.{pnr, delete_pnr}
use name_spread.Pnr.{register_nreq}

module _ ⦃pnr_table : Cfu ℕ⦄ ⦃timer_table : Cfu Str⦄ ⦃sys : System⦄ where
  -- The name of the destination is not known.
  unfoldable pub seek_name : Option Str → Option Str → M (Unit {0})
  seek_name dst_addr next_hop = do
    pending ← gets (pnr dst_addr)
    if pending == 0
        then (do register_nreq dst_addr next_hop none; request_name dst_addr next_hop)
        else do
          log (codes "[ROUTE] A PNR for host " ++ shown dst_addr ++ codes " already exists\n")
          request_name dst_addr next_hop

  -- A new route, once its destination and its next hop are known.
  unfoldable pub look_up_name : Option Str → Option Str → M (Unit {0})
  look_up_name dst_addr next_hop = do
    name ← get_name_by_addr dst_addr
    elim name [
      | none ↦ seek_name dst_addr next_hop
      | some n ↦ log (
          codes "[ROUTE] A name for host "
          ++ shown dst_addr
          ++ codes " is already cached: "
          ++ n
          ++ newline ∷ [])
    ]

  unfoldable pub route_added : Str → M (Unit {0})
  route_added line = do
    let (dst_addr, rest) = strtok space line
    log (codes "[ROUTE+] New route added: " ++ line)
    look_up_name dst_addr (strtok space (strtok space rest).1).0

  -- A removed route, once its destination is known. The comment in the source says "remove name if
  -- cached"; the test is for a name that is not.
  unfoldable pub forget : Option Str → M (Unit {0})
  forget dst_addr = do
    pending ← gets (pnr dst_addr)
    if pending == 0 then pure tt else delete_pnr dst_addr
    name ← get_name_by_addr dst_addr
    elim name [ none ↦ remove_name dst_addr | some n ↦ pure tt ]

  unfoldable pub route_removed : Str → M (Unit {0})
  route_removed line = do
    log (codes "[ROUTE-] Route removed: " ++ line)
    forget (strtok space (strtok space line).1).0

  unfoldable pub watch_line : Str → M (Unit {0})
  watch_line line =
      if strstr line (codes "via")
      then (if strstr line (codes "Deleted") then route_removed line else route_added line)
      else pure tt

  unfoldable pub watch_lines : List Str → M (Unit {0})
  unfolding watch_line
  watch_lines [] = pure tt
  watch_lines (line ∷ lines) = do watch_line line; watch_lines lines

  -- `events` is what `ip monitor route` prints; IP_MON_ROUTE_LEN bounds a line.
  unfoldable pub watch_routes : Str → M (Unit {0})
  unfolding watch_lines
  watch_routes events = do
    piped ← popen
    if piped
        then watch_lines (fgets_lines 1024 events)
        else (do log (codes "[ ERROR ] ip monitor route\n"); leave)
