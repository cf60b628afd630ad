-- ===== src/Dump.antt =====
-- The tables as text: print_hash_table of src/route_watcher.c and log_pnrs of src/logger.c.
pub mod Entries
use name_spread.Prelude.{ℕ, Option, List, [], ◌∷◌, ◌++◌, if◌then◌else◌}
use name_spread.Text.{Str, codes, shown, tab, newline}
use name_spread.Machine.Run.{ok, pure, leave, gets, modify, ◌>>=◌, ◌>>◌}
use name_spread.Machine.Cfu.{Cfu}
use name_spread.Machine.System.{System}
use name_spread.Machine.World.{World, M}
use name_spread.Logger.{get_timestamp}
use name_spread.LinkedList.{print_list}
use name_spread.Timers.{pnr}
use name_spread.Pnr.{on_heap}

module _ ⦃pnr_table : Cfu ℕ⦄ ⦃timer_table : Cfu Str⦄ ⦃sys : System⦄ where
  -- The loop over the keys: "\t%s -> ", the entry and a newline.
  unfoldable pub entries : (Option Str → M Str) → List (Option Str) → M Str
  entries show [] = pure []
  entries show (key ∷ keys) = do
    text ← show key
    rest ← entries show keys
    pure (tab ∷ shown key ++ codes " -> " ++ text ++ newline ∷ rest)

  -- print_list(cfuhash_get(pnrs, key)), and the loop in log_pnrs that writes the same
  unfoldable pub show_pnr : Option Str → M Str
  show_pnr key = do head ← gets (pnr key); on_heap (print_list head)

  unfoldable pub show_timer : Option Str → M Str
  show_timer key w = ok (shown (timer_table.get w.timers key)) w

  -- puts("{"), the entries, puts("}\n")
  unfoldable pub print_table : (Option Str → M Str) → List (Option Str) → M (Unit {0})
  unfolding entries
  print_table show keys = do
    text ← entries show keys
    modify (λ w. record w {
      stdout = w.stdout ++ (codes "{" ++ newline ∷ text ++ codes "}" ++ newline ∷ newline ∷ []);
    })

  -- print_hash_table(pnrs)
  unfoldable pub print_pnrs : M (Unit {0})
  unfolding print_table
  print_pnrs = do keys ← gets (λ w. pnr_table.keys w.pnrs); print_table show_pnr keys

  -- print_hash_table(timers)
  unfoldable pub print_timers : M (Unit {0})
  unfolding print_table
  print_timers = do keys ← gets (λ w. timer_table.keys w.timers); print_table show_timer keys

  -- "/tmp/mininet-wifi/log/%s_pnrs.log"
  abbrev pub pnrs_log_path : Option Str → Str
  pnrs_log_path addr = codes "/tmp/mininet-wifi/log/" ++ shown addr ++ codes "_pnrs.log"

  -- One round of log_pnrs.
  unfoldable pub log_pnrs : M (Unit {0})
  unfolding entries
  log_pnrs = do
    path ← gets (λ w. pnrs_log_path w.own_addr)
    if sys.writable path then pure tt else leave
    keys ← gets (λ w. pnr_table.keys w.pnrs)
    text ← entries show_pnr keys
    modify (λ w. record w {
      logs =
          w.logs
          ++ (
            path,
            codes "[START]"
                ++ newline ∷ get_timestamp w
                ++ newline ∷ codes "{"
                ++ newline ∷ text
                ++ codes "}"
                ++ newline ∷ [],
          )
            ∷ [];
    })
