-- ===== src/Dump/Entries.antt =====
-- What print_hash_table and log_pnrs write of the pending requests.
use name_spread.Prelude.{◌≡◌, refl, ap, ◌∙◌, Option, List, [], ◌∷◌, ◌++◌, All, ℕ, true}
use name_spread.Text.{Str, codes, shown, tab, newline}
use name_spread.Machine.Run.{Run, ok}
use name_spread.Machine.Cfu.{Cfu}
use name_spread.Machine.System.{System}
use name_spread.Machine.World.{World, Heap}
use name_spread.Logger.{get_timestamp}
use name_spread.LinkedList.Print.{listing, print_list-listing}
use name_spread.Pnr.{on_heap}
use name_spread.Pnr.Waiting.{Waiting}
use name_spread.Dump.{entries, show_pnr, print_pnrs, print_table, log_pnrs, pnrs_log_path}

-- The requesters of each address, a line for each.
abbrev pub table_text : (Option Str → List (Option Str)) → List (Option Str) → Str
table_text requesters [] = []
table_text requesters (key ∷ keys) =
    tab ∷ shown key
    ++ codes " -> "
    ++ listing (requesters key)
    ++ newline ∷ table_text requesters keys

module _ ⦃pnr_table : Cfu ℕ⦄ ⦃timer_table : Cfu Str⦄ ⦃sys : System⦄ where
  on_heap-ok :
      {A : Type 0} {a : A} {r : Run Heap A} {g : Heap} (w : World)
      → r ≡ ok a g
      → on_heap (λ _. r) w ≡ ok a (record w { heap = g })
  on_heap-ok w e = ap (λ r. on_heap (λ _. r) w) e

  show_pnr-listing :
      (key : Option Str) (vs : List (Option Str)) (w : World)
      → Waiting key vs w
      → show_pnr key w ≡ ok (listing vs) w
  unfolding show_pnr
  show_pnr-listing key vs w wait = rw wait.head (
      on_heap-ok w (print_list-listing w.heap wait.cells wait.heap wait.chain)
      ∙ ap (λ us. ok (listing us) w) wait.vals)

  module _ (requesters : Option Str → List (Option Str)) (w : World) where
    entries-table_text :
        (keys : List (Option Str))
        → All (λ key. Waiting key (requesters key) w) keys
        → entries show_pnr keys w ≡ ok (table_text requesters keys) w
    unfolding entries
    entries-table_text [] all = refl
    entries-table_text (key ∷ keys) all =
        rw (show_pnr-listing key (requesters key) w all.0, entries-table_text keys all.1) refl

    -- Let `requesters` give the requesters of each key of the pending requests. print_hash_table
    -- writes them between braces, a line for each key in the table's order, and changes nothing
    -- else.
    print_pnrs-table_text :
        All (λ key. Waiting key (requesters key) w) (pnr_table.keys w.pnrs)
        → print_pnrs w
          ≡ ok tt (record w {
            stdout =
                w.stdout
                ++ (codes "{"
                    ++ newline ∷ table_text requesters (pnr_table.keys w.pnrs)
                    ++ codes "}"
                    ++ newline ∷ newline ∷ []);
          })
    unfolding print_pnrs print_table
    print_pnrs-table_text all = rw (entries-table_text (pnr_table.keys w.pnrs) all) refl

    -- Let `requesters` give the requesters of each key of the pending requests, and the second log
    -- file be writable. A round of log_pnrs writes the time and the keys' requesters to it, a line
    -- for each key in the table's order, and changes nothing else.
    pub log_pnrs-table_text :
        sys.writable (pnrs_log_path w.own_addr) ≡ true
        → All (λ key. Waiting key (requesters key) w) (pnr_table.keys w.pnrs)
        → log_pnrs w
          ≡ ok tt (record w {
            logs =
                w.logs
                ++ (
                  pnrs_log_path w.own_addr,
                  codes "[START]"
                      ++ newline ∷ get_timestamp w
                      ++ newline ∷ codes "{"
                      ++ newline ∷ table_text requesters (pnr_table.keys w.pnrs)
                      ++ codes "}"
                      ++ newline ∷ [],
                )
                  ∷ [];
          })
    unfolding log_pnrs
    log_pnrs-table_text open_ok all =
        rw (open_ok, entries-table_text (pnr_table.keys w.pnrs) all) refl
