-- ===== src/Protocol/Frame.antt =====
-- The code that leaves the tables alone: the log and the files, which leave the network alone too,
-- and the network.
use name_spread.Prelude.{
  ℕ, ◌+◌, ◌≡◌, refl, Bool, true, false, Option, List, [], ◌∷◌, Bool-cases, inl, inr,
}
use name_spread.Text.{Str, fgets, drop_last}
use name_spread.Machine.Run.{Run, ok, crash, need, modify}
use name_spread.Machine.Cfu.{Cfu}
use name_spread.Machine.System.{System}
use name_spread.Machine.World.{World}
use name_spread.Machine.Moves.{
  Runs, returned, faulted, left, Course, Moves, Onward, Moves-pure, Moves-need, Moves-crash,
  Moves-option, Moves-bind, Moves-then, Moves-modify, Moves-if, moves_rules,
}
use name_spread.Logger.{log, log_msg, log_path}
use name_spread.Hosts.{
  hostname_path, same_text, name_column, find_name, keep_lines, get_hostname, get_name_by_addr,
  append_file, add_entry, cache_name, log_unless, copy_opened, copy_file_content, rewrite_without,
  remove_name,
}
use name_spread.Hosts.Files.{with_file, contents, can_read, popen, wait_loop, wait_popen}
use name_spread.Network.{parse_addr, request_name, with_socket, with_packet}
use name_spread.Protocol.{tables, books, Allows, Permits}

pub same_text-Moves :
    {S : Type 0} (c : Course S) (s t : Option Str) → Moves c (same_text {S = S} s t)
unfolding same_text
same_text-Moves c s t = search moves_rules

name_column-Moves : {S : Type 0} (c : Course S) (s : Str) → Moves c (name_column {S = S} s)
unfolding name_column
name_column-Moves c s = search moves_rules

find_name-Moves :
    {S : Type 0} (c : Course S) (a : Option Str) (ls : List Str) → Moves c (find_name {S = S} a ls)
unfolding find_name
find_name-Moves c a [] = search moves_rules
find_name-Moves c a (l ∷ ls) =
    Moves-bind c _ _ (same_text-Moves c _ a)
      λ b. Moves-if c b _ _ (name_column-Moves c _) (find_name-Moves c a ls)

keep_lines-Moves :
    {S : Type 0} (c : Course S) (a : Option Str) (ls : List Str) → Moves c (keep_lines {S = S} a ls)
unfolding keep_lines
keep_lines-Moves c a [] = search moves_rules
keep_lines-Moves c a (l ∷ ls) =
    Moves-bind c _ _ (same_text-Moves c _ a)
      λ b. Moves-bind c _ _ (keep_lines-Moves c a ls) λ kept. Moves-pure c _

module _ ⦃pnr_table : Cfu ℕ⦄ ⦃timer_table : Cfu Str⦄ ⦃sys : System⦄ where
  module _ (c : Course World) (same : Permits c) where
    stays :
        (g : c.View) (w t : World)
        → tables t ≡ tables w
        → books t ≡ books w
        → c.Good g w
        → Onward c g t
    stays g w t e f good = (g, same.keeps g w t e f good, c.stay g)

    pub log-Moves : (m : Str) → Moves c (log m)
    unfolding log log_msg
    log-Moves m = record {
      at = λ g w good. elim (Bool-cases (sys.writable (log_path w.own_addr))) [
        | inl e ↦ rw e (returned (stays g w _ refl refl good))
        | inr e ↦ rw e (left (same.leaves g w good e) w)
      ];
    }

    wait_loop-Moves : (m : Str) (b : List Bool) → Moves c (wait_loop m b)
    unfolding wait_loop
    wait_loop-Moves m [] = record { at = λ g w good. returned (stays g w _ refl refl good) }
    wait_loop-Moves m (true ∷ b) = record { at = λ g w good. returned (stays g w _ refl refl good) }
    wait_loop-Moves m (false ∷ b) =
        Moves-then c (log m) (wait_loop m b) (log-Moves m) (wait_loop-Moves m b)

    pub wait_popen-Moves : (m : Str) → Moves c (wait_popen m)
    unfolding wait_popen
    wait_popen-Moves m = record { at = λ g w good. (wait_loop-Moves m w.popens).at g w good }

    popen_next :
        (g : c.View) (w : World) (b : List Bool)
        → c.Good g w
        → Runs c.Cut c.Leave
            (λ _ t. Onward c g t)
            (elim b as (λ _. Run World Bool) [
              | [] ↦ ok true w
              | b ∷ rest ↦ ok b (record w { popens = rest })
            ])
    popen_next g w [] good = returned (stays g w w refl refl good)
    popen_next g w (b ∷ bs) good = returned (stays g w _ refl refl good)

    popen-Moves : Moves c popen
    unfolding popen
    popen-Moves = record { at = λ g w good. popen_next g w w.popens good }

    pub get_name_by_addr-Moves : (a : Option Str) → Moves c (get_name_by_addr a)
    unfolding get_name_by_addr
    get_name_by_addr-Moves a = search (moves_rules, wait_popen-Moves, find_name-Moves)

    pub modify-Moves :
        (f : World → World)
        → ((w : World) → tables (f w) ≡ tables w)
        → ((w : World) → books (f w) ≡ books w)
        → Moves c (modify f)
    modify-Moves f keeps same_books =
        Moves-modify c f (λ g w good. stays g w (f w) (keeps w) (same_books w) good)

    pub parse_addr-Moves : (a : Option Str) (old : ℕ) (m : Str) → Moves c (parse_addr a old m)
    unfolding parse_addr
    parse_addr-Moves a old m = Moves-bind c (need a) _ (Moves-need c a) λ text.
        Moves-option c (sys.inet_aton text) _ _ (Moves-then c _ _ (log-Moves m) (Moves-pure c old))
          (λ x. Moves-pure c x)

    get_hostname-Moves : Moves c get_hostname
    unfolding get_hostname
    get_hostname-Moves = record {
      at = λ g w good. elim (Bool-cases (can_read hostname_path w)) [
        | inl e ↦ rw e (
            (Moves-bind c (need (fgets 32 (contents hostname_path w))) _ (Moves-need c _)
                (λ line. Moves-pure c (drop_last line))).at
              g w good)
        | inr e ↦ rw e ((Moves-then c _ crash (log-Moves _) (Moves-crash c)).at g w good)
      ];
    }

    with_file-Moves : (path text : Str) → Moves c (modify (with_file path text))
    with_file-Moves path text = modify-Moves (with_file path text) (λ w. refl) (λ w. refl)

    append_file-Moves : (path text : Str) → Moves c (append_file path text)
    unfolding append_file
    append_file-Moves path text = record {
      at = λ g w good. elim (Bool-cases (sys.writable path)) [
        | inl e ↦ rw e (returned (stays g w _ refl refl good))
        | inr e ↦ rw e faulted
      ];
    }

    add_entry-Moves : (a name : Option Str) → Moves c (add_entry a name)
    unfolding add_entry
    add_entry-Moves a name =
        Moves-then c _ _ (append_file-Moves _ _) (modify-Moves _ (λ w. refl) (λ w. refl))

    pub cache_name-Moves : (a name : Option Str) → Moves c (cache_name a name)
    unfolding cache_name
    cache_name-Moves a name = Moves-bind c _ _ (get_name_by_addr-Moves a) λ cached.
        Moves-then c _ _ (Moves-option c cached _ _ (add_entry-Moves a name) (λ n. Moves-pure c tt))
          (log-Moves _)

    log_unless-Moves : (b : Bool) (m : Str) → Moves c (log_unless b m)
    unfolding log_unless
    log_unless-Moves b m = search (moves_rules, log-Moves)

    copy_opened-Moves : (from to : Str) → Moves c (copy_opened from to)
    unfolding copy_opened
    copy_opened-Moves from to = search (moves_rules, with_file-Moves)

    copy_file_content-Moves : (from to : Str) → Moves c (copy_file_content from to)
    unfolding copy_file_content
    copy_file_content-Moves from to =
        search (moves_rules, log_unless-Moves, copy_opened-Moves) depth 9

    rewrite_without-Moves :
        (a : Option Str) (text host : Str) → Moves c (rewrite_without a text host)
    unfolding rewrite_without
    rewrite_without-Moves a text host =
        search (moves_rules, with_file-Moves, keep_lines-Moves, copy_file_content-Moves) depth 9

    pub remove_name-Moves : (a : Option Str) → Moves c (remove_name a)
    unfolding remove_name
    remove_name-Moves a =
        search
          (
            moves_rules, get_hostname-Moves, popen-Moves, log-Moves, log_unless-Moves,
            rewrite_without-Moves,
          )
          depth 14

  -- The steps on the network.
  module _ (c : Course World) (permits : Permits c) (same : Allows c) where
    pub table_modify-Moves :
        (f : World → World) → ((w : World) → tables (f w) ≡ tables w) → Moves c (modify f)
    table_modify-Moves f keeps =
        Moves-modify c f (λ g w good. (g, same g w (f w) (keeps w) good, c.stay g))

    pub with_socket-Moves : Moves c (modify with_socket)
    with_socket-Moves = table_modify-Moves with_socket (λ w. refl)

    pub with_packet-Moves : (to : ℕ) (text : Str) → Moves c (modify (with_packet to text))
    with_packet-Moves to text = table_modify-Moves (with_packet to text) (λ w. refl)

    more_nreqs-Moves : Moves c (modify (λ w. record w { total_nreqs = w.total_nreqs + 1 }))
    more_nreqs-Moves = table_modify-Moves _ (λ w. refl)

    pub more_nreps-Moves : Moves c (modify (λ w. record w { total_nreps = w.total_nreps + 1 }))
    more_nreps-Moves = table_modify-Moves _ (λ w. refl)

    pub request_name-Moves : (a hop : Option Str) → Moves c (request_name a hop)
    unfolding request_name
    request_name-Moves a hop =
        search
          (
            moves_rules,
            log-Moves c permits,
            with_socket-Moves,
            with_packet-Moves,
            parse_addr-Moves c permits,
            more_nreqs-Moves,
          )
          depth 12
