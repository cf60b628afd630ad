-- ===== src/Hosts/Cache.antt =====
-- get_name_by_addr and cache_name over a table of names in /etc/hosts.
use name_spread.Prelude.{
  ◌∙◌, ap, sym, ◌+◌, ◌∷◌, ◌++◌, [], ℕ, ◌≡◌, refl, Bool, true, false, Option, some, List, [], ◌∷◌,
  All,
}
use name_spread.Hosts.{add_entry, cache_name}
use name_spread.Hosts.Files.{with_file, write_at}
use name_spread.Machine.Run.{◌>>◌}
use name_spread.Hosts.Table.{entry, render_line}
use name_spread.Hosts.Lookup.{render-append, lookup_name-append}
use name_spread.Logger.Yields.{log-last, Yields-quiet}
use name_spread.Prelude.{none, All-append}
use name_spread.Prelude.{arith}
use name_spread.Text.{Str, newline, fgets_lines, Lacks}
use name_spread.Machine.Run.{ok}
use name_spread.Machine.Cfu.{Cfu}
use name_spread.Machine.System.{System}
use name_spread.Machine.World.{World}
use name_spread.Logger.{CanLog}
use name_spread.Logger.Yields.{quiet, Yields, Yields-bind, log-Yields}
use name_spread.Hosts.{hosts_path, find_name, get_name_by_addr}
use name_spread.Hosts.Files.{contents, wait_loop, wait_popen}
use name_spread.Hosts.Table.{HostLine, render, lookup_name, IsLine}
use name_spread.Hosts.Lookup.{find_name-render}

module _ ⦃pnr_table : Cfu ℕ⦄ ⦃timer_table : Cfu Str⦄ ⦃sys : System⦄ where
  -- /etc/hosts holds the lines, each of which fits a buffer of `size` bytes.
  pub record HoldsTable (size : ℕ) (ls : List HostLine) (w : World) : Type 0 where
    pub text : contents hosts_path w ≡ render ls
    pub lines : All (IsLine size) ls

  -- The retries end: popen succeeds at last.
  wait_loop-Yields :
      (message : Str) (b : List Bool) (w : World) → CanLog w → Yields tt w (wait_loop message b w)
  unfolding wait_loop
  wait_loop-Yields message [] w can = record { logs = w.logs; popens = []; run = refl }
  wait_loop-Yields message (true ∷ rest) w can = record { logs = w.logs; popens = rest; run = refl }
  wait_loop-Yields message (false ∷ rest) w can = Yields-bind _ (log-Yields message w can) λ l p.
      let y = wait_loop-Yields message rest (quiet w l p) can in
      record { logs = y.logs; popens = y.popens; run = y.run }

  pub wait_popen-Yields :
      (message : Str) (w : World) → CanLog w → Yields tt w (wait_popen message w)
  unfolding wait_popen
  wait_popen-Yields message w can = wait_loop-Yields message w.popens w can

  get_name-find :
      (addr name : Option Str) (w : World)
      → CanLog w
      → ((v : World) → find_name addr (fgets_lines 512 (contents hosts_path w)) v ≡ ok name v)
      → Yields name w (get_name_by_addr addr w)
  unfolding get_name_by_addr
  get_name-find addr name w can found =
      Yields-bind _ (wait_popen-Yields _ w can)
        λ l p. record { logs = l; popens = p; run = found (quiet w l p) }

  -- With the log writable and a table of lines that fit the buffer, get_name_by_addr of an address
  -- without newline returns the name in the first line of the address, or NULL if none has it, and
  -- changes nothing but the log.
  pub get_name_by_addr-lookup :
      (a : Str) (ls : List HostLine) (w : World)
      → CanLog w
      → Lacks newline a
      → HoldsTable 512 ls w
      → Yields (lookup_name a ls) w (get_name_by_addr (some a) w)
  get_name_by_addr-lookup a ls w can la holds =
      get_name-find (some a) (lookup_name a ls) w can
        λ v. rw holds.text (find_name-render v a 512 ls la holds.lines)

  -- The world in which the name has been appended to the table and counted.
  abbrev pub with_name : Str → Str → List HostLine → World → World
  with_name a n ls w = record (with_file hosts_path (render (ls ++ entry a n ∷ [])) w) {
    total_cached_names = w.total_cached_names + 1;
  }

  add_entry-Yields :
      (a n : Str) (ls : List HostLine) (w : World)
      → sys.writable hosts_path ≡ true
      → contents hosts_path w ≡ render ls
      → Yields tt (with_name a n ls w) (add_entry (some a) (some n) w)
  unfolding add_entry
  add_entry-Yields a n ls w open_ok text = record {
    logs = w.logs;
    popens = w.popens;
    run = rw open_ok (
        ap
          (λ t.
            ok tt
              (record (with_file hosts_path t w) { total_cached_names = w.total_cached_names + 1 }))
          (ap (λ t. t ++ render_line (entry a n)) text ∙ sym (render-append ls (entry a n))));
  }

  -- cache_name appends an entry for an address that the table does not have, and counts it.
  pub cache_name-new :
      (a n : Str) (ls : List HostLine) (w : World)
      → CanLog w
      → sys.writable hosts_path ≡ true
      → Lacks newline a
      → HoldsTable 512 ls w
      → lookup_name a ls ≡ none
      → Yields tt (with_name a n ls w) (cache_name (some a) (some n) w)
  unfolding cache_name
  cache_name-new a n ls w can open_ok la holds new =
      Yields-bind _ (rw new at (get_name_by_addr-lookup a ls w can la holds)) λ l p.
        Yields-bind _
          (Yields-quiet (with_name a n ls w) l p
            (add_entry-Yields a n ls (quiet w l p) open_ok holds.text))
          λ l' p'. log-last _ (with_name a n ls w) l' p' can

  -- An address that the table has is left alone.
  pub cache_name-known :
      (a m : Str) (name : Option Str) (ls : List HostLine) (w : World)
      → CanLog w
      → Lacks newline a
      → HoldsTable 512 ls w
      → lookup_name a ls ≡ some m
      → Yields tt w (cache_name (some a) name w)
  unfolding cache_name
  cache_name-known a m name ls w can la holds known =
      Yields-bind _ (rw known at (get_name_by_addr-lookup a ls w can la holds))
        λ l p. log-last _ w l p can

  HoldsTable-quiet :
      (size : ℕ) (ls : List HostLine) (w : World) (l : List (Str × Str)) (p : List Bool)
      → HoldsTable size ls w
      → HoldsTable size ls (quiet w l p)
  HoldsTable-quiet size ls w l p holds = record { text = holds.text; lines = holds.lines }

  pub with_name-HoldsTable :
      (size : ℕ) (a n : Str) (ls : List HostLine) (w : World)
      → HoldsTable size ls w
      → IsLine size (entry a n)
      → HoldsTable size (ls ++ entry a n ∷ []) (with_name a n ls w)
  unfolding write_at
  with_name-HoldsTable size a n ls w holds is = record {
    text = ground arith;
    lines = All-append (IsLine size) ls (entry a n ∷ []) holds.lines (is, tt);
  }

  -- With the log and /etc/hosts writable, a table of lines that fit the buffer and a new line that
  -- does too, for an address that the table does not have: a name that cache_name stores, at the
  -- end of the table and counted, is what get_name_by_addr returns for the address afterwards.
  pub get_name_by_addr-cache_name :
      (a n : Str) (ls : List HostLine) (w : World)
      → CanLog w
      → sys.writable hosts_path ≡ true
      → HoldsTable 512 ls w
      → IsLine 512 (entry a n)
      → lookup_name a ls ≡ none
      → Yields
          (some n)
          (with_name a n ls w)
          ((cache_name (some a) (some n) >> get_name_by_addr (some a)) w)
  get_name_by_addr-cache_name a n ls w can open_ok holds is new =
      Yields-bind _ (cache_name-new a n ls w can open_ok is.2 holds new) λ l p.
        Yields-quiet (with_name a n ls w) l p (
          rw (lookup_name-append a n ls new) at (
            get_name_by_addr-lookup a (ls ++ entry a n ∷ []) (quiet (with_name a n ls w) l p) can
              is.2
              (HoldsTable-quiet 512 (ls ++ entry a n ∷ []) (with_name a n ls w) l p
                (with_name-HoldsTable 512 a n ls w holds is))))
