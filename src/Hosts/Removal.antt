-- ===== src/Hosts/Removal.antt =====
-- get_hostname, copy_file_content and remove_name on a station whose /etc/hosts is mounted on its
-- file under HOSTS_FILES_PATH.
use name_spread.Prelude.{
  ℕ, ◌+◌, ◌≤◌, ◌≡◌, refl, ◌≢◌, Bool, true, Option, none, some, List, [], ◌∷◌, ◌++◌, if◌then◌else◌,
  arith, All, ◌∙◌, ap, sym, length,
}
use name_spread.Hosts.Files.{contents-with_file, contents-with_file_ne, can_read-with_file}
use name_spread.Hosts.Files.{popen-ok}
use name_spread.Logger.Yields.{log-Yields}
use name_spread.Text.{Str, newline, fgets_lines, fgets, Lacks, str_eq}
use name_spread.Text.Lines.{fgets_lines-line, drop_last-append, flatten-fgets_lines}
use name_spread.Machine.Run.{ok, ◌>>◌}
use name_spread.Machine.Cfu.{Cfu}
use name_spread.Machine.System.{System}
use name_spread.Machine.World.{World}
use name_spread.Logger.{CanLog}
use name_spread.Logger.Yields.{quiet, Yields, Yields-bind, Yields-quiet}
use name_spread.Hosts.{
  aux_path, hosts_path, hostname_path, station_path, keep_lines, get_hostname, copy_file_content,
  rewrite_without, remove_name, get_name_by_addr,
}
use name_spread.Hosts.Files.{contents, can_read, with_file}
use name_spread.Hosts.Table.{HostLine, entry, other, render, lookup_name, drop_addr, IsLine}
use name_spread.Hosts.Lookup.{keep_lines-render, lookup_name-drop_addr, drop_addr-IsLine}
use name_spread.Hosts.Cache.{HoldsTable, get_name_by_addr-lookup}

IsLine-longer : (l : HostLine) → IsLine 100 l → IsLine 512 l
IsLine-longer (entry a n) (ta, tn, la, ln, fit) = (ta, tn, la, ln, omega arith)
IsLine-longer (other s) (t, l, fit) = (t, l, omega arith)

All-IsLine-longer : (ls : List HostLine) → All (IsLine 100) ls → All (IsLine 512) ls
All-IsLine-longer [] is = tt
All-IsLine-longer (l ∷ ls) (is, more) = (IsLine-longer l is, All-IsLine-longer ls more)

module _ ⦃pnr_table : Cfu ℕ⦄ ⦃timer_table : Cfu Str⦄ ⦃sys : System⦄ where
  -- The files of the station `host`, as its operator sets them up: /etc/hostname holds the name, which
  -- fits get_hostname's buffer, and /etc/hosts is the station's file of names.
  pub record IsStation (host : Str) (w : World) : Type 0 where
    pub name_readable : can_read hostname_path w ≡ true
    pub name_text : contents hostname_path w ≡ host ++ newline ∷ []
    pub name_line : Lacks newline host
    pub name_short : length host + 2 ≤ 32
    pub mounted : sys.inode (station_path host) ≡ sys.inode hosts_path
    pub apart : sys.inode (aux_path host) ≢ sys.inode hosts_path
    pub aux_readable : sys.readable (aux_path host) ≡ true
    pub aux_writable : sys.writable (aux_path host) ≡ true
    pub hosts_writable : sys.writable (station_path host) ≡ true

  IsStation-quiet :
      (host : Str) (w : World) (l : List (Str × Str)) (p : List Bool)
      → IsStation host w
      → IsStation host (quiet w l p)
  IsStation-quiet host w l p st = record {
    name_readable = st.name_readable;
    name_text = st.name_text;
    name_line = st.name_line;
    name_short = st.name_short;
    mounted = st.mounted;
    apart = st.apart;
    aux_readable = st.aux_readable;
    aux_writable = st.aux_writable;
    hosts_writable = st.hosts_writable;
  }

  fgets-line :
      (size : ℕ) (s : Str)
      → Lacks newline s
      → length s + 2 ≤ size
      → fgets size (s ++ newline ∷ []) ≡ some (s ++ newline ∷ [])
  unfolding fgets
  fgets-line size s lacks fit = rw (fgets_lines-line size s [] lacks fit, fgets)

  -- get_hostname returns the name without the newline, and changes nothing.
  pub get_hostname-name : (host : Str) (w : World) → IsStation host w → get_hostname w ≡ ok host w
  unfolding get_hostname
  get_hostname-name host w st =
      rw (st.name_readable, st.name_text, fgets-line 32 host st.name_line st.name_short)
        (ap (λ t. ok t w) (drop_last-append host newline))

  -- The world after the station's file has been replaced by way of the auxiliary one.
  abbrev pub before_last : Str → Str → World → World
  before_last host text w =
      with_file (station_path host) []
        (with_file (aux_path host) text (with_file (aux_path host) [] w))

  abbrev pub replaced : Str → Str → World → World
  replaced host text w = with_file (station_path host) text (before_last host text w)

  -- copy_file_content writes the whole text of one file over another.
  pub copy_file_content-contents :
      (from_path to_path : Str) (w : World)
      → can_read from_path w ≡ true
      → sys.writable to_path ≡ true
      → sys.inode from_path ≢ sys.inode to_path
      → copy_file_content from_path to_path w
        ≡ ok tt (with_file to_path (contents from_path w) (with_file to_path [] w))
  unfolding copy_file_content
  copy_file_content-contents p q w readable writable apart =
      rw (readable, writable)
        (ap (λ t. ok tt (with_file q t (with_file q [] w)))
          (flatten-fgets_lines 100 _ ∙ contents-with_file_ne p q [] w apart))

  aux-apart :
      (host : Str) (w : World)
      → IsStation host w
      → sys.inode (aux_path host) ≢ sys.inode (station_path host)
  aux-apart host w st e = st.apart (e ∙ st.mounted)

  -- The loop's output passes through the auxiliary file.
  rewrite_without-replaced :
      (addr : Option Str) (text kept host : Str) (w : World)
      → IsStation host w
      → ((v : World) → keep_lines addr (fgets_lines 100 text) v ≡ ok kept v)
      → rewrite_without addr text host w ≡ ok tt (replaced host kept w)
  unfolding rewrite_without
  rewrite_without-replaced addr text kept host w st loop =
      let v = with_file (aux_path host) [] w in
      let u = with_file (aux_path host) kept v in
      rw (loop v) (
        copy_file_content-contents (aux_path host) (station_path host) u
          (can_read-with_file (aux_path host) kept v st.aux_readable) st.hosts_writable
          (aux-apart host w st)
        ∙ ap (λ t. ok tt (with_file (station_path host) t (with_file (station_path host) [] u)))
            (contents-with_file (aux_path host) (aux_path host) kept v refl))

  -- On a station whose log is writable, whose calls of popen succeed and whose lines fit the
  -- buffer, remove_name rewrites /etc/hosts without the lines of the address, by way of the
  -- auxiliary file, and changes nothing else but the log.
  pub remove_name-drop_addr :
      (host a : Str) (ls : List HostLine) (w : World)
      → CanLog w
      → IsStation host w
      → w.popens ≡ []
      → Lacks newline a
      → HoldsTable 100 ls w
      → Yields tt (replaced host (render (drop_addr a ls)) w) (remove_name (some a) w)
  unfolding remove_name
  remove_name-drop_addr host a ls w can st pipes la holds =
      let kept = render (drop_addr a ls) in
      rw
        (
          get_hostname-name host w st,
          popen-ok w pipes,
          st.aux_writable,
          holds.text,
          rewrite_without-replaced (some a) (render ls) kept host w st
              (λ v. keep_lines-render v a 100 ls la holds.lines),
        )
        (log-Yields _ (replaced host kept w) can)

  replaced-HoldsTable :
      (host a : Str) (ls : List HostLine) (w : World) (l : List (Str × Str)) (p : List Bool)
      → IsStation host w
      → HoldsTable 100 ls w
      → HoldsTable 512 (drop_addr a ls) (quiet (replaced host (render (drop_addr a ls)) w) l p)
  replaced-HoldsTable host a ls w l p st holds = record {
    text =
        contents-with_file hosts_path (station_path host) (render (drop_addr a ls))
          (before_last host (render (drop_addr a ls)) w) (sym st.mounted);
    lines = All-IsLine-longer (drop_addr a ls) (drop_addr-IsLine 100 a ls holds.lines);
  }

  -- On a station whose log is writable, whose calls of popen succeed and whose lines fit the
  -- buffer: after remove_name the address is not found, and every other address is found as
  -- before.
  pub get_name_by_addr-remove_name :
      (host a b : Str) (ls : List HostLine) (w : World)
      → CanLog w
      → IsStation host w
      → w.popens ≡ []
      → Lacks newline a
      → Lacks newline b
      → HoldsTable 100 ls w
      → Yields
          (if str_eq a b then none else lookup_name b ls)
          (replaced host (render (drop_addr a ls)) w)
          ((remove_name (some a) >> get_name_by_addr (some b)) w)
  get_name_by_addr-remove_name host a b ls w can st pipes la lb holds =
      let v = replaced host (render (drop_addr a ls)) w in
      Yields-bind _ (remove_name-drop_addr host a ls w can st pipes la holds) λ l p.
        Yields-quiet v l p (
          rw (lookup_name-drop_addr a b ls) at (
            get_name_by_addr-lookup b (drop_addr a ls) (quiet v l p) can lb
              (replaced-HoldsTable host a ls w l p st holds)))
