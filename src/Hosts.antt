-- ===== src/Hosts.antt =====
-- The files of the daemon: the host's name and its table of names (src/namespread.c), the cache of
-- names (src/nreq_responder.c) and its pruning (src/route_watcher.c). What `cat` prints is taken when
-- popen starts it.
pub mod Files
pub mod Table
pub mod Lookup
pub mod Cache
pub mod Removal
use mathlib.Core.List.{flatten}
use name_spread.Prelude.{
  ℕ, ◌+◌, Bool, true, false, not, Option, none, some, List, [], ◌∷◌, ◌++◌, ◌&&◌, if◌then◌else◌,
}
use name_spread.Text.{
  Str, codes, shown, str_eq, tab, newline, strtok, fgets_lines, fgets, drop_last,
}
use name_spread.Machine.Run.{Run, ok, fault, Cmd, pure, crash, gets, need, modify, ◌>>=◌, ◌>>◌}
use name_spread.Machine.Cfu.{Cfu}
use name_spread.Machine.System.{System}
use name_spread.Machine.World.{World, M}
use name_spread.Logger.{log}
use name_spread.Hosts.Files.{contents, can_read, with_file, popen, wait_popen}

abbrev pub hosts_path : Str
hosts_path = codes "/etc/hosts"

abbrev pub hostname_path : Str
hostname_path = codes "/etc/hostname"

-- "%s/hosts-%s" with HOSTS_FILES_PATH
unfoldable pub station_path : Str → Str
station_path hostname = codes "/tmp/mininet-wifi/hosts/hosts-" ++ hostname

-- strcmp(s, t) == 0, which follows both pointers
unfoldable pub same_text : {S : Type 0} → Option Str → Option Str → Cmd S Bool
same_text s t = do a ← need s; b ← need t; pure (str_eq a b)

-- The second column of a line, without its last byte.
unfoldable pub name_column : {S : Type 0} → Str → Cmd S (Option Str)
name_column rest = do name ← need (strtok tab rest).0; pure (some (drop_last name))

-- The loop of get_name_by_addr over the lines.
unfoldable pub find_name : {S : Type 0} → Option Str → List Str → Cmd S (Option Str)
find_name addr [] = pure none
find_name addr (line ∷ lines) =
    let (cached_addr, rest) = strtok tab line in
    let others = find_name addr lines in
    do found ← same_text cached_addr addr; if found then name_column rest else others

-- The loop of remove_name: what it writes to the new file.
unfoldable pub keep_lines : {S : Type 0} → Option Str → List Str → Cmd S Str
keep_lines addr [] = pure []
keep_lines addr (line ∷ lines) = do
  found ← same_text (strtok tab line).0 addr
  kept ← keep_lines addr lines
  pure (if found then kept else line ++ kept)

-- "%s/hosts-%s.aux"
unfoldable pub aux_path : Str → Str
unfolding station_path
aux_path hostname = station_path hostname ++ codes ".aux"

module _ ⦃pnr_table : Cfu ℕ⦄ ⦃timer_table : Cfu Str⦄ ⦃sys : System⦄ where
  -- Without the file the NULL stream is read after the message.
  unfoldable pub get_hostname : M Str
  get_hostname w =
      if can_read hostname_path w
      then (do line ← need (fgets 32 (contents hostname_path w)); pure (drop_last line)) w
      else (log (codes "[ ERROR ] Could not open /etc/hostname\n") >> crash) w

  unfoldable pub get_name_by_addr : Option Str → M (Option Str)
  get_name_by_addr addr = do
    wait_popen (codes "[WAIT] Trying to read from /etc/hosts...\n")
    text ← gets (contents hosts_path)
    find_name addr (fgets_lines 512 text)

  -- fopen(path, "a"), fprintf, fclose; a stream that could not be opened is followed
  unfoldable pub append_file : Str → Str → M (Unit {0})
  append_file path text w =
      if sys.writable path then ok tt (with_file path (contents path w ++ text) w) else fault

  unfoldable pub add_entry : Option Str → Option Str → M (Unit {0})
  unfolding append_file
  add_entry dst_addr name = do
    append_file hosts_path (shown dst_addr ++ tab ∷ shown name ++ newline ∷ [])
    modify (λ w. record w { total_cached_names = w.total_cached_names + 1 })

  unfoldable pub cache_name : Option Str → Option Str → M (Unit {0})
  unfolding add_entry
  cache_name dst_addr name = do
    cached ← get_name_by_addr dst_addr
    elim cached [ none ↦ add_entry dst_addr name | some n ↦ pure tt ]
    log (codes "[NAME+] Cached name for host " ++ shown dst_addr ++ newline ∷ [])

  -- `if (!opened) { asprintf(&msg, …); log_msg(msg, own_addr); }`
  unfoldable pub log_unless : Bool → Str → M (Unit {0})
  log_unless opened message = if opened then pure tt else log message

  -- Opening the output empties it before the input is read.
  unfoldable pub copy_opened : Str → Str → M (Unit {0})
  copy_opened from_path to_path = do
    modify (with_file to_path [])
    text ← gets (contents from_path)
    modify (with_file to_path (flatten (fgets_lines 100 text)))

  unfoldable pub copy_file_content : Str → Str → M (Unit {0})
  unfolding log_unless copy_opened
  copy_file_content from_path to_path = do
    readable ← gets (can_read from_path)
    log_unless readable
        (codes "[ ERROR ] Could not open file " ++ from_path ++ codes " for reading\n")
    log_unless (sys.writable to_path)
        (codes "[ ERROR ] Could not open file " ++ to_path ++ codes " for writing\n")
    if readable && sys.writable to_path then copy_opened from_path to_path else crash

  -- The filtered lines go to the auxiliary file, and from there to the station's file.
  unfoldable pub rewrite_without : Option Str → Str → Str → M (Unit {0})
  unfolding copy_file_content
  rewrite_without addr text hostname = do
    modify (with_file (aux_path hostname) [])
    kept ← keep_lines addr (fgets_lines 100 text)
    modify (with_file (aux_path hostname) kept)
    copy_file_content (aux_path hostname) (station_path hostname)

  unfoldable pub remove_name : Option Str → M (Unit {0})
  unfolding log_unless
  remove_name addr = do
    hostname ← get_hostname
    piped ← popen
    log_unless piped (codes "[ ERROR ] removing name: could read hosts file\n")
    text ← gets (contents hosts_path)
    let writable = sys.writable (aux_path hostname)
    log_unless writable (codes "[ ERROR ] removing name: could not create new hosts file\n")
    if piped && writable then rewrite_without addr text hostname else crash
    log (codes "[NAME-] Removed name for host " ++ shown addr ++ newline ∷ [])
