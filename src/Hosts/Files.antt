-- ===== src/Hosts/Files.antt =====
-- Files and pipes. A file is what a path's inode holds; an absent file reads as empty through `cat`.
use name_spread.Prelude.{
  ℕ, Bool, true, false, Option, none, some, [], ◌∷◌, ◌&&◌, ◌==◌, if◌then◌else◌,
}
use name_spread.Prelude.{arith, ◌≡◌, ◌≢◌}
use name_spread.Text.{Str}
use name_spread.Prelude.{List}
use name_spread.Logger.{log}
use name_spread.Machine.Run.{ok, and_then}
use name_spread.Machine.Cfu.{Cfu}
use name_spread.Machine.System.{System}
use name_spread.Machine.World.{World, M}

abbrev pub or_empty : Option Str → Str
or_empty none = []
or_empty (some s) = s

abbrev pub is_some {ℓ} : {A : Type ℓ} → Option A → Bool
is_some none = false
is_some (some a) = true

unfoldable pub write_at : (ℕ → Option Str) → ℕ → Str → ℕ → Option Str
write_at f i s j = if j == i then some s else f j

module _ ⦃pnr_table : Cfu ℕ⦄ ⦃timer_table : Cfu Str⦄ ⦃sys : System⦄ where
  abbrev pub contents : Str → World → Str
  contents path w = or_empty (w.files (sys.inode path))

  -- fopen(path, "r") succeeds
  abbrev pub can_read : Str → World → Bool
  can_read path w = sys.readable path && is_some (w.files (sys.inode path))

  -- The world with the file of `path` replaced.
  abbrev pub with_file : Str → Str → World → World
  with_file path text w = record w { files = write_at w.files (sys.inode path) text }

  pub contents-with_file :
      (p q text : Str) (w : World)
      → sys.inode p ≡ sys.inode q
      → contents p (with_file q text w) ≡ text
  unfolding write_at
  contents-with_file p q text w e = ground arith

  pub contents-with_file_ne :
      (p q text : Str) (w : World)
      → sys.inode p ≢ sys.inode q
      → contents p (with_file q text w) ≡ contents p w
  unfolding write_at
  contents-with_file_ne p q text w ne = ground arith

  pub can_read-with_file :
      (p text : Str) (w : World) → sys.readable p ≡ true → can_read p (with_file p text w) ≡ true
  unfolding write_at
  can_read-with_file p text w open_ok = ground arith

  -- One call of popen: whether it succeeds.
  unfoldable pub popen : M Bool
  popen w = elim w.popens [ [] ↦ ok true w | b ∷ rest ↦ ok b (record w { popens = rest }) ]

  -- popen succeeds when no failure lies ahead.
  pub popen-ok : (w : World) → w.popens ≡ [] → popen w ≡ ok true w
  unfolding popen
  popen-ok w e = ground arith

  -- `while (!(in = popen(…)))` logs and tries again.
  unfoldable pub wait_loop : Str → List Bool → M (Unit {0})
  wait_loop message [] w = ok tt (record w { popens = [] })
  wait_loop message (true ∷ rest) w = ok tt (record w { popens = rest })
  wait_loop message (false ∷ rest) w = and_then (log message w) (λ _. wait_loop message rest)

  unfoldable pub wait_popen : Str → M (Unit {0})
  unfolding wait_loop
  wait_popen message w = wait_loop message w.popens w
