-- ===== src/Machine/System.antt =====
-- What the program relies on of the operating system and the compiler.
use name_spread.Prelude.{ℕ, ◌^◌, ◌<◌, ◌≤◌, ◌≡◌, Bool, Option, some}
use name_spread.Text.{Str}

-- `inode` is the file that a path names: two paths name one file where one is mounted on the other.
-- `readable` and `writable` say whether fopen of the path succeeds in the mode "r" (of a file that
-- exists) and in the modes "a" and "w". `timestamp` formats a time. `handler_set` says whether
-- sigaction succeeds. `array_room n` is how many bytes can be written from the start of a local array
-- of `n` bytes before something else is overwritten.
pub record System : Type 0 where
  pub inode : Str → ℕ
  pub readable : Str → Bool
  pub writable : Str → Bool
  pub timestamp : ℕ → Str
  pub handler_set : Bool
  pub array_room : ℕ → ℕ
  pub inet_aton : Str → Option ℕ
  pub inet_ntoa : ℕ → Str
  pub array_room-le : (n : ℕ) → n ≤ array_room n
  pub inet_aton-ntoa : (a : ℕ) → a < 2 ^ 32 → inet_aton (inet_ntoa a) ≡ some a
