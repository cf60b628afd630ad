-- ===== src/Text.antt =====
-- C strings and the functions of <string.h> and <stdio.h> that the program calls. A string is the
-- list of its bytes without the terminator; a `char *` that may be NULL is an `Option Str`.
pub mod Tokens
pub mod Lines
pub mod Decimal
use Prim.Native.Char.{code}
use Prim.Native.String.{String}
use mathlib.Core.Option
use name_spread.Prelude.{
  ℕ, zero, suc, ◌+◌, ◌-◌, ◌/◌, ◌%◌, ◌≡◌, refl, ◌↔◌, Bool, true, false, ◌&&◌, ◌||◌, Option, none,
  some, List, [], ◌∷◌, ◌++◌, leb, ◌==◌, if◌then◌else◌, length, arith, All, ap, ◌∙◌,
}

abbrev pub Str : Type 0
Str = List ℕ

-- The bytes of an ASCII literal.
abbrev pub codes : String → Str
codes String.[] = []
codes (String.◌∷◌ c s) = code c ∷ codes s

abbrev pub tab : ℕ
tab = 9

abbrev pub newline : ℕ
newline = 10

abbrev pub space : ℕ
space = 32

-- strcmp(s, t) == 0
unfoldable pub str_eq : Str → Str → Bool
str_eq [] [] = true
str_eq (a ∷ s) (b ∷ t) = a == b && str_eq s t
str_eq _ _ = false

-- The string in a buffer, up to its first NUL; `none` if the buffer has none.
unfoldable pub c_string : List ℕ → Option Str
c_string [] = none
c_string (b ∷ bs) =
    let rest = c_string bs in if b == 0 then some [] else Option.map (λ s. b ∷ s) rest

-- sprintf(buf, …) into an array of `size` bytes: the text and its NUL fit.
abbrev pub fits : ℕ → Str → Bool
fits size s = leb (length s + 1) size

-- What printf writes for `%s`; the C library prints a NULL pointer as (null).
abbrev pub shown : Option Str → Str
shown none = codes "(null)"
shown (some s) = s

-- strtok with one delimiter `d`: what stands before the next `d`, and what stands behind it.
unfoldable pub before : ℕ → Str → Str
before d [] = []
before d (c ∷ s) = if c == d then [] else c ∷ before d s

unfoldable pub after : ℕ → Str → Str
after d [] = []
after d (c ∷ s) = let rest = after d s in if c == d then s else rest

unfoldable pub skip : ℕ → Str → Str
skip d [] = []
skip d (c ∷ s) = let rest = skip d s in if c == d then rest else c ∷ s

abbrev pub cut : ℕ → Str → Option Str × Str
cut d [] = (none, [])
cut d (c ∷ s) = (some (before d (c ∷ s)), after d (c ∷ s))

-- The token, NULL if none is left, and the text at which strtok(NULL, …) goes on.
unfoldable pub strtok : ℕ → Str → Option Str × Str
unfolding before after skip
strtok d s = cut d (skip d s)

unfoldable pub starts_with : Str → Str → Bool
starts_with s [] = true
starts_with [] (b ∷ t) = false
starts_with (a ∷ s) (b ∷ t) = a == b && starts_with s t

-- strstr(s, t) != NULL
unfoldable pub strstr : Str → Str → Bool
unfolding starts_with
strstr [] t = starts_with [] t
strstr (a ∷ s) t = starts_with (a ∷ s) t || strstr s t

-- strrchr(s, c) + 1, the text behind the last `c`; `none` where strrchr returns NULL.
unfoldable pub after_last : ℕ → Str → Option Str
after_last c [] = none
after_last c (a ∷ s) = elim (after_last c s) [
  | none ↦ if a == c then some s else none
  | some r ↦ some r
]

-- One more byte of a file in front of the pieces that fgets reads from the rest.
abbrev pub attach : Bool → ℕ → List Str → List Str
attach true c ls = (c ∷ []) ∷ ls
attach false c [] = (c ∷ []) ∷ []
attach false c (l ∷ ls) = (c ∷ l) ∷ ls

-- The pieces that `while (fgets(buf, full + 1, in))` reads; the first has room for `room` bytes.
unfoldable pub pieces : ℕ → ℕ → Str → List Str
pieces full room [] = []
pieces full room (c ∷ s) =
    let ends = c == newline || leb room 1 in
    attach ends c (pieces full (if ends then full else room - 1) s)

-- `while (fgets(buf, size, in) != NULL)`: a line with its newline, or `size - 1` bytes of one.
unfoldable pub fgets_lines : ℕ → Str → List Str
unfolding pieces
fgets_lines size text = pieces (size - 1) (size - 1) text

-- One call fgets(buf, size, in) at the start of a file; NULL at its end.
unfoldable pub fgets : ℕ → Str → Option Str
unfolding fgets_lines
fgets size text = elim (fgets_lines size text) [ [] ↦ none | l ∷ ls ↦ some l ]

-- s[strlen(s) - 1] = '\0'
unfoldable pub drop_last : Str → Str
drop_last [] = []
drop_last (c ∷ s) = elim s [ [] ↦ [] | d ∷ r ↦ c ∷ drop_last s ]

-- sprintf(buf, "%d", n) for n ≥ 0
digits_onto : ℕ → ℕ → Str → Str
digits_onto zero n s = s
digits_onto (suc k) n s =
    let rest = digits_onto k (n / 10) ((b'0' + n % 10) ∷ s) in
    if leb 10 n then rest else (b'0' + n % 10) ∷ s

unfoldable pub decimal : ℕ → Str
unfolding digits_onto
decimal n = digits_onto (suc n) n []

-- The byte `d` does not occur.
abbrev pub Lacks : ℕ → Str → Type 0
Lacks d s = All (λ c. (c == d) ≡ false) s

pub str_eq_iff : (s t : Str) → (str_eq s t ≡ true) ↔ (s ≡ t)
unfolding str_eq
str_eq_iff [] [] = ground arith
str_eq_iff [] (b ∷ t) = ground arith
str_eq_iff (a ∷ s) [] = ground arith
str_eq_iff (a ∷ s) (b ∷ t) = ground (arith, str_eq_iff s t)

pub str_eq_refl : (s : Str) → str_eq s s ≡ true
str_eq_refl s = (str_eq_iff s s).1 refl
