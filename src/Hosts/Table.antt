-- ===== src/Hosts/Table.antt =====
-- /etc/hosts as a table: its lines, and what a lookup and a removal mean for them.
use name_spread.Prelude.{
  ℕ, ◌+◌, ◌≤◌, ◌≡◌, refl, ◌≢◌, Bool, false, Option, none, some, List, [], ◌∷◌, ◌++◌, ◌==◌,
  if◌then◌else◌, length, arith, All-append, ◌∙◌, ap, append_assoc, length-append,
}
use name_spread.Text.{Str, Lacks, str_eq, tab, newline, strtok, fgets_lines}
use name_spread.Text.Tokens.{IsToken, strtok-front, strtok-last}
use name_spread.Text.Lines.{fgets_lines-line}
use name_spread.Machine.Run.{ok}
use name_spread.Hosts.{same_text}

-- A line is an address, a tab and a name, or holds no tab.
pub data HostLine : Type 0 where
  entry : Str → Str → HostLine
  other : Str → HostLine

abbrev pub body : HostLine → Str
body (entry a n) = a ++ tab ∷ n
body (other s) = s

abbrev pub render_line : HostLine → Str
render_line l = body l ++ newline ∷ []

-- The text of the lines with more text behind it.
abbrev pub render_before : List HostLine → Str → Str
render_before [] rest = rest
render_before (l ∷ ls) rest = body l ++ newline ∷ render_before ls rest

abbrev pub render : List HostLine → Str
render ls = render_before ls []

abbrev pub has_addr : Str → HostLine → Bool
has_addr a (entry b n) = str_eq b a
has_addr a (other s) = false

-- The name of the first entry of the address.
unfoldable pub lookup_name : Str → List HostLine → Option Str
lookup_name a [] = none
lookup_name a (entry b n ∷ ls) = if str_eq b a then some n else lookup_name a ls
lookup_name a (other s ∷ ls) = lookup_name a ls

unfoldable pub drop_addr : Str → List HostLine → List HostLine
drop_addr a [] = []
drop_addr a (l ∷ ls) = let rest = drop_addr a ls in if has_addr a l then rest else l ∷ rest

-- The line has no newline within it, fits a buffer of `size` bytes, and its columns are not empty.
abbrev pub IsLine : ℕ → HostLine → Type 0
IsLine size (entry a n) =
    IsToken tab a
    × IsToken tab n
    × Lacks newline a
    × Lacks newline n
    × (length a + length n + 3 ≤ size)
IsLine size (other s) = Lacks tab s × Lacks newline s × (length s + 2 ≤ size)

-- An address as the program handles it.
pub record IsAddr (a : Str) : Type 0 where
  pub token : IsToken tab a
  pub one_line : Lacks newline a

body-fits :
    (size : ℕ) (l : HostLine)
    → IsLine size l
    → Lacks newline (body l) × (length (body l) + 2 ≤ size)
body-fits size (entry a n) (ta, tn, la, ln, fit) = (
  All-append (λ c. (c == newline) ≡ false) a (tab ∷ n) la (refl, ln),
  omega (arith, length-append a (tab ∷ n)),
)
body-fits size (other s) (_, l, fit) = (l, fit)

-- A loop over the lines of the file reads each line whole.
pub fgets_lines-render :
    (size : ℕ) (l : HostLine) (rest : Str)
    → IsLine size l
    → fgets_lines size (body l ++ newline ∷ rest) ≡ render_line l ∷ fgets_lines size rest
fgets_lines-render size l rest is =
    let (lacks, fit) = body-fits size l is in fgets_lines-line size (body l) rest lacks fit

append-eq-nil : (s t : Str) → s ++ t ≡ [] → s ≡ []
append-eq-nil [] t e = refl
append-eq-nil (c ∷ s) t e = cc

snoc-ne-nil : (s : Str) (c : ℕ) → s ++ c ∷ [] ≢ []
snoc-ne-nil [] c e = cc
snoc-ne-nil (d ∷ s) c e = cc

-- A name followed by the newline is a token.
pub IsToken-newline : (n : Str) → IsToken tab n → IsToken tab (n ++ newline ∷ [])
IsToken-newline n t = record {
  some_byte = λ e. t.some_byte (append-eq-nil n (newline ∷ []) e);
  lacks = All-append (λ c. (c == tab) ≡ false) n (newline ∷ []) t.lacks (refl, tt);
}

pub other-IsToken : (s : Str) → Lacks tab s → IsToken tab (s ++ newline ∷ [])
other-IsToken s t = record {
  some_byte = λ e. snoc-ne-nil s newline e;
  lacks = All-append (λ c. (c == tab) ≡ false) s (newline ∷ []) t (refl, tt);
}

-- Whatever line has the newline in its first column is not found for an address.
pub same_text-ok :
    {S : Type 0} (s t : Str) (w : S) → same_text (some s) (some t) w ≡ ok (str_eq s t) w
unfolding same_text
same_text-ok s t w = refl

not-addr : (a s : Str) → Lacks newline a → str_eq (s ++ newline ∷ []) a ≡ false
unfolding str_eq
not-addr [] [] h = refl
not-addr [] (c ∷ s) h = refl
not-addr (b ∷ a) [] h = ground arith
not-addr (b ∷ a) (c ∷ s) h = ground (arith, not-addr a s)

pub entry-columns :
    (size : ℕ) (b n : Str)
    → IsLine size (entry b n)
    → strtok tab (render_line (entry b n)) ≡ (some b, n ++ newline ∷ [])
entry-columns size b n (tb, tn, lb, ln, fit) =
    rw (append_assoc b (tab ∷ n) (newline ∷ [])) (strtok-front tab b (n ++ newline ∷ []) tb)

-- The loops find a line's address to be the one that they look for exactly if it is.
pub found-line :
    {S : Type 0} (a : Str) (size : ℕ) (w : S)
    → Lacks newline a
    → (l : HostLine) → IsLine size l
    → same_text (strtok tab (render_line l)).0 (some a) w ≡ ok (has_addr a l) w
found-line a size w la (entry b n) is = rw (entry-columns size b n is) (same_text-ok b a w)
found-line a size w la (other s) (t, l, fit) =
    rw (strtok-last tab (s ++ newline ∷ []) (other-IsToken s t))
      (same_text-ok (s ++ newline ∷ []) a w ∙ ap (λ b. ok b w) (not-addr a s la))
