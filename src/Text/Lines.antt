-- ===== src/Text/Lines.antt =====
-- What a loop over fgets reads.
use name_spread.Prelude.{
  ℕ, ◌+◌, ◌-◌, ◌≤◌, ◌<◌, ◌≡◌, refl, false, true, Bool, List, [], ◌∷◌, ◌++◌, ◌==◌, ◌||◌, leb, arith,
  length, if◌then◌else◌, ap, ◌∙◌,
}
use name_spread.Text.{Str, Lacks, newline, attach, pieces, fgets_lines, drop_last}
use mathlib.Core.List.{flatten}

flatten-attach : (b : Bool) (c : ℕ) (ls : List Str) → flatten (attach b c ls) ≡ c ∷ flatten ls
unfolding flatten
flatten-attach true c ls = refl
flatten-attach false c [] = refl
flatten-attach false c (l ∷ ls) = refl

flatten-pieces : (full room : ℕ) (s : Str) → flatten (pieces full room s) ≡ s
unfolding pieces flatten
flatten-pieces full room [] = refl
flatten-pieces full room (c ∷ s) =
    let ends = c == newline || leb room 1 in
    let next = if ends then full else room - 1 in
    flatten-attach ends c (pieces full next s) ∙ ap (λ t. c ∷ t) (flatten-pieces full next s)

-- The pieces put together are the text.
pub flatten-fgets_lines : (size : ℕ) (text : Str) → flatten (fgets_lines size text) ≡ text
unfolding fgets_lines
flatten-fgets_lines size text = flatten-pieces (size - 1) (size - 1) text

pieces-line :
    (full room : ℕ) (l rest : Str)
    → Lacks newline l
    → length l < room
    → pieces full room (l ++ newline ∷ rest) ≡ (l ++ newline ∷ []) ∷ pieces full full rest
unfolding pieces
pieces-line full room [] rest h fits = refl
pieces-line full room (c ∷ l) rest h fits = ground (arith, pieces-line full (room - 1) l rest)

-- A line that fits the buffer is read whole.
pub fgets_lines-line :
    (size : ℕ) (l rest : Str)
    → Lacks newline l
    → length l + 2 ≤ size
    → fgets_lines size (l ++ newline ∷ rest) ≡ (l ++ newline ∷ []) ∷ fgets_lines size rest
unfolding fgets_lines
fgets_lines-line size l rest h fits = pieces-line (size - 1) (size - 1) l rest h (omega arith)

pub drop_last-append : (s : Str) (c : ℕ) → drop_last (s ++ c ∷ []) ≡ s
unfolding drop_last
drop_last-append [] c = refl
drop_last-append (a ∷ []) c = refl
drop_last-append (a ∷ b ∷ s) c = ap (λ t. a ∷ t) (drop_last-append (b ∷ s) c)
