-- ===== src/Hosts/Lookup.antt =====
-- The loops over /etc/hosts find and drop what the table says.
use name_spread.Hosts.{keep_lines}
use name_spread.Hosts.Table.{render, render_before, render_line}
use name_spread.Prelude.{
  ap, ◌∙◌, sym, append_assoc, arith, if◌then◌else◌, ℕ, ◌≡◌, refl, none, some, List, [], ◌∷◌, ◌++◌,
  All, Bool-cases, inl, inr,
}
use name_spread.Text.{Str, Lacks, str_eq, str_eq_refl, str_eq_iff, tab, newline, fgets_lines}
use name_spread.Text.Tokens.{IsToken, strtok-last}
use name_spread.Text.Lines.{drop_last-append}
use name_spread.Machine.Run.{ok}
use name_spread.Hosts.{name_column, find_name}
use name_spread.Hosts.Table.{
  HostLine, entry, other, has_addr, drop_addr, body, lookup_name, IsLine, fgets_lines-render,
  IsToken-newline, entry-columns, found-line, same_text-ok,
}

module _ {S : Type 0} (w : S) where
  name_column-line : (n : Str) → IsToken tab n → name_column (n ++ newline ∷ []) w ≡ ok (some n) w
  unfolding name_column
  name_column-line n t =
      rw (strtok-last tab (n ++ newline ∷ []) (IsToken-newline n t), drop_last-append n newline)

  -- The loop of get_name_by_addr over any text that begins with the lines `ls`.
  pub find_name-append :
      (a : Str) (size : ℕ) (ls : List HostLine) (rest : Str)
      → Lacks newline a
      → All (IsLine size) ls
      → find_name (some a) (fgets_lines size (render_before ls rest)) w ≡ elim (lookup_name a ls) [
        | none ↦ find_name (some a) (fgets_lines size rest) w
        | some n ↦ ok (some n) w
      ]
  unfolding find_name lookup_name
  find_name-append a size [] rest la is = refl
  find_name-append a size (entry b n ∷ ls) rest la (is, more) =
      rw
        (
          fgets_lines-render size (entry b n) (render_before ls rest) is,
          entry-columns size b n is,
          same_text-ok b a w,
        )
        (elim (Bool-cases (str_eq b a)) [
          | inl e ↦ rw e (name_column-line n is.1)
          | inr e ↦ rw e (find_name-append a size ls rest la more)
        ])
  find_name-append a size (other s ∷ ls) rest la (is, more) =
      rw
        (
          fgets_lines-render size (other s) (render_before ls rest) is,
          found-line a size w la (other s) is,
        )
        (find_name-append a size ls rest la more)

  -- The loop of get_name_by_addr is the lookup in the table.
  pub find_name-render :
      (a : Str) (size : ℕ) (ls : List HostLine)
      → Lacks newline a
      → All (IsLine size) ls
      → find_name (some a) (fgets_lines size (render ls)) w ≡ ok (lookup_name a ls) w
  unfolding find_name fgets_lines
  find_name-render a size ls la is = rw (find_name-append a size ls [] la is) (ground arith)

  -- The loop of remove_name drops the lines of the address.
  pub keep_lines-render :
      (a : Str) (size : ℕ) (ls : List HostLine)
      → Lacks newline a
      → All (IsLine size) ls
      → keep_lines (some a) (fgets_lines size (render ls)) w ≡ ok (render (drop_addr a ls)) w
  unfolding keep_lines drop_addr fgets_lines
  keep_lines-render a size [] la is = refl
  keep_lines-render a size (l ∷ ls) la (is, more) =
      rw
        (
          fgets_lines-render size l (render ls) is,
          found-line a size w la l is,
          keep_lines-render a size ls la more,
        )
        (elim (Bool-cases (has_addr a l)) [
          | inl e ↦ rw e
          | inr e ↦
              rw e
                (ap (λ t. ok t w) (append_assoc (body l) (newline ∷ []) (render (drop_addr a ls))))
        ])

pub render-append :
    (ls : List HostLine) (l : HostLine) → render (ls ++ l ∷ []) ≡ render ls ++ render_line l
render-append [] l = refl
render-append (k ∷ ls) l =
    ap (λ t. body k ++ newline ∷ t) (render-append ls l)
    ∙ sym (append_assoc (body k) (newline ∷ render ls) (render_line l))

-- A table's last line decides for an address that no line before it has.
pub lookup_name-append :
    (a n : Str) (ls : List HostLine)
    → lookup_name a ls ≡ none
    → lookup_name a (ls ++ entry a n ∷ []) ≡ some n
unfolding lookup_name
lookup_name-append a n [] e = ground (arith, str_eq_refl a)
lookup_name-append a n (entry b m ∷ ls) e = ground (arith, lookup_name-append a n ls)
lookup_name-append a n (other s ∷ ls) e = lookup_name-append a n ls e

-- A dropped address is not found, and the others are found as before.
pub lookup_name-drop_addr :
    (a b : Str) (ls : List HostLine)
    → lookup_name b (drop_addr a ls) ≡ (if str_eq a b then none else lookup_name b ls)
unfolding lookup_name drop_addr
lookup_name-drop_addr a b [] = ground arith
lookup_name-drop_addr a b (entry c n ∷ ls) =
    ground (arith, lookup_name-drop_addr a b ls, str_eq_iff a b, str_eq_iff c a, str_eq_iff c b)
lookup_name-drop_addr a b (other s ∷ ls) = ground (arith, lookup_name-drop_addr a b ls)

pub drop_addr-IsLine :
    (size : ℕ) (a : Str) (ls : List HostLine)
    → All (IsLine size) ls
    → All (IsLine size) (drop_addr a ls)
unfolding drop_addr
drop_addr-IsLine size a [] is = tt
drop_addr-IsLine size a (l ∷ ls) (is, more) = elim (Bool-cases (has_addr a l)) [
  | inl e ↦ rw e (drop_addr-IsLine size a ls more)
  | inr e ↦ rw e (is, drop_addr-IsLine size a ls more)
]
