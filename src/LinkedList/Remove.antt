-- ===== src/LinkedList/Remove.antt =====
-- pop, remove_last and remove_by_index take one node out of a list and free it.
use mathlib.Core.Bool.{false≢true}
use name_spread.Prelude.{
  sym, ap, Bool-cases, inl, inr, ==_iff, ℕ, ◌+◌, ◌≡◌, refl, true, false, Option, none, some, [],
  ◌∷◌, ◌==◌, arith, ◌∙◌,
}
use name_spread.Text.{Str, codes}
use name_spread.Machine.Run.{ok}
use name_spread.Machine.Ensures.{Ensures, ensured}
use name_spread.Machine.World.{Heap}
use name_spread.LinkedList.{null, write, pop}
use name_spread.LinkedList.Chain.{
  Cells, head_of, has, Chain, SameOutside, Chain-frame, load-ok, free-ok, not_null,
}

-- The heap after free of a node.
unfoldable pub freed : Heap → ℕ → Heap
freed h p = record h { cell = write h.cell p none; room = h.room + 1 }

pub freed-other : (h : Heap) (p q : ℕ) → (q == p) ≡ false → (freed h p).cell q ≡ h.cell q
unfolding freed write
freed-other h p q ne = ground arith

pub freed-gone : (h : Heap) (p : ℕ) → (freed h p).cell p ≡ none
unfolding freed write
freed-gone h p = ground arith

pub has-ne : (a p : ℕ) (cs : Cells) → has a cs ≡ false → has p cs ≡ true → (p == a) ≡ false
has-ne a p cs out i = elim (Bool-cases (p == a)) [
  | inl e ↦ absurd (false≢true (sym out ∙ ap (λ x. has x cs) (sym ((==_iff p a).0 e)) ∙ i))
  | inr ne ↦ ne
]

-- pop of a list that is not empty returns its first value and the rest's head, frees the first
-- node, leaves the rest, and changes no other node.
pub pop-cons :
    (h : Heap) (a : ℕ) (v : Option Str) (cs : Cells)
    → Chain h ((a, v) ∷ cs)
    → Ensures
        (λ (val, head) g.
          (val ≡ v)
          × (head ≡ head_of cs)
          × Chain g cs
          × (g.cell a ≡ none)
          × SameOutside ((a, v) ∷ []) h g)
        (pop a h)
unfolding pop freed
pop-cons h a v cs (pos, at, out, rest) =
    rw (not_null a pos, load-ok h a _ pos at, free-ok h a _ pos at)
      (ensured (
        refl,
        refl,
        Chain-frame h (freed h a) cs (λ p i. freed-other h a p (has-ne a p cs out i)) rest,
        freed-gone h a,
        λ p o. freed-other h a p (ground arith),
      ))

-- pop of the empty list returns "-1" and changes nothing.
pub pop-nil : (h : Heap) → pop null h ≡ ok (some (codes "-1"), null) h
unfolding pop
pop-nil h = refl
