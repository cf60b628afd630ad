-- ===== src/LinkedList/Print.antt =====
-- print_list: the text of a list of values.
use name_spread.Prelude.{
  ℕ, zero, suc, ap, append-nil, ◌<◌, ◌≡◌, refl, Option, List, [], ◌∷◌, ◌++◌, length, arith,
}
use name_spread.Text.{Str, codes, shown}
use name_spread.Machine.Run.{ok}
use name_spread.Machine.World.{Heap}
use name_spread.LinkedList.{null, node, print_nodes, print_list}
use name_spread.LinkedList.Chain.{
  Cells, head_of, values, Chain, IsHeap, load-ok, not_null, length-lt-fresh,
}

-- The values between commas, with a bracket behind the last.
abbrev pub items : List (Option Str) → Str
items [] = []
items (v ∷ []) = shown v ++ codes "]"
items (v ∷ u ∷ vs) = shown v ++ codes ", " ++ items (u ∷ vs)

-- An empty list is printed without its second bracket.
abbrev pub listing : List (Option Str) → Str
listing vs = codes "[" ++ items vs

print_nodes-items :
    (h : Heap) (k : ℕ) (cs : Cells)
    → Chain h cs
    → length cs < k
    → print_nodes k (head_of cs) h ≡ ok (items (values cs)) h
unfolding print_nodes
print_nodes-items h zero cs c lt = absurd (omega (arith, lt))
print_nodes-items h (suc k) [] c lt = refl
print_nodes-items h (suc k) ((a, v) ∷ []) (pos, at, out, rest) lt =
    rw (not_null a pos, load-ok h a (node v null) pos at, print_nodes-items h k [] tt (omega arith))
      (ap (λ t. ok t h) (append-nil (shown v ++ codes "]")))
print_nodes-items h (suc k) ((a, v) ∷ (b, u) ∷ cs) (pos, at, out, rest) lt =
    rw
      (
        not_null a pos,
        load-ok h a (node v b) pos at,
        print_nodes-items h k ((b, u) ∷ cs) rest (omega arith),
        not_null b rest.0,
      )
      refl

-- print_list of a list in the heap writes its values in their order, between commas, and changes
-- nothing else.
pub print_list-listing :
    (h : Heap) (cs : Cells)
    → IsHeap h
    → Chain h cs
    → print_list (head_of cs) h ≡ ok (listing (values cs)) h
unfolding print_list
print_list-listing h cs is c =
    rw (print_nodes-items h h.fresh cs c (length-lt-fresh h is cs c)) refl
