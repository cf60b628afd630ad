-- ===== src/LinkedList/RemoveAt.antt =====
-- remove_by_index on every index: a node of the list, the one behind the last, and beyond.
use name_spread.Prelude.{
  sym, ap, Bool-cases, inl, inr, ℕ, zero, suc, ◌<◌, ◌≡◌, refl, false, Option, none, some, [], ◌∷◌,
  ◌++◌, ◌==◌, ==_iff, length, arith, ◌∙◌, ◌⊎◌, append_assoc, subst,
}
use name_spread.Text.{Str, codes}
use name_spread.Machine.Run.{ok, fault}
use name_spread.Machine.Ensures.{Ensures, ensured, Ensures-weaken}
use name_spread.Machine.World.{Heap}
use name_spread.LinkedList.{load, null, node, node_before, unlink_next, remove_by_index}
use name_spread.LinkedList.Chain.{Cells, head_of, Chain, load-ok, not_null}
use name_spread.LinkedList.Remove.{pop-cons}
use name_spread.LinkedList.Bypass.{
  head-append, node_before-some, Left, unlink_next-bypassed, bypassed-Left,
}

-- The list from behind.
pub from_back :
    (cs : Cells)
    → (cs ≡ []) ⊎ ((init : Cells) × (p : ℕ) × (u : Option Str) × (cs ≡ init ++ (p, u) ∷ []))
from_back [] = inl refl
from_back ((a, v) ∷ cs) = elim (from_back cs) [
  | inl e ↦ inr ([], a, v, ap (λ ds. (a, v) ∷ ds) e)
  | inr (init, p, u, e) ↦ inr ((a, v) ∷ init, p, u, ap (λ ds. (a, v) ∷ ds) e)
]

length-back : (init : Cells) (c : ℕ × Option Str) → length (init ++ c ∷ []) ≡ suc (length init)
length-back [] c = refl
length-back (d ∷ init) c = ap suc (length-back init c)

Taken : Heap → Cells → ℕ → Option Str → Cells → Option Str × ℕ → Heap → Type 0
Taken h before q x after (val, head) g =
    Left h before q x after val g × (head ≡ head_of (before ++ after))

module _ (h : Heap) (q : ℕ) (x : Option Str) (after : Cells) where
  remove_by_index-inner :
      (init : Cells) (p : ℕ) (u : Option Str)
      → Chain h ((init ++ (p, u) ∷ []) ++ (q, x) ∷ after)
      → Ensures (Taken h (init ++ (p, u) ∷ []) q x after) (
          remove_by_index
            (head_of ((init ++ (p, u) ∷ []) ++ (q, x) ∷ after))
            (length (init ++ (p, u) ∷ []))
            h)
  unfolding remove_by_index Taken
  remove_by_index-inner init p u c =
      let c' = subst (Chain h) (append_assoc init ((p, u) ∷ []) ((q, x) ∷ after)) c in
      rw (append_assoc init ((p, u) ∷ []) ((q, x) ∷ after), length-back init (p, u))
        (rw
          (
            node_before-some h init p u ((q, x) ∷ after) c',
            unlink_next-bypassed h init p u q x after c',
          )
          (ensured (
            bypassed-Left h init p u q x after c',
            head-append init p u ((q, x) ∷ after) after
                ∙ ap head_of (sym (append_assoc init ((p, u) ∷ []) after)),
          )))

  -- On a list with the node `q` behind as many nodes as the index says, remove_by_index returns its value and
  -- the head of the list without it, frees it, and changes no other list.
  pub remove_by_index-Left :
      (before : Cells)
      → Chain h (before ++ (q, x) ∷ after)
      → Ensures
          (λ (val, head) g. Left h before q x after val g × (head ≡ head_of (before ++ after)))
          (remove_by_index (head_of (before ++ (q, x) ∷ after)) (length before) h)
  unfolding Taken
  remove_by_index-Left before c = elim (from_back before) [
    | inl e ↦
        subst
          (λ cs.
            Ensures (Taken h cs q x after)
              (remove_by_index (head_of (cs ++ (q, x) ∷ after)) (length cs) h))
          (sym e)
          (unfold remove_by_index in
            Ensures-weaken (pop-cons h q x after (subst (λ cs. Chain h (cs ++ (q, x) ∷ after)) e c))
              λ (val, head) g (v, at, rest, gone, same).
                ((v, rest, gone, λ a o. same a (ground arith)), at))
    | inr (init, p, u, e) ↦
        subst
          (λ cs.
            Ensures (Taken h cs q x after)
              (remove_by_index (head_of (cs ++ (q, x) ∷ after)) (length cs) h))
          (sym e)
          (remove_by_index-inner init p u (subst (λ cs. Chain h (cs ++ (q, x) ∷ after)) e c))
  ]

-- Behind the last node remove_by_index stops.
node_before-none :
    (h : Heap) (k a : ℕ) (v : Option Str) (cs : Cells)
    → Chain h ((a, v) ∷ cs)
    → length cs < k
    → node_before k a h ≡ ok none h
unfolding node_before
node_before-none h zero a v cs c lt = absurd (omega (arith, lt))
node_before-none h (suc k) a v [] (pos, at, out, rest) lt = rw (load-ok h a _ pos at) refl
node_before-none h (suc k) a v ((b, w) ∷ cs) (pos, at, out, rest) lt =
    rw (load-ok h a _ pos at, not_null b rest.0)
      (node_before-none h k b w cs rest (omega (arith, lt)))

-- As many steps as there are nodes behind the first lead to the last.
node_before-last :
    (h : Heap) (a : ℕ) (v : Option Str) (cs : Cells)
    → Chain h ((a, v) ∷ cs)
    → (p : ℕ) × (u : Option Str) × (node_before (length cs) a h ≡ ok (some p) h)
      × (0 < p)
      × (h.cell p ≡ some (node u null))
unfolding node_before
node_before-last h a v [] (pos, at, out, rest) = (a, v, refl, pos, at)
node_before-last h a v ((b, w) ∷ cs) (pos, at, out, rest) =
    let (p, u, e, pos', at') = node_before-last h b w cs rest in
    (p, u, rw (load-ok h a _ pos at, not_null b rest.0) e, pos', at')

unlink_next-null :
    (h : Heap) (p : ℕ) (u : Option Str)
    → 0 < p
    → h.cell p ≡ some (node u null)
    → unlink_next p h ≡ fault
unfolding unlink_next load
unlink_next-null h p u pos at = ground (arith, at)

lt_of_ne : (m n : ℕ) → (n == m) ≡ false → m < suc n → m < n
lt_of_ne m n ne lt = ground (arith, ne, lt)

-- On a list that is not empty, remove_by_index follows a NULL pointer for the index behind the last node; for
-- a greater one it returns "-1" and changes nothing.
pub remove_by_index-beyond :
    (h : Heap) (a : ℕ) (v : Option Str) (cs : Cells) (n : ℕ)
    → Chain h ((a, v) ∷ cs)
    → length cs < n
    → ((n ≡ suc (length cs)) × (remove_by_index a n h ≡ fault))
      ⊎ ((suc (length cs) < n) × (remove_by_index a n h ≡ ok (some (codes "-1"), a) h))
unfolding remove_by_index
remove_by_index-beyond h a v cs zero c lt = absurd (omega (arith, lt))
remove_by_index-beyond h a v cs (suc k) c lt = elim (Bool-cases (k == length cs)) [
  | inl e ↦
      let same = (==_iff k (length cs)).0 e in
      let (p, u, walk, pos, at) = node_before-last h a v cs c in
      inl (ap suc same, rw (same, walk, unlink_next-null h p u pos at) refl)
  | inr ne ↦
      let more : length cs < k = lt_of_ne (length cs) k ne lt in
      inr (omega (arith, more), rw (node_before-none h k a v cs c more) refl)
]
