-- ===== src/LinkedList/RemoveLast.antt =====
-- remove_last takes the node at the end out of a list.
use name_spread.Prelude.{
  sym, inl, inr, ℕ, zero, suc, ◌+◌, ◌<◌, ◌≡◌, refl, false, Option, none, some, [], ◌∷◌, ◌++◌, ◌==◌,
  length, length-append, arith, append_assoc, subst,
}
use name_spread.Text.{Str}
use name_spread.Machine.Run.{ok}
use name_spread.Machine.Ensures.{Ensures, ensured}
use name_spread.Machine.World.{Heap}
use name_spread.LinkedList.{load, null, node, write, second_to_last, unlink_last, remove_last}
use name_spread.LinkedList.Chain.{
  Cells, head_of, Chain, IsHeap, load-ok, set_next-ok, free-ok, not_null, length-lt-fresh,
}
use name_spread.LinkedList.Remove.{freed, freed-other, freed-gone}
use name_spread.LinkedList.Bypass.{head_pos, unlinked, ends, Left, apart}
use name_spread.LinkedList.RemoveAt.{from_back}

second_to_last-some :
    (h : Heap) (k : ℕ) (init : Cells) (p : ℕ) (u : Option Str) (q : ℕ) (x : Option Str)
    → Chain h (init ++ (p, u) ∷ (q, x) ∷ [])
    → length init < k
    → second_to_last k (head_of (init ++ (p, u) ∷ (q, x) ∷ [])) h ≡ ok p h
unfolding second_to_last
second_to_last-some h zero init p u q x c lt = absurd (omega (arith, lt))
second_to_last-some h (suc k) [] p u q x (pos, at, out, (pos', at', out', rest)) lt =
    rw (load-ok h p _ pos at, load-ok h q _ pos' at') refl
second_to_last-some h (suc k) ((b, w) ∷ []) p u q x (pos, at, out, (pos', at', out', rest)) lt =
    rw (load-ok h b _ pos at, load-ok h p _ pos' at', not_null q rest.0)
      (second_to_last-some h k [] p u q x (pos', at', out', rest) (omega (arith, lt)))
second_to_last-some h (suc k) ((b, w) ∷ (d, y) ∷ init) p u q x
      (pos, at, out, (pos', at', out', rest)) lt =
    rw
      (
        load-ok h b _ pos at,
        load-ok h d _ pos' at',
        not_null (head_of (init ++ (p, u) ∷ (q, x) ∷ [])) (head_pos h init p u ((q, x) ∷ []) rest),
      )
      (second_to_last-some h k ((d, y) ∷ init) p u q x (pos', at', out', rest) (omega (arith, lt)))

-- The heap after `free(current->next); current->next = NULL;`.
cut_off : Heap → ℕ → Option Str → ℕ → Heap
unfolding write
cut_off h p u q = record h {
  cell = write (write h.cell q none) p (some (node u null));
  room = h.room + 1;
}

cut_off-new :
    (h : Heap) (p : ℕ) (u : Option Str) (q : ℕ) → (cut_off h p u q).cell p ≡ some (node u null)
unfolding cut_off write
cut_off-new h p u q = ground arith

cut_off-gone :
    (h : Heap) (p : ℕ) (u : Option Str) (q : ℕ) → (p == q) ≡ false → (cut_off h p u q).cell q ≡ none
unfolding cut_off write
cut_off-gone h p u q ne = ground (arith, ne)

cut_off-other :
    (h : Heap) (p : ℕ) (u : Option Str) (q a : ℕ)
    → (a == p) ≡ false
    → (a == q) ≡ false
    → (cut_off h p u q).cell a ≡ h.cell a
unfolding cut_off write
cut_off-other h p u q a np nq = rw (np, nq) refl

module _ (h : Heap) (is : IsHeap h) (q : ℕ) (x : Option Str) where
  unlink_last-cut_off :
      (init : Cells) (p : ℕ) (u : Option Str)
      → Chain h (init ++ (p, u) ∷ (q, x) ∷ [])
      → unlink_last p h ≡ ok x (cut_off h p u q)
  unfolding unlink_last cut_off write
  unlink_last-cut_off init p u c =
      let (pos, at, both) = ends h init p u ((q, x) ∷ []) c in
      let (pos', at', out', rest) = both.3 in
      let still : (write h.cell q none) p ≡ some (node u q) =
        ground (arith, at, apart h init p u q x [] c) in
      rw
        (
          load-ok h p _ pos at,
          load-ok h q _ pos' at',
          free-ok h q _ pos' at',
          set_next-ok (record h { cell = write h.cell q none; room = h.room + 1 }) p null _ pos
              still,
        )
        refl

  first_next :
      (init : Cells) (p : ℕ) (u : Option Str)
      → Chain h (init ++ (p, u) ∷ (q, x) ∷ [])
      → (v : Option Str) × (r : ℕ) × (load (head_of (init ++ (p, u) ∷ (q, x) ∷ [])) h
          ≡ ok (node v r) h)
        × (0 < r)
  first_next [] p u (pos, at, out, rest) = (u, q, load-ok h p _ pos at, rest.0)
  first_next ((b, w) ∷ init) p u (pos, at, out, rest) = (
    w,
    head_of (init ++ (p, u) ∷ (q, x) ∷ []),
    load-ok h b _ pos at,
    head_pos h init p u ((q, x) ∷ []) rest,
  )

  remove_last-inner :
      (init : Cells) (p : ℕ) (u : Option Str)
      → Chain h ((init ++ (p, u) ∷ []) ++ (q, x) ∷ [])
      → Ensures
          (Left h (init ++ (p, u) ∷ []) q x [])
          (remove_last (head_of ((init ++ (p, u) ∷ []) ++ (q, x) ∷ [])) h)
  unfolding remove_last
  remove_last-inner init p u c =
      let list = append_assoc init ((p, u) ∷ []) ((q, x) ∷ []) in
      let c' = subst (Chain h) list c in
      let (v, r, first, pos) = first_next init p u c' in
      let fuel : length init < h.fresh = omega (
        arith,
        length-lt-fresh h is (init ++ (p, u) ∷ (q, x) ∷ []) c',
        length-append init ((p, u) ∷ (q, x) ∷ []),
      ) in
      let ne = apart h init p u q x [] c' in
      rw list (
        rw
          (
            first,
            not_null r pos,
            second_to_last-some h h.fresh init p u q x c' fuel,
            unlink_last-cut_off init p u c',
          )
          (ensured (
            unlinked h init p u q x [] c' (cut_off h p u q) (cut_off-new h p u q)
              (cut_off-gone h p u q ne) (cut_off-other h p u q))))

  remove_last-single : Chain h ((q, x) ∷ []) → Ensures (Left h [] q x []) (remove_last q h)
  unfolding remove_last freed
  remove_last-single (pos, at, out, rest) =
      rw (load-ok h q _ pos at, free-ok h q _ pos at)
        (ensured (refl, tt, freed-gone h q, λ a o. freed-other h q a (ground (arith, o))))

  -- Where the heap has handed out no address from `fresh` on, remove_last of a list that is not
  -- empty returns the value of its last node, leaves the others in their order, frees the last
  -- node, and changes no other list.
  pub remove_last-Left :
      (before : Cells)
      → Chain h (before ++ (q, x) ∷ [])
      → Ensures
          (λ val g. Left h before q x [] val g)
          (remove_last (head_of (before ++ (q, x) ∷ [])) h)
  remove_last-Left before c = elim (from_back before) [
    | inl e ↦
        subst (λ cs. Ensures (Left h cs q x []) (remove_last (head_of (cs ++ (q, x) ∷ [])) h))
          (sym e) (remove_last-single (subst (λ cs. Chain h (cs ++ (q, x) ∷ [])) e c))
    | inr (init, p, u, e) ↦
        subst (λ cs. Ensures (Left h cs q x []) (remove_last (head_of (cs ++ (q, x) ∷ [])) h))
          (sym e) (remove_last-inner init p u (subst (λ cs. Chain h (cs ++ (q, x) ∷ [])) e c))
  ]
