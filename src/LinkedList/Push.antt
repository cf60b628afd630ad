-- ===== src/LinkedList/Push.antt =====
-- push, push_first and new_linked_list add one node with the value, and write nowhere else than
-- at it and at its predecessor.
use mathlib.Core.Bool.{false≢true}
use name_spread.Prelude.{
  ◌∙◌, sym, ap, Bool-cases, ==_iff, inl, inr, ℕ, zero, suc, ◌+◌, ◌-◌, ◌<◌, ◌≡◌, refl, true, false,
  Option, none, some, [], ◌∷◌, ◌++◌, ◌==◌, length, arith,
}
use name_spread.Text.{Str}
use name_spread.Machine.Run.{ok, fault}
use name_spread.Machine.Ensures.{Ensures, ensured}
use name_spread.Machine.World.{Heap}
use name_spread.LinkedList.{null, node, write, append_after, last_node, push}
use name_spread.LinkedList.Chain.{
  Cells, has, Chain, IsHeap, SameOutside, has-append, load-ok, has-lt-fresh, length-lt-fresh,
  not-has-fresh,
}

-- The address and the value of the last node of `(a, v) ∷ cs`.
last : ℕ × Option Str → Cells → ℕ × Option Str
last c [] = c
last c (d ∷ cs) = last d cs

ne_of_has : (a x : ℕ) (cs : Cells) → has a cs ≡ false → has x cs ≡ true → (a == x) ≡ false
ne_of_has a x cs out i = elim (Bool-cases (a == x)) [
  | inl e ↦ absurd (false≢true (sym out ∙ ap (λ p. has p cs) ((==_iff a x).0 e) ∙ i))
  | inr ne ↦ ne
]

not-has-append :
    (p : ℕ) (cs : Cells) (a : ℕ) (v : Option Str)
    → has p (cs ++ (a, v) ∷ []) ≡ false
    → (has p cs ≡ false) × ((p == a) ≡ false)
not-has-append p cs a v out = ground (arith, has-append p cs ((a, v) ∷ []))

module _ (h : Heap) where
  last_node-last :
      (k a : ℕ) (v : Option Str) (cs : Cells)
      → Chain h ((a, v) ∷ cs)
      → length cs < k
      → last_node k a h ≡ ok (last (a, v) cs).0 h
  unfolding last_node last
  last_node-last zero a v cs c fuel = absurd (omega arith)
  last_node-last (suc k) a v [] (pos, at, out, rest) fuel = rw (load-ok h a _ pos at)
  last_node-last (suc k) a v ((b, w) ∷ cs) (pos, at, out, rest) fuel =
      rw (load-ok h a _ pos at) (ground (arith, last_node-last k b w cs rest))

  -- The last node is one of the list, and its next pointer is NULL.
  last-cell :
      (a : ℕ) (v : Option Str) (cs : Cells)
      → Chain h ((a, v) ∷ cs)
      → (has (last (a, v) cs).0 ((a, v) ∷ cs) ≡ true)
        × (0 < (last (a, v) cs).0)
        × (h.cell (last (a, v) cs).0 ≡ some (node (last (a, v) cs).1 null))
  unfolding last
  last-cell a v [] (pos, at, out, rest) = (ground arith, pos, at)
  last-cell a v ((b, w) ∷ cs) (pos, at, out, rest) =
      let (i, p, e) = last-cell b w cs rest in (ground arith, p, e)

  -- A chain whose last node is made to point to one more node.
  Chain-extend :
      (g : Heap) (new : ℕ) (val : Option Str) (a : ℕ) (v : Option Str) (cs : Cells)
      → Chain h ((a, v) ∷ cs)
      → has new ((a, v) ∷ cs) ≡ false
      → 0 < new
      → g.cell new ≡ some (node val null)
      → g.cell (last (a, v) cs).0 ≡ some (node (last (a, v) cs).1 new)
      → ((p : ℕ) → (p == (last (a, v) cs).0) ≡ false → (p == new) ≡ false → g.cell p ≡ h.cell p)
      → Chain g (((a, v) ∷ cs) ++ (new, val) ∷ [])
  unfolding last
  Chain-extend g new val a v [] (pos, at, out, rest) apart npos made link same =
      (pos, link, ground arith, (npos, made, refl, tt))
  Chain-extend g new val a v ((b, w) ∷ cs) (pos, at, out, rest) apart npos made link same =
      let (i, p, e) = last-cell b w cs rest in
      (
        pos,
        same a (ne_of_has a (last (b, w) cs).0 ((b, w) ∷ cs) out i) (ground arith) ∙ at,
        rw (has-append a ((b, w) ∷ cs) ((new, val) ∷ [])) (ground arith),
        Chain-extend g new val b w cs rest (ground arith) npos made link same,
      )

-- The heap after push, where `l` is the last node of the list and `u` its value.
pushed : Heap → ℕ → Option Str → Option Str → Heap
unfolding write
pushed h l u val = record {
  cell =
      let f = h.fresh in
      let made = write h.cell f (some (node none null)) in
      let linked = write made l (some (node u f)) in
      write (write linked f (some (node val null))) f (some (node val null));
  fresh = h.fresh + 1;
  room = h.room - 1;
}

module _ (h : Heap) (l : ℕ) (u val : Option Str) where
  append_after-pushed :
      0 < l
      → l < h.fresh
      → 0 < h.room
      → h.cell l ≡ some (node u null)
      → append_after l val h ≡ ok tt (pushed h l u val)
  unfolding append_after pushed
  append_after-pushed pos lt space at = ground arith

  append_after-no_room :
      0 < l → h.cell l ≡ some (node u null) → h.room ≡ 0 → append_after l val h ≡ fault
  unfolding append_after
  append_after-no_room pos at full = ground arith

  pushed-new : (pushed h l u val).cell h.fresh ≡ some (node val null)
  unfolding pushed
  pushed-new = ground arith

  pushed-last : l < h.fresh → (pushed h l u val).cell l ≡ some (node u h.fresh)
  unfolding pushed
  pushed-last lt = ground arith

  pushed-other :
      (p : ℕ) → (p == l) ≡ false → (p == h.fresh) ≡ false → (pushed h l u val).cell p ≡ h.cell p
  unfolding pushed
  pushed-other p a b = ground arith

  pushed-IsHeap : IsHeap h → l < h.fresh → IsHeap (pushed h l u val)
  unfolding pushed
  pushed-IsHeap is lt = record {
    fresh_pos = omega arith;
    unused = λ a le. ground (arith, is.unused a);
  }

-- On a list that is not empty, when malloc has memory, push returns; the list has the value behind
-- the others, at an address that was not in use, no other node has changed, and one node's memory
-- is used.
pub push-append :
    (h : Heap) (a : ℕ) (v : Option Str) (cs : Cells) (val : Option Str)
    → IsHeap h
    → Chain h ((a, v) ∷ cs)
    → 0 < h.room
    → Ensures
        (λ _ g.
          Chain g (((a, v) ∷ cs) ++ (h.fresh, val) ∷ [])
          × IsHeap g
          × SameOutside (((a, v) ∷ cs) ++ (h.fresh, val) ∷ []) h g
          × (g.fresh ≡ h.fresh + 1)
          × (g.room + 1 ≡ h.room))
        (push a val h)
unfolding push
push-append h a v cs val is c space =
    let l = (last (a, v) cs).0 in
    let u = (last (a, v) cs).1 in
    let list = (a, v) ∷ cs in
    let (i, p, e) = last-cell h a v cs c in
    let lt = has-lt-fresh h is list c l i in
    let fuel = length-lt-fresh h is list c in
    let new = not-has-fresh h is list c in
    rw (last_node-last h h.fresh a v cs c (omega (arith, fuel))) (
      rw (append_after-pushed h l u val p lt space e) (
        ensured (
          Chain-extend h (pushed h l u val) h.fresh val a v cs c new is.fresh_pos
              (pushed-new h l u val) (pushed-last h l u val lt) (pushed-other h l u val),
          pushed-IsHeap h l u val is lt,
          λ q out.
              let o = not-has-append q list h.fresh val out in
              pushed-other h l u val q (ne_of_has q l list o.0 i) o.1,
          unfold pushed in refl,
          unfold pushed in omega arith,
        )))

-- Without memory push follows the NULL that malloc returns.
pub push-no_room :
    (h : Heap) (a : ℕ) (v : Option Str) (cs : Cells) (val : Option Str)
    → IsHeap h
    → Chain h ((a, v) ∷ cs)
    → h.room ≡ 0
    → push a val h ≡ fault
unfolding push
push-no_room h a v cs val is c full =
    let (i, p, e) = last-cell h a v cs c in
    let fuel = length-lt-fresh h is ((a, v) ∷ cs) c in
    rw (last_node-last h h.fresh a v cs c (omega (arith, fuel)))
      (append_after-no_room h (last (a, v) cs).0 (last (a, v) cs).1 val p e full)
