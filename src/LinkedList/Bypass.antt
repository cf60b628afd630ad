-- ===== src/LinkedList/Bypass.antt =====
-- A node is taken out of a list behind another one.
use name_spread.Prelude.{
  sym, ap, ℕ, ◌+◌, ◌<◌, ◌≡◌, refl, false, Option, none, some, [], ◌∷◌, ◌++◌, ◌==◌, length, arith,
  ◌∙◌, append_assoc, subst,
}
use name_spread.Text.{Str}
use name_spread.Machine.Run.{ok}
use name_spread.Machine.World.{Heap}
use name_spread.LinkedList.{node, write, node_before, unlink_next}
use name_spread.LinkedList.Chain.{
  Cells, head_of, has, has-append, Chain, SameOutside, Chain-frame, load-ok, set_next-ok, free-ok,
  not_null,
}
use name_spread.LinkedList.Remove.{has-ne}

-- The heap without the node `q`, which `p` with the value `u` pointed to; `p` points to `r` instead.
unfoldable pub bypassed : Heap → ℕ → Option Str → ℕ → ℕ → Heap
unfolding write
bypassed h p u q r = record h {
  cell = write (write h.cell p (some (node u r))) q none;
  room = h.room + 1;
}

pub head-append :
    (before : Cells) (p : ℕ) (u : Option Str) (cs ds : Cells)
    → head_of (before ++ (p, u) ∷ cs) ≡ head_of (before ++ (p, u) ∷ ds)
head-append [] p u cs ds = refl
head-append (c ∷ before) p u cs ds = refl

-- A chain from which the node behind `p` has been taken out.
pub Chain-bypass :
    (h g : Heap) (before : Cells) (p : ℕ) (u : Option Str) (q : ℕ) (x : Option Str) (after : Cells)
    → Chain h (before ++ (p, u) ∷ (q, x) ∷ after)
    → g.cell p ≡ some (node u (head_of after))
    → ((a : ℕ) → (a == p) ≡ false → (a == q) ≡ false → g.cell a ≡ h.cell a)
    → Chain g (before ++ (p, u) ∷ after)
Chain-bypass h g [] p u q x after (pos, at, out, (pos', at', out', rest)) new other = (
  pos,
  new,
  ground (arith, out),
  Chain-frame h g after
      (λ a i. other a (has-ne p a after (ground (arith, out)) i) (has-ne q a after out' i)) rest,
)
Chain-bypass h g ((b, w) ∷ before) p u q x after (pos, at, out, rest) new other =
    let o : has b (before ++ (p, u) ∷ (q, x) ∷ after) ≡ false = out in
    let parts = sym (has-append b before ((p, u) ∷ (q, x) ∷ after)) ∙ o in
    (
      pos,
      other b (ground (arith, parts)) (ground (arith, parts))
          ∙ at
          ∙ ap (λ r. some (node w r)) (head-append before p u ((q, x) ∷ after) after),
      has-append b before ((p, u) ∷ after) ∙ ground (arith, parts),
      Chain-bypass h g before p u q x after rest new other,
    )

-- The node at the end of `before`, and the one behind it.
pub ends :
    (h : Heap) (before : Cells) (p : ℕ) (u : Option Str) (cs : Cells)
    → Chain h (before ++ (p, u) ∷ cs)
    → (0 < p) × (h.cell p ≡ some (node u (head_of cs))) × Chain h ((p, u) ∷ cs)
ends h [] p u cs c = (c.0, c.1, c)
ends h ((b, w) ∷ before) p u cs (pos, at, out, rest) = ends h before p u cs rest

pub head_pos :
    (h : Heap) (before : Cells) (p : ℕ) (u : Option Str) (cs : Cells)
    → Chain h (before ++ (p, u) ∷ cs)
    → 0 < head_of (before ++ (p, u) ∷ cs)
head_pos h [] p u cs c = c.0
head_pos h (d ∷ before) p u cs c = c.0

pub node_before-some :
    (h : Heap) (before : Cells) (p : ℕ) (u : Option Str) (cs : Cells)
    → Chain h (before ++ (p, u) ∷ cs)
    → node_before (length before) (head_of (before ++ (p, u) ∷ cs)) h ≡ ok (some p) h
unfolding node_before
node_before-some h [] p u cs c = refl
node_before-some h ((b, w) ∷ before) p u cs (pos, at, out, rest) =
    rw
      (
        load-ok h b _ pos at,
        not_null (head_of (before ++ (p, u) ∷ cs)) (head_pos h before p u cs rest),
      )
      (node_before-some h before p u cs rest)

bypassed-new :
    (h : Heap) (p : ℕ) (u : Option Str) (q r : ℕ)
    → (p == q) ≡ false
    → (bypassed h p u q r).cell p ≡ some (node u r)
unfolding bypassed write
bypassed-new h p u q r ne = ground (arith, ne)

bypassed-gone : (h : Heap) (p : ℕ) (u : Option Str) (q r : ℕ) → (bypassed h p u q r).cell q ≡ none
unfolding bypassed write
bypassed-gone h p u q r = ground arith

bypassed-other :
    (h : Heap) (p : ℕ) (u : Option Str) (q r a : ℕ)
    → (a == p) ≡ false
    → (a == q) ≡ false
    → (bypassed h p u q r).cell a ≡ h.cell a
unfolding bypassed write
bypassed-other h p u q r a np nq = rw (np, nq) refl

-- What is left when the node `q` is taken out: its value is returned, the others stay in their order,
-- it is freed, and no node of another list is changed.
abbrev pub Left : Heap → Cells → ℕ → Option Str → Cells → Option Str → Heap → Type 0
Left h before q x after val g =
    (val ≡ x)
    × Chain g (before ++ after)
    × (g.cell q ≡ none)
    × SameOutside (before ++ (q, x) ∷ after) h g

module _ (h : Heap) (before : Cells) (p : ℕ) (u : Option Str) (q : ℕ) (x : Option Str)
    (after : Cells) (c : Chain h (before ++ (p, u) ∷ (q, x) ∷ after)) where
  pub apart : (p == q) ≡ false
  apart = let (pos, at, both) = ends h before p u ((q, x) ∷ after) c in ground (arith, both.2)

  pub unlink_next-bypassed : unlink_next p h ≡ ok x (bypassed h p u q (head_of after))
  unfolding unlink_next bypassed write
  unlink_next-bypassed =
      let (pos, at, both) = ends h before p u ((q, x) ∷ after) c in
      let (pos', at', out', rest) = both.3 in
      let still : (write h.cell p (some (node u (head_of after)))) q
          ≡ some (node x (head_of after)) =
        ground (arith, at', apart) in
      rw
        (
          load-ok h p _ pos at,
          load-ok h q _ pos' at',
          set_next-ok h p (head_of after) _ pos at,
          free-ok (record h { cell = write h.cell p (some (node u (head_of after))) }) q _ pos'
              still,
        )
        refl

  pub unlinked :
      (g : Heap)
      → g.cell p ≡ some (node u (head_of after))
      → g.cell q ≡ none
      → ((a : ℕ) → (a == p) ≡ false → (a == q) ≡ false → g.cell a ≡ h.cell a)
      → Left h (before ++ (p, u) ∷ []) q x after x g
  unlinked g new gone other = (
    refl,
    subst (Chain g) (sym (append_assoc before ((p, u) ∷ []) after))
        (Chain-bypass h g before p u q x after c new other),
    gone,
    λ a o.
        let parts = sym (has-append a (before ++ (p, u) ∷ []) ((q, x) ∷ after)) ∙ o in
        let front = has-append a before ((p, u) ∷ []) in
        other a (ground (arith, parts, front)) (ground (arith, parts)),
  )

  pub bypassed-Left : Left h (before ++ (p, u) ∷ []) q x after x (bypassed h p u q (head_of after))
  bypassed-Left =
      unlinked (bypassed h p u q (head_of after)) (bypassed-new h p u q (head_of after) apart)
        (bypassed-gone h p u q (head_of after)) (bypassed-other h p u q (head_of after))
