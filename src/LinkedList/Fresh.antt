-- ===== src/LinkedList/Fresh.antt =====
-- push_first and new_linked_list: a new node in front of a list, or alone.
use name_spread.Prelude.{
  ℕ, ◌+◌, ◌-◌, ◌<◌, ◌≡◌, refl, true, false, Option, none, some, [], ◌∷◌, ◌==◌, arith,
}
use name_spread.Text.{Str}
use name_spread.Machine.Run.{ok}
use name_spread.Machine.Ensures.{Ensures, ensured}
use name_spread.Machine.World.{Heap}
use name_spread.LinkedList.{null, node, write, push_first, new_linked_list}
use name_spread.LinkedList.Chain.{
  Cells, head_of, has, Chain, IsHeap, SameOutside, Chain-frame, has-lt-fresh, not-has-fresh,
}

-- The heap with a new node at `fresh`.
fronted : Heap → Option Str → ℕ → Heap
unfolding write
fronted h val q = record {
  cell =
      let f = h.fresh in
      write (write (write h.cell f (some (node none null))) f (some (node val null))) f
        (some (node val q));
  fresh = h.fresh + 1;
  room = h.room - 1;
}

module _ (h : Heap) (val : Option Str) (q : ℕ) where
  push_first-fronted : 0 < h.fresh → 0 < h.room → push_first q val h ≡ ok h.fresh (fronted h val q)
  unfolding push_first fronted
  push_first-fronted pos space = ground arith

  new_linked_list-fronted :
      0 < h.fresh → 0 < h.room → new_linked_list val h ≡ ok h.fresh (fronted h val null)
  unfolding new_linked_list fronted
  new_linked_list-fronted pos space = ground arith

  fronted-new : (fronted h val q).cell h.fresh ≡ some (node val q)
  unfolding fronted
  fronted-new = ground arith

  fronted-other : (p : ℕ) → (p == h.fresh) ≡ false → (fronted h val q).cell p ≡ h.cell p
  unfolding fronted
  fronted-other p ne = ground arith

  fronted-IsHeap : IsHeap h → IsHeap (fronted h val q)
  unfolding fronted
  fronted-IsHeap is = record {
    fresh_pos = omega arith;
    unused = λ a le. ground (arith, is.unused a);
  }

has-ne-fresh :
    (h : Heap)
    → IsHeap h
    → (cs : Cells) → Chain h cs
    → (a : ℕ) → has a cs ≡ true
    → (a == h.fresh) ≡ false
has-ne-fresh h is cs c a i = ground (arith, has-lt-fresh h is cs c a i)

fronted-Chain :
    (h : Heap) (val : Option Str) (cs : Cells)
    → IsHeap h
    → Chain h cs
    → Chain (fronted h val (head_of cs)) ((h.fresh, val) ∷ cs)
fronted-Chain h val cs is c = (
  is.fresh_pos,
  fronted-new h val (head_of cs),
  not-has-fresh h is cs c,
  Chain-frame h (fronted h val (head_of cs)) cs
      (λ a i. fronted-other h val (head_of cs) a (has-ne-fresh h is cs c a i)) c,
)

-- push_first puts the value in front of a list, which may be empty, at an address that was not in
-- use, when malloc has memory; it returns the new head, and writes at the new node only.
pub push_first-cons :
    (h : Heap) (cs : Cells) (val : Option Str)
    → IsHeap h
    → Chain h cs
    → 0 < h.room
    → Ensures
        (λ head g.
          (head ≡ h.fresh)
          × Chain g ((h.fresh, val) ∷ cs)
          × IsHeap g
          × SameOutside ((h.fresh, val) ∷ []) h g)
        (push_first (head_of cs) val h)
push_first-cons h cs val is c space =
    rw (push_first-fronted h val (head_of cs) is.fresh_pos space) (
      ensured (
        refl,
        fronted-Chain h val cs is c,
        fronted-IsHeap h val (head_of cs) is,
        λ p out. fronted-other h val (head_of cs) p (ground arith),
      ))

-- new_linked_list makes a list of one value when malloc has memory.
pub new_linked_list-single :
    (h : Heap) (val : Option Str)
    → IsHeap h
    → 0 < h.room
    → Ensures
        (λ head g.
          (head ≡ h.fresh)
          × Chain g ((h.fresh, val) ∷ [])
          × IsHeap g
          × SameOutside ((h.fresh, val) ∷ []) h g
          × (g.fresh ≡ h.fresh + 1)
          × (g.room + 1 ≡ h.room))
        (new_linked_list val h)
unfolding fronted
new_linked_list-single h val is space = rw (new_linked_list-fronted h val null is.fresh_pos space) (
    ensured (
      refl,
      fronted-Chain h val [] is tt,
      fronted-IsHeap h val null is,
      λ p out. fronted-other h val null p (ground arith),
      refl,
      omega arith,
    ))

-- Without memory it returns NULL and changes nothing.
pub new_linked_list-no_room :
    (h : Heap) (val : Option Str) → h.room ≡ 0 → new_linked_list val h ≡ ok null h
unfolding new_linked_list
new_linked_list-no_room h val full = ground arith
