-- ===== src/Protocol/Lists.antt =====
-- The pending requests as a whole: the list of requesters of each address, in the heap.
use name_spread.Prelude.{
  ℕ, ◌≡◌, refl, false, Option, List, [], arith, ◌∙◌, sym, inl, inr, Bool-cases, if◌then◌else◌,
}
use name_spread.Text.{Str}
use name_spread.Machine.Cfu.{Cfu, key_eq, key_eq_iff}
use name_spread.Machine.World.{Heap}
use name_spread.LinkedList.Chain.{
  Cells, head_of, values, has, Chain, Chain-frame, IsHeap, Disjoint, SameOutside,
}
use name_spread.Timers.{or_null}
use name_spread.Pnr.Requesters.{enlist}

Disjoint-sym : (cs ds : Cells) → Disjoint cs ds → Disjoint ds cs
Disjoint-sym cs ds far a i = elim (Bool-cases (has a cs)) [
  | inl j ↦ absurd (ground (arith, i, far a j))
  | inr o ↦ o
]

-- The requesters of each address.
abbrev pub Requesters : Type 0
Requesters = Option Str → List (Option Str)

-- The abstract changes: a requester joins those of an address, and an address is answered.
abbrev pub joined : Option Str → Option Str → Requesters → Requesters
joined dst r reqs k = if key_eq dst k then enlist r (reqs dst) else reqs k

abbrev pub answered : Option Str → Requesters → Requesters
answered dst reqs k = if key_eq dst k then [] else reqs k

-- Requesters join addresses and addresses are answered, in any order.
pub data Evolves (reqs : Requesters) : Requesters → Type 0 where
  begun : Evolves reqs reqs
  joins :
      {reqs' : Requesters} (dst r : Option Str)
      → Evolves reqs reqs'
      → Evolves reqs (joined dst r reqs')
  answers :
      {reqs' : Requesters} (dst : Option Str)
      → Evolves reqs reqs'
      → Evolves reqs (answered dst reqs')

pub Evolves-follow : (p q r : Requesters) → Evolves p q → Evolves q r → Evolves p r
Evolves-follow p q r e begun = e
Evolves-follow p q r e (joins dst a f) = joins dst a (Evolves-follow p q _ e f)
Evolves-follow p q r e (answers dst f) = answers dst (Evolves-follow p q _ e f)

module _ ⦃pnr_table : Cfu ℕ⦄ ⦃timer_table : Cfu Str⦄ where
  -- Each address's pointer stands for the list of its requesters, and no two lists share a node.
  pub record IsPnrs (reqs : Requesters) (heap : Heap) (pnrs : pnr_table.Table) : Type 0 where
    pub cells : Option Str → Cells
    pub head : (k : Option Str) → or_null (pnr_table.get pnrs k) ≡ head_of (cells k)
    pub vals : (k : Option Str) → values (cells k) ≡ reqs k
    pub chain : (k : Option Str) → Chain heap (cells k)
    pub apart : (j k : Option Str) → key_eq j k ≡ false → Disjoint (cells j) (cells k)
    pub is_heap : IsHeap heap

  -- One address's list is replaced, and the others stay.
  module _ (reqs reqs' : Requesters) (heap g : Heap) (pnrs pnrs' : pnr_table.Table)
      (dst : Option Str) (cs : Cells) (is : IsPnrs reqs heap pnrs) where
    new_cells : Option Str → Cells
    new_cells k = if key_eq dst k then cs else is.cells k

    new_cells-Chain :
        Chain g cs
        → SameOutside cs heap g
        → ((k : Option Str) → key_eq dst k ≡ false → Disjoint (is.cells k) cs)
        → (k : Option Str) → Chain g (new_cells k)
    unfolding new_cells
    new_cells-Chain c same far k = elim (Bool-cases (key_eq dst k)) [
      | inl e ↦ rw e c
      | inr ne ↦ rw ne (Chain-frame heap g (is.cells k) (λ a i. same a (far k ne a i)) (is.chain k))
    ]

    new_cells-apart :
        ((k : Option Str) → key_eq dst k ≡ false → Disjoint (is.cells k) cs)
        → (j k : Option Str) → key_eq j k ≡ false
        → Disjoint (new_cells j) (new_cells k)
    unfolding new_cells
    new_cells-apart far j k ne = elim (Bool-cases (key_eq dst j)) [
      | inl ej ↦ elim (Bool-cases (key_eq dst k)) [
        | inl ek ↦
            absurd (ground (arith, ne, ej, ek, key_eq_iff dst j, key_eq_iff dst k, key_eq_iff j k))
        | inr nk ↦ rw (ej, nk) (Disjoint-sym (is.cells k) cs (far k nk))
      ]
      | inr nj ↦ elim (Bool-cases (key_eq dst k)) [
        | inl ek ↦ rw (nj, ek) (far j nj)
        | inr nk ↦ rw (nj, nk) (is.apart j k ne)
      ]
    ]

    pub IsPnrs-replace :
        Chain g cs
        → IsHeap g
        → SameOutside cs heap g
        → ((k : Option Str) → key_eq dst k ≡ false → Disjoint (is.cells k) cs)
        → ((k : Option Str)
            → or_null (pnr_table.get pnrs' k)
              ≡ (if key_eq dst k then head_of cs else or_null (pnr_table.get pnrs k)))
        → ((k : Option Str) → reqs' k ≡ (if key_eq dst k then values cs else reqs k))
        → IsPnrs reqs' g pnrs'
    unfolding new_cells
    IsPnrs-replace c is_heap same far heads vals = record {
      cells = new_cells;
      head = λ k.
          heads k
          ∙ elim (Bool-cases (key_eq dst k)) [ inl e ↦ rw e refl | inr ne ↦ rw ne (is.head k) ];
      vals = λ k.
          elim (Bool-cases (key_eq dst k)) [ inl e ↦ rw e refl | inr ne ↦ rw ne (is.vals k) ]
          ∙ sym (vals k);
      chain = new_cells-Chain c same far;
      apart = new_cells-apart far;
      is_heap = is_heap;
    }
