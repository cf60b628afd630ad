-- ===== src/Protocol/Changes.antt =====
-- The changes of the pending requests: a new list, a longer list, a dropped list.
use name_spread.Prelude.{
  ℕ, ◌≡◌, refl, Bool, true, false, Option, none, some, [], ◌∷◌, ◌++◌, arith, ap, ◌∙◌, sym, inl, inr,
  Bool-cases, if◌then◌else◌,
}
use name_spread.Text.{Str}
use name_spread.Machine.Cfu.{Cfu, key_eq, key_eq_iff}
use name_spread.Machine.World.{Heap}
use name_spread.LinkedList.{null}
use name_spread.LinkedList.Chain.{
  values-append, Cells, head_of, values, has-append, Chain, IsHeap, Disjoint, SameOutside,
  has-lt-fresh,
}
use name_spread.Timers.{or_null}
use name_spread.Pnr.Requesters.{occurs, enlist}
use name_spread.Protocol.Lists.{Requesters, IsPnrs, IsPnrs-replace, joined, answered}

nil_of_head : (h : Heap) (cs : Cells) → Chain h cs → head_of cs ≡ null → cs ≡ []
nil_of_head h [] c e = refl
nil_of_head h ((a, v) ∷ cs) c e = absurd (omega (arith, c.0, e))

if_same : (b : Bool) (n : ℕ) (x : ℕ) → (b ≡ true → n ≡ x) → n ≡ (if b then x else n)
if_same true n x h = h refl
if_same false n x h = refl

or_null-if :
    (b : Bool) (o p : Option ℕ)
    → or_null (if b then o else p) ≡ (if b then or_null o else or_null p)
or_null-if true o p = refl
or_null-if false o p = refl

module _ ⦃pnr_table : Cfu ℕ⦄ ⦃timer_table : Cfu Str⦄ where
  module _ (reqs : Requesters) (heap : Heap) (pnrs : pnr_table.Table)
      (is : IsPnrs reqs heap pnrs) where
    -- An address with no list has no requester.
    pub none_waiting : (dst : Option Str) → or_null (pnr_table.get pnrs dst) ≡ 0 → is.cells dst ≡ []
    none_waiting dst free =
        nil_of_head heap (is.cells dst) (is.chain dst) (sym (is.head dst) ∙ free)

    nobody : (dst : Option Str) → or_null (pnr_table.get pnrs dst) ≡ 0 → reqs dst ≡ []
    nobody dst free = sym (is.vals dst) ∙ ap values (none_waiting dst free)

    -- The nodes of a longer list are not in another address's list.
    not_in :
        (dst r k : Option Str)
        → key_eq dst k ≡ false
        → Disjoint (is.cells k) (is.cells dst ++ (heap.fresh, r) ∷ [])
    not_in dst r k ne a i = rw (has-append a (is.cells dst) ((heap.fresh, r) ∷ [])) (
        ground (
          arith,
          has-lt-fresh heap is.is_heap (is.cells k) (is.chain k) a i,
          is.apart k dst (ground (arith, ne, key_eq_iff dst k, key_eq_iff k dst)) a i,
        ))

    enlisted :
        (dst r : Option Str)
        → occurs r (reqs dst) ≡ false
        → enlist r (reqs dst) ≡ values (is.cells dst ++ (heap.fresh, r) ∷ [])
    enlisted dst r other =
        rw other
          (sym (values-append (is.cells dst) heap.fresh r ∙ ap (λ vs. vs ++ r ∷ []) (is.vals dst)))

    heads-put :
        (dst : Option Str) (p : ℕ) (k : Option Str)
        → or_null (pnr_table.get (pnr_table.put pnrs dst p) k)
          ≡ (if key_eq dst k then p else or_null (pnr_table.get pnrs k))
    heads-put dst p k =
        ap or_null (pnr_table.get-put pnrs dst p k) ∙ or_null-if (key_eq dst k) (some p) _

    -- Deleting an address's entry answers it; its nodes stay in the heap.
    pub IsPnrs-answered :
        (dst : Str) → IsPnrs (answered (some dst) reqs) heap (pnr_table.delete pnrs dst)
    IsPnrs-answered dst =
        IsPnrs-replace reqs (answered (some dst) reqs) heap heap pnrs (pnr_table.delete pnrs dst)
          (some dst) [] is tt is.is_heap (λ p o. refl) (λ k ne a i. refl)
          (λ k.
            ap or_null (pnr_table.get-delete pnrs dst k) ∙ or_null-if (key_eq (some dst) k) none _)
          (λ k. refl)

    -- A new list of one requester.
    pub IsPnrs-opened :
        (dst r : Option Str) (g : Heap)
        → or_null (pnr_table.get pnrs dst) ≡ 0
        → Chain g ((heap.fresh, r) ∷ [])
        → IsHeap g
        → SameOutside ((heap.fresh, r) ∷ []) heap g
        → IsPnrs (joined dst r reqs) g (pnr_table.put pnrs dst heap.fresh)
    IsPnrs-opened dst r g free c is_heap same =
        IsPnrs-replace reqs (joined dst r reqs) heap g pnrs (pnr_table.put pnrs dst heap.fresh) dst
          ((heap.fresh, r) ∷ []) is c is_heap same
          (λ k ne a i. ground (arith, has-lt-fresh heap is.is_heap (is.cells k) (is.chain k) a i))
          (heads-put dst heap.fresh)
          (λ k. ap (λ vs. if key_eq dst k then enlist r vs else reqs k) (nobody dst free))

    -- Without memory the entry is NULL, and nobody waits for the address.
    pub IsPnrs-failed :
        (dst : Option Str)
        → or_null (pnr_table.get pnrs dst) ≡ 0
        → IsPnrs reqs heap (pnr_table.put pnrs dst 0)
    IsPnrs-failed dst free =
        IsPnrs-replace reqs reqs heap heap pnrs (pnr_table.put pnrs dst 0) dst [] is tt is.is_heap
          (λ p o. refl) (λ k ne a i. refl) (heads-put dst 0)
          (λ k. elim (Bool-cases (key_eq dst k)) [
            | inl e ↦ rw e (ap reqs (sym ((key_eq_iff dst k).0 e)) ∙ nobody dst free)
            | inr ne ↦ rw ne refl
          ])

    -- A longer list.
    pub IsPnrs-joined :
        (dst r : Option Str) (g : Heap)
        → occurs r (reqs dst) ≡ false
        → Chain g (is.cells dst ++ (heap.fresh, r) ∷ [])
        → IsHeap g
        → SameOutside (is.cells dst ++ (heap.fresh, r) ∷ []) heap g
        → head_of (is.cells dst ++ (heap.fresh, r) ∷ []) ≡ head_of (is.cells dst)
        → IsPnrs (joined dst r reqs) g pnrs
    IsPnrs-joined dst r g other c is_heap same kept =
        IsPnrs-replace reqs (joined dst r reqs) heap g pnrs pnrs dst
          (is.cells dst ++ (heap.fresh, r) ∷ []) is c is_heap same
          (λ k ne a i. not_in dst r k ne a i)
          (λ k. elim (Bool-cases (key_eq dst k)) [
            | inl e ↦ rw e (
                ap (λ x. or_null (pnr_table.get pnrs x)) (sym ((key_eq_iff dst k).0 e))
                ∙ is.head dst
                ∙ sym kept)
            | inr ne ↦ rw ne refl
          ])
          (λ k. ap (λ vs. if key_eq dst k then vs else reqs k) (enlisted dst r other))
