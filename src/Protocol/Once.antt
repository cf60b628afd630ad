-- ===== src/Protocol/Once.antt =====
-- The list of an address among the pending requests, in the states that the daemon comes to.
use name_spread.Prelude.{
  ℕ, ◌≡◌, refl, false, Option, none, some, List, [], ◌∷◌, ◌++◌, subst, sym, arith, inl, inr,
  Bool-cases,
}
use name_spread.Text.{Str, str_eq, str_eq_iff}
use name_spread.Machine.Cfu.{Cfu, key_eq}
use name_spread.Machine.System.{System}
use name_spread.Machine.World.{World}
use name_spread.LinkedList.Chain.{Cells, head_of, values, Chain, IsHeap}
use name_spread.Timers.{pnr}
use name_spread.Pnr.{same_val}
use name_spread.Pnr.Requesters.{occurs, enlist}
use name_spread.Daemon.Events.{Reaches}
use name_spread.Protocol.Lists.{Requesters, Evolves, begun, joins, answers}
use name_spread.Protocol.Reached.{Reaches-IsSound}

-- No text stands twice in the list.
abbrev pub Distinct : List (Option Str) → Type 0
Distinct [] = Unit
Distinct (v ∷ vs) = (occurs v vs ≡ false) × Distinct vs

same_val_comm : (u v : Option Str) → same_val u v ≡ same_val v u
unfolding same_val
same_val_comm none none = refl
same_val_comm none (some t) = refl
same_val_comm (some s) none = refl
same_val_comm (some s) (some t) = elim (Bool-cases (str_eq s t)) [
  | inl e ↦ ground (arith, e, str_eq_iff s t, str_eq_iff t s)
  | inr ne ↦ ground (arith, ne, str_eq_iff s t, str_eq_iff t s)
]

occurs-append :
    (u v : Option Str) (vs : List (Option Str))
    → occurs u vs ≡ false
    → same_val v u ≡ false
    → occurs u (vs ++ v ∷ []) ≡ false
occurs-append u v [] out ne = ground (arith, ne)
occurs-append u v (x ∷ vs) out ne = ground (arith, out, occurs-append u v vs)

Distinct-append :
    (vs : List (Option Str)) (r : Option Str)
    → occurs r vs ≡ false
    → Distinct vs
    → Distinct (vs ++ r ∷ [])
Distinct-append [] r out d = (refl, tt)
Distinct-append (v ∷ vs) r out (once, d) = (
  occurs-append v r vs once (ground (arith, out, same_val_comm r v)),
  Distinct-append vs r (ground (arith, out)) d,
)

Distinct-enlist : (vs : List (Option Str)) (r : Option Str) → Distinct vs → Distinct (enlist r vs)
Distinct-enlist vs r d = elim (Bool-cases (occurs r vs)) [
  | inl e ↦ rw e d
  | inr out ↦ rw out (Distinct-append vs r out d)
]

Evolves-Distinct :
    (p q : Requesters)
    → Evolves p q
    → ((k : Option Str) → Distinct (p k))
    → (k : Option Str) → Distinct (q k)
Evolves-Distinct p q begun d k = d k
Evolves-Distinct p q (joins {reqs'} dst r e) d k = elim (Bool-cases (key_eq dst k)) [
  | inl same ↦ rw same (Distinct-enlist (reqs' dst) r (Evolves-Distinct p reqs' e d dst))
  | inr ne ↦ rw ne (Evolves-Distinct p reqs' e d k)
]
Evolves-Distinct p q (answers {reqs'} dst e) d k = elim (Bool-cases (key_eq dst k)) [
  | inl same ↦ rw same tt
  | inr ne ↦ rw ne (Evolves-Distinct p reqs' e d k)
]

module _ ⦃pnr_table : Cfu ℕ⦄ ⦃timer_table : Cfu Str⦄ ⦃sys : System⦄ where
  -- If the heap has handed out no address from `fresh` on when the daemon starts, then in every state that
  -- it comes to each address's entry points to a chain of nodes that ends with NULL, in which no two
  -- nodes hold the same text.
  pub Reaches-Distinct :
      (argument dst : Option Str) (w v : World)
      → IsHeap w.heap
      → Reaches argument w v
      → (cs : Cells) × Chain v.heap cs × (pnr dst v ≡ head_of cs) × Distinct (values cs)
  Reaches-Distinct argument dst w v is r =
      let (g, good, lead) = Reaches-IsSound argument w v is r in
      (
        good.lists.cells dst,
        good.lists.chain dst,
        good.lists.head dst,
        subst Distinct (sym (good.lists.vals dst))
            (Evolves-Distinct (λ k. []) g lead (λ k. tt) dst),
      )
