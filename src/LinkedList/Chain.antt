-- ===== src/LinkedList/Chain.antt =====
-- What a list in the heap stands for: its nodes in order, each with its address and its value.
use name_spread.Prelude.{
  ap, ◌++◌, ℕ, zero, suc, ◌+◌, ◌-◌, ◌<◌, ◌≤◌, ◌≡◌, refl, Bool, true, false, ◌||◌, Option, none,
  some, List, [], ◌∷◌, ◌==◌, if◌then◌else◌, length, arith, Bool-cases, inl, inr,
}
use name_spread.Text.{Str}
use name_spread.Machine.Run.{ok}
use name_spread.Machine.World.{Node, Heap}
use name_spread.LinkedList.{null, node, write, load, set_next, set_val, free}

abbrev pub Cells : Type 0
Cells = List (ℕ × Option Str)

abbrev pub head_of : Cells → ℕ
head_of [] = null
head_of ((a, v) ∷ cs) = a

abbrev pub values : Cells → List (Option Str)
values [] = []
values ((a, v) ∷ cs) = v ∷ values cs

pub values-append :
    (cs : Cells) (a : ℕ) (v : Option Str) → values (cs ++ (a, v) ∷ []) ≡ values cs ++ v ∷ []
values-append [] a v = refl
values-append ((b, u) ∷ cs) a v = ap (λ vs. u ∷ vs) (values-append cs a v)

abbrev pub has : ℕ → Cells → Bool
has p [] = false
has p ((a, v) ∷ cs) = p == a || has p cs

-- From `head_of cs` the next pointers lead through the distinct nodes `cs` to NULL.
abbrev pub Chain : Heap → Cells → Type 0
Chain h [] = Unit
Chain h ((a, v) ∷ cs) =
    (0 < a) × (h.cell a ≡ some (node v (head_of cs))) × (has a cs ≡ false) × Chain h cs

-- No address from `fresh` on has been handed out, and NULL never is.
pub record IsHeap (h : Heap) : Type 0 where
  pub fresh_pos : 0 < h.fresh
  pub unused : (a : ℕ) → h.fresh ≤ a → h.cell a ≡ none

-- Two lists share no node.
abbrev pub Disjoint : Cells → Cells → Type 0
Disjoint cs ds = (a : ℕ) → has a cs ≡ true → has a ds ≡ false

pub has-append : (p : ℕ) (cs ds : Cells) → has p (cs ++ ds) ≡ (has p cs || has p ds)
has-append p [] ds = refl
has-append p ((a, v) ∷ cs) ds = ground (arith, has-append p cs ds)

-- `g` differs from `h` at most at the nodes of `cs`.
abbrev pub SameOutside : Cells → Heap → Heap → Type 0
SameOutside cs h g = (p : ℕ) → has p cs ≡ false → g.cell p ≡ h.cell p

pub not_null : (p : ℕ) → 0 < p → (p == null) ≡ false
not_null p pos = ground arith

module _ (h : Heap) where
  -- A list is not touched by a change elsewhere.
  pub Chain-frame :
      (g : Heap) (cs : Cells)
      → ((a : ℕ) → has a cs ≡ true → g.cell a ≡ h.cell a)
      → Chain h cs
      → Chain g cs
  Chain-frame g [] same c = tt
  Chain-frame g ((a, v) ∷ cs) same (pos, at, out, rest) =
      (pos, ground (arith, same a), out, Chain-frame g cs (λ b i. same b (ground arith)) rest)

  pub load-ok : (p : ℕ) (n : Node) → 0 < p → h.cell p ≡ some n → load p h ≡ ok n h
  unfolding load
  load-ok p n pos at = ground arith

  pub set_next-ok :
      (p q : ℕ) (n : Node)
      → 0 < p
      → h.cell p ≡ some n
      → set_next p q h ≡ ok tt (record h { cell = write h.cell p (some (node n.val q)) })
  unfolding set_next
  set_next-ok p q n pos at = ground arith

  pub set_val-ok :
      (p : ℕ) (v : Option Str) (n : Node)
      → 0 < p
      → h.cell p ≡ some n
      → set_val p v h ≡ ok tt (record h { cell = write h.cell p (some (node v n.next)) })
  unfolding set_val
  set_val-ok p v n pos at = ground arith

  pub free-ok :
      (p : ℕ) (n : Node)
      → 0 < p
      → h.cell p ≡ some n
      → free p h ≡ ok tt (record h { cell = write h.cell p none; room = h.room + 1 })
  unfolding free
  free-ok p n pos at = ground arith

  pub has-lt-fresh : IsHeap h → (cs : Cells) → Chain h cs → (a : ℕ) → has a cs ≡ true → a < h.fresh
  has-lt-fresh is [] c a i = cc
  has-lt-fresh is ((b, v) ∷ cs) (pos, at, out, rest) a i =
      ground (arith, is.unused a, has-lt-fresh is cs rest a)

  pub not-has-fresh : IsHeap h → (cs : Cells) → Chain h cs → has h.fresh cs ≡ false
  not-has-fresh is cs c = elim (Bool-cases (has h.fresh cs)) [
    | inl i ↦ absurd (omega (arith, has-lt-fresh is cs c h.fresh i))
    | inr o ↦ o
  ]

without : ℕ → Cells → Cells
without a [] = []
without a ((b, v) ∷ cs) = let rest = without a cs in if a == b then rest else (b, v) ∷ rest

has-without : (a b : ℕ) (cs : Cells) → has b cs ≡ false → has b (without a cs) ≡ false
unfolding without
has-without a b [] out = refl
has-without a b ((c, v) ∷ cs) out = ground (arith, has-without a b cs)

has-without_self : (a : ℕ) (cs : Cells) → has a (without a cs) ≡ false
unfolding without
has-without_self a [] = refl
has-without_self a ((c, v) ∷ cs) = ground (arith, has-without_self a cs)

abbrev Distinct : Cells → Type 0
Distinct [] = Unit
Distinct ((a, v) ∷ cs) = (has a cs ≡ false) × Distinct cs

without-none : (a : ℕ) (cs : Cells) → has a cs ≡ false → without a cs ≡ cs
unfolding without
without-none a [] out = refl
without-none a ((c, v) ∷ cs) out = ground (arith, without-none a cs)

length-without : (a : ℕ) (cs : Cells) → Distinct cs → length cs ≤ length (without a cs) + 1
unfolding without
length-without a [] d = omega arith
length-without a ((c, v) ∷ cs) d = ground (arith, length-without a cs, without-none c cs)

Distinct-without : (a : ℕ) (cs : Cells) → Distinct cs → Distinct (without a cs)
unfolding without
Distinct-without a [] d = tt
Distinct-without a ((c, v) ∷ cs) d = elim (Bool-cases (a == c)) [
  | inl e ↦ rw e (Distinct-without a cs d.1)
  | inr e ↦ rw e (has-without a c cs d.0, Distinct-without a cs d.1)
]

-- Distinct addresses below `n + 1`, NULL excluded, are at most `n`.
length-le_of_Distinct :
    (n : ℕ) (cs : Cells)
    → Distinct cs
    → has 0 cs ≡ false
    → ((a : ℕ) → n < a → has a cs ≡ false)
    → length cs ≤ n
length-le_of_Distinct zero [] d pos small = omega arith
length-le_of_Distinct zero ((a, v) ∷ cs) d pos small = ground (arith, small a)
length-le_of_Distinct (suc n) cs d pos small = omega (
  arith,
  length-without (suc n) cs d,
  length-le_of_Distinct n (without (suc n) cs) (Distinct-without (suc n) cs d)
      (has-without (suc n) 0 cs pos)
      (λ a lt. elim (Bool-cases (a == suc n)) [
        | inl e ↦ ground (arith, has-without_self (suc n) cs)
        | inr e ↦ has-without (suc n) a cs (small a (ground arith))
      ]),
)

Chain-Distinct : (h : Heap) (cs : Cells) → Chain h cs → Distinct cs
Chain-Distinct h [] c = tt
Chain-Distinct h ((a, v) ∷ cs) (pos, at, out, rest) = (out, Chain-Distinct h cs rest)

not-has-null : (h : Heap) (cs : Cells) → Chain h cs → has 0 cs ≡ false
not-has-null h [] c = refl
not-has-null h ((a, v) ∷ cs) (pos, at, out, rest) = ground (arith, not-has-null h cs rest)

-- The rounds given to a loop suffice: a list has fewer nodes than there are addresses.
pub length-lt-fresh : (h : Heap) → IsHeap h → (cs : Cells) → Chain h cs → length cs < h.fresh
length-lt-fresh h is cs c =
    let short =
      length-le_of_Distinct (h.fresh - 1) cs (Chain-Distinct h cs c) (not-has-null h cs c) (λ a lt.
        elim (Bool-cases (has a cs)) [
          | inl i ↦ absurd (omega (arith, has-lt-fresh h is cs c a i))
          | inr o ↦ o
        ]) in
    omega (arith, short, is.fresh_pos)
