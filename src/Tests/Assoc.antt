-- ===== src/Tests/Assoc.antt =====
-- A table that meets the interface of the hash table library.
use name_spread.Prelude.{◌≡◌, refl, Option, none, some, List, [], ◌∷◌, if◌then◌else◌, arith}
use name_spread.Text.{Str}
use name_spread.Machine.Cfu.{Cfu, key_eq, key_eq_iff}

abbrev pub Assoc : Type 0 → Type 0
Assoc V = List (Option Str × V)

module _ {V : Type 0} where
  abbrev pub find : Assoc V → Option Str → Option V
  find [] k = none
  find ((j, v) ∷ t) k = if key_eq j k then some v else find t k

  abbrev pub without : Option Str → Assoc V → Assoc V
  without k [] = []
  without k ((j, v) ∷ t) = let rest = without k t in if key_eq k j then rest else (j, v) ∷ rest

  abbrev pub keys : Assoc V → List (Option Str)
  keys [] = []
  keys ((j, v) ∷ t) = j ∷ keys t

  pub find-without :
      (k j : Option Str) (t : Assoc V)
      → find (without k t) j ≡ (if key_eq k j then none else find t j)
  find-without k j [] = ground arith
  find-without k j ((i, v) ∷ t) =
      ground (arith, find-without k j t, key_eq_iff k i, key_eq_iff i j, key_eq_iff k j)

  pub find-put :
      (t : Assoc V) (k : Option Str) (v : V) (j : Option Str)
      → find ((k, v) ∷ without k t) j ≡ (if key_eq k j then some v else find t j)
  find-put t k v j = ground (arith, find-without k j t)

abbrev pub assoc_table : (V : Type 0) → Cfu V
assoc_table V = record {
  Table = Assoc V;
  empty = [];
  get = find;
  put = λ t k v. (k, v) ∷ without k t;
  delete = λ t k. without (some k) t;
  keys = keys;
  get-empty = λ k. refl;
  get-put = find-put;
  get-delete = λ t k j. find-without (some k) j t;
}
