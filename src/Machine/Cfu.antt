-- ===== src/Machine/Cfu.antt =====
-- What the program relies on of the bundled hash table library (src/libcfu/cfuhash.c): a table of
-- `void *` under C strings. The library is not modelled: it is this interface, with its laws.
use name_spread.Prelude.{
  ◌≡◌, Bool, true, false, Option, none, some, List, if◌then◌else◌, ◌↔◌, arith,
}
use name_spread.Text.{Str, str_eq, str_eq_iff}

-- Two keys are the same text, or both NULL.
unfoldable pub key_eq : Option Str → Option Str → Bool
key_eq none none = true
key_eq (some s) (some t) = str_eq s t
key_eq _ _ = false

pub key_eq_iff : (j k : Option Str) → (key_eq j k ≡ true) ↔ (j ≡ k)
unfolding key_eq
key_eq_iff none none = ground arith
key_eq_iff none (some t) = ground arith
key_eq_iff (some s) none = ground arith
key_eq_iff (some s) (some t) = ground (arith, str_eq_iff s t)

-- A table of data `V`. `get` is cfuhash_get, `put` cfuhash_put, `delete` cfuhash_delete, and `keys`
-- cfuhash_keys. cfuhash_put replaces an entry of its key. cfuhash_delete calls strlen on its key,
-- so it takes no NULL key.
pub record Cfu (V : Type 0) : Type 1 where
  pub Table : Type 0
  pub empty : Table
  pub get : Table → Option Str → Option V
  pub put : Table → Option Str → V → Table
  pub delete : Table → Str → Table
  pub keys : Table → List (Option Str)
  pub get-empty : (k : Option Str) → get empty k ≡ none
  pub get-put :
      (t : Table) (k : Option Str) (v : V) (j : Option Str)
      → get (put t k v) j ≡ (if key_eq k j then some v else get t j)
  pub get-delete :
      (t : Table) (k : Str) (j : Option Str)
      → get (delete t k) j ≡ (if key_eq (some k) j then none else get t j)
