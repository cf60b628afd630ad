-- ===== src/Text/Tokens.antt =====
-- What strtok finds.
use name_spread.Prelude.{ℕ, ◌≡◌, refl, ◌≢◌, some, [], ◌∷◌, ◌++◌, arith}
use name_spread.Text.{Str, Lacks, before, after, skip, strtok}

-- A token for the delimiter `d`: not empty, and `d` does not occur in it.
pub record IsToken (d : ℕ) (s : Str) : Type 0 where
  pub some_byte : s ≢ []
  pub lacks : Lacks d s

before-token : (d : ℕ) (s rest : Str) → Lacks d s → before d (s ++ d ∷ rest) ≡ s
unfolding before
before-token d [] rest h = ground arith
before-token d (c ∷ s) rest h = ground (arith, before-token d s rest)

after-token : (d : ℕ) (s rest : Str) → Lacks d s → after d (s ++ d ∷ rest) ≡ rest
unfolding after
after-token d [] rest h = ground arith
after-token d (c ∷ s) rest h = ground (arith, after-token d s rest)

before-all : (d : ℕ) (s : Str) → Lacks d s → before d s ≡ s
unfolding before
before-all d [] h = refl
before-all d (c ∷ s) h = ground (arith, before-all d s)

after-all : (d : ℕ) (s : Str) → Lacks d s → after d s ≡ []
unfolding after
after-all d [] h = refl
after-all d (c ∷ s) h = ground (arith, after-all d s)

-- A token at the front is cut off with the delimiter behind it.
pub strtok-front : (d : ℕ) (s rest : Str) → IsToken d s → strtok d (s ++ d ∷ rest) ≡ (some s, rest)
unfolding skip strtok
strtok-front d [] rest t = elim (t.some_byte refl) [ ]
strtok-front d (c ∷ s) rest t =
    ground (arith, before-token d (c ∷ s) rest t.lacks, after-token d (c ∷ s) rest t.lacks, t.lacks)

-- The last token is the whole rest.
pub strtok-last : (d : ℕ) (s : Str) → IsToken d s → strtok d s ≡ (some s, [])
unfolding skip strtok
strtok-last d [] t = elim (t.some_byte refl) [ ]
strtok-last d (c ∷ s) t =
    ground (arith, before-all d (c ∷ s) t.lacks, after-all d (c ∷ s) t.lacks, t.lacks)
