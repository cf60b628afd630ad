-- ===== src/Responder/Messages.antt =====
-- The texts of requests and replies, as the receiver takes them apart.
use name_spread.Prelude.{
  append_assoc, length-append, replicate, ◌<◌, ◌⊎◌, inl, inr, ℕ, ◌≤◌, ◌≡◌, refl, true, false, none,
  some, List, [], ◌∷◌, ◌++◌, ◌==◌, length, arith, ap, take, drop, zero, suc,
}
use name_spread.Text.{Str, codes, space, strtok, strstr, starts_with, after_last, c_string, Lacks}
use name_spread.Text.Tokens.{IsToken, strtok-front, strtok-last}
use name_spread.Machine.Cfu.{Cfu}
use name_spread.Machine.System.{System}
use name_spread.Machine.World.{World}
use name_spread.Network.{nreq_text, nrep_text, nrep_max_len}
use name_spread.Responder.{received, cleared, listen_step, handle_message}

-- An address or a name in a message: one word without a newline.
pub record IsWord (s : Str) : Type 0 where
  pub token : IsToken space s
  pub one_line : Lacks 10 s

pub tag-IsToken : (c : ℕ) → (c == space) ≡ false → IsToken space (78 ∷ 82 ∷ 69 ∷ c ∷ [])
tag-IsToken c h = record { some_byte = λ e. ground arith; lacks = (refl, (refl, (refl, (h, tt)))) }

pub request-words :
    (dst : Str) → IsWord dst → strtok space (strtok space (nreq_text (some dst))).1 ≡ (some dst, [])
request-words dst is =
    rw (strtok-front space (codes "NREQ") dst (tag-IsToken 81 refl))
      (strtok-last space dst is.token)

pub reply-words :
    (dst name : Str)
    → IsWord dst
    → strtok space (strtok space (nrep_text (some dst) (some name))).1 ≡ (some dst, name)
reply-words dst name is =
    rw
      (
        append_assoc (codes "NREP " ++ dst) (space ∷ []) name,
        strtok-front space (codes "NREP") (dst ++ space ∷ name) (tag-IsToken 80 refl),
      )
      (strtok-front space dst name is.token)

after_last-none : (c : ℕ) (t : Str) → Lacks c t → after_last c t ≡ none
unfolding after_last
after_last-none c [] h = refl
after_last-none c (a ∷ t) h = rw (after_last-none c t h.1, h.0) refl

same_byte : (c : ℕ) → (c == c) ≡ true
same_byte c = ground arith

pub after_last-token : (c : ℕ) (s t : Str) → Lacks c t → after_last c (s ++ c ∷ t) ≡ some t
unfolding after_last
after_last-token c [] t h = rw (after_last-none c t h, same_byte c) refl
after_last-token c (a ∷ s) t h = rw (after_last-token c s t h) refl

-- The name in a reply.
pub reply-name :
    (dst name : Str) → IsWord name → after_last space (nrep_text (some dst) (some name)) ≡ some name
reply-name dst name is =
    rw (append_assoc (codes "NREP " ++ dst) (space ∷ []) name)
      (after_last-token space (codes "NREP " ++ dst) name is.token.lacks)

pub nreq_text-strstr : (dst : Str) → strstr (nreq_text (some dst)) (codes "NREQ") ≡ true
unfolding strstr starts_with
nreq_text-strstr dst = refl

pub nrep_text-strstr :
    (dst name : Str) → strstr (nrep_text (some dst) (some name)) (codes "NREP") ≡ true
unfolding strstr starts_with
nrep_text-strstr dst name = refl

c_string-front : (s rest : List ℕ) → Lacks 0 s → c_string (s ++ 0 ∷ rest) ≡ some s
unfolding c_string
c_string-front [] rest h = refl
c_string-front (b ∷ s) rest h = rw (c_string-front s rest h.1, h.0) refl

take-all : (n : ℕ) (xs : List ℕ) → length xs ≤ n → take n xs ≡ xs
take-all zero [] h = refl
take-all zero (x ∷ xs) h = absurd (omega arith)
take-all (suc n) [] h = refl
take-all (suc n) (x ∷ xs) h = ap (λ ys. x ∷ ys) (take-all n xs (omega arith))

drop-zeros : (n m : ℕ) → n < m → (rest : List ℕ) × (drop n (replicate m 0) ≡ 0 ∷ rest)
drop-zeros n zero lt = absurd (omega (arith, lt))
drop-zeros zero (suc m) lt = (replicate m 0, refl)
drop-zeros (suc n) (suc m) lt = drop-zeros n m (omega arith)

module _ ⦃pnr_table : Cfu ℕ⦄ ⦃timer_table : Cfu Str⦄ ⦃sys : System⦄ where
  -- A text without NUL that was sent with a NUL behind it, both within NREP_MAX_LEN bytes, is what
  -- the receiver handles, whatever its buffer held before.
  pub listen_step-text :
      (old : List ℕ) (requester : ℕ) (text : Str) (w : World)
      → Lacks 0 text
      → length (text ++ 0 ∷ []) ≤ nrep_max_len
      → listen_step old requester (text ++ 0 ∷ []) w ≡ handle_message requester text w
  unfolding listen_step received
  listen_step-text old requester text w clean fit =
      rw
        (
          take-all nrep_max_len (text ++ 0 ∷ []) fit,
          append_assoc text (0 ∷ []) (drop (length (text ++ 0 ∷ [])) old),
          c_string-front text (drop (length (text ++ 0 ∷ [])) old) clean,
        )
        refl

  -- The text as the payload of a datagram that is shorter than the buffer, with a NUL behind it or
  -- without one.
  abbrev pub Carries : Str → List ℕ → Type 0
  Carries text bytes =
      Lacks 0 text × (length text < nrep_max_len) × ((bytes ≡ text) ⊎ (bytes ≡ text ++ 0 ∷ []))

  -- In the buffer that memset has cleared the text ends where the datagram does.
  listen_step-bare :
      (requester : ℕ) (text : Str) (w : World)
      → Lacks 0 text
      → length text < nrep_max_len
      → listen_step cleared requester text w ≡ handle_message requester text w
  unfolding listen_step received
  listen_step-bare requester text w clean short =
      let (rest, e) = drop-zeros (length text) nrep_max_len short in
      rw (take-all nrep_max_len text (omega (arith, short)), e, c_string-front text rest clean) refl

  pub listen_step-Carries :
      (requester : ℕ) (text : Str) (bytes : List ℕ) (w : World)
      → Carries text bytes
      → listen_step cleared requester bytes w ≡ handle_message requester text w
  listen_step-Carries requester text bytes w (clean, short, inl bare) =
      rw bare (listen_step-bare requester text w clean short)
  listen_step-Carries requester text bytes w (clean, short, inr ended) = rw ended (
      listen_step-text cleared requester text w clean
        (omega (arith, short, length-append text (0 ∷ []))))
