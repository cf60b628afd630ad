-- ===== src/Pnr/Requesters.antt =====
-- The loops over a list of requesters: exists_in_list and respond_to_pnrs.
use name_spread.Prelude.{if◌then◌else◌}
use name_spread.Prelude.{
  ℕ, append-nil, map, append_assoc, zero, suc, ◌+◌, ◌<◌, ◌≡◌, refl, Bool, true, false, ◌||◌, Option,
  none, some, List, [], ◌∷◌, ◌++◌, length, arith, Bool-cases, inl, inr,
}
use name_spread.Text.{Str, space, after_last}
use name_spread.Machine.Run.{ok, fault, Cmd, and_then}
use name_spread.Machine.Cfu.{Cfu}
use name_spread.Machine.System.{System}
use name_spread.Machine.World.{World, Heap}
use name_spread.Logger.{CanLog}
use name_spread.Logger.Yields.{quiet, Yields, Yields-bind, Yields-here, log-Yields, log-then}
use name_spread.LinkedList.{node, load}
use name_spread.LinkedList.Chain.{
  Cells, head_of, values, Chain, IsHeap, load-ok, not_null, length-lt-fresh,
}
use name_spread.Network.{with_socket, parse_addr}
use name_spread.Timers.{pnr}
use name_spread.Pnr.{
  on_heap, same_val, exists_loop, exists_in_list, answer, respond_loop, respond_to_pnrs,
}

-- A value of the list has the same text.
abbrev pub occurs : Option Str → List (Option Str) → Bool
occurs elem [] = false
occurs elem (v ∷ vs) = same_val v elem || occurs elem vs

-- A requester is listed once.
abbrev pub enlist : Option Str → List (Option Str) → List (Option Str)
enlist r vs = if occurs r vs then vs else vs ++ r ∷ []

module _ ⦃pnr_table : Cfu ℕ⦄ ⦃timer_table : Cfu Str⦄ ⦃sys : System⦄ where
  -- Code over the heap, and what comes after it.
  pub on_heap-then :
      {A B : Type 0} {b : B} {v : World} (m : Cmd Heap A) (a : A) (g : Heap) (w : World)
      (l : List (Str × Str)) (p : List Bool) (k : A → Cmd World B)
      → m w.heap ≡ ok a g
      → Yields b v (k a (quiet (record w { heap = g }) l p))
      → Yields b v (and_then (on_heap m (quiet w l p)) k)
  on_heap-then m a g w l p k e next = rw (e, and_then) next

  pub on_heap-bind :
      {A B : Type 0} (m : Cmd Heap A) (a : A) (g : Heap) (w : World) (k : A → Cmd World B)
      → m w.heap ≡ ok a g
      → and_then (on_heap m w) k ≡ k a (record w { heap = g })
  on_heap-bind m a g w k e = rw (e, and_then) refl

  pub on_heap-fault :
      {A B : Type 0} (m : Cmd Heap A) (w : World) (k : A → Cmd World B)
      → m w.heap ≡ fault
      → and_then (on_heap m w) k ≡ fault
  on_heap-fault m w k e = rw (e, and_then) refl

  exists_loop-occurs :
      (w : World) (l : List (Str × Str)) (p : List Bool) (elem : Option Str) (k : ℕ) (cs : Cells)
      → CanLog w
      → Chain w.heap cs
      → length cs < k
      → Yields (occurs elem (values cs)) w (exists_loop k (head_of cs) elem (quiet w l p))
  unfolding exists_loop
  exists_loop-occurs w l p elem zero cs can c lt = absurd (omega (arith, lt))
  exists_loop-occurs w l p elem (suc k) [] can c lt = log-then _ w w l p _ can (Yields-here false w)
  exists_loop-occurs w l p elem (suc k) ((a, v) ∷ cs) can (pos, at, out, c) lt =
      rw (not_null a pos) (
        on_heap-then (load a) (node v (head_of cs)) w.heap w l p _
          (load-ok w.heap a (node v (head_of cs)) pos at)
          (log-then _ w w l p _ can λ l p. elim (Bool-cases (same_val v elem)) [
            | inl e ↦ rw e (Yields-here true w l p)
            | inr e ↦ rw e (
                log-then _ w w l p _ can λ l p.
                  log-then _ w w l p _ can
                    λ l p. exists_loop-occurs w l p elem k cs can c (omega arith))
          ]))

  -- On a list in the heap, with the log writable, exists_in_list returns whether a value has the
  -- text that is looked for, and changes nothing but the log; a NULL value is never found.
  pub exists_in_list-occurs :
      (w : World) (elem : Option Str) (cs : Cells)
      → CanLog w
      → IsHeap w.heap
      → Chain w.heap cs
      → Yields (occurs elem (values cs)) w (exists_in_list (head_of cs) elem w)
  unfolding exists_in_list
  exists_in_list-occurs w elem cs can is c =
      Yields-bind _ (log-Yields _ w can)
        λ l p. exists_loop-occurs w l p elem w.heap.fresh cs can c (length-lt-fresh w.heap is cs c)

  -- The addresses that the requesters are answered at: none for a local request.
  pub data Reached : List (Option Str) → List ℕ → Type 0 where
    all : Reached [] []
    local : {vs : List (Option Str)} {tos : List ℕ} → Reached vs tos → Reached (none ∷ vs) tos
    remote :
        {requester : Str} {to : ℕ} {vs : List (Option Str)} {tos : List ℕ}
        → sys.inet_aton requester ≡ some to
        → Reached vs tos
        → Reached (some requester ∷ vs) (to ∷ tos)

  -- One datagram to each address, counted.
  abbrev pub with_replies : Str → List ℕ → World → World
  with_replies text tos w = record w {
    sent = w.sent ++ map (λ to. record { to = to; payload = text ++ 0 ∷ [] }) tos;
    total_nreps = w.total_nreps + length tos;
  }

  with_replies-cons :
      (text : Str) (to : ℕ) (tos : List ℕ) (w : World)
      → with_replies text tos (with_replies text (to ∷ []) w) ≡ with_replies text (to ∷ tos) w
  with_replies-cons text to tos w =
      let sum : w.total_nreps + 1 + length tos ≡ w.total_nreps + suc (length tos) = omega arith in
      rw
        (
          append_assoc w.sent (record { to = to; payload = text ++ 0 ∷ [] } ∷ [])
              (map (λ to. record { to = to; payload = text ++ 0 ∷ [] }) tos),
          sum,
        )
        refl

  answer-reply :
      (w : World) (l : List (Str × Str)) (p : List Bool) (old to : ℕ) (text name requester : Str)
      → CanLog w
      → sys.inet_aton requester ≡ some to
      → after_last space text ≡ some name
      → Yields to (with_replies text (to ∷ []) w) (answer old text (some requester) (quiet w l p))
  unfolding answer parse_addr
  answer-reply w l p old to text name requester can valid named =
      rw (valid, named) (log-then _ (with_replies text (to ∷ []) w) _ l p _ can (Yields-here to _))

  respond_loop-Reached :
      (w : World) (l : List (Str × Str)) (p : List Bool) (k old : ℕ) (cs : Cells) (tos : List ℕ)
      (text name : Str)
      → CanLog w
      → Chain w.heap cs
      → length cs < k
      → Reached (values cs) tos
      → after_last space text ≡ some name
      → Yields tt (with_replies text tos w) (respond_loop k (head_of cs) old text (quiet w l p))
  unfolding respond_loop
  respond_loop-Reached w l p zero old cs tos text name can c lt r named = absurd (omega (arith, lt))
  respond_loop-Reached w l p (suc k) old [] [] text name can c lt all named =
      let sum : w.total_nreps + 0 ≡ w.total_nreps = omega arith in
      record { logs = l; popens = p; run = rw (append-nil w.sent, sum) refl }
  respond_loop-Reached w l p (suc k) old [] (to ∷ tos) text name can c lt r named = elim r [ ]
  respond_loop-Reached w l p (suc k) old ((a, some v) ∷ cs) [] text name can c lt r named =
      elim r [ ]
  respond_loop-Reached w l p (suc k) old ((a, none) ∷ cs) tos text name can (pos, at, out, c) lt
        (local r) named =
      rw (not_null a pos) (
        on_heap-then (load a) (node none (head_of cs)) w.heap w l p _
          (load-ok w.heap a (node none (head_of cs)) pos at)
          (respond_loop-Reached w l p k old cs tos text name can c (omega arith) r named))
  respond_loop-Reached w l p (suc k) old ((a, some v) ∷ cs) (to ∷ tos) text name can
        (pos, at, out, c) lt (remote valid r) named =
      rw (not_null a pos) (
        on_heap-then (load a) (node (some v) (head_of cs)) w.heap w l p _
          (load-ok w.heap a (node (some v) (head_of cs)) pos at)
          (Yields-bind _ (answer-reply w l p old to text name v can valid named) λ l p.
            rw (with_replies-cons text to tos w) at (
              respond_loop-Reached (with_replies text (to ∷ []) w) l p k to cs tos text name can c
                (omega arith) r named)))

  -- respond_to_pnrs sends the message to each requester of the address in order, except for local
  -- requests, counts the datagrams, and returns.
  pub respond_to_pnrs-Reached :
      (w : World) (l : List (Str × Str)) (p : List Bool) (dst_addr : Option Str) (cs : Cells)
      (tos : List ℕ) (text name : Str)
      → CanLog w
      → IsHeap w.heap
      → Chain w.heap cs
      → pnr dst_addr w ≡ head_of cs
      → Reached (values cs) tos
      → after_last space text ≡ some name
      → Yields tt
          (with_replies text tos (with_socket w))
          (respond_to_pnrs dst_addr text (quiet w l p))
  unfolding respond_to_pnrs
  respond_to_pnrs-Reached w l p dst_addr cs tos text name can is c at r named = rw at (
      respond_loop-Reached (with_socket w) l p w.heap.fresh 0 cs tos text name can c
        (length-lt-fresh w.heap is cs c) r named)
