-- ===== src/Network/Requests.antt =====
-- request_name of src/namespread.c: what is sent, and for which addresses its array is large enough.
use name_spread.Prelude.{
  ℕ, refl, ◌+◌, ◌<◌, ◌≤◌, ◌≡◌, true, false, some, length, arith, leb, ◌⊎◌, inl, inr, Bool-cases,
}
use name_spread.Text.{Str}
use name_spread.Machine.Run.{fault}
use name_spread.Machine.Cfu.{Cfu}
use name_spread.Machine.System.{System}
use name_spread.Machine.World.{World}
use name_spread.Logger.{CanLog}
use name_spread.Logger.Yields.{Yields, log-Yields}
use name_spread.Network.{request_name, with_socket, with_packet, nreq_text, nreq_max_len}

le→leb : (a b : ℕ) → a ≤ b → leb a b ≡ true
le→leb a b h = ground arith

module _ ⦃pnr_table : Cfu ℕ⦄ ⦃timer_table : Cfu Str⦄ ⦃sys : System⦄ where
  -- The world after a request for the address has been sent to `hop`.
  abbrev pub requested : Str → ℕ → World → World
  requested dst hop w =
      let v = with_packet hop (nreq_text (some dst)) (with_socket w) in
      record v { total_nreqs = w.total_nreqs + 1 }

  -- The text of a request for the address fits the array that it is made in.
  abbrev pub FitsRequest : Str → Type 0
  FitsRequest dst = length (nreq_text (some dst)) + 1 ≤ sys.array_room nreq_max_len

  -- request_name sends one datagram to the next hop and counts it.
  pub request_name-requested :
      (dst hop : Str) (to : ℕ) (w : World)
      → CanLog w
      → sys.inet_aton hop ≡ some to
      → FitsRequest dst
      → Yields tt (requested dst to w) (request_name (some dst) (some hop) w)
  unfolding request_name
  request_name-requested dst hop to w can valid fit =
      rw (valid, le→leb _ _ fit) (log-Yields _ (requested dst to w) can)

  -- Where the compiler gives the array of the request its 21 bytes and no more, and the next hop is
  -- readable and the log writable, request_name sends its datagram for an address of at most 15 bytes; for
  -- a longer one it writes behind the array.
  pub request_name-bounds :
      (dst hop : Str) (to : ℕ) (w : World)
      → CanLog w
      → sys.inet_aton hop ≡ some to
      → sys.array_room nreq_max_len ≡ nreq_max_len
      → ((length dst ≤ 15) × Yields tt (requested dst to w) (request_name (some dst) (some hop) w))
        ⊎ ((15 < length dst) × (request_name (some dst) (some hop) w ≡ fault))
  unfolding request_name
  request_name-bounds dst hop to w can valid exact = elim (Bool-cases (leb (length dst) 15)) [
    | inl short ↦ inl (
      ground (arith, short),
      request_name-requested dst hop to w can valid (rw exact (ground (arith, short))),
    )
    | inr long ↦
        let over : leb (length (nreq_text (some dst)) + 1) nreq_max_len ≡ false =
          ground (arith, long) in
        inr (ground (arith, long), rw (valid, exact, over) refl)
  ]
