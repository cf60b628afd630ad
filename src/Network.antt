-- ===== src/Network.antt =====
-- The datagrams that the daemon sends: request_name of src/namespread.c. The calls socket and sendto
-- are taken to succeed; no function closes the sockets.
pub mod Requests
use name_spread.Prelude.{ℕ, ◌+◌, Option, none, some, [], ◌∷◌, ◌++◌, if◌then◌else◌}
use name_spread.Text.{Str, codes, shown, fits}
use name_spread.Machine.Run.{pure, crash, need, modify, ◌>>=◌, ◌>>◌}
use name_spread.Machine.Cfu.{Cfu}
use name_spread.Machine.System.{System}
use name_spread.Machine.World.{World, M}
use name_spread.Logger.{log}

-- NREQ_MAX_LEN and NREP_MAX_LEN
abbrev pub nreq_max_len : ℕ
nreq_max_len = 21

abbrev pub nrep_max_len : ℕ
nrep_max_len = 53

-- "NREQ %s"
abbrev pub nreq_text : Option Str → Str
nreq_text dst_addr = codes "NREQ " ++ shown dst_addr

-- "NREP %s %s"
abbrev pub nrep_text : Option Str → Option Str → Str
nrep_text dst_addr name = codes "NREP " ++ shown dst_addr ++ codes " " ++ shown name

module _ ⦃pnr_table : Cfu ℕ⦄ ⦃timer_table : Cfu Str⦄ ⦃sys : System⦄ where
  abbrev pub with_socket : World → World
  with_socket w = record w { sockets = w.sockets + 1 }

  -- sendto(s, text, strlen(text) + 1, …)
  abbrev pub with_packet : ℕ → Str → World → World
  with_packet to text w = record w {
    sent = w.sent ++ record { to = to; payload = text ++ 0 ∷ [] } ∷ [];
  }

  -- The address that inet_aton leaves where `old` was, with a message if it finds none.
  unfoldable pub parse_addr : Option Str → ℕ → Str → M ℕ
  parse_addr addr old message = do
    text ← need addr
    elim (sys.inet_aton text) [ none ↦ (do log message; pure old) | some a ↦ pure a ]

  -- The message is made in an array of NREQ_MAX_LEN bytes.
  unfoldable pub request_name : Option Str → Option Str → M (Unit {0})
  unfolding parse_addr
  request_name dst_addr next_hop_addr = do
    modify with_socket
    next_hop ←
        parse_addr next_hop_addr 0
          (codes "[ ERROR ] Invalid next hop address: " ++ shown next_hop_addr ++ codes "\n")
    if fits (sys.array_room nreq_max_len) (nreq_text dst_addr) then pure tt else crash
    modify (with_packet next_hop (nreq_text dst_addr))
    modify (λ w. record w { total_nreqs = w.total_nreqs + 1 })
    log (
        codes "[NREQ->] Requesting name for "
        ++ shown dst_addr
        ++ codes " from "
        ++ shown next_hop_addr
        ++ codes "...\n")
