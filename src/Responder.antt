-- ===== src/Responder.antt =====
-- listen_for_nreqs of src/nreq_responder.c: one datagram is one step.
pub mod Messages
pub mod Names
pub mod Replies
pub mod Exchange
pub mod Malformed
use name_spread.Prelude.{
  ℕ, ◌+◌, Option, none, some, List, [], ◌∷◌, ◌++◌, if◌then◌else◌, length, take, drop, replicate,
}
use name_spread.Text.{Str, codes, shown, space, newline, strtok, strstr, c_string, fits}
use name_spread.Machine.Run.{pure, crash, need, modify, ◌>>=◌, ◌>>◌}
use name_spread.Machine.Cfu.{Cfu}
use name_spread.Machine.System.{System}
use name_spread.Machine.World.{M}
use name_spread.Logger.{log}
use name_spread.Hosts.{get_hostname, get_name_by_addr, cache_name}
use name_spread.Network.{with_socket, nrep_max_len, nrep_text, with_packet}
use name_spread.Timers.{delete_pnr}
use name_spread.Pnr.{register_nreq, respond_to_pnrs}

-- recvfrom into a buffer of NREP_MAX_LEN bytes that held `old`.
unfoldable pub received : List ℕ → List ℕ → List ℕ
received old datagram = let new = take nrep_max_len datagram in new ++ drop (length new) old

-- memset(recv_buf, '\0', NREP_MAX_LEN)
abbrev pub cleared : List ℕ
cleared = replicate nrep_max_len 0

module _ ⦃pnr_table : Cfu ℕ⦄ ⦃timer_table : Cfu Str⦄ ⦃sys : System⦄ where
  -- A known name is sent back at once, through a buffer of NREP_MAX_LEN bytes.
  unfoldable pub send_name : ℕ → Option Str → Str → M (Unit {0})
  send_name requester dst_addr name = do
    if fits (sys.array_room nrep_max_len) (nrep_text dst_addr (some name)) then pure tt else crash
    modify (with_packet requester (nrep_text dst_addr (some name)))
    modify (λ w. record w { total_nreps = w.total_nreps + 1 })
    log (
        codes "[NREP->] Sent name "
        ++ name
        ++ codes " to "
        ++ sys.inet_ntoa requester
        ++ newline ∷ [])

  -- The handling of a request, once its address is known.
  unfoldable pub want_name : ℕ → Option Str → M (Unit {0})
  unfolding send_name
  want_name requester dst_addr = do
    log (
        codes "[<-NREQ] "
        ++ sys.inet_ntoa requester
        ++ codes " wants name for "
        ++ shown dst_addr
        ++ newline ∷ [])
    name ← get_name_by_addr dst_addr
    elim name [
      | some n ↦ send_name requester dst_addr n
      | none ↦ register_nreq dst_addr (some []) (some (sys.inet_ntoa requester))
    ]

  unfoldable pub handle_nreq : ℕ → Str → M (Unit {0})
  handle_nreq requester recv_buf = do
    modify (λ w. record w { total_nreps_reveived = w.total_nreps_reveived + 1 })
    want_name requester (strtok space (strtok space recv_buf).1).0

  -- A name that is not known yet is stored and passed on.
  unfoldable pub accept_name : Option Str → Option Str → Str → M (Unit {0})
  accept_name dst_addr name nrep_msg = do
    log (
        codes "[<-NREP] received name '"
        ++ shown name
        ++ codes "' for host "
        ++ shown dst_addr
        ++ newline ∷ [])
    cache_name dst_addr name
    respond_to_pnrs dst_addr nrep_msg
    delete_pnr dst_addr

  -- The handling of a reply, once its words are known.
  unfoldable pub take_name : Option Str → Option Str → Str → M (Unit {0})
  take_name dst_addr name nrep_msg = do
    known ← get_name_by_addr dst_addr
    elim known [ none ↦ accept_name dst_addr name nrep_msg | some n ↦ pure tt ]

  -- The message is first copied with its NUL to an array of strlen bytes.
  unfoldable pub handle_nrep : Str → M (Unit {0})
  handle_nrep recv_buf = do
    if fits (sys.array_room (length recv_buf)) recv_buf then pure tt else crash
    let (dst_addr, rest) = strtok space (strtok space recv_buf).1
    take_name dst_addr (strtok space rest).0 recv_buf

  -- The body of the loop, for the text in the buffer.
  unfoldable pub handle_message : ℕ → Str → M (Unit {0})
  unfolding handle_nreq handle_nrep
  handle_message requester recv_buf =
      if strstr recv_buf (codes "NREQ")
      then handle_nreq requester recv_buf
      else if strstr recv_buf (codes "NREP")
      then handle_nrep recv_buf
      else log (
          codes "[WARNING] Received message from "
          ++ sys.inet_ntoa requester
          ++ codes " with unrecognized format: '"
          ++ recv_buf
          ++ codes "'\n")

  -- One datagram from the address `requester`, in a buffer that held `old`. A buffer without a NUL is
  -- read beyond its end.
  unfoldable pub listen_step : List ℕ → ℕ → List ℕ → M (Unit {0})
  unfolding received handle_message
  listen_step old requester datagram = do
    recv_buf ← need (c_string (received old datagram))
    handle_message requester recv_buf

  -- The loop over the datagrams that arrive, each with the address of its sender. The buffer is
  -- cleared after each of them.
  unfoldable pub listen_loop : List ℕ → List (ℕ × List ℕ) → M (Unit {0})
  listen_loop old [] = pure tt
  listen_loop old ((requester, datagram) ∷ arrivals) = do
    listen_step old requester datagram
    listen_loop cleared arrivals

  -- socket and bind are taken to succeed. The buffer holds `garbage` at first.
  unfoldable pub listen_for_nreqs : List ℕ → List (ℕ × List ℕ) → M (Unit {0})
  listen_for_nreqs garbage arrivals = do
    hostname ← get_hostname
    modify with_socket
    log (codes "### Waiting for NREQs/NREPs on port 7891...\n")
    listen_loop garbage arrivals
