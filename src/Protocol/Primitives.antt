-- ===== src/Protocol/Primitives.antt =====
-- What the threads' handlers rely on of the operations on the shared tables and on the network: that
-- each of them moves a course.
use name_spread.Prelude.{ℕ, ◌+◌, ◌≡◌, refl, true, Option, some}
use name_spread.Text.{Str, codes, strstr}
use name_spread.Machine.Run.{modify}
use name_spread.Machine.Cfu.{Cfu}
use name_spread.Machine.System.{System}
use name_spread.Machine.World.{World}
use name_spread.Machine.Moves.{Course, Moves, Moves-then, Moves-if, Moves-pure, Moves-crash}
use name_spread.Network.{request_name, nrep_text}
use name_spread.Timers.{start_timer, delete_pnr}
use name_spread.Pnr.{register_nreq, respond_to_pnrs}
use name_spread.Responder.{send_name}
use name_spread.Protocol.{Permits, Allows}
use name_spread.Protocol.Frame.{
  log-Moves, request_name-Moves, table_modify-Moves, with_packet-Moves, more_nreps-Moves,
}
use name_spread.Protocol.Requests.{
  daemon, daemon-Allows, daemon-Permits, start_timer-Moves, delete_pnr-Moves, respond_to_pnrs-Moves,
}
use name_spread.Protocol.Registering.{register_nreq-Moves}

module _ ⦃pnr_table : Cfu ℕ⦄ ⦃timer_table : Cfu Str⦄ ⦃sys : System⦄ where
  -- The operations on the tables.
  pub record Primitives (c : Course World) : Type 0 where
    pub permits : Permits c
    pub starts : (dst_addr : Option Str) → Moves c (start_timer dst_addr)
    pub deletes : (dst_addr : Option Str) → Moves c (delete_pnr dst_addr)
    pub registers : (dst_addr next_hop r : Option Str) → Moves c (register_nreq dst_addr next_hop r)

  -- What asks for names: the watcher and the timers.
  abbrev pub Asking : Course World → Type 0
  Asking c = (dst_addr next_hop : Option Str) → Moves c (request_name dst_addr next_hop)

  -- What listens: the responder. A text that waiting requesters are sent has come as a reply.
  pub record Listening (c : Course World) : Type 0 where
    pub sends :
        (requester : ℕ) (dst_addr : Option Str) (name : Str)
        → Moves c (send_name requester dst_addr name)
    pub counts :
        Moves c (modify λ w. record w { total_nreps_reveived = w.total_nreps_reveived + 1 })
    pub responds :
        (dst_addr : Option Str) (text : Str)
        → strstr text (codes "NREP") ≡ true
        → Moves c (respond_to_pnrs dst_addr text)

  pub send_name-Moves :
      (c : Course World)
      → Permits c
      → Allows c
      → (requester : ℕ) (dst_addr : Option Str) (name : Str)
      → Moves c (send_name requester dst_addr name)
  unfolding send_name
  send_name-Moves c permits same requester dst_addr name =
      Moves-then c _ _ (Moves-if c _ _ _ (Moves-pure c tt) (Moves-crash c)) (
        Moves-then c _ _
          (with_packet-Moves c permits same requester (nrep_text dst_addr (some name)))
          (Moves-then c _ _ (more_nreps-Moves c permits same) (log-Moves c permits _)))

  -- The course of the tables.
  pub daemon-Primitives : Primitives daemon
  daemon-Primitives = record {
    permits = daemon-Permits;
    starts = start_timer-Moves;
    deletes = delete_pnr-Moves;
    registers = register_nreq-Moves;
  }

  pub daemon-Asking : Asking daemon
  daemon-Asking = request_name-Moves daemon daemon-Permits daemon-Allows

  pub daemon-Listening : Listening daemon
  daemon-Listening = record {
    sends = send_name-Moves daemon daemon-Permits daemon-Allows;
    counts = table_modify-Moves daemon daemon-Permits daemon-Allows _ (λ w. refl);
    responds = λ dst_addr text is_reply. respond_to_pnrs-Moves dst_addr text;
  }
