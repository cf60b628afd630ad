-- ===== src/Protocol/Handlers.antt =====
-- The daemon's threads on any course on which the operations of Protocol.Primitives move:
-- src/nreq_responder.c, src/route_watcher.c, and the timers' retries of src/timer.c.
use name_spread.Prelude.{
  ℕ, ◌+◌, ◌≡◌, refl, true, Option, none, some, List, [], ◌∷◌, ◌==◌, if◌then◌else◌, inl, inr,
  Bool-cases,
}
use name_spread.Text.{Str, codes, strstr}
use name_spread.Machine.Run.{gets, modify, ◌>>=◌, ◌>>◌}
use name_spread.Machine.World.{World}
use name_spread.Machine.Cfu.{Cfu}
use name_spread.Machine.System.{System}
use name_spread.Machine.Moves.{
  Course, Moves, Moves-bind, Moves-then, Moves-if, Moves-option, Moves-pure, Moves-need,
  Moves-crash, Moves-gets, moves_rules,
}
use name_spread.Logger.{log}
use name_spread.Hosts.{get_name_by_addr}
use name_spread.Timers.{pnr, delete_pnr, find_route, route_exists, retry}
use name_spread.Responder.{
  want_name, handle_nreq, accept_name, take_name, handle_nrep, handle_message, listen_step,
}
use name_spread.Watcher.{seek_name, look_up_name, route_added, forget, route_removed, watch_line}
use name_spread.Daemon.{log_info}
use name_spread.Protocol.Frame
use name_spread.Protocol.Primitives.{Primitives, Asking, Listening}

module _ ⦃pnr_table : Cfu ℕ⦄ ⦃timer_table : Cfu Str⦄ ⦃sys : System⦄ where
  module _ (c : Course World) (p : Primitives c) where
    log-Moves : (m : Str) → Moves c (log m)
    log-Moves = Frame.log-Moves c p.permits

    name-Moves : (a : Option Str) → Moves c (get_name_by_addr a)
    name-Moves = Frame.get_name_by_addr-Moves c p.permits

    module _ (l : Listening c) where
      want_name-Moves :
          (requester : ℕ) (dst_addr : Option Str) → Moves c (want_name requester dst_addr)
      unfolding want_name
      want_name-Moves requester dst_addr = Moves-then c _ _ (log-Moves _) (
          Moves-bind c _ _ (name-Moves dst_addr) λ name.
            Moves-option c name _ _ (p.registers dst_addr _ _) (λ n. l.sends requester dst_addr n))

      handle_nreq-Moves :
          (requester : ℕ) (recv_buf : Str) → Moves c (handle_nreq requester recv_buf)
      unfolding handle_nreq
      handle_nreq-Moves requester recv_buf = Moves-then c _ _ l.counts (want_name-Moves requester _)

      accept_name-Moves :
          (dst_addr name : Option Str) (text : Str)
          → strstr text (codes "NREP") ≡ true
          → Moves c (accept_name dst_addr name text)
      unfolding accept_name
      accept_name-Moves dst_addr name text is_reply = Moves-then c _ _ (log-Moves _) (
          Moves-then c _ _ (Frame.cache_name-Moves c p.permits dst_addr name)
            (Moves-then c _ _ (l.responds dst_addr text is_reply) (p.deletes dst_addr)))

      take_name-Moves :
          (dst_addr name : Option Str) (text : Str)
          → strstr text (codes "NREP") ≡ true
          → Moves c (take_name dst_addr name text)
      unfolding take_name
      take_name-Moves dst_addr name text is_reply = Moves-bind c _ _ (name-Moves dst_addr) λ known.
          Moves-option c known _ _ (accept_name-Moves dst_addr name text is_reply)
            (λ n. Moves-pure c tt)

      handle_nrep-Moves :
          (recv_buf : Str) → strstr recv_buf (codes "NREP") ≡ true → Moves c (handle_nrep recv_buf)
      unfolding handle_nrep
      handle_nrep-Moves recv_buf is_reply =
          Moves-then c _ _ (Moves-if c _ _ _ (Moves-pure c tt) (Moves-crash c))
            (take_name-Moves _ _ recv_buf is_reply)

      handle_message-Moves :
          (requester : ℕ) (recv_buf : Str) → Moves c (handle_message requester recv_buf)
      unfolding handle_message
      handle_message-Moves requester recv_buf =
          Moves-if c (strstr recv_buf (codes "NREQ")) _ _ (handle_nreq-Moves requester recv_buf)
            (elim (Bool-cases (strstr recv_buf (codes "NREP"))) [
              | inl is_reply ↦ rw is_reply (handle_nrep-Moves recv_buf is_reply)
              | inr other ↦ rw other (log-Moves _)
            ])

      pub listen_step-Moves :
          (old : List ℕ) (requester : ℕ) (datagram : List ℕ)
          → Moves c (listen_step old requester datagram)
      unfolding listen_step
      listen_step-Moves old requester datagram = search (moves_rules, handle_message-Moves)

    forget-Moves : (dst_addr : Option Str) → Moves c (forget dst_addr)
    unfolding forget
    forget-Moves dst_addr = Moves-bind c _ _ (Moves-gets c (pnr dst_addr)) λ pending.
        Moves-then c _ _ (Moves-if c (pending == 0) _ _ (Moves-pure c tt) (p.deletes dst_addr)) (
          Moves-bind c _ _ (name-Moves dst_addr) λ name.
            Moves-option c name _ _ (Frame.remove_name-Moves c p.permits dst_addr)
              (λ n. Moves-pure c tt))

    route_removed-Moves : (line : Str) → Moves c (route_removed line)
    unfolding route_removed
    route_removed-Moves line = Moves-then c _ _ (log-Moves _) (forget-Moves _)

    sleep-Moves : Moves c (modify λ w. record w { clock = w.clock + 10 })
    sleep-Moves = Frame.modify-Moves c p.permits _ (λ w. refl) (λ w. refl)

    pub log_info-Moves : Moves c log_info
    unfolding log_info
    log_info-Moves = search (moves_rules, log-Moves, sleep-Moves) depth 12

    find_route-Moves :
        (dst_addr : Option Str) (lines : List Str) → Moves c (find_route dst_addr lines)
    unfolding find_route
    find_route-Moves dst_addr [] = Moves-pure c none
    find_route-Moves dst_addr (line ∷ lines) = Moves-then c _ _ (log-Moves _) (
        Moves-bind c _ _ (Frame.same_text-Moves c _ dst_addr) λ found.
          Moves-if c found _ _
            (Moves-bind c _ _ (Moves-need c _)
              λ hop. Moves-then c _ _ (log-Moves _) (Moves-pure c (some hop)))
            (find_route-Moves dst_addr lines))

    route_exists-Moves : (dst_addr : Option Str) → Moves c (route_exists dst_addr)
    unfolding route_exists
    route_exists-Moves dst_addr = Moves-then c _ _ (log-Moves _) (
        Moves-then c _ _ (Frame.wait_popen-Moves c p.permits _) (
          Moves-bind c _ _ (Moves-gets c (λ w. w.routes)) λ routes. Moves-then c _ _ (log-Moves _) (
            Moves-bind c _ _ (find_route-Moves dst_addr _) λ next_hop.
              Moves-option c next_hop _ _ (Moves-then c _ _ (log-Moves _) (Moves-pure c none))
                (λ hop. Moves-pure c (some hop)))))

    module _ (ask : Asking c) where
      seek_name-Moves : (dst_addr next_hop : Option Str) → Moves c (seek_name dst_addr next_hop)
      unfolding seek_name
      seek_name-Moves dst_addr next_hop = search (moves_rules, log-Moves, p.registers, ask) depth 12

      look_up_name-Moves :
          (dst_addr next_hop : Option Str) → Moves c (look_up_name dst_addr next_hop)
      unfolding look_up_name
      look_up_name-Moves dst_addr next_hop =
          Moves-bind c _ _ (name-Moves dst_addr)
            λ name. Moves-option c name _ _ (seek_name-Moves dst_addr next_hop) (λ n. log-Moves _)

      route_added-Moves : (line : Str) → Moves c (route_added line)
      unfolding route_added
      route_added-Moves line = Moves-then c _ _ (log-Moves _) (look_up_name-Moves _ _)

      pub watch_line-Moves : (line : Str) → Moves c (watch_line line)
      unfolding watch_line
      watch_line-Moves line = search (moves_rules, route_added-Moves, route_removed-Moves)

      retry-Moves : (dst_addr : Option Str) → Moves c (retry dst_addr)
      unfolding retry
      retry-Moves dst_addr = Moves-then c _ _ (log-Moves _) (
          Moves-bind c _ _ (Moves-need c dst_addr) λ dst.
            Moves-bind c _ _ (route_exists-Moves (some dst)) λ next_hop.
              Moves-option c next_hop _ _ (Moves-pure c tt) λ hop. Moves-then c _ _ (log-Moves _) (
                Moves-bind c _ _ (p.starts dst_addr)
                  λ id. Moves-then c _ _ (log-Moves _) (ask dst_addr (some hop))))

      -- The end of timeout_handler, after drop_timer.
      pub settle-Moves :
          (dst_addr : Option Str) (m : Str)
          → Moves c (do
            pending ← gets (pnr dst_addr)
            if pending == 0 then (do delete_pnr dst_addr; log m) else retry dst_addr)
      settle-Moves dst_addr m = Moves-bind c _ _ (Moves-gets c (pnr dst_addr)) λ pending.
          Moves-if c (pending == 0) _ _ (Moves-then c _ _ (p.deletes dst_addr) (log-Moves m))
            (retry-Moves dst_addr)
