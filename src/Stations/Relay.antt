-- ===== src/Stations/Relay.antt =====
-- Three stations in a row: the one in the middle passes on the name.
use name_spread.Prelude.{ℕ, ◌^◌, ◌<◌, ◌≡◌, refl, false, some, List, [], ◌∷◌, ◌++◌, length, ◌∙◌}
use name_spread.Text.{Str, codes, strstr}
use name_spread.Machine.Run.{ok}
use name_spread.Machine.Cfu.{Cfu}
use name_spread.Machine.System.{System}
use name_spread.Machine.World.{World, Packet}
use name_spread.Logger.{CanLog}
use name_spread.Logger.Yields.{quiet, Yields}
use name_spread.Hosts.{get_name_by_addr}
use name_spread.Hosts.Table.{HostLine, IsLine, entry, lookup_name}
use name_spread.Hosts.Cache.{HoldsTable}
use name_spread.Network.{nreq_text, nrep_text, nrep_max_len}
use name_spread.Responder.{listen_step}
use name_spread.Responder.Messages.{IsWord, listen_step-text}
use name_spread.Responder.Names.{FitsArray, told, handle_message-known}
use name_spread.Responder.Exchange.{IsMessage}
use name_spread.Watcher.{watch_line}
use name_spread.Stations.Roles.{Asks, question, reply}
use name_spread.Stations.Steps.{Asks-Learns, Asks-Passes}

module _ ⦃pnr_table : Cfu ℕ⦄ ⦃timer_table : Cfu Str⦄ (sys_a sys_b sys_c : System) where
  -- `b`, on its way to `c`, and `a`, on its way to `b`, learn of a route to the address. `b` asks `c`; `a` asks `b`,
  -- which does not know the name yet; `c` answers `b`, and `b` passes the answer on to `a`. The receive buffers hold
  -- `old`.
  pub record Relayed (dst name line_a line_b : Str) (addr_a addr_b addr_c to_b to_c : ℕ)
      (old : List ℕ) (a b c : World) : Type 0 where
    pub b_asking : World
    pub ask_b : Packet
    pub b_watched : watch_line ⦃sys = sys_b⦄ line_b b ≡ ok tt b_asking
    pub b_sent : (b_asking.sent ≡ b.sent ++ ask_b ∷ []) × (ask_b.to ≡ to_c)
    pub a_asking : World
    pub ask_a : Packet
    pub a_watched : watch_line ⦃sys = sys_a⦄ line_a a ≡ ok tt a_asking
    pub a_sent : (a_asking.sent ≡ a.sent ++ ask_a ∷ []) × (ask_a.to ≡ to_b)
    pub b_waiting : World
    pub b_heard : listen_step ⦃sys = sys_b⦄ old addr_a ask_a.payload b_asking ≡ ok tt b_waiting
    pub b_silent : b_waiting.sent ≡ b_asking.sent
    pub c_answering : World
    pub found : Packet
    pub c_heard : listen_step ⦃sys = sys_c⦄ old addr_b ask_b.payload c ≡ ok tt c_answering
    pub c_sent : (c_answering.sent ≡ c.sent ++ found ∷ []) × (found.to ≡ addr_b)
    pub b_knowing : World
    pub passed : Packet
    pub b_learned : listen_step ⦃sys = sys_b⦄ old addr_c found.payload b_waiting ≡ ok tt b_knowing
    pub b_passed : (b_knowing.sent ≡ b_waiting.sent ++ passed ∷ []) × (passed.to ≡ addr_a)
    pub a_knowing : World
    pub a_learned : listen_step ⦃sys = sys_a⦄ old addr_b passed.payload a_asking ≡ ok tt a_knowing
    pub a_named : Yields (some name) a_knowing (get_name_by_addr ⦃sys = sys_a⦄ (some dst) a_knowing)
    pub b_named : Yields (some name) b_knowing (get_name_by_addr ⦃sys = sys_b⦄ (some dst) b_knowing)

  -- Let stations `a` and `b` be able to ask (the log and /etc/hosts are writable, the table's
  -- lines fit the buffer, the address has neither a name there nor a pending request, a timer id
  -- is free, sigaction succeeds, malloc has memory, the heap has handed out no address from
  -- `fresh` on, and the line tells of a route to the address by a readable next hop, for which the
  -- request's text fits its array), with memory for two nodes at `b`, and the reply fit its copies
  -- there. Let the log of `c` be writable, its table of lines that fit the buffer have a name for
  -- the address, and the reply fit its array. Let the address and the name be one-line words that
  -- make a line of the table, let the request and the reply fit the receive buffers, and let the
  -- reply not contain "NREQ". When `b` learns of the route it sends a datagram to its next hop,
  -- and so does `a`. When `b` receives the one of `a` it sends nothing; when `c` receives the one
  -- of `b` from `addr_b` it sends one to `addr_b`; when `b` receives that, it sends one to
  -- `addr_a`; and when `a` receives that, get_name_by_addr returns the name at `a` and at `b`. The
  -- receive buffers hold the same bytes, whatever these are.
  pub watch_line-Relayed :
      (dst name line_a line_b hop_a hop_b : Str) (ls_a ls_b ls_c : List HostLine) (a b c : World)
      (addr_a addr_b addr_c to_b to_c i j : ℕ) (old : List ℕ)
      → IsWord dst
      → IsWord name
      → IsLine 512 (entry dst name)
      → IsMessage (nreq_text (some dst))
      → IsMessage (nrep_text (some dst) (some name))
      → strstr (nrep_text (some dst) (some name)) (codes "NREQ") ≡ false
      → Asks ⦃sys = sys_a⦄ dst hop_a line_a to_b i ls_a a
      → Asks ⦃sys = sys_b⦄ dst hop_b line_b to_c j ls_b b
      → 1 < b.heap.room
      → addr_a < 2 ^ 32
      → FitsArray ⦃sys = sys_a⦄
          (length (nrep_text (some dst) (some name)))
          (nrep_text (some dst) (some name))
      → FitsArray ⦃sys = sys_b⦄
          (length (nrep_text (some dst) (some name)))
          (nrep_text (some dst) (some name))
      → CanLog ⦃sys = sys_c⦄ c
      → HoldsTable ⦃sys = sys_c⦄ 512 ls_c c
      → lookup_name dst ls_c ≡ some name
      → FitsArray ⦃sys = sys_c⦄ nrep_max_len (nrep_text (some dst) (some name))
      → Relayed dst name line_a line_b addr_a addr_b addr_c to_b to_c old a b c
  watch_line-Relayed dst name line_a line_b hop_a hop_b ls_a ls_b ls_c a b c addr_a addr_b addr_c
        to_b to_c i j old is word is_line ask tell tagged asks_a asks_b space small fit_a fit_b
        can_c holds_c known fit_c =
      let at_a =
        Asks-Learns ⦃sys = sys_a⦄ dst name line_a hop_a ls_a a to_b addr_b i old is word is_line ask
          tell tagged fit_a asks_a in
      let at_b =
        Asks-Passes ⦃sys = sys_b⦄ dst name line_b hop_b ls_b b to_c addr_c j old is word is_line ask
          tell tagged fit_b asks_b addr_a space small in
      let at_c =
        handle_message-known ⦃sys = sys_c⦄ dst ls_c c can_c is holds_c addr_b name known fit_c in
      record {
        b_asking = at_b.asking;
        ask_b = record { to = to_c; payload = question dst };
        b_watched = at_b.watched;
        b_sent = (at_b.sent, refl);
        a_asking = at_a.asking;
        ask_a = record { to = to_b; payload = question dst };
        a_watched = at_a.watched;
        a_sent = (at_a.sent, refl);
        b_waiting = at_b.waiting;
        b_heard = at_b.heard;
        b_silent = at_b.silent;
        c_answering = quiet (told ⦃sys = sys_c⦄ addr_b dst name c) at_c.logs at_c.popens;
        found = record { to = addr_b; payload = reply dst name };
        c_heard =
            listen_step-text ⦃sys = sys_c⦄ old addr_b (nreq_text (some dst)) c ask.0 ask.1
            ∙ at_c.run;
        c_sent = (refl, refl);
        b_knowing = at_b.knowing;
        passed = record { to = addr_a; payload = reply dst name };
        b_learned = at_b.learned;
        b_passed = (at_b.passed, refl);
        a_knowing = at_a.knowing;
        a_learned = at_a.learned;
        a_named = at_a.named;
        b_named = at_b.named;
      }
