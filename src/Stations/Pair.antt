-- ===== src/Stations/Pair.antt =====
-- A station that asks, and its neighbour that knows the name.
use name_spread.Prelude.{ℕ, ◌≡◌, refl, false, some, List, [], ◌∷◌, ◌++◌, length, ◌∙◌}
use name_spread.Text.{Str, codes, strstr}
use name_spread.Machine.Run.{ok}
use name_spread.Machine.Cfu.{Cfu}
use name_spread.Machine.System.{System}
use name_spread.Machine.World.{World, Packet}
use name_spread.Logger.{CanLog}
use name_spread.Logger.Yields.{quiet, Yields}
use name_spread.Hosts.{get_name_by_addr}
use name_spread.Hosts.Table.{HostLine, IsLine, entry, lookup_name}
use name_spread.Hosts.Cache.{HoldsTable}
use name_spread.Network.{nreq_text, nrep_text, nrep_max_len}
use name_spread.Timers.{pnr}
use name_spread.Responder.{listen_step}
use name_spread.Responder.Messages.{IsWord, listen_step-text}
use name_spread.Responder.Names.{FitsArray, told, handle_message-known}
use name_spread.Responder.Exchange.{IsMessage}
use name_spread.Watcher.{watch_line}
use name_spread.Stations.Roles.{Asks, question, reply}
use name_spread.Stations.Steps.{Asks-Learns}

module _ ⦃pnr_table : Cfu ℕ⦄ ⦃timer_table : Cfu Str⦄ (sys_a sys_b : System) where
  -- Station `a` asks for the name of a new route's destination, station `b` answers, and `a` knows the
  -- name. The receive buffers hold `old_a` and `old_b`.
  pub record Resolved (dst name line : Str) (addr_a addr_b to : ℕ) (old_a old_b : List ℕ)
      (a b : World) : Type 0 where
    pub asking : World
    pub ask : Packet
    pub watched : watch_line ⦃sys = sys_a⦄ line a ≡ ok tt asking
    pub ask_sent : asking.sent ≡ a.sent ++ ask ∷ []
    pub ask_to : ask.to ≡ to
    pub answering : World
    pub answer : Packet
    pub heard : listen_step ⦃sys = sys_b⦄ old_b addr_a ask.payload b ≡ ok tt answering
    pub answer_sent : answering.sent ≡ b.sent ++ answer ∷ []
    pub answer_to : answer.to ≡ addr_a
    pub knowing : World
    pub learned : listen_step ⦃sys = sys_a⦄ old_a addr_b answer.payload asking ≡ ok tt knowing
    pub settled : pnr ⦃sys = sys_a⦄ (some dst) knowing ≡ 0
    pub named : Yields (some name) knowing (get_name_by_addr ⦃sys = sys_a⦄ (some dst) knowing)

  -- Let station `a` be able to ask (the log and /etc/hosts are writable, the table's lines fit the
  -- buffer, the address has neither a name there nor a pending request, a timer id is free,
  -- sigaction succeeds, malloc has memory, the heap has handed out no address from `fresh` on, and
  -- the line tells of a route to the address by a readable next hop, for which the request's text
  -- fits its array) and the reply fit its copy there. Let the log of `b` be writable, its table of
  -- lines that fit the buffer have a name for the address, and the reply fit its array. Let the
  -- address and the name be one-line words that make a line of the table, let the request and the
  -- reply fit the receive buffers, and let the reply not contain "NREQ". When the line tells `a`
  -- of the route, `a` sends one datagram to the next hop; when `b` receives it from `addr_a`, it
  -- sends one to `addr_a`; and when `a` receives that, no request for the address is pending at
  -- `a` and get_name_by_addr returns the name there. This holds whatever the receive buffers held.
  pub watch_line-Resolved :
      (dst name line hop : Str) (ls_a ls_b : List HostLine) (a b : World) (addr_a addr_b to i : ℕ)
      (old_a old_b : List ℕ)
      → IsWord dst
      → IsWord name
      → IsLine 512 (entry dst name)
      → IsMessage (nreq_text (some dst))
      → IsMessage (nrep_text (some dst) (some name))
      → strstr (nrep_text (some dst) (some name)) (codes "NREQ") ≡ false
      → Asks ⦃sys = sys_a⦄ dst hop line to i ls_a a
      → FitsArray ⦃sys = sys_a⦄
          (length (nrep_text (some dst) (some name)))
          (nrep_text (some dst) (some name))
      → CanLog ⦃sys = sys_b⦄ b
      → HoldsTable ⦃sys = sys_b⦄ 512 ls_b b
      → lookup_name dst ls_b ≡ some name
      → FitsArray ⦃sys = sys_b⦄ nrep_max_len (nrep_text (some dst) (some name))
      → Resolved dst name line addr_a addr_b to old_a old_b a b
  watch_line-Resolved dst name line hop ls_a ls_b a b addr_a addr_b to i old_a old_b is word is_line
        ask tell tagged asks fit_a can_b holds_b known fit_b =
      let at_a =
        Asks-Learns ⦃sys = sys_a⦄ dst name line hop ls_a a to addr_b i old_a is word is_line ask
          tell tagged fit_a asks in
      let at_b =
        handle_message-known ⦃sys = sys_b⦄ dst ls_b b can_b is holds_b addr_a name known fit_b in
      record {
        asking = at_a.asking;
        ask = record { to = to; payload = question dst };
        watched = at_a.watched;
        ask_sent = at_a.sent;
        ask_to = refl;
        answering = quiet (told ⦃sys = sys_b⦄ addr_a dst name b) at_b.logs at_b.popens;
        answer = record { to = addr_a; payload = reply dst name };
        heard =
            listen_step-text ⦃sys = sys_b⦄ old_b addr_a (nreq_text (some dst)) b ask.0 ask.1
            ∙ at_b.run;
        answer_sent = refl;
        answer_to = refl;
        knowing = at_a.knowing;
        learned = at_a.learned;
        settled = at_a.settled;
        named = at_a.named;
      }
