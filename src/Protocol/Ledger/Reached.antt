-- ===== src/Protocol/Ledger/Reached.antt =====
-- The books and the handling of an event (Daemon.Events).
use name_spread.Prelude.{ℕ, ◌≡◌, refl, sym, subst}
use name_spread.Text.{Str}
use name_spread.Machine.Run.{ok}
use name_spread.Machine.Cfu.{Cfu}
use name_spread.Machine.System.{System}
use name_spread.Machine.World.{World}
use name_spread.Machine.Moves.{ran}
use name_spread.Daemon.Events.{Event, handle}
use name_spread.Protocol.{books}
use name_spread.Protocol.Ledger.{Posts}
use name_spread.Protocol.Ledger.Posting.{ledger, ledger-Loose, request_name-Posts}
use name_spread.Protocol.Ledger.Replies.{ledger-Listening}
use name_spread.Protocol.Events.{Asks, Listens, handle-Moves}

module _ ⦃pnr_table : Cfu ℕ⦄ ⦃timer_table : Cfu Str⦄ ⦃sys : System⦄ where
  -- If the handling of an event returns, then from the books before it (the packets sent, the
  -- sockets opened and the three counters of the network) those after it arise by steps of these
  -- kinds and no others: a request for an address goes out with its NUL through a socket that is
  -- opened for it, and is counted as a request sent; a text that contains "NREP" goes out with its
  -- NUL and is counted as a reply sent; a socket is opened for replies; a request is counted as
  -- heard. Steps of the first kind occur only at a line of `ip monitor route` and at a timer's
  -- end, the others only at a datagram; a round of log_info changes nothing of the books.
  pub handle-Posts :
      (e : Event) (w v : World)
      → handle e w ≡ ok tt v
      → Posts (Asks e) (Listens e) (books w) (books v)
  handle-Posts e w v run =
      let (b, same, grown) =
        ran
          ((handle-Moves (ledger (Asks e) (Listens e)) (ledger-Loose (Asks e) (Listens e)) e
              request_name-Posts ledger-Listening).at
            (books w) w refl)
          run in
      subst (Posts (Asks e) (Listens e) (books w)) (sym same) grown
