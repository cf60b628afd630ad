-- ===== src/Protocol/Ledger.antt =====
-- What the daemon posts on the network: the packets, the sockets, and the counters of log_info.
pub mod Posting
pub mod Replies
pub mod Reached
use name_spread.Prelude.{ℕ, ◌+◌, ◌≡◌, true, Option, [], ◌∷◌, ◌++◌}
use name_spread.Text.{Str, codes, strstr}
use name_spread.Machine.Cfu.{Cfu}
use name_spread.Network.{nreq_text}
use name_spread.Protocol.{Books}

module _ ⦃pnr_table : Cfu ℕ⦄ ⦃timer_table : Cfu Str⦄ where
  abbrev pub socket_opened : Books → Books
  socket_opened b = record b { sockets = b.sockets + 1 }

  -- A text is sent with its NUL.
  abbrev pub text_sent : ℕ → Str → Books → Books
  text_sent to text b = record b {
    sent = b.sent ++ record { to = to; payload = text ++ 0 ∷ [] } ∷ [];
  }

  abbrev pub request_posted : ℕ → Option Str → Books → Books
  request_posted to dst_addr b = record (text_sent to (nreq_text dst_addr) b) {
    total_nreqs = b.total_nreqs + 1;
  }

  abbrev pub reply_posted : ℕ → Str → Books → Books
  reply_posted to text b = record (text_sent to text b) { total_nreps = b.total_nreps + 1 }

  abbrev pub request_heard : Books → Books
  request_heard b = record b { total_nreps_reveived = b.total_nreps_reveived + 1 }

  -- How the books grow. What asks for names sends requests, each through a socket of its own, and counts
  -- them. What listens sends texts that are taken for replies, and counts them and the requests that it
  -- hears; it opens sockets for replies. `Asks` and `Listens` are empty where the one or the other is not at work.
  pub data Posts (Asks Listens : Type 0) (b : Books) : Books → Type 0 where
    begun : Posts Asks Listens b b
    asked :
        {d : Books} (to : ℕ) (dst_addr : Option Str)
        → Asks
        → Posts Asks Listens b d
        → Posts Asks Listens b (request_posted to dst_addr (socket_opened d))
    replied :
        {d : Books} (to : ℕ) (text : Str)
        → strstr text (codes "NREP") ≡ true
        → Listens
        → Posts Asks Listens b d
        → Posts Asks Listens b (reply_posted to text d)
    opened : {d : Books} → Listens → Posts Asks Listens b d → Posts Asks Listens b (socket_opened d)
    heard : {d : Books} → Listens → Posts Asks Listens b d → Posts Asks Listens b (request_heard d)

  module _ {Asks Listens : Type 0} where
    pub Posts-follow :
        (b c d : Books) → Posts Asks Listens b c → Posts Asks Listens c d → Posts Asks Listens b d
    Posts-follow b c d p begun = p
    Posts-follow b c d p (asked to dst_addr a q) = asked to dst_addr a (Posts-follow b c _ p q)
    Posts-follow b c d p (replied to text is_reply l q) =
        replied to text is_reply l (Posts-follow b c _ p q)
    Posts-follow b c d p (opened l q) = opened l (Posts-follow b c _ p q)
    Posts-follow b c d p (heard l q) = heard l (Posts-follow b c _ p q)
