-- ===== src/Stations/Roles.antt =====
-- The parts that a station can have in an exchange: it asks, or it asks and passes on the answer.
use name_spread.Prelude.{ℕ, ◌<◌, ◌≡◌, true, none, some, List, [], ◌∷◌, ◌++◌}
use name_spread.Text.{Str}
use name_spread.Machine.Run.{ok}
use name_spread.Machine.Cfu.{Cfu}
use name_spread.Machine.System.{System}
use name_spread.Machine.World.{World}
use name_spread.Logger.{CanLog}
use name_spread.Logger.Yields.{Yields}
use name_spread.LinkedList.Chain.{IsHeap}
use name_spread.Hosts.{hosts_path, get_name_by_addr}
use name_spread.Hosts.Table.{HostLine, lookup_name}
use name_spread.Hosts.Cache.{HoldsTable}
use name_spread.Network.{nreq_text, nrep_text}
use name_spread.Network.Requests.{FitsRequest}
use name_spread.Timers.{pnr}
use name_spread.Timers.Ids.{FirstFree}
use name_spread.Responder.{listen_step}
use name_spread.Watcher.{watch_line}
use name_spread.Watcher.Routes.{NewRoute}

-- The bytes of a request and of a reply, as they are sent.
abbrev pub question : Str → List ℕ
question dst = nreq_text (some dst) ++ 0 ∷ []

abbrev pub reply : Str → Str → List ℕ
reply dst name = nrep_text (some dst) (some name) ++ 0 ∷ []

module _ ⦃pnr_table : Cfu ℕ⦄ ⦃timer_table : Cfu Str⦄ ⦃sys : System⦄ where
  -- A station that can ask for the address and store its name: the log and /etc/hosts are writable, the
  -- table's lines fit the buffer, the address has neither a name nor a pending request, `i` is the lowest free
  -- timer id, sigaction succeeds, malloc has memory, and the line tells of a route by a readable next hop.
  pub record Asks (dst hop line : Str) (to i : ℕ) (ls : List HostLine) (w : World) : Type 0 where
    pub can : CanLog w
    pub open_ok : sys.writable hosts_path ≡ true
    pub holds : HoldsTable 512 ls w
    pub new : lookup_name dst ls ≡ none
    pub free : pnr (some dst) w ≡ 0
    pub first : FirstFree w.timer_ids i
    pub set_up : sys.handler_set ≡ true
    pub is_heap : IsHeap w.heap
    pub room : 0 < w.heap.room
    pub route : NewRoute dst hop line
    pub valid : sys.inet_aton hop ≡ some to
    pub fit : FitsRequest dst

  -- The station asks for the name when it learns of the route; a reply from `from` is stored.
  pub record Learns (dst name line : Str) (to from : ℕ) (old : List ℕ) (w : World) : Type 0 where
    pub asking : World
    pub watched : watch_line line w ≡ ok tt asking
    pub sent : asking.sent ≡ w.sent ++ record { to = to; payload = question dst } ∷ []
    pub knowing : World
    pub learned : listen_step old from (reply dst name) asking ≡ ok tt knowing
    pub settled : pnr (some dst) knowing ≡ 0
    pub named : Yields (some name) knowing (get_name_by_addr (some dst) knowing)

  -- The station asks for the name; a request of `requester` is kept, and a reply from `from` stored and
  -- passed on.
  pub record Passes (dst name line : Str) (to requester from : ℕ) (old : List ℕ) (w : World)
      : Type 0 where
    pub asking : World
    pub watched : watch_line line w ≡ ok tt asking
    pub sent : asking.sent ≡ w.sent ++ record { to = to; payload = question dst } ∷ []
    pub waiting : World
    pub heard : listen_step old requester (question dst) asking ≡ ok tt waiting
    pub silent : waiting.sent ≡ asking.sent
    pub knowing : World
    pub learned : listen_step old from (reply dst name) waiting ≡ ok tt knowing
    pub passed :
        knowing.sent ≡ waiting.sent ++ record { to = requester; payload = reply dst name } ∷ []
    pub named : Yields (some name) knowing (get_name_by_addr (some dst) knowing)
