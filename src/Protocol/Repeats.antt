-- ===== src/Protocol/Repeats.antt =====
-- The ends of the timers of a pending request, one after the other: timeout_handler of src/timer.c.
use name_spread.Prelude.{
  ℕ, zero, suc, ◌+◌, ◌≡◌, refl, true, false, Option, some, [], ◌∷◌, ◌++◌, ◌==◌, get_elem?,
  replicate, append-nil, append_assoc, ap, ◌∙◌, sym, subst,
}
use name_spread.Text.{Str, decimal, fgets_lines}
use name_spread.Machine.Run.{ok}
use name_spread.Machine.Cfu.{Cfu}
use name_spread.Machine.System.{System}
use name_spread.Machine.World.{World, Alarm, Packet}
use name_spread.Logger.{CanLog, log_path}
use name_spread.LinkedList.Chain.{IsHeap}
use name_spread.Network.{nreq_text}
use name_spread.Network.Requests.{FitsRequest}
use name_spread.Timers.{pnr, or_null}
use name_spread.Timers.Handler.{Finds}
use name_spread.Daemon.Events.{expiry, handle, handled, Reaches, stepped}
use name_spread.Protocol.Retries.{Retried, expiry-Retried}

-- The request for the address, as it is sent to the next hop.
abbrev pub request_to : ℕ → Str → Packet
request_to to dst = record { to = to; payload = nreq_text (some dst) ++ 0 ∷ [] }

module _ ⦃pnr_table : Cfu ℕ⦄ ⦃timer_table : Cfu Str⦄ ⦃sys : System⦄ where
  -- A timer of ten seconds runs for the address, which is pending, while the log is writable and the kernel has a
  -- route to it by `hop`.
  pub record Due (dst hop : Str) (u : World) : Type 0 where
    pub place : ℕ
    pub alarm : Alarm
    pub ten_secs : alarm.secs ≡ 10
    pub running : get_elem? u.alarms place ≡ some alarm
    pub addr : timer_table.get u.timers (some (decimal (alarm.slot + 1))) ≡ some dst
    pub pending : (pnr (some dst) u == 0) ≡ false
    pub route : Finds dst (fgets_lines 33 u.routes) (some hop)
    pub can : CanLog u

  -- The ends of `k` timers are handled, one after the other.
  pub data Expires : ℕ → World → World → Type 0 where
    waits : {u : World} → Expires 0 u u
    ends :
        {k : ℕ} {u v t : World} (n : ℕ)
        → handle (expiry n) u ≡ ok tt v
        → Expires k v t
        → Expires (suc k) u t

  -- From `u` to `v` the pending requests have stayed, `k` requests for the address were sent to `to`, and
  -- the next one is due.
  pub record Repeated (k : ℕ) (dst hop : Str) (to : ℕ) (u v : World) : Type 0 where
    pub heap : v.heap ≡ u.heap
    pub pnrs : v.pnrs ≡ u.pnrs
    pub sent : v.sent ≡ u.sent ++ replicate k (request_to to dst)
    pub due : Due dst hop v

  Retried-Due :
      (dst hop : Str) (to : ℕ) (u v : World) → Due dst hop u → Retried dst to u v → Due dst hop v
  Retried-Due dst hop to u v due re = record {
    place = re.place;
    alarm = record { slot = re.slot; secs = 10 };
    ten_secs = refl;
    running = re.alarm;
    addr = re.running.addr;
    pending = ap (λ t. or_null (pnr_table.get t (some dst)) == 0) re.pnrs ∙ due.pending;
    route = subst (λ r. Finds dst (fgets_lines 33 r) (some hop)) (sym re.routes) due.route;
    can = ap (λ a. sys.writable (log_path a)) re.own_addr ∙ due.can;
  }

  module _ (argument : Option Str) (w : World) (is : IsHeap w.heap) (dst hop : Str) (to : ℕ)
      (set_up : sys.handler_set ≡ true) (valid : sys.inet_aton hop ≡ some to)
      (fit : FitsRequest dst) where
    -- Let the heap have handed out no address from `fresh` on when the daemon starts. In a state
    -- that it comes to, let an address be pending for which a timer of ten seconds runs, the log
    -- be writable, the routing table have a line for the address with a next hop that inet_aton
    -- reads, sigaction succeed and the request's text fit its array. Then for every number k there
    -- are k timers' ends, one after the other, the handling of each of which returns, such that
    -- after them the pending requests and their requesters are as they were, exactly k requests
    -- have been sent, all for the address and to the next hop, and the address is still pending
    -- with a timer of ten seconds that runs for it.
    pub expiry-Repeated :
        (k : ℕ) (u : World)
        → Reaches argument w u
        → Due dst hop u
        → (v : World) × Expires k u v × Repeated k dst hop to u v
    expiry-Repeated zero u r due =
        (u, waits, record { heap = refl; pnrs = refl; sent = sym (append-nil u.sent); due = due })
    expiry-Repeated (suc k) u r due =
        let (v, run, re) =
          expiry-Retried argument w u due.place due.alarm dst hop to is r due.can due.running
            due.addr due.pending due.route set_up valid fit in
        let (t, more, rep) =
          expiry-Repeated k v (stepped r (handled (expiry due.place) run))
            (Retried-Due dst hop to u v due re) in
        (
          t,
          ends due.place run more,
          record {
            heap = rep.heap ∙ re.heap;
            pnrs = rep.pnrs ∙ re.pnrs;
            sent =
                rep.sent
                ∙ ap (λ ps. ps ++ replicate k (request_to to dst)) re.sent
                ∙ append_assoc u.sent (request_to to dst ∷ []) (replicate k (request_to to dst));
            due = rep.due;
          },
        )
