-- ===== src/Stations/Steps.antt =====
-- A station's steps in an exchange, put together from its handlers.
use name_spread.Prelude.{
  if◌then◌else◌, ℕ, ◌^◌, ◌<◌, ◌≡◌, refl, true, false, Option, none, some, List, [], ◌∷◌, length, ap,
  ◌∙◌, arith,
}
use name_spread.Text.{Str, codes, strstr}
use name_spread.Machine.Run.{ok}
use name_spread.Machine.Ensures.{Ensures-ok}
use name_spread.Machine.Cfu.{Cfu, key_eq, key_eq_iff}
use name_spread.Machine.System.{System}
use name_spread.Machine.World.{World, Heap}
use name_spread.Logger.{CanLog}
use name_spread.Logger.Yields.{quiet, Yields, Yields-bind, Yields-quiet, log-Yields}
use name_spread.LinkedList.{push}
use name_spread.LinkedList.Chain.{Cells, values, Chain, IsHeap}
use name_spread.LinkedList.Push.{push-append}
use name_spread.Hosts.Table.{HostLine, IsLine, entry, lookup_name}
use name_spread.Hosts.Cache.{HoldsTable}
use name_spread.Network.{nreq_text, nrep_text}
use name_spread.Network.Requests.{requested}
use name_spread.Timers.{pnr, or_null}
use name_spread.Pnr.{same_val}
use name_spread.Pnr.Requesters.{occurs, local, remote, all}
use name_spread.Pnr.Register.{put_self, opened, register_nreq-push}
use name_spread.Responder.{handle_message, handle_nreq, want_name}
use name_spread.Responder.Messages.{IsWord, request-words, nreq_text-strstr, listen_step-text}
use name_spread.Responder.Names.{FitsArray, counted, cached}
use name_spread.Responder.Replies.{passed_on-named, accepted, handle_message-accepted}
use name_spread.Responder.Exchange.{IsMessage}
use name_spread.Watcher.Routes.{watch_line-new}
use name_spread.Stations.Roles.{Asks, Learns, Passes}

module _ ⦃pnr_table : Cfu ℕ⦄ ⦃timer_table : Cfu Str⦄ ⦃sys : System⦄ where
  module _ (dst : Str) (ls : List HostLine) (requester a : ℕ) (v : Option Str) (cs : Cells)
      (w : World) (g : Heap) (can : CanLog w) (is : IsWord dst) (holds : HoldsTable 512 ls w)
      (new : lookup_name dst ls ≡ none) (heap : IsHeap w.heap) (chain : Chain w.heap ((a, v) ∷ cs))
      (at : pnr (some dst) w ≡ a)
      (other : occurs (some (sys.inet_ntoa requester)) (v ∷ values cs) ≡ false)
      (pushed : push a (some (sys.inet_ntoa requester)) w.heap ≡ ok tt g) where
    want_name-push :
        Yields tt (record (counted w) { heap = g }) (want_name requester (some dst) (counted w))
    unfolding want_name
    want_name-push = Yields-bind _ (log-Yields _ (counted w) can) λ l p.
        Yields-bind _
          (Yields-quiet (counted w) l p
            (cached dst ls w can is holds (quiet (counted w) l p) none can refl new))
          λ l p.
            Yields-quiet (record (counted w) { heap = g }) l p
              (register_nreq-push (quiet (counted w) l p) dst (some [])
                (some (sys.inet_ntoa requester)) can a v cs g heap chain at other pushed)

    -- A request for an address that is pending: the sender goes to the end of its list.
    handle_message-push :
        Yields tt
          (record (counted w) { heap = g })
          (handle_message requester (nreq_text (some dst)) w)
    unfolding handle_message handle_nreq
    handle_message-push = rw (nreq_text-strstr dst, request-words dst is) want_name-push

  get-deleted :
      (dst : Str) (w : World) → or_null (pnr_table.get (pnr_table.delete w.pnrs dst) (some dst)) ≡ 0
  get-deleted dst w =
      let same : key_eq (some dst) (some dst) ≡ true = (key_eq_iff (some dst) (some dst)).1 refl in
      ap or_null (pnr_table.get-delete w.pnrs dst (some dst))
      ∙ ap (λ b. or_null (if b then none else pnr_table.get w.pnrs (some dst))) same

  stranger : (requester : ℕ) → occurs (some (sys.inet_ntoa requester)) (none ∷ []) ≡ false
  unfolding same_val
  stranger requester = refl

  module _ (dst name line hop : Str) (ls : List HostLine) (w : World) (to from i : ℕ) (old : List ℕ)
      (is : IsWord dst) (word : IsWord name) (is_line : IsLine 512 (entry dst name))
      (ask : IsMessage (nreq_text (some dst))) (tell : IsMessage (nrep_text (some dst) (some name)))
      (tagged : strstr (nrep_text (some dst) (some name)) (codes "NREQ") ≡ false)
      (fit : FitsArray
        (length (nrep_text (some dst) (some name)))
        (nrep_text (some dst) (some name)))
      (asks : Asks dst hop line to i ls w) where
    pub Asks-Learns : Learns dst name line to from old w
    Asks-Learns =
        let (g, y, c, is_heap, same, used) =
          watch_line-new dst line ls w asks.can is.one_line asks.holds hop asks.route to asks.new
            asks.valid asks.fit i asks.set_up asks.first asks.is_heap asks.room asks.free in
        let asking = quiet (requested dst to (opened i dst g w)) y.logs y.popens in
        let holds : HoldsTable 512 ls asking = record {
          text = asks.holds.text;
          lines = asks.holds.lines;
        } in
        let self = put_self w dst (some hop) none asks.can w.heap.fresh g i in
        let x =
          handle_message-accepted dst ls asking asks.can is holds name from word tagged fit
            ((w.heap.fresh, none) ∷ []) [] asks.new asks.open_ok is_heap c self (local all) in
        record {
          asking = asking;
          watched = y.run;
          sent = refl;
          knowing = quiet (accepted dst name ls [] asking) x.logs x.popens;
          learned =
              listen_step-text old from (nrep_text (some dst) (some name)) asking tell.0 tell.1
              ∙ x.run;
          settled = get-deleted dst asking;
          named =
              passed_on-named dst name (nrep_text (some dst) (some name)) ls [] asking x.logs
                x.popens asks.can is holds asks.new is_line;
        }

    pub Asks-Passes :
        (requester : ℕ)
        → 1 < w.heap.room
        → requester < 2 ^ 32
        → Passes dst name line to requester from old w
    Asks-Passes requester space small =
        let (g, y, c, is_heap, same, used) =
          watch_line-new dst line ls w asks.can is.one_line asks.holds hop asks.route to asks.new
            asks.valid asks.fit i asks.set_up asks.first asks.is_heap asks.room asks.free in
        let asking = quiet (requested dst to (opened i dst g w)) y.logs y.popens in
        let holds : HoldsTable 512 ls asking = record {
          text = asks.holds.text;
          lines = asks.holds.lines;
        } in
        let self = put_self w dst (some hop) none asks.can w.heap.fresh g i in
        let r = some (sys.inet_ntoa requester) in
        let (_, h, e, (c', is_heap', same', next, used')) =
          Ensures-ok
            (push-append g w.heap.fresh none [] r is_heap c (omega (arith, used, space))) in
        let z =
          handle_message-push dst ls requester w.heap.fresh none [] asking h asks.can is holds
            asks.new is_heap c self (stranger requester) e in
        let waiting = quiet (record (counted asking) { heap = h }) z.logs z.popens in
        let holds' : HoldsTable 512 ls waiting = record {
          text = holds.text;
          lines = holds.lines;
        } in
        let x =
          handle_message-accepted dst ls waiting asks.can is holds' name from word tagged fit
            ((w.heap.fresh, none) ∷ (g.fresh, r) ∷ []) (requester ∷ []) asks.new asks.open_ok
            is_heap' c' self (local (remote (sys.inet_aton-ntoa requester small) all)) in
        record {
          asking = asking;
          watched = y.run;
          sent = refl;
          waiting = waiting;
          heard = listen_step-text old requester (nreq_text (some dst)) asking ask.0 ask.1 ∙ z.run;
          silent = refl;
          knowing = quiet (accepted dst name ls (requester ∷ []) waiting) x.logs x.popens;
          learned =
              listen_step-text old from (nrep_text (some dst) (some name)) waiting tell.0 tell.1
              ∙ x.run;
          passed = refl;
          named =
              passed_on-named dst name (nrep_text (some dst) (some name)) ls (requester ∷ [])
                waiting x.logs x.popens asks.can is holds' asks.new is_line;
        }
