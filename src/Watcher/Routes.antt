-- ===== src/Watcher/Routes.antt =====
-- What the daemon does with a line of `ip monitor route`.
use name_spread.Prelude.{
  ◌+◌, ℕ, ◌<◌, ◌≡◌, refl, Bool, true, false, Option, none, some, List, [], ◌∷◌, ◌==◌, if◌then◌else◌,
  ◌∙◌, ap, Bool-cases, inl, inr,
}
use name_spread.Text.{Str, codes, space, strtok, strstr}
use name_spread.Text.{Lacks, newline}
use name_spread.Machine.Run.{ok}
use name_spread.Machine.Cfu.{Cfu}
use name_spread.Machine.System.{System}
use name_spread.Machine.World.{World, Heap}
use name_spread.Logger.{CanLog}
use name_spread.Logger.Yields.{
  quiet, Yields, Yields-bind, Yields-here, Yields-quiet, log-Yields, log-then, log-last,
}
use name_spread.LinkedList.Chain.{Chain, IsHeap, SameOutside}
use name_spread.Hosts.Files.{contents}
use name_spread.LinkedList.{new_linked_list}
use name_spread.LinkedList.Fresh.{new_linked_list-single}
use name_spread.Machine.Ensures.{Ensures-ok}
use name_spread.Hosts.{hosts_path, get_name_by_addr}
use name_spread.Hosts.Table.{HostLine, lookup_name}
use name_spread.Hosts.Cache.{HoldsTable, get_name_by_addr-lookup}
use name_spread.Timers.{pnr, delete_pnr}
use name_spread.Timers.Ids.{FirstFree}
use name_spread.Network.Requests.{requested, FitsRequest, request_name-requested}
use name_spread.Pnr.Register.{opened, register_nreq-new_linked_list}
use name_spread.Watcher.{seek_name, look_up_name, route_added, forget, route_removed, watch_line}

-- The line tells of a new route to `dst` by `hop`: "<dst> via <hop> ...".
pub record NewRoute (dst hop line : Str) : Type 0 where
  pub via : strstr line (codes "via") ≡ true
  pub kept : strstr line (codes "Deleted") ≡ false
  pub rest : Str
  pub to : strtok space line ≡ (some dst, rest)
  pub by : (strtok space (strtok space rest).1).0 ≡ some hop

-- The line tells of a removed route to `dst`: "Deleted <dst> via ...".
pub record GoneRoute (dst line : Str) : Type 0 where
  pub via : strstr line (codes "via") ≡ true
  pub deleted : strstr line (codes "Deleted") ≡ true
  pub to : (strtok space (strtok space line).1).0 ≡ some dst

module _ ⦃pnr_table : Cfu ℕ⦄ ⦃timer_table : Cfu Str⦄ ⦃sys : System⦄ where
  -- A line on a route without a next hop is ignored.
  pub watch_line-direct :
      (line : Str) (w : World) → strstr line (codes "via") ≡ false → Yields tt w (watch_line line w)
  unfolding watch_line
  watch_line-direct line w direct = rw direct (Yields-here tt w w.logs w.popens)

  -- For an address with no pending request, the watcher opens one and asks the next hop.
  pub seek_name-opened :
      (dst hop : Str) (to : ℕ) (w : World) (i : ℕ) (g : Heap)
      → CanLog w
      → sys.handler_set ≡ true
      → FirstFree w.timer_ids i
      → new_linked_list none w.heap ≡ ok w.heap.fresh g
      → pnr (some dst) w ≡ 0
      → sys.inet_aton hop ≡ some to
      → FitsRequest dst
      → Yields tt (requested dst to (opened i dst g w)) (seek_name (some dst) (some hop) w)
  unfolding seek_name
  seek_name-opened dst hop to w i g can set_up first listed free valid fit = rw free (
      Yields-bind _
        (register_nreq-new_linked_list w dst (some hop) none can i g set_up first listed free)
        λ l p.
          Yields-quiet (requested dst to (opened i dst g w)) l p
            (request_name-requested dst hop to (quiet (opened i dst g w) l p) can valid fit))

  module _ (dst line : Str) (ls : List HostLine) (w : World) (can : CanLog w)
      (one_line : Lacks newline dst) (holds : HoldsTable 512 ls w) where
    found_name :
        (v : World) (l : List (Str × Str)) (p : List Bool) (name : Option Str)
        → CanLog v
        → contents hosts_path v ≡ contents hosts_path w
        → lookup_name dst ls ≡ name
        → Yields name v (get_name_by_addr (some dst) (quiet v l p))
    found_name v l p name can same known = Yields-quiet v l p (
        rw known at (
          get_name_by_addr-lookup dst ls (quiet v l p) can one_line
            (record { text = same ∙ holds.text; lines = holds.lines })))

    module _ (hop : Str) (route : NewRoute dst hop line) where
      watch_line-look_up :
          {v : World}
          → ((l : List (Str × Str)) (p : List Bool)
              → Yields tt v (look_up_name (some dst) (some hop) (quiet w l p)))
          → Yields tt v (watch_line line w)
      unfolding watch_line route_added
      watch_line-look_up next =
          rw (route.via, route.kept)
            (rw (route.to, route.by) (Yields-bind _ (log-Yields _ w can) next))

      -- A new route to an address in the table sends nothing and changes nothing but the log.
      pub watch_line-known :
          (name : Str) → lookup_name dst ls ≡ some name → Yields tt w (watch_line line w)
      unfolding look_up_name
      watch_line-known name known = watch_line-look_up λ l p.
          Yields-bind _ (found_name w l p (some name) can refl known) λ l p. log-last _ w l p can

      module _ (to : ℕ) (new : lookup_name dst ls ≡ none) (valid : sys.inet_aton hop ≡ some to)
          (fit : FitsRequest dst) where
        -- Let the log be writable, the next hop be readable and the request's text fit its array.
        -- A new route to an address without a name in the table and with a pending request sends
        -- one request to the next hop, counts it, and changes nothing else but the log and one
        -- socket.
        watch_line-pending :
            (pnr (some dst) w == 0) ≡ false → Yields tt (requested dst to w) (watch_line line w)
        unfolding look_up_name seek_name
        watch_line-pending pending = watch_line-look_up λ l p.
            Yields-bind _ (found_name w l p none can refl new) λ l p. rw pending (
              log-then _ w (requested dst to w) l p _ can λ l p.
                Yields-quiet (requested dst to w) l p
                  (request_name-requested dst hop to (quiet w l p) can valid fit))

        -- Let the log be writable, malloc have memory, sigaction succeed, the next hop be readable
        -- and the request's text fit its array. A new route to an address with neither a name in
        -- the table nor a pending request opens one, with a local requester alone and a new timer
        -- under the lowest free id, sends one request to the next hop and counts it, and changes
        -- nothing else but the log, one socket and one new node of the heap.
        pub watch_line-new :
            (i : ℕ)
            → sys.handler_set ≡ true
            → FirstFree w.timer_ids i
            → IsHeap w.heap
            → 0 < w.heap.room
            → pnr (some dst) w ≡ 0
            → (g : Heap) × Yields tt (requested dst to (opened i dst g w)) (watch_line line w)
              × Chain g ((w.heap.fresh, none) ∷ [])
              × IsHeap g
              × SameOutside ((w.heap.fresh, none) ∷ []) w.heap g
              × (g.room + 1 ≡ w.heap.room)
        unfolding look_up_name
        watch_line-new i set_up first is room free =
            let (a, g, e, (at, c, is', same, fr, rm)) =
              Ensures-ok (new_linked_list-single w.heap none is room) in
            let listed : new_linked_list none w.heap ≡ ok w.heap.fresh g =
              e ∙ ap (λ x. ok x g) at in
            (
              g,
              watch_line-look_up (λ l p. Yields-bind _ (found_name w l p none can refl new) λ l p.
                  Yields-quiet (requested dst to (opened i dst g w)) l p (
                    seek_name-opened dst hop to (quiet w l p) i g can set_up first listed free valid
                      fit)),
              c,
              is',
              same,
              rm,
            )

    -- A removed route withdraws the pending request.
    abbrev pub withdrawn : World
    withdrawn = if pnr (some dst) w == 0 then w else record w { pnrs = pnr_table.delete w.pnrs dst }

    forget-known :
        (name : Str) (l : List (Str × Str)) (p : List Bool)
        → lookup_name dst ls ≡ some name
        → Yields tt withdrawn (forget (some dst) (quiet w l p))
    unfolding forget delete_pnr
    forget-known name l p known = elim (Bool-cases (pnr (some dst) w == 0)) [
      | inl e ↦
          rw e (
            Yields-bind _ (found_name w l p (some name) can refl known) λ l p. Yields-here tt w l p)
      | inr e ↦
          let v = record w { pnrs = pnr_table.delete w.pnrs dst } in
          rw e (
            Yields-bind _ (found_name v l p (some name) can refl known) λ l p. Yields-here tt v l p)
    ]

    -- With the log writable, the removal of a route to an address that has a name in the table
    -- deletes the address's pending request, if there is one, and changes nothing else but the
    -- log: the name stays in the table.
    pub watch_line-gone :
        (name : Str)
        → GoneRoute dst line
        → lookup_name dst ls ≡ some name
        → Yields tt withdrawn (watch_line line w)
    unfolding watch_line route_removed
    watch_line-gone name route known =
        rw (route.via, route.deleted)
          (rw route.to (Yields-bind _ (log-Yields _ w can) λ l p. forget-known name l p known))
