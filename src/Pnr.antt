-- ===== src/Pnr.antt =====
-- Pending name requests: exists_in_list of src/linked_list.c, register_nreq of src/route_watcher.c
-- and respond_to_pnrs of src/nreq_responder.c.
pub mod Requesters
pub mod Register
pub mod Waiting
use name_spread.Prelude.{
  ℕ, zero, suc, ◌+◌, Bool, true, false, Option, none, some, [], ◌∷◌, ◌++◌, ◌==◌, if◌then◌else◌,
}
use name_spread.Text.{Str, codes, shown, str_eq, space, newline, decimal, after_last}
use name_spread.Machine.Run.{out_of_fuel, Cmd, pure, gets, need, modify, on_part, ◌>>=◌, ◌>>◌}
use name_spread.Machine.Cfu.{Cfu}
use name_spread.Machine.System.{System}
use name_spread.Machine.World.{M, Heap}
use name_spread.Logger.{log}
use name_spread.LinkedList.{load, push, new_linked_list}
use name_spread.Network.{with_socket, with_packet, parse_addr}
use name_spread.Timers.{pnr, start_timer}

-- The bytes of "»»»»»»» checking list "
abbrev pub checking : Str
checking =
    194
    ∷ 187
    ∷ 194
    ∷ 187
    ∷ 194
    ∷ 187
    ∷ 194
    ∷ 187
    ∷ 194
    ∷ 187
    ∷ 194
    ∷ 187
    ∷ 194
    ∷ 187
    ∷ codes " checking list "

-- `val != NULL && elem != NULL && strcmp(val, elem) == 0`
unfoldable pub same_val : Option Str → Option Str → Bool
same_val (some s) (some t) = str_eq s t
same_val _ _ = false

module _ ⦃pnr_table : Cfu ℕ⦄ ⦃timer_table : Cfu Str⦄ ⦃sys : System⦄ where
  -- Code over the heap, run in the daemon.
  abbrev pub on_heap : {A : Type 0} → Cmd Heap A → M A
  on_heap = on_part (λ w. w.heap) (λ w h. record w { heap = h })

  unfoldable pub exists_loop : ℕ → ℕ → Option Str → M Bool
  unfolding same_val
  exists_loop zero current elem = λ _. out_of_fuel
  exists_loop (suc k) current elem =
      if current == 0 then (do log (checking ++ codes "done!!!!\n"); pure false) else do
        n ← on_heap (load current)
        log (checking ++ codes "2 " ++ shown n.val ++ codes " " ++ shown elem ++ newline ∷ [])
        if same_val n.val elem then pure true else do
          log (checking ++ codes "21\n")
          log (checking ++ codes "22\n")
          exists_loop k n.next elem

  -- A list has fewer nodes than there are addresses below `fresh`.
  unfoldable pub exists_in_list : ℕ → Option Str → M Bool
  unfolding exists_loop
  exists_in_list head elem w =
      (do log (checking ++ codes "1\n"); exists_loop w.heap.fresh head elem) w

  -- The branch of register_nreq for an address with a list of requesters.
  unfoldable pub join_pnr : ℕ → Option Str → Option Str → M (Unit {0})
  join_pnr requesters_list dst_addr requester_addr = do
    found ← exists_in_list requesters_list requester_addr
    if found
        then log (
            codes "[PNR] "
            ++ shown requester_addr
            ++ codes " already is a requester for "
            ++ shown dst_addr
            ++ codes " in PNRs table\n")
        else do
          log (checking ++ codes "done\n")
          on_heap (push requesters_list requester_addr)
          log (
              codes "[PNR++] Added "
              ++ shown requester_addr
              ++ codes " as a requester for "
              ++ shown dst_addr
              ++ codes " in PNRs table\n")

  -- The warning for a request from another node.
  unfoldable pub warn_requester : Option Str → Option Str → M (Unit {0})
  warn_requester dst_addr none = pure tt
  warn_requester dst_addr (some requester) = log (
      codes "[PNR_WARNING] New PNR for "
      ++ shown dst_addr
      ++ codes " (from "
      ++ requester
      ++ codes ") created but NREQ was not sent!\n")

  -- The branch for an address with none.
  unfoldable pub open_pnr : Option Str → Option Str → M (Unit {0})
  unfolding warn_requester
  open_pnr dst_addr requester_addr = do
    requesters_list ← on_heap (new_linked_list requester_addr)
    modify (λ w. record w { pnrs = pnr_table.put w.pnrs dst_addr requesters_list })
    id ← start_timer dst_addr
    log (
        codes "[TIMER+] Started timer "
        ++ decimal id
        ++ codes " for NREQ of "
        ++ shown dst_addr
        ++ newline ∷ [])
    warn_requester dst_addr requester_addr
    log (
        codes "[PNR+] Created new PNR for "
        ++ shown dst_addr
        ++ codes " with "
        ++ shown requester_addr
        ++ codes " as 1st requester\n")

  -- The next hop is not used.
  unfoldable pub register_nreq : Option Str → Option Str → Option Str → M (Unit {0})
  unfolding join_pnr open_pnr
  register_nreq dst_addr next_hop requester_addr = do
    requesters_list ← gets (pnr dst_addr)
    if requesters_list == 0
        then open_pnr dst_addr requester_addr
        else join_pnr requesters_list dst_addr requester_addr

  -- One requester; the address at hand stays where inet_aton finds none.
  unfoldable pub answer : ℕ → Str → Option Str → M ℕ
  answer to nrep_msg requester_addr = do
    to' ← parse_addr requester_addr to (codes "[ ERROR ] Invalid requester addr address\n")
    modify (with_packet to' nrep_msg)
    modify (λ w. record w { total_nreps = w.total_nreps + 1 })
    name ← need (after_last space nrep_msg)
    log (
        codes "[NREP->***] Sent name '"
        ++ name
        ++ codes "' to waiting requester "
        ++ shown requester_addr
        ++ newline ∷ [])
    pure to'

  unfoldable pub respond_loop : ℕ → ℕ → ℕ → Str → M (Unit {0})
  unfolding answer
  respond_loop zero requesters_list to nrep_msg = λ _. out_of_fuel
  respond_loop (suc k) requesters_list to nrep_msg = if requesters_list == 0 then pure tt else do
    n ← on_heap (load requesters_list)
    elim n.val [
      | none ↦ respond_loop k n.next to nrep_msg
      | some requester ↦ do
        to' ← answer to nrep_msg (some requester)
        respond_loop k n.next to' nrep_msg
    ]

  -- The address is 0 before the first requester.
  unfoldable pub respond_to_pnrs : Option Str → Str → M (Unit {0})
  unfolding respond_loop
  respond_to_pnrs dst_addr nrep_msg w =
      (do modify with_socket; respond_loop w.heap.fresh (pnr dst_addr w) 0 nrep_msg) w
