-- ===== src/Protocol/Slack.antt =====
-- The operations on the pending requests, on any course on which a loop may be cut off, timers may be
-- started, and every step that leaves the network, the station's address and the timers alone is good.
use name_spread.Prelude.{ℕ, zero, suc, ◌≡◌, refl, List, Option, none, some}
use name_spread.Text.{Str}
use name_spread.Machine.Run.{Run, ok, fault, exited, out_of_fuel, Cmd, modify}
use name_spread.Machine.Cfu.{Cfu}
use name_spread.Machine.System.{System}
use name_spread.Machine.World.{World, Heap, Alarm}
use name_spread.Machine.Moves.{
  Runs, returned, faulted, left, cut_off, Course, Moves, Onward, Moves-bind, Moves-then, Moves-need,
  Moves-pure, Moves-modify, moves_rules,
}
use name_spread.Logger.{log}
use name_spread.LinkedList.Calm.{calm, load-Moves, push-Moves, new_linked_list-Moves}
use name_spread.Timers.{start_timer, delete_pnr}
use name_spread.Pnr.{
  on_heap, exists_loop, exists_in_list, join_pnr, open_pnr, warn_requester, register_nreq,
}
use name_spread.Protocol.{books, Permits}
use name_spread.Protocol.Frame.{log-Moves}
use name_spread.Protocol.Primitives.{Primitives}

module _ ⦃pnr_table : Cfu ℕ⦄ ⦃timer_table : Cfu Str⦄ ⦃sys : System⦄ where
  -- The array of ids and the running timers.
  abbrev pub timing : World → List ℕ × List Alarm
  timing w = (w.timer_ids, w.alarms)

  pub record Slack (c : Course World) : Type 0 where
    pub permits : Permits c
    pub cuts : c.Cut
    pub keeps :
        (g : c.View) (s t : World)
        → books t ≡ books s
        → t.own_addr ≡ s.own_addr
        → timing t ≡ timing s
        → c.Good g s
        → c.Good g t
    pub starts : (dst_addr : Option Str) → Moves c (start_timer dst_addr)

  module _ (c : Course World) (slack : Slack c) where
    say : (m : Str) → Moves c (log m)
    say = log-Moves c slack.permits

    keep :
        (f : World → World)
        → ((w : World) → books (f w) ≡ books w)
        → ((w : World) → (f w).own_addr ≡ w.own_addr)
        → ((w : World) → timing (f w) ≡ timing w)
        → Moves c (modify f)
    keep f same own on_time =
        Moves-modify c f
          λ g w good. (g, slack.keeps g w (f w) (same w) (own w) (on_time w) good, c.stay g)

    -- Code over the heap that does not leave the process.
    heap_run :
        {A : Type 0} (g : c.View) (w : World) (r : Run Heap A)
        → c.Good g w
        → Runs (Unit {0}) ⊥ (λ a h. Onward calm tt h) r
        → Runs c.Cut c.Leave
            (λ _ t. Onward c g t)
            (elim r as (λ _. Run World A) [
              | ok a h ↦ ok a (record w { heap = h })
              | fault ↦ fault
              | exited h ↦ exited (record w { heap = h })
              | out_of_fuel ↦ out_of_fuel
            ])
    heap_run g w (ok a h) good run = returned (g, slack.keeps g w _ refl refl refl good, c.stay g)
    heap_run g w fault good run = faulted
    heap_run g w (exited h) good (left l k) = absurd l
    heap_run g w out_of_fuel good run = cut_off slack.cuts

    pub on_heap-Moves : {A : Type 0} (m : Cmd Heap A) → Moves calm m → Moves c (on_heap m)
    on_heap-Moves m moves = record {
      at = λ g w good. heap_run g w (m w.heap) good (moves.at tt w.heap tt);
    }

    delete_pnr-Moves : (dst_addr : Option Str) → Moves c (delete_pnr dst_addr)
    unfolding delete_pnr
    delete_pnr-Moves dst_addr = Moves-bind c _ _ (Moves-need c dst_addr) λ key.
        keep (λ w. record w { pnrs = pnr_table.delete w.pnrs key }) (λ w. refl) (λ w. refl)
          (λ w. refl)

    exists_loop-Moves : (k p : ℕ) (r : Option Str) → Moves c (exists_loop k p r)
    unfolding exists_loop
    exists_loop-Moves zero p r = record { at = λ b w good. cut_off slack.cuts }
    exists_loop-Moves (suc k) p r =
        search (moves_rules, say, on_heap-Moves, load-Moves, exists_loop-Moves k) depth 14

    exists_in_list-Moves : (p : ℕ) (r : Option Str) → Moves c (exists_in_list p r)
    unfolding exists_in_list
    exists_in_list-Moves p r = record {
      at = λ b w good. (Moves-then c _ _ (say _) (exists_loop-Moves w.heap.fresh p r)).at b w good;
    }

    join_pnr-Moves : (p : ℕ) (dst_addr r : Option Str) → Moves c (join_pnr p dst_addr r)
    unfolding join_pnr
    join_pnr-Moves p dst_addr r =
        search (moves_rules, say, on_heap-Moves, push-Moves, exists_in_list-Moves) depth 14

    warn_requester-Moves : (dst_addr r : Option Str) → Moves c (warn_requester dst_addr r)
    unfolding warn_requester
    warn_requester-Moves dst_addr none = Moves-pure c tt
    warn_requester-Moves dst_addr (some r) = say _

    with_pnr-Moves :
        (dst_addr : Option Str) (p : ℕ)
        → Moves c (modify λ w. record w { pnrs = pnr_table.put w.pnrs dst_addr p })
    with_pnr-Moves dst_addr p = keep _ (λ w. refl) (λ w. refl) (λ w. refl)

    open_pnr-Moves : (dst_addr r : Option Str) → Moves c (open_pnr dst_addr r)
    unfolding open_pnr
    open_pnr-Moves dst_addr r =
        search
          (
            moves_rules, say, on_heap-Moves, new_linked_list-Moves, with_pnr-Moves, slack.starts,
            warn_requester-Moves,
          )
          depth 16

    register_nreq-Moves :
        (dst_addr next_hop r : Option Str) → Moves c (register_nreq dst_addr next_hop r)
    unfolding register_nreq
    register_nreq-Moves dst_addr next_hop r =
        search (moves_rules, open_pnr-Moves, join_pnr-Moves) depth 12

    pub slack-Primitives : Primitives c
    slack-Primitives = record {
      permits = slack.permits;
      starts = slack.starts;
      deletes = delete_pnr-Moves;
      registers = register_nreq-Moves;
    }
