-- ===== src/Threads/Calls.antt =====
-- register_nreq of src/route_watcher.c call by call, for the watcher and the responder at the same
-- time. One call of the log, the heap, a table or the timers is one step.
use name_spread.Prelude.{
  ℕ, ◌≡◌, refl, Bool, Bool-cases, true, false, inl, inr, Option, List, [], ◌∷◌, ◌++◌, ◌==◌,
  if◌then◌else◌,
}
use name_spread.Text.{Str, codes, shown, newline, decimal}
use name_spread.Machine.Run.{
  Run, ok, fault, exited, out_of_fuel, Cmd, pure, gets, modify, and_then, ◌>>=◌, ◌>>◌,
}
use name_spread.Machine.Cfu.{Cfu}
use name_spread.Machine.System.{System}
use name_spread.Machine.World.{World, M}
use name_spread.Logger.{log}
use name_spread.LinkedList.{push, new_linked_list}
use name_spread.Timers.{pnr, start_timer}
use name_spread.Pnr.{
  checking, on_heap, exists_in_list, join_pnr, warn_requester, open_pnr, register_nreq,
}
use name_spread.Threads.{Thread, watcher, responder}

module _ ⦃pnr_table : Cfu ℕ⦄ ⦃timer_table : Cfu Str⦄ where
  -- What a thread still has to do: a call, and then what its result leads to.
  pub data Task : Type 1 where
    finished : Task
    call : {B : Type 0} → M B → (B → Task) → Task

  -- The thread runs without a break.
  unfoldable pub run_task : Task → M (Unit {0})
  run_task finished = pure tt
  run_task (call m next) = do b ← m; run_task (next b)

  -- The threads take turns as the list says; when it ends, the responder runs to its end, and then the watcher.
  unfoldable pub interleave : List Thread → Task → Task → M (Unit {0})
  unfolding run_task
  interleave [] s t = do run_task t; run_task s
  interleave (watcher ∷ turns) finished t = run_task t
  interleave (watcher ∷ turns) (call m next) t = do b ← m; interleave turns (next b) t
  interleave (responder ∷ turns) s finished = run_task s
  interleave (responder ∷ turns) s (call m next) = do b ← m; interleave turns s (next b)

module _ ⦃pnr_table : Cfu ℕ⦄ ⦃timer_table : Cfu Str⦄ ⦃sys : System⦄ where
  -- The messages at the end of register_nreq.
  abbrev pub said_task : Option Str → Option Str → ℕ → Task
  said_task dst_addr requester_addr id =
      call
        (log (
          codes "[TIMER+] Started timer "
          ++ decimal id
          ++ codes " for NREQ of "
          ++ shown dst_addr
          ++ newline ∷ []))
        λ _. call (warn_requester dst_addr requester_addr) λ _.
          call
            (log (
              codes "[PNR+] Created new PNR for "
              ++ shown dst_addr
              ++ codes " with "
              ++ shown requester_addr
              ++ codes " as 1st requester\n"))
            λ _. finished

  -- The new list is entered in the table, and a timer started.
  abbrev pub put_task : Option Str → Option Str → ℕ → Task
  put_task dst_addr requester_addr requesters_list =
      call (modify (λ w. record w { pnrs = pnr_table.put w.pnrs dst_addr requesters_list }))
        λ _. call (start_timer dst_addr) λ id. said_task dst_addr requester_addr id

  -- The calls for an address with no list of requesters.
  abbrev pub open_task : Option Str → Option Str → Task
  open_task dst_addr requester_addr =
      call (on_heap (new_linked_list requester_addr))
        λ requesters_list. put_task dst_addr requester_addr requesters_list

  -- The calls for an address with a list.
  abbrev pub join_task : ℕ → Option Str → Option Str → Task
  join_task requesters_list dst_addr requester_addr =
      call (exists_in_list requesters_list requester_addr) λ found.
        if found
        then call
            (log (
              codes "[PNR] "
              ++ shown requester_addr
              ++ codes " already is a requester for "
              ++ shown dst_addr
              ++ codes " in PNRs table\n"))
            (λ _. finished)
        else call (log (checking ++ codes "done\n")) λ _.
          call (on_heap (push requesters_list requester_addr)) λ _.
            call
              (log (
                codes "[PNR++] Added "
                ++ shown requester_addr
                ++ codes " as a requester for "
                ++ shown dst_addr
                ++ codes " in PNRs table\n"))
              λ _. finished

  abbrev pub register_task : Option Str → Option Str → Task
  register_task dst_addr requester_addr = call (gets (pnr dst_addr)) λ requesters_list.
      if requesters_list == 0
      then open_task dst_addr requester_addr
      else join_task requesters_list dst_addr requester_addr

pub and_then-pure : {S : Type 0} (r : Run S (Unit {0})) → and_then r (λ _. pure tt) ≡ r
and_then-pure (ok a s) = refl
and_then-pure fault = refl
and_then-pure (exited s) = refl
and_then-pure out_of_fuel = refl

pub and_then_cong :
    {S A B : Type 0} (r : Run S A) (k l : A → Cmd S B)
    → ((a : A) (s : S) → k a s ≡ l a s)
    → and_then r k ≡ and_then r l
and_then_cong (ok a s) k l e = e a s
and_then_cong fault k l e = refl
and_then_cong (exited s) k l e = refl
and_then_cong out_of_fuel k l e = refl

module _ ⦃pnr_table : Cfu ℕ⦄ ⦃timer_table : Cfu Str⦄ ⦃sys : System⦄ where
  pub run_task-open_task :
      (dst_addr requester_addr : Option Str) (w : World)
      → run_task (open_task dst_addr requester_addr) w ≡ open_pnr dst_addr requester_addr w
  unfolding run_task open_pnr
  run_task-open_task dst_addr r w = and_then_cong (on_heap (new_linked_list r) w) _ _ λ l v.
      and_then_cong (start_timer dst_addr (record v { pnrs = pnr_table.put v.pnrs dst_addr l })) _ _
        λ id v.
          and_then_cong (log _ v) _ _
            λ _ v. and_then_cong (warn_requester dst_addr r v) _ _ λ _ v. and_then-pure (log _ v)

  run_task-join_task :
      (l : ℕ) (dst_addr requester_addr : Option Str) (w : World)
      → run_task (join_task l dst_addr requester_addr) w ≡ join_pnr l dst_addr requester_addr w
  unfolding run_task join_pnr
  run_task-join_task l dst_addr r w = and_then_cong (exists_in_list l r w) _ _ λ found v.
      elim (Bool-cases found) [
        | inl e ↦ rw e (and_then-pure (log _ v))
        | inr e ↦ rw e (
            and_then_cong (log _ v) _ _
              λ _ v. and_then_cong (on_heap (push l r) v) _ _ λ _ v. and_then-pure (log _ v))
      ]

  pub run_task-if :
      (b : Bool) (s t : Task) (m n : M (Unit {0})) (w : World)
      → run_task s w ≡ m w
      → run_task t w ≡ n w
      → run_task (if b then s else t) w ≡ (if b then m else n) w
  run_task-if true s t m n w e f = e
  run_task-if false s t m n w e f = f

  -- The calls of register_nreq, made without a break, are register_nreq.
  pub run_task-register_task :
      (dst_addr next_hop requester_addr : Option Str) (w : World)
      → run_task (register_task dst_addr requester_addr) w
        ≡ register_nreq dst_addr next_hop requester_addr w
  unfolding run_task register_nreq
  run_task-register_task dst_addr hop r w =
      run_task-if (pnr dst_addr w == 0) _ _ _ _ w (run_task-open_task dst_addr r w)
        (run_task-join_task (pnr dst_addr w) dst_addr r w)
