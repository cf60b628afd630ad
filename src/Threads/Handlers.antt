-- ===== src/Threads/Handlers.antt =====
-- The handlers of the watcher (src/route_watcher.c) and the responder (src/nreq_responder.c) call by
-- call, from the point where they know the address.
use name_spread.Prelude.{
  ℕ, ◌≡◌, refl, Option, none, some, ◌∷◌, ◌++◌, [], ◌==◌, if◌then◌else◌, ◌∙◌, ap,
}
use name_spread.Text.{Str, codes, shown, newline}
use name_spread.Machine.Run.{Run, ok, fault, exited, out_of_fuel, Cmd, gets, and_then}
use name_spread.Machine.Cfu.{Cfu}
use name_spread.Machine.System.{System}
use name_spread.Machine.World.{World, M}
use name_spread.Logger.{log}
use name_spread.Hosts.{get_name_by_addr, cache_name}
use name_spread.Network.{request_name}
use name_spread.Timers.{pnr, delete_pnr}
use name_spread.Pnr.{register_nreq, respond_to_pnrs}
use name_spread.Responder.{take_name, accept_name}
use name_spread.Watcher.{look_up_name, seek_name}
use name_spread.Threads.Calls.{
  Task, finished, call, run_task, register_task, and_then-pure, and_then_cong,
  run_task-register_task, run_task-if,
}

-- A run that goes on in two steps.
bind_run :
    {S A B C : Type 0} (r : Run S A) (k : A → Cmd S B) (l : B → Cmd S C) (m : A → Cmd S C)
    → ((a : A) (s : S) → m a s ≡ and_then (k a s) l)
    → and_then r m ≡ and_then (and_then r k) l
bind_run (ok a s) k l m e = e a s
bind_run fault k l m e = refl
bind_run (exited s) k l m e = refl
bind_run out_of_fuel k l m e = refl

module _ ⦃pnr_table : Cfu ℕ⦄ ⦃timer_table : Cfu Str⦄ where
  -- One task after another.
  unfoldable pub then_task : Task → Task → Task
  then_task finished t = t
  then_task (call m next) t = call m λ b. then_task (next b) t

  run_task-then_task :
      (s t : Task) (w : World)
      → run_task (then_task s t) w ≡ and_then (run_task s w) (λ _. run_task t)
  unfolding run_task then_task
  run_task-then_task finished t w = refl
  run_task-then_task (call m next) t w = bind_run (m w) _ _ _ λ b v. run_task-then_task (next b) t v

module _ ⦃pnr_table : Cfu ℕ⦄ ⦃timer_table : Cfu Str⦄ ⦃sys : System⦄ where
  -- The watcher, for an address without a name.
  abbrev pub seek_task : Option Str → Option Str → Task
  seek_task dst_addr next_hop = call (gets (pnr dst_addr)) λ pending.
      if pending == 0
      then then_task (register_task dst_addr none)
          (call (request_name dst_addr next_hop) λ _. finished)
      else call
          (log (codes "[ROUTE] A PNR for host " ++ shown dst_addr ++ codes " already exists\n"))
          λ _. call (request_name dst_addr next_hop) λ _. finished

  -- The watcher, for a new route.
  abbrev pub look_up_task : Option Str → Option Str → Task
  look_up_task dst_addr next_hop = call (get_name_by_addr dst_addr) λ name. elim name [
    | none ↦ seek_task dst_addr next_hop
    | some n ↦
        call
          (log (
            codes "[ROUTE] A name for host "
            ++ shown dst_addr
            ++ codes " is already cached: "
            ++ n
            ++ newline ∷ []))
          λ _. finished
  ]

  -- The responder, for a request.
  -- The responder, for a reply.
  abbrev pub take_task : Option Str → Option Str → Str → Task
  take_task dst_addr name nrep_msg = call (get_name_by_addr dst_addr) λ known. elim known [
    | none ↦
        call
          (log (
            codes "[<-NREP] received name '"
            ++ shown name
            ++ codes "' for host "
            ++ shown dst_addr
            ++ newline ∷ []))
          λ _. call (cache_name dst_addr name) λ _.
            call (respond_to_pnrs dst_addr nrep_msg) λ _. call (delete_pnr dst_addr) λ _. finished
    | some n ↦ finished
  ]

  run_task-elim :
      (name : Option Str) (t : Task) (f : Str → Task) (m : M (Unit {0})) (g : Str → M (Unit {0}))
      (w : World)
      → run_task t w ≡ m w
      → ((n : Str) → run_task (f n) w ≡ g n w)
      → run_task (elim name [ none ↦ t | some n ↦ f n ]) w
        ≡ (elim name as (λ _. M (Unit {0})) [ none ↦ m | some n ↦ g n ]) w
  run_task-elim none t f m g w e h = e
  run_task-elim (some n) t f m g w e h = h n

  run_task-request :
      (dst_addr next_hop : Option Str) (w : World)
      → run_task (call (request_name dst_addr next_hop) λ _. finished) w
        ≡ request_name dst_addr next_hop w
  unfolding run_task
  run_task-request dst_addr hop w = and_then-pure (request_name dst_addr hop w)

  pub run_task-seek_task :
      (dst_addr next_hop : Option Str) (w : World)
      → run_task (seek_task dst_addr next_hop) w ≡ seek_name dst_addr next_hop w
  unfolding run_task seek_name
  run_task-seek_task dst_addr hop w =
      run_task-if (pnr dst_addr w == 0) _ _ _ _ w
        (run_task-then_task (register_task dst_addr none)
            (call (request_name dst_addr hop) λ _. finished) w
          ∙ ap (λ r. and_then r (λ _. run_task (call (request_name dst_addr hop) λ _. finished)))
              (run_task-register_task dst_addr hop none w)
          ∙ and_then_cong (register_nreq dst_addr hop none w) _ _
              (λ _ v. run_task-request dst_addr hop v))
        (and_then_cong (log _ w) _ _ λ _ v. run_task-request dst_addr hop v)

  run_task-look_up_task :
      (dst_addr next_hop : Option Str) (w : World)
      → run_task (look_up_task dst_addr next_hop) w ≡ look_up_name dst_addr next_hop w
  unfolding run_task look_up_name
  run_task-look_up_task dst_addr hop w = and_then_cong (get_name_by_addr dst_addr w) _ _ λ name v.
      run_task-elim name _ _ _ _ v (run_task-seek_task dst_addr hop v)
        (λ n. and_then-pure (log _ v))

  pub run_task-take_task :
      (dst_addr name : Option Str) (nrep_msg : Str) (w : World)
      → run_task (take_task dst_addr name nrep_msg) w ≡ take_name dst_addr name nrep_msg w
  unfolding run_task take_name accept_name
  run_task-take_task dst_addr name text w =
      and_then_cong (get_name_by_addr dst_addr w) _ _ λ known u.
        run_task-elim known _ _ _ _ u
          (and_then_cong (log _ u) _ _ λ _ v. and_then_cong (cache_name dst_addr name v) _ _ λ _ v.
            and_then_cong (respond_to_pnrs dst_addr text v) _ _
              λ _ v. and_then-pure (delete_pnr dst_addr v))
          (λ n. refl)
