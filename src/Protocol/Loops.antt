-- ===== src/Protocol/Loops.antt =====
-- The loop of listen_for_nreqs (src/nreq_responder.c) as a sequence of the daemon's steps.
use name_spread.Prelude.{◌↔◌, sym, ◌∙◌, ℕ, ◌≡◌, refl, Option, List, [], ◌∷◌}
use name_spread.Text.{Str}
use name_spread.Machine.Run.{Run, ok, out_of_fuel}
use name_spread.Machine.Cfu.{Cfu}
use name_spread.Machine.System.{System}
use name_spread.Machine.World.{World}
use name_spread.Machine.Moves.{Sane, returned, faulted, left, cut_off, Sane-bind, Sane-weaken, ran}
use name_spread.LinkedList.Chain.{IsHeap}
use name_spread.Responder.{listen_loop, listen_step, cleared, handle_message}
use name_spread.Responder.Messages.{Carries, listen_step-Carries}
use name_spread.Daemon.Events.{Event, datagram, handle, handled, Reaches, stepped}
use name_spread.Protocol.Reached.{Reaches-IsSound, handle_step, not_cut_off}

pub Sane-run :
    {S A : Type 0} {P : A → S → Type 0} (r : Run S A)
    → Sane P r
    → Sane (λ a s. (r ≡ ok a s) × P a s) r
Sane-run r (returned p) = returned (refl, p)
Sane-run r faulted = faulted
Sane-run r (left l s) = left l s
Sane-run r (cut_off c) = cut_off c

module _ ⦃pnr_table : Cfu ℕ⦄ ⦃timer_table : Cfu Str⦄ ⦃sys : System⦄ where
  -- The messages, each with its sender, are handled in this order, and the handling of each returns.
  pub data Reads : List (ℕ × Str) → World → World → Type 0 where
    read_all : {u : World} → Reads [] u u
    reads :
        {requester : ℕ} {text : Str} {rest : List (ℕ × Str)} {u v t : World}
        → handle_message requester text u ≡ ok tt v
        → Reads rest v t
        → Reads ((requester, text) ∷ rest) u t

  -- Each datagram carries the message, and comes from its sender.
  pub data Arrives : List (ℕ × Str) → List (ℕ × List ℕ) → Type 0 where
    arrived : Arrives [] []
    arrives :
        {requester : ℕ} {text : Str} {bytes : List ℕ} {rest : List (ℕ × Str)}
        {later : List (ℕ × List ℕ)}
        → Carries text bytes
        → Arrives rest later
        → Arrives ((requester, text) ∷ rest) ((requester, bytes) ∷ later)

  module _ (argument : Option Str) (w : World) (is : IsHeap w.heap) where
    pub handle-run :
        (e : Event) (u : World)
        → Reaches argument w u
        → Sane (λ _ v. (handle e u ≡ ok tt v) × Reaches argument w v) (handle e u)
    handle-run e u r =
        let (g, good, lead) = Reaches-IsSound argument w u is r in
        Sane-weaken (Sane-run (handle e u) (handle_step e g u good))
          λ a v (run, on). (run, stepped r (handled e run))

    cleared-Reads :
        (messages : List (ℕ × Str)) (arrivals : List (ℕ × List ℕ)) (u : World)
        → Arrives messages arrivals
        → Reaches argument w u
        → Sane (λ _ v. Reads messages u v × Reaches argument w v) (listen_loop cleared arrivals u)
    unfolding listen_loop handle
    cleared-Reads messages arrivals u arrived r = returned (read_all, r)
    cleared-Reads messages arrivals u
          (arrives {requester} {text} {bytes} {rest} {later} carries more) r =
        Sane-bind _ (handle-run (datagram cleared requester bytes) u r) λ a v (run, r').
          Sane-weaken (cleared-Reads rest later v more r') λ b t (read, r'').
            (reads (sym (listen_step-Carries requester text bytes u carries) ∙ run) read, r'')

    listen_loop-Sane :
        (old : List ℕ) (requester : ℕ) (bytes : List ℕ) (messages : List (ℕ × Str))
        (arrivals : List (ℕ × List ℕ)) (u : World)
        → Reaches argument w u
        → Arrives messages arrivals
        → Sane
            (λ _ v.
              (t : World) × (listen_step old requester bytes u ≡ ok tt t)
              × Reads messages t v
              × Reaches argument w v)
            (listen_loop old ((requester, bytes) ∷ arrivals) u)
    unfolding listen_loop handle
    listen_loop-Sane old requester bytes messages arrivals u r arrive =
        Sane-bind _ (handle-run (datagram old requester bytes) u r) λ a t (run, r').
          Sane-weaken (cleared-Reads messages arrivals t arrive r')
            λ b v (read, r''). (t, run, read, r'')

    cleared-run :
        (messages : List (ℕ × Str)) (arrivals : List (ℕ × List ℕ)) (u v : World)
        → Arrives messages arrivals
        → Reads messages u v
        → listen_loop cleared arrivals u ≡ ok tt v
    unfolding listen_loop
    cleared-run messages arrivals u v arrived read_all = refl
    cleared-run messages arrivals u v
          (arrives {requester} {text} {bytes} {rest} {later} carries more)
          (reads {v = t} run read) =
        rw (listen_step-Carries requester text bytes u carries, run)
          (cleared-run rest later t v more read)

    -- Let the heap have handed out no address from `fresh` on when the daemon starts, and the loop
    -- be entered in a state that the daemon comes to, with a buffer that holds anything. Let any
    -- datagram arrive first, and after it datagrams each of which carries a message without NUL
    -- that is shorter than the buffer, with a NUL behind it or without. Then the loop is not cut
    -- off, and it returns in a state exactly if the first datagram is handled with the buffer as
    -- it was, and after it each message alone, as from its sender, in order, where each handling
    -- returns and the last one does in that state.
    pub listen_loop-Reads :
        (old : List ℕ) (requester : ℕ) (bytes : List ℕ) (messages : List (ℕ × Str))
        (arrivals : List (ℕ × List ℕ)) (u v : World)
        → Reaches argument w u
        → Arrives messages arrivals
        → (¬ (listen_loop old ((requester, bytes) ∷ arrivals) u ≡ out_of_fuel))
          × ((listen_loop old ((requester, bytes) ∷ arrivals) u ≡ ok tt v)
              ↔ ((t : World) × (listen_step old requester bytes u ≡ ok tt t) × Reads messages t v))
    unfolding listen_loop
    listen_loop-Reads old requester bytes messages arrivals u v r arrive =
        let runs = listen_loop-Sane old requester bytes messages arrivals u r arrive in
        (
          not_cut_off runs,
          (
            λ e. let (t, first, read, r') = ran runs e in (t, first, read),
            λ (t, first, read). rw first (cleared-run messages arrivals t v arrive read),
          ),
        )
