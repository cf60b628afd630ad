-- ===== src/Protocol/Lines.antt =====
-- The loop of watch_routes (src/route_watcher.c) as a sequence of the daemon's steps.
use name_spread.Prelude.{
  ◌↔◌, ap, subst, sym, ◌∙◌, ◌++◌, ◌+◌, ◌≤◌, map, length, All, append_assoc, ℕ, ◌≡◌, refl, Bool,
  true, false, Option, List, [], ◌∷◌, if◌then◌else◌,
}
use name_spread.Text.{Str, Lacks, newline, fgets_lines, pieces}
use mathlib.Core.List.{flatten}
use name_spread.Machine.Run.{ok, out_of_fuel, leave, ◌>>◌}
use name_spread.Machine.Cfu.{Cfu}
use name_spread.Machine.System.{System}
use name_spread.Machine.World.{World}
use name_spread.Machine.Moves.{Sane, returned, left, Sane-bind, Sane-weaken, ran}
use name_spread.Logger.{log}
use name_spread.LinkedList.Chain.{IsHeap}
use name_spread.Hosts.Files.{popen, popen-ok}
use name_spread.Watcher.{watch_lines, watch_routes}
use name_spread.Text.Lines.{fgets_lines-line}
use name_spread.Daemon.Events.{Event, route_line, handle, outside, Reaches, stepped}
use name_spread.Protocol.Frame.{log-Moves}
use name_spread.Protocol.Requests.{daemon, daemon-Permits}
use name_spread.Protocol.Reached.{Reaches-IsSound, not_cut_off}
use name_spread.Protocol.Loops.{Sane-run, handle-run}

-- The lines of a text.
abbrev pub ended : Str → Str
ended s = s ++ newline ∷ []

-- The line fits the watcher's buffer.
abbrev pub IsRouteLine : Str → Type 0
IsRouteLine s = Lacks newline s × (length s + 2 ≤ 1024)

fgets_lines-none : fgets_lines 1024 [] ≡ []
unfolding fgets_lines pieces
fgets_lines-none = refl

fgets_lines-ended :
    (ls : List Str) → All IsRouteLine ls → fgets_lines 1024 (flatten (map ended ls)) ≡ map ended ls
unfolding flatten
fgets_lines-ended [] fit = fgets_lines-none
fgets_lines-ended (l ∷ ls) ((one_line, short), fit) =
    ap (fgets_lines 1024) (append_assoc l (newline ∷ []) (flatten (map ended ls)))
    ∙ fgets_lines-line 1024 l (flatten (map ended ls)) one_line short
    ∙ ap (λ x. ended l ∷ x) (fgets_lines-ended ls fit)

module _ ⦃pnr_table : Cfu ℕ⦄ ⦃timer_table : Cfu Str⦄ ⦃sys : System⦄ where
  -- The events are handled in this order, and the handling of each returns.
  pub data Handles : List Event → World → World → Type 0 where
    handled_all : {u : World} → Handles [] u u
    handles :
        {e : Event} {es : List Event} {u v t : World}
        → handle e u ≡ ok tt v
        → Handles es v t
        → Handles (e ∷ es) u t

  module _ (argument : Option Str) (w : World) (is : IsHeap w.heap) where
    watch_lines-Handles :
        (lines : List Str) (u : World)
        → Reaches argument w u
        → Sane
            (λ _ v. Handles (map route_line lines) u v × Reaches argument w v)
            (watch_lines lines u)
    unfolding watch_lines handle
    watch_lines-Handles [] u r = returned (handled_all, r)
    watch_lines-Handles (line ∷ lines) u r =
        Sane-bind _ (handle-run argument w is (route_line line) u r) λ a t (run, r').
          Sane-weaken (watch_lines-Handles lines t r') λ b v (more, r''). (handles run more, r'')

    piped-Handles :
        (piped : Bool) (lines : List Str) (m : Str) (u t : World)
        → popen u ≡ ok piped t
        → All IsRouteLine lines
        → Reaches argument w t
        → Sane
            (λ _ v.
              (s : World) × (popen u ≡ ok true s)
              × Handles (map route_line (map ended lines)) s v
              × Reaches argument w v)
            ((if piped
                then watch_lines (fgets_lines 1024 (flatten (map ended lines)))
                else (log m >> leave))
              t)
    piped-Handles true lines m u t opens fit r = rw (fgets_lines-ended lines fit) (
        Sane-weaken (watch_lines-Handles (map ended lines) t r)
          λ a v (handling, r'). (t, opens, handling, r'))
    piped-Handles false lines m u t opens fit r =
        let (g, good, lead) = Reaches-IsSound argument w t is r in
        Sane-bind (λ _. leave) ((log-Moves daemon daemon-Permits m).at g t good) λ a v on. left tt v

    piped-Reaches :
        (popens : List Bool) (u : World)
        → u.popens ≡ popens
        → Reaches argument w u
        → Sane (λ _ t. Reaches argument w t) (popen u)
    unfolding popen
    piped-Reaches [] u e r =
        subst (Sane (λ _ t. Reaches argument w t)) (sym (popen-ok u e)) (returned r)
    piped-Reaches (b ∷ rest) u e r =
        rw e (returned (stepped r (outside u.files u.routes rest u.clock)))

    popen-Reaches :
        (u : World)
        → Reaches argument w u
        → Sane (λ piped t. (popen u ≡ ok piped t) × Reaches argument w t) (popen u)
    popen-Reaches u r =
        Sane-weaken (Sane-run (popen u) (piped-Reaches u.popens u refl r)) λ piped t opens. opens

    watch_routes-Sane :
        (lines : List Str) (u : World)
        → Reaches argument w u
        → All IsRouteLine lines
        → Sane
            (λ _ v.
              (t : World) × (popen u ≡ ok true t)
              × Handles (map route_line (map ended lines)) t v
              × Reaches argument w v)
            (watch_routes (flatten (map ended lines)) u)
    unfolding watch_routes
    watch_routes-Sane lines u r fit =
        Sane-bind _ (popen-Reaches u r)
          λ piped t (opens, r'). piped-Handles piped lines _ u t opens fit r'

    watch_lines-run :
        (lines : List Str) (u v : World)
        → Handles (map route_line lines) u v
        → watch_lines lines u ≡ ok tt v
    unfolding watch_lines handle
    watch_lines-run [] u v handled_all = refl
    watch_lines-run (line ∷ lines) u v (handles {v = t} run more) =
        rw run (watch_lines-run lines t v more)

    -- Let the heap have handed out no address from `fresh` on when the daemon starts, and
    -- watch_routes be called in a state that the daemon comes to. Let `ip monitor route` print
    -- lines that fit the buffer, each with a newline at its end. Then the loop is not cut off, and
    -- watch_routes returns in a state exactly if popen succeeds and each line, with its newline,
    -- is then handled as a route line, in order, where each handling returns and the last one does
    -- in that state.
    pub watch_routes-Handles :
        (lines : List Str) (u v : World)
        → Reaches argument w u
        → All IsRouteLine lines
        → (¬ (watch_routes (flatten (map ended lines)) u ≡ out_of_fuel))
          × ((watch_routes (flatten (map ended lines)) u ≡ ok tt v) ↔ (
              (t : World) × (popen u ≡ ok true t) × Handles (map route_line (map ended lines)) t v))
    unfolding watch_routes
    watch_routes-Handles lines u v r fit =
        let runs = watch_routes-Sane lines u r fit in
        (
          not_cut_off runs,
          (
            λ e. let (t, opens, handling, r') = ran runs e in (t, opens, handling),
            λ (t, opens, handling).
                rw (opens, fgets_lines-ended lines fit)
                  (watch_lines-run (map ended lines) t v handling),
          ),
        )
