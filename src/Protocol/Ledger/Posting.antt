-- ===== src/Protocol/Ledger/Posting.antt =====
-- The course on which the books grow, and request_name on it.
use name_spread.Prelude.{ℕ, ◌+◌, ◌≡◌, refl, Option, ◌∙◌, sym, subst, inl, inr, Bool-cases}
use name_spread.Text.{Str, fits}
use name_spread.Machine.Run.{modify}
use name_spread.Machine.Cfu.{Cfu}
use name_spread.Machine.System.{System}
use name_spread.Machine.World.{World, M}
use name_spread.Machine.Moves.{
  Runs, faulted, Sane-bind, Course, Moves, Onward, Moves-from, Moves-modify,
}
use name_spread.Logger.{log}
use name_spread.Network.{request_name, with_socket, with_packet, nreq_text, nreq_max_len}
use name_spread.Protocol.{Books, books, Permits}
use name_spread.Protocol.Loose.{Loose}
use name_spread.Protocol.Frame.{log-Moves, parse_addr-Moves}
use name_spread.Protocol.Ledger.{socket_opened, request_posted, Posts, begun, asked, Posts-follow}

module _ ⦃pnr_table : Cfu ℕ⦄ ⦃timer_table : Cfu Str⦄ ⦃sys : System⦄ where
  -- The course on which the books grow. It does not ask that loops end.
  abbrev pub ledger : Type 0 → Type 0 → Course World
  ledger Asks Listens = record {
    Cut = Unit {0};
    Leave = Unit {0};
    View = Books;
    Good = λ b w. books w ≡ b;
    Leads = Posts Asks Listens;
    stay = λ b. begun;
    follow = Posts-follow;
  }

  -- The course on which they stay as they are.
  abbrev silent : Course World
  silent = record {
    Cut = Unit {0};
    Leave = Unit {0};
    View = Books;
    Good = λ b w. books w ≡ b;
    Leads = λ b c. c ≡ b;
    stay = λ b. refl;
    follow = λ b c d p q. q ∙ p;
  }

  silent-Permits : Permits silent
  silent-Permits = record { keeps = λ b s t e f good. f ∙ good; leaves = λ b w good cannot. tt }

  pub ledger-Loose : (Asks Listens : Type 0) → Loose (ledger Asks Listens)
  ledger-Loose Asks Listens = record {
    permits = record { keeps = λ b s t e f good. f ∙ good; leaves = λ b w good cannot. tt };
    cuts = tt;
    keeps = λ b s t f own good. f ∙ good;
  }

  module _ {Asks Listens : Type 0} where
    pub log-Posts : (m : Str) → Moves (ledger Asks Listens) (log m)
    log-Posts = log-Moves (ledger Asks Listens) (ledger-Loose Asks Listens).permits

    pub onward :
        (b : Books) (w t : World)
        → books w ≡ b
        → Posts Asks Listens (books w) (books t)
        → Onward (ledger Asks Listens) b t
    onward b w t good p = (books t, refl, subst (λ c. Posts Asks Listens c (books t)) good p)

    -- Code after a change by which the books grow.
    pub change-then :
        {B : Type 0} (f : World → World) (k : M B)
        → ((w : World) → Posts Asks Listens (books w) (books (f w)))
        → Moves (ledger Asks Listens) k
        → Moves (ledger Asks Listens) (λ w. k (f w))
    change-then f k grows moves = record {
      at = λ b w good.
          Moves-from (ledger Asks Listens) b (f w) k (onward b w (f w) good (grows w)) moves;
    }

    pub change :
        (f : World → World)
        → ((w : World) → Posts Asks Listens (books w) (books (f w)))
        → Moves (ledger Asks Listens) (modify f)
    change f grows =
        Moves-modify (ledger Asks Listens) f (λ b w good. onward b w (f w) good (grows w))

    module _ (a : Asks) where
      -- The end of request_name, in a state whose books have one socket more than those of `w`.
      request_sent :
          (to : ℕ) (dst_addr : Option Str) (m : Str) (b : Books) (w t : World)
          → books w ≡ b
          → books t ≡ socket_opened (books w)
          → Runs
              (Unit {0})
              (Unit {0})
              (λ _ u. Onward (ledger Asks Listens) b u)
              (log m (record (with_packet to (nreq_text dst_addr) t) {
                total_nreqs = t.total_nreqs + 1;
              }))
      request_sent to dst_addr m b w t good same =
          let u = record (with_packet to (nreq_text dst_addr) t) {
            total_nreqs = t.total_nreqs + 1;
          } in
          let grown =
            subst (λ c. Posts Asks Listens (books w) (request_posted to dst_addr c)) (sym same)
              (asked to dst_addr a begun) in
          Moves-from (ledger Asks Listens) b u (log m) (onward b w u good grown) (log-Posts m)

      pub request_name-Posts :
          (dst_addr hop : Option Str) → Moves (ledger Asks Listens) (request_name dst_addr hop)
      unfolding request_name
      request_name-Posts dst_addr hop = record {
        at = λ b w good.
            Sane-bind _
              ((parse_addr-Moves silent silent-Permits hop 0 _).at (books (with_socket w))
                (with_socket w) refl)
              λ to t (c, same, lead).
                elim (Bool-cases (fits (sys.array_room nreq_max_len) (nreq_text dst_addr))) [
                  | inl fit ↦ rw fit (request_sent to dst_addr _ b w t good (same ∙ lead))
                  | inr long ↦ rw long faulted
                ];
      }
