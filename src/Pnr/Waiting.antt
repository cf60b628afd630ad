-- ===== src/Pnr/Waiting.antt =====
-- The requesters of an address as a list of values, and what register_nreq does to it.
use name_spread.Prelude.{
  ℕ, ◌<◌, ◌≡◌, refl, Bool, true, Option, some, List, [], ◌∷◌, ◌++◌, Bool-cases, inl, inr, subst,
}
use name_spread.Text.{Str}
use name_spread.Machine.Run.{Run}
use name_spread.Machine.Ensures.{Ensures, ensured}
use name_spread.Machine.Cfu.{Cfu}
use name_spread.Machine.System.{System}
use name_spread.Machine.World.{World}
use name_spread.Logger.{CanLog}
use name_spread.Logger.Yields.{quiet, Yields}
use name_spread.LinkedList.Chain.{values-append, Cells, head_of, values, Chain, IsHeap}
use name_spread.Timers.{pnr}
use name_spread.Timers.Ids.{FirstFree}
use name_spread.Pnr.{register_nreq}
use name_spread.Pnr.Requesters.{enlist, occurs}
use name_spread.Pnr.Register.{
  register_nreq-opened, register_nreq-listed, register_nreq-joined, put_self,
}

module _ ⦃pnr_table : Cfu ℕ⦄ ⦃timer_table : Cfu Str⦄ ⦃sys : System⦄ where
  -- The requesters of the address are `vs`, the first one first; with none, no request is pending.
  pub record Waiting (dst_addr : Option Str) (vs : List (Option Str)) (w : World) : Type 0 where
    pub cells : Cells
    pub head : pnr dst_addr w ≡ head_of cells
    pub vals : values cells ≡ vs
    pub chain : Chain w.heap cells
    pub heap : IsHeap w.heap

  pub Waiting-quiet :
      (dst_addr : Option Str) (vs : List (Option Str)) (w : World) (l : List (Str × Str))
      (p : List Bool)
      → Waiting dst_addr vs w
      → Waiting dst_addr vs (quiet w l p)
  Waiting-quiet dst_addr vs w l p wait = record {
    cells = wait.cells;
    head = wait.head;
    vals = wait.vals;
    chain = wait.chain;
    heap = wait.heap;
  }

  pub Ensures-Yields :
      {A : Type 0} {a : A} {w : World} {r : Run World A} {P : A → World → Type 0}
      → Yields a w r
      → ((l : List (Str × Str)) (p : List Bool) → P a (quiet w l p))
      → Ensures P r
  Ensures-Yields y holds = rw y.run (ensured (holds y.logs y.popens))

  module _ (w : World) (dst : Str) (hop r : Option Str) (can : CanLog w) where
    enlist_lem :
        (i : ℕ)
        → sys.handler_set ≡ true
        → FirstFree w.timer_ids i
        → 0 < w.heap.room
        → (cs : Cells) → pnr (some dst) w ≡ head_of cs
        → Chain w.heap cs
        → IsHeap w.heap
        → Ensures
            (λ _ v. Waiting (some dst) (enlist r (values cs)) v)
            (register_nreq (some dst) hop r w)
    enlist_lem i set_up first space [] at c is =
        let (g, y, c', is', same) =
          register_nreq-opened w dst hop r can i set_up first is space at in
        Ensures-Yields y λ l p. record {
          cells = (w.heap.fresh, r) ∷ [];
          head = put_self w dst hop r can w.heap.fresh g i;
          vals = refl;
          chain = c';
          heap = is';
        }
    enlist_lem i set_up first space ((a, v) ∷ cs) at c is =
        elim (Bool-cases (occurs r (v ∷ values cs))) [
          | inl e ↦
              Ensures-Yields (register_nreq-listed w dst hop r can ((a, v) ∷ cs) is c at e) λ l p.
                record { cells = (a, v) ∷ cs; head = at; vals = rw e refl; chain = c; heap = is }
          | inr e ↦
              let (g, y, c', is', rm) =
                register_nreq-joined w dst hop r can a v cs is c space at e in
              Ensures-Yields y λ l p. record {
                cells = ((a, v) ∷ cs) ++ (w.heap.fresh, r) ∷ [];
                head = at;
                vals = rw e (values-append ((a, v) ∷ cs) w.heap.fresh r);
                chain = c';
                heap = is';
              }
        ]

    -- Let the log be writable, malloc have memory, sigaction succeed and a timer id be free. Then
    -- register_nreq returns, and the address's requesters are those before, in order, with the new
    -- one behind them if no requester with its text was there; a local request is never found
    -- there.
    pub register_nreq-enlist :
        (i : ℕ) (vs : List (Option Str))
        → sys.handler_set ≡ true
        → FirstFree w.timer_ids i
        → 0 < w.heap.room
        → Waiting (some dst) vs w
        → Ensures (λ _ v. Waiting (some dst) (enlist r vs) v) (register_nreq (some dst) hop r w)
    register_nreq-enlist i vs set_up first space wait =
        subst
          (λ us.
            Ensures (λ _ v. Waiting (some dst) (enlist r us) v) (register_nreq (some dst) hop r w))
          wait.vals (enlist_lem i set_up first space wait.cells wait.head wait.chain wait.heap)
