-- ===== src/Daemon/Start.antt =====
-- The state in which the threads start.
use name_spread.Prelude.{ℕ, ◌≡◌, refl, Option, none, some, [], arith}
use name_spread.Text.{Str}
use name_spread.Machine.Cfu.{Cfu}
use name_spread.Machine.System.{System}
use name_spread.Machine.World.{World}
use name_spread.LinkedList.Chain.{IsHeap}
use name_spread.Timers.Ids.{FirstFree}
use name_spread.Pnr.Waiting.{Waiting}
use name_spread.Daemon.{start}

module _ ⦃pnr_table : Cfu ℕ⦄ ⦃timer_table : Cfu Str⦄ ⦃sys : System⦄ where
  -- If the heap has handed out no address from `fresh` on, main starts with no requester for any
  -- address, with the first timer id free, and with no entry in the table of timers.
  pub start-Waiting :
      (argument dst_addr : Option Str) (id : Str) (w : World)
      → IsHeap w.heap
      → Waiting dst_addr [] (start argument w)
        × FirstFree (start argument w).timer_ids 0
        × (timer_table.get (start argument w).timers (some id) ≡ none)
  start-Waiting argument dst_addr id w is = (
    record {
      cells = [];
      head = rw (pnr_table.get-empty dst_addr) refl;
      vals = refl;
      chain = tt;
      heap = is;
    },
    record { free = refl; lowest = λ j lt. absurd (omega (arith, lt)) },
    timer_table.get-empty (some id),
  )
