-- ===== src/LinkedList/Calm.antt =====
-- The list operations of src/linked_list.c that the daemon uses, on the course on which the process does
-- not leave.
use name_spread.Prelude.{ℕ, zero, suc, Bool, true, false, Option, none, some, ◌==◌, if◌then◌else◌}
use name_spread.Text.{Str}
use name_spread.Machine.Run.{Run, ok, fault}
use name_spread.Machine.World.{Node, Heap}
use name_spread.Machine.Moves.{
  Runs, returned, faulted, cut_off, Course, Moves, Onward, Moves-bind, Moves-if, Moves-pure,
  moves_rules,
}
use name_spread.LinkedList.{
  null, load, store, set_next, set_val, malloc, last_node, append_after, push, new_linked_list,
}

-- The course that says nothing of the heap, on which a loop may be cut off.
abbrev pub calm : Course Heap
calm = record {
  Cut = Unit {0};
  Leave = ⊥;
  View = Unit {0};
  Good = λ g h. Unit;
  Leads = λ g h. Unit;
  stay = λ g. tt;
  follow = λ f g h p q. tt;
}

cell_run :
    (b : Bool) (c : Option Node) (h : Heap)
    → Runs
        (Unit {0})
        ⊥
        (λ n k. Onward calm tt k)
        (if b then fault else elim c as (λ _. Run Heap Node) [ none ↦ fault | some n ↦ ok n h ])
cell_run true c h = faulted
cell_run false none h = faulted
cell_run false (some n) h = returned (tt, tt, tt)

pub load-Moves : (p : ℕ) → Moves calm (load p)
unfolding load
load-Moves p = record { at = λ g h good. cell_run (p == null) (h.cell p) h }

store-Moves : (p : ℕ) (n : Node) → Moves calm (store p n)
unfolding store
store-Moves p n = record { at = λ g h good. returned (tt, tt, tt) }

set_next-Moves : (p q : ℕ) → Moves calm (set_next p q)
unfolding set_next
set_next-Moves p q = search (moves_rules, load-Moves, store-Moves)

set_val-Moves : (p : ℕ) (v : Option Str) → Moves calm (set_val p v)
unfolding set_val
set_val-Moves p v = search (moves_rules, load-Moves, store-Moves)

new_run :
    (b : Bool) (a : ℕ) (h k : Heap)
    → Runs (Unit {0}) ⊥ (λ n g. Onward calm tt g) (if b then ok null h else ok a k)
new_run true a h k = returned (tt, tt, tt)
new_run false a h k = returned (tt, tt, tt)

malloc-Moves : Moves calm malloc
unfolding malloc
malloc-Moves = record { at = λ g h good. new_run (h.room == 0) h.fresh h _ }

last_node-Moves : (k p : ℕ) → Moves calm (last_node k p)
unfolding last_node
last_node-Moves zero p = record { at = λ g h good. cut_off tt }
last_node-Moves (suc k) p =
    Moves-bind calm _ _ (load-Moves p)
      λ n. Moves-if calm (n.next == null) _ _ (Moves-pure calm p) (last_node-Moves k n.next)

append_after-Moves : (p : ℕ) (v : Option Str) → Moves calm (append_after p v)
unfolding append_after
append_after-Moves p v = search (moves_rules, malloc-Moves, set_next-Moves, set_val-Moves) depth 12

pub push-Moves : (p : ℕ) (v : Option Str) → Moves calm (push p v)
unfolding push
push-Moves p v = record {
  at = λ g h good.
      (Moves-bind calm _ _ (last_node-Moves h.fresh p) (λ q. append_after-Moves q v)).at g h good;
}

pub new_linked_list-Moves : (v : Option Str) → Moves calm (new_linked_list v)
unfolding new_linked_list
new_linked_list-Moves v = search (moves_rules, malloc-Moves, set_next-Moves, set_val-Moves) depth 12
