-- ===== src/LinkedList.antt =====
-- The singly linked list of src/linked_list.c over an explicit heap. The address 0 is NULL. A
-- function that takes `node_t **head` returns the new head. Each loop runs on fuel, and is given as
-- many rounds as there are addresses below `fresh`.
pub mod Chain
pub mod Calm
pub mod Push
pub mod Fresh
pub mod Remove
pub mod Bypass
pub mod RemoveAt
pub mod RemoveLast
pub mod Print
use name_spread.Prelude.{ℕ, zero, suc, ◌+◌, ◌-◌, Option, none, some, ◌==◌, if◌then◌else◌, ◌++◌, []}
use name_spread.Text.{Str, codes, shown}
use name_spread.Machine.Run.{Run, ok, fault, out_of_fuel, Cmd, pure, ◌>>=◌, ◌>>◌}
use name_spread.Machine.World.{Node, Heap}

abbrev pub null : ℕ
null = 0

abbrev pub node : Option Str → ℕ → Node
node v q = record { val = v; next = q }

unfoldable pub write : (ℕ → Option Node) → ℕ → Option Node → ℕ → Option Node
write f p c a = if a == p then c else f a

-- `*p`: a fault at NULL and at an address that holds no node
unfoldable pub load : ℕ → Cmd Heap Node
load p h = if p == null then fault else elim (h.cell p) [ none ↦ fault | some n ↦ ok n h ]

-- `*p = n` where p is known to point to a node
unfoldable pub store : ℕ → Node → Cmd Heap (Unit {0})
unfolding write
store p n h = ok tt (record h { cell = write h.cell p (some n) })

-- `p->next = q`
unfoldable pub set_next : ℕ → ℕ → Cmd Heap (Unit {0})
unfolding load store
set_next p q = do n ← load p; store p (record n { next = q })

-- `p->val = v`
unfoldable pub set_val : ℕ → Option Str → Cmd Heap (Unit {0})
unfolding load store
set_val p v = do n ← load p; store p (record n { val = v })

-- The fields of a new node are indeterminate; no function reads one before it is set.
unfoldable pub malloc : Cmd Heap ℕ
unfolding write
malloc h =
    if h.room == 0
    then ok null h
    else ok h.fresh (record {
      cell = write h.cell h.fresh (some (node none null));
      fresh = h.fresh + 1;
      room = h.room - 1;
    })

unfoldable pub free : ℕ → Cmd Heap (Unit {0})
unfolding write
free p h = if p == null then ok tt h else elim (h.cell p) [
  | none ↦ fault
  | some n ↦ ok tt (record h { cell = write h.cell p none; room = h.room + 1 })
]

-- `while (current->next != NULL) current = current->next;`
unfoldable pub last_node : ℕ → ℕ → Cmd Heap ℕ
unfolding load
last_node zero current = λ _. out_of_fuel
last_node (suc k) current = do
  n ← load current
  if n.next == null then pure current else last_node k n.next

unfoldable pub append_after : ℕ → Option Str → Cmd Heap (Unit {0})
unfolding set_next set_val malloc
append_after current val = do new ← malloc; set_next current new; set_val new val; set_next new null

unfoldable pub push : ℕ → Option Str → Cmd Heap (Unit {0})
unfolding last_node append_after
push head val h = (do current ← last_node h.fresh head; append_after current val) h

unfoldable pub push_first : ℕ → Option Str → Cmd Heap ℕ
unfolding set_next set_val malloc
push_first head val = do
  new_node ← malloc
  set_val new_node val
  set_next new_node head
  pure new_node

-- The value, "-1" from an empty list, and the new head.
unfoldable pub pop : ℕ → Cmd Heap (Option Str × ℕ)
unfolding load free
pop head =
    if head == null
    then pure (some (codes "-1"), head)
    else do n ← load head; free head; pure (n.val, n.next)

-- `while (current->next->next != NULL) current = current->next;`
unfoldable pub second_to_last : ℕ → ℕ → Cmd Heap ℕ
unfolding load
second_to_last zero current = λ _. out_of_fuel
second_to_last (suc k) current = do
  n ← load current
  m ← load n.next
  if m.next == null then pure current else second_to_last k n.next

unfoldable pub unlink_last : ℕ → Cmd Heap (Option Str)
unfolding load free set_next
unlink_last current = do
  n ← load current
  last ← load n.next
  free n.next
  set_next current null
  pure last.val

unfoldable pub remove_last : ℕ → Cmd Heap (Option Str)
unfolding second_to_last unlink_last
remove_last head h =
    (do
      first ← load head
      if first.next == null
          then (do free head; pure first.val)
          else (do current ← second_to_last h.fresh head; unlink_last current))
      h

-- `for (i = 0; i < n-1; i++)`: `none` where the list ends before the loop does
unfoldable pub node_before : ℕ → ℕ → Cmd Heap (Option ℕ)
unfolding load
node_before zero current = pure (some current)
node_before (suc k) current = do
  n ← load current
  if n.next == null then pure none else node_before k n.next

unfoldable pub unlink_next : ℕ → Cmd Heap (Option Str)
unfolding load set_next free
unlink_next current = do
  n ← load current
  temp_node ← load n.next
  set_next current temp_node.next
  free n.next
  pure temp_node.val

-- The value, "-1" where the list is shorter than n, and the new head; n is not negative.
unfoldable pub remove_by_index : ℕ → ℕ → Cmd Heap (Option Str × ℕ)
unfolding pop node_before unlink_next
remove_by_index head zero = pop head
remove_by_index head (suc k) = do
  current ← node_before k head
  elim current [
    | none ↦ pure (some (codes "-1"), head)
    | some c ↦ do val ← unlink_next c; pure (val, head)
  ]

unfoldable pub new_linked_list : Option Str → Cmd Heap ℕ
unfolding set_val set_next malloc
new_linked_list val = do
  head ← malloc
  if head == null then pure null else do set_val head val; set_next head null; pure head

-- What print_list writes for the nodes from `current` on.
unfoldable pub print_nodes : ℕ → ℕ → Cmd Heap Str
unfolding load
print_nodes zero current = λ _. out_of_fuel
print_nodes (suc k) current = if current == null then pure [] else do
  n ← load current
  rest ← print_nodes k n.next
  pure (shown n.val ++ (if n.next == null then codes "]" else codes ", ") ++ rest)

unfoldable pub print_list : ℕ → Cmd Heap Str
unfolding print_nodes
print_list head h = (do nodes ← print_nodes h.fresh head; pure (codes "[" ++ nodes)) h
