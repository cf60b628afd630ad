-- ===== src/Threads/Log.antt =====
-- The log of two threads that share `msg`, in whatever order their calls come.
use name_spread.Prelude.{
  ℕ, ◌+◌, ◌≡◌, refl, List, [], ◌∷◌, length, arith, All, All-append, length-append,
}
use name_spread.Text.{Str}
use name_spread.Threads.{
  Shared, Op, first_word, next_word, say, log_said, do_op, Thread, run, Merge, done, watches,
  responds,
}

-- The messages that are said satisfy `P`.
Says : (Str → Type 0) → List Op → Type 0
Says P [] = Unit
Says P (say m ∷ ops) = P m × Says P ops
Says P (first_word text ∷ ops) = Says P ops
Says P (next_word ∷ ops) = Says P ops
Says P (log_said ∷ ops) = Says P ops

-- One call's share of the lines.
logs : Op → ℕ
logs (first_word text) = 0
logs next_word = 0
logs (say m) = 0
logs log_said = 1

total_logs : List Op → ℕ
total_logs [] = 0
total_logs (op ∷ ops) = logs op + total_logs ops

-- A thread that logs messages one after the other.
abbrev pub log_all : List Str → List Op
log_all [] = []
log_all (m ∷ ms) = say m ∷ log_said ∷ log_all ms

-- The lines so far, and the message that is at hand.
Known : (Str → Type 0) → Shared → Type 0
Known P s = P s.msg × All P s.lines

do_op-Known :
    (P : Str → Type 0) (op : Op) (ops : List Op) (s : Shared)
    → Says P (op ∷ ops)
    → Known P s
    → Known P (do_op op s) × Says P ops
unfolding Says Known do_op
do_op-Known P (first_word text) ops s says known = (known, says)
do_op-Known P next_word ops s says known = (known, says)
do_op-Known P (say m) ops s says known = ((says.0, known.1), says.1)
do_op-Known P log_said ops s says known =
    ((known.0, All-append P s.lines (s.msg ∷ []) known.1 (known.0, tt)), says)

run-Known :
    (P : Str → Type 0) (ws rs : List Op) (ops : List (Thread × Op)) (s : Shared)
    → Merge ws rs ops
    → Says P ws
    → Says P rs
    → Known P s
    → Known P (run ops s)
unfolding run
run-Known P ws rs ops s done a b known = known
run-Known P _ _ _ s (watches {op} {ws} {rs} {ops} m) a b known =
    let (known', a') = do_op-Known P op ws s a known in
    run-Known P ws rs ops (do_op op s) m a' b known'
run-Known P _ _ _ s (responds {op} {ws} {rs} {ops} m) a b known =
    let (known', b') = do_op-Known P op rs s b known in
    run-Known P ws rs ops (do_op op s) m a b' known'

length-do_op : (op : Op) (s : Shared) → length (do_op op s).lines ≡ length s.lines + logs op
unfolding do_op logs
length-do_op (first_word text) s = omega arith
length-do_op next_word s = omega arith
length-do_op (say m) s = omega arith
length-do_op log_said s = length-append s.lines (s.msg ∷ [])

length-run :
    (ws rs : List Op) (ops : List (Thread × Op)) (s : Shared)
    → Merge ws rs ops
    → length (run ops s).lines ≡ length s.lines + total_logs ws + total_logs rs
unfolding run total_logs
length-run ws rs ops s done = omega arith
length-run _ _ _ s (watches {op} {ws} {rs} {ops} m) =
    omega (arith, length-run ws rs ops (do_op op s) m, length-do_op op s)
length-run _ _ _ s (responds {op} {ws} {rs} {ops} m) =
    omega (arith, length-run ws rs ops (do_op op s) m, length-do_op op s)

log_all-Says : (P : Str → Type 0) (ms : List Str) → All P ms → Says P (log_all ms)
unfolding Says
log_all-Says P [] all = tt
log_all-Says P (m ∷ ms) (p, all) = (p, log_all-Says P ms all)

total_logs-log_all : (ms : List Str) → total_logs (log_all ms) ≡ length ms
unfolding total_logs logs
total_logs-log_all [] = refl
total_logs-log_all (m ∷ ms) = omega (arith, total_logs-log_all ms)

-- In whatever order the watcher's and the responder's calls that log the messages `ms` and `ns` come,
-- the log gets as many lines as there are messages, and what is true of all messages, the one at hand
-- before and the lines before is true of all lines.
run-log_all :
    (P : Str → Type 0) (ms ns : List Str) (ops : List (Thread × Op)) (s : Shared)
    → Merge (log_all ms) (log_all ns) ops
    → All P ms
    → All P ns
    → P s.msg
    → All P s.lines
    → All P (run ops s).lines × (length (run ops s).lines ≡ length s.lines + length ms + length ns)
unfolding Known
run-log_all P ms ns ops s m a b at before = (
  (run-Known P (log_all ms) (log_all ns) ops s m (log_all-Says P ms a) (log_all-Says P ns b)
      (at, before)).1,
  omega (
    arith,
    length-run (log_all ms) (log_all ns) ops s m,
    total_logs-log_all ms,
    total_logs-log_all ns,
  ),
)
