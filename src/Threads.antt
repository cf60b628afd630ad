-- ===== src/Threads.antt =====
-- What the threads of src/namespread.c share within a handler: the hidden state of strtok, with which
-- listen_for_nreqs and watch_routes take a text apart, and the message `msg` between asprintf and
-- log_msg.
pub mod Log
pub mod Calls
pub mod Handlers
pub mod Late
pub mod Races
pub mod Rely
pub mod Opening
pub mod Apart
use name_spread.Prelude.{
  ◌≡◌, refl, Bool, true, false, Option, none, some, List, [], ◌∷◌, ◌++◌, map, if◌then◌else◌,
  append_assoc, ap, ◌∙◌,
}
use name_spread.Text.{Str, space, strtok}
use name_spread.Network.{nreq_text}
use name_spread.Responder.Messages.{IsWord, request-words}
use name_spread.Watcher.Routes.{NewRoute}

-- `rest` is where strtok(NULL, …) goes on, `lines` are the messages in the log.
pub record Shared : Type 0 where
  pub rest : Str
  pub msg : Str
  pub lines : List Str

-- strtok(text, " "), strtok(NULL, " "), asprintf(&msg, …) and log_msg(msg, …)
pub data Op : Type 0 where
  first_word : (text : Str) → Op
  next_word : Op
  say : (m : Str) → Op
  log_said : Op

unfoldable pub do_op : Op → Shared → Shared
do_op (first_word text) s = record s { rest = (strtok space text).1 }
do_op next_word s = record s { rest = (strtok space s.rest).1 }
do_op (say m) s = record s { msg = m }
do_op log_said s = record s { lines = s.lines ++ s.msg ∷ [] }

-- What the call returns, for a call of strtok.
unfoldable pub word : Op → Shared → List (Option Str)
word (first_word text) s = (strtok space text).0 ∷ []
word next_word s = (strtok space s.rest).0 ∷ []
word (say m) s = []
word log_said s = []

-- The threads are the watcher and the responder.
pub data Thread : Type 0 where
  watcher : Thread
  responder : Thread

unfoldable pub run : List (Thread × Op) → Shared → Shared
run [] s = s
run ((t, op) ∷ ops) s = run ops (do_op op s)

-- The words that the watcher, or the responder, gets.
unfoldable pub words : Thread → List (Thread × Op) → Shared → List (Option Str)
words t [] s = []
words watcher ((watcher, op) ∷ ops) s = word op s ++ words watcher ops (do_op op s)
words watcher ((responder, op) ∷ ops) s = words watcher ops (do_op op s)
words responder ((watcher, op) ∷ ops) s = words responder ops (do_op op s)
words responder ((responder, op) ∷ ops) s = word op s ++ words responder ops (do_op op s)

-- The calls of both threads in one order, each thread's own calls in theirs.
pub data Merge : List Op → List Op → List (Thread × Op) → Type 0 where
  done : Merge [] [] []
  watches :
      {op : Op} {ws rs : List Op} {ops : List (Thread × Op)}
      → Merge ws rs ops
      → Merge (op ∷ ws) rs ((watcher, op) ∷ ops)
  responds :
      {op : Op} {ws rs : List Op} {ops : List (Thread × Op)}
      → Merge ws rs ops
      → Merge ws (op ∷ rs) ((responder, op) ∷ ops)

-- The calls by which watch_routes takes a line apart, and listen_for_nreqs a request.
abbrev pub split_line : Str → List Op
split_line line = first_word line ∷ next_word ∷ next_word ∷ []

abbrev pub split_request : Str → List Op
split_request text = first_word text ∷ next_word ∷ []

-- asprintf(&msg, …); log_msg(msg, own_addr);
abbrev pub logging : Str → List Op
logging m = say m ∷ log_said ∷ []

-- First all of the watcher's, then all of the responder's.
abbrev pub in_turn : List Op → List Op → List (Thread × Op)
in_turn ws rs = map (λ op. (watcher, op)) ws ++ map (λ op. (responder, op)) rs

-- The responder comes between the watcher's second word and its third.
abbrev pub cut_in : Str → Str → List (Thread × Op)
cut_in line request =
    (watcher, first_word line)
    ∷ (watcher, next_word)
    ∷ (responder, first_word request)
    ∷ (watcher, next_word)
    ∷ (responder, next_word)
    ∷ []

-- A line of a new route and a request for `asked`, whatever the state.
module _ (dst hop line asked : Str) (route : NewRoute dst hop line) (is : IsWord asked)
    (s : Shared) where
  -- Let the watcher take apart the line of a new route while the responder takes apart a request
  -- for an address. In the order in which neither is interrupted, first the watcher and then the
  -- responder, the watcher's third word is the next hop and the responder's second word the
  -- address of the request. In the order in which the responder takes its first word before the
  -- watcher's third, and its second word after that, the watcher's third word is the address of
  -- the request, and the responder gets NULL for that address.
  pub words-Merge :
      let text = nreq_text (some asked) in
      let first = (strtok space text).0 in
      let via = (strtok space route.rest).0 in
      (Merge (split_line line) (split_request text) (in_turn (split_line line) (split_request text))
        × (words watcher (in_turn (split_line line) (split_request text)) s
            ≡ some dst ∷ via ∷ some hop ∷ [])
        × (words responder (in_turn (split_line line) (split_request text)) s
            ≡ first ∷ some asked ∷ []))
      × (Merge (split_line line) (split_request text) (cut_in line text)
          × (words watcher (cut_in line text) s ≡ some dst ∷ via ∷ some asked ∷ [])
          × (words responder (cut_in line text) s ≡ first ∷ none ∷ []))
  unfolding words word do_op
  words-Merge = (
    (
      watches (watches (watches (responds (responds done)))),
      rw (route.to, route.by) refl,
      rw (request-words asked is) refl,
    ),
    (
      watches (watches (responds (watches (responds done)))),
      rw (route.to, request-words asked is) refl,
      rw (request-words asked is) (unfold strtok in refl),
    ),
  )

-- If the watcher and the responder each log a message, then in the order in which neither is
-- interrupted both messages are in the log; there is also an order in which the second is there twice and
-- the first is lost.
lines-Merge :
    (m n : Str) (s : Shared)
    → ((ops : List (Thread × Op)) × Merge (logging m) (logging n) ops
        × ((run ops s).lines ≡ s.lines ++ m ∷ n ∷ []))
      × ((ops : List (Thread × Op)) × Merge (logging m) (logging n) ops
          × ((run ops s).lines ≡ s.lines ++ n ∷ n ∷ []))
unfolding run do_op
lines-Merge m n s = (
  (_, watches (watches (responds (responds done))), append_assoc s.lines (m ∷ []) (n ∷ [])),
  (_, watches (responds (responds (watches done))), append_assoc s.lines (n ∷ []) (n ∷ [])),
)
