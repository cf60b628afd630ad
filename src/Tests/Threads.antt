-- ===== src/Tests/Threads.antt =====
-- The watcher's line and the responder's request, taken apart at the same time.
use name_spread.Prelude.{refl, none, some, [], ◌∷◌, ◌≡◌, arith}
use name_spread.Text.{Str, codes, space, strtok}
use name_spread.Network.{nreq_text}
use name_spread.Threads.{
  Shared, watcher, responder, words, Merge, split_line, split_request, in_turn, cut_in, words-Merge,
}
use name_spread.Machine.Ensures.{Ensures}
use name_spread.Machine.Cfu.{key_eq}
use name_spread.Text.{str_eq}
use name_spread.LinkedList.Chain.{IsHeap}
use name_spread.Pnr.{same_val}
use name_spread.Pnr.Waiting.{Waiting}
use name_spread.Threads.Calls.{interleave, register_task}
use name_spread.Threads.Races.{register_task-lost}
use name_spread.Threads.Rely.{free_count}
use name_spread.Threads.Apart.{interleave-Waiting}
use name_spread.Prelude.{Option}
use name_spread.Logger.Yields.{Yields}
use name_spread.Hosts.{get_name_by_addr}
use name_spread.Hosts.Table.{lookup_name}
use name_spread.Network.{nrep_text}
use name_spread.Responder.{take_name}
use name_spread.Pnr.Requesters.{all, local, remote}
use name_spread.Threads.Handlers.{look_up_task, take_task}
use name_spread.Threads.Late.{look_up_task-late}
use name_spread.Tests.Files.{table}
use name_spread.Tests.Requests.{pending, two_requesters, two_nodes-IsHeap, two_nodes-Chain}
use name_spread.Tests.Messages.{dst-IsWord, name-IsWord, pending-HoldsTable}
use name_spread.Tests.Setup.{pnr_cfu, timer_cfu, test_system}
use name_spread.Tests.Files.{host}
use name_spread.Tests.Requests.{dst, host-FirstFree, pending-FirstFree}
use name_spread.Tests.Messages.{sta2, sta2-IsWord}
use name_spread.Tests.Routes.{new_line, new_line-NewRoute}

abbrev fresh : Shared
fresh = record { rest = []; msg = []; lines = [] }

words-Merge_example :
    let text = nreq_text (some sta2) in
    let first = (strtok space text).0 in
    let via = (strtok space new_line-NewRoute.rest).0 in
    let ws = split_line new_line in
    let rs = split_request text in
    (Merge ws rs (in_turn ws rs)
      × (words watcher (in_turn ws rs) fresh ≡ some dst ∷ via ∷ some (codes "2") ∷ [])
      × (words responder (in_turn ws rs) fresh ≡ first ∷ some sta2 ∷ []))
    × (Merge ws rs (cut_in new_line text)
        × (words watcher (cut_in new_line text) fresh ≡ some dst ∷ via ∷ some sta2 ∷ [])
        × (words responder (cut_in new_line text) fresh ≡ first ∷ none ∷ []))
words-Merge_example = words-Merge dst (codes "2") new_line sta2 new_line-NewRoute sta2-IsWord fresh

host-IsHeap : IsHeap host.heap
host-IsHeap = record { fresh_pos = omega arith; unused = λ a le. refl }

register_task-lost_example :
    Ensures
      (λ _ v. Waiting (some dst) (some (codes "7") ∷ none ∷ []) v)
      (interleave []
        (register_task (some dst) none)
        (register_task (some dst) (some (codes "7")))
        host)
    × Ensures
        (λ _ v. Waiting (some dst) (none ∷ []) v)
        (interleave
          (watcher ∷ responder ∷ [])
          (register_task (some dst) none)
          (register_task (some dst) (some (codes "7")))
          host)
unfolding same_val
register_task-lost_example =
    register_task-lost host dst none (some (codes "7")) refl 0 1 refl host-FirstFree
      pending-FirstFree host-IsHeap (omega arith) refl

interleave-Waiting_example :
    Ensures
      (λ _ v. Waiting (some dst) (none ∷ []) v × Waiting (some sta2) (some (codes "7") ∷ []) v)
      (interleave
        (watcher ∷ responder ∷ responder ∷ watcher ∷ [])
        (register_task (some dst) none)
        (register_task (some sta2) (some (codes "7")))
        host)
unfolding free_count key_eq str_eq
interleave-Waiting_example =
    interleave-Waiting (watcher ∷ responder ∷ responder ∷ watcher ∷ []) dst sta2 none
      (some (codes "7")) host refl refl host-IsHeap (omega arith) (omega arith) refl refl refl

look_up_task-late_example :
    Ensures
      (λ _ v.
        Waiting (some dst) (none ∷ []) v
        × Yields (some (codes "sta3")) v (get_name_by_addr (some dst) v)
        × ((n : Option Str) (text : Str) → Yields tt v (take_name (some dst) n text v)))
      (interleave
        (watcher ∷ [])
        (look_up_task (some dst) (some (codes "2")))
        (take_task (some dst) (some (codes "sta3")) (nrep_text (some dst) (some (codes "sta3"))))
        pending)
unfolding lookup_name str_eq key_eq
look_up_task-late_example =
    look_up_task-late dst (codes "sta3") (codes "2") table pending refl dst-IsWord
      pending-HoldsTable name-IsWord two_requesters (55 ∷ []) refl refl two_nodes-IsHeap
      two_nodes-Chain refl (local (remote refl all)) (ground arith) 1 50 refl pending-FirstFree
      (omega arith) refl (omega arith)
