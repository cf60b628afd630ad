-- ===== src/Tests/Lists.antt =====
-- The linked list on small heaps.
use name_spread.Prelude.{
  ℕ, ◌≡◌, refl, ◌⊎◌, ◌<◌, none, some, [], ◌∷◌, ◌==◌, if◌then◌else◌, arith, ◌+◌,
}
use name_spread.Text.{codes}
use name_spread.Machine.Run.{ok, fault}
use name_spread.Machine.Ensures.{Ensures}
use name_spread.Machine.World.{Heap}
use name_spread.LinkedList.{node, push, remove_by_index, remove_last}
use name_spread.LinkedList.Chain.{Chain, IsHeap, SameOutside}
use name_spread.LinkedList.Push.{push-append, push-no_room}
use name_spread.LinkedList.Bypass.{Left}
use name_spread.LinkedList.RemoveAt.{remove_by_index-Left, remove_by_index-beyond}
use name_spread.LinkedList.RemoveLast.{remove_last-Left}
use name_spread.Tests.Requests.{two_nodes, two_nodes-IsHeap, two_nodes-Chain}

-- A list of one local request.
abbrev one_node : ℕ → Heap
one_node room = record {
  cell = λ a. if a == 1 then some (node none 0) else none;
  fresh = 2;
  room = room;
}

one_node-IsHeap : (room : ℕ) → IsHeap (one_node room)
one_node-IsHeap room = record { fresh_pos = omega arith; unused = λ a le. ground arith }

one_node-Chain : (room : ℕ) → Chain (one_node room) ((1, none) ∷ [])
one_node-Chain room = (omega arith, refl, refl, tt)

push-append_example :
    Ensures
      (λ _ g.
        Chain g ((1, none) ∷ (2, some (codes "a")) ∷ [])
        × IsHeap g
        × SameOutside ((1, none) ∷ (2, some (codes "a")) ∷ []) (one_node 3) g
        × (g.fresh ≡ 3)
        × (g.room + 1 ≡ 3))
      (push 1 (some (codes "a")) (one_node 3))
push-append_example =
    push-append (one_node 3) 1 none [] (some (codes "a")) (one_node-IsHeap 3) (one_node-Chain 3)
      (omega arith)

push-no_room_example : push 1 (some (codes "a")) (one_node 0) ≡ fault
push-no_room_example =
    push-no_room (one_node 0) 1 none [] (some (codes "a")) (one_node-IsHeap 0) (one_node-Chain 0)
      refl

remove_by_index-Left_example :
    Ensures
      (λ (val, head) g. Left two_nodes ((1, none) ∷ []) 2 (some (codes "7")) [] val g × (head ≡ 1))
      (remove_by_index 1 1 two_nodes)
remove_by_index-Left_example =
    remove_by_index-Left two_nodes 2 (some (codes "7")) [] ((1, none) ∷ []) two_nodes-Chain

remove_by_index-beyond_example :
    (◌≡◌ {A = ℕ} 2 2 × (remove_by_index 1 2 two_nodes ≡ fault))
    ⊎ ((2 < 2) × (remove_by_index 1 2 two_nodes ≡ ok (some (codes "-1"), 1) two_nodes))
remove_by_index-beyond_example =
    remove_by_index-beyond two_nodes 1 none ((2, some (codes "7")) ∷ []) 2 two_nodes-Chain
      (omega arith)

remove_last-Left_example :
    Ensures
      (λ val g. Left two_nodes ((1, none) ∷ []) 2 (some (codes "7")) [] val g)
      (remove_last 1 two_nodes)
remove_last-Left_example =
    remove_last-Left two_nodes two_nodes-IsHeap 2 (some (codes "7")) ((1, none) ∷ [])
      two_nodes-Chain
