-- ===== src/Queue/Tests.antt =====
-- Runs of lib/queue.c, and its theorems at a small memory.
use rtk.Common.{ℕ, ◌≡◌, refl, List, [], ◌∷◌, arith}
use rtk.Queue.{null, Memory, update, enqueue_queue, dequeue_queue, remove_queue_node}
use rtk.Queue.Store.{IsStore, enqueue-IsStore}
use rtk.Queue.Laws.{remove_erase, dequeue_cons}
use rtk.Queue.Undo.{remove-enqueue}

abbrev blank : Memory
blank = record {
  node = λ _. record { next = null; prev = null };
  queue = λ _. record { first = null; last = null };
}

abbrev no_lists : ℕ → List ℕ
no_lists _ = []

blank-IsStore : IsStore 9 no_lists blank
blank-IsStore = record {
  linked = λ _. (refl, refl);
  apart = λ p q a h k. ground arith;
  idle = λ a lt h. refl;
}

-- The middle of three nodes is removed.
three : Memory
three = enqueue_queue 1 7 (enqueue_queue 1 6 (enqueue_queue 1 5 blank))

three_removed :
    let m = remove_queue_node 1 6 three in
    (m.node 5 ≡ record { next = 7; prev = 0 })
    × (m.node 7 ≡ record { next = 0; prev = 5 })
    × ((dequeue_queue 1 m).0 ≡ 5)
unfolding three enqueue_queue remove_queue_node dequeue_queue
three_removed = (refl, refl, refl)

one-IsStore : IsStore 9 (update no_lists 1 (5 ∷ [])) (enqueue_queue 1 5 blank)
one-IsStore = enqueue-IsStore blank-IsStore 1 5 (omega arith) (λ _. refl)

abbrev two_lists : ℕ → List ℕ
two_lists = update (update no_lists 1 (5 ∷ [])) 1 (5 ∷ 6 ∷ [])

abbrev two : Memory
two = enqueue_queue 1 6 (enqueue_queue 1 5 blank)

two-IsStore : IsStore 9 two_lists two
two-IsStore = enqueue-IsStore one-IsStore 1 6 (omega arith) (λ p. ground arith)

remove_erase_example : IsStore 9 (update two_lists 1 (6 ∷ [])) (remove_queue_node 1 5 two)
remove_erase_example = remove_erase 1 5 two-IsStore refl

remove-enqueue_example : remove_queue_node 1 7 (enqueue_queue 1 7 two) ≡ two
remove-enqueue_example =
    remove-enqueue 1 7 two-IsStore (omega arith) (omega arith) (λ p. ground arith)

dequeue_cons_example :
    ((dequeue_queue 1 two).0 ≡ 5) × IsStore 9 (update two_lists 1 (6 ∷ [])) (dequeue_queue 1 two).1
dequeue_cons_example = dequeue_cons 1 5 (6 ∷ []) two-IsStore refl
