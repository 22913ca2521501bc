-- ===== src/Queue/Tests.antt =====
-- Runs of the queue, and its theorems at concrete queues.
use cs_bsc_technion.Base.{ℕ, ◌≡◌, refl, some, [], ◌∷◌, ◌++◌, if◌then◌else◌, ◌==◌, pos, arith}
use cs_bsc_technion.Queue.{
  Node, Queue, queue_create, enqueue, tail_without, dequeue_by_index, unlink_at,
  queue_find_by_value,
}
use cs_bsc_technion.Queue.Refine.{IsQueue, IsTaken, enqueue_lem}
use cs_bsc_technion.Queue.Dequeue.{dequeue_by_index_lem}

abbrev request : ℕ → Node
request fd = record { value = fd; arrival_time = 100 }

abbrev three : Queue
three = record {
  head = request 4 ∷ request 5 ∷ request 6 ∷ [];
  tail = some 2;
  size = 3;
  max_size = 8;
}

three-IsQueue : IsQueue three
three-IsQueue = record { counted = refl; bounded = omega arith; at_end = refl }

one_in :
    enqueue (queue_create 8) (request 4)
    ≡ some (record { head = request 4 ∷ []; tail = some 0; size = 1; max_size = 8 })
unfolding enqueue
one_in = refl

middle_out :
    dequeue_by_index three (pos 1)
    ≡ some
        (pos 5, record { head = request 4 ∷ request 6 ∷ []; tail = some 1; size = 2; max_size = 8 })
unfolding dequeue_by_index unlink_at tail_without
middle_out = refl

found : queue_find_by_value three.head 6 ≡ some (request 6)
unfolding queue_find_by_value
found = refl

enqueue_lem_example :
    (queue' : Queue) × (enqueue three (request 7) ≡ some queue')
    × IsQueue queue'
    × (queue'.head ≡ (if 3 == 8 then three.head else three.head ++ request 7 ∷ []))
    × (queue'.max_size ≡ 8)
enqueue_lem_example = enqueue_lem three (request 7) three-IsQueue

dequeue_by_index_lem_example :
    (value : ℕ) × (queue' : Queue) × (dequeue_by_index three (pos 1) ≡ some (pos value, queue'))
    × IsQueue queue'
    × IsTaken three.head 1 value queue'.head
dequeue_by_index_lem_example = dequeue_by_index_lem three 1 three-IsQueue (omega arith)
