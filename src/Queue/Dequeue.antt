-- ===== src/Queue/Dequeue.antt =====
-- What `dequeue` and `dequeueByIndex` take out of a well-formed queue.
use cs_bsc_technion.Base.{
  ℕ, zero, suc, ◌-◌, ◌≤◌, ◌<◌, ◌≡◌, refl, some, List, [], ◌∷◌, length, if◌then◌else◌, ◌==◌, pos,
  arith, inl, inr, Option-cases,
}
use cs_bsc_technion.Queue.{Node, Queue, tail_without, dequeue, unlink_at, dequeue_by_index}
use cs_bsc_technion.Queue.Refine.{IsQueue, IsTaken, unlink_at-IsTaken}

length-unlink_at :
    (xs : List Node) (index value : ℕ) (ys : List Node)
    → unlink_at xs index ≡ some (value, ys)
    → length xs ≡ suc (length ys)
unfolding unlink_at
length-unlink_at [] index value ys e = cc
length-unlink_at (x ∷ xs) zero value ys e = ground (arith, e)
length-unlink_at (x ∷ xs) (suc index) value ys e = elim (Option-cases (unlink_at xs index)) [
  | inl past ↦ ground (arith, past, e)
  | inr ((v, zs), found) ↦ ground (arith, found, e, length-unlink_at xs index v zs found)
]

-- The queue behind its first node.
pub dequeue_lem :
    (queue : Queue)
    → IsQueue queue
    → 1 ≤ queue.size
    → (value : ℕ) × (queue' : Queue) × (dequeue queue ≡ some (pos value, queue'))
      × IsQueue queue'
      × IsTaken queue.head 0 value queue'.head
dequeue_lem queue v p = from queue.head refl
  where
    from :
        (xs : List Node)
        → queue.head ≡ xs
        → (value : ℕ) × (queue' : Queue) × (dequeue queue ≡ some (pos value, queue'))
          × IsQueue queue'
          × IsTaken xs 0 value queue'.head
    from [] e = absurd (ground (arith, e, v.counted, p))
    from (n ∷ next) e = (
      n.value,
      record queue { head = next; tail = tail_without queue.tail 0; size = queue.size - 1 },
      unfold dequeue in ground (arith, e, p),
      record {
        counted = ground (arith, e, v.counted);
        bounded = omega (arith, v.bounded);
        at_end = unfold tail_without in ground (arith, v.at_end, p);
      },
      ([], n, next, refl, refl, refl, refl),
    )

-- On a well-formed queue `dequeueByIndex` of an index below the current size gives the value of the
-- node at that position and takes the node out: the others keep their order, and the queue stays
-- well formed.
pub dequeue_by_index_lem :
    (queue : Queue) (index : ℕ)
    → IsQueue queue
    → index < queue.size
    → (value : ℕ) × (queue' : Queue) × (dequeue_by_index queue (pos index)
        ≡ some (pos value, queue'))
      × IsQueue queue'
      × IsTaken queue.head index value queue'.head
dequeue_by_index_lem queue zero v h =
    let (value, queue', outcome, v', taken) = dequeue_lem queue v (omega (arith, h)) in
    (value, queue', unfold dequeue_by_index in ground (arith, outcome, h, v.bounded), v', taken)
dequeue_by_index_lem queue (suc i) v h =
    let (value, ys, found, taken) =
      unlink_at-IsTaken queue.head (suc i) (omega (arith, h, v.counted)) in
    (
      value,
      record queue {
        head = ys;
        tail =
            if suc i == queue.size - 1 then some (suc i - 1) else tail_without queue.tail (suc i);
        size = queue.size - 1;
      },
      unfold dequeue_by_index in ground (arith, found, h, v.bounded),
      record {
        counted = omega (arith, v.counted, length-unlink_at queue.head (suc i) value ys found, h);
        bounded = omega (arith, v.bounded);
        at_end = unfold tail_without in ground (arith, v.at_end, h);
      },
      taken,
    )
