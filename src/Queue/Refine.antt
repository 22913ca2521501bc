-- ===== src/Queue/Refine.antt =====
-- The queue as a list: what the operations do to a well-formed queue.
use cs_bsc_technion.Base.{
  ℕ, zero, suc, ◌+◌, ◌-◌, ◌≤◌, ◌<◌, ◌≡◌, refl, false, none, some, List, [], ◌∷◌, ◌++◌, length,
  if◌then◌else◌, ◌==◌, pos, arith, Bool-cases, inl, inr, ◌⊎◌, ap, ◌∙◌,
}
use cs_bsc_technion.Queue.{
  Node, Queue, link_behind, enqueue, unlink_at, dequeue_by_index, find_index_from, queue_find_index,
}

-- The size is the number of the nodes, within the bound, and `tail` is at the last one.
pub record IsQueue (queue : Queue) : Type 0 where
  pub counted : queue.size ≡ length queue.head
  pub bounded : queue.size ≤ queue.max_size
  pub at_end : queue.tail ≡ (if queue.size == 0 then none else some (queue.size - 1))

length-append_one : (xs : List Node) (n : Node) → length (xs ++ n ∷ []) ≡ suc (length xs)
length-append_one [] n = refl
length-append_one (x ∷ xs) n = ground (arith, length-append_one xs n)

link_behind_last :
    (xs : List Node) (i : ℕ) (n : Node)
    → length xs ≡ suc i
    → link_behind xs i n ≡ some (xs ++ n ∷ [])
unfolding link_behind
link_behind_last [] i n h = absurd (omega arith)
link_behind_last (x ∷ []) zero n h = refl
link_behind_last (x ∷ y ∷ xs) zero n h = absurd (omega arith)
link_behind_last (x ∷ xs) (suc i) n h = ground (arith, link_behind_last xs i n (omega (arith, h)))

nil_of_length : (xs : List Node) → length xs ≡ 0 → xs ≡ []
nil_of_length [] h = refl
nil_of_length (x ∷ xs) h = absurd (omega (arith, h))

unfoldable enqueued : Queue → Node → Queue
enqueued queue n = record queue {
  head = queue.head ++ n ∷ [];
  tail = some queue.size;
  size = queue.size + 1;
}

enqueue_room :
    (queue : Queue) (n : Node)
    → IsQueue queue
    → (queue.size == queue.max_size) ≡ false
    → enqueue queue n ≡ some (enqueued queue n)
unfolding enqueue enqueued
enqueue_room queue n v room = elim (Bool-cases (queue.size == 0)) [
  | inl empty ↦
      ground (arith, room, empty, nil_of_length queue.head (ground (arith, empty, v.counted)))
  | inr some_nodes ↦ ground (
    arith,
    room,
    some_nodes,
    v.at_end,
    link_behind_last queue.head (queue.size - 1) n (ground (arith, some_nodes, v.counted)),
  )
]

enqueued-IsQueue :
    (queue : Queue) (n : Node)
    → IsQueue queue
    → (queue.size == queue.max_size) ≡ false
    → IsQueue (enqueued queue n)
unfolding enqueued
enqueued-IsQueue queue n v room = record {
  counted = omega (arith, v.counted, length-append_one queue.head n);
  bounded = ground (arith, v.bounded, room);
  at_end = ground arith;
}

-- On a well-formed queue `enqueue` never goes through NULL and leaves a well-formed queue with the
-- same bound: one with room gets the node at its end, and a full one keeps its nodes.
pub enqueue_lem :
    (queue : Queue) (n : Node)
    → IsQueue queue
    → (queue' : Queue) × (enqueue queue n ≡ some queue')
      × IsQueue queue'
      × (queue'.head ≡ (if queue.size == queue.max_size then queue.head else queue.head ++ n ∷ []))
      × (queue'.max_size ≡ queue.max_size)
enqueue_lem queue n v = elim (Bool-cases (queue.size == queue.max_size)) [
  | inl full ↦ (queue, unfold enqueue in rw full refl, v, rw full refl, refl)
  | inr room ↦ (
    enqueued queue n,
    enqueue_room queue n v room,
    enqueued-IsQueue queue n v room,
    unfold enqueued in rw room refl,
    unfold enqueued in refl,
  )
]

-- What is taken out of a list at a position that it has: the value, and the others in their order.
abbrev pub IsTaken : List Node → ℕ → ℕ → List Node → Type 0
IsTaken xs index value ys =
    (before : List Node) × (n : Node) × (after : List Node) × (xs ≡ before ++ n ∷ after)
    × (ys ≡ before ++ after)
    × (length before ≡ index)
    × (n.value ≡ value)

pub unlink_at-IsTaken :
    (xs : List Node) (index : ℕ)
    → index < length xs
    → (value : ℕ) × (ys : List Node) × (unlink_at xs index ≡ some (value, ys))
      × IsTaken xs index value ys
unfolding unlink_at
unlink_at-IsTaken [] index h = absurd (omega arith)
unlink_at-IsTaken (x ∷ xs) zero h = (x.value, xs, refl, ([], x, xs, refl, refl, refl, refl))
unlink_at-IsTaken (x ∷ xs) (suc index) h =
    let (value, ys, found, (before, n, after, whole, rest, place, here)) =
      unlink_at-IsTaken xs index (omega (arith, h)) in
    (
      value,
      x ∷ ys,
      rw found refl,
      (
        x ∷ before,
        n,
        after,
        ap (λ (zs : List Node). x ∷ zs) whole,
        ap (λ (zs : List Node). x ∷ zs) rest,
        ap suc place,
        here,
      ),
    )

unlink_at-past : (xs : List Node) (index : ℕ) → length xs ≤ index → unlink_at xs index ≡ none
unfolding unlink_at
unlink_at-past [] index h = refl
unlink_at-past (x ∷ xs) zero h = absurd (omega arith)
unlink_at-past (x ∷ xs) (suc index) h = ground (arith, unlink_at-past xs index (omega (arith, h)))

-- On a well-formed queue that is not empty an index that is not below the current size but below
-- the bound passes the guards of `dequeueByIndex`, and the loop reads through NULL.
pub dequeue_by_index_null :
    (queue : Queue) (index : ℕ)
    → IsQueue queue
    → 1 ≤ queue.size
    → queue.size ≤ index
    → index < queue.max_size
    → dequeue_by_index queue (pos index) ≡ none
unfolding dequeue_by_index
dequeue_by_index_null queue index v some_nodes behind below = ground (
  arith,
  some_nodes,
  behind,
  below,
  unlink_at-past queue.head index (omega (arith, v.counted, behind)),
)

-- Whether some node has the value, and the index of the first that has it.
abbrev pub HasValue : List Node → ℕ → Type 0
HasValue [] value = ⊥
HasValue (x ∷ xs) value = (x.value ≡ value) ⊎ HasValue xs value

unfoldable pub index_of : List Node → ℕ → ℕ
index_of [] value = 0
index_of (x ∷ xs) value = if x.value == value then 0 else suc (index_of xs value)

find_index_from_lem :
    (size : ℕ) (xs : List Node) (index value : ℕ)
    → index + length xs ≤ size
    → find_index_from size xs index value ≡ pos (index + index_of xs value)
unfolding find_index_from index_of
find_index_from_lem size [] index value h = ap pos (omega arith)
find_index_from_lem size (x ∷ xs) index value h =
    ground (arith, find_index_from_lem size xs (index + 1) value (omega (arith, h)), h)

-- On a well-formed queue `queueFindIndex` gives the index of the first node with the value, and the
-- size of the queue, never -1, if no node has it.
pub queue_find_index_lem :
    (queue : Queue) (value : ℕ)
    → IsQueue queue
    → queue_find_index queue value ≡ pos (index_of queue.head value)
unfolding queue_find_index
queue_find_index_lem queue value v =
    find_index_from_lem queue.size queue.head 0 value (omega (arith, v.counted))
    ∙ ap pos (omega arith)
