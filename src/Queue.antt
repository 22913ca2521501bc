-- ===== src/Queue.antt =====
-- The queue of requests of "Opereting Systems C++/Creation of Multi-thread WebServer using
-- Locks/webserver-files/queue.c". The chain of nodes from `head` is a list, and `tail` is the position
-- in it of the node that the pointer is at; `none` is NULL, or a node that is no longer in the chain.
-- The outer `none` of an operation is a read or write through NULL. The code takes every `malloc` to
-- find memory. A negative `max_size` is left out.
pub mod Refine
pub mod Dequeue
mod Tests
use cs_bsc_technion.Base.{
  ℕ, zero, suc, ◌+◌, ◌-◌, Bool, true, false, ◌&&◌, ◌||◌, not, Option, none, some, List, [], ◌∷◌,
  length, if◌then◌else◌, ltb, leb, ◌==◌, ℤ, pos, negsuc, ltb_ℤ, leb_ℤ, pos_part, ◌>>=◌,
}

pub record Node : Type 0 where
  pub value : ℕ
  pub arrival_time : ℕ

pub record Queue : Type 0 where
  pub head : List Node
  pub tail : Option ℕ
  pub size : ℕ
  pub max_size : ℕ

abbrev pub queue_create : ℕ → Queue
queue_create max_size = record { head = []; tail = none; size = 0; max_size = max_size }

abbrev pub queue_full : Queue → Bool
queue_full queue = queue.size == queue.max_size

abbrev pub queue_empty : Queue → Bool
queue_empty queue = queue.size == 0

-- The write of a node into `next` of the node at a position: what was behind it is cut off.
unfoldable pub link_behind : List Node → ℕ → Node → Option (List Node)
link_behind [] i n = none
link_behind (x ∷ xs) zero n = some (x ∷ n ∷ [])
link_behind (x ∷ xs) (suc i) n = elim (link_behind xs i n) [ none ↦ none | some ys ↦ some (x ∷ ys) ]

unfoldable pub enqueue : Queue → Node → Option Queue
enqueue queue new_node =
    if queue_full queue
    then some queue
    else if queue_empty queue
    then some (record queue { head = new_node ∷ []; tail = some 0; size = queue.size + 1 })
    else do
      last ← queue.tail
      chain ← link_behind queue.head last new_node
      some (record queue { head = chain; tail = some (last + 1); size = queue.size + 1 })

-- Where `tail` is when the node at a position has been taken out.
unfoldable pub tail_without : Option ℕ → ℕ → Option ℕ
tail_without none index = none
tail_without (some last) index =
    if ltb index last then some (last - 1) else if last == index then none else some last

-- `dequeue`: the value, or -1.
unfoldable pub dequeue : Queue → Option (ℤ × Queue)
dequeue queue = if queue_empty queue then some (negsuc 0, queue) else (elim queue.head [
  | [] ↦ none
  | n ∷ next ↦ some (
    pos n.value,
    record queue { head = next; tail = tail_without queue.tail 0; size = queue.size - 1 },
  )
])

-- The loop of `dequeueByIndex` and the unlinking behind it, with the value that is read.
unfoldable pub unlink_at : List Node → ℕ → Option (ℕ × List Node)
unlink_at [] index = none
unlink_at (x ∷ xs) zero = some (x.value, xs)
unlink_at (x ∷ xs) (suc index) = elim (unlink_at xs index) [
  | none ↦ none
  | some (value, ys) ↦ some (value, x ∷ ys)
]

unfoldable pub dequeue_by_index : Queue → ℤ → Option (ℤ × Queue)
dequeue_by_index queue index =
    if queue_empty queue
    then some (negsuc 0, queue)
    else if ltb_ℤ index (pos 0) || leb_ℤ (pos queue.max_size) index
    then some (negsuc 0, queue)
    else if pos_part index == 0
    then dequeue queue
    else do
      (value, chain) ← unlink_at queue.head (pos_part index)
      some (
        pos value,
        record queue {
          head = chain;
          tail =
              if pos_part index == queue.size - 1
              then some (pos_part index - 1)
              else tail_without queue.tail (pos_part index);
          size = queue.size - 1;
        },
      )

-- `queueFindByValue`, the node or NULL.
unfoldable pub queue_find_by_value : List Node → ℕ → Option Node
queue_find_by_value [] value = none
queue_find_by_value (itr ∷ next) value =
    if itr.value == value then some itr else queue_find_by_value next value

-- The loop of `queueFindIndex`, from a node and its index on.
unfoldable pub find_index_from : ℕ → List Node → ℕ → ℕ → ℤ
find_index_from size [] index value = pos index
find_index_from size (itr ∷ next) index value =
    let onward = find_index_from size next (index + 1) value in
    if itr.value == value then pos index else if leb size index then negsuc 0 else onward

unfoldable pub queue_find_index : Queue → ℕ → ℤ
queue_find_index queue value = find_index_from queue.size queue.head 0 value
