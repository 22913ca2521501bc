-- ===== src/Server.antt =====
-- The threads of the web server, "Opereting Systems C++/Creation of Multi-thread WebServer using
-- Locks/webserver-files/server.c". What a thread does between the lock and the unlock of the mutex is
-- one function on the two queues, since the mutex keeps the others out; System puts the threads together.
-- `none` is a read through NULL, a division by zero, or a call of Close with -1, which ends the process.
pub mod Contents
pub mod Sections
pub mod Random
pub mod Arrive
pub mod System
pub mod Moves
pub mod MainMoves
pub mod Invariant
pub mod Safety
pub mod Progress
pub mod Drain
pub mod Other
mod Tests
use cs_bsc_technion.Base.{
  ℕ, zero, suc, ◌+◌, ◌/◌, ◌%◌, Bool, true, false, Option, none, some, List, [], ◌∷◌, if◌then◌else◌,
  ◌==◌, ℤ, pos, negsuc, ◌>>=◌,
}
use cs_bsc_technion.Queue.{
  Node, Queue, queue_create, queue_empty, enqueue, dequeue, dequeue_by_index, queue_find_index,
}

-- The globals, with the bound that `main` keeps.
pub record Server : Type 0 where
  pub wait_queue : Queue
  pub worker_queue : Queue
  pub queue_max_size : ℕ

-- The names that `strcmp` compares, "block", "dt", "dh" and "random", or any other text.
pub data Policy : Type 0 where
  block : Policy
  drop_tail : Policy
  drop_head : Policy
  drop_random : Policy
  other : Policy

-- `main` before its loop.
abbrev pub create : ℕ → Server
create queue_max_size = record {
  wait_queue = queue_create queue_max_size;
  worker_queue = queue_create queue_max_size;
  queue_max_size = queue_max_size;
}

abbrev pub full : Server → Bool
full s = s.worker_queue.size + s.wait_queue.size == s.queue_max_size

-- `Close` of what a queue gave; it ends the process on -1.
abbrev pub descriptor : ℤ → Option ℕ
descriptor (pos fd) = some fd
descriptor (negsuc _) = none

-- The loop of the random policy: the values of `rand` from one on, the descriptors that it closes.
unfoldable pub drop_some : ℕ → (ℕ → ℕ) → Queue → Option (List ℕ × Queue)
drop_some zero rand queue = some ([], queue)
drop_some (suc reqeusts_to_drop) rand queue = if queue.size == 0 then none else (do
  (value, queue') ← dequeue_by_index queue (pos (rand 0 % queue.size))
  fd ← descriptor value
  (closed, queue'') ← drop_some reqeusts_to_drop (λ i. rand (suc i)) queue'
  some (fd ∷ closed, queue''))

-- What `main` does with a connection: it waits for room with the mutex released, it closes the
-- connection and goes on without a signal, or it puts it into the queue, with what it closed before,
-- and signals `cond`.
pub data Outcome : Type 0 where
  waits : Outcome
  refused : Outcome
  entered : Server → List ℕ → Outcome

unfoldable pub enter : Server → Node → List ℕ → Option Outcome
enter s conn closed = do
  queue ← enqueue s.wait_queue conn
  some (entered (record s { wait_queue = queue }) closed)

-- The branches for a full server.
unfoldable pub overload : Policy → (ℕ → ℕ) → Server → Node → Option Outcome
overload block rand s conn = some waits
overload drop_tail rand s conn = some refused
overload drop_head rand s conn = if queue_empty s.wait_queue then some refused else (do
  (value, queue) ← dequeue s.wait_queue
  fd ← descriptor value
  enter (record s { wait_queue = queue }) conn (fd ∷ []))
overload drop_random rand s conn = if queue_empty s.wait_queue then some refused else (do
  (closed, queue) ← drop_some ((s.wait_queue.size + 1) / 2) rand s.wait_queue
  enter (record s { wait_queue = queue }) conn closed)
overload other rand s conn = enter s conn []

-- `main` from the lock on, and again when `cond_block` has woken it.
unfoldable pub arrive : Policy → (ℕ → ℕ) → Server → Node → Option Outcome
arrive policy rand s conn = if full s then overload policy rand s conn else enter s conn []

-- `queueHeadArrivaltime`
unfoldable pub queue_head_arrivaltime : Queue → Option ℕ
queue_head_arrivaltime queue = elim queue.head [ [] ↦ none | n ∷ next ↦ some n.arrival_time ]

-- The first section of `thread_function`: the inner `none` is the wait on `cond`.
unfoldable pub take : Server → Option (Option (ℕ × Server))
unfolding queue_head_arrivaltime
take s = if queue_empty s.wait_queue then some none else (do
  arrival ← queue_head_arrivaltime s.wait_queue
  (value, waiting) ← dequeue s.wait_queue
  fd ← descriptor value
  working ← enqueue s.worker_queue (record { value = fd; arrival_time = arrival })
  some (some (fd, record s { wait_queue = waiting; worker_queue = working })))

-- The section behind `requestHandle` and `Close`.
unfoldable pub finish : ℕ → Server → Option Server
finish fd s = do
  (_, working) ← dequeue_by_index s.worker_queue (queue_find_index s.worker_queue fd)
  some (record s { worker_queue = working })
