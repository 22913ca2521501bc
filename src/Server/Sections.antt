-- ===== src/Server/Sections.antt =====
-- What a queue of server.c has after one element has come or gone, and the sections of a worker.
use mathlib.Core.Path.{subst}
use cs_bsc_technion.Base.{
  ℕ, suc, ◌+◌, ◌≤◌, ◌<◌, ◌≡◌, refl, none, some, List, [], ◌∷◌, ◌++◌, length, length-append, pos,
  arith, ap, ◌∙◌,
}
use cs_bsc_technion.Queue.{Node, Queue, enqueue, dequeue, dequeue_by_index, queue_find_index}
use cs_bsc_technion.Queue.Refine.{IsQueue, IsTaken, index_of, enqueue_lem, queue_find_index_lem}
use cs_bsc_technion.Queue.Dequeue.{dequeue_lem, dequeue_by_index_lem}
use cs_bsc_technion.Server.{Server, take, finish, queue_head_arrivaltime}
use cs_bsc_technion.Server.Contents.{
  same, count, values, held, count-values-append, IsTaken-count, max_size-dequeue,
  max_size-dequeue_by_index, index_of-lt, IsTaken-index_of,
}

-- A descriptor goes out of a queue.
pub record IsWithout (queue : Queue) (fd : ℕ) (queue' : Queue) : Type 0 where
  pub valid : IsQueue queue'
  pub max_size : queue'.max_size ≡ queue.max_size
  pub size : queue.size ≡ suc queue'.size
  pub rest : (x : ℕ) → held x queue ≡ same x fd + held x queue'

-- A descriptor comes into a queue.
pub record IsWith (queue : Queue) (fd : ℕ) (queue' : Queue) : Type 0 where
  pub valid : IsQueue queue'
  pub max_size : queue'.max_size ≡ queue.max_size
  pub size : queue'.size ≡ suc queue.size
  pub both : (x : ℕ) → held x queue' ≡ same x fd + held x queue

IsTaken-IsWithout :
    (queue : Queue) (index fd : ℕ) (queue' : Queue)
    → IsQueue queue
    → IsQueue queue'
    → queue'.max_size ≡ queue.max_size
    → IsTaken queue.head index fd queue'.head
    → IsWithout queue fd queue'
IsTaken-IsWithout queue index fd queue' v v' m taken = record {
  valid = v';
  max_size = m;
  size = omega (arith, v.counted, v'.counted, (IsTaken-count 0 taken).1);
  rest = λ x. (IsTaken-count x taken).0;
}

pub dequeue-IsWithout :
    (queue : Queue)
    → IsQueue queue
    → 1 ≤ queue.size
    → (fd : ℕ) × (queue' : Queue) × (dequeue queue ≡ some (pos fd, queue'))
      × IsWithout queue fd queue'
dequeue-IsWithout queue v p =
    let (fd, queue', out, v', taken) = dequeue_lem queue v p in
    (fd, queue', out, IsTaken-IsWithout queue 0 fd queue' v v' (max_size-dequeue queue out) taken)

pub dequeue_by_index-IsWithout :
    (queue : Queue) (index : ℕ)
    → IsQueue queue
    → index < queue.size
    → (fd : ℕ) × (queue' : Queue) × (dequeue_by_index queue (pos index) ≡ some (pos fd, queue'))
      × IsWithout queue fd queue'
dequeue_by_index-IsWithout queue index v p =
    let (fd, queue', out, v', taken) = dequeue_by_index_lem queue index v p in
    (
      fd,
      queue',
      out,
      IsTaken-IsWithout queue index fd queue' v v' (max_size-dequeue_by_index queue (pos index) out)
          taken,
    )

pub enqueue-IsWith :
    (queue : Queue) (n : Node)
    → IsQueue queue
    → queue.size < queue.max_size
    → (queue' : Queue) × (enqueue queue n ≡ some queue') × IsWith queue n.value queue'
enqueue-IsWith queue n v room =
    let (queue', out, v', chain, m) = enqueue_lem queue n v in
    let chain' : queue'.head ≡ queue.head ++ n ∷ [] = ground (arith, chain, room) in
    (
      queue',
      out,
      record {
        valid = v';
        max_size = m;
        size =
            omega
              (arith, v.counted, v'.counted, ap length chain', length-append queue.head (n ∷ []));
        both = λ x. omega (
          arith,
          ap (λ (t : List Node). count x (values t)) chain',
          count-values-append x queue.head (n ∷ []),
        );
      },
    )

-- The queues are well formed, with the bound that `main` keeps.
pub record IsServer (s : Server) : Type 0 where
  pub waiting : IsQueue s.wait_queue
  pub working : IsQueue s.worker_queue
  pub wait_bound : s.wait_queue.max_size ≡ s.queue_max_size
  pub work_bound : s.worker_queue.max_size ≡ s.queue_max_size
  pub within : s.wait_queue.size + s.worker_queue.size ≤ s.queue_max_size

-- With nothing waiting the worker waits too.
pub take-none : (s : Server) → s.wait_queue.size ≡ 0 → take s ≡ some none
unfolding take
take-none s e = ground arith

-- A descriptor goes from the one queue into the other.
pub record IsMoved (s : Server) (fd : ℕ) (s' : Server) : Type 0 where
  pub valid : IsServer s'
  pub bound : s'.queue_max_size ≡ s.queue_max_size
  pub out : IsWithout s.wait_queue fd s'.wait_queue
  pub into : IsWith s.worker_queue fd s'.worker_queue

head_arrivaltime :
    (queue : Queue)
    → IsQueue queue
    → 1 ≤ queue.size
    → (arrival : ℕ) × (queue_head_arrivaltime queue ≡ some arrival)
unfolding queue_head_arrivaltime
head_arrivaltime queue v p = from queue.head refl
  where
    from :
        (xs : List Node)
        → queue.head ≡ xs
        → (arrival : ℕ) × (queue_head_arrivaltime queue ≡ some arrival)
    from [] e = absurd (ground (arith, e, v.counted, p))
    from (n ∷ next) e = (n.arrival_time, rw (e, queue_head_arrivaltime) refl)

pub take-IsMoved :
    (s : Server)
    → IsServer s
    → 1 ≤ s.wait_queue.size
    → (fd : ℕ) × (s' : Server) × (take s ≡ some (some (fd, s'))) × IsMoved s fd s'
unfolding take
take-IsMoved s v p =
    let (arrival, dated) = head_arrivaltime s.wait_queue v.waiting p in
    let (fd, waiting, out, without) = dequeue-IsWithout s.wait_queue v.waiting p in
    let (working, into, with) =
      enqueue-IsWith s.worker_queue (record { value = fd; arrival_time = arrival }) v.working
        (omega (arith, v.work_bound, v.within, p)) in
    (
      fd,
      record s { wait_queue = waiting; worker_queue = working },
      ground (arith, dated, out, into, p),
      record {
        valid = record {
          waiting = without.valid;
          working = with.valid;
          wait_bound = without.max_size ∙ v.wait_bound;
          work_bound = with.max_size ∙ v.work_bound;
          within = omega (arith, v.within, without.size, with.size);
        };
        bound = refl;
        out = without;
        into = with;
      },
    )

-- A descriptor is out of the queue of the workers, and nothing else has changed.
pub record IsFinished (s : Server) (fd : ℕ) (s' : Server) : Type 0 where
  pub valid : IsServer s'
  pub bound : s'.queue_max_size ≡ s.queue_max_size
  pub kept : s'.wait_queue ≡ s.wait_queue
  pub out : IsWithout s.worker_queue fd s'.worker_queue

pub finish-IsFinished :
    (fd : ℕ) (s : Server)
    → IsServer s
    → 0 < held fd s.worker_queue
    → (s' : Server) × (finish fd s ≡ some s') × IsFinished s fd s'
unfolding finish
finish-IsFinished fd s v h =
    let index = index_of s.worker_queue.head fd in
    let found : queue_find_index s.worker_queue fd ≡ pos index =
      queue_find_index_lem s.worker_queue fd v.working in
    let (value, working, out, v', taken) =
      dequeue_by_index_lem s.worker_queue index v.working
        (omega (arith, v.working.counted, index_of-lt fd s.worker_queue.head h)) in
    let without =
      IsTaken-IsWithout s.worker_queue index fd working v.working v'
        (max_size-dequeue_by_index s.worker_queue (pos index) out)
        (subst (λ (w : ℕ). IsTaken s.worker_queue.head index w working.head)
          (IsTaken-index_of fd h taken) taken) in
    (
      record s { worker_queue = working },
      rw (found, out) refl,
      record {
        valid = record {
          waiting = v.waiting;
          working = without.valid;
          wait_bound = v.wait_bound;
          work_bound = without.max_size ∙ v.work_bound;
          within = omega (arith, v.within, without.size);
        };
        bound = refl;
        kept = refl;
        out = without;
      },
    )
