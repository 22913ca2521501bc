-- ===== src/Server/System.antt =====
-- The threads of server.c, interleaved in any order: `main`, and the workers of `thread_function`.
use cs_bsc_technion.Base.{ℕ, zero, suc, ◌+◌, ◌≡◌, some, none, List, [], ◌∷◌, ◌++◌}
use cs_bsc_technion.Queue.{Node}
use cs_bsc_technion.Server.{
  Server, Policy, Outcome, waits, refused, entered, create, arrive, take, finish,
}

-- A worker that is about to lock the mutex, one that waits for `cond`, one with a request before its
-- `Close`, and one behind it.
pub data Worker : Type 0 where
  ready : Worker
  asleep : Worker
  serving : ℕ → Worker
  closing : ℕ → Worker

-- `main` before `Accept`, in the wait for `cond_block`, and woken from it.
pub data Main : Type 0 where
  accepting : Main
  blocked : Node → Main
  woken : Node → Main

-- The history says which descriptors were accepted and which were closed.
pub record System : Type 0 where
  pub server : Server
  pub threads : List Worker
  pub main : Main
  pub accepted : List ℕ
  pub closed : List ℕ

abbrev pub all_ready : ℕ → List Worker
all_ready zero = []
all_ready (suc n) = ready ∷ all_ready n

abbrev pub start : ℕ → ℕ → System
start threads_number queue_max_size = record {
  server = create queue_max_size;
  threads = all_ready threads_number;
  main = accepting;
  accepted = [];
  closed = [];
}

-- The sum of a number for each worker.
abbrev pub total : (Worker → ℕ) → List Worker → ℕ
total f [] = 0
total f (w ∷ ws) = f w + total f ws

abbrev pub is_asleep : Worker → ℕ
is_asleep asleep = 1
is_asleep _ = 0

-- `pthread_cond_signal(&cond)`: one that waits goes on, if one does. That more go on, as may happen, is
-- the step `stirs`.
pub data Signal (ts : List Worker) : List Worker → Type 0 where
  nobody : total is_asleep ts ≡ 0 → Signal ts ts
  wakes :
      (before after : List Worker)
      → ts ≡ before ++ asleep ∷ after
      → Signal ts (before ++ ready ∷ after)

-- `pthread_cond_signal(&cond_block)`: only `main` waits for it.
abbrev pub wake_main : Main → Main
wake_main accepting = accepting
wake_main (blocked conn) = woken conn
wake_main (woken conn) = woken conn

abbrev pub refuse : System → Node → System
refuse s conn = record s { main = accepting; closed = conn.value ∷ s.closed }

abbrev pub put_in : System → Server → List ℕ → List Worker → System
put_in s server closed threads = record s {
  server = server;
  main = accepting;
  threads = threads;
  closed = closed ++ s.closed;
}

-- What `main` leaves when it has dealt with a connection.
pub data After (s : System) (conn : Node) : Outcome → System → Type 0 where
  after_waits : After s conn waits (record s { main = blocked conn })
  after_refused : After s conn refused (refuse s conn)
  after_entered :
      (server : Server) (closed : List ℕ) {threads : List Worker}
      → Signal s.threads threads
      → After s conn (entered server closed) (put_in s server closed threads)

abbrev pub accept : System → Node → System
accept s conn = record s { accepted = conn.value ∷ s.accepted }

pub data Step (policy : Policy) (s : System) : System → Type 0 where
  -- `Accept`, and the section behind it, up to the wait if there is one.
  accepts :
      (rand : ℕ → ℕ) (conn : Node) (o : Outcome) {t : System}
      → s.main ≡ accepting
      → arrive policy rand s.server conn ≡ some o
      → After (accept s conn) conn o t
      → Step policy s t
  -- From the wait on.
  retries :
      (rand : ℕ → ℕ) (conn : Node) (o : Outcome) {t : System}
      → s.main ≡ woken conn
      → arrive policy rand s.server conn ≡ some o
      → After s conn o t
      → Step policy s t
  -- A wait may end without a signal.
  main_stirs :
      (conn : Node) → s.main ≡ blocked conn → Step policy s (record s { main = woken conn })
  stirs :
      (before after : List Worker)
      → s.threads ≡ before ++ asleep ∷ after
      → Step policy s (record s { threads = before ++ ready ∷ after })
  sleeps :
      (before after : List Worker)
      → s.threads ≡ before ++ ready ∷ after
      → take s.server ≡ some none
      → Step policy s (record s { threads = before ++ asleep ∷ after })
  takes :
      (before after : List Worker) (fd : ℕ) (server : Server)
      → s.threads ≡ before ++ ready ∷ after
      → take s.server ≡ some (some (fd, server))
      → Step policy s (record s { server = server; threads = before ++ serving fd ∷ after })
  -- `Close` stands outside the mutex.
  closes :
      (before after : List Worker) (fd : ℕ)
      → s.threads ≡ before ++ serving fd ∷ after
      → Step policy s (record s { threads = before ++ closing fd ∷ after; closed = fd ∷ s.closed })
  finishes :
      (before after : List Worker) (fd : ℕ) (server : Server)
      → s.threads ≡ before ++ closing fd ∷ after
      → finish fd s.server ≡ some server
      → Step policy s
          (record s { server = server; threads = before ++ ready ∷ after; main = wake_main s.main })

pub data Reach (policy : Policy) (threads_number queue_max_size : ℕ) : System → Type 0 where
  starts : Reach policy threads_number queue_max_size (start threads_number queue_max_size)
  later :
      {s t : System}
      → Reach policy threads_number queue_max_size s
      → Step policy s t
      → Reach policy threads_number queue_max_size t
