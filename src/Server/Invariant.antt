-- ===== src/Server/Invariant.antt =====
-- The invariant of the threads of server.c.
use cs_bsc_technion.Base.{ℕ, ◌+◌, ◌≤◌, ◌≡◌, ◌⊎◌, true, List, [], ◌∷◌, ◌++◌, length, arith, ap}
use cs_bsc_technion.Server.{Server, full}
use cs_bsc_technion.Server.Contents.{same, count, held}
use cs_bsc_technion.Server.Sections.{IsServer}
use cs_bsc_technion.Server.System.{
  Worker, ready, serving, closing, Main, accepting, blocked, woken, System, total, is_asleep,
}

abbrev pub is_ready : Worker → ℕ
is_ready ready = 1
is_ready _ = 0

-- A worker whose descriptor is in the workers' queue.
abbrev pub is_busy : Worker → ℕ
is_busy (serving fd) = 1
is_busy (closing fd) = 1
is_busy _ = 0

abbrev pub works_on : ℕ → Worker → ℕ
works_on x (serving fd) = same x fd
works_on x (closing fd) = same x fd
works_on x _ = 0

-- A worker that has yet to close the descriptor.
abbrev pub has_open : ℕ → Worker → ℕ
has_open x (serving fd) = same x fd
has_open x _ = 0

abbrev pub main_has : ℕ → Main → ℕ
main_has x accepting = 0
main_has x (blocked conn) = same x conn.value
main_has x (woken conn) = same x conn.value

-- `main` sleeps only while the server is full.
abbrev pub IsHeld : Main → Server → Type 0
IsHeld (blocked conn) server = full server ≡ true
IsHeld _ server = Unit

pub record Inv (n bound : ℕ) (s : System) : Type 0 where
  pub valid : IsServer s.server
  pub bounded : s.server.queue_max_size ≡ bound
  pub crew : length s.threads ≡ n
  pub busy : s.server.worker_queue.size ≡ total is_busy s.threads
  pub working : (x : ℕ) → held x s.server.worker_queue ≡ total (works_on x) s.threads
  pub kept :
      (x : ℕ)
      → count x s.accepted
        ≡ count x s.closed
          + held x s.server.wait_queue
          + total (has_open x) s.threads
          + main_has x s.main
  pub heard :
      (total is_asleep s.threads ≡ 0) ⊎ (s.server.wait_queue.size ≤ total is_ready s.threads)
  pub held_back : IsHeld s.main s.server

pub total-append :
    (f : Worker → ℕ) (ws vs : List Worker) → total f (ws ++ vs) ≡ total f ws + total f vs
total-append f [] vs = omega arith
total-append f (w ∷ ws) vs = omega (arith, total-append f ws vs)

pub total-middle :
    (f : Worker → ℕ) (before : List Worker) (w : Worker) (after : List Worker)
    → total f (before ++ w ∷ after) ≡ total f before + f w + total f after
total-middle f before w after = omega (arith, total-append f before (w ∷ after))

-- One worker changes: so does what is summed up over all of them.
pub total-change :
    (f : Worker → ℕ) {ts : List Worker} (before : List Worker) (w v : Worker) (after : List Worker)
    → ts ≡ before ++ w ∷ after
    → total f (before ++ v ∷ after) + f w ≡ total f ts + f v
total-change f before w v after e =
    omega (arith, ap (total f) e, total-middle f before w after, total-middle f before v after)
