-- ===== src/Server/Progress.antt =====
-- When the workers of server.c sleep.
use cs_bsc_technion.Base.{
  ℕ, ◌+◌, ◌≤◌, ◌<◌, ◌≡◌, ◌≢◌, ◌⊎◌, inl, inr, refl, true, List, [], ◌∷◌, length, arith, ◌==◌,
  Bool-cases,
}
use cs_bsc_technion.Queue.{Node}
use cs_bsc_technion.Server.{Policy, other, full}
use cs_bsc_technion.Server.System.{
  Worker, ready, asleep, serving, closing, Main, accepting, blocked, woken, System, total,
  is_asleep, Reach,
}
use cs_bsc_technion.Server.Invariant.{is_ready, is_busy, Inv, IsHeld}
use cs_bsc_technion.Server.Safety.{Reach-Inv}

-- Each worker is ready, asleep or at work.
pub crew_parts :
    (ts : List Worker) → length ts ≡ total is_ready ts + total is_asleep ts + total is_busy ts
crew_parts [] = refl
crew_parts (ready ∷ ts) = omega (arith, crew_parts ts)
crew_parts (asleep ∷ ts) = omega (arith, crew_parts ts)
crew_parts (serving fd ∷ ts) = omega (arith, crew_parts ts)
crew_parts (closing fd ∷ ts) = omega (arith, crew_parts ts)

pub waiting_awake :
    {n bound : ℕ} {s : System}
    → 1 ≤ n
    → Inv n bound s
    → 1 ≤ s.server.wait_queue.size
    → total is_asleep s.threads < n
waiting_awake {s} some_worker v busy = elim v.heard [
  | inl none_asleep ↦ omega (arith, none_asleep, some_worker)
  | inr enough ↦ omega (arith, enough, busy, v.crew, crew_parts s.threads)
]

-- Under each of the four policies, with at least one worker and a bound of at least one, in every
-- reachable state: no worker is asleep, or the workers that are about to lock the mutex are at least as
-- many as the connections that wait; and while a connection waits in the queue, or `main` waits for
-- room, not all the workers are asleep.
pub not_all_asleep :
    {policy : Policy} {n bound : ℕ} {s : System}
    → policy ≢ other
    → 1 ≤ n
    → 1 ≤ bound
    → Reach policy n bound s
    → ((total is_asleep s.threads ≡ 0) ⊎ (s.server.wait_queue.size ≤ total is_ready s.threads))
      × ((1 ≤ s.server.wait_queue.size) ⊎ ((conn : Node) × (s.main ≡ blocked conn))
          → total is_asleep s.threads < n)
not_all_asleep {n} {bound} {s} known some_worker some_room r =
    ((Reach-Inv known r).heard, λ work. from (Reach-Inv known r) work)
  where
    full_server : Inv n bound s → full s.server ≡ true → total is_asleep s.threads < n
    full_server v packed = elim (Bool-cases (s.server.wait_queue.size == 0)) [
      | inl empty ↦
          ground (arith, empty, packed, v.busy, v.bounded, v.crew, crew_parts s.threads, some_room)
      | inr busy ↦ waiting_awake some_worker v (ground (arith, busy))
    ]

    held :
        (main : Main) (conn : Node)
        → main ≡ blocked conn
        → IsHeld main s.server
        → full s.server ≡ true
    held accepting conn e h = cc
    held (blocked c) conn e h = h
    held (woken c) conn e h = cc

    from :
        Inv n bound s
        → (1 ≤ s.server.wait_queue.size) ⊎ ((conn : Node) × (s.main ≡ blocked conn))
        → total is_asleep s.threads < n
    from v (inl busy) = waiting_awake some_worker v busy
    from v (inr (conn, e)) = full_server v (held s.main conn e v.held_back)
