-- ===== src/Server/Safety.antt =====
-- The reachable states of the threads of server.c.
use mathlib.Core.Path.{subst}
use cs_bsc_technion.Base.{
  ℕ, ◌+◌, ◌≤◌, ◌<◌, ◌≡◌, ◌≢◌, inl, inr, refl, some, none, List, ◌∷◌, ◌++◌, arith, ap, sym, ◌∙◌,
  ◌==◌, eq_of_some, Bool-cases,
}
use cs_bsc_technion.Queue.{Node}
use cs_bsc_technion.Server.{Server, Policy, other, take, finish, arrive}
use cs_bsc_technion.Server.Contents.{same, count, held}
use cs_bsc_technion.Server.Sections.{
  IsServer, IsMoved, IsFinished, take-none, take-IsMoved, finish-IsFinished,
}
use cs_bsc_technion.Server.Arrive.{arrive-Arrived}
use cs_bsc_technion.Server.System.{
  Worker, closing, blocked, woken, System, total, Step, accepts, retries, main_stirs, stirs, sleeps,
  takes, closes, finishes, Reach, starts, later, accept,
}
use cs_bsc_technion.Server.Invariant.{works_on, has_open, main_has, Inv, total-middle}
use cs_bsc_technion.Server.Moves.{
  start-Inv, stirs-Inv, sleeps-Inv, takes-Inv, closes-Inv, finishes-Inv,
}
use cs_bsc_technion.Server.MainMoves.{accept-Inv, woken-Inv, section-Inv}

pub take-some :
    (s : Server) (fd : ℕ) (s' : Server)
    → IsServer s
    → take s ≡ some (some (fd, s'))
    → IsMoved s fd s'
take-some s fd s' v e = elim (Bool-cases (s.wait_queue.size == 0)) [
  | inl empty ↦ absurd (ground (arith, take-none s (ground (arith, empty)), e))
  | inr busy ↦
      let (fd', t, out, moved) = take-IsMoved s v (ground (arith, busy)) in
      let same_pair : ◌≡◌ {A = ℕ × Server} (fd', t) (fd, s') =
        eq_of_some (eq_of_some (sym out ∙ e)) in
      subst (λ (p : ℕ × Server). IsMoved s p.0 p.1) same_pair moved
]

works_on-pos :
    {n bound : ℕ} (s : System) (before after : List Worker) (fd : ℕ)
    → s.threads ≡ before ++ closing fd ∷ after
    → Inv n bound s
    → 0 < held fd s.server.worker_queue
works_on-pos s before after fd e v =
    let one : same fd fd ≡ 1 = ground arith in
    omega (
      arith,
      v.working fd,
      one,
      ap (total (works_on fd)) e,
      total-middle (works_on fd) before (closing fd) after,
    )

pub closing-IsFinished :
    {n bound : ℕ} (s : System) (before after : List Worker) (fd : ℕ)
    → s.threads ≡ before ++ closing fd ∷ after
    → Inv n bound s
    → (server : Server) × (finish fd s.server ≡ some server) × IsFinished s.server fd server
closing-IsFinished s before after fd e v =
    finish-IsFinished fd s.server v.valid (works_on-pos s before after fd e v)

finish-some :
    {n bound : ℕ} (s : System) (before after : List Worker) (fd : ℕ) (server : Server)
    → s.threads ≡ before ++ closing fd ∷ after
    → finish fd s.server ≡ some server
    → Inv n bound s
    → IsFinished s.server fd server
finish-some s before after fd server e out v =
    let (t, out', done) = closing-IsFinished s before after fd e v in
    subst (λ (p : Server). IsFinished s.server fd p) (eq_of_some (sym out' ∙ out)) done

pub Step-Inv :
    {n bound : ℕ} {policy : Policy} {s t : System}
    → policy ≢ other
    → Step policy s t
    → Inv n bound s
    → Inv n bound t
Step-Inv {s} known (accepts rand conn o e out after) v =
    section-Inv (accept s conn) rand conn known out (accept-Inv s conn e v) after
Step-Inv {s} known (retries rand conn o e out after) v =
    section-Inv s rand conn known out (woken-Inv s conn (woken conn) e (λ x. refl) v) after
Step-Inv {s} known (main_stirs conn e) v = woken-Inv s conn (blocked conn) e (λ x. refl) v
Step-Inv {s} known (stirs before after e) v = stirs-Inv s before after e v
Step-Inv {s} known (sleeps before after e out) v = sleeps-Inv s before after e out v
Step-Inv {s} known (takes before after fd server e out) v =
    takes-Inv s before after fd server e (take-some s.server fd server v.valid out) v
Step-Inv {s} known (closes before after fd e) v = closes-Inv s before after fd e v
Step-Inv {s} known (finishes before after fd server e out) v =
    finishes-Inv s before after fd server e (finish-some s before after fd server e out v) v

pub Reach-Inv :
    {policy : Policy} {n bound : ℕ} {s : System}
    → policy ≢ other
    → Reach policy n bound s
    → Inv n bound s
Reach-Inv {n} {bound} known starts = start-Inv n bound
Reach-Inv known (later r step) = Step-Inv known step (Reach-Inv known r)

-- Under each of the four policies, however the threads interleave: the connections that wait and those
-- that are worked on are never more than the bound.
pub within_bound :
    {policy : Policy} {n bound : ℕ} {s : System}
    → policy ≢ other
    → Reach policy n bound s
    → s.server.wait_queue.size + s.server.worker_queue.size ≤ bound
within_bound known r = let v = Reach-Inv known r in omega (arith, v.valid.within, v.bounded)

-- Under each of the four policies no connection is lost and none is closed twice: a descriptor was
-- accepted as often as it was closed, stands in the queue, is with a worker that has yet to close it,
-- or is in the hands of `main`, together.
pub connections_conserved :
    {policy : Policy} {n bound : ℕ} {s : System} (x : ℕ)
    → policy ≢ other
    → Reach policy n bound s
    → count x s.accepted
      ≡ count x s.closed
        + held x s.server.wait_queue
        + total (has_open x) s.threads
        + main_has x s.main
connections_conserved x known r = (Reach-Inv known r).kept x

-- Under each of the four policies no section of a thread fails in a reachable state: what `main` does
-- with a connection, what a worker does when it looks for one, and what it does when it is through with
-- one, whatever the random numbers are. The descriptor of a worker that is through with its request is
-- then in the workers' queue.
pub no_fault :
    {policy : Policy} {n bound : ℕ} {s : System}
    → policy ≢ other
    → Reach policy n bound s
    → ((rand : ℕ → ℕ) (conn : Node) → arrive policy rand s.server conn ≢ none)
      × (take s.server ≢ none)
      × ((before after : List Worker) (fd : ℕ)
          → s.threads ≡ before ++ closing fd ∷ after
          → (0 < held fd s.server.worker_queue) × (finish fd s.server ≢ none))
no_fault {policy} {s} known r = (
  λ rand conn e.
      let (o, out, a) = arrive-Arrived policy rand s.server conn (Reach-Inv known r).valid known in
      ground (arith, out, e),
  λ e. takes_or_waits e,
  λ before after fd at_end. (
    works_on-pos s before after fd at_end (Reach-Inv known r),
    λ e.
        let (t, out, done) = closing-IsFinished s before after fd at_end (Reach-Inv known r) in
        ground (arith, out, e),
  ),
)
  where
    takes_or_waits : take s.server ≡ none → ⊥
    takes_or_waits e = elim (Bool-cases (s.server.wait_queue.size == 0)) [
      | inl empty ↦ ground (arith, take-none s.server (ground (arith, empty)), e)
      | inr busy ↦
          let (fd, t, out, moved) =
            take-IsMoved s.server (Reach-Inv known r).valid (ground (arith, busy)) in
          ground (arith, out, e)
    ]
