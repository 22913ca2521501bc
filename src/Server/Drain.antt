-- ===== src/Server/Drain.antt =====
-- The work that is left to the workers of server.c, and runs that do it.
use cs_bsc_technion.Base.{
  ℕ, zero, suc, ◌+◌, ◌*◌, ◌≤◌, ◌<◌, ◌≡◌, ◌≢◌, inl, inr, refl, List, [], ◌∷◌, ◌++◌, length, arith,
  ap, ◌∙◌, ◌==◌, Bool-cases,
}
use cs_bsc_technion.Queue.{Node, Queue}
use cs_bsc_technion.Server.{Policy, other}
use cs_bsc_technion.Server.Contents.{count, values}
use cs_bsc_technion.Server.Sections.{take-IsMoved}
use cs_bsc_technion.Server.System.{
  Worker, ready, asleep, serving, closing, System, total, Step, takes, closes, finishes, Reach,
}
use cs_bsc_technion.Server.Invariant.{is_ready, is_busy, has_open, main_has, Inv, total-change}
use cs_bsc_technion.Server.Safety.{Reach-Inv, Step-Inv, closing-IsFinished}
use cs_bsc_technion.Server.Progress.{crew_parts, waiting_awake}

pub data Steps (policy : Policy) : System → System → Type 0 where
  done : {s : System} → Steps policy s s
  first : {s t u : System} → Step policy s t → Steps policy t u → Steps policy s u

-- The sections that a worker has before it.
abbrev weight : Worker → ℕ
weight (serving fd) = 2
weight (closing fd) = 1
weight _ = 0

abbrev work_left : System → ℕ
work_left s = 3 * s.server.wait_queue.size + total weight s.threads

-- A sum that is not 0 has a worker that is not 0.
find_worker :
    (f : Worker → ℕ) (ts : List Worker)
    → 0 < total f ts
    → (before : List Worker) × (w : Worker) × (after : List Worker) × (ts ≡ before ++ w ∷ after)
      × (0 < f w)
find_worker f [] h = absurd (omega arith)
find_worker f (t ∷ ts) h = elim (Bool-cases (f t == 0)) [
  | inl none_here ↦
      let (before, w, after, e, p) = find_worker f ts (ground (arith, none_here, h)) in
      (t ∷ before, w, after, ap (λ (us : List Worker). t ∷ us) e, p)
  | inr here ↦ ([], t, ts, refl, ground (arith, here))
]

is_busy-le-weight : (ts : List Worker) → total is_busy ts ≤ total weight ts
is_busy-le-weight [] = omega arith
is_busy-le-weight (ready ∷ ts) = omega (arith, is_busy-le-weight ts)
is_busy-le-weight (asleep ∷ ts) = omega (arith, is_busy-le-weight ts)
is_busy-le-weight (serving fd ∷ ts) = omega (arith, is_busy-le-weight ts)
is_busy-le-weight (closing fd ∷ ts) = omega (arith, is_busy-le-weight ts)

has_open-le-weight : (x : ℕ) (ts : List Worker) → total (has_open x) ts ≤ total weight ts
has_open-le-weight x [] = omega arith
has_open-le-weight x (ready ∷ ts) = omega (arith, has_open-le-weight x ts)
has_open-le-weight x (asleep ∷ ts) = omega (arith, has_open-le-weight x ts)
has_open-le-weight x (serving fd ∷ ts) = ground (arith, has_open-le-weight x ts)
has_open-le-weight x (closing fd ∷ ts) = omega (arith, has_open-le-weight x ts)

count-le-length : (x : ℕ) (ns : List Node) → count x (values ns) ≤ length ns
count-le-length x [] = omega arith
count-le-length x (n ∷ ns) = ground (arith, count-le-length x ns)

-- A step of a worker, after which it has less before it.
abbrev Works : Policy → System → Type 0
Works policy s =
    (t : System) × Step policy s t × (work_left t < work_left s) × (t.accepted ≡ s.accepted)

goes_on :
    {n bound : ℕ} (policy : Policy) (s : System) (before : List Worker) (w : Worker)
    (after : List Worker)
    → Inv n bound s
    → s.threads ≡ before ++ w ∷ after
    → 0 < weight w
    → Works policy s
goes_on policy s before ready after v e h = absurd (omega arith)
goes_on policy s before asleep after v e h = absurd (omega arith)
goes_on policy s before (serving fd) after v e h = (
  _,
  closes before after fd e,
  omega (arith, total-change weight before (serving fd) (closing fd) after e),
  refl,
)
goes_on policy s before (closing fd) after v e h =
    let (server, out, finished) = closing-IsFinished s before after fd e v in
    (
      _,
      finishes before after fd server e out,
      omega (
        arith,
        total-change weight before (closing fd) ready after e,
        ap (λ (q : Queue). q.size) finished.kept,
      ),
      refl,
    )

begins_one :
    {n bound : ℕ} (policy : Policy) (s : System) (before : List Worker) (w : Worker)
    (after : List Worker)
    → Inv n bound s
    → 1 ≤ s.server.wait_queue.size
    → s.threads ≡ before ++ w ∷ after
    → 0 < is_ready w
    → Works policy s
begins_one policy s before ready after v busy e h =
    let (fd, server, out, moved) = take-IsMoved s.server v.valid busy in
    (
      _,
      takes before after fd server e out,
      omega (arith, total-change weight before ready (serving fd) after e, moved.out.size),
      refl,
    )
begins_one policy s before asleep after v busy e h = absurd (omega arith)
begins_one policy s before (serving fd) after v busy e h = absurd (omega arith)
begins_one policy s before (closing fd) after v busy e h = absurd (omega arith)

some_work :
    {n bound : ℕ} (policy : Policy) (s : System)
    → 1 ≤ n
    → Inv n bound s
    → 0 < work_left s
    → Works policy s
some_work policy s some_worker v h = elim (Bool-cases (total weight s.threads == 0)) [
  | inl idle ↦
      let busy : 1 ≤ s.server.wait_queue.size = ground (arith, idle, h) in
      let (before, w, after, e, p) = find_worker is_ready s.threads (
        ground (
          arith,
          idle,
          is_busy-le-weight s.threads,
          crew_parts s.threads,
          v.crew,
          waiting_awake some_worker v busy,
        )) in
      begins_one policy s before w after v busy e p
  | inr at_work ↦
      let (before, w, after, e, p) = find_worker weight s.threads (ground (arith, at_work)) in
      goes_on policy s before w after v e p
]

drain_within :
    {n bound : ℕ} (policy : Policy) (k : ℕ) (s : System)
    → policy ≢ other
    → 1 ≤ n
    → work_left s ≤ k
    → Inv n bound s
    → (t : System) × Steps policy s t
      × (work_left t ≡ 0)
      × (t.accepted ≡ s.accepted)
      × Inv n bound t
drain_within policy zero s known some_worker h v = (s, done, omega (arith, h), refl, v)
drain_within policy (suc k) s known some_worker h v = elim (Bool-cases (work_left s == 0)) [
  | inl nothing ↦ (s, done, ground (arith, nothing), refl, v)
  | inr more ↦
      let (t, step, less, same_accepted) =
        some_work policy s some_worker v (ground (arith, more)) in
      let (u, steps, nothing, kept, v') =
        drain_within policy k t known some_worker (omega (arith, h, less))
          (Step-Inv known step v) in
      (u, first step steps, nothing, kept ∙ same_accepted, v')
]

-- Under each of the four policies and with at least one worker there is a run from every reachable state,
-- with no connection accepted on the way, to a state where nothing waits and nothing is worked on: each
-- descriptor has been closed as often as it was accepted, but for the one that `main` may have.
pub can_drain :
    {policy : Policy} {n bound : ℕ} {s : System}
    → policy ≢ other
    → 1 ≤ n
    → Reach policy n bound s
    → (t : System) × Steps policy s t
      × (t.accepted ≡ s.accepted)
      × (t.server.wait_queue.size ≡ 0)
      × (t.server.worker_queue.size ≡ 0)
      × ((x : ℕ) → count x t.accepted ≡ count x t.closed + main_has x t.main)
can_drain {policy} {s} known some_worker r =
    let (t, steps, nothing, kept, v) =
      drain_within policy (work_left s) s known some_worker (omega arith) (Reach-Inv known r) in
    (
      t,
      steps,
      kept,
      omega (arith, nothing),
      omega (arith, nothing, v.busy, is_busy-le-weight t.threads),
      λ x. omega (
        arith,
        nothing,
        v.kept x,
        has_open-le-weight x t.threads,
        v.valid.waiting.counted,
        count-le-length x t.server.wait_queue.head,
      ),
    )
