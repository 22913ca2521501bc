-- ===== src/Server/Arrive.antt =====
-- What `main` of server.c does with a connection, under every policy.

use cs_bsc_technion.Base.{
  ℕ, suc, ◌+◌, ◌/◌, ◌<◌, ◌≡◌, ◌≢◌, refl, true, some, List, [], ◌∷◌, ◌==◌, arith, ◌∙◌, length,
  Bool-cases, inl, inr,
}
use cs_bsc_technion.Queue.{Node, Queue}
use cs_bsc_technion.Queue.Refine.{IsQueue}
use cs_bsc_technion.Server.{
  Server, Policy, block, drop_tail, drop_head, drop_random, other, Outcome, waits, refused, entered,
  full, enter, overload, arrive,
}
use cs_bsc_technion.Server.Contents.{same, count, held}
use cs_bsc_technion.Server.Sections.{IsServer, dequeue-IsWithout, enqueue-IsWith}
use cs_bsc_technion.Server.Random.{IsWithoutAll, drop_some-IsWithoutAll}

-- The connection waits, some others are closed, and the workers' queue is as it was.
pub record IsEntered (s : Server) (conn : Node) (closed : List ℕ) (s' : Server) : Type 0 where
  pub valid : IsServer s'
  pub bound : s'.queue_max_size ≡ s.queue_max_size
  pub kept : s'.worker_queue ≡ s.worker_queue
  pub size : s'.wait_queue.size + length closed ≡ suc s.wait_queue.size
  pub both :
      (x : ℕ) → held x s'.wait_queue + count x closed ≡ same x conn.value + held x s.wait_queue

pub data Arrived (policy : Policy) (s : Server) (conn : Node) : Outcome → Type 0 where
  waiting : policy ≡ block → full s ≡ true → Arrived policy s conn waits
  turned_away : policy ≢ block → full s ≡ true → Arrived policy s conn refused
  let_in :
      (s' : Server) (closed : List ℕ)
      → IsEntered s conn closed s'
      → Arrived policy s conn (entered s' closed)

-- The queue without the closed ones has room.
enter_lem :
    (s : Server) (conn : Node) (closed : List ℕ) (queue : Queue)
    → IsServer s
    → IsWithoutAll s.wait_queue closed queue
    → queue.size + s.worker_queue.size < s.queue_max_size
    → (s' : Server) × (enter (record s { wait_queue = queue }) conn closed
        ≡ some (entered s' closed))
      × IsEntered s conn closed s'
unfolding enter
enter_lem s conn closed queue v w room =
    let (queue', out, with) =
      enqueue-IsWith queue conn w.valid (omega (arith, w.max_size, v.wait_bound, room)) in
    (
      record s { wait_queue = queue' },
      rw out refl,
      record {
        valid = record {
          waiting = with.valid;
          working = v.working;
          wait_bound = with.max_size ∙ w.max_size ∙ v.wait_bound;
          work_bound = v.work_bound;
          within = omega (arith, room, with.size);
        };
        bound = refl;
        kept = refl;
        size = omega (arith, with.size, w.size);
        both = λ x. omega (arith, with.both x, w.rest x);
      },
    )

nothing_closed : (queue : Queue) → IsQueue queue → IsWithoutAll queue [] queue
nothing_closed queue v = record {
  valid = v;
  max_size = refl;
  size = omega arith;
  rest = λ x. omega arith;
}

let_in_when :
    (policy : Policy) (s : Server) (conn : Node) (closed : List ℕ) (queue : Queue)
    → IsServer s
    → IsWithoutAll s.wait_queue closed queue
    → queue.size + s.worker_queue.size < s.queue_max_size
    → (o : Outcome) × (enter (record s { wait_queue = queue }) conn closed ≡ some o)
      × Arrived policy s conn o
let_in_when policy s conn closed queue v w room =
    let (s', out, e) = enter_lem s conn closed queue v w room in
    (entered s' closed, out, let_in s' closed e)

overload-Arrived :
    (policy : Policy) (rand : ℕ → ℕ) (s : Server) (conn : Node)
    → IsServer s
    → policy ≢ other
    → full s ≡ true
    → (o : Outcome) × (overload policy rand s conn ≡ some o) × Arrived policy s conn o
unfolding overload
overload-Arrived block rand s conn v known h = (waits, refl, waiting refl h)
overload-Arrived drop_tail rand s conn v known h = (refused, refl, turned_away (λ e. cc) h)
overload-Arrived drop_head rand s conn v known h = elim (Bool-cases (s.wait_queue.size == 0)) [
  | inl empty ↦ (refused, rw empty refl, turned_away (λ e. cc) h)
  | inr busy ↦
      let (fd, queue, out, w) = dequeue-IsWithout s.wait_queue v.waiting (ground (arith, busy)) in
      let (o, done, a) =
        let_in_when drop_head s conn (fd ∷ []) queue v
          (record {
            valid = w.valid;
            max_size = w.max_size;
            size = omega (arith, w.size);
            rest = λ x. omega (arith, w.rest x);
          })
          (omega (arith, w.size, v.within)) in
      (o, rw (busy, out) done, a)
]
overload-Arrived drop_random rand s conn v known h = elim (Bool-cases (s.wait_queue.size == 0)) [
  | inl empty ↦ (refused, rw empty refl, turned_away (λ e. cc) h)
  | inr busy ↦
      let (closed, queue, out, w, many) =
        drop_some-IsWithoutAll ((s.wait_queue.size + 1) / 2) rand s.wait_queue v.waiting
          (ground (arith, busy)) in
      let (o, done, a) =
        let_in_when drop_random s conn closed queue v w
          (ground (arith, busy, many, w.size, v.within)) in
      (o, rw (busy, out) done, a)
]
overload-Arrived other rand s conn v known h = absurd (known refl)

pub arrive-Arrived :
    (policy : Policy) (rand : ℕ → ℕ) (s : Server) (conn : Node)
    → IsServer s
    → policy ≢ other
    → (o : Outcome) × (arrive policy rand s conn ≡ some o) × Arrived policy s conn o
unfolding arrive
arrive-Arrived policy rand s conn v known = elim (Bool-cases (full s)) [
  | inl packed ↦
      let (o, out, a) = overload-Arrived policy rand s conn v known packed in (o, rw packed out, a)
  | inr room ↦
      let (o, out, a) =
        let_in_when policy s conn [] s.wait_queue v (nothing_closed s.wait_queue v.waiting)
          (ground (arith, room, v.within)) in
      (o, rw room out, a)
]
