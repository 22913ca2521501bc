-- ===== src/Server/Random.antt =====
-- The loop of server.c that drops connections at random.
use cs_bsc_technion.Base.{
  ℕ, zero, suc, ◌+◌, ◌%◌, ◌≤◌, ◌≡◌, refl, some, List, [], ◌∷◌, arith, ◌∙◌, length,
}
use cs_bsc_technion.Queue.{Queue}
use cs_bsc_technion.Queue.Refine.{IsQueue}
use cs_bsc_technion.Server.{drop_some}
use cs_bsc_technion.Server.Contents.{count, held}
use cs_bsc_technion.Server.Sections.{dequeue_by_index-IsWithout}

-- A number of descriptors goes out of a queue, the closed ones.
pub record IsWithoutAll (queue : Queue) (closed : List ℕ) (queue' : Queue) : Type 0 where
  pub valid : IsQueue queue'
  pub max_size : queue'.max_size ≡ queue.max_size
  pub size : queue.size ≡ length closed + queue'.size
  pub rest : (x : ℕ) → held x queue ≡ count x closed + held x queue'

pub drop_some-IsWithoutAll :
    (n : ℕ) (rand : ℕ → ℕ) (queue : Queue)
    → IsQueue queue
    → n ≤ queue.size
    → (closed : List ℕ) × (queue' : Queue) × (drop_some n rand queue ≡ some (closed, queue'))
      × IsWithoutAll queue closed queue'
      × (length closed ≡ n)
unfolding drop_some
drop_some-IsWithoutAll zero rand queue v h = (
  [],
  queue,
  refl,
  record { valid = v; max_size = refl; size = omega arith; rest = λ x. omega arith },
  refl,
)
drop_some-IsWithoutAll (suc n) rand queue v h =
    let (fd, queue', out, without) =
      dequeue_by_index-IsWithout queue (rand 0 % queue.size) v (ground arith) in
    let (closed, queue'', dropped, all, counted) =
      drop_some-IsWithoutAll n (λ i. rand (suc i)) queue' without.valid
        (omega (arith, h, without.size)) in
    (
      fd ∷ closed,
      queue'',
      ground (arith, out, dropped, h),
      record {
        valid = all.valid;
        max_size = all.max_size ∙ without.max_size;
        size = omega (arith, all.size, without.size);
        rest = λ x. omega (arith, all.rest x, without.rest x);
      },
      omega (arith, counted),
    )
