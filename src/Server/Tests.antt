-- ===== src/Server/Tests.antt =====
-- Runs of server.c on small queues: the states the main thread and the workers
-- pass through.

use cs_bsc_technion.Base.{
  ℕ, ◌+◌, ◌≤◌, ◌<◌, ◌≡◌, ◌≢◌, refl, some, none, List, [], ◌∷◌, ◌++◌, arith, ◌⊎◌,
}
use cs_bsc_technion.Queue.{Node, Queue}
use cs_bsc_technion.Queue.Refine.{IsQueue}
use cs_bsc_technion.Server.{
  Server, Policy, block, drop_tail, drop_head, drop_random, other, waits, refused, entered, create,
  arrive, take, finish,
}
use cs_bsc_technion.Server.Contents.{count, held}
use cs_bsc_technion.Server.Sections.{IsServer}
use cs_bsc_technion.Server.System.{
  Worker, ready, serving, closing, accepting, blocked, System, total, is_asleep, nobody,
  after_waits, after_entered, accepts, takes, Reach, starts, later,
}
use cs_bsc_technion.Server.Invariant.{is_ready, has_open, main_has}
use cs_bsc_technion.Server.Safety.{within_bound, connections_conserved, no_fault}
use cs_bsc_technion.Server.Progress.{not_all_asleep}
use cs_bsc_technion.Server.Drain.{Steps, can_drain}
use cs_bsc_technion.Server.Other.{arrive-other-over}

abbrev conn : ℕ → Node
conn fd = record { value = fd; arrival_time = 0 }

abbrev holds_one : ℕ → Queue
holds_one fd = record { head = conn fd ∷ []; tail = some 0; size = 1; max_size = 1 }

abbrev none_held : Queue
none_held = record { head = []; tail = none; size = 0; max_size = 1 }

-- One worker, a bound of one, and a connection that waits.
abbrev one_waits : System
one_waits = record {
  server = record { wait_queue = holds_one 7; worker_queue = none_held; queue_max_size = 1 };
  threads = ready ∷ [];
  main = accepting;
  accepted = 7 ∷ [];
  closed = [];
}

one_waits_reached : Reach block 1 1 one_waits
unfolding arrive cs_bsc_technion.Server.enter cs_bsc_technion.Queue.enqueue
one_waits_reached = later starts (
    accepts (λ i. 0) (conn 7) (entered one_waits.server []) refl refl
      (after_entered one_waits.server [] (nobody refl)))

-- The worker has it, and `main` waits with the next one.
abbrev main_waits : System
main_waits = record {
  server = record { wait_queue = none_held; worker_queue = holds_one 7; queue_max_size = 1 };
  threads = serving 7 ∷ [];
  main = blocked (conn 8);
  accepted = 8 ∷ 7 ∷ [];
  closed = [];
}

main_waits_reached : Reach block 1 1 main_waits
unfolding take cs_bsc_technion.Queue.dequeue cs_bsc_technion.Queue.enqueue
    cs_bsc_technion.Queue.tail_without arrive cs_bsc_technion.Server.overload
main_waits_reached =
    later (later one_waits_reached (takes [] [] 7 main_waits.server refl refl))
      (accepts (λ i. 0) (conn 8) waits refl refl after_waits)

block-known : block ≢ other
block-known e = cc

drop_head_drops :
    arrive drop_head (λ i. 0) one_waits.server (conn 9)
    ≡ some (entered (record one_waits.server { wait_queue = holds_one 9 }) (7 ∷ []))
unfolding arrive cs_bsc_technion.Server.overload cs_bsc_technion.Queue.dequeue
    cs_bsc_technion.Server.enter cs_bsc_technion.Queue.enqueue
drop_head_drops = refl

drop_random_drops :
    arrive drop_random (λ i. 5) one_waits.server (conn 9)
    ≡ some (entered (record one_waits.server { wait_queue = holds_one 9 }) (7 ∷ []))
unfolding arrive cs_bsc_technion.Server.overload cs_bsc_technion.Server.drop_some
    cs_bsc_technion.Queue.dequeue_by_index cs_bsc_technion.Queue.dequeue
    cs_bsc_technion.Server.enter cs_bsc_technion.Queue.enqueue
drop_random_drops = refl

drop_tail_refuses : arrive drop_tail (λ i. 0) one_waits.server (conn 9) ≡ some refused
unfolding arrive cs_bsc_technion.Server.overload
drop_tail_refuses = refl

finish_empties : finish 7 main_waits.server ≡ some (create 1)
unfolding finish cs_bsc_technion.Queue.dequeue_by_index cs_bsc_technion.Queue.queue_find_index
    cs_bsc_technion.Queue.find_index_from cs_bsc_technion.Queue.dequeue
    cs_bsc_technion.Queue.tail_without
finish_empties = refl

within_bound_example : main_waits.server.wait_queue.size + main_waits.server.worker_queue.size ≤ 1
within_bound_example = within_bound block-known main_waits_reached

connections_conserved_example :
    count 7 (8 ∷ 7 ∷ [])
    ≡ count 7 []
      + held 7 none_held
      + total (has_open 7) (serving 7 ∷ [])
      + main_has 7 (blocked (conn 8))
connections_conserved_example = connections_conserved 7 block-known main_waits_reached

no_fault_example :
    ((rand : ℕ → ℕ) (c : Node) → arrive block rand main_waits.server c ≢ none)
    × (take main_waits.server ≢ none)
    × ((before after : List Worker) (fd : ℕ)
        → main_waits.threads ≡ before ++ closing fd ∷ after
        → (0 < held fd main_waits.server.worker_queue) × (finish fd main_waits.server ≢ none))
no_fault_example = no_fault block-known main_waits_reached

not_all_asleep_example :
    ((total is_asleep main_waits.threads ≡ 0)
      ⊎ (main_waits.server.wait_queue.size ≤ total is_ready main_waits.threads))
    × ((1 ≤ main_waits.server.wait_queue.size) ⊎ ((c : Node) × (main_waits.main ≡ blocked c))
        → total is_asleep main_waits.threads < 1)
not_all_asleep_example = not_all_asleep block-known (omega arith) (omega arith) main_waits_reached

can_drain_example :
    (t : System) × Steps block main_waits t
    × (t.accepted ≡ 8 ∷ 7 ∷ [])
    × (t.server.wait_queue.size ≡ 0)
    × (t.server.worker_queue.size ≡ 0)
    × ((x : ℕ) → count x t.accepted ≡ count x t.closed + main_has x t.main)
can_drain_example = can_drain block-known (omega arith) main_waits_reached

one_of-IsQueue : (fd : ℕ) → IsQueue (holds_one fd)
one_of-IsQueue fd = record { counted = refl; bounded = omega arith; at_end = refl }

none-IsQueue : IsQueue none_held
none-IsQueue = record { counted = refl; bounded = omega arith; at_end = refl }

busy-IsServer : IsServer main_waits.server
busy-IsServer = record {
  waiting = none-IsQueue;
  working = one_of-IsQueue 7;
  wait_bound = refl;
  work_bound = refl;
  within = omega arith;
}

arrive-other-over_example :
    (s' : Server) × (arrive other (λ i. 0) main_waits.server (conn 9) ≡ some (entered s' []))
    × (s'.wait_queue.size + s'.worker_queue.size ≡ 2)
arrive-other-over_example =
    arrive-other-over (λ i. 0) main_waits.server (conn 9) busy-IsServer refl (omega arith)
