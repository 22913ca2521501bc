-- ===== src/Server/Other.antt =====
-- What server.c does under a policy with another name.
use cs_bsc_technion.Base.{ℕ, suc, ◌+◌, ◌≤◌, ◌≡◌, refl, true, some, [], arith}
use cs_bsc_technion.Queue.{Node, enqueue}
use cs_bsc_technion.Server.{Server, other, entered, full, enter, overload, arrive}
use cs_bsc_technion.Server.Sections.{IsServer, enqueue-IsWith}

-- Under any other policy a full server in which at least one connection is worked on lets a new one in
-- and closes none, so that one more than the bound are then waiting and worked on.
pub arrive-other-over :
    (rand : ℕ → ℕ) (s : Server) (conn : Node)
    → IsServer s
    → full s ≡ true
    → 1 ≤ s.worker_queue.size
    → (s' : Server) × (arrive other rand s conn ≡ some (entered s' []))
      × (s'.wait_queue.size + s'.worker_queue.size ≡ suc s.queue_max_size)
unfolding arrive overload enter
arrive-other-over rand s conn v packed busy =
    let (queue, out, with) =
      enqueue-IsWith s.wait_queue conn v.waiting (ground (arith, v.wait_bound, packed, busy)) in
    (record s { wait_queue = queue }, rw (packed, out) refl, ground (arith, with.size, packed))

-- With nothing but waiting connections in a full server the queue is as it was: the connection is
-- neither closed nor kept.
pub arrive-other-lost :
    (rand : ℕ → ℕ) (s : Server) (conn : Node)
    → IsServer s
    → s.wait_queue.size ≡ s.queue_max_size
    → arrive other rand s conn ≡ some (entered s [])
unfolding arrive overload enter enqueue
arrive-other-lost rand s conn v packed = ground (arith, v.wait_bound, v.within, packed)
