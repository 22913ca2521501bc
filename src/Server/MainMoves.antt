-- ===== src/Server/MainMoves.antt =====
-- The steps of `main` of server.c, and the invariant.
use mathlib.Core.Path.{subst}
use cs_bsc_technion.Base.{
  ℕ, suc, ◌<◌, ◌≡◌, ◌≢◌, ◌⊎◌, inl, inr, refl, true, some, List, length, arith, ap, sym, ◌∙◌,
  eq_of_some,
}
use cs_bsc_technion.Queue.{Node, Queue}
use cs_bsc_technion.Server.{Server, Policy, other, full, Outcome, waits, entered, arrive}
use cs_bsc_technion.Server.Contents.{same, count-append, held}
use cs_bsc_technion.Server.Arrive.{IsEntered, Arrived, waiting, let_in, arrive-Arrived}
use cs_bsc_technion.Server.System.{
  Worker, ready, asleep, Main, accepting, woken, System, total, is_asleep, Signal, nobody, wakes,
  After, after_waits, after_refused, after_entered, accept, put_in,
}
use cs_bsc_technion.Server.Invariant.{
  is_ready, is_busy, works_on, has_open, main_has, Inv, total-change,
}
use cs_bsc_technion.Server.Moves.{length-change}

Arrived-full :
    {policy : Policy} {s : Server} {conn : Node} → Arrived policy s conn waits → full s ≡ true
Arrived-full (waiting blocks packed) = packed

Arrived-IsEntered :
    {policy : Policy} {s s' : Server} {conn : Node} {closed : List ℕ}
    → Arrived policy s conn (entered s' closed)
    → IsEntered s conn closed s'
Arrived-IsEntered (let_in s' closed e) = e

-- A signal leaves the workers as they are, or turns one that sleeps into one that is ready.
record IsSignalled (ts us : List Worker) : Type 0 where
  crew : length us ≡ length ts
  busy : total is_busy us ≡ total is_busy ts
  working : (x : ℕ) → total (works_on x) us ≡ total (works_on x) ts
  open_ones : (x : ℕ) → total (has_open x) us ≡ total (has_open x) ts
  heard :
      (total is_asleep us ≡ 0)
      ⊎ ((0 < total is_asleep ts) × (total is_ready us ≡ suc (total is_ready ts)))

Signal-IsSignalled : {ts us : List Worker} → Signal ts us → IsSignalled ts us
Signal-IsSignalled (nobody none_asleep) = record {
  crew = refl;
  busy = refl;
  working = λ x. refl;
  open_ones = λ x. refl;
  heard = inl none_asleep;
}
Signal-IsSignalled (wakes before after e) = record {
  crew = length-change before asleep ready after e;
  busy = omega (arith, total-change is_busy before asleep ready after e);
  working = λ x. omega (arith, total-change (works_on x) before asleep ready after e);
  open_ones = λ x. omega (arith, total-change (has_open x) before asleep ready after e);
  heard = inr (
    omega (arith, total-change is_asleep before asleep ready after e),
    omega (arith, total-change is_ready before asleep ready after e),
  );
}

-- `main` with a connection in its hands, as it is behind the wait.
abbrev pub with_connection : System → Node → System
with_connection s conn = record s { main = woken conn }

pub accept-Inv :
    {n bound : ℕ} (s : System) (conn : Node)
    → s.main ≡ accepting
    → Inv n bound s
    → Inv n bound (with_connection (accept s conn) conn)
accept-Inv s conn e v = record {
  valid = v.valid;
  bounded = v.bounded;
  crew = v.crew;
  busy = v.busy;
  working = v.working;
  kept = λ x. omega (arith, v.kept x, ap (main_has x) e);
  heard = v.heard;
  held_back = tt;
}

pub woken-Inv :
    {n bound : ℕ} (s : System) (conn : Node) (main : Main)
    → s.main ≡ main
    → ((x : ℕ) → main_has x main ≡ same x conn.value)
    → Inv n bound s
    → Inv n bound (with_connection s conn)
woken-Inv s conn main e same_one v = record {
  valid = v.valid;
  bounded = v.bounded;
  crew = v.crew;
  busy = v.busy;
  working = v.working;
  kept = λ x. omega (arith, v.kept x, ap (main_has x) e, same_one x);
  heard = v.heard;
  held_back = tt;
}

put_in-Inv :
    {n bound : ℕ} (s : System) (conn : Node) (server : Server) (closed : List ℕ)
    {threads : List Worker}
    → IsEntered s.server conn closed server
    → IsSignalled s.threads threads
    → Inv n bound (with_connection s conn)
    → Inv n bound (put_in s server closed threads)
put_in-Inv s conn server closed e g v = record {
  valid = e.valid;
  bounded = e.bound ∙ v.bounded;
  crew = g.crew ∙ v.crew;
  busy = omega (arith, v.busy, g.busy, ap (λ (q : Queue). q.size) e.kept);
  working = λ x. omega (arith, v.working x, g.working x, ap (held x) e.kept);
  kept = λ x. omega (arith, v.kept x, e.both x, g.open_ones x, count-append x closed s.closed);
  heard = elim g.heard [
    | inl none_asleep ↦ inl none_asleep
    | inr (some_asleep, one_more) ↦ elim v.heard [
      | inl no_one ↦ absurd (omega (arith, no_one, some_asleep))
      | inr enough ↦ inr (omega (arith, enough, one_more, e.size))
    ]
  ];
  held_back = tt;
}

After-Inv :
    {n bound : ℕ} {policy : Policy} (s : System) (conn : Node) {o : Outcome} {t : System}
    → Arrived policy s.server conn o
    → Inv n bound (with_connection s conn)
    → After s conn o t
    → Inv n bound t
After-Inv s conn a v after_waits = record {
  valid = v.valid;
  bounded = v.bounded;
  crew = v.crew;
  busy = v.busy;
  working = v.working;
  kept = v.kept;
  heard = v.heard;
  held_back = Arrived-full a;
}
After-Inv s conn a v after_refused = record {
  valid = v.valid;
  bounded = v.bounded;
  crew = v.crew;
  busy = v.busy;
  working = v.working;
  kept = λ x. omega (arith, v.kept x);
  heard = v.heard;
  held_back = tt;
}
After-Inv s conn a v (after_entered server closed g) =
    put_in-Inv s conn server closed (Arrived-IsEntered a) (Signal-IsSignalled g) v

pub section-Inv :
    {n bound : ℕ} {policy : Policy} (s : System) (rand : ℕ → ℕ) (conn : Node) {o : Outcome}
    {t : System}
    → policy ≢ other
    → arrive policy rand s.server conn ≡ some o
    → Inv n bound (with_connection s conn)
    → After s conn o t
    → Inv n bound t
section-Inv {policy} s rand conn known out v after =
    let (o', out', a) = arrive-Arrived policy rand s.server conn v.valid known in
    After-Inv s conn
      (subst (λ (p : Outcome). Arrived policy s.server conn p) (eq_of_some (sym out' ∙ out)) a) v
      after
