-- ===== src/Server/Moves.antt =====
-- The steps of the workers of server.c, and the invariant.
use cs_bsc_technion.Base.{
  ℕ, zero, suc, ◌≡◌, inl, inr, refl, some, none, List, ◌∷◌, ◌++◌, length, length-append, arith, ap,
  sym, ◌∙◌, ◌==◌, Bool-cases,
}
use cs_bsc_technion.Queue.{Queue}
use cs_bsc_technion.Server.{Server, take}
use cs_bsc_technion.Server.Contents.{held}
use cs_bsc_technion.Server.Sections.{IsMoved, IsFinished, take-IsMoved}
use cs_bsc_technion.Server.System.{
  Worker, ready, asleep, serving, closing, Main, accepting, blocked, woken, System, total,
  is_asleep, all_ready, start, wake_main,
}
use cs_bsc_technion.Server.Invariant.{
  is_ready, is_busy, works_on, has_open, main_has, IsHeld, Inv, total-change,
}

total-all_ready : (f : Worker → ℕ) (n : ℕ) → f ready ≡ 0 → total f (all_ready n) ≡ 0
total-all_ready f zero e = refl
total-all_ready f (suc n) e = omega (arith, e, total-all_ready f n e)

length-all_ready : (n : ℕ) → length (all_ready n) ≡ n
length-all_ready zero = refl
length-all_ready (suc n) = omega (arith, length-all_ready n)

pub start-Inv : (n bound : ℕ) → Inv n bound (start n bound)
start-Inv n bound = record {
  valid = record {
    waiting = record { counted = refl; bounded = omega arith; at_end = refl };
    working = record { counted = refl; bounded = omega arith; at_end = refl };
    wait_bound = refl;
    work_bound = refl;
    within = omega arith;
  };
  bounded = refl;
  crew = length-all_ready n;
  busy = sym (total-all_ready is_busy n refl);
  working = λ x. sym (total-all_ready (works_on x) n refl);
  kept = λ x. omega (arith, total-all_ready (has_open x) n refl);
  heard = inl (total-all_ready is_asleep n refl);
  held_back = tt;
}

pub length-change :
    {ts : List Worker} (before : List Worker) (w v : Worker) (after : List Worker)
    → ts ≡ before ++ w ∷ after
    → length (before ++ v ∷ after) ≡ length ts
length-change before w v after e =
    omega (arith, ap length e, length-append before (w ∷ after), length-append before (v ∷ after))

pub stirs-Inv :
    {n bound : ℕ} (s : System) (before after : List Worker)
    → s.threads ≡ before ++ asleep ∷ after
    → Inv n bound s
    → Inv n bound (record s { threads = before ++ ready ∷ after })
stirs-Inv s before after e v = record {
  valid = v.valid;
  bounded = v.bounded;
  crew = length-change before asleep ready after e ∙ v.crew;
  busy = omega (arith, v.busy, total-change is_busy before asleep ready after e);
  working = λ x. omega (arith, v.working x, total-change (works_on x) before asleep ready after e);
  kept = λ x. omega (arith, v.kept x, total-change (has_open x) before asleep ready after e);
  heard = elim v.heard [
    | inl none_asleep ↦
        absurd (omega (arith, none_asleep, total-change is_asleep before asleep ready after e))
    | inr enough ↦ inr (omega (arith, enough, total-change is_ready before asleep ready after e))
  ];
  held_back = v.held_back;
}

pub sleeps-Inv :
    {n bound : ℕ} (s : System) (before after : List Worker)
    → s.threads ≡ before ++ ready ∷ after
    → take s.server ≡ some none
    → Inv n bound s
    → Inv n bound (record s { threads = before ++ asleep ∷ after })
sleeps-Inv s before after e h v = record {
  valid = v.valid;
  bounded = v.bounded;
  crew = length-change before ready asleep after e ∙ v.crew;
  busy = omega (arith, v.busy, total-change is_busy before ready asleep after e);
  working = λ x. omega (arith, v.working x, total-change (works_on x) before ready asleep after e);
  kept = λ x. omega (arith, v.kept x, total-change (has_open x) before ready asleep after e);
  heard = inr (elim (Bool-cases (s.server.wait_queue.size == 0)) [
    | inl empty ↦ ground (arith, empty)
    | inr busy ↦
        let (fd, server, out, moved) = take-IsMoved s.server v.valid (ground (arith, busy)) in
        absurd (ground (arith, out, h))
  ]);
  held_back = v.held_back;
}

pub takes-Inv :
    {n bound : ℕ} (s : System) (before after : List Worker) (fd : ℕ) (server : Server)
    → s.threads ≡ before ++ ready ∷ after
    → IsMoved s.server fd server
    → Inv n bound s
    → Inv n bound (record s { server = server; threads = before ++ serving fd ∷ after })
takes-Inv s before after fd server e m v = record {
  valid = m.valid;
  bounded = m.bound ∙ v.bounded;
  crew = length-change before ready (serving fd) after e ∙ v.crew;
  busy = omega (arith, v.busy, m.into.size, total-change is_busy before ready (serving fd) after e);
  working = λ x. omega (
    arith,
    v.working x,
    m.into.both x,
    total-change (works_on x) before ready (serving fd) after e,
  );
  kept = λ x.
      omega (
        arith,
        v.kept x,
        m.out.rest x,
        total-change (has_open x) before ready (serving fd) after e,
      );
  heard = elim v.heard [
    | inl none_asleep ↦
        inl (omega (arith, none_asleep, total-change is_asleep before ready (serving fd) after e))
    | inr enough ↦
        inr (
          omega
            (arith, enough, m.out.size, total-change is_ready before ready (serving fd) after e))
  ];
  held_back = kept_back s.main v.held_back;
}
  where
    kept_back : (main : Main) → IsHeld main s.server → IsHeld main server
    kept_back accepting h = tt
    kept_back (woken conn) h = tt
    kept_back (blocked conn) h = ground (arith, h, m.bound, m.out.size, m.into.size)

pub closes-Inv :
    {n bound : ℕ} (s : System) (before after : List Worker) (fd : ℕ)
    → s.threads ≡ before ++ serving fd ∷ after
    → Inv n bound s
    → Inv n bound (record s { threads = before ++ closing fd ∷ after; closed = fd ∷ s.closed })
closes-Inv s before after fd e v = record {
  valid = v.valid;
  bounded = v.bounded;
  crew = length-change before (serving fd) (closing fd) after e ∙ v.crew;
  busy = omega (arith, v.busy, total-change is_busy before (serving fd) (closing fd) after e);
  working = λ x.
      omega
        (arith, v.working x, total-change (works_on x) before (serving fd) (closing fd) after e);
  kept = λ x.
      omega (arith, v.kept x, total-change (has_open x) before (serving fd) (closing fd) after e);
  heard = elim v.heard [
    | inl none_asleep ↦ inl (
        omega (arith, none_asleep, total-change is_asleep before (serving fd) (closing fd) after e))
    | inr enough ↦
        inr (omega (arith, enough, total-change is_ready before (serving fd) (closing fd) after e))
  ];
  held_back = v.held_back;
}

main_has-wake_main : (x : ℕ) (main : Main) → main_has x (wake_main main) ≡ main_has x main
main_has-wake_main x accepting = refl
main_has-wake_main x (blocked conn) = refl
main_has-wake_main x (woken conn) = refl

wake_main-IsHeld : (main : Main) (server : Server) → IsHeld (wake_main main) server
wake_main-IsHeld accepting server = tt
wake_main-IsHeld (blocked conn) server = tt
wake_main-IsHeld (woken conn) server = tt

pub finishes-Inv :
    {n bound : ℕ} (s : System) (before after : List Worker) (fd : ℕ) (server : Server)
    → s.threads ≡ before ++ closing fd ∷ after
    → IsFinished s.server fd server
    → Inv n bound s
    → Inv n bound
        (record s { server = server; threads = before ++ ready ∷ after; main = wake_main s.main })
finishes-Inv s before after fd server e m v = record {
  valid = m.valid;
  bounded = m.bound ∙ v.bounded;
  crew = length-change before (closing fd) ready after e ∙ v.crew;
  busy = omega (arith, v.busy, m.out.size, total-change is_busy before (closing fd) ready after e);
  working = λ x. omega (
    arith,
    v.working x,
    m.out.rest x,
    total-change (works_on x) before (closing fd) ready after e,
  );
  kept = λ x. omega (
    arith,
    v.kept x,
    ap (held x) m.kept,
    main_has-wake_main x s.main,
    total-change (has_open x) before (closing fd) ready after e,
  );
  heard = elim v.heard [
    | inl none_asleep ↦
        inl (omega (arith, none_asleep, total-change is_asleep before (closing fd) ready after e))
    | inr enough ↦ inr (
        omega (
          arith,
          enough,
          ap (λ (q : Queue). q.size) m.kept,
          total-change is_ready before (closing fd) ready after e,
        ))
  ];
  held_back = wake_main-IsHeld s.main server;
}
