-- ===== src/Request/Counted.antt =====
-- The counters of the threads of request.c.
use mathlib.Core.Path.{subst}
use cs_bsc_technion.Base.{ℕ, ◌+◌, ◌≤◌, ◌≡◌, ◌≢◌, refl, some, Option, List, [], ◌∷◌, arith, sym}
use cs_bsc_technion.Text.{Text}
use cs_bsc_technion.Request.{
  Stat, Counters, Call, Target, count_total, count_static, count_dynamic, Event, write, write_file,
  run, serve_static, serve_dynamic, request_handle,
}
use cs_bsc_technion.Request.Served.{AllTexts, Ends, file, program, error, request_handle-Ends}

-- How many files go out, and how many programs run.
abbrev pub files : List Event → ℕ
files [] = 0
files (write _ ∷ es) = files es
files (write_file _ _ ∷ es) = files es + 1
files (run _ _ ∷ es) = files es

abbrev pub programs : List Event → ℕ
programs [] = 0
programs (write _ ∷ es) = programs es
programs (write_file _ _ ∷ es) = programs es
programs (run _ _ ∷ es) = programs es + 1

files_of_texts : (es : List Event) → AllTexts es → (files es ≡ 0) × (programs es ≡ 0)
files_of_texts [] h = (refl, refl)
files_of_texts (write _ ∷ es) h = files_of_texts es h
files_of_texts (write_file _ _ ∷ es) h = absurd h
files_of_texts (run _ _ ∷ es) h = absurd h

-- One request more for the thread, with what was served, and nothing for another thread.
pub record IsCounted (thread : ℕ) (c k : Counters) (es : List Event) : Type 0 where
  pub total : k.total_threads thread ≡ c.total_threads thread + 1
  pub fixed : k.static_threads thread ≡ c.static_threads thread + files es
  pub computed : k.dynamic_threads thread ≡ c.dynamic_threads thread + programs es
  pub at_most_one : files es + programs es ≤ 1
  pub others :
      (i : ℕ)
      → i ≢ thread
      → (k.total_threads i ≡ c.total_threads i)
        × (k.static_threads i ≡ c.static_threads i)
        × (k.dynamic_threads i ≡ c.dynamic_threads i)

Ends-IsCounted :
    (stat : Text → Option Stat) (c : Call) (t : Target) (es : List Event) (k : Counters)
    → Ends stat c t es k
    → IsCounted c.thread_index c.counters k es
unfolding serve_static serve_dynamic
Ends-IsCounted stat c t es k (file s there regular reads out counted) =
    subst (λ (ds : List Event). IsCounted c.thread_index c.counters k ds) (sym out)
      (subst
        (λ (d : Counters).
          IsCounted c.thread_index c.counters d
            (serve_static (count_static (count_total c)) t.filename s.size))
        (sym counted)
        (record {
          total = ground arith;
          fixed = ground arith;
          computed = ground arith;
          at_most_one = omega arith;
          others = λ i ne. ground arith;
        }))
Ends-IsCounted stat c t es k (program s there regular runs out counted) =
    subst (λ (ds : List Event). IsCounted c.thread_index c.counters k ds) (sym out)
      (subst
        (λ (d : Counters).
          IsCounted c.thread_index c.counters d
            (serve_dynamic (count_dynamic (count_total c)) t.filename t.cgiargs))
        (sym counted)
        (record {
          total = ground arith;
          fixed = ground arith;
          computed = ground arith;
          at_most_one = omega arith;
          others = λ i ne. ground arith;
        }))
Ends-IsCounted stat c t es k (error texts counted) =
    let (no_files, no_programs) = files_of_texts es texts in
    subst (λ (d : Counters). IsCounted c.thread_index c.counters d es) (sym counted)
      (record {
        total = ground arith;
        fixed = omega (arith, no_files);
        computed = omega (arith, no_programs);
        at_most_one = omega (arith, no_files, no_programs);
        others = λ i ne. ground arith;
      })

-- A request that is answered adds one to the total of its thread, one to its static or dynamic count
-- exactly when a file goes out or a program runs, of which there is at most one, and nothing to the
-- counts of the other threads.
pub request_handle-IsCounted :
    (stat : Text → Option Stat) (c : Call) (sent : List Text) {es : List Event} {k : Counters}
    → request_handle stat c sent ≡ some (es, k)
    → IsCounted c.thread_index c.counters k es
request_handle-IsCounted stat c sent {es} {k} e =
    let (t, shown, ends) = request_handle-Ends stat c sent e in Ends-IsCounted stat c t es k ends
