-- ===== src/Request/Served.antt =====
-- What the server of request.c hands out or runs.
use mathlib.Core.Path.{subst}
use cs_bsc_technion.Base.{
  ◌≡◌, ◌++◌, refl, true, not, ◌||◌, none, some, Option, List, [], ◌∷◌, arith, Bool-cases,
  Option-cases, inl, inr, >>=-eq-some, ◌>>=◌, eq_of_some, ap, sym,
}
use cs_bsc_technion.Text.{Text, codes, words_from, strcaseeq, strstr, begins}
use cs_bsc_technion.Request.{
  Stat, Counters, Call, Target, count_total, count_static, count_dynamic, Event, write, write_file,
  run, into_buffer, error_body, request_error, refuse, answer, serve_static, serve_dynamic,
  parse_uri, request_handle, target, public, home, request_readhdrs, next_line, method_and_uri,
}
use cs_bsc_technion.Request.Uri.{IsPublic, parse_uri-IsPublic}

-- A file goes out with its size if it is a regular one that its owner may read, a program runs if it
-- is a regular file that its owner may run, and either is below ./public/.
abbrev pub IsServable : (Text → Option Stat) → Event → Type 0
IsServable stat (write text) = Unit
IsServable stat (write_file f size) =
    IsPublic f
    × ((s : Stat) × (stat f ≡ some s)
        × (s.is_regular ≡ true)
        × (s.user_reads ≡ true)
        × (size ≡ s.size))
IsServable stat (run f query) =
    IsPublic f × ((s : Stat) × (stat f ≡ some s) × (s.is_regular ≡ true) × (s.user_runs ≡ true))

abbrev pub AllServable : (Text → Option Stat) → List Event → Type 0
AllServable stat [] = Unit
AllServable stat (e ∷ es) = IsServable stat e × AllServable stat es

-- An event that is a text is no matter of the file system.
abbrev pub AllTexts : List Event → Type 0
AllTexts [] = Unit
AllTexts (write text ∷ es) = AllTexts es
AllTexts (write_file f size ∷ es) = ⊥
AllTexts (run f query ∷ es) = ⊥

AllTexts-AllServable :
    (stat : Text → Option Stat) (es : List Event) → AllTexts es → AllServable stat es
AllTexts-AllServable stat [] h = tt
AllTexts-AllServable stat (write text ∷ es) h = (tt, AllTexts-AllServable stat es h)
AllTexts-AllServable stat (write_file f size ∷ es) h = absurd h
AllTexts-AllServable stat (run f query ∷ es) h = absurd h

pub request_error-AllTexts :
    (c : Call) (cause errnum shortmsg longmsg : Text) (es : List Event)
    → request_error c cause errnum shortmsg longmsg ≡ some es
    → AllTexts es
unfolding request_error
request_error-AllTexts c cause errnum shortmsg longmsg es e =
    let (body, fits, out) =
      >>=-eq-some (into_buffer (error_body cause errnum shortmsg longmsg)) _ e in
    subst AllTexts (eq_of_some out) tt

-- An error is counted in the total alone, and only texts are written.
pub refuse-AllTexts :
    (c : Call) (cause errnum shortmsg longmsg : Text) {es : List Event} {k : Counters}
    → refuse c cause errnum shortmsg longmsg ≡ some (es, k)
    → AllTexts es × (k ≡ (count_total c).counters)
unfolding refuse
refuse-AllTexts c cause errnum shortmsg longmsg e =
    let (events, done, out) =
      >>=-eq-some (request_error (count_total c) cause errnum shortmsg longmsg) _ e in
    (
      subst AllTexts (ap (λ (p : List Event × Counters). p.0) (eq_of_some out))
          (request_error-AllTexts (count_total c) cause errnum shortmsg longmsg events done),
      sym (ap (λ (p : List Event × Counters). p.1) (eq_of_some out)),
    )

-- How `requestHandle` can end: with a file, with a program, or with an error.
pub data Ends (stat : Text → Option Stat) (c : Call) (t : Target) (es : List Event) (k : Counters)
    : Type 0 where
  file :
      (s : Stat)
      → stat t.filename ≡ some s
      → s.is_regular ≡ true
      → s.user_reads ≡ true
      → es ≡ serve_static (count_static (count_total c)) t.filename s.size
      → k ≡ (count_static (count_total c)).counters
      → Ends stat c t es k
  program :
      (s : Stat)
      → stat t.filename ≡ some s
      → s.is_regular ≡ true
      → s.user_runs ≡ true
      → es ≡ serve_dynamic (count_dynamic (count_total c)) t.filename t.cgiargs
      → k ≡ (count_dynamic (count_total c)).counters
      → Ends stat c t es k
  error : AllTexts es → k ≡ (count_total c).counters → Ends stat c t es k

refused :
    (stat : Text → Option Stat) (c : Call) (t : Target) (cause errnum shortmsg longmsg : Text)
    {es : List Event} {k : Counters}
    → refuse c cause errnum shortmsg longmsg ≡ some (es, k)
    → Ends stat c t es k
refused stat c t cause errnum shortmsg longmsg e =
    let (texts, counted) = refuse-AllTexts c cause errnum shortmsg longmsg e in error texts counted

answer-Ends :
    (stat : Text → Option Stat) (c : Call) (t : Target) {es : List Event} {k : Counters}
    → answer stat c t ≡ some (es, k)
    → Ends stat c t es k
unfolding answer
answer-Ends stat c t {es} {k} e = elim (Option-cases (stat t.filename)) [
  | inl missing ↦
      refused stat c t t.filename (codes "404") (codes "Not found")
        (codes "OS-HW3 Server could not find this file") (rw (missing, answer) at e)
  | inr (s, there) ↦ elim (Bool-cases t.is_static) [
    | inl fixed ↦ elim (Bool-cases (not s.is_regular || not s.user_reads)) [
      | inl bad ↦
          refused stat c t t.filename (codes "403") (codes "Forbidden")
            (codes "OS-HW3 Server could not read this file") (rw (there, fixed, bad, answer) at e)
      | inr good ↦
          let same : ◌≡◌ {A = List Event × Counters}
              (
                serve_static (count_static (count_total c)) t.filename s.size,
                (count_static (count_total c)).counters,
              )
              (es, k) =
            eq_of_some (rw (there, fixed, good, answer) at e) in
          file s there (ground (arith, good)) (ground (arith, good))
            (sym (ap (λ (p : List Event × Counters). p.0) same))
            (sym (ap (λ (p : List Event × Counters). p.1) same))
    ]
    | inr computed ↦ elim (Bool-cases (not s.is_regular || not s.user_runs)) [
      | inl bad ↦
          refused stat c t t.filename (codes "403") (codes "Forbidden")
            (codes "OS-HW3 Server could not run this CGI program")
            (rw (there, computed, bad, answer) at e)
      | inr good ↦
          let same : ◌≡◌ {A = List Event × Counters}
              (
                serve_dynamic (count_dynamic (count_total c)) t.filename t.cgiargs,
                (count_dynamic (count_total c)).counters,
              )
              (es, k) =
            eq_of_some (rw (there, computed, good, answer) at e) in
          program s there (ground (arith, good)) (ground (arith, good))
            (sym (ap (λ (p : List Event × Counters). p.0) same))
            (sym (ap (λ (p : List Event × Counters). p.1) same))
    ]
  ]
]

-- A request that is answered ends in one of the ways, at a name that `requestParseURI` makes.
pub request_handle-Ends :
    (stat : Text → Option Stat) (c : Call) (sent : List Text) {es : List Event} {k : Counters}
    → request_handle stat c sent ≡ some (es, k)
    → (t : Target) × IsPublic t.filename × Ends stat c t es k
unfolding request_handle
request_handle-Ends stat c sent e = elim (Option-cases (next_line sent)) [
  | inl silent ↦ absurd (ground (arith, silent, e))
  | inr ((line, rest), got) ↦ elim (Option-cases (method_and_uri (words_from line []))) [
    | inl short ↦ absurd (ground (arith, got, short, e))
    | inr ((method, asked), read) ↦ elim (Bool-cases (not (strcaseeq method (codes "GET")))) [
      | inl other ↦ (
        target none true (public ++ home),
        parse_uri-IsPublic (codes "..") {t = target none true (public ++ home)}
            (unfold parse_uri strstr begins in refl),
        refused stat c _ method (codes "501") (codes "Not Implemented")
            (codes "OS-HW3 Server does not implement this method") (rw (got, read, other) at e),
      )
      | inr get ↦ elim (Option-cases (request_readhdrs rest)) [
        | inl endless ↦ absurd (ground (arith, got, read, get, endless, e))
        | inr (body, headers) ↦
            let (t, made, e1) =
              >>=-eq-some (asked >>= parse_uri) (answer stat c)
                (rw (got, read, get, headers) at e) in
            let (uri, there, parsed) = >>=-eq-some asked parse_uri made in
            (t, parse_uri-IsPublic uri parsed, answer-Ends stat c t e1)
      ]
    ]
  ]
]

-- For a request that is answered, whatever else the client sent and whatever the file system holds, the
-- server hands out only regular files that their owner may read, whole, and runs only regular files
-- that their owner may run; all of them have names that begin with "./public/" and have no ".." in them.
pub request_handle-AllServable :
    (stat : Text → Option Stat) (c : Call) (sent : List Text) {es : List Event} {k : Counters}
    → request_handle stat c sent ≡ some (es, k)
    → AllServable stat es
request_handle-AllServable stat c sent {es} e =
    let (t, shown, ends) = request_handle-Ends stat c sent e in from t shown ends
  where
    from :
        (t : Target)
        → IsPublic t.filename
        → {k : Counters} → Ends stat c t es k
        → AllServable stat es
    from t shown (file s there regular reads out counted) =
        subst (AllServable stat) (sym out)
          (unfold serve_static in (tt, ((shown, (s, there, regular, reads, refl)), tt)))
    from t shown (program s there regular runs out counted) =
        subst (AllServable stat) (sym out)
          (unfold serve_dynamic in (tt, ((shown, (s, there, regular, runs)), tt)))
    from t shown (error texts counted) = AllTexts-AllServable stat es texts
