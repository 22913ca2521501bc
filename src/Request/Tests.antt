-- ===== src/Request/Tests.antt =====
-- Runs of request.c on a small site.

use cs_bsc_technion.Base.{
  ℕ, zero, suc, ◌≡◌, refl, true, false, none, some, Option, List, [], ◌∷◌, ◌++◌, if◌then◌else◌,
  arith,
}
use cs_bsc_technion.Text.{Text, codes, strstr, begins, strcaseeq}
use cs_bsc_technion.Request.{
  Stat, Counters, Call, Target, target, bump, count_total, count_static, count_dynamic, Event,
  write, write_file, run, serve_static, serve_dynamic, request_handle, parse_uri, crlf, Timeval,
  public, home, answer, get_filetype, into_buffer,
}
use cs_bsc_technion.Request.Uri.{IsPublic, parse_uri-IsPublic, parse_uri-overflow}
use cs_bsc_technion.Request.Served.{AllServable, request_handle-AllServable}
use cs_bsc_technion.Request.Counted.{IsCounted, request_handle-IsCounted}

abbrev none_yet : Counters
none_yet = record { static_threads = λ i. 0; dynamic_threads = λ i. 0; total_threads = λ i. 0 }

abbrev call : Call
call = record {
  arrival = record { tv_sec = 5; tv_usec = 20 };
  difference = record { tv_sec = 0; tv_usec = 300 };
  thread_index = 1;
  counters = none_yet;
}

-- A page of 117 bytes, and a program.
abbrev disk : Text → Option Stat
disk name =
    if strcaseeq name (codes "./public/a.html")
    then some (record { is_regular = true; user_reads = true; user_runs = false; size = 117 })
    else if strcaseeq name (codes "./public/run.cgi")
    then some (record { is_regular = true; user_reads = true; user_runs = true; size = 9000 })
    else none

abbrev get_line : Text → Text
get_line uri = codes "GET " ++ uri ++ codes " HTTP/1.0" ++ crlf

abbrev ask : Text → List Text
ask uri = get_line uri ∷ (codes "Host: here" ++ crlf) ∷ crlf ∷ []

page_served :
    request_handle disk call (ask (codes "a.html"))
    ≡ some (
      serve_static (count_static (count_total call)) (codes "./public/a.html") 117,
      (count_static (count_total call)).counters,
    )
unfolding request_handle cs_bsc_technion.Request.next_line cs_bsc_technion.Request.method_and_uri
    cs_bsc_technion.Text.words_from strcaseeq cs_bsc_technion.Request.request_readhdrs parse_uri
    strstr cs_bsc_technion.Text.last into_buffer answer
page_served = refl

program_run :
    request_handle disk call (ask (codes "run.cgi?x=1"))
    ≡ some (
      serve_dynamic
          (count_dynamic (count_total call))
          (codes "./public/run.cgi")
          (some (codes "x=1")),
      (count_dynamic (count_total call)).counters,
    )
unfolding request_handle cs_bsc_technion.Request.next_line cs_bsc_technion.Request.method_and_uri
    cs_bsc_technion.Text.words_from strcaseeq cs_bsc_technion.Request.request_readhdrs parse_uri
    strstr into_buffer cs_bsc_technion.Text.split_at answer
program_run = refl

-- The version is not looked at.
no_version :
    request_handle disk call ((codes "GET a.html" ++ crlf) ∷ crlf ∷ [])
    ≡ some (
      serve_static (count_static (count_total call)) (codes "./public/a.html") 117,
      (count_static (count_total call)).counters,
    )
unfolding request_handle cs_bsc_technion.Request.next_line cs_bsc_technion.Request.method_and_uri
    cs_bsc_technion.Text.words_from strcaseeq cs_bsc_technion.Request.request_readhdrs parse_uri
    strstr cs_bsc_technion.Text.last into_buffer answer
no_version = refl

-- The client closes the connection before the empty line.
headers_end_early : request_handle disk call (get_line (codes "a.html") ∷ []) ≡ none
unfolding request_handle cs_bsc_technion.Request.next_line cs_bsc_technion.Request.method_and_uri
    cs_bsc_technion.Text.words_from strcaseeq cs_bsc_technion.Request.request_readhdrs
headers_end_early = refl

parse_uri-IsPublic_example : IsPublic (codes "./public/docs/home.html")
unfolding parse_uri strstr cs_bsc_technion.Text.last into_buffer
parse_uri-IsPublic_example =
    parse_uri-IsPublic (codes "docs/") {t = target (some []) true (codes "./public/docs/home.html")}
      docs
  where
    docs :
        parse_uri (codes "docs/") ≡ some (target (some []) true (codes "./public/docs/home.html"))
    docs = refl

request_handle-AllServable_example :
    AllServable disk (serve_static (count_static (count_total call)) (codes "./public/a.html") 117)
request_handle-AllServable_example =
    request_handle-AllServable disk call (ask (codes "a.html")) page_served

request_handle-IsCounted_example :
    IsCounted 1 none_yet (count_dynamic (count_total call)).counters (
      serve_dynamic
        (count_dynamic (count_total call))
        (codes "./public/run.cgi")
        (some (codes "x=1")))
request_handle-IsCounted_example =
    request_handle-IsCounted disk call (ask (codes "run.cgi?x=1")) program_run

abbrev repeat : ℕ → Text
repeat zero = []
repeat (suc n) = b'a' ∷ repeat n

parse_uri-overflow_example : parse_uri (repeat 8183) ≡ none
unfolding strstr
parse_uri-overflow_example = parse_uri-overflow (repeat 8183) refl refl (omega arith)
