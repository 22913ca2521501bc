-- ===== src/Request.antt =====
-- A request to the web server, "Opereting Systems C++/Creation of Multi-thread WebServer using
-- Locks/webserver-files/request.c". What the client sends is the list of its lines, each with its
-- "\r\n" as Rio_readlineb reads it; what goes out is a list of events. The file system is an argument.
-- `none` is a read of a buffer that nothing has been put in, a write behind the end of a buffer, or the
-- loop of `requestReadhdrs` that goes on when the client sends no more.
pub mod Uri
pub mod Served
pub mod Counted
mod Tests
use cs_bsc_technion.Base.{
  ℕ, ◌+◌, Bool, true, false, ◌&&◌, ◌||◌, not, Option, none, some, List, [], ◌∷◌, ◌++◌, length,
  if◌then◌else◌, ltb, ◌==◌, ◌>>=◌,
}
use cs_bsc_technion.Text.{
  Text, codes, strstr, split_at, last, strcaseeq, words_from, decimal, six_digits,
}

pub record Timeval : Type 0 where
  pub tv_sec : ℕ
  pub tv_usec : ℕ

-- What `stat` says of a file: S_ISREG, S_IRUSR and S_IXUSR of the mode, and the size.
pub record Stat : Type 0 where
  pub is_regular : Bool
  pub user_reads : Bool
  pub user_runs : Bool
  pub size : ℕ

-- The arrays of counters, one number for each thread.
pub record Counters : Type 0 where
  pub static_threads : ℕ → ℕ
  pub dynamic_threads : ℕ → ℕ
  pub total_threads : ℕ → ℕ

-- `counts[index]++`
abbrev pub bump : (ℕ → ℕ) → ℕ → ℕ → ℕ
bump counts index i = if i == index then counts i + 1 else counts i

-- A text written to the socket, a mapped file with its size written to it, or a program that runs with
-- the socket as its output and a QUERY_STRING.
pub data Event : Type 0 where
  write : Text → Event
  write_file : Text → ℕ → Event
  run : Text → Option Text → Event

abbrev pub max_line : ℕ
max_line = 8192

abbrev pub crlf : Text
crlf = 13 ∷ 10 ∷ []

-- A text put into a buffer of MAXLINE, which is also MAXBUF, bytes.
unfoldable pub into_buffer : Text → Option Text
into_buffer text = if ltb (length text) max_line then some text else none

-- The loop ends at a line that is "\r\n" and leaves what comes behind it.
unfoldable pub request_readhdrs : List Text → Option (List Text)
request_readhdrs [] = none
request_readhdrs ([] ∷ rest) = request_readhdrs rest
request_readhdrs ((c ∷ []) ∷ rest) = request_readhdrs rest
request_readhdrs ((c ∷ d ∷ []) ∷ rest) =
    let onward = request_readhdrs rest in if (c == 13) && (d == 10) then some rest else onward
request_readhdrs ((c ∷ d ∷ e ∷ line) ∷ rest) = request_readhdrs rest

-- The result of `requestParseURI`; `cgiargs` is `none` where it is left as it was.
pub record Target : Type 0 where
  pub filename : Text
  pub cgiargs : Option Text
  pub is_static : Bool

abbrev pub public : Text
public = codes "./public/"

abbrev pub home : Text
home = codes "home.html"

abbrev pub target : Option Text → Bool → Text → Target
target cgiargs is_static filename = record {
  filename = filename;
  cgiargs = cgiargs;
  is_static = is_static;
}

-- What stands behind the '?', or nothing.
abbrev pub query_of : Option Text → Text
query_of none = []
query_of (some query) = query

unfoldable pub parse_uri : Text → Option Target
parse_uri uri =
    if strstr uri (codes "..")
    then some (target none true (public ++ home))
    else if not (strstr uri (codes "cgi"))
    then (do
      c ← last uri
      filename ← into_buffer (public ++ uri ++ (if c == b'/' then home else []))
      some (target (some []) true filename))
    else (do
      filename ← into_buffer (public ++ (split_at b'?' uri).0)
      some (target (some (query_of (split_at b'?' uri).1)) false filename))

unfoldable pub get_filetype : Text → Text
get_filetype filename =
    if strstr filename (codes ".html")
    then codes "text/html"
    else if strstr filename (codes ".gif")
    then codes "image/gif"
    else if strstr filename (codes ".jpg")
    then codes "image/jpeg"
    else codes "text/plain"

-- `%lu.%06lu` of a time
unfoldable pub time_text : Timeval → Text
time_text t = decimal t.tv_sec ++ (b'.' ∷ six_digits t.tv_usec)

-- What a call of `requestHandle` is told beside the socket: the times, the thread and the counters.
pub record Call : Type 0 where
  pub arrival : Timeval
  pub difference : Timeval
  pub thread_index : ℕ
  pub counters : Counters

-- The six lines of statistics that every answer has.
unfoldable pub stat_lines : Call → Text
unfolding time_text
stat_lines c =
    codes "Stat-Req-Arrival:: "
    ++ time_text c.arrival
    ++ crlf
    ++ codes "Stat-Req-Dispatch:: "
    ++ time_text c.difference
    ++ crlf
    ++ codes "Stat-Thread-Id:: "
    ++ decimal c.thread_index
    ++ crlf
    ++ codes "Stat-Thread-Count:: "
    ++ decimal (c.counters.total_threads c.thread_index)
    ++ crlf
    ++ codes "Stat-Thread-Static:: "
    ++ decimal (c.counters.static_threads c.thread_index)
    ++ crlf
    ++ codes "Stat-Thread-Dynamic:: "
    ++ decimal (c.counters.dynamic_threads c.thread_index)
    ++ crlf

unfoldable pub error_body : Text → Text → Text → Text → Text
error_body cause errnum shortmsg longmsg =
    codes "<html><title>OS-HW3 Error</title><body bgcolor=fffff>"
    ++ crlf
    ++ errnum
    ++ codes ": "
    ++ shortmsg
    ++ crlf
    ++ codes "<p>"
    ++ longmsg
    ++ codes ": "
    ++ cause
    ++ crlf
    ++ codes "<hr>OS-HW3 Web Server"
    ++ crlf

unfoldable pub request_error : Call → Text → Text → Text → Text → Option (List Event)
request_error c cause errnum shortmsg longmsg = do
  body ← into_buffer (error_body cause errnum shortmsg longmsg)
  some (
      write (codes "HTTP/1.0 " ++ errnum ++ codes " " ++ shortmsg ++ crlf)
      ∷ write (codes "Content-Type: text/html" ++ crlf)
      ∷ write (codes "Content-Length: " ++ decimal (length body) ++ crlf ++ stat_lines c ++ crlf)
      ∷ write body
      ∷ [])

unfoldable pub serve_dynamic : Call → Text → Option Text → List Event
serve_dynamic c filename cgiargs =
    write
      (codes "HTTP/1.0 200 OK" ++ crlf ++ codes "Server: OS-HW3 Web Server" ++ crlf ++ stat_lines c)
    ∷ run filename cgiargs
    ∷ []

unfoldable pub serve_static : Call → Text → ℕ → List Event
unfolding get_filetype
serve_static c filename filesize =
    write (
      codes "HTTP/1.0 200 OK"
      ++ crlf
      ++ codes "Server: OS-HW3 Web Server"
      ++ crlf
      ++ codes "Content-Length: "
      ++ decimal filesize
      ++ crlf
      ++ codes "Content-Type: "
      ++ get_filetype filename
      ++ crlf
      ++ stat_lines c
      ++ crlf)
    ∷ write_file filename filesize
    ∷ []

-- `total_threads[thread_index]++`, and that of the two other arrays.
abbrev pub count_total : Call → Call
count_total c = record c {
  counters = record c.counters { total_threads = bump c.counters.total_threads c.thread_index };
}

abbrev pub count_static : Call → Call
count_static c = record c {
  counters = record c.counters { static_threads = bump c.counters.static_threads c.thread_index };
}

abbrev pub count_dynamic : Call → Call
count_dynamic c = record c {
  counters = record c.counters { dynamic_threads = bump c.counters.dynamic_threads c.thread_index };
}

-- An error is counted before it is answered.
unfoldable pub refuse : Call → Text → Text → Text → Text → Option (List Event × Counters)
refuse c cause errnum shortmsg longmsg = do
  events ← request_error (count_total c) cause errnum shortmsg longmsg
  some (events, (count_total c).counters)

-- `requestHandle` from the call of `stat` on.
unfoldable pub answer : (Text → Option Stat) → Call → Target → Option (List Event × Counters)
answer stat c t = elim (stat t.filename) [
  | none ↦
      refuse c t.filename (codes "404") (codes "Not found")
        (codes "OS-HW3 Server could not find this file")
  | some sbuf ↦
      if t.is_static
      then (if not sbuf.is_regular || not sbuf.user_reads
          then refuse c t.filename (codes "403") (codes "Forbidden")
              (codes "OS-HW3 Server could not read this file")
          else some (
            serve_static (count_static (count_total c)) t.filename sbuf.size,
            (count_static (count_total c)).counters,
          ))
      else (if not sbuf.is_regular || not sbuf.user_runs
          then refuse c t.filename (codes "403") (codes "Forbidden")
              (codes "OS-HW3 Server could not run this CGI program")
          else some (
            serve_dynamic (count_dynamic (count_total c)) t.filename t.cgiargs,
            (count_dynamic (count_total c)).counters,
          ))
]

-- The method and the URI, where `sscanf` finds them: it leaves the others as they are, and the version
-- is only printed on the terminal.
unfoldable pub method_and_uri : List Text → Option (Text × Option Text)
method_and_uri [] = none
method_and_uri (method ∷ []) = some (method, none)
method_and_uri (method ∷ uri ∷ rest) = some (method, some uri)

unfoldable pub next_line : List Text → Option (Text × List Text)
next_line [] = none
next_line (line ∷ rest) = some (line, rest)

unfoldable pub request_handle :
    (Text → Option Stat) → Call → List Text → Option (List Event × Counters)
request_handle stat c sent = do
  (line, rest) ← next_line sent
  (method, asked) ← method_and_uri (words_from line [])
  if not (strcaseeq method (codes "GET"))
      then refuse c method (codes "501") (codes "Not Implemented")
          (codes "OS-HW3 Server does not implement this method")
      else (request_readhdrs rest >>= λ _. asked >>= parse_uri >>= answer stat c)
