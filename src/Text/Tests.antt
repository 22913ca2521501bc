-- ===== src/Text/Tests.antt =====
-- Runs of the string functions on small buffers.

use cs_bsc_technion.Base.{◌≡◌, refl, true, false, some, [], ◌∷◌}
use cs_bsc_technion.Text.{codes, strstr, split_at, strcaseeq, words_from, decimal, six_digits, last}

strstr_found : strstr (codes "page.cgi?x") (codes "cgi") ≡ true
unfolding strstr
strstr_found = refl

strstr_missing : strstr (codes "page.cg") (codes "cgi") ≡ false
unfolding strstr
strstr_missing = refl

split_query : split_at b'?' (codes "a.cgi?x=1?") ≡ (codes "a.cgi", some (codes "x=1?"))
unfolding split_at
split_query = refl

same_but_case : strcaseeq (codes "get") (codes "GeT") ≡ true
unfolding strcaseeq
same_but_case = refl

words_of_a_request :
    words_from (codes " GET  /a.html HTTP/1.0") []
    ≡ codes "GET" ∷ codes "/a.html" ∷ codes "HTTP/1.0" ∷ []
unfolding words_from
words_of_a_request = refl

decimal_407 : decimal 407 ≡ codes "407"
unfolding decimal
decimal_407 = refl

six_digits_407 : six_digits 407 ≡ codes "000407"
unfolding six_digits
six_digits_407 = refl

last_slash : last (codes "/a/") ≡ some b'/'
unfolding last
last_slash = refl
