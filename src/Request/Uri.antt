-- ===== src/Request/Uri.antt =====
-- The file that requestParseURI of request.c chooses.
use mathlib.Core.Path.{subst}
use mathlib.Core.List.{append-nil}
use cs_bsc_technion.Base.{
  ℕ, ◌≤◌, length-append, Bool, ◌≡◌, refl, true, false, none, some, [], ◌∷◌, ◌++◌, if◌then◌else◌,
  length, ◌==◌, arith, ◌>>=◌, Bool-cases, Option-cases, inl, inr, Option, ap, sym, ◌∙◌,
}
use cs_bsc_technion.Text.{Text, codes, strstr, begins, split_at, last}
use cs_bsc_technion.Text.Substring.{dots, strstr-dots-before}
use cs_bsc_technion.Request.{Target, target, query_of, public, home, into_buffer, parse_uri}

strstr-public : (text : Text) → strstr (public ++ text) dots ≡ strstr text dots
unfolding strstr begins
strstr-public text = refl

-- Behind a '/' the name of the page makes no pair of dots.
strstr-home :
    (uri : Text)
    → strstr uri dots ≡ false
    → last uri ≡ some b'/'
    → strstr (uri ++ home) dots ≡ false
unfolding strstr begins last
strstr-home [] e l = cc
strstr-home (c ∷ []) e l = ground (arith, l)
strstr-home (c ∷ d ∷ uri) e l = ground (arith, e, strstr-home (d ∷ uri))

split_at-prefix : (c : ℕ) (text : Text) → (rest : Text) × (text ≡ (split_at c text).0 ++ rest)
unfolding split_at
split_at-prefix c [] = ([], refl)
split_at-prefix c (d ∷ text) = elim (Bool-cases (d == c)) [
  | inl here ↦ (d ∷ text, rw here refl)
  | inr further ↦
      let (rest, e) = split_at-prefix c text in (rest, rw further (ap (λ (t : Text). d ∷ t) e))
]

-- A path below ./public/ that never leaves it.
pub record IsPublic (filename : Text) : Type 0 where
  pub below : begins public filename ≡ true
  pub stays : strstr filename dots ≡ false

public-IsPublic : (text : Text) → strstr text dots ≡ false → IsPublic (public ++ text)
public-IsPublic text e = record { below = unfold begins in refl; stays = strstr-public text ∙ e }

into_buffer-some : (text text' : Text) → into_buffer text ≡ some text' → text ≡ text'
unfolding into_buffer
into_buffer-some text text' e = ground arith

static_name :
    (uri : Text) (c : ℕ)
    → strstr uri dots ≡ false
    → last uri ≡ some c
    → IsPublic (public ++ uri ++ (if c == b'/' then home else []))
static_name uri c e l = elim (Bool-cases (c == b'/')) [
  | inl slash ↦
      rw slash (public-IsPublic (uri ++ home) (strstr-home uri e (ground (arith, l, slash))))
  | inr other ↦ rw (other, append-nil) (public-IsPublic uri e)
]

dynamic_name : (uri : Text) → strstr uri dots ≡ false → IsPublic (public ++ (split_at b'?' uri).0)
dynamic_name uri e =
    let (rest, whole) = split_at-prefix b'?' uri in
    public-IsPublic (split_at b'?' uri).0 (
      strstr-dots-before (split_at b'?' uri).0 rest
        (ap (λ (t : Text). strstr t dots) (sym whole) ∙ e))

buffered :
    (text : Text) (cgiargs : Option Text) (is_static : Bool) (t : Target)
    → IsPublic text
    → (into_buffer text >>= λ filename. some (target cgiargs is_static filename)) ≡ some t
    → IsPublic t.filename
buffered text cgiargs is_static t v e = elim (Option-cases (into_buffer text)) [
  | inl long ↦ absurd (ground (arith, long, e))
  | inr (text', fits) ↦
      subst IsPublic (into_buffer-some text text' fits ∙ ground (arith, fits, e)) v
]

-- Whatever the client asks for, the name that `requestParseURI` builds begins with "./public/" and
-- has no ".." in it, also behind the "home.html" that it appends and after the cut at the '?'.
pub parse_uri-IsPublic : (uri : Text) {t : Target} → parse_uri uri ≡ some t → IsPublic t.filename
unfolding parse_uri
parse_uri-IsPublic uri {t} e = elim (Bool-cases (strstr uri dots)) [
  | inl up ↦
      subst IsPublic (ground (arith, up, e)) (public-IsPublic home (unfold strstr begins in refl))
  | inr plain ↦ elim (Bool-cases (strstr uri (codes "cgi"))) [
    | inl cgi ↦
        buffered (public ++ (split_at b'?' uri).0) (some (query_of (split_at b'?' uri).1)) false t
          (dynamic_name uri plain) (rw (plain, cgi) at e)
    | inr page ↦ elim (Option-cases (last uri)) [
      | inl empty ↦ absurd (ground (arith, plain, page, empty, e))
      | inr (c, l) ↦
          buffered (public ++ uri ++ (if c == b'/' then home else [])) (some []) true t
            (static_name uri c plain l) (rw (plain, page, l) at e)
    ]
  ]
]

-- A URI of 8183 bytes or more with no ".." and no "cgi" makes a name that does not fit
-- into the buffer of MAXLINE bytes that the caller has for it: `sprintf` writes behind its end.
pub parse_uri-overflow :
    (uri : Text)
    → strstr uri dots ≡ false
    → strstr uri (codes "cgi") ≡ false
    → 8183 ≤ length uri
    → parse_uri uri ≡ none
unfolding parse_uri into_buffer
parse_uri-overflow uri plain page long = elim (Option-cases (last uri)) [
  | inl empty ↦ rw (plain, page, empty) refl
  | inr (c, l) ↦
      rw (plain, page, l) (ground (arith, length-append uri (if c == b'/' then home else []), long))
]
