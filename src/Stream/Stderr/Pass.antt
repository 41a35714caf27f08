-- ===== src/Stream/Stderr/Pass.antt =====
-- A reading of a line in one pass, against the parts of `redactStderr`.
use Prim.Native.Char.{Char, code}
use Prim.Native.String.{String, ◌++◌}
use Prim.Native.String.append
use ma_dlna.Base.{
  ◌≤◌, true, false, ◌≡◌, refl, ◌∙◌, sym, ap, subst, none, some, arith, ◌==◌, if◌then◌else◌,
  Option-cases, Bool-cases, inl, inr,
}
use ma_dlna.Stream.Streamer.Serve.{after_prefix}
use ma_dlna.Stream.Stderr.{
  has_prefix, is_url_boundary, find_http, span_url, before_query, redact_url, size,
}

-- Outside of a URL, in one, or in its query.
pub data Mode : Type 0 where
  outside url query : Mode

-- One pass: a URL begins at "http" and ends before a boundary, a query is replaced by an ellipsis.
pub redact_pass : Mode → String → String
unfolding has_prefix is_url_boundary
redact_pass mode String.[] = String.[]
redact_pass outside (String.◌∷◌ c s) =
    let in_url = redact_pass url s in
    let out = redact_pass outside s in
    String.◌∷◌ c (if has_prefix "http" (String.◌∷◌ c s) then in_url else out)
redact_pass url (String.◌∷◌ c s) =
    let out = redact_pass outside s in
    let in_url = redact_pass url s in
    let in_query = redact_pass query s in
    if is_url_boundary (code c)
    then String.◌∷◌ c out
    else if code c == b'?'
    then "?..." ++ in_query
    else String.◌∷◌ c in_url
redact_pass query (String.◌∷◌ c s) =
    let out = redact_pass outside s in
    let in_query = redact_pass query s in
    if is_url_boundary (code c) then String.◌∷◌ c out else in_query

-- A text without "http" is left alone.
pub pass-no_http : (s : String) → find_http s ≡ none → redact_pass outside s ≡ s
unfolding redact_pass find_http
pass-no_http String.[] e = refl
pass-no_http (String.◌∷◌ c s) e = elim (Bool-cases (has_prefix "http" (String.◌∷◌ c s))) [
  | inl h ↦ ground (arith, e, h)
  | inr h ↦ ground (arith, e, h, pass-no_http s)
]

find_http-here :
    (c : Char) (s : String)
    → has_prefix "http" (String.◌∷◌ c s) ≡ true
    → find_http (String.◌∷◌ c s) ≡ some (String.[], String.◌∷◌ c s)
unfolding find_http
find_http-here c s h = ground (arith, h)

find_http-later :
    (c : Char) (s : String) (r : String × String)
    → has_prefix "http" (String.◌∷◌ c s) ≡ false
    → find_http s ≡ some r
    → find_http (String.◌∷◌ c s) ≡ some (String.◌∷◌ c r.0, r.1)
unfolding find_http
find_http-later c s r h e = ground (arith, h, e)

find_http-nowhere :
    (c : Char) (s : String)
    → has_prefix "http" (String.◌∷◌ c s) ≡ false
    → find_http s ≡ none
    → find_http (String.◌∷◌ c s) ≡ none
unfolding find_http
find_http-nowhere c s h e = ground (arith, h, e)

-- Before the first "http" nothing changes, and there a URL begins.
pub record Found (s : String) (r : String × String) : Type 0 where
  pub kept : redact_pass outside s ≡ r.0 ++ redact_pass outside r.1
  pub shorter : size r.1 ≤ size s
  pub begins : has_prefix "http" r.1 ≡ true

outside_cons :
    (c : Char) (s : String)
    → has_prefix "http" (String.◌∷◌ c s) ≡ false
    → redact_pass outside (String.◌∷◌ c s) ≡ String.◌∷◌ c (redact_pass outside s)
unfolding redact_pass
outside_cons c s h = ground (arith, h)

pub find_http-Found : (s : String) (r : String × String) → find_http s ≡ some r → Found s r
unfolding size find_http
find_http-Found String.[] r e = cc e
find_http-Found (String.◌∷◌ c s) r e = elim (Bool-cases (has_prefix "http" (String.◌∷◌ c s))) [
  | inl h ↦
      let q : (String.[], String.◌∷◌ c s) ≡ r = cc (e, find_http-here c s h) in
      subst (Found (String.◌∷◌ c s)) q
        (record { kept = sym (append.nil _); shorter = omega arith; begins = h })
  | inr h ↦ elim (Option-cases (find_http s)) [
    | inl no_one ↦ cc (e, find_http-nowhere c s h no_one)
    | inr (t, there) ↦
        let q : (String.◌∷◌ c t.0, t.1) ≡ r = cc (e, find_http-later c s t h there) in
        let f = find_http-Found s t there in
        subst (Found (String.◌∷◌ c s)) q (record {
          kept =
              outside_cons c s h
              ∙ ap (λ v. String.◌∷◌ c v) f.kept
              ∙ sym (append.cons c t.0 (redact_pass outside t.1));
          shorter = omega (arith, f.shorter);
          begins = f.begins;
        })
  ]
]

pub begins_h : (c : Char) (s : String) → has_prefix "http" (String.◌∷◌ c s) ≡ true → code c ≡ b'h'
unfolding has_prefix after_prefix
begins_h c s h = ground (arith, h)

boundary_no_http :
    (c : Char) (s : String)
    → is_url_boundary (code c) ≡ true
    → has_prefix "http" (String.◌∷◌ c s) ≡ false
unfolding is_url_boundary
boundary_no_http c s b = elim (Bool-cases (has_prefix "http" (String.◌∷◌ c s))) [
  | inr h ↦ h
  | inl h ↦
      let e : is_url_boundary b'h' ≡ true =
        subst (λ n. is_url_boundary n ≡ true) (begins_h c s h) b in
      cc e
]

url_boundary :
    (c : Char) (s : String)
    → is_url_boundary (code c) ≡ true
    → redact_pass url (String.◌∷◌ c s) ≡ redact_pass outside (String.◌∷◌ c s)
unfolding redact_pass
url_boundary c s b = ground (arith, b, boundary_no_http c s b)

url_query :
    (c : Char) (s : String)
    → is_url_boundary (code c) ≡ false
    → (code c == b'?') ≡ true
    → redact_pass url (String.◌∷◌ c s) ≡ "?..." ++ redact_pass query s
unfolding redact_pass
url_query c s b q = rw (redact_pass, b, if◌then◌else◌, q) refl

url_plain :
    (c : Char) (s : String)
    → is_url_boundary (code c) ≡ false
    → (code c == b'?') ≡ false
    → redact_pass url (String.◌∷◌ c s) ≡ String.◌∷◌ c (redact_pass url s)
unfolding redact_pass
url_plain c s b q = rw (redact_pass, b, if◌then◌else◌, q) refl

-- At "http" the two modes do the same.
pub pass-begins :
    (s : String) → has_prefix "http" s ≡ true → redact_pass outside s ≡ redact_pass url s
unfolding redact_pass
pass-begins String.[] h = refl
pass-begins (String.◌∷◌ c s) h =
    let e = begins_h c s h in
    let b : is_url_boundary (code c) ≡ false = rw e refl in
    let q : (code c == b'?') ≡ false = rw e refl in ground (arith, h) ∙ sym (url_plain c s b q)

pub span_boundary :
    (c : Char) (s : String)
    → is_url_boundary (code c) ≡ true
    → span_url (String.◌∷◌ c s) ≡ (String.[], String.◌∷◌ c s)
unfolding span_url
span_boundary c s b = rw (span_url, b, if◌then◌else◌) refl

pub span_plain :
    (c : Char) (s : String)
    → is_url_boundary (code c) ≡ false
    → span_url (String.◌∷◌ c s) ≡ (String.◌∷◌ c (span_url s).0, (span_url s).1)
unfolding span_url
span_plain c s b = rw (span_url, b, if◌then◌else◌) refl

-- A query is dropped up to the end of the URL.
pass-query : (s : String) → redact_pass query s ≡ redact_pass outside (span_url s).1
unfolding redact_pass span_url
pass-query String.[] = refl
pass-query (String.◌∷◌ c s) = elim (Bool-cases (is_url_boundary (code c))) [
  | inl b ↦ rw (span_boundary c s b) (ground (arith, b, boundary_no_http c s b))
  | inr b ↦ rw (span_plain c s b) (ground (arith, b) ∙ pass-query s)
]

redact_url_query :
    (c : Char) (u : String) → (code c == b'?') ≡ true → redact_url (String.◌∷◌ c u) ≡ "?..."
unfolding redact_url before_query
redact_url_query c u q = rw (redact_url, before_query, q, if◌then◌else◌) (append.nil "?...")

redact_url_plain :
    (c : Char) (u : String)
    → (code c == b'?') ≡ false
    → redact_url (String.◌∷◌ c u) ≡ String.◌∷◌ c (redact_url u)
unfolding redact_url before_query
redact_url_plain c u q = elim (Option-cases (before_query u)) [
  | inl e ↦ rw (redact_url, before_query, q, if◌then◌else◌, e) refl
  | inr (front, e) ↦ rw (redact_url, before_query, q, if◌then◌else◌, e) (append.cons c front "?...")
]

-- A URL with its query redacted, and then what is left.
pub pass-span_url :
    (s : String)
    → redact_pass url s ≡ redact_url (span_url s).0 ++ redact_pass outside (span_url s).1
unfolding redact_pass span_url redact_url before_query
pass-span_url String.[] = sym (append.nil "")
pass-span_url (String.◌∷◌ c s) = elim (Bool-cases (is_url_boundary (code c))) [
  | inl b ↦
      rw (span_boundary c s b)
        (url_boundary c s b ∙ sym (append.nil (redact_pass outside (String.◌∷◌ c s))))
  | inr b ↦ elim (Bool-cases (code c == b'?')) [
    | inl q ↦
        rw (span_plain c s b, redact_url_query c (span_url s).0 q)
          (url_query c s b q ∙ ap (λ v. "?..." ++ v) (pass-query s))
    | inr q ↦
        rw (span_plain c s b, redact_url_plain c (span_url s).0 q)
          (url_plain c s b q
            ∙ ap (λ v. String.◌∷◌ c v) (pass-span_url s)
            ∙ sym (append.cons c (redact_url (span_url s).0) (redact_pass outside (span_url s).1)))
  ]
]
