-- ===== src/Stream/Stderr.antt =====
-- internal/stream/stream.go: what the log shows of the encoder's error output. `redactStderr` cuts the
-- query off every URL in it.
pub mod Pass
pub mod Redact
use Prim.Native.Char.{Char, code}
use Prim.Native.String.{String, ◌++◌}
use ma_dlna.Base.{
  ℕ, zero, suc, Bool, true, false, not, ◌||◌, List, [], ◌∷◌, Option, none, some, ◌==◌, eqb,
  if◌then◌else◌,
}
use ma_dlna.Stream.Streamer.Serve.{after_prefix}

-- `strings.HasPrefix`
unfoldable pub has_prefix : String → String → Bool
unfolding after_prefix
has_prefix p s = elim (after_prefix p s) [ none ↦ false | some rest ↦ true ]

-- `isURLBoundary`
unfoldable pub is_url_boundary : ℕ → Bool
is_url_boundary c =
    c == b' '
    || c == b'\n'
    || c == b'\t'
    || c == b'\r'
    || c == b'"'
    || c == b'\''
    || c == b'('
    || c == b')'
    || c == b'['
    || c == b']'
    || c == b'<'
    || c == b'>'
    || c == b','

-- What stands before the first "http", and the rest from there: `strings.Index` and the two slices.
unfoldable pub find_http : String → Option (String × String)
unfolding has_prefix
find_http String.[] = none
find_http (String.◌∷◌ c s) =
    let later : Option (String × String) = elim (find_http s) [
      | none ↦ none
      | some r ↦ some (String.◌∷◌ c r.0, r.1)
    ] in
    if has_prefix "http" (String.◌∷◌ c s) then some (String.[], String.◌∷◌ c s) else later

-- `rest[:end]` and `rest[end:]` for the end of a URL
unfoldable pub span_url : String → String × String
unfolding is_url_boundary
span_url String.[] = (String.[], String.[])
span_url (String.◌∷◌ c s) =
    let r = span_url s in
    if is_url_boundary (code c) then (String.[], String.◌∷◌ c s) else (String.◌∷◌ c r.0, r.1)

-- what stands before the first `?`
unfoldable pub before_query : String → Option String
before_query String.[] = none
before_query (String.◌∷◌ c s) =
    let later : Option String = elim (before_query s) [
      | none ↦ none
      | some front ↦ some (String.◌∷◌ c front)
    ] in
    if code c == b'?' then some String.[] else later

unfoldable pub redact_url : String → String
unfolding before_query
redact_url url = elim (before_query url) [ none ↦ url | some front ↦ front ++ "?..." ]

unfoldable pub size : String → ℕ
size String.[] = 0
size (String.◌∷◌ c s) = suc (size s)

-- The loop of `redactStderr`. Each round but the last takes at least the "http" off, so as many rounds
-- as there are characters, and one more, are enough.
unfoldable pub redact_loop : ℕ → String → String
unfolding find_http span_url redact_url
redact_loop zero rest = rest
redact_loop (suc fuel) rest = elim (find_http rest) [
  | none ↦ rest
  | some r ↦ let (url, rest') = span_url r.1 in r.0 ++ (redact_url url ++ redact_loop fuel rest')
]

unfoldable pub redact_stderr : String → String
unfolding redact_loop size
redact_stderr line = redact_loop (suc (size line)) line
