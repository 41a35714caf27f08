-- ===== src/Stream/Stderr/Redact.antt =====
-- The redaction against a reading of the line in one pass.
use Prim.Native.Char.{code}
use Prim.Native.String.{String, ◌++◌}
use ma_dlna.Base.{
  ℕ, zero, suc, ◌≤◌, ◌<◌, true, false, ◌≡◌, refl, ◌∙◌, sym, ap, arith, Option-cases, Bool-cases,
  inl, inr,
}
use ma_dlna.Stream.Streamer.Serve.{after_prefix}
use ma_dlna.Stream.Stderr.{
  has_prefix, is_url_boundary, find_http, span_url, size, redact_loop, redact_stderr,
}
use ma_dlna.Stream.Stderr.Pass.{
  redact_pass, outside, find_http-Found, pass-no_http, pass-begins, pass-span_url, begins_h,
  span_boundary, span_plain,
}

span_url-size : (s : String) → size (span_url s).1 ≤ size s
unfolding span_url size
span_url-size String.[] = omega arith
span_url-size (String.◌∷◌ c s) = elim (Bool-cases (is_url_boundary (code c))) [
  | inl b ↦ rw (span_boundary c s b) (omega arith)
  | inr b ↦ rw (span_plain c s b) (omega (arith, span_url-size s))
]

-- A URL is not empty, so the rest is shorter.
span_url-size_lt : (s : String) → has_prefix "http" s ≡ true → size (span_url s).1 < size s
unfolding size has_prefix after_prefix is_url_boundary
span_url-size_lt String.[] h = cc h
span_url-size_lt (String.◌∷◌ c s) h =
    let b : is_url_boundary (code c) ≡ false = rw (begins_h c s h) refl in
    rw (span_plain c s b) (omega (arith, span_url-size s))

redact_loop-eq-pass :
    (fuel : ℕ) (s : String) → size s < fuel → redact_loop fuel s ≡ redact_pass outside s
unfolding redact_loop
redact_loop-eq-pass zero s h = absurd (omega arith)
redact_loop-eq-pass (suc fuel) s h = elim (Option-cases (find_http s)) [
  | inl no_one ↦ rw (redact_loop, no_one) (sym (pass-no_http s no_one))
  | inr (r, there) ↦
      let f = find_http-Found s r there in
      let less : size (span_url r.1).1 < fuel =
        omega (arith, f.shorter, h, span_url-size_lt r.1 f.begins) in
      rw (redact_loop, there, redact_loop-eq-pass fuel (span_url r.1).1 less)
        (sym (f.kept ∙ ap (λ v. r.0 ++ v) (pass-begins r.1 f.begins ∙ pass-span_url r.1)))
]

-- `redactStderr` does what one pass over the line does: it leaves all outside of URLs alone, a URL
-- being what stands from "http" to a boundary, keeps of each URL what stands before the first `?`, and
-- puts an ellipsis for the rest of it. Its loop comes to the end of every line.
pub redact_stderr-eq-pass : (line : String) → redact_stderr line ≡ redact_pass outside line
unfolding redact_stderr
redact_stderr-eq-pass line = redact_loop-eq-pass (suc (size line)) line (omega arith)
