-- ===== src/Session/StreamUrl.antt =====
-- The address of a stream: what `CreateWithBase` (internal/session/session.go) builds and `ServeHTTP`
-- (internal/stream/stream.go) takes apart.
use Prim.Native.Char.{code}
use Prim.Native.String.{String, ◌++◌}
use Prim.Native.String.append
use ma_dlna.Base.{none, some, ◌≡◌, refl, ap, eqb, if◌then◌else◌, ==_self}
use ma_dlna.Stream.Streamer.Serve.{after_prefix, trim_prefix, before_dot, extract_session_id}
use ma_dlna.Session.Manager.Evict.{stream_file}

trim_prefix-append : (p s : String) → after_prefix p (p ++ s) ≡ some s
unfolding after_prefix
trim_prefix-append String.[] s = ap some (append.nil s)
trim_prefix-append (String.◌∷◌ c p) s =
    rw (append.cons c p s, after_prefix, ==_self (code c), if◌then◌else◌) (trim_prefix-append p s)

before_dot-dotted : (ext : String) → before_dot ext ≡ none → before_dot ("." ++ ext) ≡ some ""
unfolding before_dot
before_dot-dotted ext e = rw (append.cons "." "" ext, append.nil ext, before_dot, e) refl

before_dot-append :
    (front ext : String) → before_dot ext ≡ none → before_dot (front ++ ("." ++ ext)) ≡ some front
unfolding before_dot
before_dot-append String.[] ext e = rw (append.nil ("." ++ ext)) (before_dot-dotted ext e)
before_dot-append (String.◌∷◌ c s) ext e =
    rw (append.cons c s ("." ++ ext), before_dot, before_dot-append s ext e) refl

-- The session id that the server reads in the path of a stream is the one that the stream was opened
-- for, whatever the id, where the extension of the output format has no dot.
pub stream_file-extract_session_id :
    (format id : String)
    → before_dot (if eqb format "opus" then "ogg" else format) ≡ none
    → extract_session_id (trim_prefix "/live/" ("/live/" ++ stream_file format id)) ≡ id
unfolding extract_session_id trim_prefix stream_file
stream_file-extract_session_id format id e =
    let ext = if eqb format "opus" then "ogg" else format in
    rw
      (
        trim_prefix,
        trim_prefix-append "/live/" (id ++ ("." ++ ext)),
        extract_session_id,
        before_dot-append id ext e,
      )
      refl
