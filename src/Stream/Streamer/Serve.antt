-- ===== src/Stream/Streamer/Serve.antt =====
-- internal/stream/stream.go: `ServeHTTP`, in its atomic sections, and the text functions it uses.
-- The HTTP server, its request and the token validator are arguments. A reply is its status code.
use Prim.Native.Char.{code}
use Prim.Native.String.{String}
use ma_dlna.Base.{
  ℕ, Bool, true, false, not, ◌&&◌, ◌||◌, List, [], ◌∷◌, Option, none, some, length, leb, ◌==◌, eqb,
  if◌then◌else◌,
}
use ma_dlna.Base.Dict.{lookup, insert, delete}
use ma_dlna.Stream.Gen.{Gen, Client}
use ma_dlna.Stream.Replay.{replay}
use ma_dlna.Stream.Streamer.{Streamer, Callback, first_client, set_gen, still_current, stop}

-- the rest of a text behind a prefix
unfoldable pub after_prefix : String → String → Option String
after_prefix String.[] s = some s
after_prefix (String.◌∷◌ c p) String.[] = none
after_prefix (String.◌∷◌ c p) (String.◌∷◌ d s) =
    let rest = after_prefix p s in if code c == code d then rest else none

-- `strings.TrimPrefix`
unfoldable pub trim_prefix : String → String → String
unfolding after_prefix
trim_prefix p s = elim (after_prefix p s) [ none ↦ s | some rest ↦ rest ]

-- what stands before the last dot
unfoldable pub before_dot : String → Option String
before_dot String.[] = none
before_dot (String.◌∷◌ c s) = elim (before_dot s) [
  | some front ↦ some (String.◌∷◌ c front)
  | none ↦ if code c == b'.' then some String.[] else none
]

unfoldable pub extract_session_id : String → String
unfolding before_dot
extract_session_id path = elim (before_dot path) [ none ↦ path | some front ↦ front ]

pub record Request : Type 0 where
  pub method : String
  pub path : String
  pub token : String

-- a refusal with its status, the answer to HEAD, or the session, stream and generation to attach to
pub data Outcome : Type 0 where
  refused : ℕ → Outcome
  headers : Outcome
  attach : String → ℕ → ℕ → Outcome

-- The part before the wait for `gen.started`.
unfoldable pub admit : (String → String → Bool) → Request → Streamer → Outcome
unfolding trim_prefix extract_session_id
admit valid r s =
    let sid = extract_session_id (trim_prefix "/live/" r.path) in
    let found : Outcome = elim (lookup sid s.streams) [
      | none ↦ refused 404
      | some a ↦
          if not (s.stream_at a).active
          then refused 404
          else if eqb r.method "HEAD"
          then headers
          else attach sid a (s.stream_at a).gen
    ] in
    if not (eqb r.method "GET") && not (eqb r.method "HEAD")
    then refused 405
    else if eqb sid ""
    then refused 400
    else if not (valid sid r.token)
    then refused 403
    else found

-- Whether the generation has recorded an error.
unfoldable pub is_broken : Gen → Bool
is_broken gen = elim gen.err [ none ↦ false | some e ↦ true ]

-- The checks after the wait for `gen.started`, and before `clientsMu` is taken: 200 to go on.
unfoldable pub wait_status : ℕ → Streamer → ℕ
unfolding is_broken
wait_status g s =
    if not (s.gen_at g).started then 503 else if is_broken (s.gen_at g) then 500 else 200

-- The checks under `clientsMu`: 200 if the client is attached.
unfoldable pub attach_status : ℕ → ℕ → Streamer → ℕ
unfolding is_broken
attach_status a g s =
    let gen = s.gen_at g in
    if not ((s.stream_at a).gen == g)
      || not (s.stream_at a).active
      || not gen.active
      || gen.ctx_err
      || is_broken gen
    then 503
    else if leb s.cfg.max_clients_per_session (length gen.clients)
    then 429
    else 200

-- A client that passes them is sent the replay and put into the map; the first one of a generation is
-- reported.
unfoldable pub attach_client : String → String → ℕ → ℕ → Streamer → Streamer × List Callback × ℕ
unfolding attach_status
attach_client id sid a g s =
    let gen = s.gen_at g in
    let c : Client = record { cancelled = false; ch = replay s.cfg gen } in
    let gen' = record gen { clients = insert id c gen.clients; first_client = true } in
    if attach_status a g s == 200
    then (set_gen s g gen', if gen.first_client then [] else first_client sid gen.gen_id ∷ [], 200)
    else (s, [], attach_status a g s)

-- The client's context is done: it leaves the map. The flag says that none is left.
unfoldable pub detach_client : String → ℕ → Streamer → Streamer × Bool
detach_client id g s =
    let gen = record (s.gen_at g) { clients = delete id (s.gen_at g).clients } in
    (set_gen s g gen, length gen.clients == 0)

-- After the grace period the stream is stopped if it is still registered, its generation is still
-- current, and that has no client.
unfoldable pub grace_over : (Streamer → Streamer) → String → ℕ → ℕ → Streamer → Streamer
unfolding stop still_current
grace_over env sid a g s =
    if still_current s sid a && (s.stream_at a).gen == g && length (s.gen_at g).clients == 0
    then stop env sid s
    else s
