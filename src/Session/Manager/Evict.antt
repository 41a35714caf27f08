-- ===== src/Session/Manager/Evict.antt =====
-- internal/session/session.go: `evictLocked` and the section of `CreateWithBase`, which stops all
-- sessions, makes room in the map and enters a new one. `range` visits the map in the order of the
-- list.
pub mod Bound
pub mod Create
use Prim.Native.String.{◌++◌}
use ma_dlna.Base.{
  ℕ, zero, suc, Bool, true, false, not, ◌&&◌, ◌||◌, List, [], ◌∷◌, Option, none, some, String,
  length, ltb, eqb, if◌then◌else◌,
}
use ma_dlna.Base.Dict.{insert, delete}
use ma_dlna.Session.Types.{
  State, loaded, starting, playing, paused, stopped, error, Metadata, Session, Manager,
  max_sessions,
}
use ma_dlna.Session.Manager.{is, moved}

-- `range states`
unfoldable pub is_one_of : State → List State → Bool
is_one_of st [] = false
is_one_of st (x ∷ xs) = is st x || is_one_of st xs

-- The body of the loop of `evictByState`, with `oldest` so far.
unfoldable pub older : String → List State → Option Session → Session → Option Session
older current states oldest s =
    let better : Option Session = elim oldest [
      | none ↦ some s
      | some o ↦ if ltb s.updated_at o.updated_at then some s else some o
    ] in
    if eqb s.id current then oldest else if is_one_of s.state states then better else oldest

unfoldable pub find_oldest :
    String → List State → Option Session → List (String × Session) → Option Session
find_oldest current states oldest [] = oldest
find_oldest current states oldest ((k, s) ∷ rest) =
    find_oldest current states (older current states oldest s) rest

unfoldable pub evict_by_state : List State → Manager → Manager × Bool
evict_by_state states m = elim (find_oldest m.current_session_id states none m.sessions) [
  | none ↦ (m, false)
  | some o ↦
      if eqb o.id m.current_session_id
      then (m, false)
      else (record m { sessions = delete o.id m.sessions }, true)
]

-- `for evictByState(...) { if len(m.sessions) < maxSessions { return } }`; the flag says that it
-- returned. Each round that goes on has taken a session out, so as many rounds as there are sessions
-- are enough.
unfoldable pub evict_loop : ℕ → List State → Manager → Manager × Bool
evict_loop zero states m = (m, false)
evict_loop (suc fuel) states m =
    let (m', evicted) = evict_by_state states m in
    let again = evict_loop fuel states m' in
    if not evicted
    then (m', false)
    else if ltb (length m'.sessions) max_sessions
    then (m', true)
    else again

unfoldable pub evict_locked : Manager → Manager
evict_locked m =
    let (m', done) = evict_loop (suc (length m.sessions)) (stopped ∷ error ∷ []) m in
    let (m'', _) = evict_loop (suc (length m'.sessions)) (paused ∷ []) m' in
    if done then m' else m''

-- the states that `CreateWithBase` stops
unfoldable pub is_live : State → Bool
is_live st = is st playing || is st starting || is st paused || is st loaded || is st error

-- The first loop of `CreateWithBase`: the sessions after it, and `toStop`.
unfoldable pub stop_live : ℕ → List (String × Session) → List (String × Session) × List String
stop_live now [] = ([], [])
stop_live now ((k, s) ∷ rest) =
    let (rest', ids) = stop_live now rest in
    if is_live s.state
    then ((k, moved stopped now s) ∷ rest', s.id ∷ ids)
    else ((k, s) ∷ rest', ids)

-- What `CreateWithBase` is given or draws at random: the id, the token, and the parsed metadata.
pub record Request : Type 0 where
  pub id : String
  pub token : String
  pub source_uri : String
  pub metadata_raw : String
  pub metadata : Metadata
  pub base_url : String

-- the file of a stream, behind `/live/`
unfoldable pub stream_file : String → String → String
stream_file format id = let ext = if eqb format "opus" then "ogg" else format in id ++ ("." ++ ext)

unfoldable pub stream_url : String → Request → String
stream_url format r =
    r.base_url ++ ("/live/" ++ (stream_file format r.id ++ ("?token=" ++ r.token)))

unfoldable pub new_session : String → Request → ℕ → Session
new_session format r now = record {
  id = r.id;
  source_uri = r.source_uri;
  metadata_raw = r.metadata_raw;
  metadata = r.metadata;
  state = loaded;
  stream_url = stream_url format r;
  stream_token = r.token;
  next_uri = "";
  play_mode = "";
  created_at = now;
  updated_at = now;
  error_text = "";
}

-- The section of `CreateWithBase` up to the draw of the id.
unfoldable pub make_room : ℕ → Manager → Manager
make_room now m =
    let all_stopped = record m { sessions = (stop_live now m.sessions).0 } in
    if ltb (length m.sessions) max_sessions then all_stopped else evict_locked all_stopped

-- The section of `CreateWithBase`: the manager after it, and the sessions whose streams are stopped
-- next.
unfoldable pub create_section : Request → ℕ → Manager → Manager × List String
create_section r now m =
    let room = make_room now m in
    (
      record room {
        sessions = insert r.id (new_session m.cfg.output_format r now) room.sessions;
        current_session_id = r.id;
      },
      (stop_live now m.sessions).1,
    )
