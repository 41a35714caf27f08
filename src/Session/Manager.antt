-- ===== src/Session/Manager.antt =====
-- internal/session/session.go: `Manager` in its atomic sections, those under `m.mu`. A method that
-- changes the manager returns it with its result; `now` is `time.Now()`.
pub mod Valid
pub mod Evict
pub mod Ids
pub mod Sections
pub mod Generations
pub mod States
use ma_dlna.Base.{
  ℕ, Bool, true, false, not, ◌&&◌, ◌||◌, List, [], ◌∷◌, Option, none, some, String, length, eqb,
  ◌==◌, if◌then◌else◌,
}
use ma_dlna.Base.Dict.{lookup, insert}
use ma_dlna.Session.Types.{
  State, idle, loaded, starting, playing, paused, stopped, error, State-discrete, Session, Manager,
}

-- `s.State == st`
abbrev pub is : State → State → Bool
is a b = elim (State-discrete a b) [ yes e ↦ true | no e ↦ false ]

-- The session is changed through its pointer.
abbrev pub set_session : Manager → String → Session → Manager
set_session m sid s = record m { sessions = insert sid s m.sessions }

abbrev pub moved : State → ℕ → Session → Session
moved st now s = record s { state = st; updated_at = now }

-- `genID != 0 && m.sessionGenID[sessionID] != genID`
abbrev pub is_stale : Manager → String → ℕ → Bool
is_stale m sid gen_id = not (gen_id == 0) && not (m.session_gen_id sid == gen_id)

unfoldable pub set_session_gen_id : String → ℕ → Manager → Manager
set_session_gen_id sid gen_id m = record m {
  session_gen_id = λ k. if eqb k sid then gen_id else m.session_gen_id k;
}

unfoldable pub verify_gen_id : String → ℕ → Manager → Bool
verify_gen_id sid gen_id m = m.session_gen_id sid == gen_id

unfoldable pub set_current_session_id : String → Manager → Manager
set_current_session_id sid m = record m { current_session_id = sid }

-- A snapshot is the value of the record.
unfoldable pub get : String → Manager → Option Session
get sid m = lookup sid m.sessions

unfoldable pub current_session : Manager → Option Session
unfolding get
current_session m = if not (eqb m.current_session_id "") then get m.current_session_id m else none

-- One change of a session, if it is there and `ok` says so; the flag is the result.
abbrev pub change : String → (Session → Bool) → (Session → Session) → Manager → Manager × Bool
change sid ok f m = elim (lookup sid m.sessions) [
  | none ↦ (m, false)
  | some s ↦ if ok s then (set_session m sid (f s), true) else (m, false)
]

-- How `Play` ends its section: with `ErrNotFound`, with a resumption of the stream to come, with the
-- session started, or with nothing to do.
pub data Played : Type 0 where
  not_found resumes started unchanged : Played

unfoldable pub play_section : String → ℕ → Manager → Manager × Played
play_section sid now m = elim (lookup sid m.sessions) [
  | none ↦ (m, not_found)
  | some s ↦
      if is s.state paused
      then (set_session m sid (moved starting now s), resumes)
      else if is s.state error
      then (set_session m sid (record (moved starting now s) { error_text = "" }), started)
      else if not (is s.state loaded) && not (is s.state stopped)
      then (m, unchanged)
      else (set_session m sid (moved starting now s), started)
]

-- The sections of `Stop` and `Pause`; the flag is false for `ErrNotFound`.
unfoldable pub stop_section : String → ℕ → Manager → Manager × Bool
stop_section sid now m = change sid (λ s. true) (moved stopped now) m

unfoldable pub pause_section : String → ℕ → Manager → Manager × Bool
pause_section sid now m = change sid (λ s. true) (moved paused now) m

-- The section of `Seek`, which forgets the generation of a session that plays.
unfoldable pub seek_section : String → ℕ → Manager → Manager
unfolding set_session_gen_id
seek_section sid now m = elim (lookup sid m.sessions) [
  | none ↦ m
  | some s ↦
      if is s.state playing || is s.state starting
      then set_session_gen_id sid 0 (set_session m sid (moved starting now s))
      else m
]

unfoldable pub mark_stopped_if_generation : String → ℕ → ℕ → Manager → Manager × Bool
mark_stopped_if_generation sid gen_id now m =
    change sid (λ s. not (is_stale m sid gen_id) && not (is s.state error)) (moved stopped now) m

unfoldable pub set_playing_accepted_if_generation : String → ℕ → ℕ → Manager → Manager × Bool
set_playing_accepted_if_generation sid gen_id now m =
    change sid (λ s. is s.state starting && not (is_stale m sid gen_id)) (moved playing now) m

unfoldable pub mark_playing_if_generation : String → ℕ → ℕ → Manager → Manager × Bool
mark_playing_if_generation sid gen_id now m =
    change sid
      (λ s.
        not (is_stale m sid gen_id)
        && not (is s.state playing || is s.state stopped || is s.state error))
      (moved playing now) m

unfoldable pub mark_paused_if_generation : String → ℕ → ℕ → Manager → Manager × Bool
mark_paused_if_generation sid gen_id now m =
    change sid (λ s. not (is_stale m sid gen_id) && (is s.state playing || is s.state starting))
      (moved paused now) m

abbrev pub broken : String → ℕ → Session → Session
broken message now s = record s { state = error; error_text = message; updated_at = now }

-- The notifier, which is called after the lock is released, is a matter of the operations.
unfoldable pub set_error_if_generation : String → ℕ → String → ℕ → Manager → Manager × Bool
set_error_if_generation sid gen_id message now m =
    change sid (λ s. not (is_stale m sid gen_id)) (broken message now) m

unfoldable pub set_error_if_no_generation : String → String → ℕ → Manager → Manager × Bool
set_error_if_no_generation sid message now m =
    change sid (λ s. m.session_gen_id sid == 0) (broken message now) m

unfoldable pub is_current_generation_active : String → ℕ → Manager → Bool
is_current_generation_active sid gen_id m = elim (lookup sid m.sessions) [
  | none ↦ false
  | some s ↦
      eqb m.current_session_id sid
      && (is s.state starting || is s.state playing)
      && not (is_stale m sid gen_id)
]

unfoldable pub is_current_generation_state : String → ℕ → State → Manager → Bool
unfolding is_current_generation_active
is_current_generation_state sid gen_id st m =
    let same : Bool = elim (lookup sid m.sessions) [ none ↦ false | some s ↦ is s.state st ] in
    is_current_generation_active sid gen_id m && same

-- The last section of `AcceptPlaybackIfGeneration`.
unfoldable pub accept_section : String → ℕ → ℕ → Manager → Manager × Bool
unfolding is_current_generation_active
accept_section sid gen_id now m =
    change sid (λ s. is_current_generation_active sid gen_id m && is s.state starting)
      (moved playing now) m

-- The last section of `StopWithErrorIfGenerationActive`.
unfoldable pub fail_section : String → ℕ → String → ℕ → Manager → Manager × Bool
unfolding is_current_generation_active
fail_section sid gen_id message now m =
    change sid (λ s. is_current_generation_active sid gen_id m) (broken message now) m

unfoldable pub validate_token : String → String → Manager → Bool
validate_token sid token m = elim (lookup sid m.sessions) [
  | none ↦ false
  | some s ↦ not (m.cfg.require_stream_token && not (eqb s.stream_token token))
]

unfoldable pub set_next_uri : String → String → Manager → Manager
set_next_uri sid uri m = (change sid (λ s. true) (λ s. record s { next_uri = uri }) m).0

unfoldable pub set_play_mode : String → String → Manager → Manager
set_play_mode sid mode m = (change sid (λ s. true) (λ s. record s { play_mode = mode }) m).0

-- the first session that is active, in the order of the map
first_active : List (String × Session) → Option Session
first_active [] = none
first_active ((k, s) ∷ rest) =
    let others = first_active rest in
    if is s.state playing || is s.state starting || is s.state loaded || is s.state paused
    then some s
    else others

unfoldable pub active_session : Manager → Option Session
unfolding first_active
active_session m = first_active m.sessions

unfoldable pub status_session : Manager → Option Session
unfolding current_session active_session
status_session m = elim (current_session m) [ none ↦ active_session m | some s ↦ some s ]

unfoldable pub count : Manager → ℕ
count m = length m.sessions
