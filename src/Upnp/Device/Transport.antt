-- ===== src/Upnp/Device/Transport.antt =====
-- internal/upnp/upnp.go: the actions of `serveAVTransport` but for Play. The fields of the request and the
-- target that `parseRelTime` reads are arguments, an answer is the response or a fault.
use ma_dlna.Base.{
  ℕ, ◌-◌, Bool, false, not, ◌&&◌, ◌||◌, List, Option, none, some, String, eqb, ltb, if◌then◌else◌,
}
use ma_dlna.Base.Int.{ℤ, pos, ltb_ℤ}
use ma_dlna.Session.Types.{State, Session, idle, loaded, starting, playing, paused, stopped, error}
use ma_dlna.Session.Manager.{
  is, set_next_uri as next_uri_section, set_play_mode as play_mode_section,
}
use ma_dlna.Session.Manager.Evict.{Request}
use ma_dlna.Session.Ops.{set_manager, stop, pause, create_with_base}
use ma_dlna.Session.Api.{Api}
use ma_dlna.Upnp.PosCache.{
  PlayerStatus, reset, set, estimate, guard_zero, cache_backend_position, ignore_playing,
}
use ma_dlna.Upnp.IdleDebounce.{ten_seconds}
use ma_dlna.Upnp.Device.{
  Device, Gaps, Answer, done, fault, stop_command, pause_command, seek_command, active, manager,
  set_world, set_cache, next_op, notify_current, mark_playing, release_guard, command, set_error,
}
use ma_dlna.Upnp.Device.Waits.{
  Round, Waited, confirmed, interrupted, timeout, wait_for_backend_not_playing,
}
use ma_dlna.Upnp.Device.Sync.{playback_position, sync_current_session_from_backend}

-- the state and the status of GetTransportInfo
unfoldable pub transport_state : State → String × String
transport_state playing = ("PLAYING", "OK")
transport_state paused = ("PAUSED_PLAYBACK", "OK")
transport_state starting = ("TRANSITIONING", "OK")
transport_state stopped = ("STOPPED", "OK")
transport_state error = ("STOPPED", "ERROR_OCCURRED")
transport_state idle = ("STOPPED", "OK")
transport_state loaded = ("STOPPED", "OK")

abbrev pub is_active : State → Bool
is_active st = is st playing || is st starting

-- the state of a seek
abbrev pub is_seekable : State → Bool
is_seekable st = is st playing || is st starting || is st paused

module _ {S : Type 0} (api : Api S) (gaps : Gaps S) (now : ℕ) where
  -- Stop under the lock of the commands, up to the call of the backend.
  unfoldable pub stop_locked : Session → Device S → Device S
  unfolding next_op stop release_guard reset command
  stop_locked s d =
      let d₁ = record (gaps.lock d) {
        control_seq = next_op (gaps.lock d).control_seq;
        monitor = none;
      } in
      let d₂ = set_world (stop api gaps.inside s.id now d₁.world).0 d₁ in
      command gaps stop_command (set_cache reset (release_guard s.id d₂))

  -- Stop; `err` is the error of the backend.
  unfoldable pub stop_action : Option String → Device S → Device S × Answer
  unfolding active stop_locked set_error notify_current
  stop_action err d = elim (active d) [
    | none ↦ (d, done)
    | some s ↦
        let d' = stop_locked s d in
        elim err [
          | none ↦ (notify_current s.id "STOPPED" "OK" d', done)
          | some message ↦ (set_error api s.id message now d', fault "501")
        ]
  ]

  -- Pause under the lock of the commands; `elapsed` and `poll` are what `playbackPositionForSession` reads.
  unfoldable pub pause_locked : Session → ℤ → Option PlayerStatus → Device S → Device S
  unfolding next_op ignore_playing playback_position pause estimate guard_zero command
  pause_locked s elapsed poll d =
      let d₁ = record d {
        control_seq = next_op d.control_seq;
        guard = ignore_playing s.id d.guard;
      } in
      let d₂ = set_cache (playback_position s elapsed (pos now) poll d₁.cache).0 d₁ in
      let d₃ = set_world (pause api gaps.inside s.id now d₂.world).0 d₂ in
      let c = (estimate s.id false (pos now) d₃.cache).0 in
      command gaps pause_command (set_cache (guard_zero s.id ten_seconds (pos now) c) d₃)

  -- the event of a pause, if the session is current and still paused
  unfoldable pub tell_paused : Session → Device S → Device S
  unfolding active notify_current
  tell_paused s d = elim (active d) [
    | none ↦ d
    | some cur ↦
        if eqb cur.id s.id && is cur.state paused
        then notify_current s.id "PAUSED_PLAYBACK" "OK" d
        else d
  ]

  -- Pause after the backend has accepted, with the result of the wait.
  unfoldable pub pause_waited : Session → Waited S → Device S × Answer
  unfolding cache_backend_position release_guard mark_playing tell_paused
  pause_waited s (d, status, result) =
      let c = (cache_backend_position s.id status false (pos now) d.cache).0 in
      let released = release_guard s.id d in
      elim result [
        | timeout ↦ (
          if eqb status.state "playing" then mark_playing s.id 0 now released else released,
          fault "501",
        )
        | confirmed ↦ (
          tell_paused s (if is s.state starting then d else release_guard s.id (set_cache c d)),
          done,
        )
        | interrupted ↦ (tell_paused s d, done)
      ]

  -- Pause after the call of the backend; `deadline` and `rounds` are those of the wait.
  unfoldable pub pause_called :
      Option String → ℕ → List (Round S) → Session → Device S → Device S × Answer
  unfolding release_guard stop set_error wait_for_backend_not_playing pause_waited
  pause_called err deadline rounds s d =
      let d₁ = release_guard s.id d in
      let d₂ = set_world (stop api gaps.inside s.id now d₁.world).0 d₁ in
      elim err [
        | none ↦ pause_waited s (wait_for_backend_not_playing s.id deadline rounds d)
        | some message ↦ (set_error api s.id message now d₂, fault "501")
      ]

  -- Pause with the lock of the commands, for the session that is then current.
  unfoldable pub pause_again :
      Option String
      → ℤ
      → Option PlayerStatus
      → ℕ
      → List (Round S)
      → Session
      → Option Session
      → Device S
      → Device S × Answer
  unfolding pause_locked pause_called
  pause_again err elapsed poll deadline rounds s none d = (d, fault "701")
  pause_again err elapsed poll deadline rounds s (some cur) d =
      if eqb cur.id s.id && is_active cur.state
      then pause_called err deadline rounds s (pause_locked s elapsed poll d)
      else (d, fault "701")

  unfoldable pub pause_found :
      Option String
      → ℤ
      → Option PlayerStatus
      → ℕ
      → List (Round S)
      → Session
      → Device S
      → Device S × Answer
  unfolding active pause_again
  pause_found err elapsed poll deadline rounds s d =
      let d' = gaps.lock d in
      if is_active s.state
      then pause_again err elapsed poll deadline rounds s (active d') d'
      else (d, fault "701")

  unfoldable pub pause_action :
      Option String → ℤ → Option PlayerStatus → ℕ → List (Round S) → Device S → Device S × Answer
  unfolding active pause_found
  pause_action err elapsed poll deadline rounds d = elim (active d) [
    | none ↦ (d, fault "701")
    | some s ↦ pause_found err elapsed poll deadline rounds s d
  ]

  -- Seek under the lock of the commands, for the session `s` that is now `cur`.
  unfoldable pub seek_locked : Option String → ℤ → Session → Session → Device S → Device S × Answer
  unfolding next_op set command set_error
  seek_locked err offset s cur d =
      let c = (set s.id offset (not (is cur.state paused)) (pos now) d.cache).0 in
      let d₁ = set_cache c (record d { position_seq = next_op d.position_seq }) in
      let d₂ = command gaps (seek_command offset) d₁ in
      elim err [
        | none ↦ (d₂, done)
        | some message ↦ (set_error api s.id message now d₂, fault "501")
      ]

  -- Seek to a target, for the session that was current; one second is 10⁹.
  unfoldable pub seek_to : Option String → ℤ → Session → Device S → Device S × Answer
  unfolding active seek_locked
  seek_to err offset s d =
      let d' = gaps.lock d in
      if not (is_seekable s.state)
      then (d, fault "701")
      else if not (ltb_ℤ offset (pos 0))
          && not (ltb_ℤ (pos 0) offset)
          && is s.state starting
          && ltb (now - s.updated_at) 1000000000
      then (d, done)
      else elim (active d') [
        | none ↦ (d', fault "701")
        | some cur ↦
            if eqb cur.id s.id && is_seekable cur.state
            then seek_locked err offset s cur d'
            else (d', fault "701")
      ]

  unfoldable pub seek_action : Option String → String → Option ℤ → Device S → Device S × Answer
  unfolding active seek_to
  seek_action err unit target d =
      if not (eqb unit "REL_TIME") then (d, fault "710") else elim target [
        | none ↦ (d, fault "711")
        | some offset ↦ elim (active d) [
          | none ↦ (d, fault "701")
          | some s ↦ seek_to err offset s d
        ]
      ]

  -- SetAVTransportURI; `allowed` is the answer of the source policy, the request has the fields of the
  -- new session.
  unfoldable pub set_uri_action : Bool → Request → Device S → Device S × Answer
  unfolding next_op active release_guard create_with_base set notify_current
  set_uri_action allowed r d =
      let d₁ = record (gaps.lock d) {
        control_seq = next_op (gaps.lock d).control_seq;
        monitor = none;
      } in
      let d₂ : Device S = elim (active d₁) [ none ↦ d₁ | some old ↦ release_guard old.id d₁ ] in
      let d₃ = set_world (create_with_base api gaps.inside r now d₂.world) d₂ in
      let d₄ = set_cache (set r.id (pos 0) false (pos now) d₃.cache).0 d₃ in
      if allowed then (notify_current r.id "STOPPED" "OK" d₄, done) else (d, fault "714")

  -- GetTransportInfo: the state and the status, after the session is brought in line.
  unfoldable pub get_transport_info : Option PlayerStatus → Device S → Device S × (String × String)
  unfolding sync_current_session_from_backend active transport_state
  get_transport_info poll d =
      let d' = sync_current_session_from_backend api gaps now poll d in
      elim (active d') [ none ↦ (d', ("STOPPED", "OK")) | some s ↦ (d', transport_state s.state) ]

  unfoldable pub set_next_uri_action : String → Device S → Device S
  unfolding active next_uri_section
  set_next_uri_action uri d = elim (active d) [
    | none ↦ d
    | some s ↦ set_world (set_manager d.world (next_uri_section s.id uri (manager d))) d
  ]

  unfoldable pub set_play_mode_action : String → Device S → Device S
  unfolding active play_mode_section
  set_play_mode_action mode d = elim (active d) [
    | none ↦ d
    | some s ↦ set_world (set_manager d.world (play_mode_section s.id mode (manager d))) d
  ]

-- `transportActionsForState`
unfoldable pub transport_actions_for_state : State → String
transport_actions_for_state playing = "Play,Stop,Pause,Seek"
transport_actions_for_state paused = "Play,Stop,Seek"
transport_actions_for_state starting = "Stop"
transport_actions_for_state loaded = "Play"
transport_actions_for_state idle = ""
transport_actions_for_state stopped = ""
transport_actions_for_state error = ""
