-- ===== src/Upnp/Device/Monitor.antt =====
-- internal/upnp/upnp.go: `startPlaybackMonitor`, the goroutine that follows the playback of a session, and
-- `NotifyPlaying`, which starts it. One poll of the monitor is one definition.
use ma_dlna.Base.{
  ℕ, ◌+◌, ◌*◌, true, false, not, ◌&&◌, ◌||◌, Option, none, some, String, eqb, max, if◌then◌else◌,
}
use ma_dlna.Base.Int.{pos}
use ma_dlna.Session.Types.{Session, playing, paused, stopped, error}
use ma_dlna.Session.Manager.{is, verify_gen_id, is_current_generation_state}
use ma_dlna.Session.Ops.{stop_if_generation}
use ma_dlna.Session.Api.{Api}
use ma_dlna.Upnp.PosCache.{
  PosCache, PlayerStatus, reset, estimate, cache_backend_position, should_ignore_playing,
}
use ma_dlna.Upnp.IdleDebounce.{update}
use ma_dlna.Upnp.Device.{
  Device, Gaps, Watch, active, manager, set_world, set_cache, notify_current, mark_playing,
  mark_paused,
}

module _ {S : Type 0} where
  -- A monitor replaces the one before. Its grace is the timeout of the startup, and ten seconds at least.
  unfoldable pub start_playback_monitor : ℕ → String → ℕ → ℕ → Device S → Device S
  start_playback_monitor startup_timeout_seconds sid gen_id now d = record d {
    monitor = some (record {
      session_id = sid;
      gen_id = gen_id;
      debounce = record {
        was_playing = true;
        idle_since = none;
        startup_grace_till = some (pos (now + max startup_timeout_seconds 10 * 1000000000));
        last_emitted = "";
      };
    });
  }

  unfoldable pub stop_playback_monitor : Device S → Device S
  stop_playback_monitor d = record d { monitor = none }

  unfoldable pub notify_playing : ℕ → String → ℕ → ℕ → Device S → Device S
  unfolding is_current_generation_state notify_current start_playback_monitor
  notify_playing startup_timeout_seconds sid gen_id now d =
      if is_current_generation_state sid gen_id playing (manager d)
      then start_playback_monitor startup_timeout_seconds sid gen_id now
          (notify_current sid "PLAYING" "OK" d)
      else d

  -- The session that the monitor still has to watch.
  unfoldable pub watched : Watch → Device S → Option Session
  unfolding active verify_gen_id
  watched m d = elim (active d) [
    | none ↦ none
    | some cur ↦
        if not (eqb cur.id m.session_id) || not (verify_gen_id m.session_id m.gen_id (manager d))
        then none
        else if is cur.state stopped || is cur.state error
        then none
        else some cur
  ]

module _ {S : Type 0} (api : Api S) (gaps : Gaps S) (now : ℕ) where
  -- A poll of a paused session, which the backend may have resumed.
  unfoldable pub poll_paused : Watch → String → Device S → Device S
  unfolding should_ignore_playing mark_playing
  poll_paused m state d =
      if eqb state "playing" && not (should_ignore_playing m.session_id d.guard)
      then mark_playing m.session_id m.gen_id now d
      else d

  -- The end of the playback.
  unfoldable pub poll_stopped : Watch → Device S → Device S
  unfolding stop_if_generation reset notify_current
  poll_stopped m d =
      let (w, ended) =
        stop_if_generation api gaps.inside gaps.inside m.session_id m.gen_id now d.world in
      let d' = set_world w d in
      if ended then notify_current m.session_id "STOPPED" "OK" (set_cache reset d') else d'

  -- A pause at the player; `status` is the answer of `GetStatus`.
  unfoldable pub poll_pauses : Watch → Option PlayerStatus → Device S → Device S
  unfolding cache_backend_position estimate mark_paused
  poll_pauses m status d =
      let cached : PosCache = elim status [
        | some st ↦ (cache_backend_position m.session_id st false (pos now) d.cache).0
        | none ↦ (estimate m.session_id false (pos now) d.cache).0
      ] in
      mark_paused m.session_id m.gen_id now (set_cache cached d)

  -- One tick: the monitor that goes on, if it does, and the device. `state` is the answer of `GetState`.
  unfoldable pub monitor_poll :
      Option String → Option PlayerStatus → Watch → Device S → Option Watch × Device S
  unfolding watched poll_paused update poll_stopped poll_pauses
  monitor_poll state status m d = elim (watched m d) [
    | none ↦ (none, d)
    | some cur ↦ elim state [
      | none ↦ (some m, gaps.backend d)
      | some st ↦
          let d' = gaps.backend d in
          let (debounce, _, event) = update st (pos now) m.debounce in
          let m' = record m { debounce = debounce } in
          if is cur.state paused
          then (some m, poll_paused m st d')
          else if eqb event "STOPPED"
          then (none, poll_stopped m d')
          else if eqb event "PAUSED_PLAYBACK"
          then (some m', poll_pauses m status (gaps.backend d'))
          else (some m', d')
    ]
  ]
