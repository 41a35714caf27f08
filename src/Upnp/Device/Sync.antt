-- ===== src/Upnp/Device/Sync.antt =====
-- internal/upnp/upnp.go: the position of a session, `playbackPositionForSession`, and the session that is
-- brought in line with the backend, `syncCurrentSessionFromBackend`.
use ma_dlna.Base.{ℕ, Bool, false, not, ◌&&◌, ◌||◌, Option, none, some, eqb, if◌then◌else◌}
use ma_dlna.Base.Int.{ℤ, pos, ltb_ℤ}
use ma_dlna.Session.Types.{Session, playing, paused, starting}
use ma_dlna.Session.Manager.{is}
use ma_dlna.Session.Ops.{stop_if_generation}
use ma_dlna.Session.Api.{Api}
use ma_dlna.Upnp.PosCache.{
  PosCache, PlayerStatus, two_seconds, reset, set, estimate, guarded_zero,
  suppress_fresh_zero_stale, corrected_playback_position, cache_backend_position,
  should_ignore_playing,
}
use ma_dlna.Upnp.IdleDebounce.{Kind, kind_of}
use ma_dlna.Upnp.Device.{
  Device, Gaps, active, set_cache, set_world, notify_current, mark_playing, mark_paused,
}

module _ (s : Session) (elapsed : ℤ) (now : ℤ) where
  -- the estimate, or the position of the stream
  unfoldable pub estimated : Bool → PosCache → PosCache × ℤ
  unfolding estimate
  estimated running c =
      let (c', found) = estimate s.id running now c in
      elim found [ some p ↦ (c', p) | none ↦ (c', elapsed) ]

  -- a position that nothing holds back
  unfoldable pub settle : ℤ → Bool → PosCache → PosCache × ℤ
  unfolding guarded_zero set
  settle p running c =
      let (c', guarded) = guarded_zero s.id p running now c in
      elim guarded [ some cached ↦ (c', cached) | none ↦ set s.id p running now c' ]

  -- the estimate in place of a position near 0 that an idle backend reports
  unfoldable pub bridge_idle : ℤ → Bool → PosCache → PosCache × ℤ
  unfolding estimate settle
  bridge_idle p running c =
      let (c', found) = estimate s.id running now c in
      let rest = settle p running c' in
      elim found [
        | none ↦ rest
        | some cached ↦ if ltb_ℤ two_seconds cached then (c', cached) else rest
      ]

  unfoldable pub reported : PlayerStatus → ℤ → Bool → PosCache → PosCache × ℤ
  unfolding suppress_fresh_zero_stale bridge_idle settle
  reported status p running c =
      let (c', held) = suppress_fresh_zero_stale s.id p running now c in
      elim held [
        | some cached ↦ (c', cached)
        | none ↦
            if eqb status.state "idle" && not (ltb_ℤ two_seconds p)
            then bridge_idle p running c'
            else settle p running c'
      ]

  -- `elapsed` is the position of the stream; `poll` is `none` where `GetStatus` fails.
  unfoldable pub playback_position : Option PlayerStatus → PosCache → PosCache × ℤ
  unfolding estimated reported corrected_playback_position
  playback_position poll c =
      let running = is s.state playing in
      let polled : PosCache × ℤ = elim poll [
        | none ↦ estimated running c
        | some status ↦ elim (corrected_playback_position status now) [
          | none ↦ estimated running c
          | some p ↦ reported status p running c
        ]
      ] in
      if is s.state starting
      then estimated false c
      else if is s.state playing || is s.state paused
      then polled
      else estimated running c

module _ {S : Type 0} (api : Api S) (gaps : Gaps S) (now : ℕ) where
  -- What a status changes of the session `s`, which was playing or paused.
  unfoldable pub follow : Session → PlayerStatus → Device S → Device S
  unfolding kind_of mark_playing mark_paused cache_backend_position should_ignore_playing
      notify_current stop_if_generation reset
  follow s status d = elim (kind_of status.state) [
    | Kind.playing ↦
        if is s.state paused && should_ignore_playing s.id d.guard
        then d
        else mark_playing s.id 0 now d
    | Kind.paused ↦
        let (c, p) = cache_backend_position s.id status false (pos now) d.cache in
        mark_paused s.id 0 now (set_cache c d)
    | Kind.idle ↦
        let (w, stopped) = stop_if_generation api gaps.inside gaps.inside s.id 0 now d.world in
        let d' = set_world w d in
        let ended = notify_current s.id "STOPPED" "OK" (set_cache reset d') in
        if is s.state paused then d else if stopped then ended else d'
    | Kind.other ↦ d
  ]

  unfoldable pub sync_current_session_from_backend : Option PlayerStatus → Device S → Device S
  unfolding active follow
  sync_current_session_from_backend poll d = elim (active d) [
    | none ↦ d
    | some s ↦
        if not (is s.state playing || is s.state paused)
        then d
        else elim poll [ none ↦ gaps.backend d | some status ↦ follow s status (gaps.backend d) ]
  ]
