-- ===== src/Upnp/Device/Play.antt =====
-- internal/upnp/upnp.go: the action Play of `serveAVTransport`. It takes no lock: it draws a number, and
-- after each call of the backend it tests that no later control operation has drawn another.
pub mod Late
pub mod Overtaken
pub mod Confirmed
pub mod Plays
use ma_dlna.Base.{
  ℕ, Bool, true, false, not, ◌&&◌, ◌||◌, Option, none, some, String, eqb, ◌==◌, if◌then◌else◌,
}
use ma_dlna.Base.Int.{ℤ, pos, ltb_ℤ}
use ma_dlna.Session.Types.{Session, playing, starting, paused}
use ma_dlna.Session.Manager.{is, is_current_generation_active, set_playing_accepted_if_generation}
use ma_dlna.Session.Ops.{set_manager, play}
use ma_dlna.Session.Api.{Api}
use ma_dlna.Upnp.PosCache.{
  PlayerStatus, fresh_play_rebase_min, two_seconds, reset, set, estimate, guard_zero,
  cache_backend_position,
}
use ma_dlna.Upnp.IdleDebounce.{ten_seconds}
use ma_dlna.Upnp.Device.{
  Device, Gaps, Answer, done, fault, Command, pause_command, resume_command, seek_command,
  play_command, active, manager, set_world, set_cache, next_op, release_guard, command,
  stop_with_error,
}
use ma_dlna.Upnp.Device.Waits.{Waited, confirmed, interrupted, timeout, wait_for_backend_playing}
use ma_dlna.Upnp.Device.Monitor.{notify_playing}
use ma_dlna.Upnp.Device.Play.Late.{
  Calls, still_starting, fresh_play_rebase_still_current, try_rebase_fresh_play, pause_late,
  reconcile_late_play_completion,
}

abbrev timed_out_message : String
timed_out_message = "timed out waiting for Music Assistant to report playing"

-- A position from which a resumed session is sought.
abbrev pub is_far : Option ℤ → Bool
is_far none = false
is_far (some p) = ltb_ℤ two_seconds p

-- A position that a fresh play may be rebased from.
abbrev pub is_near : Option ℤ → Bool
is_near none = true
is_near (some p) = not (ltb_ℤ fresh_play_rebase_min p)

-- The numbers that a Play has drawn or read, and the position from which it resumes.
pub record Ticket : Type 0 where
  pub play_op : ℕ
  pub position_op : ℕ
  pub was_paused : Bool
  pub resume_pos : Option ℤ

module _ {S : Type 0} (api : Api S) (gaps : Gaps S) (calls : Calls S)
    (startup_timeout_seconds now : ℕ) where
  -- `SetPlayingAcceptedIfGeneration` and `NotifyPlaying`
  unfoldable pub accept_playing : String → Device S → Device S
  unfolding set_playing_accepted_if_generation notify_playing
  accept_playing sid d =
      let (m, accepted) = set_playing_accepted_if_generation sid 0 now (manager d) in
      let d' = set_world (set_manager d.world m) d in
      if accepted then notify_playing startup_timeout_seconds sid 0 now d' else d'

  -- the end of the time for the backend to play
  unfoldable pub give_up : String → Device S → Device S × Answer
  unfolding reset stop_with_error
  give_up sid d =
      (stop_with_error api gaps.inside sid timed_out_message now (set_cache reset d), fault "501")

  unfoldable pub cache_status : String → PlayerStatus → Device S → Device S
  unfolding cache_backend_position
  cache_status sid status d =
      set_cache (cache_backend_position sid status true (pos now) d.cache).0 d

  -- A rebase where `ok` says so, and the position that the backend has reported where there is none.
  unfoldable pub rebase_or_cache : Bool → Ticket → String → PlayerStatus → Device S → Device S
  unfolding try_rebase_fresh_play cache_status fresh_play_rebase_still_current
  rebase_or_cache ok t sid status d =
      let (d', rebased) =
        try_rebase_fresh_play gaps calls now sid t.play_op t.position_op status d in
      if ok && fresh_play_rebase_still_current sid t.play_op t.position_op d
      then (if rebased then d' else cache_status sid status d')
      else cache_status sid status d

  -- Play of a session that is starting already: it waits with the other.
  unfoldable pub join_waited : Ticket → Session → Waited S → Device S × Answer
  unfolding rebase_or_cache accept_playing give_up
  join_waited t s (d, status, confirmed) =
      (accept_playing s.id (rebase_or_cache (is_near t.resume_pos) t s.id status d), done)
  join_waited t s (d, status, interrupted) = (d, done)
  join_waited t s (d, status, timeout) = give_up s.id d

  unfoldable pub join : Session → Device S → Device S × Answer
  unfolding estimate wait_for_backend_playing join_waited
  join s d =
      let (c, p) = estimate s.id false (pos now) d.cache in
      let t : Ticket = record {
        play_op = d.control_seq;
        position_op = d.position_seq;
        was_paused = false;
        resume_pos = p;
      } in
      join_waited t s (
        wait_for_backend_playing s.id s.source_uri true calls.play_deadline calls.play_rounds
          (set_cache c d))

  -- The position of a Play that the backend confirms.
  unfoldable pub confirm_position : Ticket → Session → PlayerStatus → Device S → Device S
  unfolding try_rebase_fresh_play fresh_play_rebase_still_current cache_status estimate guard_zero
      accept_playing
  confirm_position t s status d =
      let (d', did) = try_rebase_fresh_play gaps calls now s.id t.play_op t.position_op status d in
      let fresh =
        not t.was_paused && fresh_play_rebase_still_current s.id t.play_op t.position_op d in
      let d₁ = if fresh then d' else d in
      let cached = if fresh && did then d₁ else cache_status s.id status d₁ in
      let guessed = set_cache (estimate s.id true (pos now) d₁.cache).0 d₁ in
      let d₂ = if d₁.position_seq == t.position_op then cached else guessed in
      let guarded = set_cache (guard_zero s.id ten_seconds (pos now) d₂.cache) d₂ in
      if t.was_paused && is_far t.resume_pos && d₂.position_seq == t.position_op
      then guarded
      else d₂

  -- The confirmation of a Play that no later operation has overtaken.
  unfoldable pub confirm : Ticket → Session → PlayerStatus → Device S → Device S
  unfolding confirm_position accept_playing
  confirm t s status d = accept_playing s.id (confirm_position t s status d)

  unfoldable pub play_waited : Ticket → Session → Waited S → Device S × Answer
  unfolding reconcile_late_play_completion confirm active pause_late give_up
  play_waited t s (d, status, confirmed) =
      if not (d.control_seq == t.play_op)
      then (reconcile_late_play_completion gaps calls now s.id d, done)
      else (confirm t s status d, done)
  play_waited t s (d, status, interrupted) = elim (active d) [
    | none ↦ (d, done)
    | some cur ↦
        if eqb cur.id s.id && is cur.state paused
        then (pause_late gaps calls now s.id d, done)
        else (d, done)
  ]
  play_waited t s (d, status, timeout) =
      if not (d.control_seq == t.play_op)
      then (reconcile_late_play_completion gaps calls now s.id d, done)
      else give_up s.id d

  unfoldable pub await_playing : Ticket → Session → Device S → Device S × Answer
  unfolding wait_for_backend_playing play_waited
  await_playing t s d = play_waited t s (
      wait_for_backend_playing s.id s.source_uri (not t.was_paused) calls.play_deadline
        calls.play_rounds d)

  -- A later operation, or another state of the session, has overtaken the Play.
  unfoldable pub is_overtaken : Ticket → Session → Device S → Bool
  unfolding still_starting
  is_overtaken t s d = not (d.control_seq == t.play_op) || not (still_starting s.id d)

  -- The seek to the position from which the session resumes, and the wait.
  unfoldable pub seek_resumed : Ticket → Session → ℤ → Device S → Device S × Answer
  unfolding command is_overtaken reconcile_late_play_completion stop_with_error set guard_zero
      await_playing
  seek_resumed t s p d =
      let d₁ = command gaps (seek_command p) d in
      let c = guard_zero s.id ten_seconds (pos now) (set s.id p false (pos now) d₁.cache).0 in
      if is_overtaken t s d₁
      then (reconcile_late_play_completion gaps calls now s.id d₁, done)
      else elim calls.seek [
        | some message ↦ (
          stop_with_error api gaps.inside s.id message now (command gaps pause_command d₁),
          fault "501",
        )
        | none ↦ await_playing t s (set_cache c d₁)
      ]

  unfoldable pub seek_or_wait : Ticket → Session → Option ℤ → Device S → Device S × Answer
  unfolding seek_resumed await_playing
  seek_or_wait t s none d = await_playing t s d
  seek_or_wait t s (some p) d =
      if t.was_paused && ltb_ℤ two_seconds p && d.position_seq == t.position_op
      then seek_resumed t s p d
      else await_playing t s d

  -- After the backend was told to play or to resume.
  unfoldable pub play_called : Ticket → Session → Device S → Device S × Answer
  unfolding reconcile_late_play_completion is_current_generation_active release_guard
      stop_with_error is_overtaken seek_or_wait
  play_called t s d = elim calls.start [
    | some message ↦
        if not (d.control_seq == t.play_op)
        then (reconcile_late_play_completion gaps calls now s.id d, done)
        else if not (is_current_generation_active s.id 0 (manager d))
        then (release_guard s.id d, done)
        else (stop_with_error api gaps.inside s.id message now d, fault "501")
    | none ↦
        if is_overtaken t s d
        then (reconcile_late_play_completion gaps calls now s.id d, done)
        else seek_or_wait t s t.resume_pos d
  ]

  -- The start: the numbers, the session, and the call of the backend.
  unfoldable pub play_ticket : Session → Device S → Ticket
  unfolding next_op estimate
  play_ticket s d = record {
    play_op = next_op d.control_seq;
    position_op = d.position_seq;
    was_paused = is s.state paused;
    resume_pos = if is s.state paused then (estimate s.id false (pos now) d.cache).1 else none;
  }

  unfoldable pub play_start : Session → Device S → Device S
  unfolding next_op estimate guard_zero release_guard play command
  play_start s d =
      let d₁ = record d { control_seq = next_op d.control_seq } in
      let c = guard_zero s.id ten_seconds (pos now) (estimate s.id false (pos now) d₁.cache).0 in
      let d₂ = if is s.state paused then release_guard s.id (set_cache c d₁) else d₁ in
      let d₃ = set_world (play api gaps.inside s.id now d₂.world).0 d₂ in
      let c : Command =
        if is s.state paused
        then resume_command
        else play_command s.stream_url s.source_uri s.metadata in
      command gaps c d₃

  unfoldable pub play_action : Device S → Device S × Answer
  unfolding active join play_ticket play_start play_called
  play_action d = elim (active d) [
    | none ↦ (d, fault "701")
    | some s ↦
        if is s.state playing
        then (d, done)
        else if is s.state starting
        then join s d
        else play_called (play_ticket s d) s (play_start s d)
  ]
