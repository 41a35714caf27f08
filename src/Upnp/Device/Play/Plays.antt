-- ===== src/Upnp/Device/Play/Plays.antt =====
-- A Play from its request to its answer, in upnp.go, where no other handler acts during it.
use ma_dlna.Base.{
  ℕ, true, false, List, ◌∷◌, ◌≡◌, refl, sym, ◌∙◌, ap, subst, ◌⊎◌, none, some, String, ◌==◌, arith,
}
use ma_dlna.Session.Types.{State-discrete, loaded, starting, playing, paused, stopped, Session}
use ma_dlna.Session.Manager.{is, moved, set_session, play_section}
use ma_dlna.Session.Ops.{World, set_manager, play}
use ma_dlna.Session.Api.{Api}
use ma_dlna.Upnp.PosCache.{PlayerStatus}
use ma_dlna.Upnp.Device.{
  Device, Gaps, Watch, Answer, done, play_command, active, manager, next_op, command,
}
use ma_dlna.Upnp.Device.Waits.{
  Waited, confirmed, wait_for_backend_playing, no_status, may_play, plays,
}
use ma_dlna.Upnp.Device.Monitor.{start_playback_monitor}
use ma_dlna.Upnp.Device.Guarded.Pause.{
  IsAlone, AreAlone, IsCurrent, current_session-eq, moved-IsCurrent, wait_loop-device,
}
use ma_dlna.Upnp.Device.Play.{
  Ticket, is_overtaken, confirm_position, confirm, await_playing, play_waited, seek_or_wait,
  play_called, play_ticket, play_start, play_action,
}
use ma_dlna.Upnp.Device.Play.Late.{Calls, still_starting}
use ma_dlna.Upnp.Device.Play.Confirmed.{accept_playing-eq, position-IsKept}

module _ {S : Type 0} (api : Api S) (gaps : Gaps S) (calls : Calls S)
    (startup_timeout_seconds now : ℕ) (s : Session) (alone : IsAlone gaps)
    (idle : (s.state ≡ loaded) ⊎ (s.state ≡ stopped)) where
  abbrev pub begun : Session
  begun = moved starting now s

  -- the device while it waits for the backend
  abbrev pub waiting : Device S → Device S
  waiting d = record d {
    control_seq = next_op d.control_seq;
    world = set_manager d.world (set_session (manager d) s.id begun);
    commands = play_command s.stream_url s.source_uri s.metadata ∷ d.commands;
  }

  pub play-eq :
      (w : World S)
      → IsCurrent s w.manager
      → (play api gaps.inside s.id now w).0 ≡ set_manager w (set_session w.manager s.id begun)
  unfolding play play_section
  play-eq w c = ground (arith, c.keyed, idle)

  start-eq :
      (d : Device S)
      → IsCurrent s (manager d)
      → play_start api gaps calls startup_timeout_seconds now s d ≡ waiting d
  unfolding play_start command
  start-eq d c =
      let rests : is s.state paused ≡ false = ground (arith, idle) in
      ground (arith, rests, play-eq d.world c, alone.backend (waiting d))

  pub ticket-eq :
      (d : Device S)
      → play_ticket api gaps calls startup_timeout_seconds now s d ≡ record {
        play_op = next_op d.control_seq;
        position_op = d.position_seq;
        was_paused = false;
        resume_pos = none;
      }
  unfolding play_ticket
  ticket-eq d =
      let rests : is s.state paused ≡ false = ground (arith, idle) in ground (arith, rests)

  -- The device after the Play, from `d`.
  pub record Plays (d d' : Device S) : Type 0 where
    pub session : active d' ≡ some (moved playing now begun)
    pub told : d'.told ≡ ("PLAYING", "OK") ∷ d.told
    pub watched : (w : Watch) × (d'.monitor ≡ some w) × (w.session_id ≡ s.id) × (w.gen_id ≡ 0)

  abbrev pub ticket : Device S → Ticket
  ticket d = record {
    play_op = next_op d.control_seq;
    position_op = d.position_seq;
    was_paused = false;
    resume_pos = none;
  }

  module _ (d : Device S) (c : IsCurrent s (manager d)) where
    pub current-active : active d ≡ some s
    unfolding active
    current-active = current_session-eq s (manager d) c

    pub waiting-IsCurrent : IsCurrent begun (manager (waiting d))
    waiting-IsCurrent = moved-IsCurrent s (manager d) c starting now

    waiting-active : active (waiting d) ≡ some begun
    unfolding active
    waiting-active = current_session-eq begun (manager (waiting d)) waiting-IsCurrent

    not_overtaken :
        is_overtaken api gaps calls startup_timeout_seconds now (ticket d) s (waiting d) ≡ false
    unfolding is_overtaken still_starting State-discrete
    not_overtaken = ground (arith, waiting-active)

    called-eq :
        calls.start ≡ none
        → play_called api gaps calls startup_timeout_seconds now (ticket d) s (waiting d)
          ≡ await_playing api gaps calls startup_timeout_seconds now (ticket d) s (waiting d)
    unfolding play_called seek_or_wait
    called-eq e = rw (play_called, e) (rw not_overtaken refl)

    waited-eq :
        (w : Waited S)
        → w.0 ≡ waiting d
        → w.2 ≡ confirmed
        → play_waited api gaps calls startup_timeout_seconds now (ticket d) s w
          ≡ (confirm api gaps calls startup_timeout_seconds now (ticket d) s w.1 (waiting d), done)
    unfolding play_waited
    waited-eq w e e' =
        let same : w ≡ (waiting d, w.1, confirmed) = λ i. (e i, w.1, e' i) in
        let current : ((waiting d).control_seq == (ticket d).play_op) ≡ true = ground arith in
        rw same (rw current refl)

    action-eq :
        play_action api gaps calls startup_timeout_seconds now d
        ≡ play_called api gaps calls startup_timeout_seconds now (ticket d) s (waiting d)
    unfolding play_action
    action-eq =
        let e : active d ≡ some s = current-active in
        let a : is s.state playing ≡ false = ground (arith, idle) in
        let b : is s.state starting ≡ false = ground (arith, idle) in
        rw (play_action, e) (rw (a, b, ticket-eq d, start-eq d c) refl)

    -- the rounds of the wait, from the device that waits
    abbrev pub waited : Waited S
    waited =
        wait_for_backend_playing s.id s.source_uri true calls.play_deadline calls.play_rounds
          (waiting d)

    waited-device : AreAlone calls.play_rounds → waited.0 ≡ waiting d
    unfolding wait_for_backend_playing
    waited-device h =
        wait_loop-device s.id may_play (plays true s.source_uri) calls.play_deadline
          calls.play_rounds no_status (waiting d) h

    confirm-Plays :
        (status : PlayerStatus)
        → Plays d
            (confirm api gaps calls startup_timeout_seconds now (ticket d) s status (waiting d))
    unfolding confirm active start_playback_monitor
    confirm-Plays status =
        let x =
          confirm_position api gaps calls startup_timeout_seconds now (ticket d) s status
            (waiting d) in
        let kept =
          position-IsKept api gaps calls startup_timeout_seconds now s alone (ticket d) status
            (waiting d) in
        let c' = subst (IsCurrent begun) (sym kept.0) waiting-IsCurrent in
        let e = accept_playing-eq api gaps calls startup_timeout_seconds now begun x c' refl in
        let m = moved-IsCurrent begun (manager x) c' playing now in
        subst (Plays d) (sym e) (record {
          session = current_session-eq (moved playing now begun) _ m;
          told = ap (λ (t : List (String × String)). ("PLAYING", "OK") ∷ t) kept.1;
          watched = (_, refl, refl, refl);
        })

    await-eq :
        AreAlone calls.play_rounds
        → waited.2 ≡ confirmed
        → await_playing api gaps calls startup_timeout_seconds now (ticket d) s (waiting d) ≡ (
          confirm api gaps calls startup_timeout_seconds now (ticket d) s waited.1 (waiting d),
          done,
        )
    unfolding await_playing
    await-eq h e = waited-eq waited (waited-device h) e

    -- A Play of the current session, loaded or stopped, with no other handler acting during it: if the
    -- backend takes the request and a status confirms it in time, the Play is answered with success, the
    -- session plays, the subscribers are told so, and a monitor watches the session. That holds whether
    -- the position was rebased or not, and whether the seek of the rebase failed or not.
    pub play_action-Plays :
        calls.start ≡ none
        → AreAlone calls.play_rounds
        → waited.2 ≡ confirmed
        → Plays d (play_action api gaps calls startup_timeout_seconds now d).0
          × ((play_action api gaps calls startup_timeout_seconds now d).1 ≡ done)
    play_action-Plays ok h e =
        let same = action-eq ∙ called-eq ok ∙ await-eq h e in
        subst (λ (r : Device S × Answer). Plays d r.0 × (r.1 ≡ done)) (sym same)
          (confirm-Plays waited.1, refl)
