-- ===== src/Upnp/Device/Play/Overtaken.antt =====
-- A Play that a Stop overtakes while the backend is called, in upnp.go.
use ma_dlna.Base.{
  ℕ, true, false, [], List, ◌∷◌, ◌≡◌, refl, ◌∙◌, ap, some, none, Option, String, eqb, ◌==◌, arith,
  inl, inr, Option-cases, ◌⊎◌,
}
use ma_dlna.Session.Types.{starting, playing, paused, stopped, loaded, error, Session}
use ma_dlna.Session.Manager.{is, moved}
use ma_dlna.Session.Api.{Api}
use ma_dlna.Upnp.Device.{
  Device, Gaps, Command, play_command, resume_command, pause_command, seek_command, done,
  stop_command, active, manager, command, next_op,
}
use ma_dlna.Upnp.Device.Transport.{stop_action}
use ma_dlna.Upnp.Device.Stops.{Stops, ended, told_status, stop_action-Stops}
use ma_dlna.Upnp.Device.Guarded.Pause.{IsAlone, IsCurrent}
use ma_dlna.Upnp.Device.Play.{
  Ticket, is_overtaken, play_called, play_ticket, play_start, play_action,
}
use ma_dlna.Upnp.Device.Play.Plays.{waiting, play-eq, waiting-IsCurrent, current-active}
use ma_dlna.Upnp.Device.Play.Late.{Calls, reconcile_late_play_completion}

next_op-differs : (n : ℕ) → (next_op (next_op n) == next_op n) ≡ false
unfolding next_op
next_op-differs n = ground arith

module _ {S : Type 0} (api : Api S) (gaps : Gaps S) (calls : Calls S)
    (startup_timeout_seconds now : ℕ) where
  reconcile-stops :
      (sid : String) (cur : Session) (d : Device S)
      → active d ≡ some cur
      → cur.id ≡ sid
      → (cur.state ≡ stopped) ⊎ (cur.state ≡ error)
      → reconcile_late_play_completion gaps calls now sid d ≡ command gaps stop_command d
  unfolding reconcile_late_play_completion
  reconcile-stops sid cur d e same st =
      let own : eqb cur.id sid ≡ true = ground (arith, same) in
      rw (reconcile_late_play_completion, e) (ground (arith, own, st))

  -- the last part of a Play whose number is no longer the last one
  called-overtaken :
      (t : Ticket) (s : Session) (d : Device S)
      → (d.control_seq == t.play_op) ≡ false
      → play_called api gaps calls startup_timeout_seconds now t s d
        ≡ (reconcile_late_play_completion gaps calls now s.id d, done)
  unfolding play_called
  called-overtaken t s d e = elim (Option-cases calls.start) [
    | inl ok ↦
        let late : is_overtaken api gaps calls startup_timeout_seconds now t s d ≡ true =
          rw (is_overtaken, e) refl in
        rw (play_called, ok) (rw late refl)
    | inr (message, err) ↦ rw (play_called, err) (rw e refl)
  ]

-- Another handler's Stop at `later`, in which the backend returns `err`, while the backend is called to
-- play; nobody acts during the other calls, nor during that Stop.
module _ {S : Type 0} (api : Api S) (later : ℕ) (err : Option String) where
  abbrev pub alone : Gaps S
  alone = record { inside = λ w. w; lock = λ d. d; backend = λ d. d }

  alone-IsAlone : IsAlone alone
  alone-IsAlone = record { inside = λ w. refl; lock = λ d. refl; backend = λ d. refl }

  pub stop_during : List Command → Device S → Device S
  stop_during [] d = d
  stop_during (play_command url uri metadata ∷ commands) d = (stop_action api alone later err d).0
  stop_during (resume_command ∷ commands) d = d
  stop_during (pause_command ∷ commands) d = d
  stop_during (stop_command ∷ commands) d = d
  stop_during (seek_command p ∷ commands) d = d

  abbrev pub overtaking : Gaps S
  overtaking = record { inside = λ w. w; lock = λ d. d; backend = λ d. stop_during d.commands d }

module _ {S : Type 0} (api : Api S) (calls : Calls S) (startup_timeout_seconds now later : ℕ)
    (err : Option String) (s : Session) (idle : (s.state ≡ loaded) ⊎ (s.state ≡ stopped)) where
  abbrev pub start_of : Session
  start_of = moved starting now s

  -- The device after a Play that a Stop has overtaken, from `d`.
  pub record Overtaken (d d' : Device S) : Type 0 where
    pub session : active d' ≡ some (ended api (alone api later err) later start_of err)
    pub streamer : d'.world.streamer ≡ api.stop s.id d.world.streamer
    pub monitor : d'.monitor ≡ none
    pub told :
        d'.told ≡ ("STOPPED", told_status api (alone api later err) later start_of err) ∷ d.told
    pub commands :
        d'.commands
        ≡ stop_command
          ∷ stop_command
          ∷ play_command s.stream_url s.source_uri s.metadata
          ∷ d.commands

  module _ (d : Device S) (c : IsCurrent s (manager d)) where
    -- the device when the backend is called to play
    abbrev called : Device S
    called =
        waiting api (alone api later err) calls startup_timeout_seconds now s
          (alone-IsAlone api later err) idle d

    abbrev halted : Device S
    halted = (stop_action api (alone api later err) later err called).0

    halted-Stops : Stops api (alone api later err) later start_of err called halted
    halted-Stops =
        (stop_action-Stops api (alone api later err) later start_of (alone-IsAlone api later err)
          called
          (waiting-IsCurrent api (alone api later err) calls startup_timeout_seconds now s
            (alone-IsAlone api later err) idle d c)
          err).0

    start-halted :
        play_start api (overtaking api later err) calls startup_timeout_seconds now s d ≡ halted
    unfolding play_start command stop_during
    start-halted =
        let rests : is s.state paused ≡ false = ground (arith, idle) in
        let played =
          play-eq api (alone api later err) calls startup_timeout_seconds now s
            (alone-IsAlone api later err) idle d.world c in
        rw (play_start, rests) (rw played refl)

    action-halted :
        play_action api (overtaking api later err) calls startup_timeout_seconds now d
        ≡ play_called api
            (overtaking api later err)
            calls
            startup_timeout_seconds
            now
            (play_ticket api (overtaking api later err) calls startup_timeout_seconds now s d)
            s
            halted
    unfolding play_action
    action-halted =
        let e : active d ≡ some s =
          current-active api (alone api later err) calls startup_timeout_seconds now s
            (alone-IsAlone api later err) idle d c in
        let a : is s.state playing ≡ false = ground (arith, idle) in
        let b : is s.state starting ≡ false = ground (arith, idle) in
        rw (play_action, e) (rw (a, b, start-halted) refl)

    number : (halted.control_seq == next_op d.control_seq) ≡ false
    number = rw halted-Stops.number (next_op-differs d.control_seq)

    ended-rests :
        (e : Option String)
        → let t = ended api (alone api later err) later start_of e in
          (t.id ≡ s.id) × ((t.state ≡ stopped) ⊎ (t.state ≡ error))
    ended-rests none = (refl, inl refl)
    ended-rests (some message) = (refl, inr refl)

    halted-eq :
        play_action api (overtaking api later err) calls startup_timeout_seconds now d
        ≡ (record halted { commands = stop_command ∷ halted.commands }, done)
    unfolding command stop_during play_ticket
    halted-eq =
        let (same, rests) = ended-rests err in
        action-halted
        ∙ called-overtaken api (overtaking api later err) calls startup_timeout_seconds now
            (play_ticket api (overtaking api later err) calls startup_timeout_seconds now s d) s
            halted number
        ∙ ap (λ (x : Device S). (x, done))
            (reconcile-stops api (overtaking api later err) calls startup_timeout_seconds now s.id
              (ended api (alone api later err) later start_of err) halted halted-Stops.session same
              rests)

    -- If the session is current and loaded or stopped, and another handler's Stop runs while the backend
    -- is called to play, then the Stop wins, whether the call returns an error or not and whether that
    -- Stop's own call does: the Play answers with success, tells no event, starts no monitor and leaves
    -- the session as the Stop left it, and the backend is told once more to stop, after the play and the
    -- stop of the other handler. Nobody else acts.
    pub play_action-Overtaken :
        Overtaken d
          (play_action api (overtaking api later err) calls startup_timeout_seconds now d).0
        × ((play_action api (overtaking api later err) calls startup_timeout_seconds now d).1
            ≡ done)
    unfolding active
    play_action-Overtaken = rw halted-eq (
      record {
        session = halted-Stops.session;
        streamer = halted-Stops.streamer;
        monitor = halted-Stops.monitor;
        told = halted-Stops.told;
        commands = ap (λ cs. stop_command ∷ cs) halted-Stops.commands;
      },
      refl,
    )
