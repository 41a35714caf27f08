-- ===== src/Upnp/Device/Stops.antt =====
-- What Stop does, in upnp.go, where no other handler acts during it.
use ma_dlna.Base.{ℕ, true, ◌∷◌, ◌≡◌, refl, ◌∙◌, ap, Option, none, some, String, arith}
use ma_dlna.Base.Dict.{lookup-insert}
use ma_dlna.Session.Types.{stopped, Session}
use ma_dlna.Session.Manager.{
  moved, broken, set_session, stop_section, set_error_if_generation as error_section,
}
use ma_dlna.Session.Ops.{set_manager, stop, set_error_if_generation}
use ma_dlna.Session.Api.{Api}
use ma_dlna.Upnp.PosCache.{reset, clear_pause}
use ma_dlna.Upnp.Device.{
  Device, Gaps, Answer, done, fault, stop_command, active, command, notify_current, release_guard,
  set_error, set_world, next_op,
}
use ma_dlna.Upnp.Device.Transport.{stop_locked, stop_action}
use ma_dlna.Upnp.Device.Guarded.Pause.{IsAlone, IsCurrent, current_session-eq, moved-IsCurrent}

module _ {S : Type 0} (api : Api S) (gaps : Gaps S) (now : ℕ) (s : Session) where
  -- The session after Stop, the status of the event, and the answer.
  abbrev pub ended : Option String → Session
  ended none = moved stopped now s
  ended (some message) = broken message now (moved stopped now s)

  abbrev pub told_status : Option String → String
  told_status none = "OK"
  told_status (some message) = "ERROR_OCCURRED"

  abbrev pub answer_of : Option String → Answer
  answer_of none = done
  answer_of (some message) = fault "501"

  -- When the backend is called, whatever it lets others do, the session and the stream are stopped, the
  -- monitor is cancelled and the position is forgotten; and nothing is left to do under the lock.
  pub record CallsLast (d : Device S) : Type 0 where
    pub called : Device S
    pub session : active called ≡ some (moved stopped now s)
    pub streamer : called.world.streamer ≡ api.stop s.id d.world.streamer
    pub monitor : called.monitor ≡ none
    pub cache : called.cache ≡ reset
    pub last :
        (backend : Device S → Device S)
        → stop_locked api (record gaps { backend = backend }) now s d ≡ backend called

  -- The device after Stop, from `d`.
  pub record Stops (err : Option String) (d d' : Device S) : Type 0 where
    pub order : CallsLast d
    pub number : d'.control_seq ≡ next_op d.control_seq
    pub session : active d' ≡ some (ended err)
    pub streamer : d'.world.streamer ≡ api.stop s.id d.world.streamer
    pub monitor : d'.monitor ≡ none
    pub cache : d'.cache ≡ reset
    pub guard : ¬ (d'.guard ≡ s.id)
    pub commands : d'.commands ≡ stop_command ∷ d.commands
    pub told : d'.told ≡ ("STOPPED", told_status err) ∷ d.told

module _ {S : Type 0} (api : Api S) (gaps : Gaps S) (now : ℕ) (s : Session) (alone : IsAlone gaps)
    (d : Device S) (c : IsCurrent s d.world.manager) where
  -- the device when the lock of the commands is released
  abbrev after : Device S
  after = record d {
    control_seq = next_op d.control_seq;
    monitor = none;
    world = record d.world {
      manager = set_session d.world.manager s.id (moved stopped now s);
      streamer = api.stop s.id d.world.streamer;
    };
    guard = clear_pause s.id d.guard;
    cache = reset;
    commands = stop_command ∷ d.commands;
  }

  stop-eq : (stop api gaps.inside s.id now d.world).0 ≡ after.world
  unfolding stop stop_section
  stop-eq =
      let w = set_manager d.world (set_session d.world.manager s.id (moved stopped now s)) in
      ground (arith, c.keyed, alone.inside w)

  stop_locked-called :
      (backend : Device S → Device S)
      → stop_locked api (record gaps { backend = backend }) now s d ≡ backend after
  unfolding stop_locked command release_guard
  stop_locked-called backend = rw (stop_locked, alone.lock d) (rw (stop-eq) refl)

  stop_locked-eq : stop_locked api gaps now s d ≡ after
  stop_locked-eq = stop_locked-called gaps.backend ∙ alone.backend after

  after-IsCurrent : IsCurrent (moved stopped now s) after.world.manager
  after-IsCurrent = moved-IsCurrent s d.world.manager c stopped now

  after-CallsLast : CallsLast api gaps now s d
  unfolding active
  after-CallsLast = record {
    called = after;
    session = current_session-eq (moved stopped now s) after.world.manager after-IsCurrent;
    streamer = refl;
    monitor = refl;
    cache = refl;
    last = stop_locked-called;
  }

  -- the device with the error of the backend
  abbrev failed : String → Device S
  failed message =
      set_world
        (record after.world {
          manager = set_session after.world.manager s.id (broken message now (moved stopped now s));
          notified = (s.id, message) ∷ d.world.notified;
        })
        after

  failed-IsCurrent :
      (message : String)
      → IsCurrent (ended api gaps now s (some message)) (failed message).world.manager
  failed-IsCurrent message = record {
    named = c.named;
    id = c.id;
    keyed = ground (
      arith,
      lookup-insert s.id s.id (broken message now (moved stopped now s))
          after.world.manager.sessions,
    );
  }

  error-eq :
      (message : String)
      → set_error_if_generation api s.id 0 message now after.world ≡ ((failed message).world, true)
  unfolding set_error_if_generation error_section
  error-eq message = ground (arith, after-IsCurrent.keyed)

  notify-eq :
      (t : Session) (status : String) (x : Device S)
      → active x ≡ some t
      → t.id ≡ s.id
      → notify_current s.id "STOPPED" status x ≡ record x { told = ("STOPPED", status) ∷ x.told }
  unfolding notify_current
  notify-eq t status x e same = ground (arith, e, same)

  set_error-eq :
      (message : String)
      → set_error api s.id message now after
        ≡ record (failed message) { told = ("STOPPED", "ERROR_OCCURRED") ∷ d.told }
  unfolding set_error active
  set_error-eq message =
      rw (set_error, error-eq message)
        (notify-eq (ended api gaps now s (some message)) "ERROR_OCCURRED" (failed message)
          (current_session-eq _ _ (failed-IsCurrent message)) refl)

  guard-free : ¬ (clear_pause s.id d.guard ≡ s.id)
  unfolding clear_pause
  guard-free e = ground (arith, e, c.named)

  active-eq : active d ≡ some s
  unfolding active
  active-eq = current_session-eq s d.world.manager c

  accepted-eq :
      stop_action api gaps now none d ≡ (record after { told = ("STOPPED", "OK") ∷ d.told }, done)
  unfolding stop_action active
  accepted-eq =
      let told =
        notify-eq (moved stopped now s) "OK" after
          (current_session-eq (moved stopped now s) after.world.manager after-IsCurrent) refl in
      rw (stop_action, active-eq) (rw stop_locked-eq (ap (λ (x : Device S). (x, done)) told))

  refused-eq :
      (message : String)
      → stop_action api gaps now (some message) d
        ≡ (record (failed message) { told = ("STOPPED", "ERROR_OCCURRED") ∷ d.told }, fault "501")
  unfolding stop_action
  refused-eq message =
      rw (stop_action, active-eq)
        (rw stop_locked-eq (ap (λ (x : Device S). (x, fault "501")) (set_error-eq message)))

  -- Stop of the current session, with no other handler acting during it, draws a number, stops the
  -- session and the stream, cancels the monitor, forgets the position, no longer ignores reports of
  -- playing, and calls the backend when all this is done, whatever the backend lets others do. If the
  -- backend accepts, the session is stopped, the subscribers are told so, and the answer is a success. If
  -- it fails, the stream is stopped all the same, the session has the error, the subscribers are told of
  -- the error, and the answer is fault 501.
  pub stop_action-Stops :
      (err : Option String)
      → Stops api gaps now s err d (stop_action api gaps now err d).0
        × ((stop_action api gaps now err d).1 ≡ answer_of api gaps now s err)
  unfolding active
  stop_action-Stops none = rw accepted-eq (
    record {
      order = after-CallsLast;
      number = refl;
      session = current_session-eq (moved stopped now s) after.world.manager after-IsCurrent;
      streamer = refl;
      monitor = refl;
      cache = refl;
      guard = guard-free;
      commands = refl;
      told = refl;
    },
    refl,
  )
  stop_action-Stops (some message) = rw (refused-eq message) (
    record {
      order = after-CallsLast;
      number = refl;
      session =
          current_session-eq (ended api gaps now s (some message)) (failed message).world.manager
            (failed-IsCurrent message);
      streamer = refl;
      monitor = refl;
      cache = refl;
      guard = guard-free;
      commands = refl;
      told = refl;
    },
    refl,
  )
