-- ===== src/Upnp/TransportTests.antt =====
-- Witnesses of the theorems about the transport actions, and runs of them.
use ma_dlna.Base.{
  inl, ℕ, suc, ◌≡◌, refl, true, List, [], ◌∷◌, none, some, String, text_discrete, Bool-cases,
}
use ma_dlna.Base.Dict.{lookup, insert}
use ma_dlna.Base.Go.{trim_space}
use ma_dlna.Base.Int.{pos}
use ma_dlna.Session.Types.{State, State-discrete, loaded, starting, playing, paused, Session}
use ma_dlna.Session.Metadata.{empty_metadata}
use ma_dlna.Session.Manager.{moved}
use ma_dlna.Session.Api.{Api}
use ma_dlna.Upnp.PosCache.{PlayerStatus, reset}
use ma_dlna.Upnp.Device.{Device, Gaps, Answer, done, active}
use ma_dlna.Upnp.Device.Waits.{
  wait_for_backend_playing, confirmed, Round, answered, failed, no_status,
}
use ma_dlna.Upnp.Device.Waits.Outcome.{Outcome}
use ma_dlna.Upnp.Device.Transport.{stop_action, pause_action}
use ma_dlna.Upnp.Device.Guarded.{Report, status_read, IsSame, IsGuarded, hear_all}
use ma_dlna.Upnp.Device.Guarded.Pause.{IsAlone, IsCurrent, pause-IsSame}
use ma_dlna.Upnp.Device.Stops.{Stops, answer_of, stop_action-Stops}
use ma_dlna.Upnp.Device.Play.{play_action}
use ma_dlna.Upnp.Device.Play.Late.{Calls}
use ma_dlna.Upnp.Device.Play.Plays.{waited, Plays, play_action-Plays}
use ma_dlna.Upnp.Device.Play.Overtaken.{overtaking, Overtaken, play_action-Overtaken}

-- A streamer that counts its stops.
abbrev api : Api ℕ
api = record {
  generation = λ sid n. 0;
  start = λ sid uri n. (n, []);
  stop = λ sid n. suc n;
  stop_if_generation = λ sid gen_id n. (suc n, true);
  pause = λ sid n. (n, []);
  seek = λ sid offset n. (n, []);
  resume = λ sid n. (n, []);
  mark_playback_accepted = λ sid gen_id n. (n, true);
}

abbrev session : State → Session
session st = record {
  id = "s";
  source_uri = "http://host/a";
  metadata_raw = "";
  metadata = empty_metadata;
  state = st;
  stream_url = "";
  stream_token = "t";
  next_uri = "";
  play_mode = "";
  created_at = 0;
  updated_at = 0;
  error_text = "";
}

abbrev device : State → Device ℕ
device st = record {
  world = record {
    manager = record {
      sessions = ("s", session st) ∷ [];
      session_gen_id = λ k. 0;
      current_session_id = "s";
      cfg = record { public_base_url = ""; output_format = "mp3"; require_stream_token = true };
    };
    streamer = 0;
    notified = [];
  };
  cache = reset;
  guard = "s";
  control_seq = 4;
  position_seq = 0;
  monitor = none;
  commands = [];
  told = [];
}

abbrev alone : Gaps ℕ
alone = record { inside = λ w. w; lock = λ d. d; backend = λ d. d }

alone-IsAlone : IsAlone alone
alone-IsAlone = record { inside = λ w. refl; lock = λ d. refl; backend = λ d. refl }

device-IsCurrent : (st : State) → IsCurrent (session st) (device st).world.manager
unfolding lookup text_discrete Bool-cases
device-IsCurrent st = record { named = refl; id = refl; keyed = refl }

stop_action-Stops_example :
    Stops api alone 9
      (session playing)
      (some "gone")
      (device playing)
      (stop_action api alone 9 (some "gone") (device playing)).0
    × ((stop_action api alone 9 (some "gone") (device playing)).1
        ≡ answer_of api alone 9 (session playing) (some "gone"))
stop_action-Stops_example =
    stop_action-Stops api alone 9 (session playing) alone-IsAlone (device playing)
      (device-IsCurrent playing) (some "gone")

abbrev status : String → PlayerStatus
status st = record no_status { state = st; current_uri = " http://host/a " }

-- a poll that fails, and one that is answered
abbrev rounds : List (Round ℕ)
rounds =
    record { before = λ d. d; now = 1; during = λ d. d; poll = failed }
    ∷ record { before = λ d. d; now = 2; during = λ d. d; poll = answered (status "idle") }
    ∷ []

abbrev paused_at : Device ℕ × Answer
paused_at = pause_action api alone 7 none (pos 0) none 5 rounds (device starting)

paused_answer : paused_at.1 ≡ done
unfolding pause_action lookup insert text_discrete Bool-cases State-discrete
paused_answer = refl

abbrev late : List (Report × ℕ)
late = (status_read (some (status "playing")), 8) ∷ (status_read (some (status "idle")), 9) ∷ []

pause-IsSame_example :
    IsSame paused_at.0 (hear_all api alone late paused_at.0)
    × IsGuarded (moved paused 7 (session starting)) (hear_all api alone late paused_at.0)
pause-IsSame_example =
    pause-IsSame api alone (session starting) 7 refl none (pos 0) none 5 rounds (device starting)
      late alone-IsAlone ((λ d. (refl, refl)), ((λ d. (refl, refl)), tt))
      (device-IsCurrent starting) paused_answer

-- The backend is late to fail.
abbrev calls : Calls ℕ
calls = record {
  start = some "late";
  seek = none;
  rebase = none;
  pause = none;
  play_deadline = 5;
  play_rounds = [];
  pause_deadline = 5;
  pause_rounds = [];
}

-- a Play that another handler's Stop, at the moment 9, overtakes
abbrev overtaken : Device ℕ × Answer
overtaken = play_action api (overtaking api 9 none) calls 10 3 (device loaded)

play_action-Overtaken_example :
    Overtaken api calls 10 3 9 none (session loaded) (inl refl) (device loaded) overtaken.0
    × (overtaken.1 ≡ done)
play_action-Overtaken_example =
    play_action-Overtaken api calls 10 3 9 none (session loaded) (inl refl) (device loaded)
      (device-IsCurrent loaded)

-- The backend takes the request, and plays in the second round.
abbrev good_calls : Calls ℕ
good_calls = record calls {
  start = none;
  play_rounds =
      record { before = λ d. d; now = 1; during = λ d. d; poll = failed }
      ∷ record { before = λ d. d; now = 2; during = λ d. d; poll = answered (status "playing") }
      ∷ [];
}

good_wait :
    (waited api alone good_calls 10 3
      (session loaded)
      alone-IsAlone
      (inl refl)
      (device loaded)
      (device-IsCurrent loaded)).2
    ≡ confirmed
unfolding wait_for_backend_playing active lookup insert text_discrete Bool-cases State-discrete
    trim_space
good_wait = refl

play_action-Plays_example :
    Plays api alone good_calls 10 3
      (session loaded)
      alone-IsAlone
      (inl refl)
      (device loaded)
      (play_action api alone good_calls 10 3 (device loaded)).0
    × ((play_action api alone good_calls 10 3 (device loaded)).1 ≡ done)
play_action-Plays_example =
    play_action-Plays api alone good_calls 10 3 (session loaded) alone-IsAlone (inl refl)
      (device loaded) (device-IsCurrent loaded) refl
      ((λ d. (refl, refl)), ((λ d. (refl, refl)), tt)) good_wait
