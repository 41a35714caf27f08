-- ===== src/Session/Tests.antt =====
-- Runs of the session manager on concrete inputs.
use ma_dlna.Base.{
  ℕ, true, false, List, [], ◌∷◌, ◌≡◌, refl, none, some, arith, inl, eqb, if◌then◌else◌,
}
use ma_dlna.Base.Dict.{lookup}
use ma_dlna.Base.Int.{pos}
use ma_dlna.Stream.Streamer
use ma_dlna.Stream.Streamer.{blank_stream}
use ma_dlna.Stream.Gen.{fresh}
use ma_dlna.Stream.Ring
use ma_dlna.Stream.Streamer.Serve.{before_dot}
use ma_dlna.Session.Types.{State, starting, playing, error, Session, Manager}
use ma_dlna.Session.Metadata.{empty_metadata}
use ma_dlna.Session.Manager.{accept_section}
use ma_dlna.Session.Manager.Valid.{IsValid}
use ma_dlna.Session.Manager.Evict.{Request, create_section}
use ma_dlna.Session.Manager.Evict.Create.{Opens, create_section-Opens}
use ma_dlna.Session.Manager.Sections.{
  Section, create, play, pause, seek, mark_stopped, accept, set_error, run, sections-IsValid,
}
use ma_dlna.Session.Manager.Generations.{late-ignored}
use ma_dlna.Session.Manager.States.{state_of}
use ma_dlna.Session.Manager.States.Errors.{error-stays}
use ma_dlna.Session.Manager.States.Starts.{accept-once}
use ma_dlna.Session.Ops.{World, accept_playback_if_generation, stop_with_error_if_generation_active}
use ma_dlna.Session.Ops.Schedules
use ma_dlna.Session.Ops.Agreement.{AgreesAll}
use ma_dlna.Session.Ops.Agreement.Methods.{run-AgreesAll}
use ma_dlna.Session.Ops.Guarded.{
  Accepting, accept_playback-Accepting, Failing, stop_with_error-Failing,
}
use ma_dlna.Session.Api.{Laws}
use ma_dlna.Session.Link.{generation, Around, streamer_api, IsCalm, IsMapped}
use ma_dlna.Stream.Streamer.Run.{kill_gen}
use ma_dlna.Stream.Streamer.Valid.Sections.{kill_gen-Local}
use ma_dlna.Session.Link.Kept.{streamer-Laws}

abbrev session : State → Session
session st = record {
  id = "s";
  source_uri = "http://host/a";
  metadata_raw = "";
  metadata = empty_metadata;
  state = st;
  stream_url = "";
  stream_token = "t";
  next_uri = "";
  play_mode = "";
  created_at = 0;
  updated_at = 0;
  error_text = "";
}

-- one session, which is current, with generation 3
abbrev manager : State → Manager
manager st = record {
  sessions = ("s", session st) ∷ [];
  session_gen_id = λ k. 3;
  current_session_id = "s";
  cfg = record { public_base_url = ""; output_format = "mp3"; require_stream_token = true };
}

manager-IsValid : IsValid (manager starting)
unfolding lookup
manager-IsValid = record { keyed = (refl, refl, tt); busy = (λ e. cc e, tt); bounded = omega arith }

abbrev request : Request
request = record {
  id = "r";
  token = "u";
  source_uri = "http://host/b";
  metadata_raw = "";
  metadata = empty_metadata;
  base_url = "http://bridge";
}

create_section-Opens_example :
    Opens request 5
      (manager starting)
      (create_section request 5 (manager starting)).0
      (create_section request 5 (manager starting)).1
create_section-Opens_example = create_section-Opens request 5 (manager starting) manager-IsValid

abbrev schedule : List (Section × ℕ)
schedule = (accept "s" 3, 1) ∷ (pause "s", 2) ∷ (create request, 3) ∷ (play "r", 4) ∷ []

sections-IsValid_example : IsValid (run schedule (manager starting))
sections-IsValid_example = sections-IsValid schedule (manager starting) manager-IsValid

abbrev late : List (Section × ℕ)
late = (mark_stopped "s" 2, 7) ∷ (set_error "s" 1 "gone", 8) ∷ []

late-ignored_example : run late (manager playing) ≡ manager playing
late-ignored_example = late-ignored late "s" (manager playing) (
  (refl, λ e. omega (arith, e), λ e. omega (arith, e)),
  ((refl, λ e. omega (arith, e), λ e. omega (arith, e)), tt),
)

error-stays_example :
    state_of "s" (run ((mark_stopped "s" 3, 7) ∷ (seek "s", 8) ∷ []) (manager error)) ≡ some error
unfolding state_of lookup
error-stays_example =
    error-stays ((mark_stopped "s" 3, 7) ∷ (seek "s", 8) ∷ []) "s" (manager error)
      ((λ e. e), ((λ e. e), tt)) (ground arith)

accept-once_example :
    (accept_section "s" 3 9
      (run ((mark_stopped "s" 3, 8) ∷ []) (accept_section "s" 3 7 (manager starting)).0)).1
    ≡ false
unfolding accept_section lookup
accept-once_example =
    accept-once ((mark_stopped "s" 3, 8) ∷ []) "s" 3 3 7 9 (manager starting) manager-IsValid
      ((λ e. e), tt) (ground arith)

abbrev streamer : Streamer.Streamer
streamer = record {
  cfg = record {
    prebuffer_bytes = 2;
    ring_buffer_bytes = 4;
    init_segment_bytes = 3;
    max_replay_bytes = 4;
    max_clients_per_session = 2;
  };
  streams = [];
  next_gen_id = 0;
  stream_count = 0;
  stream_at = λ a. blank_stream "" "";
  gen_count = 0;
  gen_at = λ g. fresh (Ring.new 4) (pos 0) 3 1 none;
}

abbrev world : World Streamer.Streamer
world = record { manager = manager starting; streamer = streamer; notified = [] }

-- In the gaps of each call the process of some encoder is killed.
abbrev around : Around
around = record { now = pos 0; env = kill_gen 0; wait = kill_gen 0 }

others-IsCalm : IsCalm (kill_gen 0)
unfolding kill_gen
others-IsCalm s = (kill_gen-Local s 0, refl)

waits-IsCalm : IsCalm (kill_gen 0)
waits-IsCalm = others-IsCalm

world-AgreesAll : AgreesAll (streamer_api around) IsMapped world
unfolding lookup streamer_api generation
world-AgreesAll = (λ sid a e. cc e, λ k. inl refl)

abbrev ops : List (Schedules.Op × ℕ)
ops =
    (Schedules.start_stream "s" "http://host/a", 1)
    ∷ (Schedules.accept_if "s" 1, 2)
    ∷ (Schedules.seek "s" (pos 7), 3)
    ∷ (Schedules.stop_if "s" 1, 4)
    ∷ []

run-AgreesAll_example :
    AgreesAll
      (streamer_api around)
      IsMapped
      (Schedules.run (streamer_api around) (λ w. w) ops world)
run-AgreesAll_example =
    run-AgreesAll (streamer_api around) IsMapped (streamer-Laws around others-IsCalm waits-IsCalm)
      (λ w. w) (λ w v. v) (λ sid w v. v) ops world world-AgreesAll

streamer-Laws_example : Laws (streamer_api around) IsMapped
streamer-Laws_example = streamer-Laws around others-IsCalm waits-IsCalm

accept_playback-Accepting_example :
    Accepting
      (streamer_api around)
      (λ w. w)
      (λ w. w)
      "s"
      3
      2
      world
      (accept_playback_if_generation (streamer_api around) (λ w. w) (λ w. w) "s" 3 2 world)
accept_playback-Accepting_example =
    accept_playback-Accepting (streamer_api around) (λ w. w) (λ w. w) "s" 3 2 world

stop_with_error-Failing_example :
    Failing
      (streamer_api around)
      (λ w. w)
      (λ w. w)
      "s"
      3
      "no client"
      2
      world
      (stop_with_error_if_generation_active
        (streamer_api around)
        (λ w. w)
        (λ w. w)
        "s"
        3
        "no client"
        2
        world)
stop_with_error-Failing_example =
    stop_with_error-Failing (streamer_api around) (λ w. w) (λ w. w) "s" 3 "no client" 2 world

opus : eqb "opus" "opus" ≡ true
opus = ground arith

no_dot : before_dot (if eqb "opus" "opus" then "ogg" else "opus") ≡ none
unfolding before_dot
no_dot = rw (opus, if◌then◌else◌) refl
