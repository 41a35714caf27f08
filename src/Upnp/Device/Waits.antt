-- ===== src/Upnp/Device/Waits.antt =====
-- internal/upnp/upnp.go: `waitForBackendPlaying` and `waitForBackendNotPlaying`, which poll the backend until
-- it confirms, the session changes or the time is over.
pub mod Outcome
use ma_dlna.Base.{
  ℕ, Bool, false, not, ◌&&◌, ◌||◌, List, [], ◌∷◌, none, some, String, eqb, leb, if◌then◌else◌,
}
use ma_dlna.Base.Go.{trim_space}
use ma_dlna.Base.Int.{pos}
use ma_dlna.Session.Types.{State, paused, stopped, error}
use ma_dlna.Session.Manager.{is}
use ma_dlna.Upnp.PosCache.{PlayerStatus}
use ma_dlna.Upnp.Device.{Device, active}

unfoldable pub any_trimmed : String → List String → Bool
any_trimmed source_uri [] = false
any_trimmed source_uri (uri ∷ uris) = eqb (trim_space uri) source_uri || any_trimmed source_uri uris

unfoldable pub backend_status_matches_source : PlayerStatus → String → Bool
unfolding any_trimmed
backend_status_matches_source status source_uri =
    let uri = trim_space source_uri in
    not (eqb uri "")
    && (eqb (trim_space status.current_uri) uri || any_trimmed uri status.current_uris)

-- A poll is answered, fails, or outlasts the time that remains.
pub data Poll : Type 0 where
  answered : PlayerStatus → Poll
  failed timed_out : Poll

pub data BackendWaitResult : Type 0 where
  confirmed interrupted timeout : BackendWaitResult

-- A round of the loop: what others do before it, the clock, what they do while the poll runs, and the
-- poll.
pub record Round (S : Type 0) : Type 0 where
  pub before : Device S → Device S
  pub now : ℕ
  pub during : Device S → Device S
  pub poll : Poll

abbrev pub no_status : PlayerStatus
no_status = record {
  state = "";
  queue_id = "";
  current_uri = "";
  current_uris = [];
  has_elapsed = false;
  elapsed = pos 0;
  elapsed_updated_at = none;
}

-- The device, the last status, and the result.
abbrev pub Waited : Type 0 → Type 0
Waited S = Device S × PlayerStatus × BackendWaitResult

-- the session is still current, and in a state in which the wait goes on
unfoldable pub still_waits : {S : Type 0} → String → (State → Bool) → Device S → Bool
unfolding active
still_waits sid goes_on d = elim (active d) [
  | none ↦ false
  | some cur ↦ eqb cur.id sid && goes_on cur.state
]

module _ {S : Type 0} (sid : String) (goes_on : State → Bool) (confirms : PlayerStatus → Bool)
    (deadline : ℕ) where
  -- The loop of both functions; the deadline has passed where no round is left.
  unfoldable pub wait_loop : List (Round S) → PlayerStatus → Device S → Waited S
  unfolding still_waits
  wait_loop [] last d = (d, last, timeout)
  wait_loop (r ∷ rounds) last d =
      let d' = r.before d in
      if not (still_waits sid goes_on d')
      then (d', last, interrupted)
      else if leb deadline r.now
      then (d', last, timeout)
      else elim r.poll [
        | timed_out ↦ (r.during d', last, timeout)
        | failed ↦ wait_loop rounds last (r.during d')
        | answered status ↦
            let rest = wait_loop rounds status (r.during d') in
            if confirms status then (r.during d', status, confirmed) else rest
      ]

unfoldable pub plays : Bool → String → PlayerStatus → Bool
unfolding backend_status_matches_source
plays require_fresh source_uri status =
    eqb status.state "playing"
    && (not require_fresh || backend_status_matches_source status source_uri)

unfoldable pub rests : PlayerStatus → Bool
rests status =
    eqb status.state "paused"
    || eqb status.state "idle"
    || eqb status.state "off"
    || eqb status.state "standby"

abbrev pub may_play : State → Bool
may_play st = not (is st paused || is st stopped || is st error)

unfoldable pub wait_for_backend_playing :
    {S : Type 0} → String → String → Bool → ℕ → List (Round S) → Device S → Waited S
unfolding wait_loop plays
wait_for_backend_playing sid source_uri require_fresh deadline rounds d =
    wait_loop sid may_play (plays require_fresh source_uri) deadline rounds no_status d

unfoldable pub wait_for_backend_not_playing :
    {S : Type 0} → String → ℕ → List (Round S) → Device S → Waited S
unfolding wait_loop rests
wait_for_backend_not_playing sid deadline rounds d =
    wait_loop sid (λ st. is st paused) rests deadline rounds no_status d
