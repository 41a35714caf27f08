-- ===== src/Upnp/Device.antt =====
-- internal/upnp/upnp.go: the state of `Handler` behind the transport actions, and the changes of it that
-- they share.
pub mod Waits
pub mod Sync
pub mod Transport
pub mod Monitor
pub mod Guarded
pub mod Stops
pub mod Play
use ma_dlna.Base.{
  ℕ, ◌+◌, ◌%◌, ◌^◌, Bool, not, ◌&&◌, ◌||◌, List, ◌∷◌, Option, none, some, String, eqb,
  if◌then◌else◌,
}
use ma_dlna.Base.Int.{ℤ}
use ma_dlna.Session.Types.{Metadata, Session, Manager}
use ma_dlna.Session.Manager.{current_session, mark_playing_if_generation, mark_paused_if_generation}
use ma_dlna.Session.Ops.{
  World, set_manager, set_error_if_generation, stop_with_error_if_generation_active,
}
use ma_dlna.Session.Api.{Api}
use ma_dlna.Upnp.PosCache.{PosCache, clear_pause}
use ma_dlna.Upnp.IdleDebounce.{IdleDebounce}

-- The calls of the backend that change it; `play_command` has the address of the stream, the source and
-- the metadata of the request.
pub data Command : Type 0 where
  stop_command pause_command resume_command : Command
  play_command : String → String → Metadata → Command
  seek_command : ℤ → Command

-- The answer of an action: the response, or the fault with its code.
pub data Answer : Type 0 where
  done : Answer
  fault : String → Answer

-- The session and the generation that a playback monitor watches, and its debounce.
pub record Watch : Type 0 where
  pub session_id : String
  pub gen_id : ℕ
  pub debounce : IdleDebounce

-- `guard` is `stateGuard`, `monitor` the playback monitor that is not cancelled. `commands` are the
-- calls of the backend and `told` the events for AVTransport, state and status, the last one first.
pub record Device (S : Type 0) : Type 0 where
  pub world : World S
  pub cache : PosCache
  pub guard : String
  pub control_seq : ℕ
  pub position_seq : ℕ
  pub monitor : Option Watch
  pub commands : List Command
  pub told : List (String × String)

-- What others do meanwhile: while a method of the manager waits, before the lock of the commands is
-- taken, and while the backend is called.
pub record Gaps (S : Type 0) : Type 0 where
  pub inside : World S → World S
  pub lock : Device S → Device S
  pub backend : Device S → Device S

-- an atomic 64-bit counter, plus one
unfoldable pub next_op : ℕ → ℕ
next_op n = (n + 1) % 2 ^ 64

module _ {S : Type 0} where
  abbrev pub manager : Device S → Manager
  manager d = d.world.manager

  unfoldable pub active : Device S → Option Session
  unfolding current_session
  active d = current_session d.world.manager

  abbrev pub set_world : World S → Device S → Device S
  set_world w d = record d { world = w }

  abbrev pub set_cache : PosCache → Device S → Device S
  set_cache c d = record d { cache = c }

  unfoldable pub notify_current : String → String → String → Device S → Device S
  unfolding active
  notify_current sid state status d = elim (active d) [
    | none ↦ d
    | some cur ↦ if eqb cur.id sid then record d { told = (state, status) ∷ d.told } else d
  ]

  -- A change of the manager, and an event if it was made.
  abbrev pub tell_if : String → String → World S × Bool → Device S → Device S
  tell_if sid state (w, changed) d =
      let d' = set_world w d in if changed then notify_current sid state "OK" d' else d'

  -- A change of the manager, and the event of `NotifyError` if it set an error.
  abbrev pub tell_error : String → World S × Bool → Device S → Device S
  tell_error sid (w, changed) d =
      let d' = set_world w d in
      if changed then notify_current sid "STOPPED" "ERROR_OCCURRED" d' else d'

  -- `MarkPlayingIfGeneration` and `MarkPausedIfGeneration`, with their events
  unfoldable pub mark_playing : String → ℕ → ℕ → Device S → Device S
  unfolding mark_playing_if_generation notify_current
  mark_playing sid gen_id now d =
      let (m, changed) = mark_playing_if_generation sid gen_id now (manager d) in
      tell_if sid "PLAYING" (set_manager d.world m, changed) d

  unfoldable pub mark_paused : String → ℕ → ℕ → Device S → Device S
  unfolding mark_paused_if_generation notify_current
  mark_paused sid gen_id now d =
      let (m, changed) = mark_paused_if_generation sid gen_id now (manager d) in
      tell_if sid "PAUSED_PLAYBACK" (set_manager d.world m, changed) d

  unfoldable pub release_guard : String → Device S → Device S
  unfolding clear_pause
  release_guard sid d = record d { guard = clear_pause sid d.guard }

  -- a command, while others act
  unfoldable pub command : Gaps S → Command → Device S → Device S
  command gaps c d = gaps.backend (record d { commands = c ∷ d.commands })

module _ {S : Type 0} (api : Api S) where
  -- `SetError`, whose notifier is `NotifyError`
  unfoldable pub set_error : String → String → ℕ → Device S → Device S
  unfolding set_error_if_generation notify_current
  set_error sid message now d =
      tell_error sid (set_error_if_generation api sid 0 message now d.world) d

  -- `StopWithErrorIfGenerationActive`, with the generation id 0
  unfoldable pub stop_with_error : (World S → World S) → String → String → ℕ → Device S → Device S
  unfolding stop_with_error_if_generation_active notify_current
  stop_with_error inside sid message now d =
      tell_error sid
        (stop_with_error_if_generation_active api inside inside sid 0 message now d.world) d
