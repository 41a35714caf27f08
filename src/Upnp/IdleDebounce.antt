-- ===== src/Upnp/IdleDebounce.antt =====
-- internal/upnp/upnp.go: `idleDebounce`, by which the playback monitor tells a playback that has ended
-- from a short silence. Times are integers in nanoseconds, a zero `time.Time` is `none`.
pub mod Ends
use ma_dlna.Base.{
  ℕ, Bool, true, false, not, ◌&&◌, ◌||◌, Option, none, some, String, eqb, if◌then◌else◌,
}
use ma_dlna.Base.Int.{ℤ, pos, ◌-ℤ◌, ltb_ℤ}

pub record IdleDebounce : Type 0 where
  pub was_playing : Bool
  pub idle_since : Option ℤ
  pub startup_grace_till : Option ℤ
  pub last_emitted : String

-- The cases of the `switch` on the state that the backend reports.
pub data Kind : Type 0 where
  playing idle paused other : Kind

pub Kind-discrete : Discrete Kind
Kind-discrete = hlevel

unfoldable pub kind_of : String → Kind
kind_of ha_state =
    if eqb ha_state "playing"
    then playing
    else if eqb ha_state "idle" || eqb ha_state "off" || eqb ha_state "standby"
    then idle
    else if eqb ha_state "paused"
    then paused
    else other

abbrev pub ten_seconds : ℤ
ten_seconds = pos 10000000000

-- `!d.startupGraceTill.IsZero() && now.Before(d.startupGraceTill)`
abbrev pub in_grace : ℤ → Option ℤ → Bool
in_grace now none = false
in_grace now (some t) = ltb_ℤ now t

-- the case of a backend that is idle
unfoldable pub update_idle : ℤ → IdleDebounce → IdleDebounce × Bool × String
update_idle now d = elim d.idle_since [
  | none ↦
      if not d.was_playing then (d, false, "") else (record d { idle_since = some now }, false, "")
  | some t ↦
      if not d.was_playing
      then (d, false, "")
      else if in_grace now d.startup_grace_till
      then (d, false, "")
      else if ltb_ℤ (now -ℤ t) ten_seconds
      then (d, false, "")
      else if not (eqb d.last_emitted "STOPPED")
      then (record d { last_emitted = "STOPPED" }, true, "STOPPED")
      else (d, false, "")
]

-- `update`: whether the monitor stops, and the event to send, "" for none.
unfoldable pub update : String → ℤ → IdleDebounce → IdleDebounce × Bool × String
unfolding kind_of update_idle
update ha_state now d =
    let awake = record d { idle_since = none; startup_grace_till = none } in
    elim (kind_of ha_state) [
      | playing ↦ (record awake { was_playing = true }, false, "")
      | idle ↦ update_idle now d
      | paused ↦
          if d.was_playing && not (eqb d.last_emitted "PAUSED_PLAYBACK")
          then (record awake { last_emitted = "PAUSED_PLAYBACK" }, false, "PAUSED_PLAYBACK")
          else (awake, false, "")
      | other ↦ (awake, false, "")
    ]
