-- ===== src/Upnp/Device/Play/Late.antt =====
-- internal/upnp/upnp.go: the calls of Play that look at what has happened meanwhile,
-- `freshPlayRebaseStillCurrent`, `tryRebaseFreshPlay` and `reconcileLatePlayCompletion`.
use ma_dlna.Base.{
  ℕ, Bool, true, false, not, ◌&&◌, ◌||◌, List, Option, none, some, String, eqb, ◌==◌, if◌then◌else◌,
}
use ma_dlna.Base.Int.{ℤ, pos}
use ma_dlna.Session.Types.{starting, paused, stopped, error}
use ma_dlna.Session.Manager.{is}
use ma_dlna.Upnp.PosCache.{
  PlayerStatus, fresh_play_rebase_max, set, guard_zero, hold_fresh_zero, should_rebase_fresh_play,
  ignore_playing,
}
use ma_dlna.Upnp.Device.{
  Device, Gaps, stop_command, pause_command, seek_command, active, set_cache, release_guard,
  command,
}
use ma_dlna.Upnp.Device.Waits.{Round, confirmed, interrupted, timeout, wait_for_backend_not_playing}

-- What the calls of the backend return during a Play, an error or `none`, and the rounds of its waits
-- with their deadlines.
pub record Calls (S : Type 0) : Type 0 where
  pub start : Option String
  pub seek : Option String
  pub rebase : Option String
  pub pause : Option String
  pub play_deadline : ℕ
  pub play_rounds : List (Round S)
  pub pause_deadline : ℕ
  pub pause_rounds : List (Round S)

-- three seconds, as the maximum of a rebase
abbrev pub fresh_play_rebase_hold : ℤ
fresh_play_rebase_hold = fresh_play_rebase_max

module _ {S : Type 0} where
  -- the session is current and starting
  unfoldable pub still_starting : String → Device S → Bool
  unfolding active
  still_starting sid d = elim (active d) [
    | none ↦ false
    | some cur ↦ eqb cur.id sid && is cur.state starting
  ]

  unfoldable pub fresh_play_rebase_still_current : String → ℕ → ℕ → Device S → Bool
  unfolding still_starting
  fresh_play_rebase_still_current sid play_op position_op d =
      d.control_seq == play_op && d.position_seq == position_op && still_starting sid d

module _ {S : Type 0} (gaps : Gaps S) (calls : Calls S) (now : ℕ) where
  -- The cache of a rebased session, after the seek.
  unfoldable pub rebased : String → Device S → Device S
  unfolding set guard_zero hold_fresh_zero
  rebased sid d =
      let c₁ = (set sid (pos 0) true (pos now) d.cache).0 in
      let c₂ = guard_zero sid fresh_play_rebase_hold (pos now) c₁ in
      set_cache (hold_fresh_zero sid fresh_play_rebase_hold (pos now) c₂) d

  -- The rebase under the lock of the commands.
  unfoldable pub rebase_locked : String → ℕ → ℕ → Device S → Device S × Bool
  unfolding fresh_play_rebase_still_current command rebased
  rebase_locked sid play_op position_op d =
      let d' = command gaps (seek_command (pos 0)) d in
      if not (fresh_play_rebase_still_current sid play_op position_op d)
      then (d, false)
      else elim calls.rebase [
        | some message ↦ (d', false)
        | none ↦
            if fresh_play_rebase_still_current sid play_op position_op d'
            then (rebased sid d', true)
            else (d', false)
      ]

  unfoldable pub try_rebase_fresh_play : String → ℕ → ℕ → PlayerStatus → Device S → Device S × Bool
  unfolding should_rebase_fresh_play rebase_locked
  try_rebase_fresh_play sid play_op position_op status d =
      elim (should_rebase_fresh_play status (pos now)) [
        | none ↦ (d, false)
        | some p ↦ rebase_locked sid play_op position_op (gaps.lock d)
      ]

  -- The backend is paused again; reports of playing are ignored until it has stopped playing, or for as
  -- long as the pause waits.
  unfoldable pub pause_late : String → Device S → Device S
  unfolding ignore_playing command release_guard wait_for_backend_not_playing
  pause_late sid d =
      let d₁ = command gaps pause_command (record d { guard = ignore_playing sid d.guard }) in
      let (d₂, _, result) =
        wait_for_backend_not_playing sid calls.pause_deadline calls.pause_rounds d₁ in
      elim calls.pause [
        | some message ↦ release_guard sid d₁
        | none ↦ elim result [
          | interrupted ↦ d₂
          | confirmed ↦ release_guard sid d₂
          | timeout ↦ release_guard sid d₂
        ]
      ]

  unfoldable pub reconcile_late_play_completion : String → Device S → Device S
  unfolding active pause_late command
  reconcile_late_play_completion sid d = elim (active d) [
    | none ↦ d
    | some cur ↦
        if not (eqb cur.id sid)
        then d
        else if is cur.state paused
        then pause_late sid d
        else if is cur.state stopped || is cur.state error
        then command gaps stop_command d
        else d
  ]
