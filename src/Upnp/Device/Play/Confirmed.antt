-- ===== src/Upnp/Device/Play/Confirmed.antt =====
-- A Play that the backend confirms, in upnp.go, where no other handler acts during it.
use ma_dlna.Base.{ℕ, true, ◌∷◌, ◌≡◌, ap, some, arith}
use ma_dlna.Base.Int.{pos}
use ma_dlna.Session.Types.{State-discrete, starting, playing, Session, Manager}
use ma_dlna.Session.Manager.{
  moved, set_session, set_playing_accepted_if_generation, is_current_generation_state,
  is_current_generation_active,
}
use ma_dlna.Session.Ops.{set_manager}
use ma_dlna.Session.Api.{Api}
use ma_dlna.Upnp.PosCache.{PlayerStatus}
use ma_dlna.Upnp.Device.{
  Device, Gaps, seek_command, active, manager, command, notify_current, set_world,
}
use ma_dlna.Upnp.Device.Monitor.{start_playback_monitor, notify_playing}
use ma_dlna.Upnp.Device.Guarded.Pause.{IsAlone, IsCurrent, current_session-eq, moved-IsCurrent}
use ma_dlna.Upnp.Device.Play.{Ticket, accept_playing, confirm_position, cache_status}
use ma_dlna.Upnp.Device.Play.Late.{Calls, try_rebase_fresh_play, rebase_locked, rebased}

module _ {S : Type 0} (api : Api S) (gaps : Gaps S) (calls : Calls S)
    (startup_timeout_seconds now : ℕ) (s : Session) where
  -- The device with the session playing, its event and its monitor.
  abbrev pub accepted : Device S → Device S
  accepted d =
      start_playback_monitor startup_timeout_seconds s.id 0 now
        (record (set_world
          (set_manager d.world (set_session (manager d) s.id (moved playing now s))) d) {
            told = ("PLAYING", "OK") ∷ d.told;
          })

  section-eq :
      (m : Manager)
      → IsCurrent s m
      → s.state ≡ starting
      → set_playing_accepted_if_generation s.id 0 now m
        ≡ (set_session m s.id (moved playing now s), true)
  unfolding set_playing_accepted_if_generation
  section-eq m c st = ground (arith, c.keyed, st)

  state-eq :
      (m : Manager)
      → IsCurrent (moved playing now s) m
      → is_current_generation_state s.id 0 playing m ≡ true
  unfolding is_current_generation_state is_current_generation_active State-discrete
  state-eq m c = ground (arith, c.keyed, c.id)

  notify-eq :
      (x : Device S)
      → active x ≡ some (moved playing now s)
      → notify_current s.id "PLAYING" "OK" x ≡ record x { told = ("PLAYING", "OK") ∷ x.told }
  unfolding notify_current
  notify-eq x e = ground (arith, e)

  pub accept_playing-eq :
      (d : Device S)
      → IsCurrent s (manager d)
      → s.state ≡ starting
      → accept_playing api gaps calls startup_timeout_seconds now s.id d ≡ accepted d
  unfolding accept_playing notify_playing active
  accept_playing-eq d c st =
      let m = set_session (manager d) s.id (moved playing now s) in
      let d' = set_world (set_manager d.world m) d in
      let c' = moved-IsCurrent s (manager d) c playing now in
      let told = notify-eq d' (current_session-eq (moved playing now s) m c') in
      rw (accept_playing, section-eq (manager d) c st)
        (rw (notify_playing, state-eq m c')
          (ap (start_playback_monitor startup_timeout_seconds s.id 0 now) told))

  -- The manager and the events are the same.
  abbrev pub IsKept : Device S → Device S → Type 0
  IsKept d d' = (manager d' ≡ manager d) × (d'.told ≡ d.told)

  rebase_locked-IsKept :
      (alone : IsAlone gaps) (play_op position_op : ℕ) (d : Device S)
      → IsKept d (rebase_locked gaps calls now s.id play_op position_op d).0
  unfolding rebase_locked command rebased
  rebase_locked-IsKept alone play_op position_op d =
      ground (arith, alone.backend (record d { commands = seek_command (pos 0) ∷ d.commands }))

  rebase-IsKept :
      (alone : IsAlone gaps) (play_op position_op : ℕ) (status : PlayerStatus) (d : Device S)
      → IsKept d (try_rebase_fresh_play gaps calls now s.id play_op position_op status d).0
  unfolding try_rebase_fresh_play
  rebase-IsKept alone play_op position_op status d =
      ground (arith, alone.lock d, rebase_locked-IsKept alone play_op position_op d)

  pub position-IsKept :
      (alone : IsAlone gaps) (t : Ticket) (status : PlayerStatus) (d : Device S)
      → IsKept d (confirm_position api gaps calls startup_timeout_seconds now t s status d)
  unfolding confirm_position cache_status
  position-IsKept alone t status d =
      ground (arith, rebase-IsKept alone t.play_op t.position_op status d)
