-- ===== src/Upnp/Tests.antt =====
-- Runs of the position cache and the debounce on concrete inputs.
use ma_dlna.Base.{
  eqb, ne_of_differ, true, [], ◌∷◌, refl, none, some, All, arith, false, List, ◌≡◌, ◌⊎◌, String,
}
use ma_dlna.Base.Int.{ℤ, pos, ◌+ℤ◌, ◌-ℤ◌, ◌≤ℤ◌, ltb_ℤ}
use ma_dlna.Upnp.PosCache.{PosCache, corrected_playback_position, advanced}
use ma_dlna.Upnp.PosCache.Reports.{Report, IsGuarded, IsDrop}
use ma_dlna.Upnp.PosCache.Hold.{IsHeld, IsStale, timeline, clock, moments, stale-bounded}
use ma_dlna.Upnp.IdleDebounce.{
  IdleDebounce, idle, in_grace, ten_seconds, update, update_idle, kind_of,
}
use ma_dlna.Upnp.IdleDebounce.Ends.{
  IdleSince, HasWoken, IsSilent, run, answers, update-eq-update_idle, stops-IdleSince, pause-once,
}

-- five seconds into a playback, at the moment of ten seconds
abbrev cache : PosCache
cache = record {
  session_id = "s";
  position = pos 5000000000;
  updated_at = some (pos 10000000000);
  running = true;
  zero_guard = some (pos 12000000000);
  fresh_zero_hold_until = none;
  valid = true;
}

abbrev report : ℤ → ℤ → Report
report elapsed now = record {
  session_id = "s";
  status = record {
    state = "paused";
    has_elapsed = true;
    elapsed = elapsed;
    queue_id = "";
    current_uri = "";
    current_uris = [];
    elapsed_updated_at = none;
  };
  running = true;
  now = now;
}

report-IsDrop : IsDrop "s" (pos 12000000000) (report (pos 0) (pos 11000000000))
unfolding corrected_playback_position advanced
report-IsDrop = (refl, refl, ground arith)

cache-IsGuarded : IsGuarded "s" (pos 12000000000) cache
cache-IsGuarded = record {
  session = ground arith;
  valid = refl;
  guard = refl;
  no_hold = refl;
  placed = refl;
}

-- a fresh play, held at its start
abbrev held : PosCache
held = record cache { position = pos 0; fresh_zero_hold_until = some (pos 13000000000) }

report-IsStale : IsStale "s" (pos 13000000000) (report (pos 90000000000) (pos 11000000000))
unfolding corrected_playback_position advanced
report-IsStale = (refl, refl, ground arith)

held-IsHeld : IsHeld "s" (pos 13000000000) (pos 10000000000) held
held-IsHeld = record { session = ground arith; valid = refl; hold = refl; updated = refl }

abbrev stale : List Report
stale = report (pos 90000000000) (pos 11000000000) ∷ []

stale-bounded_example :
    (timeline stale held ≡ clock held.running held.position (pos 10000000000) (moments stale))
    × All (λ x. x.1 +ℤ pos 10000000000 ≤ℤ pos 0 +ℤ x.0) (timeline stale held)
stale-bounded_example =
    stale-bounded "s" (pos 13000000000) (pos 10000000000) (pos 0) (pos 10000000000) stale held
      held-IsHeld (ground arith) (report-IsStale, tt) (omega arith, tt)

-- what a monitor starts with, and its first polls, the last one first
abbrev started : IdleDebounce
started = record {
  was_playing = true;
  idle_since = none;
  startup_grace_till = some (pos 15000000000);
  last_emitted = "";
}

abbrev polls : List (String × ℤ)
polls = ("idle", pos 12000000000) ∷ []

not_playing : eqb "idle" "playing" ≡ false
not_playing = ground (arith, ne_of_differ "idle" "playing" refl)

idle_here : kind_of "idle" ≡ idle
unfolding kind_of
idle_here = ground (arith, not_playing)

-- the debounce after the first poll
abbrev waiting : IdleDebounce
waiting = record started { idle_since = some (pos 12000000000) }

first_poll : run polls started ≡ waiting
unfolding run update_idle
first_poll = rw (run, update-eq-update_idle "idle" (pos 12000000000) started idle_here) refl

unsent : eqb "" "STOPPED" ≡ false
unsent = ground (arith, ne_of_differ "" "STOPPED" refl)

stopped : (update "idle" (pos 23000000000) (run polls started)).1 ≡ true
unfolding update_idle ◌-ℤ◌
stopped =
    rw (first_poll, update-eq-update_idle "idle" (pos 23000000000) waiting idle_here)
      (rw (unsent, update_idle) refl)

stops-IdleSince_example :
    ((t : ℤ) × IdleSince t (("idle", pos 23000000000) ∷ polls)
      × (ltb_ℤ (pos 23000000000 -ℤ t) ten_seconds ≡ false))
    × (HasWoken polls ⊎ (in_grace (pos 23000000000) (some (pos 15000000000)) ≡ false))
stops-IdleSince_example = stops-IdleSince polls "idle" (pos 23000000000) started refl stopped

pause-once_example : All IsSilent (
    answers
      (("playing", pos 1) ∷ ("paused", pos 2) ∷ [])
      (record started { last_emitted = "PAUSED_PLAYBACK" }))
pause-once_example =
    pause-once (("playing", pos 1) ∷ ("paused", pos 2) ∷ [])
      (record started { last_emitted = "PAUSED_PLAYBACK" }) (ground arith)
