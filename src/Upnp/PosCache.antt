-- ===== src/Upnp/PosCache.antt =====
-- internal/upnp/upnp.go: `posCache`, which smooths the playback position that the backend reports, and
-- `stateGuard`. Times and durations are integers in nanoseconds, a zero `time.Time` is `none`. The
-- readings of the clock within one report are taken as one moment.
pub mod Reports
pub mod Hold
use ma_dlna.Base.{
  ℕ, ◌*◌, Bool, true, false, not, ◌&&◌, ◌||◌, List, Option, none, some, String, eqb, if◌then◌else◌,
}
use ma_dlna.Base.Int.{ℤ, pos, ◌+ℤ◌, ◌-ℤ◌, ltb_ℤ}

pub record PosCache : Type 0 where
  pub session_id : String
  pub position : ℤ
  pub updated_at : Option ℤ
  pub running : Bool
  pub zero_guard : Option ℤ
  pub fresh_zero_hold_until : Option ℤ
  pub valid : Bool

-- `maadapter.PlayerStatus`
pub record PlayerStatus : Type 0 where
  pub state : String
  pub queue_id : String
  pub current_uri : String
  pub current_uris : List String
  pub has_elapsed : Bool
  pub elapsed : ℤ
  pub elapsed_updated_at : Option ℤ

abbrev pub fresh_play_rebase_min : ℤ
fresh_play_rebase_min = pos 500000000

abbrev pub fresh_play_rebase_max : ℤ
fresh_play_rebase_max = pos 3000000000

abbrev pub two_seconds : ℤ
two_seconds = pos 2000000000

abbrev pub ten_minutes : ℤ
ten_minutes = pos 600000000000

-- `now.After(t)`
abbrev pub is_after : ℤ → Option ℤ → Bool
is_after now none = true
is_after now (some t) = ltb_ℤ t now

-- `p` and the time that has passed since `t`, if that is at least 0 and below ten minutes
unfoldable pub advanced : ℤ → ℤ → Option ℤ → ℤ
advanced now p none = p
advanced now p (some t) =
    let delta = now -ℤ t in
    if not (ltb_ℤ delta (pos 0)) && ltb_ℤ delta ten_minutes then p +ℤ delta else p

unfoldable pub reset : PosCache
reset = record {
  session_id = "";
  position = pos 0;
  updated_at = none;
  running = false;
  zero_guard = none;
  fresh_zero_hold_until = none;
  valid = false;
}

-- The cache after `set`, and the position.
unfoldable pub set : String → ℤ → Bool → ℤ → PosCache → PosCache × ℤ
set sid p running now c =
    let p' : ℤ = if ltb_ℤ p (pos 0) then pos 0 else p in
    let changed = not (eqb c.session_id sid) in
    (
      record {
        session_id = sid;
        position = p';
        updated_at = some now;
        running = running;
        zero_guard = if changed || ltb_ℤ two_seconds p' then none else c.zero_guard;
        fresh_zero_hold_until =
            if changed || ltb_ℤ fresh_play_rebase_min p' then none else c.fresh_zero_hold_until;
        valid = true;
      },
      p',
    )

unfoldable pub guard_zero : String → ℤ → ℤ → PosCache → PosCache
guard_zero sid duration now c =
    if not (eqb c.session_id sid) then c else record c { zero_guard = some (now +ℤ duration) }

unfoldable pub hold_fresh_zero : String → ℤ → ℤ → PosCache → PosCache
hold_fresh_zero sid duration now c =
    if not (eqb c.session_id sid) || not c.valid
    then c
    else record c { fresh_zero_hold_until = some (now +ℤ duration) }

-- `estimateLocked`
unfoldable pub estimate_locked : ℤ → PosCache → ℤ
unfolding advanced
estimate_locked now c = if c.running then advanced now c.position c.updated_at else c.position

-- The estimate is stored; it is the answer of the three methods that use it.
abbrev pub keep_estimate : Bool → ℤ → PosCache → PosCache × Option ℤ
keep_estimate running now c =
    let estimate = estimate_locked now c in
    (record c { position = estimate; updated_at = some now; running = running }, some estimate)

-- `none` for a result that is not ok.
unfoldable pub suppress_fresh_zero_stale : String → ℤ → Bool → ℤ → PosCache → PosCache × Option ℤ
unfolding estimate_locked
suppress_fresh_zero_stale sid p running now c =
    let over = record c { fresh_zero_hold_until = none } in
    let held : PosCache × Option ℤ = elim c.fresh_zero_hold_until [
      | none ↦ (c, none)
      | some t ↦
          if ltb_ℤ t now
          then (over, none)
          else if not (ltb_ℤ fresh_play_rebase_min p)
          then (over, none)
          else keep_estimate running now c
    ] in
    if not (eqb c.session_id sid) || not c.valid then (c, none) else held

unfoldable pub estimate : String → Bool → ℤ → PosCache → PosCache × Option ℤ
unfolding estimate_locked
estimate sid running now c =
    if not (eqb c.session_id sid) || not c.valid then (c, none) else keep_estimate running now c

unfoldable pub guarded_zero : String → ℤ → Bool → ℤ → PosCache → PosCache × Option ℤ
unfolding estimate_locked
guarded_zero sid p running now c =
    if ltb_ℤ two_seconds p
    then (c, none)
    else if not (eqb c.session_id sid) || not c.valid || is_after now c.zero_guard
    then (c, none)
    else if not (ltb_ℤ two_seconds (estimate_locked now c))
    then (c, none)
    else keep_estimate running now c

unfoldable pub corrected_playback_position : PlayerStatus → ℤ → Option ℤ
unfolding advanced
corrected_playback_position status now =
    let elapsed =
      if eqb status.state "playing"
      then advanced now status.elapsed status.elapsed_updated_at
      else status.elapsed in
    if not status.has_elapsed then none else some elapsed

-- the report of a position
unfoldable pub cache_position : String → ℤ → Bool → ℤ → PosCache → PosCache × ℤ
unfolding suppress_fresh_zero_stale guarded_zero set
cache_position sid p running now c =
    let (c₁, held) = suppress_fresh_zero_stale sid p running now c in
    let (c₂, guarded) = guarded_zero sid p running now c₁ in
    let rest : PosCache × ℤ = elim guarded [
      | some cached ↦ (c₂, cached)
      | none ↦ set sid p running now c₂
    ] in
    elim held [ some cached ↦ (c₁, cached) | none ↦ rest ]

unfoldable pub cache_backend_position : String → PlayerStatus → Bool → ℤ → PosCache → PosCache × ℤ
unfolding corrected_playback_position cache_position estimate
cache_backend_position sid status running now c =
    let (c', found) = estimate sid running now c in
    elim (corrected_playback_position status now) [
      | some p ↦ cache_position sid p running now c
      | none ↦ elim found [ some p ↦ (c', p) | none ↦ (c', pos 0) ]
    ]

-- The position, and whether it is one to take as the start of a fresh play.
unfoldable pub should_rebase_fresh_play : PlayerStatus → ℤ → Option ℤ
unfolding corrected_playback_position
should_rebase_fresh_play status now = elim (corrected_playback_position status now) [
  | none ↦ none
  | some p ↦
      if not (ltb_ℤ p fresh_play_rebase_min) && not (ltb_ℤ fresh_play_rebase_max p)
      then some p
      else none
]

-- `stateGuard`: the session whose reports of playing are ignored.
unfoldable pub ignore_playing : String → String → String
ignore_playing sid guarded = sid

unfoldable pub clear_pause : String → String → String
clear_pause sid guarded = if eqb guarded sid then "" else guarded

unfoldable pub should_ignore_playing : String → String → Bool
should_ignore_playing sid guarded = eqb guarded sid
