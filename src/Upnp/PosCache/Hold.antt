-- ===== src/Upnp/PosCache/Hold.antt =====
-- The hold after a fresh play: stale positions of the last playback are not shown.
use ma_dlna.Base.{
  Bool, if◌then◌else◌, true, false, List, [], ◌∷◌, ◌≡◌, inl, inr, refl, subst, Option-cases, Option,
  none, some, String, All, arith, eqb,
}
use ma_dlna.Base.Int.{ℤ, ◌+ℤ◌, ◌-ℤ◌, ◌≤ℤ◌, ltb_ℤ, +ℤ_parts, -ℤ_parts}
use ma_dlna.Upnp.PosCache.{
  PosCache, advanced, estimate_locked, suppress_fresh_zero_stale, corrected_playback_position,
  cache_position, cache_backend_position, fresh_play_rebase_min, estimate,
}
use ma_dlna.Upnp.PosCache.Reports.{Report, after_report, kept}

-- no more than the time that has passed
advanced_bound : (now p t : ℤ) → t ≤ℤ now → advanced now p (some t) +ℤ t ≤ℤ p +ℤ now
unfolding advanced
advanced_bound now p t h = ground (
  arith,
  h,
  +ℤ_parts p (now -ℤ t),
  -ℤ_parts now t,
  +ℤ_parts p now,
  +ℤ_parts p t,
  +ℤ_parts (p +ℤ (now -ℤ t)) t,
)

-- the positions shown, each with its moment
pub timeline : List Report → PosCache → List (ℤ × ℤ)
timeline [] c = []
timeline (r ∷ rs) c = (r.now, (after_report r c).1) ∷ timeline rs (after_report r c).0

-- What the clock alone shows, from a position at a moment: whether the playback runs is told with each
-- moment for the time after it.
pub clock : Bool → ℤ → ℤ → List (ℤ × Bool) → List (ℤ × ℤ)
clock running p last [] = []
clock running p last ((now, next) ∷ moments) =
    let shown = if running then advanced now p (some last) else p in
    (now, shown) ∷ clock next shown now moments

-- the moments of the reports, without their positions
pub moments : List Report → List (ℤ × Bool)
moments [] = []
moments (r ∷ rs) = (r.now, r.running) ∷ moments rs

pub record IsHeld (sid : String) (until last : ℤ) (c : PosCache) : Type 0 where
  pub session : eqb c.session_id sid ≡ true
  pub valid : c.valid ≡ true
  pub hold : c.fresh_zero_hold_until ≡ some until
  pub updated : c.updated_at ≡ some last

abbrev pub IsFar : Option ℤ → Type 0
IsFar none = ⊥
IsFar (some p) = ltb_ℤ fresh_play_rebase_min p ≡ true

-- The report is for the session, while the hold is on, and of a position past the start.
abbrev pub IsStale : String → ℤ → Report → Type 0
IsStale sid until r =
    (r.session_id ≡ sid)
    × (ltb_ℤ until r.now ≡ false)
    × IsFar (corrected_playback_position r.status r.now)

-- The reports come in the order of their moments.
abbrev pub Timely : ℤ → List Report → Type 0
Timely t [] = Unit {0}
Timely t (r ∷ rs) = (t ≤ℤ r.now) × Timely r.now rs

stale_report :
    (sid : String) (until last : ℤ) (r : Report) (c : PosCache)
    → IsHeld sid until last c
    → IsStale sid until r
    → after_report r c ≡ (kept r c, estimate_locked r.now c)
unfolding cache_backend_position cache_position suppress_fresh_zero_stale estimate
stale_report sid until last r c v (same, early, far) =
    let here : eqb c.session_id r.session_id ≡ true = rw same v.session in
    elim (Option-cases (corrected_playback_position r.status r.now)) [
      | inl e ↦ absurd (subst IsFar e far)
      | inr (p, e) ↦
          let past : ltb_ℤ fresh_play_rebase_min p ≡ true = subst IsFar e far in
          ground (arith, e, here, early, past, v.valid, v.hold)
    ]

estimate-bound :
    (now last : ℤ) (c : PosCache)
    → c.updated_at ≡ some last
    → last ≤ℤ now
    → estimate_locked now c +ℤ last ≤ℤ c.position +ℤ now
unfolding estimate_locked
estimate-bound now last c e h = ground (
  arith,
  e,
  h,
  advanced_bound now c.position last h,
  +ℤ_parts c.position last,
  +ℤ_parts c.position now,
)

transfer :
    (e q from at last now : ℤ)
    → q +ℤ from ≤ℤ at +ℤ last
    → e +ℤ last ≤ℤ q +ℤ now
    → e +ℤ from ≤ℤ at +ℤ now
transfer e q from at last now low up = omega (
  arith,
  low,
  up,
  +ℤ_parts e from,
  +ℤ_parts at now,
  +ℤ_parts q from,
  +ℤ_parts at last,
  +ℤ_parts e last,
  +ℤ_parts q now,
)

estimate-clock :
    (now last : ℤ) (c : PosCache)
    → c.updated_at ≡ some last
    → estimate_locked now c
      ≡ (if c.running then advanced now c.position (some last) else c.position)
unfolding estimate_locked
estimate-clock now last c e = rw e refl

-- the cache after a stale report is held still
kept-IsHeld :
    (sid : String) (until last : ℤ) (r : Report) (c : PosCache)
    → IsHeld sid until last c
    → IsHeld sid until r.now (kept r c)
kept-IsHeld sid until last r c v = record {
  session = v.session;
  valid = v.valid;
  hold = v.hold;
  updated = refl;
}

timeline-clock :
    (sid : String) (until last : ℤ) (rs : List Report) (c : PosCache)
    → IsHeld sid until last c
    → All (IsStale sid until) rs
    → timeline rs c ≡ clock c.running c.position last (moments rs)
unfolding timeline clock moments
timeline-clock sid until last [] c v h = refl
timeline-clock sid until last (r ∷ rs) c v (s, h) =
    let rest = timeline-clock sid until r.now rs (kept r c) (kept-IsHeld sid until last r c v) h in
    rw (stale_report sid until last r c v s)
      (rw (rest, ← estimate-clock r.now last c v.updated) refl)

timeline-bound :
    (sid : String) (until last at from : ℤ) (rs : List Report) (c : PosCache)
    → IsHeld sid until last c
    → c.position +ℤ from ≤ℤ at +ℤ last
    → All (IsStale sid until) rs
    → Timely last rs
    → All (λ x. x.1 +ℤ from ≤ℤ at +ℤ x.0) (timeline rs c)
unfolding timeline
timeline-bound sid until last at from [] c v low h t = tt
timeline-bound sid until last at from (r ∷ rs) c v low (s, h) (up, t) =
    let next : estimate_locked r.now c +ℤ from ≤ℤ at +ℤ r.now =
      transfer (estimate_locked r.now c) c.position from at last r.now low
        (estimate-bound r.now last c v.updated up) in
    let held = kept-IsHeld sid until last r c v in
    rw (stale_report sid until last r c v s)
      (next, timeline-bound sid until r.now at from rs (kept r c) held next h t)

-- While the hold is on, and the position of the cache is at most `at` and the time from `from` to its
-- last update, any number of reports of positions past the start, in the order of their moments, show
-- exactly what the clock alone gives from the position of the cache, whatever positions they report,
-- and at each moment at most `at` and the time since `from`.
pub stale-bounded :
    (sid : String) (until last at from : ℤ) (rs : List Report) (c : PosCache)
    → IsHeld sid until last c
    → c.position +ℤ from ≤ℤ at +ℤ last
    → All (IsStale sid until) rs
    → Timely last rs
    → (timeline rs c ≡ clock c.running c.position last (moments rs))
      × All (λ x. x.1 +ℤ from ≤ℤ at +ℤ x.0) (timeline rs c)
stale-bounded sid until last at from rs c v low h t =
    (timeline-clock sid until last rs c v h, timeline-bound sid until last at from rs c v low h t)
