-- ===== src/Upnp/PosCache/Reports.antt =====
-- Sequences of reports to the position cache.
use ma_dlna.Base.{
  Bool, true, false, List, [], ◌∷◌, ◌≡◌, inl, inr, subst, Option-cases, Option, none, some, String,
  All, arith, eqb,
}
use ma_dlna.Base.Int.{+ℤ_parts, ℤ, pos, ◌-ℤ◌, ◌≤ℤ◌, ltb_ℤ}
use ma_dlna.Upnp.PosCache.{
  PosCache, PlayerStatus, two_seconds, advanced, set, estimate_locked, suppress_fresh_zero_stale,
  estimate, guarded_zero, corrected_playback_position, cache_position, cache_backend_position,
}

-- a report of the backend for a session: its status, whether it runs, and the moment
pub record Report : Type 0 where
  pub session_id : String
  pub status : PlayerStatus
  pub running : Bool
  pub now : ℤ

abbrev pub after_report : Report → PosCache → PosCache × ℤ
after_report r c = cache_backend_position r.session_id r.status r.running r.now c

pub positions : List Report → PosCache → List ℤ
positions [] c = []
positions (r ∷ rs) c = (after_report r c).1 ∷ positions rs (after_report r c).0

advanced_le : (now p : ℤ) (t : Option ℤ) → p ≤ℤ advanced now p t
unfolding advanced
advanced_le now p none = omega arith
advanced_le now p (some t) = ground (arith, +ℤ_parts p (now -ℤ t))

estimate_locked-up : (now : ℤ) (c : PosCache) → c.position ≤ℤ estimate_locked now c
unfolding estimate_locked
estimate_locked-up now c = ground (arith, advanced_le now c.position c.updated_at)

set-nonneg :
    (sid : String) (p : ℤ) (running : Bool) (now : ℤ) (c : PosCache)
    → (pos 0 ≤ℤ (set sid p running now c).1) × (pos 0 ≤ℤ (set sid p running now c).0.position)
unfolding set
set-nonneg sid p running now c = ground arith

report-nonneg :
    (r : Report) (c : PosCache)
    → pos 0 ≤ℤ c.position
    → (pos 0 ≤ℤ (after_report r c).1) × (pos 0 ≤ℤ (after_report r c).0.position)
unfolding cache_backend_position cache_position suppress_fresh_zero_stale guarded_zero set estimate
report-nonneg r c h = ground (arith, estimate_locked-up r.now c)

-- A cache whose position is not negative never answers a report with a negative position, of whatever
-- session, status and moment the reports are.
pub positions-nonneg :
    (rs : List Report) (c : PosCache) → pos 0 ≤ℤ c.position → All (λ p. pos 0 ≤ℤ p) (positions rs c)
unfolding positions
positions-nonneg [] c h = tt
positions-nonneg (r ∷ rs) c h =
    let (answer, kept) = report-nonneg r c h in
    (answer, positions-nonneg rs (after_report r c).0 kept)

-- The zero guard of a session is up until a moment, with a position of more than two seconds.
pub record IsGuarded (sid : String) (until : ℤ) (c : PosCache) : Type 0 where
  pub session : eqb c.session_id sid ≡ true
  pub valid : c.valid ≡ true
  pub guard : c.zero_guard ≡ some until
  pub no_hold : c.fresh_zero_hold_until ≡ none
  pub placed : ltb_ℤ two_seconds c.position ≡ true

-- a position of at most two seconds, or none
abbrev pub IsLow : Option ℤ → Type 0
IsLow none = Unit {0}
IsLow (some p) = ltb_ℤ two_seconds p ≡ false

-- The report is for the session, while the guard is up, and of a low position or none.
abbrev pub IsDrop : String → ℤ → Report → Type 0
IsDrop sid until r =
    (r.session_id ≡ sid)
    × (ltb_ℤ until r.now ≡ false)
    × IsLow (corrected_playback_position r.status r.now)

-- each entry is at least the bound and all before it
abbrev pub Rising : ℤ → List ℤ → Type 0
Rising b [] = Unit {0}
Rising b (p ∷ ps) = (b ≤ℤ p) × Rising p ps

estimate-placed :
    (now : ℤ) (c : PosCache)
    → ltb_ℤ two_seconds c.position ≡ true
    → ltb_ℤ two_seconds (estimate_locked now c) ≡ true
estimate-placed now c h = ground (arith, h, estimate_locked-up now c)

-- The cache after an estimate that is kept.
abbrev pub kept : Report → PosCache → PosCache
kept r c = record c {
  position = estimate_locked r.now c;
  updated_at = some r.now;
  running = r.running;
}

drop_report :
    (sid : String) (until : ℤ) (r : Report) (c : PosCache)
    → IsGuarded sid until c
    → IsDrop sid until r
    → after_report r c ≡ (kept r c, estimate_locked r.now c)
unfolding cache_backend_position cache_position suppress_fresh_zero_stale guarded_zero estimate
drop_report sid until r c v (same, early, low) =
    let up = estimate-placed r.now c v.placed in
    let here : eqb c.session_id r.session_id ≡ true = rw same v.session in
    elim (Option-cases (corrected_playback_position r.status r.now)) [
      | inl e ↦ ground (arith, e, here, v.valid)
      | inr (p, e) ↦
          let small : ltb_ℤ two_seconds p ≡ false = subst IsLow e low in
          ground (arith, e, here, up, early, small, v.valid, v.no_hold, v.guard)
    ]

kept-IsGuarded :
    (sid : String) (until : ℤ) (r : Report) (c : PosCache)
    → IsGuarded sid until c
    → IsGuarded sid until (kept r c)
kept-IsGuarded sid until r c v = record {
  session = v.session;
  valid = v.valid;
  guard = v.guard;
  no_hold = v.no_hold;
  placed = estimate-placed r.now c v.placed;
}

-- While the zero guard is up for a session whose position is past two seconds, any number of reports
-- of at most two seconds, or of none, leave the position that is shown where it was or move it on:
-- it never goes back.
pub drops-Rising :
    (sid : String) (until : ℤ) (rs : List Report) (c : PosCache)
    → IsGuarded sid until c
    → All (IsDrop sid until) rs
    → Rising c.position (positions rs c)
unfolding positions
drops-Rising sid until [] c v h = tt
drops-Rising sid until (r ∷ rs) c v (d, h) = rw (drop_report sid until r c v d) (
  estimate_locked-up r.now c,
  drops-Rising sid until rs (kept r c) (kept-IsGuarded sid until r c v) h,
)
