-- ===== src/Stream/Gen/Presentation.antt =====
-- The presentation clock of a generation: the positions that it reports never go back.
use ma_dlna.Base.{Bool, true, false, List, [], ◌∷◌, ◌≡◌, arith, if◌then◌else◌}
use ma_dlna.Base.Int.{ℤ, ◌≤ℤ◌}
use ma_dlna.Stream.Gen.{Gen, accept_presentation, presentation_elapsed}

-- What other parts ask of the clock.
pub data Call : Type 0 where
  accept : ℤ → Call
  elapsed : ℤ → Bool → Call

-- the positions reported by a sequence of calls
pub positions : Gen → List Call → List ℤ
positions gen [] = []
positions gen (accept raw ∷ calls) = positions (accept_presentation gen raw) calls
positions gen (elapsed raw running ∷ calls) =
    let (gen', p) = presentation_elapsed gen raw running in p ∷ positions gen' calls

-- each entry is at least the bound and all before it
abbrev pub Rising : ℤ → List ℤ → Type 0
Rising b [] = Unit {0}
Rising b (p ∷ ps) = (b ≤ℤ p) × Rising p ps

-- what a generation has reported at most
abbrev floor : Gen → ℤ
floor gen = if gen.pres_accepted then gen.pres_last else gen.offset

-- An accepted clock has not gone below the offset.
abbrev pub IsSound : Gen → Type 0
IsSound gen = gen.pres_accepted ≡ true → gen.offset ≤ℤ gen.pres_last

module _ (gen : Gen) (v : IsSound gen) where
  accept-IsSound :
      (raw : ℤ)
      → IsSound (accept_presentation gen raw) × (floor gen ≤ℤ floor (accept_presentation gen raw))
  unfolding accept_presentation
  accept-IsSound raw = ground arith

  elapsed-IsSound :
      (raw : ℤ) (running : Bool)
      → let (gen', p) = presentation_elapsed gen raw running in
        IsSound gen' × (p ≤ℤ floor gen') × (floor gen ≤ℤ p) × (gen.offset ≤ℤ p)
  unfolding presentation_elapsed
  elapsed-IsSound raw running = ground arith

Rising-mono : (b c : ℤ) (ps : List ℤ) → b ≤ℤ c → Rising c ps → Rising b ps
Rising-mono b c [] h r = tt
Rising-mono b c (p ∷ ps) h r = (omega (arith, r.0), r.1)

positions-Rising-floor :
    (gen : Gen) (calls : List Call) → IsSound gen → Rising (floor gen) (positions gen calls)
unfolding positions
positions-Rising-floor gen [] v = tt
positions-Rising-floor gen (accept raw ∷ calls) v =
    let (v', up) = accept-IsSound gen v raw in
    let gen' = accept_presentation gen raw in
    Rising-mono (floor gen) (floor gen') (positions gen' calls) up
      (positions-Rising-floor gen' calls v')
positions-Rising-floor gen (elapsed raw running ∷ calls) v =
    let (v', up, low, off) = elapsed-IsSound gen v raw running in
    let gen' = (presentation_elapsed gen raw running).0 in
    (
      low,
      Rising-mono _ (floor gen') (positions gen' calls) up (positions-Rising-floor gen' calls v'),
    )

-- However acceptance and queries interleave, and whatever raw times and running flags they are
-- given, the positions reported by a generation whose clock is not accepted yet start at its offset
-- or later and never go back.
pub positions-Rising :
    (gen : Gen) (calls : List Call)
    → gen.pres_accepted ≡ false
    → Rising gen.offset (positions gen calls)
positions-Rising gen calls h =
    Rising-mono gen.offset (floor gen) (positions gen calls) (rw h (omega arith))
      (positions-Rising-floor gen calls (λ e. cc))
