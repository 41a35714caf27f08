-- ===== src/Session/Api.antt =====
-- internal/session/session.go: what the manager calls of the streamer, and what it relies on. The
-- calls that may start a generation return the calls of the `genStartCallback`, which `NewManager`
-- sets to `SetSessionGenID`.
use ma_dlna.Base.{ℕ, Bool, List, [], ◌∷◌, ◌≡◌, ◌⊎◌, String}
use ma_dlna.Base.Int.{ℤ}

abbrev pub Starts : Type 0
Starts = List (String × ℕ)

-- `generation` is the id of the current generation of a registered stream, and 0 for any other.
pub record Api (S : Type 0) : Type 0 where
  pub generation : String → S → ℕ
  pub start : String → String → S → S × Starts
  pub stop : String → S → S
  pub stop_if_generation : String → ℕ → S → S × Bool
  pub pause : String → S → S × Starts
  pub seek : String → ℤ → S → S × Starts
  pub resume : String → S → S × Starts
  pub mark_playback_accepted : String → ℕ → S → S × Bool

module _ {S : Type 0} (api : Api S) where
  -- A call for one session leaves the generations of the others alone. If it reports a start, then
  -- of the generation that is now current.
  pub record Announces (sid : String) (s : S) (r : S × Starts) : Type 0 where
    pub others : (k : String) → ¬ (sid ≡ k) → api.generation k r.0 ≡ api.generation k s
    pub own :
        ((r.1 ≡ [])
          × ((api.generation sid r.0 ≡ 0) ⊎ (api.generation sid r.0 ≡ api.generation sid s)))
        ⊎ (r.1 ≡ (sid, api.generation sid r.0) ∷ [])

  pub record Laws (Fine : S → Type 0) : Type 0 where
    pub starting :
        (sid uri : String) (s : S)
        → Fine s
        → Fine (api.start sid uri s).0 × Announces sid s (api.start sid uri s)
    pub stopping :
        (sid : String) (s : S)
        → Fine s
        → Fine (api.stop sid s) × Announces sid s (api.stop sid s, [])
    pub stopping_if :
        (sid : String) (gen_id : ℕ) (s : S)
        → Fine s
        → Fine (api.stop_if_generation sid gen_id s).0
          × Announces sid s ((api.stop_if_generation sid gen_id s).0, [])
    pub pausing :
        (sid : String) (s : S)
        → Fine s
        → Fine (api.pause sid s).0 × Announces sid s (api.pause sid s)
    pub seeking :
        (sid : String) (offset : ℤ) (s : S)
        → Fine s
        → Fine (api.seek sid offset s).0 × Announces sid s (api.seek sid offset s)
    pub seek_replaces :
        (sid : String) (offset : ℤ) (s : S)
        → (api.seek sid offset s).1 ≡ []
        → api.generation sid (api.seek sid offset s).0 ≡ 0
    pub resuming :
        (sid : String) (s : S)
        → Fine s
        → Fine (api.resume sid s).0 × Announces sid s (api.resume sid s)
    pub accepting :
        (sid : String) (gen_id : ℕ) (s : S)
        → Fine s
        → Fine (api.mark_playback_accepted sid gen_id s).0
          × Announces sid s ((api.mark_playback_accepted sid gen_id s).0, [])
