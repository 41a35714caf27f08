-- ===== src/Session/Ops/Guarded.antt =====
-- What the methods that test, call the streamer and test again have done when they return true, and
-- when they return false, whatever happened in their gaps.
use ma_dlna.Base.{
  ℕ, Bool, true, false, not, ◌∷◌, ◌≡◌, ◌⊎◌, inl, inr, refl, ap, some, String, arith, if◌then◌else◌,
  Option-cases, Bool-cases,
}
use ma_dlna.Base.Dict.{lookup, lookup-insert}
use ma_dlna.Session.Types.{playing, starting, error, Session, Manager}
use ma_dlna.Session.Manager.{
  is_current_generation_active, accept_section, fail_section, moved, broken,
}
use ma_dlna.Session.Api.{Api}
use ma_dlna.Session.Ops.{
  World, notify, set_manager, set_streamer, accept_playback_if_generation,
  stop_with_error_if_generation_active,
}

-- An accepted section of `AcceptPlaybackIfGeneration`, from `m` to `m'`.
pub record Accepts (sid : String) (gen_id : ℕ) (m m' : Manager) : Type 0 where
  pub active : is_current_generation_active sid gen_id m ≡ true
  pub before : (s : Session) × (lookup sid m.sessions ≡ some s) × (s.state ≡ starting)
  pub after : (s : Session) × (lookup sid m'.sessions ≡ some s) × (s.state ≡ playing)

accept_section-Accepts :
    (sid : String) (gen_id now : ℕ) (m : Manager)
    → (accept_section sid gen_id now m).1 ≡ true
    → Accepts sid gen_id m (accept_section sid gen_id now m).0
unfolding accept_section
accept_section-Accepts sid gen_id now m ok = elim (Option-cases (lookup sid m.sessions)) [
  | inl no_one ↦ ground (arith, ok, no_one)
  | inr (s, there) ↦ record {
    active = ground (arith, ok, there);
    before = (s, there, ground (arith, ok, there));
    after = (
      moved playing now s,
      ground (arith, ok, there, lookup-insert sid sid (moved playing now s) m.sessions),
      refl,
    );
  }
]

accept_section-refused :
    (sid : String) (gen_id now : ℕ) (m : Manager)
    → (accept_section sid gen_id now m).1 ≡ false
    → (accept_section sid gen_id now m).0 ≡ m
unfolding accept_section
accept_section-refused sid gen_id now m e = ground (arith, e)

pub record Fails (sid : String) (gen_id : ℕ) (message : String) (m m' : Manager) : Type 0 where
  pub active : is_current_generation_active sid gen_id m ≡ true
  pub after :
      (s : Session) × (lookup sid m'.sessions ≡ some s)
      × (s.state ≡ error)
      × (s.error_text ≡ message)

fail_section-Fails :
    (sid : String) (gen_id : ℕ) (message : String) (now : ℕ) (m : Manager)
    → (fail_section sid gen_id message now m).1 ≡ true
    → Fails sid gen_id message m (fail_section sid gen_id message now m).0
unfolding fail_section
fail_section-Fails sid gen_id message now m ok = elim (Option-cases (lookup sid m.sessions)) [
  | inl no_one ↦ ground (arith, ok, no_one)
  | inr (s, there) ↦ record {
    active = ground (arith, ok, there);
    after = (
      broken message now s,
      ground (arith, ok, there, lookup-insert sid sid (broken message now s) m.sessions),
      refl,
      refl,
    );
  }
]

fail_section-refused :
    (sid : String) (gen_id : ℕ) (message : String) (now : ℕ) (m : Manager)
    → (fail_section sid gen_id message now m).1 ≡ false
    → (fail_section sid gen_id message now m).0 ≡ m
unfolding fail_section
fail_section-refused sid gen_id message now m e = ground (arith, e)

module _ {S : Type 0} (api : Api S) (before after : World S → World S) (sid : String)
    (gen_id now : ℕ) (w : World S) where
  -- the world after the streamer has accepted, and after the second gap
  abbrev accepted : World S
  accepted =
      let w' = before w in set_streamer w' (api.mark_playback_accepted sid gen_id w'.streamer).0

  -- the results of `AcceptPlaybackIfGeneration`
  pub data Accepting : World S × Bool → Type 0 where
    accepting :
        (m : Manager)
        → is_current_generation_active sid gen_id w.manager ≡ true
        → (api.mark_playback_accepted sid gen_id (before w).streamer).1 ≡ true
        → Accepts sid gen_id (after accepted).manager m
        → Accepting (set_manager (after accepted) m, true)
    not_accepting :
        (w' : World S) → (w' ≡ w) ⊎ (w' ≡ accepted) ⊎ (w' ≡ after accepted) → Accepting (w', false)

  accept_after :
      is_current_generation_active sid gen_id w.manager ≡ true
      → (api.mark_playback_accepted sid gen_id (before w).streamer).1 ≡ true
      → (let r = accept_section sid gen_id now (after accepted).manager in
          Accepting (set_manager (after accepted) r.0, r.1))
  accept_after a b =
      let m = (after accepted).manager in
      let r = accept_section sid gen_id now m in
      elim (Bool-cases r.1) [
        | inl e ↦ rw e (accepting r.0 a b (accept_section-Accepts sid gen_id now m e))
        | inr e ↦ rw e (
            not_accepting (set_manager (after accepted) r.0) (
              inr (
                inr
                  (ap (set_manager (after accepted)) (accept_section-refused sid gen_id now m e)))))
      ]

  -- Whatever happens in its two gaps, `AcceptPlaybackIfGeneration` has one of these results. Where it
  -- returns true, the session was current, active and of the generation at the start and again after
  -- the gaps, the streamer had accepted the generation, and the session has gone from starting to
  -- playing. Where it returns false, it has changed no session itself.
  pub accept_playback-Accepting :
      Accepting (accept_playback_if_generation api before after sid gen_id now w)
  unfolding accept_playback_if_generation
  accept_playback-Accepting =
      let ok = (api.mark_playback_accepted sid gen_id (before w).streamer).1 in
      elim (Bool-cases (is_current_generation_active sid gen_id w.manager)) [
        | inr e ↦
            rw (accept_playback_if_generation, e, not, if◌then◌else◌) (not_accepting w (inl refl))
        | inl a ↦ elim (Bool-cases ok) [
          | inr e ↦
              rw (accept_playback_if_generation, a, not, if◌then◌else◌, e)
                (not_accepting accepted (inr (inl refl)))
          | inl b ↦ rw (accept_playback_if_generation, a, not, if◌then◌else◌, b) (accept_after a b)
        ]
      ]

module _ {S : Type 0} (api : Api S) (before after : World S → World S) (sid : String) (gen_id : ℕ)
    (message : String) (now : ℕ) (w : World S) where
  abbrev halted : World S
  halted = let w' = before w in set_streamer w' (api.stop_if_generation sid gen_id w'.streamer).0

  -- the results of `StopWithErrorIfGenerationActive`
  pub data Failing : World S × Bool → Type 0 where
    failing :
        (m : Manager)
        → is_current_generation_active sid gen_id w.manager ≡ true
        → (api.stop_if_generation sid gen_id (before w).streamer).1 ≡ true
        → Fails sid gen_id message (after halted).manager m
        → Failing (
          record (after halted) {
            manager = m;
            notified = (sid, message) ∷ (after halted).notified;
          },
          true,
        )
    not_failing :
        (w' : World S) → (w' ≡ w) ⊎ (w' ≡ halted) ⊎ (w' ≡ after halted) → Failing (w', false)

  fail_after :
      is_current_generation_active sid gen_id w.manager ≡ true
      → (api.stop_if_generation sid gen_id (before w).streamer).1 ≡ true
      → Failing (
          notify
            (after halted)
            sid
            message
            (fail_section sid gen_id message now (after halted).manager))
  fail_after a b =
      let m = (after halted).manager in
      let r = fail_section sid gen_id message now m in
      elim (Bool-cases r.1) [
        | inl e ↦
            rw (notify, e, if◌then◌else◌)
              (failing r.0 a b (fail_section-Fails sid gen_id message now m e))
        | inr e ↦
            rw (notify, e, if◌then◌else◌)
              (not_failing (set_manager (after halted) r.0) (
                inr (
                  inr (
                    ap (set_manager (after halted))
                      (fail_section-refused sid gen_id message now m e)))))
      ]

  -- Whatever happens in its two gaps, `StopWithErrorIfGenerationActive` has one of these results. Where
  -- it returns true, the session was current, active and of the generation at the start and again
  -- after the gaps, the streamer had stopped the generation, and the session is in error with the
  -- message, of which the notifier was told once. Where it returns false, it has changed no session
  -- and told nothing itself.
  pub stop_with_error-Failing :
      Failing (stop_with_error_if_generation_active api before after sid gen_id message now w)
  unfolding stop_with_error_if_generation_active
  stop_with_error-Failing =
      let ok = (api.stop_if_generation sid gen_id (before w).streamer).1 in
      elim (Bool-cases (is_current_generation_active sid gen_id w.manager)) [
        | inr e ↦
            rw (stop_with_error_if_generation_active, e, not, if◌then◌else◌)
              (not_failing w (inl refl))
        | inl a ↦ elim (Bool-cases ok) [
          | inr e ↦
              rw (stop_with_error_if_generation_active, a, not, if◌then◌else◌, e)
                (not_failing halted (inr (inl refl)))
          | inl b ↦
              rw (stop_with_error_if_generation_active, a, not, if◌then◌else◌, b) (fail_after a b)
        ]
      ]
