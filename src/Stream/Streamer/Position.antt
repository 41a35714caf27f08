-- ===== src/Stream/Streamer/Position.antt =====
-- The position of a paused stream: frozen while it is paused, and kept when it resumes.
use ma_dlna.Base.{
  [], ◌⊎◌, inl, inr, Bool-cases, ℕ, ◌≡◌, refl, true, false, some, String, arith, if◌then◌else◌, ◌∙◌,
}
use ma_dlna.Base.Dict.{lookup}
use ma_dlna.Base.Int.{ℤ, pos}
use ma_dlna.Stream.Gen.{fresh, presentation_elapsed}
use ma_dlna.Stream.Streamer.{
  Streamer, elapsed, elapsed_at, restart_with_offset, restart_finish, restart_begin, pause, resume,
  resume_found, still_current, current_gen, is_running,
}

-- The stream waits to be resumed at a position.
pub record IsPaused (s : Streamer) (a : ℕ) (p : ℤ) : Type 0 where
  pub idle : (s.stream_at a).runs_in_flight ≡ 0
  pub active : (s.stream_at a).active ≡ true
  pub placed : (current_gen s a).offset ≡ p
  pub unaccepted : (current_gen s a).pres_accepted ≡ false

pub restart-IsPaused :
    (a : ℕ) (sid : String) (p : ℤ) (size : ℕ) (s : Streamer)
    → IsPaused (restart_finish a sid p size s).0 a p
unfolding restart_finish fresh
restart-IsPaused a sid p size s = ground arith

-- before the presentation is accepted the position is the offset
elapsed_at-offset :
    (s : Streamer) (a : ℕ) (now : ℤ)
    → (current_gen s a).pres_accepted ≡ false
    → (elapsed_at a now s).1 ≡ (current_gen s a).offset
unfolding elapsed_at presentation_elapsed
elapsed_at-offset s a now h = ground arith

-- A pause of a registered stream, whatever other goroutines do before it gets the lock and while it
-- waits for the encoder. If the stream is still registered when it has the lock, then it returns the
-- position of that moment and leaves the stream paused there; and if it is not, then it does nothing,
-- reports nothing and returns the position 0.
pub pause-IsPaused :
    (env wait : Streamer → Streamer) (sid : String) (now : ℤ) (s : Streamer) (a : ℕ)
    → lookup sid s.streams ≡ some a
    → let (s', calls, p) = pause env wait sid now s in
      ((still_current (env s) sid a ≡ true) × IsPaused s' a p × (p ≡ (elapsed sid now (env s)).1))
      ⊎ ((still_current (env s) sid a ≡ false) × (s' ≡ env s) × (calls ≡ []) × (p ≡ pos 0))
unfolding pause restart_with_offset
pause-IsPaused env wait sid now s a here =
    let at = (elapsed sid now (env s)).1 in
    let s' = (elapsed sid now (env s)).0 in
    let size = (current_gen s' a).ring.size in
    elim (Bool-cases (still_current (env s) sid a)) [
      | inl still ↦
          rw (here, pause)
            (rw (still, if◌then◌else◌)
              (inl (refl, restart-IsPaused a sid at size (wait (restart_begin a s')), refl)))
      | inr gone ↦ rw (here, pause) (rw (gone, if◌then◌else◌) (inr (refl, refl, refl, refl)))
    ]

elapsed_of_lookup :
    (s : Streamer) (sid : String) (a : ℕ) (now : ℤ)
    → lookup sid s.streams ≡ some a
    → (current_gen s a).pres_accepted ≡ false
    → (elapsed sid now s).1 ≡ (current_gen s a).offset
unfolding elapsed
elapsed_of_lookup s sid a now here h = rw (here, elapsed) (elapsed_at-offset s a now h)

-- a resumed stream
record IsResumed (s : Streamer) (sid : String) (a : ℕ) (p : ℤ) : Type 0 where
  registered : lookup sid s.streams ≡ some a
  placed : (current_gen s a).offset ≡ p
  unaccepted : (current_gen s a).pres_accepted ≡ false
  running : is_running sid s ≡ true

resume-IsResumed :
    (s : Streamer) (sid : String) (a : ℕ) (p now : ℤ)
    → IsPaused s a p
    → lookup sid s.streams ≡ some a
    → IsResumed (resume (λ u. u) sid now s).0 sid a p
unfolding resume resume_found fresh still_current is_running
resume-IsResumed s sid a p now v here = ground arith

-- A paused stream reports its position at all later times. When it is resumed it runs, and still
-- reports that position until the playback is accepted.
pub resume_position :
    (s : Streamer) (sid : String) (a : ℕ) (p now later : ℤ)
    → IsPaused s a p
    → lookup sid s.streams ≡ some a
    → let t = (resume (λ u. u) sid now s).0 in
      ((elapsed sid later s).1 ≡ p) × (is_running sid t ≡ true) × ((elapsed sid later t).1 ≡ p)
resume_position s sid a p now later v here =
    let t = (resume (λ u. u) sid now s).0 in
    let r = resume-IsResumed s sid a p now v here in
    (
      elapsed_of_lookup s sid a later here v.unaccepted ∙ v.placed,
      r.running,
      elapsed_of_lookup t sid a later r.registered r.unaccepted ∙ r.placed,
    )
