-- ===== src/Stream/Streamer/Startup.antt =====
-- The startup timeout against a restart: the timer of an old generation can switch its stream off.
use ma_dlna.Base.{ℕ, ◌<◌, true, false, [], ◌∷◌, ◌≡◌, some, String, arith}
use ma_dlna.Base.Dict.{lookup}
use ma_dlna.Base.Int.{ℤ}
use ma_dlna.Stream.Gen.{fresh}
use ma_dlna.Stream.Streamer.{Streamer, current_gen, stop_locked, halt, restart_finish, resume}
use ma_dlna.Stream.Streamer.Run.{
  startup_claim, startup_give_up, report_error, switch_off, cancel_gen, kill_gen,
}
use ma_dlna.Stream.Streamer.Steps.{step, run, claims, halts, restarts}

-- A pause or seek between the first section of the startup timeout of generation `g` and the others.
abbrev pub race : ℕ → ℕ → String → ℤ → ℕ → String → Streamer → Streamer
race a g sid p size m s =
    (startup_give_up (λ i u. u) a g m
      (run (claims a g ∷ halts a ∷ restarts a sid p size ∷ []) s).0).0

-- For every active stream whose startup timeout claims its current generation: if a pause or seek
-- restarts it between the first section of the startup timeout and the others, the stream ends
-- inactive though its current generation is the new one and is not cancelled, and a resume then does
-- nothing.
pub race-inactive :
    (a : ℕ) (sid m : String) (p now : ℤ) (size : ℕ) (s : Streamer)
    → (s.stream_at a).gen < s.gen_count
    → (s.stream_at a).active ≡ true
    → (startup_claim a (s.stream_at a).gen s).1 ≡ true
    → lookup sid s.streams ≡ some a
    → let t = race a (s.stream_at a).gen sid p size m s in
      ((t.stream_at a).active ≡ false)
      × ((t.stream_at a).gen ≡ s.gen_count)
      × ((current_gen t a).ctx_err ≡ false)
      × (resume (λ u. u) sid now t ≡ (t, []))
unfolding run step startup_claim stop_locked halt restart_finish startup_give_up report_error
    switch_off cancel_gen kill_gen resume fresh
race-inactive a sid m p now size s low live claimed here = ground arith
