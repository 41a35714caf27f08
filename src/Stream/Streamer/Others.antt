-- ===== src/Stream/Streamer/Others.antt =====
-- What an encoder alone writes of its generation: its ring and its init segment.
use ma_dlna.Base.{ℕ, ◌<◌, List, [], ◌∷◌, ◌≡◌, refl, ◌∙◌, String, All, arith}
use ma_dlna.Stream.Gen.{
  Gen, fresh, close_clients, kill_cmd, set_err, accept_presentation, presentation_elapsed,
}
use ma_dlna.Stream.Streamer.{
  Streamer, start, stop_locked, stop_found, halt, elapsed_at, restart_finish, resume_found,
  mark_playback_accepted_if_generation,
}
use ma_dlna.Stream.Streamer.Run.{
  close_started, mark_error, run_started, store_chunk, keep_chunk, send_chunk, broadcast, exit_off,
  exit_locked, exit_clients, exit_done, startup_claim, switch_off, cancel_gen, kill_gen,
}
use ma_dlna.Stream.Streamer.Serve.{attach_client, detach_client}
use ma_dlna.Stream.Streamer.Steps.{
  Event, starts, unregisters, halts, stops_if, restarts, resumes, asks, accepts, no_start, errs,
  reports, runs, stores, keeps, sends, goes_off, exits, closes, reports_end, is_done, claims,
  switches_off, cancels, kills, attaches, detaches, step, run,
}

-- A section in which the encoder of the generation writes its output.
abbrev pub IsOutput : ℕ → Event → Type 0
IsOutput g (stores k chunk) = k ≡ g
IsOutput g (keeps k chunk) = k ≡ g
IsOutput g _ = ⊥

pub record Same (gen gen' : Gen) : Type 0 where
  pub ring : gen'.ring ≡ gen.ring
  pub buf : gen'.init_buf ≡ gen.init_buf
  pub size : gen'.init_buf_size ≡ gen.init_buf_size
  pub limit : gen'.init_buf_limit ≡ gen.init_buf_limit
  pub closed : gen'.init_buf_done ≡ gen.init_buf_done

-- The generation is still there, with the same output.
abbrev pub Kept : ℕ → Streamer → Streamer → Type 0
Kept g s t = (g < t.gen_count) × Same (s.gen_at g) (t.gen_at g)

Kept-refl : (g : ℕ) (s : Streamer) → g < s.gen_count → Kept g s s
Kept-refl g s low =
    (low, record { ring = refl; buf = refl; size = refl; limit = refl; closed = refl })

module _ (g : ℕ) (s : Streamer) (low : g < s.gen_count) where
  stop_found-Kept : (sid : String) (gen_id a : ℕ) → Kept g s (stop_found sid gen_id a s).0
  unfolding stop_found stop_locked halt close_clients kill_cmd
  stop_found-Kept sid gen_id a = ground (arith, low)

  step-Kept : (e : Event) → ¬ IsOutput g e → Kept g s (step e s).0
  unfolding step start restart_finish resume_found fresh elapsed_at presentation_elapsed stop_locked
      halt mark_playback_accepted_if_generation accept_presentation close_started mark_error
      run_started store_chunk keep_chunk send_chunk broadcast exit_off exit_locked exit_clients
      exit_done startup_claim switch_off cancel_gen kill_gen set_err kill_cmd close_clients
      attach_client detach_client
  step-Kept (starts sid uri now) h = ground (arith, low)
  step-Kept (unregisters sid) h = Kept-refl g s low
  step-Kept (halts a) h = ground (arith, low)
  step-Kept (stops_if sid gen_id a) h = stop_found-Kept sid gen_id a
  step-Kept (restarts a sid offset size) h = ground (arith, low)
  step-Kept (resumes a sid now) h = ground (arith, low)
  step-Kept (asks a now) h = ground (arith, low)
  step-Kept (accepts sid gen_id now) h = ground (arith, low)
  step-Kept (no_start k) h = ground (arith, low)
  step-Kept (errs k m) h = ground (arith, low)
  step-Kept (reports a k m) h = Kept-refl g s low
  step-Kept (runs k) h = ground (arith, low)
  step-Kept (stores k chunk) h = ground (arith, low, h)
  step-Kept (keeps k chunk) h = ground (arith, low, h)
  step-Kept (sends done_first k chunk) h = ground (arith, low)
  step-Kept (goes_off k) h = ground (arith, low)
  step-Kept (exits a k had_error) h = ground (arith, low)
  step-Kept (closes k) h = ground (arith, low)
  step-Kept (reports_end a k) h = Kept-refl g s low
  step-Kept (is_done k) h = ground (arith, low)
  step-Kept (claims a k) h = ground (arith, low)
  step-Kept (switches_off a) h = ground (arith, low)
  step-Kept (cancels k) h = ground (arith, low)
  step-Kept (kills k) h = ground (arith, low)
  step-Kept (attaches id sid a k) h = ground (arith, low)
  step-Kept (detaches id k) h = ground (arith, low)

Kept-trans : (g : ℕ) (s t u : Streamer) → Kept g s t → Kept g t u → Kept g s u
Kept-trans g s t u (_, p) (low, q) = (
  low,
  record {
    ring = q.ring ∙ p.ring;
    buf = q.buf ∙ p.buf;
    size = q.size ∙ p.size;
    limit = q.limit ∙ p.limit;
    closed = q.closed ∙ p.closed;
  },
)

-- No schedule of other sections changes what the encoder has written.
pub run-Kept :
    (es : List Event) (g : ℕ) (s : Streamer)
    → g < s.gen_count
    → All (λ e. ¬ IsOutput g e) es
    → Kept g s (run es s).0
unfolding run
run-Kept [] g s low h = Kept-refl g s low
run-Kept (e ∷ es) g s low (h, hs) =
    let k = step-Kept g s low e h in
    let t = (step e s).0 in Kept-trans g s t (run es t).0 k (run-Kept es g t k.0 hs)
