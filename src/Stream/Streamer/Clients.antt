-- ===== src/Stream/Streamer/Clients.antt =====
-- No generation ever has more clients than the configuration allows.
use ma_dlna.Base.{ℕ, ◌≤◌, Bool, false, List, [], ◌∷◌, String, arith, length}
use ma_dlna.Base.Dict.{length-insert-le, length-delete-le}
use ma_dlna.Base.Int.{ℤ}
use ma_dlna.Stream.Gen.{
  Client, fresh, accumulate_init_buf, close_clients, kill_cmd, set_err, accept_presentation,
  presentation_elapsed,
}
use ma_dlna.Stream.Replay.{replay}
use ma_dlna.Stream.Streamer.{
  Streamer, start, stop_locked, stop_found, halt, elapsed_at, restart_finish, resume_found,
  mark_playback_accepted_if_generation,
}
use ma_dlna.Stream.Streamer.Run.{
  close_started, mark_error, run_started, store_chunk, keep_chunk, send_chunk, exit_off,
  exit_locked, exit_clients, exit_done, startup_claim, switch_off, cancel_gen, kill_gen, broadcast,
  send_all,
}
use ma_dlna.Stream.Streamer.Serve.{attach_client, attach_status, detach_client}
use ma_dlna.Stream.Streamer.Steps.{
  Event, starts, unregisters, halts, stops_if, restarts, resumes, asks, accepts, no_start, errs,
  reports, runs, stores, keeps, sends, goes_off, exits, closes, reports_end, is_done, claims,
  switches_off, cancels, kills, attaches, detaches, step, run,
}

abbrev pub IsBounded : Streamer → Type 0
IsBounded s = (g : ℕ) → length (s.gen_at g).clients ≤ s.cfg.max_clients_per_session

length-send_all :
    (done_first : String → Bool) (chunk : List ℕ) (clients : List (String × Client))
    → length (send_all done_first chunk clients).0 ≤ length clients
unfolding send_all
length-send_all done_first chunk [] = omega arith
length-send_all done_first chunk ((id, c) ∷ clients) =
    ground (arith, length-send_all done_first chunk clients)

module _ (s : Streamer) (v : IsBounded s) where
  sends-IsBounded :
      (done_first : String → Bool) (g : ℕ) (chunk : List ℕ)
      → IsBounded (send_chunk done_first g chunk s)
  unfolding send_chunk broadcast
  sends-IsBounded done_first g chunk k =
      ground (arith, v k, v g, length-send_all done_first chunk (s.gen_at g).clients)

  attaches-IsBounded : (id sid : String) (a g : ℕ) → IsBounded (attach_client id sid a g s).0
  unfolding attach_client attach_status
  attaches-IsBounded id sid a g k =
      let c : Client = record { cancelled = false; ch = replay s.cfg (s.gen_at g) } in
      ground (arith, v k, v g, length-insert-le id c (s.gen_at g).clients)

  detaches-IsBounded : (id : String) (g : ℕ) → IsBounded (detach_client id g s).0
  unfolding detach_client
  detaches-IsBounded id g k = ground (arith, v k, v g, length-delete-le id (s.gen_at g).clients)

  stop_locked-IsBounded : (a : ℕ) → IsBounded (stop_locked a s).0
  unfolding stop_locked halt close_clients
  stop_locked-IsBounded a k = ground (arith, v k)

  stop_found-IsBounded : (sid : String) (gen_id a : ℕ) → IsBounded (stop_found sid gen_id a s).0
  unfolding stop_found stop_locked halt close_clients
  stop_found-IsBounded sid gen_id a k = ground (arith, v k)

  accepts-IsBounded :
      (sid : String) (gen_id : ℕ) (now : ℤ)
      → IsBounded (mark_playback_accepted_if_generation sid gen_id now s).0
  unfolding mark_playback_accepted_if_generation accept_presentation
  accepts-IsBounded sid gen_id now k = ground (arith, v k, v)

-- Every section keeps the number of clients of each generation within the limit.
pub step-IsBounded : (e : Event) (s : Streamer) → IsBounded s → IsBounded (step e s).0
unfolding step start restart_finish resume_found fresh elapsed_at presentation_elapsed close_started
    mark_error run_started store_chunk keep_chunk accumulate_init_buf exit_off exit_locked
    exit_clients exit_done startup_claim switch_off cancel_gen kill_gen set_err kill_cmd
    close_clients
step-IsBounded (sends done_first g chunk) s v = sends-IsBounded s v done_first g chunk
step-IsBounded (attaches id sid a g) s v = attaches-IsBounded s v id sid a g
step-IsBounded (detaches id g) s v = detaches-IsBounded s v id g
step-IsBounded (halts a) s v = stop_locked-IsBounded s v a
step-IsBounded (stops_if sid gen_id a) s v = stop_found-IsBounded s v sid gen_id a
step-IsBounded (accepts sid gen_id now) s v = accepts-IsBounded s v sid gen_id now
step-IsBounded (unregisters sid) s v = v
step-IsBounded (starts sid uri now) s v = λ k. ground (arith, v k)
step-IsBounded (restarts a sid offset size) s v = λ k. ground (arith, v k)
step-IsBounded (resumes a sid now) s v = λ k. ground (arith, v k)
step-IsBounded (asks a now) s v = λ k. ground (arith, v k, v (s.stream_at a).gen)
step-IsBounded (no_start g) s v = λ k. ground (arith, v k, v g)
step-IsBounded (errs g m) s v = λ k. ground (arith, v k, v g)
step-IsBounded (reports a g m) s v = v
step-IsBounded (runs g) s v = λ k. ground (arith, v k, v g)
step-IsBounded (stores g chunk) s v = λ k. ground (arith, v k, v g)
step-IsBounded (keeps g chunk) s v = λ k. ground (arith, v k, v g)
step-IsBounded (goes_off g) s v = λ k. ground (arith, v k, v g)
step-IsBounded (exits a g had_error) s v = λ k. ground (arith, v k)
step-IsBounded (closes g) s v = λ k. ground (arith, v k, v g)
step-IsBounded (reports_end a g) s v = v
step-IsBounded (is_done g) s v = λ k. ground (arith, v k, v g)
step-IsBounded (claims a g) s v = λ k. ground (arith, v k, v g)
step-IsBounded (switches_off a) s v = λ k. ground (arith, v k)
step-IsBounded (cancels g) s v = λ k. ground (arith, v k, v g)
step-IsBounded (kills g) s v = λ k. ground (arith, v k, v g)

-- So under every schedule of sections no generation ever has more clients than
-- `max_clients_per_session`, if none had before.
pub run-IsBounded : (es : List Event) (s : Streamer) → IsBounded s → IsBounded (run es s).0
unfolding run
run-IsBounded [] s v = v
run-IsBounded (e ∷ es) s v = run-IsBounded es (step e s).0 (step-IsBounded e s v)
