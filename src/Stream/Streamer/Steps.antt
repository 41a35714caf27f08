-- ===== src/Stream/Streamer/Steps.antt =====
-- The atomic sections of the streamer as one step function: any interleaving of handlers, encoder
-- goroutines and timers is a list of these events. An event names the stream and the generation
-- that its goroutine holds, which may long have been replaced; a report may come at any time after the
-- test that allows it.
use ma_dlna.Base.{ℕ, Bool, List, [], ◌∷◌, ◌++◌, String}
use ma_dlna.Base.Dict.{delete}
use ma_dlna.Base.Int.{ℤ}
use ma_dlna.Stream.Streamer.{
  Streamer, Callback, start, stop_locked, stop_found, elapsed_at, restart_finish, resume_found,
  mark_playback_accepted_if_generation,
}
use ma_dlna.Stream.Streamer.Run.{
  close_started, mark_error, error_call, run_started, store_chunk, keep_chunk, send_chunk, exit_off,
  exit_locked, exit_clients, end_call, exit_done, startup_claim, switch_off, cancel_gen, kill_gen,
}
use ma_dlna.Stream.Streamer.Serve.{attach_client, detach_client}

pub data Event : Type 0 where
  starts : String → String → ℤ → Event
  unregisters : String → Event
  halts : ℕ → Event
  stops_if : String → ℕ → ℕ → Event
  restarts : ℕ → String → ℤ → ℕ → Event
  resumes : ℕ → String → ℤ → Event
  asks : ℕ → ℤ → Event
  accepts : String → ℕ → ℤ → Event
  no_start : ℕ → Event
  errs : ℕ → String → Event
  reports : ℕ → ℕ → String → Event
  runs : ℕ → Event
  stores : ℕ → List ℕ → Event
  keeps : ℕ → List ℕ → Event
  sends : (String → Bool) → ℕ → List ℕ → Event
  goes_off : ℕ → Event
  exits : ℕ → ℕ → Bool → Event
  closes : ℕ → Event
  reports_end : ℕ → ℕ → Event
  is_done : ℕ → Event
  claims : ℕ → ℕ → Event
  switches_off : ℕ → Event
  cancels : ℕ → Event
  kills : ℕ → Event
  attaches : String → String → ℕ → ℕ → Event
  detaches : String → ℕ → Event

unfoldable pub step : Event → Streamer → Streamer × List Callback
step (starts sid uri now) s = start sid uri now s
step (unregisters sid) s = (record s { streams = delete sid s.streams }, [])
step (halts a) s = ((stop_locked a s).0, [])
step (stops_if sid gen_id a) s = ((stop_found sid gen_id a s).0, [])
step (restarts a sid offset size) s = restart_finish a sid offset size s
step (resumes a sid now) s = resume_found a sid now s
step (asks a now) s = ((elapsed_at a now s).0, [])
step (accepts sid gen_id now) s = ((mark_playback_accepted_if_generation sid gen_id now s).0, [])
step (no_start g) s = (close_started g s, [])
step (errs g message) s = (mark_error g message s, [])
step (reports a g message) s = (s, error_call a g message s)
step (runs g) s = (run_started g s, [])
step (stores g chunk) s = (store_chunk g chunk s, [])
step (keeps g chunk) s = (keep_chunk g chunk s, [])
step (sends done_first g chunk) s = (send_chunk done_first g chunk s, [])
step (goes_off g) s = (exit_off g s, [])
step (exits a g had_error) s = ((exit_locked a g had_error s).0, [])
step (closes g) s = (exit_clients g s, [])
step (reports_end a g) s = (s, end_call a g s)
step (is_done g) s = (exit_done g s, [])
step (claims a g) s = ((startup_claim a g s).0, [])
step (switches_off a) s = (switch_off a s, [])
step (cancels g) s = (cancel_gen g s, [])
step (kills g) s = (kill_gen g s, [])
step (attaches id sid a g) s = let (s', calls, status) = attach_client id sid a g s in (s', calls)
step (detaches id g) s = ((detach_client id g s).0, [])

-- a schedule of events, with the callbacks in order
unfoldable pub run : List Event → Streamer → Streamer × List Callback
run [] s = (s, [])
run (e ∷ es) s = let (s', calls) = step e s in let (s'', later) = run es s' in (s'', calls ++ later)
