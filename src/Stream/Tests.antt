-- ===== src/Stream/Tests.antt =====
-- Runs of the stream components on concrete inputs.
use ma_dlna.Base.{
  ◌++◌, ◌<◌, ◌≤◌, length, ℕ, true, false, List, [], ◌∷◌, ◌≡◌, ◌⊎◌, refl, none, some, replicate,
  arith,
}
use mathlib.Core.List.{flatten}
use ma_dlna.Base.Dict.{lookup, insert}
use ma_dlna.Base.Int.{pos}
use ma_dlna.Stream.Ring.{new as new_ring, Ring, write, read}
use ma_dlna.Stream.Ring.Refine.{
  Represents, new-Represents, write-Represents, Reads, first, read-Reads,
}
use ma_dlna.Stream.Gen.{accumulate_init_buf, Client, Gen, fresh, close_clients, kill_cmd}
use ma_dlna.Stream.Replay.{StreamConfig, replay}
use ma_dlna.Stream.Replay.Attach.{Attached, prefix_sent, suffix_sent, replay-Attached}
use ma_dlna.Stream.Streamer
use ma_dlna.Stream.Streamer.{
  Streamer, Callback, pause, resume, is_running, stop_if_generation, start, blank_stream, is_active,
  restart_finish, stop_locked, halt, still_current, current_gen,
}
use ma_dlna.Stream.Streamer.Run.{keep_chunk, store_chunk, run_exit, run_started, startup_claim}
use ma_dlna.Stream.Streamer.Steps.{
  sends, Event, starts, halts, runs, attaches, restarts, exits, step, run,
}
use ma_dlna.Stream.Streamer.Valid.{IsValid, Grows}
use ma_dlna.Stream.Streamer.Valid.Schedules.{run-IsValid}
use ma_dlna.Stream.Streamer.Stale.{StaleExit, run_exit-stale, stop_if_generation-stale}
use ma_dlna.Stream.Streamer.Clients.{IsBounded, run-IsBounded}
use ma_dlna.Stream.Streamer.Position.{IsPaused, pause-IsPaused}
use ma_dlna.Stream.Streamer.Startup.{race, race-inactive}
use ma_dlna.Stream.Streamer.Output.{
  store-Half, keep-Fed, Round, written, Fed, fresh-Fed, run_chunks, run_chunks-Attached,
}
use ma_dlna.Stream.Streamer.Twice.{kept, attach-twice}
use ma_dlna.Stream.Streamer.Serve.{attach_status, is_broken}
use ma_dlna.Stream.Stderr.{redact_stderr}
use ma_dlna.Stream.Stderr.Pass.{redact_pass, outside}
use ma_dlna.Stream.Stderr.Redact.{redact_stderr-eq-pass}

abbrev bytes : List ℕ
bytes = 1 ∷ 2 ∷ 3 ∷ 4 ∷ 5 ∷ 6 ∷ []

write-Represents_example : Represents (write (new_ring 4) bytes) bytes
write-Represents_example =
    write-Represents (new_ring 4) bytes [] (new-Represents 4 (omega arith)) (omega arith)

abbrev wrapped : Ring
wrapped = write (new_ring 4) bytes

read-Reads_example :
    Reads bytes (first wrapped bytes (pos 0)) (replicate 8 0) (read wrapped (pos 0) (replicate 8 0))
read-Reads_example = read-Reads wrapped bytes (pos 0) (replicate 8 0) write-Represents_example

abbrev gen₀ : Gen
gen₀ = fresh (new_ring 4) (pos 5) 3 1 none

abbrev cfg : StreamConfig
cfg = record {
  prebuffer_bytes = 2;
  ring_buffer_bytes = 4;
  init_segment_bytes = 3;
  max_replay_bytes = 4;
  max_clients_per_session = 2;
}

abbrev idle : Streamer
idle = record {
  cfg = cfg;
  streams = [];
  next_gen_id = 0;
  stream_count = 0;
  stream_at = λ a. blank_stream "" "";
  gen_count = 0;
  gen_at = λ g. gen₀;
}

idle-IsValid : IsValid idle
unfolding lookup
idle-IsValid = record {
  counted = refl;
  ids = λ g h. absurd (omega arith);
  current = λ a h. absurd (omega arith);
  mapped = λ sid a h. cc h;
}

-- a stream is started, its encoder runs and a client attaches; then a seek replaces the generation
abbrev events : List Event
events =
    starts "s" "http://host/a" (pos 0)
    ∷ runs 0
    ∷ attaches "c" "s" 0 0
    ∷ halts 0
    ∷ restarts 0 "s" (pos 7) 4
    ∷ exits 0 0 false
    ∷ []

run-IsValid_example : IsValid (run events idle).0 × Grows idle (run events idle).0
run-IsValid_example = run-IsValid events idle (omega arith) idle-IsValid

run-IsBounded_example : IsBounded (run events idle).0
unfolding fresh
run-IsBounded_example = run-IsBounded events idle (λ g. omega arith)

-- the stream of `events`, and its address
abbrev served : Streamer
served = (run (starts "s" "http://host/a" (pos 0) ∷ runs 0 ∷ []) idle).0

served-IsValid : IsValid served × Grows idle served
served-IsValid =
    run-IsValid (starts "s" "http://host/a" (pos 0) ∷ runs 0 ∷ []) idle (omega arith) idle-IsValid

abbrev restart : List Event
restart = halts 0 ∷ restarts 0 "s" (pos 7) 4 ∷ []

abbrev restarted : Streamer
restarted = (run restart served).0

restarted-IsValid : IsValid restarted × Grows served restarted
unfolding run step start is_active blank_stream lookup run_started
restarted-IsValid = run-IsValid restart served (omega arith) served-IsValid.0

served_here : lookup "s" served.streams ≡ some 0
unfolding run step start is_active blank_stream lookup insert run_started
served_here = ground arith

restarted_here : lookup "s" restarted.streams ≡ some 0
unfolding run step start is_active blank_stream lookup insert restart_finish fresh stop_locked halt
    close_clients kill_cmd run_started
restarted_here = ground arith

stop_if_generation-stale_example :
    stop_if_generation (λ u. (run [] u).0) "s" 1 restarted ≡ ((run [] restarted).0, false)
unfolding run step start is_active blank_stream lookup insert restart_finish fresh stop_locked halt
    close_clients kill_cmd run_started
stop_if_generation-stale_example =
    stop_if_generation-stale [] restarted "s" 1 0 (omega arith) restarted-IsValid.0 restarted_here
      (omega arith) (omega arith) restarted_here

-- a client attaches in each gap of the end of the first encoder
abbrev meanwhile : ℕ → List Event
meanwhile i = attaches "c" "s" 0 1 ∷ []

run_exit-stale_example :
    StaleExit meanwhile 0 restarted (run_exit (λ i u. (run (meanwhile i) u).0) 0 0 false restarted)
unfolding run step start is_active blank_stream lookup insert restart_finish fresh stop_locked halt
    close_clients kill_cmd run_started
run_exit-stale_example =
    run_exit-stale meanwhile restarted 0 0 false (omega arith) restarted-IsValid.0 (omega arith)
      (omega arith)

pause-IsPaused_example :
    let (s', calls, p) = pause (λ u. u) (λ u. u) "s" (pos 9) served in
    ((still_current served "s" 0 ≡ true)
      × IsPaused s' 0 p
      × (p ≡ (Streamer.elapsed "s" (pos 9) served).1))
    ⊎ ((still_current served "s" 0 ≡ false) × (s' ≡ served) × (calls ≡ []) × (p ≡ pos 0))
pause-IsPaused_example = pause-IsPaused (λ u. u) (λ u. u) "s" (pos 9) served 0 served_here

race-inactive_example :
    let t = race 0 0 "s" (pos 7) 4 "no client" served in
    ((t.stream_at 0).active ≡ false)
    × ((t.stream_at 0).gen ≡ served.gen_count)
    × ((current_gen t 0).ctx_err ≡ false)
    × (resume (λ u. u) "s" (pos 9) t ≡ (t, []))
unfolding run step start is_active blank_stream lookup insert fresh run_started startup_claim
race-inactive_example =
    race-inactive 0 "s" "no client" (pos 7) (pos 9) 4 served (omega arith) refl refl served_here

fresh-Fed_here : Fed gen₀ []
fresh-Fed_here = fresh-Fed 4 (pos 5) 3 1 none (omega arith)

replay-Attached_example :
    Attached cfg gen₀ []
      (flatten (replay cfg gen₀))
      (prefix_sent cfg gen₀ [])
      (suffix_sent cfg gen₀ [])
replay-Attached_example = replay-Attached cfg gen₀ [] fresh-Fed_here.ring fresh-Fed_here.segment

-- two chunks, and a client that attaches in each gap
abbrev output : List Round
output = (1 ∷ 2 ∷ 3 ∷ [], meanwhile) ∷ (4 ∷ 5 ∷ 6 ∷ [], meanwhile) ∷ []

abbrev allotted : Streamer
allotted = record idle { gen_count = 1 }

run_chunks-Attached_example :
    let gen = (run_chunks (λ k. true) 0 0 output allotted).gen_at 0 in
    let h = written output in
    Attached cfg gen h (flatten (replay cfg gen)) (prefix_sent cfg gen h) (suffix_sent cfg gen h)
unfolding written
run_chunks-Attached_example =
    run_chunks-Attached (λ k. true) 0 0 output allotted (omega arith) fresh-Fed_here
      ((λ i. ((λ e. e), tt)), ((λ i. ((λ e. e), tt)), tt)) (omega arith)

-- an encoder that runs, without a replay budget, and has written three bytes, the init segment
abbrev running : Streamer
running = record idle {
  cfg = record cfg { max_replay_bytes = 0 };
  stream_count = 1;
  stream_at = λ a. record (blank_stream "s" "http://host/a") { active = true; gen = 0 };
  gen_count = 1;
  gen_at = λ g. record gen₀ { started = true; active = true };
}

running-Fed : Fed (running.gen_at 0) []
unfolding fresh
running-Fed = record {
  ring = fresh-Fed_here.ring;
  segment = record {
    prefix = fresh-Fed_here.segment.prefix;
    sized = fresh-Fed_here.segment.sized;
    closed = fresh-Fed_here.segment.closed;
  };
}

abbrev begun : Streamer
begun = keep_chunk 0 (1 ∷ 2 ∷ 3 ∷ []) (store_chunk 0 (1 ∷ 2 ∷ 3 ∷ []) running)

begun-Fed : (0 < begun.gen_count) × Fed (begun.gen_at 0) (1 ∷ 2 ∷ 3 ∷ [])
begun-Fed =
    keep-Fed 0 (1 ∷ 2 ∷ 3 ∷ []) [] (store_chunk 0 (1 ∷ 2 ∷ 3 ∷ []) running)
      (store-Half 0 (1 ∷ 2 ∷ 3 ∷ []) [] running (omega arith, running-Fed) (omega arith))

-- a chunk of two bytes more
abbrev more : List ℕ
more = 4 ∷ 5 ∷ []

-- it is kept, but not sent
abbrev unsent : Streamer
unsent = kept 0 more begun

unsent_open : attach_status 0 0 unsent ≡ 200
unfolding run step keep_chunk store_chunk accumulate_init_buf write blank_stream fresh attach_status
    is_broken
unsent_open = ground arith

more_whole : length more ≤ suffix_sent begun.cfg (unsent.gen_at 0) ((1 ∷ 2 ∷ 3 ∷ []) ++ more)
unfolding run step keep_chunk store_chunk accumulate_init_buf write fresh new_ring
more_whole = omega arith

attach-twice_example :
    let u = (run (attaches "c" "s" 0 0 ∷ sends (λ k. true) 0 more ∷ []) unsent).0 in
    (c : Client) × (x : List ℕ) × (lookup "c" (u.gen_at 0).clients ≡ some c)
    × (flatten c.ch ≡ x ++ more ++ more)
attach-twice_example =
    attach-twice (λ k. true) "c" "s" 0 0 more (1 ∷ 2 ∷ 3 ∷ []) begun begun-Fed.0 begun-Fed.1
      (omega arith) unsent_open more_whole

redact_stderr-eq-pass_example :
    redact_stderr "open http://h/a?token=x failed"
    ≡ redact_pass outside "open http://h/a?token=x failed"
redact_stderr-eq-pass_example = redact_stderr-eq-pass "open http://h/a?token=x failed"
