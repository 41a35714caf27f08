-- ===== src/Stream/Streamer/Run.antt =====
-- internal/stream/stream.go: the goroutine of one encoder, `run`, with its atomic sections, for the
-- stream at `a` and the generation at `g`. The encoder itself is outside: what it writes and how it
-- ends are arguments. `errorCB` and `endCB` are set, as `main` does.
use ma_dlna.Base.{
  ℕ, Bool, true, false, not, ◌&&◌, ◌||◌, List, [], ◌∷◌, ◌++◌, Option, none, some, String, length,
  leb, ◌==◌, if◌then◌else◌,
}
use ma_dlna.Stream.Ring.{write}
use ma_dlna.Stream.Gen.{Gen, Client, set_err, kill_cmd, close_clients, accumulate_init_buf}
use ma_dlna.Stream.Streamer.{Streamer, Callback, failed, ended, set_stream, set_gen}

-- What other goroutines do between the sections of a function, by the number of the gap.
abbrev pub Gaps : Type 0
Gaps = ℕ → Streamer → Streamer

-- `setErr`
unfoldable pub mark_error : ℕ → String → Streamer → Streamer
mark_error g message s = set_gen s g (set_err (s.gen_at g) message)

abbrev pub error_call : ℕ → ℕ → String → Streamer → List Callback
error_call a g message s = failed (s.stream_at a).session_id (s.gen_at g).gen_id message ∷ []

-- `reportError`. No lock holds from its tests of the context and of the generation to the error and the
-- callback.
unfoldable pub report_error : Gaps → ℕ → ℕ → String → Streamer → Streamer × List Callback
unfolding mark_error
report_error gap a g message s =
    let s₁ = gap 0 s in
    let s₂ = mark_error g message (gap 1 s₁) in
    if (s.gen_at g).ctx_err
    then (s, [])
    else if not ((s₁.stream_at a).gen == g)
    then (s₁, [])
    else (s₂, error_call a g message s₂)

-- `close(gen.started)`, where a pipe or the process could not be made
unfoldable pub close_started : ℕ → Streamer → Streamer
close_started g s = set_gen s g (record (s.gen_at g) { started = true })

unfoldable pub run_failed : Gaps → ℕ → ℕ → String → Streamer → Streamer × List Callback
unfolding report_error close_started
run_failed gap a g message s = report_error gap a g message (gap 2 (close_started g s))

-- The process runs: `setCmd`, `active` and `started`.
unfoldable pub run_started : ℕ → Streamer → Streamer
run_started g s = set_gen s g (record (s.gen_at g) { cmd = true; active = true; started = true })

-- What `broadcast` does with one client. A `select` takes any case that is ready: `done_first` says
-- which, for a client whose context is done while its channel has room.
unfoldable pub send : (String → Bool) → List ℕ → String → Client → Option Client × Bool
send done_first chunk id c =
    let room = not (leb 64 (length c.ch)) in
    if c.cancelled && (done_first id || not room)
    then (none, false)
    else if room
    then (some (record c { ch = c.ch ++ chunk ∷ [] }), false)
    else (none, true)

-- The loop of `broadcast`: the clients left, and those whose context it cancels.
unfoldable pub send_all :
    (String → Bool) → List ℕ → List (String × Client) → List (String × Client) × List String
unfolding send
send_all done_first chunk [] = ([], [])
send_all done_first chunk ((id, c) ∷ clients) =
    let (rest, slow) = send_all done_first chunk clients in
    let (kept, cut) = send done_first chunk id c in
    (elim kept [ none ↦ rest | some c' ↦ (id, c') ∷ rest ], if cut then id ∷ slow else slow)

-- `broadcast`, after the test that the stream is active, which holds no lock
unfoldable pub broadcast : (String → Bool) → List ℕ → Gen → Gen
unfolding send_all
broadcast done_first chunk gen =
    let (rest, slow) = send_all done_first chunk gen.clients in
    record gen { clients = rest; dropped = gen.dropped ++ slow }

-- The sections of one chunk of output: into the ring, the init segment and the clients' channels.
unfoldable pub store_chunk : ℕ → List ℕ → Streamer → Streamer
store_chunk g chunk s =
    let gen = s.gen_at g in set_gen s g (record gen { ring = write gen.ring chunk })

unfoldable pub keep_chunk : ℕ → List ℕ → Streamer → Streamer
unfolding accumulate_init_buf
keep_chunk g chunk s = set_gen s g (accumulate_init_buf (s.gen_at g) chunk)

unfoldable pub send_chunk : (String → Bool) → ℕ → List ℕ → Streamer → Streamer
unfolding broadcast
send_chunk done_first g chunk s = set_gen s g (broadcast done_first chunk (s.gen_at g))

unfoldable pub run_chunk : Gaps → (String → Bool) → ℕ → ℕ → List ℕ → Streamer → Streamer
unfolding store_chunk keep_chunk send_chunk
run_chunk gap done_first a g chunk s =
    let s' = gap 1 (keep_chunk g chunk (gap 0 (store_chunk g chunk s))) in
    if (s'.stream_at a).active then send_chunk done_first g chunk (gap 2 s') else s'

-- `cmd.Wait()` returned, with an error or not; the flag is `hadError`.
unfoldable pub run_waited :
    Gaps → ℕ → ℕ → Option String → Streamer → Streamer × List Callback × Bool
unfolding report_error mark_error
run_waited gap a g none s = (s, [], false)
run_waited gap a g (some message) s =
    let (s', calls) = report_error gap a g message (gap 2 (mark_error g message s)) in
    if (s.gen_at g).ctx_err then (s, [], false) else (s', calls, true)

-- The deferred function of `run` has four sections: the generation is switched off; under `genMu` the
-- stream is, if the generation is still its own, and the flag says whether the end is to be reported;
-- the clients are closed; and `done` is closed, after the callback.
unfoldable pub exit_off : ℕ → Streamer → Streamer
exit_off g s = set_gen s g (record (s.gen_at g) { active = false })

unfoldable pub exit_locked : ℕ → ℕ → Bool → Streamer → Streamer × Bool
exit_locked a g had_error s =
    let st = s.stream_at a in
    let idle = record st { runs_in_flight = 0 } in
    if not (st.gen == g)
    then (s, false)
    else if (s.gen_at g).ctx_err
    then (set_stream s a idle, false)
    else (set_stream s a (record idle { active = false }), not had_error)

unfoldable pub exit_clients : ℕ → Streamer → Streamer
unfolding close_clients
exit_clients g s = if (s.gen_at g).ctx_err then s else set_gen s g (close_clients (s.gen_at g))

unfoldable pub exit_done : ℕ → Streamer → Streamer
exit_done g s = set_gen s g (record (s.gen_at g) { done = true })

abbrev pub end_call : ℕ → ℕ → Streamer → List Callback
end_call a g s = ended (s.stream_at a).session_id (s.gen_at g).gen_id ∷ []

unfoldable pub run_exit : Gaps → ℕ → ℕ → Bool → Streamer → Streamer × List Callback
unfolding exit_off exit_locked exit_clients exit_done
run_exit gap a g had_error s =
    let (s', emit_end) = exit_locked a g had_error (gap 0 (exit_off g s)) in
    let s'' = gap 2 (exit_clients g (gap 1 s')) in
    (exit_done g s'', if emit_end then end_call a g s'' else [])

-- No client came within the startup timeout. The first section, under `clientsMu`, claims the
-- generation; the flag says that `startup_give_up` follows, which holds no lock.
unfoldable pub startup_claim : ℕ → ℕ → Streamer → Streamer × Bool
startup_claim a g s =
    let gen = s.gen_at g in
    if (s.stream_at a).gen == g && length gen.clients == 0 && gen.active
    then (set_gen s g (record gen { active = false }), true)
    else (s, false)

-- `st.active.Store(false)`, `gen.cancel()` and `gen.killCmd()`
unfoldable pub switch_off : ℕ → Streamer → Streamer
switch_off a s = set_stream s a (record (s.stream_at a) { active = false })

unfoldable pub cancel_gen : ℕ → Streamer → Streamer
cancel_gen g s = set_gen s g (record (s.gen_at g) { ctx_err = true })

unfoldable pub kill_gen : ℕ → Streamer → Streamer
unfolding kill_cmd
kill_gen g s = set_gen s g (kill_cmd (s.gen_at g))

unfoldable pub startup_give_up : Gaps → ℕ → ℕ → String → Streamer → Streamer × List Callback
unfolding report_error switch_off cancel_gen kill_gen
startup_give_up gap a g message s =
    let (s', calls) = report_error gap a g message s in
    (kill_gen g (gap 4 (cancel_gen g (gap 3 (switch_off a (gap 2 s'))))), calls)
