-- ===== src/Stream/Streamer.antt =====
-- internal/stream/stream.go: the streamer, its streams and their generations.
-- Its children: `Run` is the goroutine of an encoder, `Serve` the clients, `Steps` all atomic
-- sections as one step function; the others prove what the steps and operations keep.
-- Streams and generations are shared by pointer: handlers and encoder goroutines keep old ones. So
-- they stand in a store by address, and `st.gen == gen` is an equation of addresses. A section under
-- a lock is one step. Where an operation gives up a lock or waits, it takes a function `env` for
-- all that other goroutines do meanwhile.
pub mod Run
pub mod Serve
pub mod Steps
pub mod Valid
pub mod Stale
pub mod Position
pub mod Clients
pub mod Startup
pub mod Others
pub mod Output
pub mod Twice
use ma_dlna.Base.{
  ℕ, suc, ◌+◌, ◌%◌, ◌^◌, Bool, true, false, not, ◌&&◌, ◌||◌, List, [], ◌∷◌, Option, none, some,
  String, ltb, ◌==◌, if◌then◌else◌,
}
use ma_dlna.Base.Dict.{lookup, insert, delete}
use ma_dlna.Base.Int.{ℤ, pos, ◌+ℤ◌, ◌-ℤ◌, ltb_ℤ}
use ma_dlna.Stream.Ring
use ma_dlna.Stream.Gen.{
  Gen, fresh, set_err, kill_cmd, close_clients, accept_presentation, presentation_elapsed,
}
use ma_dlna.Stream.Replay.{StreamConfig, init_segment_limit}

-- `stream`, with the address of its current generation.
pub record Stream : Type 0 where
  pub session_id : String
  pub source_uri : String
  pub active : Bool
  pub runs_in_flight : ℕ
  pub current_gen_id : ℕ
  pub gen : ℕ

-- `Streamer`. `streams` is the map, `stream_at` and `gen_at` the store, of which the first
-- `stream_count` and `gen_count` addresses are in use.
pub record Streamer : Type 0 where
  pub cfg : StreamConfig
  pub streams : List (String × ℕ)
  pub next_gen_id : ℕ
  pub stream_count : ℕ
  pub stream_at : ℕ → Stream
  pub gen_count : ℕ
  pub gen_at : ℕ → Gen

-- The calls of the streamer's callbacks, with the session and the generation id.
pub data Callback : Type 0 where
  gen_start : String → ℕ → Callback
  first_client : String → ℕ → Callback
  failed : String → ℕ → String → Callback
  ended : String → ℕ → Callback

abbrev pub Reply : Type 0 → Type 0
Reply A = Streamer × List Callback × A

abbrev pub put {ℓ} : {A : Type ℓ} → (ℕ → A) → ℕ → A → ℕ → A
put f a v b = if b == a then v else f b

abbrev pub set_stream : Streamer → ℕ → Stream → Streamer
set_stream s a st = record s { stream_at = put s.stream_at a st }

abbrev pub set_gen : Streamer → ℕ → Gen → Streamer
set_gen s g gen = record s { gen_at = put s.gen_at g gen }

-- `st.currentGen()` for the stream at an address
abbrev pub current_gen : Streamer → ℕ → Gen
current_gen s a = s.gen_at (s.stream_at a).gen

-- A new generation becomes the current one of the stream at `a`: `nextGenID.Add(1)`, the stores and
-- the callback. `runs` is the value left in `runsInFlight`.
abbrev pub install : Streamer → ℕ → String → Gen → ℕ → Streamer × List Callback
install s a sid gen runs =
    let gid = (s.next_gen_id + 1) % 2 ^ 64 in
    let st = s.stream_at a in
    (
      record s {
        next_gen_id = gid;
        gen_count = suc s.gen_count;
        gen_at = put s.gen_at s.gen_count (record gen { gen_id = gid });
        stream_at = put s.stream_at a (record st {
          active = true;
          runs_in_flight = runs;
          current_gen_id = gid;
          gen = s.gen_count;
        });
      },
      gen_start sid gid ∷ [],
    )

-- whether `s.streams[sessionID]` is a stream that is active
unfoldable pub is_active : Streamer → String → Bool
is_active s sid = elim (lookup sid s.streams) [ none ↦ false | some a ↦ (s.stream_at a).active ]

unfoldable pub blank_stream : String → String → Stream
blank_stream sid uri = record {
  session_id = sid;
  source_uri = uri;
  active = false;
  runs_in_flight = 0;
  current_gen_id = 0;
  gen = 0;
}

unfoldable pub start : String → String → ℤ → Streamer → Streamer × List Callback
start sid uri now s =
    let a = s.stream_count in
    let ring = Ring.new s.cfg.ring_buffer_bytes in
    let gen = fresh ring (pos 0) (init_segment_limit s.cfg) 0 (some now) in
    let s' = record s {
      streams = insert sid a s.streams;
      stream_count = suc a;
      stream_at = put s.stream_at a (blank_stream sid uri);
    } in
    if is_active s sid then (s, []) else install s' a sid gen 1

-- The generation is told to end: `active`, `cancel`, `killCmd` and `closeClients`.
unfoldable pub halt : Gen → Gen
unfolding close_clients kill_cmd
halt gen = close_clients (kill_cmd (record gen { active = false; ctx_err = true }))

-- `stopLocked`, under `lifeMu`. Its wait for `gen.done` changes nothing.
unfoldable pub stop_locked : ℕ → Streamer → Streamer × Bool
unfolding halt
stop_locked a s =
    let st = s.stream_at a in
    let s' = set_stream s a (record st { active = false }) in
    if st.active then (set_gen s' st.gen (halt (s.gen_at st.gen)), true) else (s, false)

-- `env` acts between the removal under `s.mu` and `lifeMu`.
unfoldable pub stop : (Streamer → Streamer) → String → Streamer → Streamer
stop env sid s = elim (lookup sid s.streams) [
  | none ↦ s
  | some a ↦ (stop_locked a (env (record s { streams = delete sid s.streams }))).0
]

-- The second half of `StopIfGeneration`, for the stream at `a` found before. A wait for a lock lies
-- between the removal and `stopLocked` nowhere: `lifeMu` is held.
unfoldable pub stop_found : String → ℕ → ℕ → Streamer → Streamer × Bool
stop_found sid gen_id a s = elim (lookup sid s.streams) [
  | none ↦ (s, true)
  | some b ↦
      if not (b == a)
      then (s, false)
      else if not (gen_id == 0) && not ((s.stream_at a).current_gen_id == gen_id)
      then (s, false)
      else ((stop_locked a (record s { streams = delete sid s.streams })).0, true)
]

unfoldable pub stop_if_generation : (Streamer → Streamer) → String → ℕ → Streamer → Streamer × Bool
stop_if_generation env sid gen_id s = elim (lookup sid s.streams) [
  | none ↦ (s, true)
  | some a ↦ stop_found sid gen_id a (env s)
]

-- `stillCurrent`
unfoldable pub still_current : Streamer → String → ℕ → Bool
still_current s sid a = elim (lookup sid s.streams) [ none ↦ false | some b ↦ b == a ]

-- `streamRawElapsed`: a zero `startTime` is `none`.
unfoldable pub raw_elapsed : Stream → Gen → ℤ → ℤ
raw_elapsed st gen now =
    let since : ℤ = elim gen.start_time [ none ↦ gen.offset | some t ↦ gen.offset +ℤ (now -ℤ t) ] in
    let encoded = gen.offset +ℤ gen.ffmpeg_time in
    if st.runs_in_flight == 0
    then gen.offset
    else if ltb_ℤ (pos 0) gen.ffmpeg_time && ltb_ℤ since encoded
    then encoded
    else since

-- `presentationElapsed` of the current generation of the stream at `a`.
unfoldable pub elapsed_at : ℕ → ℤ → Streamer → Streamer × ℤ
elapsed_at a now s =
    let st = s.stream_at a in
    let gen = s.gen_at st.gen in
    let (gen', elapsed) =
      presentation_elapsed gen (raw_elapsed st gen now) (ltb 0 st.runs_in_flight) in
    (set_gen s st.gen gen', elapsed)

unfoldable pub elapsed : String → ℤ → Streamer → Streamer × ℤ
unfolding elapsed_at raw_elapsed
elapsed sid now s = elim (lookup sid s.streams) [ none ↦ (s, pos 0) | some a ↦ elapsed_at a now s ]

-- The first part of `restartWithOffset`, up to the wait for the old generation.
unfoldable pub restart_begin : ℕ → Streamer → Streamer
restart_begin a s = (stop_locked a s).0

-- The rest, with the stream and generation as they stand after the wait.
unfoldable pub restart_finish : ℕ → String → ℤ → ℕ → Streamer → Streamer × List Callback
restart_finish a sid offset ring_size s =
    install s a sid (fresh (Ring.new ring_size) offset (init_segment_limit s.cfg) 0 none) 0

unfoldable pub restart_with_offset :
    (Streamer → Streamer) → ℕ → String → ℤ → Streamer → Streamer × List Callback
restart_with_offset env a sid offset s =
    restart_finish a sid offset (current_gen s a).ring.size (env (restart_begin a s))

-- `env` acts before `lifeMu` is taken, `wait` while the old encoder is waited for.
unfoldable pub pause :
    (Streamer → Streamer) → (Streamer → Streamer) → String → ℤ → Streamer → Reply ℤ
pause env wait sid now s = elim (lookup sid s.streams) [
  | none ↦ (s, [], pos 0)
  | some a ↦
      let s' = env s in
      let (s'', position) = elapsed sid now s' in
      let (r, calls) = restart_with_offset wait a sid position s'' in
      if still_current s' sid a then (r, calls, position) else (s', [], pos 0)
]

unfoldable pub seek :
    (Streamer → Streamer) → (Streamer → Streamer) → String → ℤ → Streamer → Streamer × List Callback
seek env wait sid offset s = elim (lookup sid s.streams) [
  | none ↦ (s, [])
  | some a ↦
      let s' = env s in
      if still_current s' sid a then restart_with_offset wait a sid offset s' else (s', [])
]

-- `Resume`, after `lifeMu` is taken for the stream at `a`.
unfoldable pub resume_found : ℕ → String → ℤ → Streamer → Streamer × List Callback
resume_found a sid now s =
    let st = s.stream_at a in
    let old = s.gen_at st.gen in
    let gen = fresh (Ring.new old.ring.size) old.offset (init_segment_limit s.cfg) 0 (some now) in
    if still_current s sid a && st.runs_in_flight == 0 then install s a sid gen 1 else (s, [])

unfoldable pub resume : (Streamer → Streamer) → String → ℤ → Streamer → Streamer × List Callback
resume env sid now s = elim (lookup sid s.streams) [
  | none ↦ (s, [])
  | some a ↦ if (s.stream_at a).active then resume_found a sid now (env s) else (s, [])
]

unfoldable pub mark_playback_accepted_if_generation : String → ℕ → ℤ → Streamer → Streamer × Bool
unfolding raw_elapsed
mark_playback_accepted_if_generation sid gen_id now s = elim (lookup sid s.streams) [
  | none ↦ (s, false)
  | some a ↦
      let st = s.stream_at a in
      let gen = s.gen_at st.gen in
      if not (gen_id == 0) && not (st.current_gen_id == gen_id)
      then (s, false)
      else (set_gen s st.gen (accept_presentation gen (raw_elapsed st gen now)), true)
]

unfoldable pub is_running : String → Streamer → Bool
is_running sid s = elim (lookup sid s.streams) [
  | none ↦ false
  | some a ↦ (s.stream_at a).active && ltb 0 (s.stream_at a).runs_in_flight
]
