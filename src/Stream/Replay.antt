-- ===== src/Stream/Replay.antt =====
-- internal/stream/stream.go, the replay of `ServeHTTP`: what a client that attaches is sent before
-- the live chunks, within a budget of bytes.
pub mod Budget
pub mod Attach
use ma_dlna.Base.{ℕ, ◌-◌, List, [], ◌∷◌, ◌++◌, length, take, replicate, ltb, leb, if◌then◌else◌}
use ma_dlna.Base.Int.{ℤ, pos, sub_ℕ, ltb_ℤ}
use ma_dlna.Stream.Ring.{read, write_position}
use ma_dlna.Stream.Gen.{Gen, get_init_segment}

-- `StreamConfig`, as far as the streamer reads it. `Config.Validate` has refused negative values.
pub record StreamConfig : Type 0 where
  pub prebuffer_bytes : ℕ
  pub ring_buffer_bytes : ℕ
  pub init_segment_bytes : ℕ
  pub max_replay_bytes : ℕ
  pub max_clients_per_session : ℕ

unfoldable pub init_segment_limit : StreamConfig → ℕ
init_segment_limit cfg =
    if ltb 0 cfg.max_replay_bytes
    then (if ltb cfg.max_replay_bytes cfg.init_segment_bytes
        then cfg.max_replay_bytes
        else cfg.init_segment_bytes)
    else cfg.init_segment_bytes

-- The bytes allowed, and `*remaining` after them.
unfoldable pub allow_replay_bytes : ℕ → ℕ → ℕ → ℕ × ℕ
allow_replay_bytes n max_replay_bytes remaining =
    let n' : ℕ = if ltb remaining n then remaining else n in
    if leb max_replay_bytes 0
    then (n, remaining)
    else if leb remaining 0
    then (0, remaining)
    else (n', remaining - n')

-- the init part: the chunks sent, `sentInitSize` and what remains of the budget
unfoldable pub send_init : StreamConfig → Gen → List (List ℕ) × ℕ × ℕ
send_init cfg gen =
    let (init, init_size) = get_init_segment gen in
    let (n, remaining) =
      allow_replay_bytes (length init) cfg.max_replay_bytes cfg.max_replay_bytes in
    if ltb 0 (length init)
    then (if ltb 0 n then (take n init ∷ [], n, remaining) else ([], 0, remaining))
    else ([], init_size, cfg.max_replay_bytes)

-- the prebuffer part: the end of the ring, from `start` on
unfoldable pub send_prebuffer : Gen → ℕ → ℕ → List (List ℕ)
send_prebuffer gen prebuffer sent =
    let back = sub_ℕ (write_position gen.ring) prebuffer in
    let start = if ltb_ℤ back (pos sent) then pos sent else back in
    let (n, prebuf) = read gen.ring start (replicate prebuffer 0) in
    if ltb 0 prebuffer then (if ltb 0 n then take n prebuf ∷ [] else []) else []

-- the chunks put on the channel of a new client
unfoldable pub replay : StreamConfig → Gen → List (List ℕ)
replay cfg gen =
    let (first, sent, remaining) = send_init cfg gen in
    let prebuffer = (allow_replay_bytes cfg.prebuffer_bytes cfg.max_replay_bytes remaining).0 in
    first ++ send_prebuffer gen prebuffer sent
