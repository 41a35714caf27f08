-- ===== src/Stream/Gen.antt =====
-- internal/stream/stream.go: the state of one run of the encoder, `streamGeneration`. A method that
-- mutates it returns the new record; `gen.mu` makes each one atomic. Durations and times are
-- nanoseconds, durations integers of either sign.
pub mod Presentation
pub mod InitSegment
use ma_dlna.Base.{
  ℕ, ◌+◌, ◌-◌, Bool, true, false, ◌||◌, ◌&&◌, List, [], ◌++◌, map, Option, none, some, String,
  length, take, ltb, leb, ◌==◌, if◌then◌else◌,
}
use ma_dlna.Base.Int.{ℤ, pos, ◌+ℤ◌, ◌-ℤ◌, ltb_ℤ}
use ma_dlna.Stream.Ring.{Ring}

-- `clientWriter`: whether its context is done, and the chunks in its channel.
pub record Client : Type 0 where
  pub cancelled : Bool
  pub ch : List (List ℕ)

-- `streamGeneration`. `ctx_err` is `ctx.Err() != nil`; `killed` is the signal sent to the process,
-- and `cmd` says that there is one; a closed channel is a true flag. `dropped` are the clients whose
-- context the generation has cancelled.
pub record Gen : Type 0 where
  pub ctx_err : Bool
  pub started : Bool
  pub done : Bool
  pub first_client : Bool
  pub ring : Ring
  pub cmd : Bool
  pub killed : Bool
  pub clients : List (String × Client)
  pub dropped : List String
  pub offset : ℤ
  pub start_time : Option ℤ
  pub gen_id : ℕ
  pub err : Option String
  pub ffmpeg_time : ℤ
  pub pres_accepted : Bool
  pub pres_base_raw : ℤ
  pub pres_last : ℤ
  pub init_buf : List ℕ
  pub init_buf_size : ℕ
  pub init_buf_limit : ℕ
  pub init_buf_done : Bool
  pub active : Bool

-- The literal by which `Start`, `restartWithOffset` and `Resume` make a generation.
unfoldable pub fresh : Ring → ℤ → ℕ → ℕ → Option ℤ → Gen
fresh ring offset limit gen_id start_time = record {
  ctx_err = false;
  started = false;
  done = false;
  first_client = false;
  ring = ring;
  cmd = false;
  killed = false;
  clients = [];
  dropped = [];
  offset = offset;
  start_time = start_time;
  gen_id = gen_id;
  err = none;
  ffmpeg_time = pos 0;
  pres_accepted = false;
  pres_base_raw = pos 0;
  pres_last = pos 0;
  init_buf = [];
  init_buf_size = 0;
  init_buf_limit = limit;
  init_buf_done = false;
  active = false;
}

unfoldable pub set_err : Gen → String → Gen
set_err gen e = record gen { err = some e }

unfoldable pub kill_cmd : Gen → Gen
kill_cmd gen = if gen.cmd then record gen { killed = true } else gen

-- `closeClients`: every client's context is cancelled and the map is emptied.
unfoldable pub close_clients : Gen → Gen
close_clients gen = record gen { clients = []; dropped = gen.dropped ++ map (λ c. c.0) gen.clients }

unfoldable pub accept_presentation : Gen → ℤ → Gen
accept_presentation gen raw =
    let base = if ltb_ℤ raw gen.offset then gen.offset else raw in
    if gen.pres_accepted
    then gen
    else record gen { pres_accepted = true; pres_base_raw = base; pres_last = gen.offset }

unfoldable pub presentation_elapsed : Gen → ℤ → Bool → Gen × ℤ
presentation_elapsed gen raw running =
    let moved = gen.offset +ℤ raw -ℤ gen.pres_base_raw in
    let floored = if ltb_ℤ moved gen.offset then gen.offset else moved in
    let elapsed = if ltb_ℤ floored gen.pres_last then gen.pres_last else floored in
    if running
    then (if gen.pres_accepted
        then (record gen { pres_last = elapsed }, elapsed)
        else (gen, gen.offset))
    else (
      gen,
      if gen.pres_accepted && ltb_ℤ gen.offset gen.pres_last then gen.pres_last else gen.offset,
    )

unfoldable pub get_init_segment : Gen → List ℕ × ℕ
get_init_segment gen =
    if length gen.init_buf == 0 then ([], 0) else (gen.init_buf, gen.init_buf_size)

-- `data[:remaining]` when the data are longer than what remains.
unfoldable pub accumulate_init_buf : Gen → List ℕ → Gen
accumulate_init_buf gen bytes =
    let remaining = gen.init_buf_limit - gen.init_buf_size in
    let kept = if ltb remaining (length bytes) then take remaining bytes else bytes in
    let size = gen.init_buf_size + length kept in
    if gen.init_buf_done || leb gen.init_buf_limit 0
    then record gen { init_buf_done = true }
    else record gen {
      init_buf = gen.init_buf ++ kept;
      init_buf_size = size;
      init_buf_done = leb gen.init_buf_limit size;
    }
