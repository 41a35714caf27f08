-- ===== src/Stream/Streamer/Stale.antt =====
-- A generation that has been replaced cannot stop or end its stream.
use ma_dlna.Base.{
  ℕ, suc, ◌+◌, ◌<◌, ◌^◌, Bool, true, false, List, [], ◌≡◌, refl, some, String, arith, length,
}
use ma_dlna.Base.Dict.{lookup}
use ma_dlna.Stream.Streamer.{Streamer, Callback, stop_if_generation, stop_found}
use ma_dlna.Stream.Streamer.Run.{run_exit, exit_off, exit_locked, exit_clients, exit_done}
use ma_dlna.Stream.Streamer.Steps.{Event, run}
use ma_dlna.Stream.Gen.{close_clients}
use ma_dlna.Stream.Streamer.Valid.{IsValid, Local-IsValid}
use ma_dlna.Stream.Streamer.Valid.Sections.{exit_off-Local}
use ma_dlna.Stream.Streamer.Valid.Schedules.{run-IsValid}

stop_found-stale :
    (t : Streamer) (sid : String) (gen_id a : ℕ)
    → lookup sid t.streams ≡ some a
    → 0 < gen_id
    → gen_id < (t.stream_at a).current_gen_id
    → stop_found sid gen_id a t ≡ (t, false)
unfolding stop_found
stop_found-stale t sid gen_id a e pos_id old = ground arith

-- `StopIfGeneration` for a generation that the stream has left behind does nothing and returns
-- false, whatever sections run before it gets the lock, as long as the stream stays registered.
pub stop_if_generation-stale :
    (es : List Event) (s : Streamer) (sid : String) (gen_id a : ℕ)
    → s.gen_count + length es < 2 ^ 64
    → IsValid s
    → lookup sid s.streams ≡ some a
    → 0 < gen_id
    → gen_id < (s.stream_at a).current_gen_id
    → lookup sid (run es s).0.streams ≡ some a
    → stop_if_generation (λ u. (run es u).0) sid gen_id s ≡ ((run es s).0, false)
unfolding stop_if_generation
stop_if_generation-stale es s sid gen_id a room v here pos_id old still =
    let (v', g) = run-IsValid es s room v in
    let low = (v.mapped sid a here).0 in
    rw (here, stop_if_generation)
      (stop_found-stale (run es s).0 sid gen_id a still pos_id (omega (arith, g.ids_up a low)))

exit_locked-stale :
    (t : Streamer) (a g : ℕ) (had_error : Bool)
    → IsValid t
    → a < t.stream_count
    → suc g < (t.stream_at a).current_gen_id
    → exit_locked a g had_error t ≡ (t, false)
unfolding exit_locked
exit_locked-stale t a g had_error v low old = ground (arith, v.current a low)

-- Only the generation has changed.
pub record OnlyGen (g : ℕ) (s t : Streamer) : Type 0 where
  pub streams : t.streams ≡ s.streams
  pub counts : (t.stream_count ≡ s.stream_count) × (t.gen_count ≡ s.gen_count)
  pub ids : t.next_gen_id ≡ s.next_gen_id
  pub stream_at : (a : ℕ) → t.stream_at a ≡ s.stream_at a
  pub gen_at : (k : ℕ) → ¬ (k ≡ g) → t.gen_at k ≡ s.gen_at k

exit_off-OnlyGen : (g : ℕ) (s : Streamer) → OnlyGen g s (exit_off g s)
unfolding exit_off
exit_off-OnlyGen g s = record {
  streams = refl;
  counts = (refl, refl);
  ids = refl;
  stream_at = λ a. refl;
  gen_at = λ k h. ground (arith, h);
}

exit_clients-OnlyGen : (g : ℕ) (s : Streamer) → OnlyGen g s (exit_clients g s)
unfolding exit_clients close_clients
exit_clients-OnlyGen g s = record {
  streams = ground arith;
  counts = (ground arith, ground arith);
  ids = ground arith;
  stream_at = λ a. ground arith;
  gen_at = λ k h. ground (arith, h);
}

exit_done-OnlyGen : (g : ℕ) (s : Streamer) → OnlyGen g s (exit_done g s)
unfolding exit_done
exit_done-OnlyGen g s = record {
  streams = refl;
  counts = (refl, refl);
  ids = refl;
  stream_at = λ a. refl;
  gen_at = λ k h. ground (arith, h);
}

exit_off-active : (g : ℕ) (s : Streamer) → ((exit_off g s).gen_at g).active ≡ false
unfolding exit_off
exit_off-active g s = ground arith

exit_clients-clients :
    (g : ℕ) (s : Streamer)
    → ((s.gen_at g).ctx_err ≡ false)
    → ((exit_clients g s).gen_at g).clients ≡ []
unfolding exit_clients close_clients
exit_clients-clients g s h = ground (arith, h)

exit_done-done : (g : ℕ) (s : Streamer) → ((exit_done g s).gen_at g).done ≡ true
unfolding exit_done
exit_done-done g s = ground arith

run_exit-eq :
    (es : ℕ → List Event) (s : Streamer) (a g : ℕ) (had_error : Bool)
    → s.gen_count + length (es 0) < 2 ^ 64
    → IsValid s
    → a < s.stream_count
    → suc g < (s.stream_at a).current_gen_id
    → run_exit (λ i u. (run (es i) u).0) a g had_error s ≡ (
      exit_done g (run (es 2) (exit_clients g (run (es 1) (run (es 0) (exit_off g s)).0).0)).0,
      [],
    )
unfolding run_exit
run_exit-eq es s a g had_error room v low old =
    let s' = exit_off g s in
    let l = exit_off-Local s g in
    let (v', grows) = run-IsValid (es 0) s' (omega (arith, l.gens_same)) (Local-IsValid s s' l v) in
    let up = grows.ids_up a (omega (arith, l.streams_same)) in
    rw
      (
        run_exit,
        exit_locked-stale (run (es 0) s').0 a g had_error v'
            (omega (arith, grows.streams_kept, l.streams_same))
            (omega (arith, up, l.stream_same a, old)),
      )
      refl

-- What the end of the encoder of a stale generation does, in three steps of its own, with the sections
-- `es` of others between them.
pub record StaleExit (es : ℕ → List Event) (g : ℕ) (s : Streamer) (r : Streamer × List Callback)
    : Type 0 where
  pub off : Streamer
  pub closed : Streamer
  pub to_off : OnlyGen g s off
  pub is_off : (off.gen_at g).active ≡ false
  pub to_closed : OnlyGen g (run (es 1) (run (es 0) off).0).0 closed
  pub is_closed :
      (((run (es 1) (run (es 0) off).0).0.gen_at g).ctx_err ≡ false)
      → (closed.gen_at g).clients ≡ []
  pub to_end : OnlyGen g (run (es 2) closed).0 r.0
  pub is_done : (r.0.gen_at g).done ≡ true
  pub silent : r.1 ≡ []

-- The end of an encoder whose generation the stream has left behind reports nothing and changes no
-- stream and no other generation, whatever sections run between its own: in three steps it switches its
-- own generation off, leaves it no client unless it was cancelled, and marks it as done.
pub run_exit-stale :
    (es : ℕ → List Event) (s : Streamer) (a g : ℕ) (had_error : Bool)
    → s.gen_count + length (es 0) < 2 ^ 64
    → IsValid s
    → a < s.stream_count
    → suc g < (s.stream_at a).current_gen_id
    → StaleExit es g s (run_exit (λ i u. (run (es i) u).0) a g had_error s)
run_exit-stale es s a g had_error room v low old =
    let off = exit_off g s in
    let t = (run (es 1) (run (es 0) off).0).0 in
    let closed = exit_clients g t in
    let u = (run (es 2) closed).0 in
    rw (run_exit-eq es s a g had_error room v low old) (record {
      off = off;
      closed = closed;
      to_off = exit_off-OnlyGen g s;
      is_off = exit_off-active g s;
      to_closed = exit_clients-OnlyGen g t;
      is_closed = exit_clients-clients g t;
      to_end = exit_done-OnlyGen g u;
      is_done = exit_done-done g u;
      silent = refl;
    })
