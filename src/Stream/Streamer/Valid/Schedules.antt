-- ===== src/Stream/Streamer/Valid/Schedules.antt =====
-- Every schedule of sections keeps the streamer valid, and no generation comes back.
use ma_dlna.Base.{
  ℕ, suc, ◌+◌, ◌≤◌, ◌<◌, ◌^◌, Bool, true, false, List, [], ◌∷◌, ◌≡◌, refl, ◌&&◌, ◌==◌, String,
  arith, length, some, none, if◌then◌else◌,
}
use ma_dlna.Base.Dict.{insert, lookup-insert}
use ma_dlna.Base.Int.{ℤ, pos}
use ma_dlna.Stream.Ring
use ma_dlna.Stream.Gen.{Gen, fresh}
use ma_dlna.Stream.Replay.{init_segment_limit}
use ma_dlna.Stream.Streamer.{
  Streamer, Stream, Callback, is_active, still_current, current_gen, start, install, resume_found,
  restart_finish, put, blank_stream,
}
use ma_dlna.Stream.Streamer.Steps.{
  Event, starts, unregisters, halts, stops_if, restarts, resumes, asks, accepts, no_start, errs,
  reports, runs, stores, keeps, sends, goes_off, exits, closes, reports_end, is_done, claims,
  switches_off, cancels, kills, attaches, detaches, step, run,
}
use ma_dlna.Stream.Streamer.Valid.{
  IsValid, Grows, Local, Local-IsValid, Local-Grows, Grows-trans, install-IsValid, install-Grows,
}
use ma_dlna.Stream.Streamer.Valid.Sections.{
  Local-refl, unregister-Local, stop_locked-Local, stop_found-Local, elapsed_at-Local, accept-Local,
  close_started-Local, mark_error-Local, run_started-Local, store_chunk-Local, keep_chunk-Local,
  send_chunk-Local, exit_off-Local, exit_locked-Local, exit_clients-Local, exit_done-Local,
  startup_claim-Local, switch_off-Local, cancel_gen-Local, kill_gen-Local, attach-Local,
  detach-Local,
}

-- one section: the ids go up by at most one, and all is kept
pub record Next (s t : Streamer) : Type 0 where
  pub valid : IsValid t
  pub grows : Grows s t
  pub ids_by_one : t.gen_count ≤ s.gen_count + 1

Local-Next : (s t : Streamer) → IsValid s → Local s t → Next s t
Local-Next s t v l = record {
  valid = Local-IsValid s t l v;
  grows = Local-Grows s t l;
  ids_by_one = omega (arith, l.gens_same);
}

if_Next :
    (s : Streamer) (b : Bool) (x y : Streamer × List Callback)
    → Next s x.0
    → Next s y.0
    → Next s (if b then x else y).0
if_Next s true x y p q = p
if_Next s false x y p q = q

module _ (s : Streamer) (room : s.gen_count + 1 < 2 ^ 64) (v : IsValid s) where
  same : Next s s
  same = Local-Next s s v (Local-refl s)

  install-Next : (a : ℕ) (sid : String) (gen : Gen) (n : ℕ) → Next s (install s a sid gen n).0
  install-Next a sid gen n = record {
    valid = install-IsValid s a sid gen n room v;
    grows = install-Grows s a sid gen n room v;
    ids_by_one = omega arith;
  }

  resume-Next : (a : ℕ) (sid : String) (now : ℤ) → Next s (resume_found a sid now s).0
  unfolding resume_found
  resume-Next a sid now =
      let old = current_gen s a in
      let gen = fresh (Ring.new old.ring.size) old.offset (init_segment_limit s.cfg) 0 (some now) in
      if_Next s (still_current s sid a && (s.stream_at a).runs_in_flight == 0)
        (install s a sid gen 1) (s, []) (install-Next a sid gen 1) same

  restart-Next :
      (a : ℕ) (sid : String) (offset : ℤ) (size : ℕ) → Next s (restart_finish a sid offset size s).0
  unfolding restart_finish
  restart-Next a sid offset size =
      install-Next a sid (fresh (Ring.new size) offset (init_segment_limit s.cfg) 0 none) 0

  -- the new stream takes the next address, and the new generation
  registered-Next :
      (sid : String) (st : Stream) (gen : Gen)
      → st.session_id ≡ sid
      → let s' = record s {
        streams = insert sid s.stream_count s.streams;
        stream_count = suc s.stream_count;
        stream_at = put s.stream_at s.stream_count st;
      } in
        Next s (install s' s.stream_count sid gen 1).0
  registered-Next sid st gen e = record {
    valid = record {
      counted = omega (arith, v.counted);
      ids = λ g h. ground (arith, v.counted, v.ids g);
      current = λ a h. ground (arith, v.counted, v.current a);
      mapped = λ k a h. ground (arith, v.mapped k a, lookup-insert sid k s.stream_count s.streams);
    };
    grows = record {
      streams_kept = omega arith;
      gens_kept = omega arith;
      ids_up = λ a h. ground arith;
    };
    ids_by_one = omega arith;
  }

  start-Next : (sid uri : String) (now : ℤ) → Next s (start sid uri now s).0
  unfolding start blank_stream
  start-Next sid uri now =
      let gen =
        fresh (Ring.new s.cfg.ring_buffer_bytes) (pos 0) (init_segment_limit s.cfg) 0 (some now) in
      if_Next s (is_active s sid) (s, []) _ same
        (registered-Next sid (blank_stream sid uri) gen refl)

  local : (t : Streamer) → Local s t → Next s t
  local t l = Local-Next s t v l

  -- Each section, whatever it is and whichever stream and generation it names, keeps the streamer
  -- valid, and makes at most one generation.
  step-Next : (e : Event) → Next s (step e s).0
  unfolding step
  step-Next (starts sid uri now) = start-Next sid uri now
  step-Next (unregisters sid) = local _ (unregister-Local sid s)
  step-Next (halts a) = local _ (stop_locked-Local s a)
  step-Next (stops_if sid gen_id a) = local _ (stop_found-Local s sid gen_id a)
  step-Next (restarts a sid offset size) = restart-Next a sid offset size
  step-Next (resumes a sid now) = resume-Next a sid now
  step-Next (asks a now) = local _ (elapsed_at-Local s a now)
  step-Next (accepts sid gen_id now) = local _ (accept-Local s sid gen_id now)
  step-Next (no_start g) = local _ (close_started-Local s g)
  step-Next (errs g message) = local _ (mark_error-Local s g message)
  step-Next (reports a g message) = same
  step-Next (runs g) = local _ (run_started-Local s g)
  step-Next (stores g chunk) = local _ (store_chunk-Local s g chunk)
  step-Next (keeps g chunk) = local _ (keep_chunk-Local s g chunk)
  step-Next (sends done_first g chunk) = local _ (send_chunk-Local s done_first g chunk)
  step-Next (goes_off g) = local _ (exit_off-Local s g)
  step-Next (exits a g had_error) = local _ (exit_locked-Local s a g had_error)
  step-Next (closes g) = local _ (exit_clients-Local s g)
  step-Next (reports_end a g) = same
  step-Next (is_done g) = local _ (exit_done-Local s g)
  step-Next (claims a g) = local _ (startup_claim-Local s a g)
  step-Next (switches_off a) = local _ (switch_off-Local s a)
  step-Next (cancels g) = local _ (cancel_gen-Local s g)
  step-Next (kills g) = local _ (kill_gen-Local s g)
  step-Next (attaches id sid a g) = local _ (attach-Local s id sid a g)
  step-Next (detaches id g) = local _ (detach-Local s id g)

-- Every schedule of the atomic sections of handlers, encoder goroutines and timers that gives out
-- fewer than 2^64 ids keeps the streamer valid: ids are given out once, a stream records the id of
-- its current generation, and the map holds live streams under their sessions. No stream's
-- current id falls.
pub run-IsValid :
    (es : List Event) (s : Streamer)
    → s.gen_count + length es < 2 ^ 64
    → IsValid s
    → IsValid (run es s).0 × Grows s (run es s).0
unfolding run
run-IsValid [] s room v = (v, Local-Grows s s (Local-refl s))
run-IsValid (e ∷ es) s room v =
    let t = (step e s).0 in
    let n = step-Next s (omega arith) v e in
    let (v', g) = run-IsValid es t (omega (arith, n.ids_by_one)) n.valid in
    (v', Grows-trans s t (run es t).0 n.grows g)
