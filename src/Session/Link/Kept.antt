-- ===== src/Session/Link/Kept.antt =====
-- Each call of the streamer keeps the laws that the manager relies on.
use ma_dlna.Base.{
  ℕ, [], ◌≡◌, inl, inr, refl, ap, ◌∙◌, none, some, String, arith, if◌then◌else◌, ◌==◌, Option-cases,
  Bool-cases,
}
use ma_dlna.Base.Dict.{lookup, lookup-insert}
use ma_dlna.Base.Int.{ℤ, pos}
use ma_dlna.Stream.Streamer
use ma_dlna.Stream.Streamer.{
  put, Callback, gen_start, first_client, failed, ended, install, blank_stream, is_active, start,
  stop, stop_locked, stop_found, stop_if_generation, pause, seek, resume, resume_found,
  restart_with_offset, restart_begin, restart_finish, elapsed, elapsed_at, still_current,
  mark_playback_accepted_if_generation, current_gen,
}
use ma_dlna.Stream.Ring
use ma_dlna.Stream.Gen.{fresh}
use ma_dlna.Stream.Replay.{init_segment_limit}
use ma_dlna.Stream.Streamer.Valid.{Local}
use ma_dlna.Stream.Streamer.Valid.Sections.{
  Local-refl, Local-trans, stop_locked-Local, stop_found_cases, accept-Local, elapsed_at-Local,
}
use ma_dlna.Session.Api.{Laws}
use ma_dlna.Session.Link.{starts_of, generation, Around, streamer_api, IsCalm, IsMapped}
use ma_dlna.Session.Link.Effects.{
  still_current_of_lookup, elapsed_here, registered, registered-IsMapped, registered_other,
  stop_locked-streams, accept-streams, elapsed_at-streams, Law, same-Law, kept-Law, after-Law,
  removed-Law, installed-Law, install_law,
}

module _ (w : Around) (calm : IsCalm w.env) (calm_wait : IsCalm w.wait) where
  starting-Law :
      (sid uri : String) (s : Streamer.Streamer)
      → IsMapped s
      → Law w sid s ((streamer_api w).start sid uri s)
  unfolding streamer_api start Law
  starting-Law sid uri s v =
      let a = s.stream_count in
      let gen =
        fresh (Ring.new s.cfg.ring_buffer_bytes) (pos 0) (init_segment_limit s.cfg) 0
          (some w.now) in
      elim (Bool-cases (is_active s sid)) [
        | inl e ↦ rw (e, start, if◌then◌else◌) (same-Law w sid s v)
        | inr e ↦
            rw (e, start, if◌then◌else◌)
              (install_law w sid s (registered sid uri s) a gen 1 (registered-IsMapped sid uri s v)
                (ground (arith, lookup-insert sid sid a s.streams)) (registered_other sid uri s v))
      ]

  stopping-Law :
      (sid : String) (s : Streamer.Streamer)
      → IsMapped s
      → Law w sid s ((streamer_api w).stop sid s, [])
  unfolding streamer_api stop
  stopping-Law sid s v = elim (Option-cases (lookup sid s.streams)) [
    | inl e ↦ rw (e, stop) (same-Law w sid s v)
    | inr (a, e) ↦ rw (e, stop) (removed-Law w w.env sid s a calm v)
  ]

  env-IsMapped : (s : Streamer.Streamer) → IsMapped s → IsMapped (w.env s)
  unfolding Law
  env-IsMapped s v = (kept-Law w "" s (w.env s) v (calm s).0 (calm s).1).0

  stopping_if_Law :
      (sid : String) (gen_id : ℕ) (s : Streamer.Streamer)
      → IsMapped s
      → Law w sid s (((streamer_api w).stop_if_generation sid gen_id s).0, [])
  unfolding streamer_api stop_if_generation
  stopping_if_Law sid gen_id s v =
      let t = w.env s in
      let v' = env-IsMapped s v in
      elim (Option-cases (lookup sid s.streams)) [
        | inl e ↦ rw (e, stop_if_generation) (same-Law w sid s v)
        | inr (a, e) ↦ elim (stop_found_cases t sid gen_id a) [
          | inl same ↦
              rw (e, stop_if_generation, same)
                (after-Law w sid s t (t, []) (calm s).0 (calm s).1 (same-Law w sid t v'))
          | inr gone ↦
              rw (e, stop_if_generation, gone)
                (after-Law w sid s t _ (calm s).0 (calm s).1
                  (removed-Law w (λ u. u) sid t a (λ u. (Local-refl u, refl)) v'))
        ]
      ]

  accepting-Law :
      (sid : String) (gen_id : ℕ) (s : Streamer.Streamer)
      → IsMapped s
      → Law w sid s (((streamer_api w).mark_playback_accepted sid gen_id s).0, [])
  unfolding streamer_api
  accepting-Law sid gen_id s v =
      kept-Law w sid s (mark_playback_accepted_if_generation sid gen_id w.now s).0 v
        (accept-Local s sid gen_id w.now) (accept-streams sid gen_id w.now s)

  -- The restart of a registered stream after a local step.
  restart-Law :
      (sid : String) (s t : Streamer.Streamer) (a : ℕ) (offset : ℤ)
      → IsMapped s
      → Local s t
      → t.streams ≡ s.streams
      → lookup sid s.streams ≡ some a
      → Law w sid s (
        (restart_with_offset w.wait a sid offset t).0,
        starts_of (restart_with_offset w.wait a sid offset t).1,
      )
  unfolding restart_with_offset restart_finish restart_begin
  restart-Law sid s t a offset v l e here =
      let u = (stop_locked a t).0 in
      let (quiet, same) = calm_wait u in
      installed-Law w sid s (w.wait u) a
        (fresh (Ring.new (current_gen t a).ring.size) offset (init_segment_limit (w.wait u).cfg) 0
          none)
        0 v
        (Local-trans s t (w.wait u) l (Local-trans t u (w.wait u) (stop_locked-Local t a) quiet))
        (same ∙ stop_locked-streams a t ∙ e) here

  seeking-Law :
      (sid : String) (offset : ℤ) (s : Streamer.Streamer)
      → IsMapped s
      → Law w sid s ((streamer_api w).seek sid offset s)
  unfolding streamer_api seek still_current
  seeking-Law sid offset s v = elim (Option-cases (lookup sid s.streams)) [
    | inl e ↦ rw (e, seek) (same-Law w sid s v)
    | inr (a, e) ↦
        let here = ap (lookup sid) (calm s).1 ∙ e in
        rw (e, seek, still_current_of_lookup (w.env s) sid a here, if◌then◌else◌)
          (restart-Law sid s (w.env s) a offset v (calm s).0 (calm s).1 e)
  ]

  pausing-Law :
      (sid : String) (s : Streamer.Streamer)
      → IsMapped s
      → Law w sid s ((streamer_api w).pause sid s)
  unfolding streamer_api pause still_current
  pausing-Law sid s v = elim (Option-cases (lookup sid s.streams)) [
    | inl e ↦ rw (e, pause) (same-Law w sid s v)
    | inr (a, e) ↦
        let s' = w.env s in
        let here = ap (lookup sid) (calm s).1 ∙ e in
        let (t, position) = elapsed_at a w.now s' in
        rw
          (
            e,
            pause,
            still_current_of_lookup s' sid a here,
            if◌then◌else◌,
            elapsed_here s' sid a w.now here,
          )
          (restart-Law sid s t a position v
            (Local-trans s s' t (calm s).0 (elapsed_at-Local s' a w.now))
            (elapsed_at-streams a w.now s' ∙ (calm s).1) e)
  ]

  resume_found-Law :
      (sid : String) (s : Streamer.Streamer) (a : ℕ)
      → IsMapped s
      → lookup sid s.streams ≡ some a
      → Law w sid s ((resume_found a sid w.now s).0, starts_of (resume_found a sid w.now s).1)
  unfolding resume_found starts_of
  resume_found-Law sid s a v e =
      let old = s.gen_at (s.stream_at a).gen in
      let gen =
        fresh (Ring.new old.ring.size) old.offset (init_segment_limit s.cfg) 0 (some w.now) in
      elim (Bool-cases ((s.stream_at a).runs_in_flight == 0)) [
        | inl idle ↦
            rw (still_current_of_lookup s sid a e, resume_found, idle, if◌then◌else◌)
              (installed-Law w sid s s a gen 1 v (Local-refl s) refl e)
        | inr busy ↦
            rw (still_current_of_lookup s sid a e, resume_found, busy, if◌then◌else◌)
              (same-Law w sid s v)
      ]

  resuming-Law :
      (sid : String) (s : Streamer.Streamer)
      → IsMapped s
      → Law w sid s ((streamer_api w).resume sid s)
  unfolding streamer_api resume
  resuming-Law sid s v = elim (Option-cases (lookup sid s.streams)) [
    | inl e ↦ rw (e, resume) (same-Law w sid s v)
    | inr (a, e) ↦ elim (Bool-cases (s.stream_at a).active) [
      | inl here ↦
          rw (e, resume, here, if◌then◌else◌)
            (after-Law w sid s (w.env s) _ (calm s).0 (calm s).1 (
              resume_found-Law sid (w.env s) a (env-IsMapped s v) (ap (lookup sid) (calm s).1 ∙ e)))
      | inr off ↦ rw (e, resume, off, if◌then◌else◌) (same-Law w sid s v)
    ]
  ]

  seek_replaces_law :
      (sid : String) (offset : ℤ) (s : Streamer.Streamer)
      → ((streamer_api w).seek sid offset s).1 ≡ []
      → generation sid ((streamer_api w).seek sid offset s).0 ≡ 0
  unfolding streamer_api seek generation starts_of restart_with_offset restart_finish
  seek_replaces_law sid offset s e = elim (Option-cases (lookup sid s.streams)) [
    | inl no_one ↦ ground (arith, no_one)
    | inr (a, there) ↦ ground (
      arith,
      e,
      there,
      still_current_of_lookup (w.env s) sid a (ap (lookup sid) (calm s).1 ∙ there),
    )
  ]

  -- The streamer keeps the laws that the manager relies on, as long as what other goroutines do in the
  -- gaps of a call registers and unregisters no stream and gives none a new generation: where each
  -- registered stream is in use and has its session, every call keeps that, leaves the generations of the
  -- other sessions alone, and reports a start exactly of the generation that it leaves current; and a
  -- `Seek` that reports none leaves no stream registered.
  pub streamer-Laws : Laws (streamer_api w) IsMapped
  unfolding Law streamer_api
  streamer-Laws = record {
    starting = starting-Law;
    stopping = stopping-Law;
    stopping_if = stopping_if_Law;
    pausing = pausing-Law;
    seeking = seeking-Law;
    seek_replaces = seek_replaces_law;
    resuming = resuming-Law;
    accepting = accepting-Law;
  }
