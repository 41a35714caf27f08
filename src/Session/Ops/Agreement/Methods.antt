-- ===== src/Session/Ops/Agreement/Methods.antt =====
-- Each of the manager's methods keeps the agreement, and so does every schedule of them.
use ma_dlna.Base.{
  ℕ, Bool, true, false, List, [], ◌∷◌, inl, subst, String, arith, text_discrete, map,
}
use ma_dlna.Base.Int.{ℤ}
use ma_dlna.Session.Types.{Manager}
use ma_dlna.Session.Manager.{
  play_section, stop_section, pause_section, seek_section, mark_stopped_if_generation,
  set_error_if_generation, set_error_if_no_generation, accept_section, fail_section,
}
use ma_dlna.Session.Manager.Evict.{Request, create_section}
use ma_dlna.Session.Api.{Api, Announces, Laws}
use ma_dlna.Session.Ops
use ma_dlna.Session.Ops.{World, hear, call, set_manager, set_streamer, notify}
use ma_dlna.Session.Ops.Agreement.{
  Agrees, AgreesBut, AgreesAll, SameIds-AgreesAll, call-AgreesBut, call-Agrees, call-AgreesAll,
}
use ma_dlna.Session.Manager.Ids.{
  create_section-SameIds, play_section-SameIds, stop_section-SameIds, pause_section-SameIds,
  mark_stopped-SameIds, accept_section-SameIds, set_error-SameIds, fail_section-SameIds,
  set_error_unstarted-SameIds, seek_section-ids, SameIds,
}
use ma_dlna.Session.Ops.Schedules.{
  Op, start_stream, resume, play, stop, pause, seek, create, shutdown, stop_if, accept_if,
  mark_accepted_if, set_error_if, stop_with_error_if, set_error_unstarted, act, run,
}

module _ {S : Type 0} (api : Api S) (Fine : S → Type 0) (laws : Laws api Fine)
    (env : World S → World S) where
  module _ (keeps : (w : World S) → AgreesAll api Fine w → AgreesAll api Fine (env w))
      (keeps_but : (sid : String) (w : World S)
        → AgreesBut api Fine sid w
        → AgreesBut api Fine sid (env w)) where
    join :
        (sid : String) (w : World S)
        → AgreesBut api Fine sid w
        → Agrees api Fine sid w
        → AgreesAll api Fine w
    join sid w (fine, others) own = (
      fine,
      λ k. elim (text_discrete sid k) [
        | yes e ↦ subst (λ j. Agrees api Fine j w) e own
        | no ne ↦ others k ne
      ],
    )

    stop_each-AgreesAll :
        (ids : List String) (w : World S)
        → AgreesAll api Fine w
        → AgreesAll api Fine (Ops.stop_each api env ids w)
    unfolding Ops.stop_each hear
    stop_each-AgreesAll [] w v = v
    stop_each-AgreesAll (sid ∷ ids) w v =
        let v' = keeps w v in
        stop_each-AgreesAll ids _ (
          call-AgreesAll api Fine sid (λ s. (api.stop sid s, [])) (env w) v'
            (laws.stopping sid (env w).streamer v'.0))

    seek-AgreesAll :
        (sid : String) (offset : ℤ) (now : ℕ) (w : World S)
        → AgreesAll api Fine w
        → AgreesAll api Fine (Ops.seek api env sid offset now w)
    unfolding Ops.seek
    seek-AgreesAll sid offset now w v =
        let reset = set_manager w (seek_section sid now w.manager) in
        let w' = env reset in
        let v' =
          keeps_but sid reset
            (v.0, λ k ne. ground (arith, v.1 k, seek_section-ids sid now w.manager k ne)) in
        let f = api.seek sid offset in
        let after = laws.seeking sid offset w'.streamer v'.0 in
        join sid (call f w') (call-AgreesBut api Fine sid f w' v' after)
          (call-Agrees api Fine sid f w' after.1 (inl (laws.seek_replaces sid offset w'.streamer)))

    resume-AgreesAll :
        (sid : String) (w : World S)
        → AgreesAll api Fine w
        → AgreesAll api Fine (Ops.resume api sid w)
    unfolding Ops.resume
    resume-AgreesAll sid w v =
        call-AgreesAll api Fine sid (api.resume sid) w v (laws.resuming sid w.streamer v.0)

    play-AgreesAll :
        (sid : String) (now : ℕ) (w : World S)
        → AgreesAll api Fine w
        → AgreesAll api Fine (Ops.play api env sid now w).0
    unfolding Ops.play
    play-AgreesAll sid now w v =
        let m = (play_section sid now w.manager).0 in
        let v' = SameIds-AgreesAll api Fine w m (play_section-SameIds sid now w.manager) v in
        let resumed = resume-AgreesAll sid (env (set_manager w m)) (keeps (set_manager w m) v') in
        ground (arith, v', resumed)

    stop-AgreesAll :
        (sid : String) (now : ℕ) (w : World S)
        → AgreesAll api Fine w
        → AgreesAll api Fine (Ops.stop api env sid now w).0
    unfolding Ops.stop hear
    stop-AgreesAll sid now w v =
        let m = (stop_section sid now w.manager).0 in
        let v' =
          keeps (set_manager w m)
            (SameIds-AgreesAll api Fine w m (stop_section-SameIds sid now w.manager) v) in
        let w' = env (set_manager w m) in
        let halted =
          call-AgreesAll api Fine sid (λ s. (api.stop sid s, [])) w' v'
            (laws.stopping sid w'.streamer v'.0) in
        ground (arith, v, halted)

    pause-AgreesAll :
        (sid : String) (now : ℕ) (w : World S)
        → AgreesAll api Fine w
        → AgreesAll api Fine (Ops.pause api env sid now w).0
    unfolding Ops.pause
    pause-AgreesAll sid now w v =
        let m = (pause_section sid now w.manager).0 in
        let v' =
          keeps (set_manager w m)
            (SameIds-AgreesAll api Fine w m (pause_section-SameIds sid now w.manager) v) in
        let w' = env (set_manager w m) in
        let paused =
          call-AgreesAll api Fine sid (api.pause sid) w' v' (laws.pausing sid w'.streamer v'.0) in
        ground (arith, v, paused)

    create-AgreesAll :
        (r : Request) (now : ℕ) (w : World S)
        → AgreesAll api Fine w
        → AgreesAll api Fine (Ops.create_with_base api env r now w)
    unfolding Ops.create_with_base
    create-AgreesAll r now w v =
        let (m, to_stop) = create_section r now w.manager in
        stop_each-AgreesAll to_stop (set_manager w m)
          (SameIds-AgreesAll api Fine w m (create_section-SameIds r now w.manager) v)

    -- A call that reports no start, between two gaps.
    between-AgreesAll :
        (sid : String) (f : S → S) (w : World S)
        → AgreesAll api Fine w
        → ((s : S) → Fine s → Fine (f s) × Announces api sid s (f s, []))
        → AgreesAll api Fine (set_streamer (env w) (f (env w).streamer))
    unfolding hear
    between-AgreesAll sid f w v law =
        let v' = keeps w v in
        call-AgreesAll api Fine sid (λ s. (f s, [])) (env w) v' (law (env w).streamer v'.0)

    stop_if-AgreesAll :
        (sid : String) (gen_id now : ℕ) (w : World S)
        → AgreesAll api Fine w
        → AgreesAll api Fine (Ops.stop_if_generation api env env sid gen_id now w).0
    unfolding Ops.stop_if_generation
    stop_if-AgreesAll sid gen_id now w v =
        let f = λ (s : S). (api.stop_if_generation sid gen_id s).0 in
        let w' = set_streamer (env w) (f (env w).streamer) in
        let v₂ : AgreesAll api Fine w' =
          between-AgreesAll sid f w v (laws.stopping_if sid gen_id) in
        let m = (env w').manager in
        let marked = (mark_stopped_if_generation sid gen_id now m).0 in
        let v₃ =
          SameIds-AgreesAll api Fine (env w') marked (mark_stopped-SameIds sid gen_id now m)
            (keeps w' v₂) in
        ground (arith, v, v₂, v₃)

    accept_if-AgreesAll :
        (sid : String) (gen_id now : ℕ) (w : World S)
        → AgreesAll api Fine w
        → AgreesAll api Fine (Ops.accept_playback_if_generation api env env sid gen_id now w).0
    unfolding Ops.accept_playback_if_generation
    accept_if-AgreesAll sid gen_id now w v =
        let f = λ (s : S). (api.mark_playback_accepted sid gen_id s).0 in
        let w' = set_streamer (env w) (f (env w).streamer) in
        let v₂ : AgreesAll api Fine w' = between-AgreesAll sid f w v (laws.accepting sid gen_id) in
        let m = (env w').manager in
        let moved = (accept_section sid gen_id now m).0 in
        let v₃ =
          SameIds-AgreesAll api Fine (env w') moved (accept_section-SameIds sid gen_id now m)
            (keeps w' v₂) in
        ground (arith, v, v₂, v₃)

    mark_accepted_if-AgreesAll :
        (sid : String) (gen_id : ℕ) (w : World S)
        → AgreesAll api Fine w
        → AgreesAll api Fine (Ops.mark_playback_accepted_if_generation api env env sid gen_id w).0
    unfolding Ops.mark_playback_accepted_if_generation
    mark_accepted_if-AgreesAll sid gen_id w v =
        let f = λ (s : S). (api.mark_playback_accepted sid gen_id s).0 in
        let w' = set_streamer (env w) (f (env w).streamer) in
        let v₂ : AgreesAll api Fine w' = between-AgreesAll sid f w v (laws.accepting sid gen_id) in
        let v₃ = keeps w' v₂ in ground (arith, v, v₂, v₃)

    notify-AgreesAll :
        (w : World S) (sid message : String) (r : Manager × Bool)
        → SameIds w.manager r.0
        → AgreesAll api Fine w
        → AgreesAll api Fine (notify w sid message r).0
    notify-AgreesAll w sid message (m, true) same v = SameIds-AgreesAll api Fine w m same v
    notify-AgreesAll w sid message (m, false) same v = SameIds-AgreesAll api Fine w m same v

    stop_with_error-AgreesAll :
        (sid : String) (gen_id : ℕ) (message : String) (now : ℕ) (w : World S)
        → AgreesAll api Fine w
        → AgreesAll api Fine
            (Ops.stop_with_error_if_generation_active api env env sid gen_id message now w).0
    unfolding Ops.stop_with_error_if_generation_active
    stop_with_error-AgreesAll sid gen_id message now w v =
        let f = λ (s : S). (api.stop_if_generation sid gen_id s).0 in
        let w' = set_streamer (env w) (f (env w).streamer) in
        let v₂ : AgreesAll api Fine w' =
          between-AgreesAll sid f w v (laws.stopping_if sid gen_id) in
        let r = fail_section sid gen_id message now (env w').manager in
        let v₃ =
          notify-AgreesAll (env w') sid message r
            (fail_section-SameIds sid gen_id message now (env w').manager) (keeps w' v₂) in
        ground (arith, v, v₂, v₃)

    act-AgreesAll :
        (op : Op) (now : ℕ) (w : World S)
        → AgreesAll api Fine w
        → AgreesAll api Fine (act api env op now w)
    unfolding act Ops.start_stream Ops.shutdown Ops.set_error_if_generation
        Ops.set_error_if_no_generation
    act-AgreesAll (start_stream sid uri) now w v =
        call-AgreesAll api Fine sid (api.start sid uri) w v (laws.starting sid uri w.streamer v.0)
    act-AgreesAll (resume sid) now w v = resume-AgreesAll sid w v
    act-AgreesAll (play sid) now w v = play-AgreesAll sid now w v
    act-AgreesAll (stop sid) now w v = stop-AgreesAll sid now w v
    act-AgreesAll (pause sid) now w v = pause-AgreesAll sid now w v
    act-AgreesAll (seek sid offset) now w v = seek-AgreesAll sid offset now w v
    act-AgreesAll (create r) now w v = create-AgreesAll r now w v
    act-AgreesAll shutdown now w v = stop_each-AgreesAll (map (λ e. e.0) w.manager.sessions) w v
    act-AgreesAll (stop_if sid gen_id) now w v = stop_if-AgreesAll sid gen_id now w v
    act-AgreesAll (accept_if sid gen_id) now w v = accept_if-AgreesAll sid gen_id now w v
    act-AgreesAll (mark_accepted_if sid gen_id) now w v = mark_accepted_if-AgreesAll sid gen_id w v
    act-AgreesAll (set_error_if sid gen_id message) now w v =
        notify-AgreesAll w sid message (set_error_if_generation sid gen_id message now w.manager)
          (set_error-SameIds sid gen_id message now w.manager) v
    act-AgreesAll (stop_with_error_if sid gen_id message) now w v =
        stop_with_error-AgreesAll sid gen_id message now w v
    act-AgreesAll (set_error_unstarted sid message) now w v =
        notify-AgreesAll w sid message (set_error_if_no_generation sid message now w.manager)
          (set_error_unstarted-SameIds sid message now w.manager) v

    -- Where the streamer keeps its laws and the other goroutines keep the agreement (in the gap of a
    -- `Seek`: that of the other sessions), every schedule of the manager's methods keeps it: for each
    -- session with a registered generation, the id that the manager has recorded is that of the
    -- current generation.
    pub run-AgreesAll :
        (ops : List (Op × ℕ)) (w : World S)
        → AgreesAll api Fine w
        → AgreesAll api Fine (run api env ops w)
    unfolding run
    run-AgreesAll [] w v = v
    run-AgreesAll ((op, now) ∷ ops) w v =
        run-AgreesAll ops (act api env op now w) (act-AgreesAll op now w v)
