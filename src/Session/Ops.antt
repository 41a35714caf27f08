-- ===== src/Session/Ops.antt =====
-- internal/session/session.go: the methods of `Manager` that also call the streamer or the error
-- notifier. `env`, `before` and `after` act for all that other goroutines do where a method holds
-- no lock.
pub mod Agreement
pub mod Schedules
pub mod Guarded
use ma_dlna.Base.{
  ℕ, Bool, true, false, not, ◌&&◌, ◌||◌, List, [], ◌∷◌, map, Option, none, some, String,
  if◌then◌else◌,
}
use ma_dlna.Base.Dict.{lookup}
use ma_dlna.Base.Int.{ℤ}
use ma_dlna.Session.Types.{State, error, Session, Manager}
use ma_dlna.Session.Manager.{
  is, is_stale, Played, not_found, resumes, set_session_gen_id, play_section, stop_section,
  pause_section, seek_section, mark_stopped_if_generation, set_error_if_generation as error_section,
  set_error_if_no_generation as unstarted_error_section, is_current_generation_active,
  accept_section, fail_section,
}
use ma_dlna.Session.Manager.Evict.{Request, create_section}
use ma_dlna.Session.Api.{Api, Starts}

-- The manager with its streamer, and the calls of the error notifier, the last one first.
pub record World (S : Type 0) : Type 0 where
  pub manager : Manager
  pub streamer : S
  pub notified : List (String × String)

-- `SetSessionGenID` for each start that is reported.
unfoldable pub hear : Starts → Manager → Manager
unfolding set_session_gen_id
hear [] m = m
hear ((sid, gen_id) ∷ starts) m = hear starts (set_session_gen_id sid gen_id m)

module _ {S : Type 0} where
  abbrev pub set_manager : World S → Manager → World S
  set_manager w m = record w { manager = m }

  abbrev pub set_streamer : World S → S → World S
  set_streamer w s = record w { streamer = s }

  -- a call of the streamer, with the starts that it reports
  abbrev pub call : (S → S × Starts) → World S → World S
  call f w =
      let (s, starts) = f w.streamer in record w { streamer = s; manager = hear starts w.manager }

  -- The notifier is told what was set.
  abbrev pub notify : World S → String → String → Manager × Bool → World S × Bool
  notify w sid message (m, set) =
      let w' = set_manager w m in
      if set then (record w' { notified = (sid, message) ∷ w.notified }, true) else (w', false)

module _ {S : Type 0} (api : Api S) where
  unfoldable pub start_stream : String → String → World S → World S
  unfolding hear
  start_stream sid uri w = call (api.start sid uri) w

  unfoldable pub resume : String → World S → World S
  unfolding hear
  resume sid w = call (api.resume sid) w

  -- The flag is false for `ErrNotFound`.
  unfoldable pub play : (World S → World S) → String → ℕ → World S → World S × Bool
  unfolding play_section resume
  play env sid now w =
      let (m, played) = play_section sid now w.manager in
      let w' = set_manager w m in
      elim played [
        | not_found ↦ (w', false)
        | resumes ↦ (resume sid (env w'), true)
        | _ ↦ (w', true)
      ]

  unfoldable pub stop : (World S → World S) → String → ℕ → World S → World S × Bool
  unfolding stop_section
  stop env sid now w =
      let (m, found) = stop_section sid now w.manager in
      let w' = env (set_manager w m) in
      if found then (set_streamer w' (api.stop sid w'.streamer), true) else (w, false)

  unfoldable pub pause : (World S → World S) → String → ℕ → World S → World S × Bool
  unfolding pause_section hear
  pause env sid now w =
      let (m, found) = pause_section sid now w.manager in
      if found then (call (api.pause sid) (env (set_manager w m)), true) else (w, false)

  unfoldable pub seek : (World S → World S) → String → ℤ → ℕ → World S → World S
  unfolding seek_section hear
  seek env sid offset now w =
      call (api.seek sid offset) (env (set_manager w (seek_section sid now w.manager)))

  -- `for _, sid := range toStop { m.streamer.Stop(sid) }`
  unfoldable pub stop_each : (World S → World S) → List String → World S → World S
  stop_each env [] w = w
  stop_each env (sid ∷ ids) w =
      let w' = env w in stop_each env ids (set_streamer w' (api.stop sid w'.streamer))

  unfoldable pub create_with_base : (World S → World S) → Request → ℕ → World S → World S
  unfolding create_section stop_each
  create_with_base env r now w =
      let (m, to_stop) = create_section r now w.manager in stop_each env to_stop (set_manager w m)

  unfoldable pub shutdown : (World S → World S) → World S → World S
  unfolding stop_each
  shutdown env w = stop_each env (map (λ e. e.0) w.manager.sessions) w

  -- The first section of `StopIfGeneration` tests what the last one tests again.
  unfoldable pub stop_if_generation :
      (World S → World S) → (World S → World S) → String → ℕ → ℕ → World S → World S × Bool
  unfolding mark_stopped_if_generation
  stop_if_generation before after sid gen_id now w =
      let w₁ = before w in
      let (s, stopped) = api.stop_if_generation sid gen_id w₁.streamer in
      let w₂ = set_streamer w₁ s in
      let w₃ = after w₂ in
      let (m, marked) = mark_stopped_if_generation sid gen_id now w₃.manager in
      elim (lookup sid w.manager.sessions) [
        | none ↦ (w, false)
        | some t ↦
            if is_stale w.manager sid gen_id || is t.state error
            then (w, false)
            else if not stopped
            then (w₂, false)
            else (set_manager w₃ m, marked)
      ]

  unfoldable pub set_error_if_generation : String → ℕ → String → ℕ → World S → World S × Bool
  set_error_if_generation sid gen_id message now w =
      notify w sid message (error_section sid gen_id message now w.manager)

  unfoldable pub set_error_if_no_generation : String → String → ℕ → World S → World S × Bool
  set_error_if_no_generation sid message now w =
      notify w sid message (unstarted_error_section sid message now w.manager)

  unfoldable pub mark_playback_accepted_if_generation :
      (World S → World S) → (World S → World S) → String → ℕ → World S → World S × Bool
  unfolding is_current_generation_active
  mark_playback_accepted_if_generation before after sid gen_id w =
      let w₁ = before w in
      let (s, accepted) = api.mark_playback_accepted sid gen_id w₁.streamer in
      let w₂ = set_streamer w₁ s in
      let w₃ = after w₂ in
      if not (is_current_generation_active sid gen_id w.manager)
      then (w, false)
      else if not accepted
      then (w₂, false)
      else (w₃, is_current_generation_active sid gen_id w₃.manager)

  unfoldable pub accept_playback_if_generation :
      (World S → World S) → (World S → World S) → String → ℕ → ℕ → World S → World S × Bool
  unfolding is_current_generation_active accept_section
  accept_playback_if_generation before after sid gen_id now w =
      let w₁ = before w in
      let (s, accepted) = api.mark_playback_accepted sid gen_id w₁.streamer in
      let w₂ = set_streamer w₁ s in
      let w₃ = after w₂ in
      let (m, moved) = accept_section sid gen_id now w₃.manager in
      if not (is_current_generation_active sid gen_id w.manager)
      then (w, false)
      else if not accepted
      then (w₂, false)
      else (set_manager w₃ m, moved)

  unfoldable pub stop_with_error_if_generation_active :
      (World S → World S) → (World S → World S) → String → ℕ → String → ℕ → World S → World S × Bool
  unfolding is_current_generation_active fail_section
  stop_with_error_if_generation_active before after sid gen_id message now w =
      let w₁ = before w in
      let (s, stopped) = api.stop_if_generation sid gen_id w₁.streamer in
      let w₂ = set_streamer w₁ s in
      let w₃ = after w₂ in
      if not (is_current_generation_active sid gen_id w.manager)
      then (w, false)
      else if not stopped
      then (w₂, false)
      else notify w₃ sid message (fail_section sid gen_id message now w₃.manager)
