-- ===== src/Session/Manager/States/Starts.antt =====
-- Which sections can bring a session into the state `starting`.
use ma_dlna.Base.{
  ℕ, true, false, List, [], ◌∷◌, ◌≡◌, inl, inr, sym, ◌∙◌, some, String, All, arith, text_discrete,
  Option-cases,
}
use ma_dlna.Base.Dict.{lookup, lookup-insert}
use ma_dlna.Session.Types.{starting, playing, paused, stopped, Manager}
use ma_dlna.Session.Manager.{
  moved, set_session_gen_id, set_current_session_id, stop_section, pause_section,
  mark_stopped_if_generation, set_playing_accepted_if_generation, mark_playing_if_generation,
  mark_paused_if_generation, set_error_if_generation, set_error_if_no_generation, accept_section,
  fail_section, set_next_uri, set_play_mode, is_current_generation_active,
}
use ma_dlna.Session.Manager.Evict.{Request, create_section, new_session}
use ma_dlna.Session.Manager.Evict.Create.{create_section-Opens}
use ma_dlna.Session.Manager.Valid.{IsValid}
use ma_dlna.Session.Manager.Sections.{
  Section, record_generation, make_current, create, play, stop, pause, seek, mark_stopped,
  accept_playing, mark_playing, mark_paused, accept, set_error, fail, set_error_unstarted, next_uri,
  play_mode, apply, run, apply-IsValid,
}
use ma_dlna.Session.Manager.States.{state_of, change-not_starting, play-state_of, seek-state_of}

-- A `Play` or `Seek` of the session: what can make it start anew.
abbrev pub IsRestart : String → Section → Type 0
IsRestart sid (play k) = k ≡ sid
IsRestart sid (seek k) = k ≡ sid
IsRestart sid _ = ⊥

create-not_starting :
    (sid : String) (r : Request) (now : ℕ) (m : Manager)
    → IsValid m
    → ¬ (state_of sid (create_section r now m).0 ≡ some starting)
unfolding state_of new_session
create-not_starting sid r now m v e =
    let m' = (create_section r now m).0 in
    let opens = create_section-Opens r now m v in
    elim (text_discrete r.id sid) [
      | yes same ↦ ground (arith, e, opens.entered, same)
      | no other ↦ elim (Option-cases (lookup sid m'.sessions)) [
        | inl no_one ↦ ground (arith, e, no_one)
        | inr (s, there) ↦ ground (arith, e, there, opens.others_stopped sid s there other)
      ]
    ]

not_starting :
    (e : Section) (sid : String) (now : ℕ) (m : Manager)
    → ¬ IsRestart sid e
    → IsValid m
    → ¬ (state_of sid m ≡ some starting)
    → ¬ (state_of sid (apply e now m) ≡ some starting)
unfolding is_current_generation_active apply set_session_gen_id set_current_session_id stop_section
    pause_section mark_stopped_if_generation set_playing_accepted_if_generation
    mark_playing_if_generation mark_paused_if_generation set_error_if_generation
    set_error_if_no_generation accept_section fail_section set_next_uri set_play_mode state_of
not_starting (record_generation k gid) sid now m no_restart v h = h
not_starting (make_current k) sid now m no_restart v h = h
not_starting (create r) sid now m no_restart v h = create-not_starting sid r now m v
not_starting (play k) sid now m no_restart v h =
    λ e. h (sym (play-state_of sid k now m no_restart) ∙ e)
not_starting (seek k) sid now m no_restart v h =
    λ e. h (sym (seek-state_of sid k now m no_restart) ∙ e)
not_starting (stop k) sid now m no_restart v h =
    change-not_starting sid k (λ s. true) (moved stopped now) m (λ s ok b e. cc e) h
not_starting (pause k) sid now m no_restart v h =
    change-not_starting sid k (λ s. true) (moved paused now) m (λ s ok b e. cc e) h
not_starting (mark_stopped k gid) sid now m no_restart v h =
    change-not_starting sid k _ _ m (λ s ok b e. cc e) h
not_starting (accept_playing k gid) sid now m no_restart v h =
    change-not_starting sid k _ _ m (λ s ok b e. cc e) h
not_starting (mark_playing k gid) sid now m no_restart v h =
    change-not_starting sid k _ _ m (λ s ok b e. cc e) h
not_starting (mark_paused k gid) sid now m no_restart v h =
    change-not_starting sid k _ _ m (λ s ok b e. cc e) h
not_starting (accept k gid) sid now m no_restart v h =
    change-not_starting sid k _ _ m (λ s ok b e. cc e) h
not_starting (set_error k gid message) sid now m no_restart v h =
    change-not_starting sid k _ _ m (λ s ok b e. cc e) h
not_starting (fail k gid message) sid now m no_restart v h =
    change-not_starting sid k _ _ m (λ s ok b e. cc e) h
not_starting (set_error_unstarted k message) sid now m no_restart v h =
    change-not_starting sid k _ _ m (λ s ok b e. cc e) h
not_starting (next_uri k uri) sid now m no_restart v h =
    change-not_starting sid k (λ s. true) (λ s. record s { next_uri = uri }) m (λ s ok b. b) h
not_starting (play_mode k mode) sid now m no_restart v h =
    change-not_starting sid k (λ s. true) (λ s. record s { play_mode = mode }) m (λ s ok b. b) h

run-not_starting :
    (sections : List (Section × ℕ)) (sid : String) (m : Manager)
    → All (λ e. ¬ IsRestart sid e.0) sections
    → IsValid m
    → ¬ (state_of sid m ≡ some starting)
    → ¬ (state_of sid (run sections m) ≡ some starting)
unfolding run
run-not_starting [] sid m h v b = b
run-not_starting ((section, now) ∷ sections) sid m h v b =
    run-not_starting sections sid (apply section now m) h.1 (apply-IsValid section now m v)
      (not_starting section sid now m h.0 v b)

accept-not_starting :
    (sid : String) (gen_id now : ℕ) (m : Manager)
    → (accept_section sid gen_id now m).1 ≡ true
    → ¬ (state_of sid (accept_section sid gen_id now m).0 ≡ some starting)
unfolding accept_section state_of
accept-not_starting sid gen_id now m ok e = elim (Option-cases (lookup sid m.sessions)) [
  | inl no_one ↦ ground (arith, ok, no_one)
  | inr (s, there) ↦
      ground (arith, ok, e, there, lookup-insert sid sid (moved playing now s) m.sessions)
]

refused-not_starting :
    (sid : String) (gen_id now : ℕ) (m : Manager)
    → ¬ (state_of sid m ≡ some starting)
    → (accept_section sid gen_id now m).1 ≡ false
unfolding accept_section state_of
refused-not_starting sid gen_id now m h = ground (arith, h)

-- In a valid map of sessions, after the last section of `AcceptPlaybackIfGeneration` has returned true
-- for a session, it returns false for that session, with whatever generation id, until a `Play` or
-- `Seek` of the session: a start is announced as playing at most once.
pub accept-once :
    (sections : List (Section × ℕ)) (sid : String) (gen_id gen_id' now now' : ℕ) (m : Manager)
    → IsValid m
    → All (λ e. ¬ IsRestart sid e.0) sections
    → (accept_section sid gen_id now m).1 ≡ true
    → (accept_section sid gen_id' now' (run sections (accept_section sid gen_id now m).0)).1 ≡ false
unfolding apply
accept-once sections sid gen_id gen_id' now now' m v h ok =
    let m' = (accept_section sid gen_id now m).0 in
    refused-not_starting sid gen_id' now' (run sections m') (
      run-not_starting sections sid m' h (apply-IsValid (accept sid gen_id) now m v)
        (accept-not_starting sid gen_id now m ok))
