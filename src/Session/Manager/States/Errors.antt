-- ===== src/Session/Manager/States/Errors.antt =====
-- Which sections can take a session out of the state `error`.
use ma_dlna.Base.{
  ℕ, true, List, [], ◌∷◌, ◌≡◌, refl, sym, subst, ◌∙◌, some, String, All, arith, text_discrete,
}
use ma_dlna.Session.Types.{paused, stopped, error, Manager}
use ma_dlna.Session.Manager.{
  moved, set_session_gen_id, set_current_session_id, stop_section, pause_section, seek_section,
  mark_stopped_if_generation, set_playing_accepted_if_generation, mark_playing_if_generation,
  mark_paused_if_generation, set_error_if_generation, set_error_if_no_generation, accept_section,
  fail_section, set_next_uri, set_play_mode, is_current_generation_active,
}
use ma_dlna.Session.Manager.Sections.{
  Section, record_generation, make_current, create, play, stop, pause, seek, mark_stopped,
  accept_playing, mark_playing, mark_paused, accept, set_error, fail, set_error_unstarted, next_uri,
  play_mode, apply, run,
}
use ma_dlna.Session.Manager.States.{
  state_of, change-state_of, play-state_of, seek-state_of, seek-error,
}

-- A client's own command for this session, or the opening of any session.
abbrev pub IsCommand : String → Section → Type 0
IsCommand sid (create r) = Unit {0}
IsCommand sid (play k) = k ≡ sid
IsCommand sid (stop k) = k ≡ sid
IsCommand sid (pause k) = k ≡ sid
IsCommand sid _ = ⊥

error_stays :
    (e : Section) (sid : String) (now : ℕ) (m : Manager)
    → ¬ IsCommand sid e
    → state_of sid m ≡ some error
    → state_of sid (apply e now m) ≡ some error
unfolding is_current_generation_active apply set_session_gen_id set_current_session_id stop_section
    pause_section mark_stopped_if_generation set_playing_accepted_if_generation
    mark_playing_if_generation mark_paused_if_generation set_error_if_generation
    set_error_if_no_generation accept_section fail_section set_next_uri set_play_mode state_of
error_stays (record_generation k gid) sid now m no_command e = e
error_stays (make_current k) sid now m no_command e = e
error_stays (create r) sid now m no_command e = absurd (no_command tt)
error_stays (play k) sid now m no_command e = play-state_of sid k now m no_command ∙ e
error_stays (stop k) sid now m no_command e =
    change-state_of error sid k (λ s. true) (moved stopped now) m
      (λ s ok same st. absurd (no_command same)) e
error_stays (pause k) sid now m no_command e =
    change-state_of error sid k (λ s. true) (moved paused now) m
      (λ s ok same st. absurd (no_command same)) e
error_stays (seek k) sid now m no_command e = elim (text_discrete k sid) [
  | yes same ↦
      subst (λ j. state_of sid (seek_section j now m) ≡ some error) (sym same)
        (seek-error sid now m e)
  | no ne ↦ seek-state_of sid k now m ne ∙ e
]
error_stays (mark_stopped k gid) sid now m no_command e =
    change-state_of error sid k _ _ m (λ s ok same st. ground (arith, ok, st)) e
error_stays (accept_playing k gid) sid now m no_command e =
    change-state_of error sid k _ _ m (λ s ok same st. ground (arith, ok, st)) e
error_stays (mark_playing k gid) sid now m no_command e =
    change-state_of error sid k _ _ m (λ s ok same st. ground (arith, ok, st)) e
error_stays (mark_paused k gid) sid now m no_command e =
    change-state_of error sid k _ _ m (λ s ok same st. ground (arith, ok, st)) e
error_stays (accept k gid) sid now m no_command e =
    change-state_of error sid k _ _ m (λ s ok same st. ground (arith, ok, st)) e
error_stays (set_error k gid message) sid now m no_command e =
    change-state_of error sid k _ _ m (λ s ok same st. refl) e
error_stays (fail k gid message) sid now m no_command e =
    change-state_of error sid k _ _ m (λ s ok same st. refl) e
error_stays (set_error_unstarted k message) sid now m no_command e =
    change-state_of error sid k _ _ m (λ s ok same st. refl) e
error_stays (next_uri k uri) sid now m no_command e =
    change-state_of error sid k (λ s. true) (λ s. record s { next_uri = uri }) m
      (λ s ok same st. st) e
error_stays (play_mode k mode) sid now m no_command e =
    change-state_of error sid k (λ s. true) (λ s. record s { play_mode = mode }) m
      (λ s ok same st. st) e

-- A session in error stays in error through every section but a `Play`, `Stop` or `Pause` of it and
-- the opening of a session: no report of any generation and no `Seek` hides the error.
pub error-stays :
    (sections : List (Section × ℕ)) (sid : String) (m : Manager)
    → All (λ e. ¬ IsCommand sid e.0) sections
    → state_of sid m ≡ some error
    → state_of sid (run sections m) ≡ some error
unfolding run
error-stays [] sid m h e = e
error-stays ((section, now) ∷ sections) sid m h e =
    error-stays sections sid (apply section now m) h.1 (error_stays section sid now m h.0 e)
