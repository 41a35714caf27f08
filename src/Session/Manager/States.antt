-- ===== src/Session/Manager/States.antt =====
-- The state of a session in the map, and what a change does to it.
pub mod Errors
pub mod Starts
use ma_dlna.Base.{
  ℕ, Bool, true, false, List, [], ◌∷◌, ◌≡◌, ◌⊎◌, inl, inr, refl, sym, subst, ◌∙◌, Option, none,
  some, String, All, arith, if◌then◌else◌, eqb, text_discrete, Option-cases,
}
use ma_dlna.Base.Dict.{lookup, insert, lookup-insert}
use ma_dlna.Session.Types.{
  State, idle, loaded, starting, playing, paused, stopped, error, Session, Manager,
}
use ma_dlna.Session.Manager.{
  is, moved, set_session, change, set_session_gen_id, set_current_session_id, play_section,
  stop_section, pause_section, seek_section, mark_stopped_if_generation,
  set_playing_accepted_if_generation, mark_playing_if_generation, mark_paused_if_generation,
  set_error_if_generation, set_error_if_no_generation, accept_section, fail_section, set_next_uri,
  set_play_mode, is_current_generation_active,
}
use ma_dlna.Session.Manager.Evict.{Request, create_section, new_session}
use ma_dlna.Session.Manager.Evict.Create.{create_section-Opens}
use ma_dlna.Session.Manager.Valid.{IsValid}
use ma_dlna.Session.Manager.Sections.{
  Section, record_generation, make_current, create, play, stop, pause, seek, mark_stopped,
  accept_playing, mark_playing, mark_paused, accept, set_error, fail, set_error_unstarted, next_uri,
  play_mode, apply, run, apply-IsValid,
}

unfoldable pub state_of : String → Manager → Option State
state_of sid m = elim (lookup sid m.sessions) [ none ↦ none | some s ↦ some s.state ]

-- A change that leaves a state only for the same one keeps it.
pub change-state_of :
    (st : State) (sid k : String) (ok : Session → Bool) (f : Session → Session) (m : Manager)
    → ((s : Session) → ok s ≡ true → k ≡ sid → s.state ≡ st → (f s).state ≡ st)
    → state_of sid m ≡ some st
    → state_of sid (change k ok f m).0 ≡ some st
unfolding state_of
change-state_of st sid k ok f m keeps e = elim (Option-cases (lookup k m.sessions)) [
  | inl no_one ↦ rw (no_one, change) e
  | inr (s, here) ↦
      let same = keeps s in ground (arith, e, here, same, lookup-insert k sid (f s) m.sessions)
]

-- A change never enters the state `starting`.
pub change-not_starting :
    (sid k : String) (ok : Session → Bool) (f : Session → Session) (m : Manager)
    → ((s : Session) → ok s ≡ true → ¬ (s.state ≡ starting) → ¬ ((f s).state ≡ starting))
    → ¬ (state_of sid m ≡ some starting)
    → ¬ (state_of sid (change k ok f m).0 ≡ some starting)
unfolding state_of
change-not_starting sid k ok f m keeps h e = elim (Option-cases (lookup k m.sessions)) [
  | inl no_one ↦ ground (arith, e, no_one, h)
  | inr (s, here) ↦
      let same = keeps s in ground (arith, e, here, same, h, lookup-insert k sid (f s) m.sessions)
]

-- `play` of another session.
pub play-state_of :
    (sid k : String) (now : ℕ) (m : Manager)
    → ¬ (k ≡ sid)
    → state_of sid (play_section k now m).0 ≡ state_of sid m
unfolding state_of play_section
play-state_of sid k now m ne = elim (Option-cases (lookup k m.sessions)) [
  | inl no_one ↦ rw (no_one, play_section)
  | inr (s, here) ↦ ground (
    arith,
    here,
    ne,
    lookup-insert k sid (moved starting now s) m.sessions,
    lookup-insert k sid (record (moved starting now s) { error_text = "" }) m.sessions,
  )
]

pub seek-state_of :
    (sid k : String) (now : ℕ) (m : Manager)
    → ¬ (k ≡ sid)
    → state_of sid (seek_section k now m) ≡ state_of sid m
unfolding state_of seek_section set_session_gen_id
seek-state_of sid k now m ne = elim (Option-cases (lookup k m.sessions)) [
  | inl no_one ↦ rw (no_one, seek_section)
  | inr (s, here) ↦ ground (arith, here, ne, lookup-insert k sid (moved starting now s) m.sessions)
]

-- `seek` of a session in error.
pub seek-error :
    (sid : String) (now : ℕ) (m : Manager)
    → state_of sid m ≡ some error
    → state_of sid (seek_section sid now m) ≡ some error
unfolding state_of seek_section
seek-error sid now m e = ground (arith, e)
