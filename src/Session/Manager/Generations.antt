-- ===== src/Session/Manager/Generations.antt =====
-- Reports of generations that the manager does not expect.
use ma_dlna.Base.{ℕ, List, [], ◌∷◌, ◌≡◌, refl, ◌⊎◌, some, String, All, arith}
use ma_dlna.Base.Dict.{lookup}
use ma_dlna.Session.Types.{playing, starting, Session, Manager}
use ma_dlna.Session.Manager.{
  set_session_gen_id, seek_section, mark_stopped_if_generation, set_playing_accepted_if_generation,
  mark_playing_if_generation, mark_paused_if_generation, set_error_if_generation, accept_section,
  fail_section, is_current_generation_active,
}
use ma_dlna.Session.Manager.Sections.{
  Section, mark_stopped, accept_playing, mark_playing, mark_paused, accept, set_error, fail, apply,
  run,
}

-- The section is about this session, and asks for the generation, which is another than 0 and than
-- the expected one.
abbrev pub IsLate : String → ℕ → Section → Type 0
IsLate sid expected (mark_stopped k gen_id) = (k ≡ sid) × ¬ (gen_id ≡ 0) × ¬ (expected ≡ gen_id)
IsLate sid expected (accept_playing k gen_id) = (k ≡ sid) × ¬ (gen_id ≡ 0) × ¬ (expected ≡ gen_id)
IsLate sid expected (mark_playing k gen_id) = (k ≡ sid) × ¬ (gen_id ≡ 0) × ¬ (expected ≡ gen_id)
IsLate sid expected (mark_paused k gen_id) = (k ≡ sid) × ¬ (gen_id ≡ 0) × ¬ (expected ≡ gen_id)
IsLate sid expected (accept k gen_id) = (k ≡ sid) × ¬ (gen_id ≡ 0) × ¬ (expected ≡ gen_id)
IsLate sid expected (set_error k gen_id message) =
    (k ≡ sid) × ¬ (gen_id ≡ 0) × ¬ (expected ≡ gen_id)
IsLate sid expected (fail k gen_id message) = (k ≡ sid) × ¬ (gen_id ≡ 0) × ¬ (expected ≡ gen_id)
IsLate sid expected _ = ⊥

late_section :
    (e : Section) (sid : String) (now : ℕ) (m : Manager)
    → IsLate sid (m.session_gen_id sid) e
    → apply e now m ≡ m
unfolding apply mark_stopped_if_generation set_playing_accepted_if_generation
    mark_playing_if_generation mark_paused_if_generation set_error_if_generation accept_section
    fail_section is_current_generation_active
late_section (mark_stopped k gen_id) sid now m (e, some_id, other) =
    ground (arith, e, some_id, other)
late_section (accept_playing k gen_id) sid now m (e, some_id, other) =
    ground (arith, e, some_id, other)
late_section (mark_playing k gen_id) sid now m (e, some_id, other) =
    ground (arith, e, some_id, other)
late_section (mark_paused k gen_id) sid now m (e, some_id, other) =
    ground (arith, e, some_id, other)
late_section (accept k gen_id) sid now m (e, some_id, other) = ground (arith, e, some_id, other)
late_section (set_error k gen_id message) sid now m (e, some_id, other) =
    ground (arith, e, some_id, other)
late_section (fail k gen_id message) sid now m (e, some_id, other) =
    ground (arith, e, some_id, other)
late_section _ sid now m h = absurd h

-- Reports for a session that carry a generation id other than 0 and than the recorded one change
-- nothing at all, however many come: no state, error, time or id of any session.
pub late-ignored :
    (sections : List (Section × ℕ)) (sid : String) (m : Manager)
    → All (λ e. IsLate sid (m.session_gen_id sid) e.0) sections
    → run sections m ≡ m
unfolding run
late-ignored [] sid m h = refl
late-ignored ((e, now) ∷ sections) sid m h =
    rw (late_section e sid now m h.0) (late-ignored sections sid m h.1)

seek_section-reset :
    (sid : String) (now : ℕ) (m : Manager) (s : Session)
    → lookup sid m.sessions ≡ some s
    → (s.state ≡ playing) ⊎ (s.state ≡ starting)
    → (seek_section sid now m).session_gen_id sid ≡ 0
unfolding seek_section set_session_gen_id
seek_section-reset sid now m s e st = ground (arith, e, st)

-- After a `Seek` of a session that plays or starts, until the streamer announces the new generation,
-- every report of any generation of it changes nothing.
pub seek-silences :
    (sections : List (Section × ℕ)) (sid : String) (now : ℕ) (m : Manager) (s : Session)
    → lookup sid m.sessions ≡ some s
    → (s.state ≡ playing) ⊎ (s.state ≡ starting)
    → All (λ e. IsLate sid 0 e.0) sections
    → run sections (seek_section sid now m) ≡ seek_section sid now m
seek-silences sections sid now m s e st h =
    late-ignored sections sid (seek_section sid now m) (rw (seek_section-reset sid now m s e st) h)
