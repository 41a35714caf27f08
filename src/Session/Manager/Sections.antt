-- ===== src/Session/Manager/Sections.antt =====
-- The atomic sections of the manager as one step function, and what every schedule of them keeps.
use ma_dlna.Base.{
  ℕ, Bool, true, List, [], ◌∷◌, ◌≡◌, refl, String, arith, Option-cases, Bool-cases, inl, inr,
  if◌then◌else◌,
}
use ma_dlna.Base.Dict.{lookup}
use ma_dlna.Session.Types.{State, idle, starting, playing, paused, stopped, Session, Manager}
use ma_dlna.Session.Manager.{
  set_session, change, moved, broken, set_session_gen_id, set_current_session_id, play_section,
  stop_section, pause_section, seek_section, mark_stopped_if_generation,
  set_playing_accepted_if_generation, mark_playing_if_generation, mark_paused_if_generation,
  set_error_if_generation, set_error_if_no_generation, accept_section, fail_section, set_next_uri,
  set_play_mode,
}
use ma_dlna.Session.Manager.Valid.{IsValid, insert_known-IsValid, All-lookup, IsBusy}
use ma_dlna.Session.Manager.Evict.{Request, create_section}
use ma_dlna.Session.Manager.Evict.Create.{create_section-Opens}

pub data Section : Type 0 where
  record_generation : String → ℕ → Section
  make_current : String → Section
  create : Request → Section
  play stop pause seek : String → Section
  mark_stopped accept_playing mark_playing mark_paused accept : String → ℕ → Section
  set_error fail : String → ℕ → String → Section
  set_error_unstarted : String → String → Section
  next_uri play_mode : String → String → Section

unfoldable pub apply : Section → ℕ → Manager → Manager
apply (record_generation sid gid) now m = set_session_gen_id sid gid m
apply (make_current sid) now m = set_current_session_id sid m
apply (create r) now m = (create_section r now m).0
apply (play sid) now m = (play_section sid now m).0
apply (stop sid) now m = (stop_section sid now m).0
apply (pause sid) now m = (pause_section sid now m).0
apply (seek sid) now m = seek_section sid now m
apply (mark_stopped sid gid) now m = (mark_stopped_if_generation sid gid now m).0
apply (accept_playing sid gid) now m = (set_playing_accepted_if_generation sid gid now m).0
apply (mark_playing sid gid) now m = (mark_playing_if_generation sid gid now m).0
apply (mark_paused sid gid) now m = (mark_paused_if_generation sid gid now m).0
apply (accept sid gid) now m = (accept_section sid gid now m).0
apply (set_error sid gid message) now m = (set_error_if_generation sid gid message now m).0
apply (fail sid gid message) now m = (fail_section sid gid message now m).0
apply (set_error_unstarted sid message) now m = (set_error_if_no_generation sid message now m).0
apply (next_uri sid uri) now m = set_next_uri sid uri m
apply (play_mode sid mode) now m = set_play_mode sid mode m

unfoldable pub run : List (Section × ℕ) → Manager → Manager
run [] m = m
run ((section, now) ∷ sections) m = run sections (apply section now m)

change-IsValid :
    (sid : String) (ok : Session → Bool) (f : Session → Session) (m : Manager)
    → ((s : Session) → ((f s).id ≡ s.id))
    → ((s : Session) → ¬ (s.state ≡ idle) → ¬ ((f s).state ≡ idle))
    → IsValid m
    → IsValid (change sid ok f m).0
change-IsValid sid ok f m same busy v = elim (Option-cases (lookup sid m.sessions)) [
  | inl e ↦ rw (e, change) v
  | inr (s, e) ↦ elim (Bool-cases (ok s)) [
    | inl h ↦
        rw (e, change, h, if◌then◌else◌)
          (insert_known-IsValid m sid s (f s) v e (same s)
            (busy s (All-lookup IsBusy sid m.sessions s v.busy e)))
    | inr h ↦ rw (e, change, h, if◌then◌else◌) v
  ]
]

-- A change to another state than `idle`.
moves-IsValid :
    (sid : String) (ok : Session → Bool) (st : State) (now : ℕ) (m : Manager)
    → ¬ (st ≡ idle)
    → IsValid m
    → IsValid (change sid ok (moved st now) m).0
moves-IsValid sid ok st now m other v =
    change-IsValid sid ok (moved st now) m (λ s. refl) (λ s b. other) v

breaks-IsValid :
    (sid : String) (ok : Session → Bool) (message : String) (now : ℕ) (m : Manager)
    → IsValid m
    → IsValid (change sid ok (broken message now) m).0
breaks-IsValid sid ok message now m v =
    change-IsValid sid ok (broken message now) m (λ s. refl) (λ s b e. cc e) v

play_section-IsValid :
    (sid : String) (now : ℕ) (m : Manager) → IsValid m → IsValid (play_section sid now m).0
unfolding play_section
play_section-IsValid sid now m v = elim (Option-cases (lookup sid m.sessions)) [
  | inl e ↦ rw (e, play_section) v
  | inr (s, e) ↦
      let started = insert_known-IsValid m sid s (moved starting now s) v e refl (λ e. cc e) in
      let cleared =
        insert_known-IsValid m sid s (record (moved starting now s) { error_text = "" }) v e refl
          (λ e. cc e) in
      ground (arith, e, v, started, cleared)
]

reset-IsValid :
    (sid : String) (gid : ℕ) (m : Manager) → IsValid m → IsValid (set_session_gen_id sid gid m)
unfolding set_session_gen_id
reset-IsValid sid gid m v = record { keyed = v.keyed; busy = v.busy; bounded = v.bounded }

seek_section-IsValid :
    (sid : String) (now : ℕ) (m : Manager) → IsValid m → IsValid (seek_section sid now m)
unfolding seek_section
seek_section-IsValid sid now m v = elim (Option-cases (lookup sid m.sessions)) [
  | inl e ↦ rw (e, seek_section) v
  | inr (s, e) ↦
      let started = insert_known-IsValid m sid s (moved starting now s) v e refl (λ e. cc e) in
      ground (
        arith,
        e,
        v,
        started,
        reset-IsValid sid 0 (set_session m sid (moved starting now s)) started,
      )
]

pub apply-IsValid : (e : Section) (now : ℕ) (m : Manager) → IsValid m → IsValid (apply e now m)
unfolding apply set_current_session_id stop_section pause_section mark_stopped_if_generation
    set_playing_accepted_if_generation mark_playing_if_generation mark_paused_if_generation
    set_error_if_generation set_error_if_no_generation accept_section fail_section set_next_uri
    set_play_mode
apply-IsValid (record_generation sid gid) now m v = reset-IsValid sid gid m v
apply-IsValid (make_current sid) now m v = record {
  keyed = v.keyed;
  busy = v.busy;
  bounded = v.bounded;
}
apply-IsValid (create r) now m v = (create_section-Opens r now m v).valid
apply-IsValid (play sid) now m v = play_section-IsValid sid now m v
apply-IsValid (stop sid) now m v = moves-IsValid sid (λ s. true) stopped now m (λ e. cc e) v
apply-IsValid (pause sid) now m v = moves-IsValid sid (λ s. true) paused now m (λ e. cc e) v
apply-IsValid (seek sid) now m v = seek_section-IsValid sid now m v
apply-IsValid (mark_stopped sid gid) now m v = moves-IsValid sid _ stopped now m (λ e. cc e) v
apply-IsValid (accept_playing sid gid) now m v = moves-IsValid sid _ playing now m (λ e. cc e) v
apply-IsValid (mark_playing sid gid) now m v = moves-IsValid sid _ playing now m (λ e. cc e) v
apply-IsValid (mark_paused sid gid) now m v = moves-IsValid sid _ paused now m (λ e. cc e) v
apply-IsValid (accept sid gid) now m v = moves-IsValid sid _ playing now m (λ e. cc e) v
apply-IsValid (set_error sid gid message) now m v = breaks-IsValid sid _ message now m v
apply-IsValid (fail sid gid message) now m v = breaks-IsValid sid _ message now m v
apply-IsValid (set_error_unstarted sid message) now m v = breaks-IsValid sid _ message now m v
apply-IsValid (next_uri sid uri) now m v =
    change-IsValid sid (λ s. true) (λ s. record s { next_uri = uri }) m (λ s. refl) (λ s b. b) v
apply-IsValid (play_mode sid mode) now m v =
    change-IsValid sid (λ s. true) (λ s. record s { play_mode = mode }) m (λ s. refl) (λ s b. b) v

-- Whatever sections run in whatever order and at whatever times, from a valid map of sessions they
-- lead to one: each session under its id and no id twice, none idle, and at most `maxSessions`.
pub sections-IsValid :
    (sections : List (Section × ℕ)) (m : Manager) → IsValid m → IsValid (run sections m)
unfolding run
sections-IsValid [] m v = v
sections-IsValid ((section, now) ∷ sections) m v =
    sections-IsValid sections (apply section now m) (apply-IsValid section now m v)
