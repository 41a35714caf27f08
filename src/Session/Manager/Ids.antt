-- ===== src/Session/Manager/Ids.antt =====
-- No section but those of `SetSessionGenID` and `Seek` changes the recorded generation ids.
use ma_dlna.Base.{ℕ, zero, suc, List, [], ◌∷◌, ◌≡◌, refl, String, arith, length}
use ma_dlna.Session.Types.{State, paused, stopped, error, Manager}
use ma_dlna.Session.Manager.{
  set_session_gen_id, play_section, stop_section, pause_section, seek_section,
  mark_stopped_if_generation, set_error_if_generation, set_error_if_no_generation, accept_section,
  fail_section,
}
use ma_dlna.Session.Manager.Evict.{
  Request, stop_live, create_section, make_room, evict_by_state, evict_loop, evict_locked,
}

-- Two managers with the same generation ids.
abbrev pub SameIds : Manager → Manager → Type 0
SameIds m m' = (k : String) → m'.session_gen_id k ≡ m.session_gen_id k

evict_by_state-SameIds : (states : List State) (m : Manager) → SameIds m (evict_by_state states m).0
unfolding evict_by_state
evict_by_state-SameIds states m k = ground arith

evict_loop-SameIds :
    (fuel : ℕ) (states : List State) (m : Manager) → SameIds m (evict_loop fuel states m).0
unfolding evict_loop
evict_loop-SameIds zero states m k = refl
evict_loop-SameIds (suc fuel) states m k =
    let m' = (evict_by_state states m).0 in
    ground (arith, evict_by_state-SameIds states m k, evict_loop-SameIds fuel states m' k)

evict_locked-SameIds : (m : Manager) → SameIds m (evict_locked m)
unfolding evict_locked
evict_locked-SameIds m k =
    let states = stopped ∷ error ∷ [] in
    let m' = (evict_loop (suc (length m.sessions)) states m).0 in
    let first = evict_loop-SameIds (suc (length m.sessions)) states m k in
    let second = evict_loop-SameIds (suc (length m'.sessions)) (paused ∷ []) m' k in
    ground (arith, first, second)

pub create_section-SameIds :
    (r : Request) (now : ℕ) (m : Manager) → SameIds m (create_section r now m).0
unfolding create_section make_room
create_section-SameIds r now m k =
    ground (arith, evict_locked-SameIds (record m { sessions = (stop_live now m.sessions).0 }) k)

pub play_section-SameIds :
    (sid : String) (now : ℕ) (m : Manager) → SameIds m (play_section sid now m).0
unfolding play_section
play_section-SameIds sid now m k = ground arith

pub stop_section-SameIds :
    (sid : String) (now : ℕ) (m : Manager) → SameIds m (stop_section sid now m).0
unfolding stop_section
stop_section-SameIds sid now m k = ground arith

pub pause_section-SameIds :
    (sid : String) (now : ℕ) (m : Manager) → SameIds m (pause_section sid now m).0
unfolding pause_section
pause_section-SameIds sid now m k = ground arith

pub mark_stopped-SameIds :
    (sid : String) (gen_id now : ℕ) (m : Manager)
    → SameIds m (mark_stopped_if_generation sid gen_id now m).0
unfolding mark_stopped_if_generation
mark_stopped-SameIds sid gen_id now m k = ground arith

pub accept_section-SameIds :
    (sid : String) (gen_id now : ℕ) (m : Manager) → SameIds m (accept_section sid gen_id now m).0
unfolding accept_section
accept_section-SameIds sid gen_id now m k = ground arith

pub set_error-SameIds :
    (sid : String) (gen_id : ℕ) (message : String) (now : ℕ) (m : Manager)
    → SameIds m (set_error_if_generation sid gen_id message now m).0
unfolding set_error_if_generation
set_error-SameIds sid gen_id message now m k = ground arith

pub fail_section-SameIds :
    (sid : String) (gen_id : ℕ) (message : String) (now : ℕ) (m : Manager)
    → SameIds m (fail_section sid gen_id message now m).0
unfolding fail_section
fail_section-SameIds sid gen_id message now m k = ground arith

pub set_error_unstarted-SameIds :
    (sid message : String) (now : ℕ) (m : Manager)
    → SameIds m (set_error_if_no_generation sid message now m).0
unfolding set_error_if_no_generation
set_error_unstarted-SameIds sid message now m k = ground arith

pub seek_section-ids :
    (sid : String) (now : ℕ) (m : Manager) (k : String)
    → ¬ (sid ≡ k)
    → (seek_section sid now m).session_gen_id k ≡ m.session_gen_id k
unfolding seek_section set_session_gen_id
seek_section-ids sid now m k ne = ground (arith, ne)
