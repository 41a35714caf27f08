-- ===== src/Upnp/Device/Guarded/Pause.antt =====
-- A pause of a session that is still starting, in upnp.go: it holds against late reports of playing.
use ma_dlna.Base.{
  ℕ, Bool, true, false, List, [], ◌∷◌, ◌≡◌, refl, sym, ◌∙◌, ap, subst, inl, inr, Option, none, some,
  String, All, eqb, arith,
}
use ma_dlna.Base.Dict.{lookup, lookup-insert}
use ma_dlna.Base.Int.{ℤ}
use ma_dlna.Session.Types.{State, starting, paused, Session, Manager}
use ma_dlna.Session.Manager.{
  is, current_session, get, moved, set_session, pause_section, set_session_gen_id,
}
use ma_dlna.Session.Ops.{World, hear, pause, call, set_manager}
use ma_dlna.Session.Api.{Api, Starts}
use ma_dlna.Upnp.PosCache.{PlayerStatus, ignore_playing}
use ma_dlna.Upnp.Device.{Device, Gaps, Answer, done, active, command, notify_current}
use ma_dlna.Upnp.Device.Waits.{
  Round, BackendWaitResult, confirmed, interrupted, timeout, wait_loop,
  wait_for_backend_not_playing, rests, no_status,
}
use ma_dlna.Upnp.Device.Waits.Outcome.{Poll-cases}
use ma_dlna.Upnp.Device.Transport.{
  is_active, pause_locked, pause_waited, pause_called, pause_again, pause_found, pause_action,
  tell_paused,
}
use ma_dlna.Upnp.Device.Guarded.{IsGuarded, IsSame, Report, hear_all, hear_all-IsSame}

hear-sessions :
    (starts : Starts) (m : Manager)
    → ((hear starts m).sessions ≡ m.sessions)
      × ((hear starts m).current_session_id ≡ m.current_session_id)
unfolding hear set_session_gen_id
hear-sessions [] m = (refl, refl)
hear-sessions ((sid, gen_id) ∷ starts) m = hear-sessions starts (set_session_gen_id sid gen_id m)

-- Nothing else acts.
pub record IsAlone {S : Type 0} (gaps : Gaps S) : Type 0 where
  pub inside : (w : World S) → gaps.inside w ≡ w
  pub lock : (d : Device S) → gaps.lock d ≡ d
  pub backend : (d : Device S) → gaps.backend d ≡ d

abbrev pub AreAlone : {S : Type 0} → List (Round S) → Type 0
AreAlone rounds = All (λ r. (d : _) → (r.before d ≡ d) × (r.during d ≡ d)) rounds

-- The session `s` is the current one of the manager.
pub record IsCurrent (s : Session) (m : Manager) : Type 0 where
  pub named : eqb s.id "" ≡ false
  pub id : m.current_session_id ≡ s.id
  pub keyed : lookup s.id m.sessions ≡ some s

module _ (s : Session) (m : Manager) (c : IsCurrent s m) where
  pub current_session-eq : current_session m ≡ some s
  unfolding current_session get
  current_session-eq = ground (arith, c.named, c.id, c.keyed)

  hear-IsCurrent : (starts : Starts) → IsCurrent s (hear starts m)
  hear-IsCurrent starts =
      let (same, id) = hear-sessions starts m in
      record { named = c.named; id = id ∙ c.id; keyed = ap (lookup s.id) same ∙ c.keyed }

  pub moved-IsCurrent :
      (st : State) (now : ℕ) → IsCurrent (moved st now s) (set_session m s.id (moved st now s))
  moved-IsCurrent st now = record {
    named = c.named;
    id = c.id;
    keyed = ground (arith, lookup-insert s.id s.id (moved st now s) m.sessions);
  }

module _ {S : Type 0} (api : Api S) (gaps : Gaps S) (alone : IsAlone gaps) (s : Session)
    (now : ℕ) where
  pause-eq :
      (w : World S)
      → IsCurrent s w.manager
      → (pause api gaps.inside s.id now w).0
        ≡ call (api.pause s.id) (set_manager w (set_session w.manager s.id (moved paused now s)))
  unfolding pause pause_section
  pause-eq w c =
      let w' = set_manager w (set_session w.manager s.id (moved paused now s)) in
      ground (arith, c.keyed, alone.inside w')

  pause-IsCurrent :
      (w : World S)
      → IsCurrent s w.manager
      → IsCurrent (moved paused now s) (pause api gaps.inside s.id now w).0.manager
  pause-IsCurrent w c =
      let m = set_session w.manager s.id (moved paused now s) in
      subst (λ (x : World S). IsCurrent (moved paused now s) x.manager) (sym (pause-eq w c))
        (hear-IsCurrent (moved paused now s) m (moved-IsCurrent s w.manager c paused now)
          (api.pause s.id w.streamer).1)

  pause_locked-IsGuarded :
      (elapsed : ℤ) (poll : Option PlayerStatus) (d : Device S)
      → IsCurrent s d.world.manager
      → IsGuarded (moved paused now s) (pause_locked api gaps now s elapsed poll d)
  unfolding pause_locked command ignore_playing active
  pause_locked-IsGuarded elapsed poll d c =
      let p = pause-IsCurrent d.world c in
      subst (IsGuarded (moved paused now s)) (sym (alone.backend _)) (record {
        current = current_session-eq _ _ p;
        keyed = p.keyed;
        is_paused = refl;
        guarded = refl;
      })

pub wait_loop-device :
    {S : Type 0} (sid : String) (goes_on : State → Bool) (confirms : PlayerStatus → Bool)
    (deadline : ℕ) (rounds : List (Round S)) (last : PlayerStatus) (d : Device S)
    → AreAlone rounds
    → (wait_loop sid goes_on confirms deadline rounds last d).0 ≡ d
unfolding wait_loop
wait_loop-device sid goes_on confirms deadline [] last d h = refl
wait_loop-device sid goes_on confirms deadline (r ∷ rounds) last d h = elim (Poll-cases r.poll) [
  | inl (status, e) ↦ ground (
    arith,
    e,
    (h.0 d).0,
    (h.0 d).1,
    wait_loop-device sid goes_on confirms deadline rounds status d h.1,
  )
  | inr (inl e) ↦ ground (
    arith,
    e,
    (h.0 d).0,
    (h.0 d).1,
    wait_loop-device sid goes_on confirms deadline rounds last d h.1,
  )
  | inr (inr e) ↦ ground (arith, e, (h.0 d).0, (h.0 d).1)
]

module _ {S : Type 0} (api : Api S) (gaps : Gaps S) (s s' : Session) (now : ℕ) (same : s'.id ≡ s.id)
    (d : Device S) (g : IsGuarded s' d) where
  tell_paused-IsGuarded : IsGuarded s' (tell_paused api gaps now s d)
  unfolding tell_paused notify_current active
  tell_paused-IsGuarded = record {
    current = ground (arith, same, g.current);
    keyed = ground (arith, same, g.current, g.keyed);
    is_paused = g.is_paused;
    guarded = ground (arith, same, g.current, g.guarded);
  }

module _ {S : Type 0} (api : Api S) (gaps : Gaps S) (s : Session) (now : ℕ)
    (starts : s.state ≡ starting) where
  waited-IsGuarded :
      (d : Device S) (status : PlayerStatus) (result : BackendWaitResult)
      → IsGuarded (moved paused now s) d
      → (pause_waited api gaps now s (d, status, result)).1 ≡ done
      → IsGuarded (moved paused now s) (pause_waited api gaps now s (d, status, result)).0
  unfolding pause_waited
  waited-IsGuarded d status confirmed g e =
      let told : (pause_waited api gaps now s (d, status, confirmed)).0
          ≡ tell_paused api gaps now s d =
        ground (arith, starts) in
      subst (IsGuarded (moved paused now s)) (sym told)
        (tell_paused-IsGuarded api gaps s (moved paused now s) now refl d g)
  waited-IsGuarded d status interrupted g e =
      tell_paused-IsGuarded api gaps s (moved paused now s) now refl d g
  waited-IsGuarded d status timeout g e = cc e

  called-IsGuarded :
      (err : Option String) (deadline : ℕ) (rounds : List (Round S)) (d : Device S)
      → AreAlone rounds
      → IsGuarded (moved paused now s) d
      → (pause_called api gaps now err deadline rounds s d).1 ≡ done
      → IsGuarded (moved paused now s) (pause_called api gaps now err deadline rounds s d).0
  unfolding pause_called wait_for_backend_not_playing
  called-IsGuarded none deadline rounds d h g e =
      let w = wait_for_backend_not_playing s.id deadline rounds d in
      let kept = wait_loop-device s.id (λ st. is st paused) rests deadline rounds no_status d h in
      waited-IsGuarded w.0 w.1 w.2 (subst (IsGuarded (moved paused now s)) (sym kept) g) e
  called-IsGuarded (some message) deadline rounds d h g e = cc e

  found-called :
      (err : Option String) (elapsed : ℤ) (poll : Option PlayerStatus) (deadline : ℕ)
      (rounds : List (Round S)) (d : Device S)
      → gaps.lock d ≡ d
      → active d ≡ some s
      → pause_found api gaps now err elapsed poll deadline rounds s d
        ≡ pause_called api gaps now err deadline rounds s
            (pause_locked api gaps now s elapsed poll d)
  unfolding pause_found pause_again
  found-called err elapsed poll deadline rounds d lock e =
      let busy : is_active s.state ≡ true = ground (arith, starts) in
      let own : eqb s.id s.id ≡ true = ground arith in rw (busy, lock, e, own) (rw busy refl)

  action-called :
      (err : Option String) (elapsed : ℤ) (poll : Option PlayerStatus) (deadline : ℕ)
      (rounds : List (Round S)) (d : Device S)
      → gaps.lock d ≡ d
      → active d ≡ some s
      → pause_action api gaps now err elapsed poll deadline rounds d
        ≡ pause_called api gaps now err deadline rounds s
            (pause_locked api gaps now s elapsed poll d)
  unfolding pause_action
  action-called err elapsed poll deadline rounds d lock e =
      rw (pause_action, e) (found-called err elapsed poll deadline rounds d lock e)

  -- A Pause of the current session while it is starting, with no other handler acting during it, that is
  -- answered with success, holds against a start that completes late: whatever statuses of the backend
  -- are read afterwards, for GetTransportInfo or by polls of any monitors, the session stays current,
  -- paused and guarded, and nothing of the device changes but the position cache: no event is told, and
  -- no command is sent.
  pub pause-IsSame :
      (err : Option String) (elapsed : ℤ) (poll : Option PlayerStatus) (deadline : ℕ)
      (rounds : List (Round S)) (d : Device S) (rs : List (Report × ℕ))
      → IsAlone gaps
      → AreAlone rounds
      → IsCurrent s d.world.manager
      → (pause_action api gaps now err elapsed poll deadline rounds d).1 ≡ done
      → (let d' = (pause_action api gaps now err elapsed poll deadline rounds d).0 in
          IsSame d' (hear_all api gaps rs d')
          × IsGuarded (moved paused now s) (hear_all api gaps rs d'))
  unfolding active
  pause-IsSame err elapsed poll deadline rounds d rs alone h c e =
      let locked = pause_locked api gaps now s elapsed poll d in
      let r = pause_called api gaps now err deadline rounds s locked in
      let same : pause_action api gaps now err elapsed poll deadline rounds d ≡ r =
        action-called err elapsed poll deadline rounds d (alone.lock d)
          (current_session-eq s d.world.manager c) in
      let g = pause_locked-IsGuarded api gaps alone s now elapsed poll d c in
      let g' = called-IsGuarded err deadline rounds locked h g (ap (λ x. x.1) (sym same) ∙ e) in
      hear_all-IsSame api gaps alone.backend (moved paused now s) rs
        (pause_action api gaps now err elapsed poll deadline rounds d).0
        (subst (λ (x : Device S × Answer). IsGuarded (moved paused now s) x.0) (sym same) g')
