-- ===== src/Upnp/Device/Guarded.antt =====
-- A paused session whose reports of playing are ignored stays paused.
pub mod Pause
use ma_dlna.Base.{
  ℕ, false, List, [], ◌∷◌, ◌≡◌, refl, sym, ◌∙◌, ap, subst, inl, inr, Option, none, some, String,
  arith, if◌then◌else◌, Option-cases,
}
use ma_dlna.Base.Dict.{lookup}
use ma_dlna.Base.Int.{pos}
use ma_dlna.Session.Types.{paused, Session}
use ma_dlna.Session.Manager.{is, mark_paused_if_generation}
use ma_dlna.Session.Api.{Api}
use ma_dlna.Upnp.PosCache.{PosCache, PlayerStatus, should_ignore_playing, cache_backend_position}
use ma_dlna.Upnp.Device.{Device, Gaps, Watch, active, set_cache, mark_paused}
use ma_dlna.Upnp.Device.Sync.{follow, sync_current_session_from_backend}
use ma_dlna.Upnp.Device.Monitor.{watched, poll_paused, monitor_poll}

-- What the device hears of the backend: a status, for GetTransportInfo, or what a poll of a monitor reads.
pub data Report : Type 0 where
  status_read : Option PlayerStatus → Report
  polled : Option String → Option PlayerStatus → Watch → Report

-- Everything but the position cache is the same.
abbrev pub IsSame : {S : Type 0} → Device S → Device S → Type 0
IsSame d d' = d' ≡ set_cache d'.cache d

-- The session `s` is current, paused and guarded.
pub record IsGuarded {S : Type 0} (s : Session) (d : Device S) : Type 0 where
  pub current : active d ≡ some s
  pub keyed : lookup s.id d.world.manager.sessions ≡ some s
  pub is_paused : s.state ≡ paused
  pub guarded : d.guard ≡ s.id

module _ {S : Type 0} (api : Api S) (gaps : Gaps S) where
  unfoldable pub hear : Report → ℕ → Device S → Device S
  unfolding sync_current_session_from_backend monitor_poll
  hear (status_read poll) now d = sync_current_session_from_backend api gaps now poll d
  hear (polled state status m) now d = (monitor_poll api gaps now state status m d).1

  unfoldable pub hear_all : List (Report × ℕ) → Device S → Device S
  unfolding hear
  hear_all [] d = d
  hear_all ((r, now) ∷ rs) d = hear_all rs (hear r now d)

module _ {S : Type 0} (s : Session) (now : ℕ) (d : Device S) (g : IsGuarded s d) where
  mark_paused-same :
      (gen_id : ℕ) (c : PosCache) → mark_paused s.id gen_id now (set_cache c d) ≡ set_cache c d
  unfolding mark_paused mark_paused_if_generation
  mark_paused-same gen_id c = ground (arith, g.keyed, g.is_paused)

  -- a status that is heard while the session is guarded
  follow-IsSame :
      (api : Api S) (gaps : Gaps S) (status : PlayerStatus)
      → IsSame d (follow api gaps now s status d)
  unfolding follow should_ignore_playing
  follow-IsSame api gaps status =
      let c = (cache_backend_position s.id status false (pos now) d.cache).0 in
      ground (arith, g.is_paused, g.guarded, mark_paused-same 0 c)

  poll_paused-same :
      (api : Api S) (gaps : Gaps S) (m : Watch) (state : String)
      → m.session_id ≡ s.id
      → poll_paused api gaps now m state d ≡ d
  unfolding poll_paused should_ignore_playing
  poll_paused-same api gaps m state e = ground (arith, e, g.guarded)

  watched-id :
      (m : Watch) (cur : Session) → watched m d ≡ some cur → (m.session_id ≡ s.id) × (cur ≡ s)
  unfolding watched
  watched-id m cur e = (ground (arith, e, g.current), ground (arith, e, g.current))

-- The other goroutines do nothing while the backend is called.
abbrev pub Quiet : {S : Type 0} → Gaps S → Type 0
Quiet gaps = (d : _) → gaps.backend d ≡ d

module _ {S : Type 0} (api : Api S) (gaps : Gaps S) (quiet : Quiet gaps) (s : Session) where
  sync-IsSame :
      (poll : Option PlayerStatus) (now : ℕ) (d : Device S)
      → IsGuarded s d
      → IsSame d (sync_current_session_from_backend api gaps now poll d)
  unfolding sync_current_session_from_backend
  sync-IsSame none now d g = ground (arith, g.current, g.is_paused, quiet d)
  sync-IsSame (some status) now d g =
      ground (arith, g.current, g.is_paused, quiet d, follow-IsSame s now d g api gaps status)

  poll-same :
      (state : Option String) (status : Option PlayerStatus) (m : Watch) (now : ℕ) (d : Device S)
      → IsGuarded s d
      → (monitor_poll api gaps now state status m d).1 ≡ d
  unfolding monitor_poll
  poll-same none status m now d g = ground (arith, quiet d)
  poll-same (some st) status m now d g = elim (Option-cases (watched m d)) [
    | inl no_one ↦ ground (arith, no_one)
    | inr (cur, e) ↦
        let (same_id, same_cur) = watched-id s now d g m cur e in
        ground (
          arith,
          e,
          quiet d,
          same_cur,
          g.is_paused,
          poll_paused-same s now d g api gaps m st same_id,
        )
  ]

same-IsGuarded :
    {S : Type 0} → (s : Session) (d d' : Device S) → IsGuarded s d → IsSame d d' → IsGuarded s d'
unfolding active
same-IsGuarded s d d' g e =
    let kept : IsGuarded s (set_cache d'.cache d) = record {
      current = g.current;
      keyed = g.keyed;
      is_paused = g.is_paused;
      guarded = g.guarded;
    } in
    subst (IsGuarded s) (sym e) kept

IsSame-trans : {S : Type 0} → (d d' d'' : Device S) → IsSame d d' → IsSame d' d'' → IsSame d d''
IsSame-trans d d' d'' e e' = e' ∙ ap (set_cache d''.cache) e

module _ {S : Type 0} (api : Api S) (gaps : Gaps S) (quiet : Quiet gaps) (s : Session) where
  hear-IsSame :
      (r : Report) (now : ℕ) (d : Device S) → IsGuarded s d → IsSame d (hear api gaps r now d)
  unfolding hear
  hear-IsSame (status_read poll) now d g = sync-IsSame api gaps quiet s poll now d g
  hear-IsSame (polled state status m) now d g =
      let e = poll-same api gaps quiet s state status m now d g in
      e ∙ ap (λ (x : Device S). set_cache x.cache d) (sym e)

  -- Reports of a guarded session change nothing but the position cache.
  pub hear_all-IsSame :
      (rs : List (Report × ℕ)) (d : Device S)
      → IsGuarded s d
      → IsSame d (hear_all api gaps rs d) × IsGuarded s (hear_all api gaps rs d)
  unfolding hear_all
  hear_all-IsSame [] d g = (refl, g)
  hear_all-IsSame ((r, now) ∷ rs) d g =
      let e = hear-IsSame r now d g in
      let d' = hear api gaps r now d in
      let (e', g') = hear_all-IsSame rs d' (same-IsGuarded s d d' g e) in
      (IsSame-trans d d' (hear_all api gaps rs d') e e', g')
