-- ===== src/Session/Ops/Agreement.antt =====
-- The manager's record of generation ids against the streamer's.
pub mod Methods
use ma_dlna.Base.{
  ℕ, zero, suc, Bool, true, false, not, List, [], ◌∷◌, ◌≡◌, ◌⊎◌, inl, inr, refl, sym, subst, ◌∙◌,
  Option, none, some, String, arith, length, eqb, text_discrete, if◌then◌else◌, map,
}
use ma_dlna.Base.Dict.{lookup}
use ma_dlna.Base.Int.{ℤ}
use ma_dlna.Session.Types.{State, paused, stopped, error, Session, Manager}
use ma_dlna.Session.Manager.{
  Played, not_found, resumes, started, unchanged, set_session_gen_id, play_section, stop_section,
  pause_section, seek_section, mark_stopped_if_generation, set_error_if_generation,
  set_error_if_no_generation, accept_section, fail_section,
}
use ma_dlna.Session.Manager.Evict.{
  Request, stop_live, create_section, make_room, evict_by_state, evict_loop, evict_locked,
}
use ma_dlna.Session.Api.{Api, Starts, Announces, Laws}
use ma_dlna.Session.Manager.Ids.{SameIds}
use ma_dlna.Session.Ops.{
  World, hear, call, set_manager, set_streamer, start_stream, stop, pause, seek, stop_each,
  create_with_base, shutdown,
}
use ma_dlna.Session.Ops as Ops

module _ {S : Type 0} (api : Api S) (Fine : S → Type 0) where
  -- The manager knows the generation that runs for a session, where one is registered.
  abbrev pub Agrees : String → World S → Type 0
  Agrees sid w =
      (api.generation sid w.streamer ≡ 0)
      ⊎ (w.manager.session_gen_id sid ≡ api.generation sid w.streamer)

  abbrev pub AgreesBut : String → World S → Type 0
  AgreesBut sid w = Fine w.streamer × ((k : String) → ¬ (sid ≡ k) → Agrees k w)

  abbrev pub AgreesAll : World S → Type 0
  AgreesAll w = Fine w.streamer × ((k : String) → Agrees k w)

  pub SameIds-AgreesAll :
      (w : World S) (m : Manager) → SameIds w.manager m → AgreesAll w → AgreesAll (set_manager w m)
  SameIds-AgreesAll w m same (fine, agrees) = (fine, λ k. ground (arith, same k, agrees k))

  -- What a call of the streamer leaves, where the other sessions agreed before.
  pub call-AgreesBut :
      (sid : String) (f : S → S × Starts) (w : World S)
      → AgreesBut sid w
      → Fine (f w.streamer).0 × Announces api sid w.streamer (f w.streamer)
      → AgreesBut sid (call f w)
  unfolding hear set_session_gen_id
  call-AgreesBut sid f w (fine, agrees) (fine', a) = (
    fine',
    λ k ne. elim a.own [
      | inl (e, _) ↦ rw e (ground (arith, a.others k ne, agrees k ne))
      | inr e ↦ rw e (ground (arith, a.others k ne, agrees k ne, ne))
    ],
  )

  -- A start that is reported makes the session agree.
  pub call-Agrees :
      (sid : String) (f : S → S × Starts) (w : World S)
      → Announces api sid w.streamer (f w.streamer)
      → ((f w.streamer).1 ≡ [] → api.generation sid (f w.streamer).0 ≡ 0) ⊎ Agrees sid w
      → Agrees sid (call f w)
  unfolding hear set_session_gen_id
  call-Agrees sid f w a before = elim a.own [
    | inl (e, kept) ↦ rw e (ground (arith, kept, before, e))
    | inr e ↦ rw e (ground arith)
  ]

  pub call-AgreesAll :
      (sid : String) (f : S → S × Starts) (w : World S)
      → AgreesAll w
      → Fine (f w.streamer).0 × Announces api sid w.streamer (f w.streamer)
      → AgreesAll (call f w)
  call-AgreesAll sid f w v after =
      let (fine, others) = call-AgreesBut sid f w (v.0, λ k ne. v.1 k) after in
      let own = call-Agrees sid f w after.1 (inr (v.1 sid)) in
      (
        fine,
        λ k. elim (text_discrete sid k) [
          | yes e ↦ subst (λ j. Agrees j (call f w)) e own
          | no ne ↦ others k ne
        ],
      )
