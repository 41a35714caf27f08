-- ===== src/Upnp/Rendering/Agrees.antt =====
-- internal/upnp/upnp.go: the volume of the renderer is that of Music Assistant and of the events.
use ma_dlna.Base.{
  ◌≤◌, ◌≡◌, refl, Bool, true, false, inl, inr, List, [], ◌∷◌, Option, none, some, if◌then◌else◌,
  arith, Bool-cases, subst, sym,
}
use ma_dlna.Base.Int.{ℤ}
use ma_dlna.Upnp.Rendering.{
  Rendering, new_rendering, Answer, desired_volume, heard_volume, tell, set_volume, same, sync_mute,
  mute, unmute, set_mute, Command, volume_command, mute_command, serve, run,
}

-- The last entry of a log, if there is one, is the value.
abbrev pub Last {ℓ} : {A : Type ℓ} → A → List A → Type ℓ
Last v [] = Unit
Last v (x ∷ xs) = x ≡ v

-- Music Assistant has the volume, or 0 when muted; the subscribers know volume and mute; both volumes are
-- within 0 and 100.
pub record Agrees (r : Rendering) : Type 0 where
  pub backend : Last (if r.muted then 0 else r.volume) r.heard
  pub events : Last (r.volume, r.muted) r.told
  pub volume_bound : r.volume ≤ 100
  pub prev_bound : r.prev_volume ≤ 100

desired_volume-le : (o : Option ℤ) → desired_volume o ≤ 100
unfolding desired_volume
desired_volume-le none = omega arith
desired_volume-le (some v) = ground arith

module _ (r : Rendering) (a : Agrees r) where
  set_volume-Agrees : (accepts : Bool) (o : Option ℤ) → Agrees (set_volume accepts o r).0
  unfolding set_volume heard_volume tell
  set_volume-Agrees false o = a
  set_volume-Agrees true o = record {
    backend = ground arith;
    events = refl;
    volume_bound = desired_volume-le o;
    prev_bound = a.prev_bound;
  }

  sync_mute-Agrees : (accepts : Bool) → Agrees (sync_mute accepts r).0
  unfolding sync_mute heard_volume
  sync_mute-Agrees false = a
  sync_mute-Agrees true = record {
    backend = refl;
    events = a.events;
    volume_bound = a.volume_bound;
    prev_bound = a.prev_bound;
  }

  mute-Agrees : (accepts : Bool) → Agrees (mute accepts r).0
  unfolding mute heard_volume tell
  mute-Agrees false = a
  mute-Agrees true = record {
    backend = refl;
    events = refl;
    volume_bound = a.volume_bound;
    prev_bound = a.volume_bound;
  }

  unmute-Agrees : (accepts : Bool) → Agrees (unmute accepts r).0
  unfolding unmute heard_volume tell
  unmute-Agrees false = a
  unmute-Agrees true = record {
    backend = refl;
    events = refl;
    volume_bound = ground (arith, a.volume_bound, a.prev_bound);
    prev_bound = a.prev_bound;
  }

  set_mute-Agrees : (accepts target : Bool) → Agrees (set_mute accepts target r).0
  unfolding set_mute
  set_mute-Agrees accepts target = elim (Bool-cases (same target r.muted)) [
    | inl kept ↦
        let e : set_mute accepts target r ≡ sync_mute accepts r = ground (arith, kept) in
        subst (λ (x : Rendering × Answer). Agrees x.0) (sym e) (sync_mute-Agrees accepts)
    | inr turned ↦ elim (Bool-cases target) [
      | inl on ↦
          let e : set_mute accepts target r ≡ mute accepts r = ground (arith, turned, on) in
          subst (λ (x : Rendering × Answer). Agrees x.0) (sym e) (mute-Agrees accepts)
      | inr off ↦
          let e : set_mute accepts target r ≡ unmute accepts r = ground (arith, turned, off) in
          subst (λ (x : Rendering × Answer). Agrees x.0) (sym e) (unmute-Agrees accepts)
    ]
  ]

  serve-Agrees : (c : Command) → Agrees (serve c r).0
  unfolding serve
  serve-Agrees (volume_command accepts o) = set_volume-Agrees accepts o
  serve-Agrees (mute_command accepts target) = set_mute-Agrees accepts target

run_from-Agrees : (cs : List Command) (r : Rendering) → Agrees r → Agrees (run cs r)
unfolding run
run_from-Agrees [] r a = a
run_from-Agrees (c ∷ cs) r a = run_from-Agrees cs (serve c r).0 (serve-Agrees r a c)

-- After any commands for volume and mute, whichever calls of Music Assistant fail, the last volume that it
-- has accepted is the volume of the renderer, or 0 when the renderer is muted; the last event told the
-- volume and the mute as they are; and the volume, also that kept for the end of a mute, is 100 at most.
pub run-Agrees : (cs : List Command) → Agrees (run cs new_rendering)
run-Agrees cs =
    run_from-Agrees cs new_rendering
      (record { backend = tt; events = tt; volume_bound = omega arith; prev_bound = omega arith })

-- Where both calls succeed, the end of a mute brings back the volume from before it, 0 included.
pub unmute-mute :
    (r : Rendering)
    → r.muted ≡ false
    → let muted_now = (set_mute true true r).0 in
      ((set_mute true false muted_now).0.volume ≡ r.volume)
      × ((set_mute true false muted_now).0.muted ≡ false)
unfolding set_mute same mute unmute heard_volume tell
unmute-mute r sounds = ground (arith, sounds)
