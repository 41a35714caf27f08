-- ===== src/Upnp/Device/Waits/Outcome.antt =====
-- What a wait for the backend has seen when it ends.
use ma_dlna.Base.{ℕ, Bool, true, false, List, [], ◌∷◌, ◌≡◌, refl, ◌⊎◌, inl, inr, String, leb}
use ma_dlna.Session.Types.{State}
use ma_dlna.Upnp.PosCache.{PlayerStatus}
use ma_dlna.Upnp.Device.{Device}
use ma_dlna.Upnp.Device.Waits.{
  Poll, answered, failed, timed_out, BackendWaitResult, confirmed, interrupted, timeout, Round,
  Waited, still_waits,
}

pub Poll-cases :
    (p : Poll) → ((status : PlayerStatus) × (p ≡ answered status)) ⊎ (p ≡ failed) ⊎ (p ≡ timed_out)
Poll-cases (answered status) = inl (status, refl)
Poll-cases failed = inr (inl refl)
Poll-cases timed_out = inr (inr refl)

module _ {S : Type 0} (sid : String) (goes_on : State → Bool) (confirms : PlayerStatus → Bool)
    (deadline : ℕ) where
  -- The poll of the round began before the deadline, while the wait went on, and was answered with the
  -- status; the device is the one that others left while it ran.
  pub record Polled (status : PlayerStatus) (d : Device S) (r : Round S) : Type 0 where
    pub begun : Device S
    pub waits : still_waits sid goes_on begun ≡ true
    pub in_time : leb deadline r.now ≡ false
    pub answer : r.poll ≡ answered status
    pub left : d ≡ r.during begun

  abbrev pub Heard : PlayerStatus → Device S → List (Round S) → Type 0
  Heard status d [] = ⊥
  Heard status d (r ∷ rounds) = Polled status d r ⊎ Heard status d rounds

  abbrev pub Ended : List (Round S) → PlayerStatus → Device S → BackendWaitResult → Type 0
  Ended rounds status d confirmed = (confirms status ≡ true) × Heard status d rounds
  Ended rounds status d interrupted =
      (confirms status ≡ false) × (still_waits sid goes_on d ≡ false)
  Ended rounds status d timeout = confirms status ≡ false

  abbrev pub Outcome : List (Round S) → Waited S → Type 0
  Outcome rounds (d, status, result) = Ended rounds status d result
