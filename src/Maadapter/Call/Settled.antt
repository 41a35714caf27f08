-- ===== src/Maadapter/Call/Settled.antt =====
-- internal/maadapter/direct.go: what a call of `callMAResultWithin` leaves behind.
use ma_dlna.Base.{◌≡◌, Bool, ◌⊎◌, Option, none, some, String}
use ma_dlna.Maadapter.Message.{Net}
use ma_dlna.Maadapter.Reply.{Json, Outcome, success, failure, ma_command_timeout, Adapter}
use ma_dlna.Maadapter.Reply.Ended.{Replied}
use ma_dlna.Maadapter.Call.{Dial, Clock, connect_ws_locked}

-- A connection attempt that fails leaves no connection.
abbrev Connected : Option (Outcome (Unit {0}) × Adapter) → Type 0
Connected none = ⊥
Connected (some (failure e, a)) = a.conn ≡ none
Connected (some (success _, a)) = Unit

module _ {A : Type 0} (net : Net) (d : Dial) (auth : Json Bool) (json : Json A) where
  -- After a failure there is no connection, but where the time ran out before anything was tried. After
  -- a success the reply to the command has come on the connection that stood or was made.
  abbrev pub Settled :
      String → String → Clock → Adapter → Option (Outcome (Option A) × Adapter) → Type 0
  Settled command args clock a none = ⊥
  Settled command args clock a (some (failure e, a')) =
      (a'.conn ≡ none) ⊎ ((e ≡ ma_command_timeout) × (a' ≡ a))
  Settled command args clock a (some (success v, a')) =
      (a₁ : Adapter) × (connect_ws_locked net d auth clock a ≡ some (success tt, a₁))
      × Replied json net command args a₁ v a'
