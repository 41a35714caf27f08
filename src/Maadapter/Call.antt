-- ===== src/Maadapter/Call.antt =====
-- internal/maadapter/direct.go: `callMAResultWithin`, which takes the lock, connects where there is no
-- connection, sends a command, and closes the connection after a failure.
pub mod Settled
use Prim.Native.Char.{code}
use Prim.Native.String.{◌++◌}
use ma_dlna.Base.{
  ℕ, Bool, true, false, not, ◌&&◌, ◌||◌, List, [], ◌∷◌, Option, none, some, String, eqb, ◌==◌,
  if◌then◌else◌,
}
use ma_dlna.Base.Go.{Url, trim_right_slash}
use ma_dlna.Base.Int.{ℤ, pos, ltb_ℤ}
use ma_dlna.Maadapter.Frame.{Result, ok, err}
use ma_dlna.Maadapter.Message.{Net, Conn, write_bytes}
use ma_dlna.Maadapter.Reply.{
  Json, Outcome, success, failure, CallError, ma_command_timeout, deadline_failed, connection,
  bad_url, dial_failed, bad_handshake, auth_rejected, Adapter, send_ws_command_locked,
}

-- the scheme of the socket for that of the configured address
unfoldable pub ws_scheme : String → Option String
ws_scheme s =
    if eqb s "http"
    then some "ws"
    else if eqb s "https"
    then some "wss"
    else if eqb s "ws" || eqb s "wss"
    then some s
    else none

unfoldable pub ws_path : String → String
unfolding trim_right_slash
ws_path p =
    let clean = trim_right_slash p in
    if eqb clean "" then "/ws" else if eqb clean "/ws" then clean else clean ++ "/ws"

-- `musicAssistantWSURL`, from the parsed address on
unfoldable pub music_assistant_ws_url : Option Url → Option Url
unfolding ws_scheme ws_path
music_assistant_ws_url none = none
music_assistant_ws_url (some u) =
    let url : Option Url = elim (ws_scheme u.scheme) [
      | none ↦ none
      | some s ↦ some (record {
        scheme = s;
        host = u.host;
        path = ws_path u.path;
        raw_query = "";
        fragment = "";
      })
    ] in
    if eqb u.scheme "" || eqb u.host "" then none else url

-- One round of `lockWSWithin`: whether the deadline has passed, and else the ready case of the `select`,
-- a tick at which the lock is free or not, or the timer.
pub data Round : Type 0 where
  expired : Round
  tick : Bool → Round
  timer : Round

-- The rounds of the loop; a list that ends stands for a lock that is still waited for, without success.
unfoldable pub lock_rounds : List Round → Bool
lock_rounds [] = false
lock_rounds (expired ∷ rounds) = false
lock_rounds (timer ∷ rounds) = false
lock_rounds (tick true ∷ rounds) = true
lock_rounds (tick false ∷ rounds) = lock_rounds rounds

-- `free` says that the lock is free at the first try.
unfoldable pub lock_ws_within : Bool → List Round → Bool
unfolding lock_rounds
lock_ws_within free rounds = if free then true else lock_rounds rounds

-- the response to the handshake: its status, and its `Sec-WebSocket-Accept`
pub record Response : Type 0 where
  pub status_code : ℕ
  pub accept : String

-- What a new connection takes of the outside: the parsed address of the configuration, the connection
-- that the dialer makes for a URL, the random key, the bytes of the handshake's request, the reading of
-- its response, and the hash of `websocketAcceptKey`.
pub record Dial : Type 0 where
  pub address : Option Url
  pub dial : Url → Option Conn
  pub websocket_key : Option String
  pub request : Url → String → List ℕ
  pub read_response : List ℕ → Option (Response × List ℕ)
  pub accept_key : String → String
  pub token : String

-- The time that is left at the connection, its authentication and the command.
pub record Clock : Type 0 where
  pub to_connect : ℤ
  pub to_auth : ℤ
  pub to_send : ℤ

-- `closeWSLocked`
unfoldable pub close_ws_locked : Adapter → Adapter
close_ws_locked a = record a { conn = none }

module _ (net : Net) (d : Dial) where
  -- From the response to the handshake on.
  unfoldable pub accept_response : String → Conn → Option (Response × List ℕ) → Outcome Conn
  accept_response key c none = failure bad_handshake
  accept_response key c (some (resp, left)) =
      if not (resp.status_code == 101)
      then failure bad_handshake
      else if not (eqb resp.accept (d.accept_key key))
      then failure bad_handshake
      else success (record c { incoming = left })

  unfoldable pub send_handshake : Url → Conn → Option String → Outcome Conn
  unfolding accept_response write_bytes
  send_handshake url c none = failure bad_handshake
  send_handshake url c (some key) = elim (write_bytes net (d.request url key) c) [
    | err e ↦ failure (connection e)
    | ok c' ↦ accept_response key c' (d.read_response c'.incoming)
  ]

  -- From the URL to the connection after the handshake.
  unfoldable pub open_conn : Option Url → Outcome Conn
  unfolding send_handshake
  open_conn none = failure bad_url
  open_conn (some url) = elim (d.dial url) [
    | none ↦ failure dial_failed
    | some c ↦
        if net.sets_deadline c.sent
        then send_handshake url c d.websocket_key
        else failure deadline_failed
  ]

  module _ (json : Json Bool) where
    -- After the `auth` command: an authentication that fails or is rejected closes the connection.
    unfoldable pub authenticated : Outcome (Option Bool) × Adapter → Outcome (Unit {0}) × Adapter
    unfolding close_ws_locked
    authenticated (failure e, a) = (failure e, close_ws_locked a)
    authenticated (success (some true), a) = (success tt, a)
    authenticated (success other, a) = (failure auth_rejected, close_ws_locked a)

    unfoldable pub authenticate : ℤ → Adapter → Option (Outcome (Unit {0}) × Adapter)
    unfolding authenticated send_ws_command_locked
    authenticate left a =
        if eqb d.token ""
        then some (success tt, a)
        else elim (send_ws_command_locked json net true "auth" d.token left a) [
          | none ↦ none
          | some r ↦ some (authenticated r)
        ]

    unfoldable pub connect_ws_locked : Clock → Adapter → Option (Outcome (Unit {0}) × Adapter)
    unfolding open_conn authenticate music_assistant_ws_url
    connect_ws_locked clock a = elim a.conn [
      | some c ↦ some (success tt, a)
      | none ↦
          if ltb_ℤ (pos 0) clock.to_connect
          then elim (open_conn (music_assistant_ws_url d.address)) [
            | failure e ↦ some (failure e, a)
            | success c ↦ authenticate clock.to_auth (record a { conn = some c })
          ]
          else some (failure ma_command_timeout, a)
    ]

module _ {A : Type 0} (net : Net) (d : Dial) (auth : Json Bool) (json : Json A) where
  -- A command that fails closes the connection.
  unfoldable pub sent : Outcome (Option A) × Adapter → Outcome (Option A) × Adapter
  unfolding close_ws_locked
  sent (failure e, a) = (failure e, close_ws_locked a)
  sent (success v, a) = (success v, a)

  unfoldable pub send_connected :
      Bool
      → String
      → String
      → ℤ
      → Outcome (Unit {0}) × Adapter
      → Option (Outcome (Option A) × Adapter)
  unfolding sent send_ws_command_locked
  send_connected wants command args left (failure e, a) = some (failure e, a)
  send_connected wants command args left (success _, a) =
      elim (send_ws_command_locked json net wants command args left a) [
        | none ↦ none
        | some r ↦ some (sent r)
      ]

  -- `callMAResultWithin`, with the outcome of the first try of the lock and the rounds of its loop.
  unfoldable pub call_ma_result_within :
      Bool
      → String
      → String
      → ℤ
      → Bool
      → List Round
      → Clock
      → Adapter
      → Option (Outcome (Option A) × Adapter)
  unfolding send_connected connect_ws_locked lock_ws_within
  call_ma_result_within wants command args timeout free rounds clock a =
      if not (ltb_ℤ (pos 0) timeout)
      then some (failure ma_command_timeout, a)
      else if not (lock_ws_within free rounds)
      then some (failure ma_command_timeout, a)
      else elim (connect_ws_locked net d auth clock a) [
        | none ↦ none
        | some r ↦ send_connected wants command args clock.to_send r
      ]
