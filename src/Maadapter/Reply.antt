-- ===== src/Maadapter/Reply.antt =====
-- internal/maadapter/direct.go: `sendWSCommandLocked`, which sends a command and waits for the reply with
-- its message id.
pub mod Answers
pub mod Ended
use Prim.Native.String.{◌++◌}
use ma_dlna.Base.{
  ℕ, zero, suc, ◌+◌, ◌-◌, ◌/◌, ◌%◌, ◌^◌, Bool, true, false, not, ◌&&◌, ◌||◌, List, [], ◌∷◌, Option,
  none, some, String, eqb, ltb, length, get_or, if◌then◌else◌,
}
use ma_dlna.Base.Go.{format_int}
use ma_dlna.Base.Int.{ℤ, pos, negsuc, ltb_ℤ}
use ma_dlna.Maadapter.Frame.{Error, Result, ok, err}
use ma_dlna.Maadapter.Message.{Net, Conn, write_client_text_frame, read_ws_text}

-- `%d` of an `int64`, by its bit pattern
unfoldable pub format_int64 : ℕ → String
unfolding format_int
format_int64 n = format_int (if ltb n (2 ^ 63) then pos n else negsuc (2 ^ 64 - n - 1))

-- `fmt.Sprintf("ma-dlna-%d", id)`
unfoldable pub format_id : ℕ → String
unfolding format_int64
format_id id = "ma-dlna-" ++ format_int64 id

-- The reply of Music Assistant: its fields as JSON texts, "" where one is absent.
pub record Envelope : Type 0 where
  pub message_id : String
  pub result : String
  pub error : String
  pub error_code : String
  pub details : String
  pub event : String

-- `encoding/json` as the calls use it: a request from the message id, the command and its arguments,
-- the decoding of a reply, the text of an error code, and the decoding of a result.
pub record Json (A : Type 0) : Type 0 where
  pub marshal : String → String → String → Option (List ℕ)
  pub unmarshal : List ℕ → Option Envelope
  pub error_code_string : String → String
  pub decode : String → Option A

pub data CallError : Type 0 where
  ma_command_timeout : CallError
  not_connected : CallError
  deadline_failed : CallError
  marshal_failed : CallError
  connection : Error → CallError
  decode_failed : CallError
  ma_error : String → String → CallError
  ma_plain_error : String → CallError
  result_failed : CallError
  bad_url : CallError
  dial_failed : CallError
  bad_handshake : CallError
  auth_rejected : CallError

pub data Outcome (A : Type 0) : Type 0 where
  success : A → Outcome A
  failure : CallError → Outcome A

-- What the loop does after a message.
pub data Reply (A : Type 0) : Type 0 where
  go_on : Reply A
  answer : Outcome (Option A) → Reply A

-- `len(raw) > 0 && string(raw) != "null"`
unfoldable pub is_present : String → Bool
is_present raw = not (eqb raw "") && not (eqb raw "null")

module _ {A : Type 0} (json : Json A) where
  unfoldable pub decoded : Option A → Outcome (Option A)
  decoded none = failure result_failed
  decoded (some a) = success (some a)

  -- From the error code on. `wants` says that the caller has a place for the result.
  unfoldable pub result_of : Bool → Envelope → Outcome (Option A)
  unfolding decoded is_present
  result_of wants env =
      if is_present env.error_code
      then failure (ma_error (json.error_code_string env.error_code) env.details)
      else if is_present env.error
      then failure (ma_plain_error env.error)
      else if wants && is_present env.result
      then decoded (json.decode env.result)
      else success none

  unfoldable pub reply_of : Bool → String → Option Envelope → Reply A
  unfolding result_of
  reply_of wants msg_id none = answer (failure decode_failed)
  reply_of wants msg_id (some env) =
      if not (eqb env.event "")
      then go_on
      else if eqb env.message_id "" || not (eqb env.message_id msg_id)
      then go_on
      else answer (result_of wants env)

  module _ (net : Net) where
    -- The loop, on fuel; `none` means that the fuel ran out.
    unfoldable pub wait_reply : ℕ → Bool → String → Conn → Option (Outcome (Option A) × Conn)
    unfolding reply_of read_ws_text
    wait_reply zero wants msg_id c = none
    wait_reply (suc fuel) wants msg_id c = elim (read_ws_text net c) [
      | none ↦ none
      | some (err e) ↦ some (failure (connection e), c)
      | some (ok (msg, c')) ↦ elim (reply_of wants msg_id (json.unmarshal msg)) [
        | go_on ↦ wait_reply fuel wants msg_id c'
        | answer r ↦ some (r, c')
      ]
    ]

    -- The request and the loop. Every message takes two bytes at least, so as many rounds as there are
    -- bytes, and one more, are enough.
    unfoldable pub exchange : Bool → String → List ℕ → Conn → Option (Outcome (Option A) × Conn)
    unfolding wait_reply write_client_text_frame
    exchange wants msg_id payload c = elim (write_client_text_frame net payload c) [
      | err e ↦ some (failure (connection e), c)
      | ok c' ↦ wait_reply (suc (length c'.incoming)) wants msg_id c'
    ]

-- `DirectAdapter`, without its configuration and its lock; the counter of the message ids is an `int64`
-- by its bit pattern.
pub record Adapter : Type 0 where
  pub conn : Option Conn
  pub msg_id : ℕ

unfoldable pub with_conn :
    {A : Type 0} → Adapter → Option (Outcome A × Conn) → Option (Outcome A × Adapter)
with_conn a none = none
with_conn a (some (r, c)) = some (r, record a { conn = some c })

-- `a.msgID.Add(1)`
unfoldable pub next_id : ℕ → ℕ
next_id id = (id + 1) % 2 ^ 64

module _ {A : Type 0} (json : Json A) (net : Net) where
  -- After the request is encoded.
  unfoldable pub send_request :
      Bool → String → Option (List ℕ) → Conn → Adapter → Option (Outcome (Option A) × Adapter)
  unfolding exchange with_conn
  send_request wants msg_id none c a = some (failure marshal_failed, a)
  send_request wants msg_id (some payload) c a =
      if net.sets_deadline c.sent
      then with_conn a (exchange json net wants msg_id payload c)
      else some (failure deadline_failed, a)

  -- `left` is the time that is left.
  unfoldable pub send_ws_command_locked :
      Bool → String → String → ℤ → Adapter → Option (Outcome (Option A) × Adapter)
  unfolding send_request next_id format_id
  send_ws_command_locked wants command args left a = elim a.conn [
    | none ↦ some (failure not_connected, a)
    | some c ↦
        if ltb_ℤ (pos 0) left
        then (let id = next_id a.msg_id in
            let msg_id = format_id id in
            send_request wants msg_id (json.marshal msg_id command args) c
              (record a { msg_id = id }))
        else some (failure ma_command_timeout, a)
  ]
