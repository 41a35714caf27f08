-- ===== src/Maadapter/Reply/Ended.antt =====
-- internal/maadapter/direct.go: that `sendWSCommandLocked` ends, and what its success stands for.
use ma_dlna.Base.{
  ℕ, zero, suc, ◌<◌, ◌≡◌, refl, sym, subst, Bool, inl, inr, List, Option, none, some, String,
  length, arith, Option-cases, Bool-cases,
}
use ma_dlna.Base.Int.{ℤ, pos, ltb_ℤ}
use ma_dlna.Maadapter.Frame.{ok}
use ma_dlna.Maadapter.Frame.Reads.{Result-cases}
use ma_dlna.Maadapter.Message.{Net, Conn, write_client_text_frame, read_ws_text}
use ma_dlna.Maadapter.Message.Loop.{Delivered, read_ws_text-Delivered}
use ma_dlna.Maadapter.Reply.Answers.{
  IsOther, Answers, Reply-cases, reply_of-IsOther, reply_of-answer,
}
use ma_dlna.Maadapter.Reply.{
  connection, ma_command_timeout, not_connected, Envelope, Json, Outcome, success, failure,
  reply_of, wait_reply, exchange, Adapter, with_conn, next_id, format_id, send_request,
  send_ws_command_locked,
}

-- Ended, in a failure or with the answer.
module _ {A : Type 0} (json : Json A) (net : Net) where
  abbrev pub Ended : String → Conn → Option (Outcome (Option A) × Conn) → Type 0
  Ended msg_id c none = ⊥
  Ended msg_id c (some (failure e, c')) = Unit
  Ended msg_id c (some (success v, c')) = Answers json net msg_id v c c'

  Ended-other :
      (msg_id : String) (c c' : Conn) (msg : List ℕ) (env : Envelope)
      (o : Option (Outcome (Option A) × Conn))
      → read_ws_text net c ≡ some (ok (msg, c'))
      → json.unmarshal msg ≡ some env
      → IsOther json msg_id env
      → Ended msg_id c' o
      → Ended msg_id c o
  Ended-other msg_id c c' msg env none read doc foreign h = h
  Ended-other msg_id c c' msg env (some (failure e, c'')) read doc foreign h = tt
  Ended-other msg_id c c' msg env (some (success v, c'')) read doc foreign h =
      Answers.other msg env read doc foreign h

  wait_reply-Ended :
      (fuel : ℕ) (wants : Bool) (msg_id : String) (c : Conn)
      → length c.incoming < fuel
      → Ended msg_id c (wait_reply json net fuel wants msg_id c)
  unfolding wait_reply
  wait_reply-Ended zero wants msg_id c h = absurd (omega arith)
  wait_reply-Ended (suc fuel) wants msg_id c h =
      let delivered = read_ws_text-Delivered net c in
      elim (Option-cases (read_ws_text net c)) [
        | inl out ↦ absurd (subst (Delivered c.incoming) (out) delivered)
        | inr (r, read) ↦ elim (Result-cases r) [
          | inl (e, failed) ↦
              let step : wait_reply json net (suc fuel) wants msg_id c
                  ≡ some (failure (connection e), c) =
                ground (arith, read, failed) in
              subst (Ended msg_id c) (sym step) tt
          | inr ((msg, c'), got) ↦
              let full : read_ws_text net c ≡ some (ok (msg, c')) = rw (read, got) refl in
              let left = subst (Delivered c.incoming) (full) delivered in
              elim (Reply-cases json (reply_of json wants msg_id (json.unmarshal msg))) [
                | inl skip ↦
                    let o = reply_of-IsOther json wants msg_id (json.unmarshal msg) skip in
                    let ih = wait_reply-Ended fuel wants msg_id c' (omega arith) in
                    let step : wait_reply json net (suc fuel) wants msg_id c
                        ≡ wait_reply json net fuel wants msg_id c' =
                      ground (arith, full, skip) in
                    subst (Ended msg_id c) (sym step) (
                      Ended-other msg_id c c' msg o.0 (wait_reply json net fuel wants msg_id c')
                        full o.1 o.2 ih)
                | inr (inl (e, failed)) ↦
                    let step : wait_reply json net (suc fuel) wants msg_id c
                        ≡ some (failure e, c') =
                      ground (arith, full, failed) in
                    subst (Ended msg_id c) (sym step) tt
                | inr (inr (v, replied)) ↦
                    let o = reply_of-answer json wants msg_id (json.unmarshal msg) v replied in
                    let step : wait_reply json net (suc fuel) wants msg_id c
                        ≡ some (success v, c') =
                      ground (arith, full, replied) in
                    subst (Ended msg_id c) (sym step) (Answers.reply msg o.0 full o.1 o.2 o.3 o.4)
              ]
        ]
      ]

  -- The request with the next id has gone out on the connection `c₀`, and its reply has come.
  pub record Replied (command args : String) (a : Adapter) (v : Option A) (a' : Adapter)
      : Type 0 where
    pub before : Conn
    pub after : Conn
    pub last : Conn
    pub payload : List ℕ
    pub id : a'.msg_id ≡ next_id a.msg_id
    pub encoded : json.marshal (format_id a'.msg_id) command args ≡ some payload
    pub requested : write_client_text_frame net payload before ≡ ok after
    pub replied : Answers json net (format_id a'.msg_id) v after last
    pub stays : a'.conn ≡ some last
    pub stood : a.conn ≡ some before

  abbrev pub Sent : String → String → Adapter → Option (Outcome (Option A) × Adapter) → Type 0
  Sent command args a none = ⊥
  Sent command args a (some (failure e, a')) = Unit
  Sent command args a (some (success v, a')) = Replied command args a v a'

  abbrev Exchanged : String → List ℕ → Conn → Option (Outcome (Option A) × Conn) → Type 0
  Exchanged msg_id payload c none = ⊥
  Exchanged msg_id payload c (some (failure e, last)) = Unit
  Exchanged msg_id payload c (some (success v, last)) =
      (after : Conn) × (write_client_text_frame net payload c ≡ ok after)
      × Answers json net msg_id v after last

  Ended-Exchanged :
      (msg_id : String) (payload : List ℕ) (c after : Conn) (o : Option (Outcome (Option A) × Conn))
      → write_client_text_frame net payload c ≡ ok after
      → Ended msg_id after o
      → Exchanged msg_id payload c o
  Ended-Exchanged msg_id payload c after none w h = h
  Ended-Exchanged msg_id payload c after (some (failure e, last)) w h = tt
  Ended-Exchanged msg_id payload c after (some (success v, last)) w h = (after, w, h)

  exchange-Exchanged :
      (wants : Bool) (msg_id : String) (payload : List ℕ) (c : Conn)
      → Exchanged msg_id payload c (exchange json net wants msg_id payload c)
  unfolding exchange
  exchange-Exchanged wants msg_id payload c =
      let out = exchange json net wants msg_id payload c in
      elim (Result-cases (write_client_text_frame net payload c)) [
        | inl (e, failed) ↦
            let step : out ≡ some (failure (connection e), c) = ground (arith, failed) in
            subst (Exchanged msg_id payload c) (sym step) tt
        | inr (after, written) ↦
            let fuel = suc (length after.incoming) in
            let waited = wait_reply json net fuel wants msg_id after in
            let step : out ≡ waited = ground (arith, written) in
            subst (Exchanged msg_id payload c) (sym step) (
              Ended-Exchanged msg_id payload c after waited written
                (wait_reply-Ended fuel wants msg_id after (omega arith)))
      ]

  module _ (command args : String) (c : Conn) (a : Adapter) (stood : a.conn ≡ some c) where
    with_conn-Sent :
        (payload : List ℕ) (o : Option (Outcome (Option A) × Conn))
        → json.marshal (format_id (next_id a.msg_id)) command args ≡ some payload
        → Exchanged (format_id (next_id a.msg_id)) payload c o
        → Sent command args a (with_conn (record a { msg_id = next_id a.msg_id }) o)
    unfolding with_conn
    with_conn-Sent payload none encoded h = h
    with_conn-Sent payload (some (failure e, last)) encoded h = tt
    with_conn-Sent payload (some (success v, last)) encoded h = record {
      before = c;
      after = h.0;
      last = last;
      payload = payload;
      id = refl;
      encoded = encoded;
      requested = h.1;
      replied = h.2;
      stays = refl;
      stood = stood;
    }

    send_request-Sent :
        (wants : Bool) (o : Option (List ℕ))
        → json.marshal (format_id (next_id a.msg_id)) command args ≡ o
        → Sent command args a (
            send_request json net wants
              (format_id (next_id a.msg_id))
              o
              c
              (record a { msg_id = next_id a.msg_id }))
    unfolding send_request
    send_request-Sent wants none encoded = tt
    send_request-Sent wants (some payload) encoded = elim (Bool-cases (net.sets_deadline c.sent)) [
      | inr failed ↦ rw (failed, Sent) tt
      | inl set ↦ rw set (
          with_conn-Sent payload _ encoded
            (exchange-Exchanged wants (format_id (next_id a.msg_id)) payload c))
    ]

  -- `sendWSCommandLocked` always ends.
  pub send_ws_command_locked-Sent :
      (wants : Bool) (command args : String) (left : ℤ) (a : Adapter)
      → Sent command args a (send_ws_command_locked json net wants command args left a)
  unfolding send_ws_command_locked
  send_ws_command_locked-Sent wants command args left a =
      let out = send_ws_command_locked json net wants command args left a in
      let msg_id = format_id (next_id a.msg_id) in
      elim (Option-cases a.conn) [
        | inl closed ↦
            let e : out ≡ some (failure not_connected, a) = ground (arith, closed) in
            subst (Sent command args a) (sym e) tt
        | inr (c, stood) ↦ elim (Bool-cases (ltb_ℤ (pos 0) left)) [
          | inr late ↦
              let e : out ≡ some (failure ma_command_timeout, a) = ground (arith, stood, late) in
              subst (Sent command args a) (sym e) tt
          | inl timely ↦
              let o = json.marshal msg_id command args in
              let e : out
                  ≡ send_request json net wants msg_id o c
                      (record a { msg_id = next_id a.msg_id }) =
                ground (arith, stood, timely) in
              subst (Sent command args a) (sym e)
                (send_request-Sent command args c a stood wants o refl)
        ]
      ]
