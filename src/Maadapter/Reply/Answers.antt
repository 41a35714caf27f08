-- ===== src/Maadapter/Reply/Answers.antt =====
-- internal/maadapter/direct.go: which message `sendWSCommandLocked` takes for the reply.
use ma_dlna.Base.{
  ℕ, ◌≡◌, ◌≢◌, refl, Bool, false, ◌&&◌, ◌⊎◌, inl, inr, List, Option, none, some, String,
  text_discrete, arith, Bool-cases,
}
use ma_dlna.Maadapter.Frame.{ok}
use ma_dlna.Maadapter.Message.{Net, Conn, read_ws_text}
use ma_dlna.Maadapter.Reply.{
  Envelope, Json, CallError, success, failure, Reply, go_on, answer, is_present, decoded, result_of,
  reply_of,
}

abbrev pub Absent : String → Type 0
Absent raw = (raw ≡ "") ⊎ (raw ≡ "null")

module _ {A : Type 0} (json : Json A) where
  -- A reply without an error, whose result is the value if there is one.
  pub record Bears (env : Envelope) (v : Option A) : Type 0 where
    pub no_code : Absent env.error_code
    pub no_error : Absent env.error
    pub value : (v ≡ none) ⊎ ((a : A) × (v ≡ some a) × (json.decode env.result ≡ some a))

  -- Not the reply to `msg_id`: an event, or a message with no id or another one.
  abbrev pub IsOther : String → Envelope → Type 0
  IsOther msg_id env = (env.event ≢ "") ⊎ ((env.message_id ≡ "") ⊎ (env.message_id ≢ msg_id))

  -- `v` is the value of the first message on the connection that is a reply to `msg_id`; all messages
  -- before it are others.
  pub data Answers (net : Net) (msg_id : String) (v : Option A) : Conn → Conn → Type 0 where
    reply :
        {c c' : Conn} (msg : List ℕ) (env : Envelope)
        → read_ws_text net c ≡ some (ok (msg, c'))
        → json.unmarshal msg ≡ some env
        → env.event ≡ ""
        → env.message_id ≡ msg_id
        → Bears env v
        → Answers net msg_id v c c'
    other :
        {c c' c'' : Conn} (msg : List ℕ) (env : Envelope)
        → read_ws_text net c ≡ some (ok (msg, c'))
        → json.unmarshal msg ≡ some env
        → IsOther msg_id env
        → Answers net msg_id v c' c''
        → Answers net msg_id v c c''

  is_present-Absent : (raw : String) → is_present raw ≡ false → Absent raw
  unfolding is_present
  is_present-Absent raw h = elim (text_discrete raw "") [
    | yes e ↦ inl e
    | no ne ↦ elim (text_discrete raw "null") [ yes e ↦ inr e | no ne' ↦ absurd (ground arith) ]
  ]

  decoded-value :
      (o : Option A) (v : Option A)
      → decoded json o ≡ success v
      → (a : A) × (v ≡ some a) × (o ≡ some a)
  unfolding decoded
  decoded-value none v h = absurd (cc)
  decoded-value (some a) v h = (a, cc, refl)

  result_of-Bears :
      (wants : Bool) (env : Envelope) (v : Option A)
      → result_of json wants env ≡ success v
      → Bears env v
  unfolding result_of
  result_of-Bears wants env v h = elim (Bool-cases (is_present env.error_code)) [
    | inl code ↦ absurd (ground (arith, h, code))
    | inr no_code ↦ elim (Bool-cases (is_present env.error)) [
      | inl plain ↦ absurd (ground (arith, h, no_code, plain))
      | inr no_plain ↦ record {
        no_code = is_present-Absent env.error_code no_code;
        no_error = is_present-Absent env.error no_plain;
        value = elim (Bool-cases (wants && is_present env.result)) [
          | inl has ↦
              let e : decoded json (json.decode env.result) ≡ success v =
                ground (arith, h, no_code, no_plain, has) in
              inr (decoded-value (json.decode env.result) v e)
          | inr without ↦ inl (ground (arith, h, no_code, no_plain, without))
        ];
      }
    ]
  ]

  pub Reply-cases :
      (r : Reply A)
      → (r ≡ go_on)
        ⊎ (((e : CallError) × (r ≡ answer (failure e)))
            ⊎ ((v : Option A) × (r ≡ answer (success v))))
  Reply-cases go_on = inl refl
  Reply-cases (answer (failure e)) = inr (inl (e, refl))
  Reply-cases (answer (success v)) = inr (inr (v, refl))

  pub reply_of-IsOther :
      (wants : Bool) (msg_id : String) (o : Option Envelope)
      → reply_of json wants msg_id o ≡ go_on
      → (env : Envelope) × (o ≡ some env) × IsOther msg_id env
  unfolding reply_of
  reply_of-IsOther wants msg_id none h = absurd (cc)
  reply_of-IsOther wants msg_id (some env) h = (
    env,
    refl,
    elim (text_discrete env.event "") [
      | no event ↦ inl event
      | yes no_event ↦ elim (text_discrete env.message_id "") [
        | yes without ↦ inr (inl without)
        | no with_id ↦ elim (text_discrete env.message_id msg_id) [
          | no foreign ↦ inr (inr foreign)
          | yes own ↦ absurd (ground (arith, h))
        ]
      ]
    ],
  )

  pub reply_of-answer :
      (wants : Bool) (msg_id : String) (o : Option Envelope) (v : Option A)
      → reply_of json wants msg_id o ≡ answer (success v)
      → (env : Envelope) × (o ≡ some env)
        × (env.event ≡ "")
        × (env.message_id ≡ msg_id)
        × Bears env v
  unfolding reply_of
  reply_of-answer wants msg_id none v h = absurd (cc)
  reply_of-answer wants msg_id (some env) v h =
      let same : env.message_id ≡ msg_id = ground (arith, h) in
      let quiet : env.event ≡ "" = ground (arith, h) in
      let e : result_of json wants env ≡ success v = ground (arith, h) in
      (env, refl, quiet, same, result_of-Bears wants env v e)
