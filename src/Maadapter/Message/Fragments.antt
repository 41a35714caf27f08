-- ===== src/Maadapter/Message/Fragments.antt =====
-- internal/maadapter/direct.go: what `readWSTextLocked` makes of the frames of one message, with the
-- frames between them.
pub mod Assembly
use mathlib.Core.List.{append-nil, append_assoc}
use native.Mathlib.Decide.{ℕ_discrete}
use ma_dlna.Base.{
  ℕ, zero, suc, ◌+◌, ◌≤◌, ◌<◌, ◌≡◌, ◌≢◌, refl, ap, ◌∙◌, Bool, true, false, List, [], ◌∷◌, ◌++◌,
  Option, none, some, ◌==◌, ltb, length, length-append, take, take_of_length-le, if◌then◌else◌,
  arith, subst, sym, Bool-cases, inl, inr,
}
use ma_dlna.Maadapter.Frame.{
  Result, ok, err, Frame, max_web_socket_payload_bytes, client_frame, frame_header, apply_mask,
  read_server_frame,
}
use ma_dlna.Maadapter.Frame.Reads.{Framed, Holds, read_server_frame-Framed}
use ma_dlna.Maadapter.Message.{
  Net, Conn, done, go_on, answered, write_bytes, write_client_frame, write_client_control_frame,
  next_frame, read_loop, read_ws_text,
}

-- The bytes `s` are the frames of a list, with `rest` after them.
abbrev pub Frames : List ℕ → List Frame → List ℕ → Type 0
Frames s [] rest = s ≡ rest
Frames s (fr ∷ frs) rest = (t : List ℕ) × (read_server_frame s ≡ ok (fr, t)) × Frames t frs rest

-- The payloads of the continuation frames, one after the other.
unfoldable pub fragments : List Frame → List ℕ
fragments [] = []
fragments (fr ∷ frs) =
    let rest = fragments frs in if fr.opcode == 0 then fr.payload ++ rest else rest

pub fragments_part :
    (fr : Frame) (frs : List Frame)
    → fr.opcode ≡ 0
    → fragments (fr ∷ frs) ≡ fr.payload ++ fragments frs
unfolding fragments
fragments_part fr frs part = ground arith

pub fragments_skip :
    (fr : Frame) (frs : List Frame) → fr.opcode ≢ 0 → fragments (fr ∷ frs) ≡ fragments frs
unfolding fragments
fragments_skip fr frs skip = ground arith

-- Frames that may stand before a message: neither text nor close.
abbrev pub Before : List Frame → Type 0
Before [] = Unit
Before (fr ∷ frs) = (fr.opcode ≢ 1) × (fr.opcode ≢ 8) × Before frs

-- Frames that may stand within a message: not close, and no continuation that is the last.
abbrev pub Within : List Frame → Type 0
Within [] = Unit
Within (fr ∷ frs) = (fr.opcode ≢ 8) × ((fr.opcode ≡ 0) → fr.fin ≡ false) × Within frs

-- The connection takes what is written, and the random source gives the masks `mask`.
pub record Works (net : Net) (mask : ℕ → List ℕ) : Type 0 where
  pub draws : (i : ℕ) → net.random i ≡ some (mask i)
  pub writes : (sent bytes : List ℕ) → net.accepts sent bytes ≡ true

module _ (mask : ℕ → List ℕ) where
  -- What the client sends for a list of frames: for each ping a pong with the first 125 bytes of its
  -- payload.
  unfoldable pub pongs : ℕ → List Frame → List ℕ
  pongs i [] = []
  pongs i (fr ∷ frs) =
      let more = client_frame (mask i) 0xA (take 125 fr.payload) ++ pongs (suc i) frs in
      let rest = pongs i frs in if fr.opcode == 9 then more else rest

-- the number of pings
unfoldable pub pings : List Frame → ℕ
pings [] = 0
pings (fr ∷ frs) = let n = pings frs in if fr.opcode == 9 then suc n else n

module _ (mask : ℕ → List ℕ) where
  pongs-append :
      (i : ℕ) (frs more : List Frame)
      → pongs mask i (frs ++ more) ≡ pongs mask i frs ++ pongs mask (i + pings frs) more
  unfolding pongs pings
  pongs-append i [] more = ap (λ (n : ℕ). pongs mask n more) (omega arith)
  pongs-append i (fr ∷ frs) more =
      let front = client_frame (mask i) 0xA (take 125 fr.payload) in
      elim (Bool-cases (fr.opcode == 9)) [
        | inl ping ↦
            rw (ping, pongs-append (suc i) frs more)
              (ap (λ (n : ℕ). front ++ (pongs mask (suc i) frs ++ pongs mask n more)) (omega arith)
                ∙ sym (
                    append_assoc front (pongs mask (suc i) frs)
                      (pongs mask (i + suc (pings frs)) more)))
        | inr other ↦ rw other (pongs-append i frs more)
      ]

pings-append : (frs more : List Frame) → pings (frs ++ more) ≡ pings frs + pings more
unfolding pings
pings-append [] more = omega arith
pings-append (fr ∷ frs) more = ground (arith, pings-append frs more)

at_most-take : (n : ℕ) (xs : List ℕ) → (if ltb n (length xs) then take n xs else xs) ≡ take n xs
at_most-take n xs = elim (Bool-cases (ltb n (length xs))) [
  | inl long ↦ rw long refl
  | inr short ↦ rw short (sym (take_of_length-le n xs (ground arith)))
]

module _ (net : Net) (mask : ℕ → List ℕ) (works : Works net mask) where
  pub write_lem :
      (opcode : ℕ) (payload : List ℕ) (c : Conn)
      → write_client_frame net opcode payload c
        ≡ ok (record c {
          sent = c.sent ++ client_frame (mask c.draws) opcode payload;
          draws = suc c.draws;
        })
  unfolding write_client_frame write_bytes client_frame
  write_lem opcode payload c =
      let m = mask c.draws in
      ground (
        arith,
        works.draws c.draws,
        works.writes c.sent (frame_header m opcode (length payload)),
        works.writes (c.sent ++ frame_header m opcode (length payload)) (apply_mask m 0 payload),
        append_assoc c.sent (frame_header m opcode (length payload)) (apply_mask m 0 payload),
      )

  -- the connection after the pong for `payload`
  abbrev pub ponged : List ℕ → Conn → Conn
  ponged payload c = record c {
    sent = c.sent ++ client_frame (mask c.draws) 0xA (take 125 payload);
    draws = suc c.draws;
  }

  pub pong_lem :
      (payload : List ℕ) (c : Conn)
      → write_client_control_frame net 0xA payload c ≡ ok (ponged payload c)
  unfolding write_client_control_frame
  pong_lem payload c = rw (at_most-take 125 payload) (write_lem 0xA (take 125 payload) c)

  -- the connection after frames that are passed over
  abbrev pub passed : List Frame → List ℕ → Conn → Conn
  passed frs rest c = record {
    incoming = rest;
    sent = c.sent ++ pongs mask c.draws frs;
    draws = c.draws + pings frs;
  }

  pub passed_ping :
      (fr : Frame) (frs : List Frame) (t rest : List ℕ) (c : Conn)
      → fr.opcode ≡ 9
      → passed frs rest (ponged fr.payload (record c { incoming = t })) ≡ passed (fr ∷ frs) rest c
  unfolding pongs pings
  passed_ping fr frs t rest c nine = ground (
    arith,
    append_assoc c.sent (client_frame (mask c.draws) 0xA (take 125 fr.payload))
        (pongs mask (suc c.draws) frs),
  )

  pub passed_other :
      (fr : Frame) (frs : List Frame) (t rest : List ℕ) (c : Conn)
      → fr.opcode ≢ 9
      → passed frs rest (record c { incoming = t }) ≡ passed (fr ∷ frs) rest c
  unfolding pongs pings
  passed_other fr frs t rest c other = ground arith

  pub step_ping :
      (buf : Option (List ℕ)) (fr : Frame) (c : Conn)
      → fr.opcode ≡ 9
      → next_frame net buf fr c ≡ go_on buf (ponged fr.payload c)
  unfolding next_frame answered
  step_ping none fr c nine = ground (arith, pong_lem fr.payload c)
  step_ping (some buf) fr c nine = ground (arith, pong_lem fr.payload c)

  pub step_part :
      (buf : List ℕ) (fr : Frame) (c : Conn)
      → fr.opcode ≡ 0
      → fr.fin ≡ false
      → length buf + length fr.payload ≤ max_web_socket_payload_bytes
      → next_frame net (some buf) fr c ≡ go_on (some (buf ++ fr.payload)) c
  unfolding next_frame
  step_part buf fr c zero_op open_end fits = ground arith

  pub step_last :
      (buf : List ℕ) (fr : Frame) (c : Conn)
      → fr.opcode ≡ 0
      → fr.fin ≡ true
      → length buf + length fr.payload ≤ max_web_socket_payload_bytes
      → next_frame net (some buf) fr c ≡ done (ok (buf ++ fr.payload, c))
  unfolding next_frame
  step_last buf fr c zero_op final fits = ground arith

  pub step_first :
      (fr : Frame) (c : Conn)
      → fr.opcode ≡ 1
      → fr.fin ≡ false
      → next_frame net none fr c ≡ go_on (some fr.payload) c
  unfolding next_frame
  step_first fr c text open_end = ground arith

  pub passed-passed :
      (frs more : List Frame) (t rest : List ℕ) (c : Conn)
      → passed more rest (passed frs t c) ≡ passed (frs ++ more) rest c
  passed-passed frs more t rest c =
      rw
        (
          pongs-append mask c.draws frs more,
          pings-append frs more,
          ← append_assoc c.sent (pongs mask c.draws frs) (pongs mask (c.draws + pings frs) more),
        )
        (ap
          (λ (d : ℕ). record {
            incoming = rest;
            sent = (c.sent ++ pongs mask c.draws frs) ++ pongs mask (c.draws + pings frs) more;
            draws = d;
          })
          (omega arith))

  pub step_within :
      (buf : List ℕ) (fr : Frame) (c : Conn)
      → fr.opcode ≢ 0
      → fr.opcode ≢ 8
      → fr.opcode ≢ 9
      → next_frame net (some buf) fr c ≡ go_on (some buf) c
  unfolding next_frame
  step_within buf fr c a b d = ground arith

  pub step_before :
      (fr : Frame) (c : Conn)
      → fr.opcode ≢ 1
      → fr.opcode ≢ 8
      → fr.opcode ≢ 9
      → next_frame net none fr c ≡ go_on none c
  unfolding next_frame
  step_before fr c a b d = ground arith

  -- One round of the loop.
  pub round :
      (fuel : ℕ) (buf : Option (List ℕ)) (c : Conn) {buf' : Option (List ℕ)} {c' : Conn}
      {fr : Frame} {t : List ℕ}
      → read_server_frame c.incoming ≡ ok (fr, t)
      → next_frame net buf fr (record c { incoming = t }) ≡ go_on buf' c'
      → read_loop net (suc fuel) buf c ≡ read_loop net fuel buf' c'
  unfolding read_loop
  round fuel buf c read on = ground (arith, read, on)

  pub last_round :
      (fuel : ℕ) (buf : Option (List ℕ)) (c : Conn) {fr : Frame} {t : List ℕ}
      {r : Result (List ℕ × Conn)}
      → read_server_frame c.incoming ≡ ok (fr, t)
      → next_frame net buf fr (record c { incoming = t }) ≡ done r
      → read_loop net (suc fuel) buf c ≡ some r
  unfolding read_loop
  last_round fuel buf c read ended = ground (arith, read, ended)
