-- ===== src/Maadapter/Message/Fragments/Assembly.antt =====
-- internal/maadapter/direct.go: `readWSTextLocked` on the frames of one message, from the first byte of
-- the connection on.
use mathlib.Core.List.{append-nil, append_assoc}
use native.Mathlib.Decide.{ℕ_discrete}
use ma_dlna.Base.{
  ℕ, zero, suc, ◌+◌, ◌-◌, ◌≤◌, ◌<◌, ◌≡◌, ap, ap₂, ◌∙◌, true, false, List, [], ◌∷◌, ◌++◌, none, some,
  length, length-append, arith, subst,
}
use ma_dlna.Maadapter.Frame.{ok, Frame, max_web_socket_payload_bytes, read_server_frame}
use ma_dlna.Maadapter.Frame.Reads.{Framed, Holds, read_server_frame-Framed}
use ma_dlna.Maadapter.Message.Fragments.{
  Frames, fragments, Before, Within, Works, pongs, pings, fragments_part, fragments_skip, ponged,
  step_first, passed-passed, passed, passed_ping, passed_other, step_ping, step_part, step_last,
  step_within, step_before, round, last_round,
}
use ma_dlna.Maadapter.Message.{Net, Conn, next_frame, read_loop, read_ws_text}

Frames-length :
    (s : List ℕ) (frs : List Frame) (rest : List ℕ)
    → Frames s frs rest
    → length frs + length frs + length rest ≤ length s
Frames-length s [] rest e = omega (arith, ap length e)
Frames-length s (fr ∷ frs) rest (t, read, more) =
    let framed = subst (Holds (Framed s)) (read) (read_server_frame-Framed s) in
    omega (arith, Frames-length t frs rest more, framed.1)

module _ (net : Net) (mask : ℕ → List ℕ) (works : Works net mask) where
  -- From the first fragment of a message to its end.
  within_end :
      (fuel : ℕ) (buf : List ℕ) (c : Conn) (last : Frame) (rest : List ℕ)
      → last.opcode ≡ 0
      → last.fin ≡ true
      → length buf + length last.payload ≤ max_web_socket_payload_bytes
      → read_server_frame c.incoming ≡ ok (last, rest)
      → read_loop net (suc fuel) (some buf) c
        ≡ some (ok (buf ++ (fragments [] ++ last.payload), passed net mask works [] rest c))
  unfolding fragments pongs pings
  within_end fuel buf c last rest z l m read =
      rw
        (
          last_round net mask works fuel (some buf) c read
              (step_last net mask works buf last (record c { incoming = rest }) z l m),
          append-nil c.sent,
        )
        (ground arith)

  within :
      (fuel : ℕ) (buf : List ℕ) (c : Conn) (frs : List Frame) (last : Frame) (rest : List ℕ)
      → length frs < fuel
      → Within frs
      → last.opcode ≡ 0
      → last.fin ≡ true
      → length buf + length (fragments frs) + length last.payload ≤ max_web_socket_payload_bytes
      → Frames c.incoming (frs ++ last ∷ []) rest
      → read_loop net fuel (some buf) c
        ≡ some (ok (buf ++ (fragments frs ++ last.payload), passed net mask works frs rest c))
  within zero buf c frs last rest f w z l m h = absurd (omega arith)
  within (suc fuel) buf c [] last rest f w z l m (t, read, ends) =
      within_end fuel buf c last rest z l (omega arith)
        (subst (λ (u : List ℕ). read_server_frame c.incoming ≡ ok (last, u)) (ends) read)
  within (suc fuel) buf c (fr ∷ frs) last rest f w z l m (t, read, more) =
      let c₁ = record c { incoming = t } in
      elim (ℕ_discrete fr.opcode 0) [
        | yes part ↦
            let e = fragments_part fr frs part in
            let fits : length buf
                  + (length fr.payload + length (fragments frs))
                  + length last.payload
                ≤ max_web_socket_payload_bytes =
              omega (arith, ap length e, length-append fr.payload (fragments frs)) in
            rw
              (
                e,
                ← passed_other net mask works fr frs t rest c (omega arith),
                append_assoc fr.payload (fragments frs) last.payload,
                ← append_assoc buf fr.payload (fragments frs ++ last.payload),
              )
              (round net mask works fuel (some buf) c read
                  (step_part net mask works buf fr c₁ part (w.1 part) (omega arith))
                ∙ within fuel (buf ++ fr.payload) c₁ frs last rest (omega arith) w.2 z l
                    (omega (arith, length-append buf fr.payload)) more)
        | no skip ↦
            let e = fragments_skip fr frs skip in
            let fits : length buf + length (fragments frs) + length last.payload
                ≤ max_web_socket_payload_bytes =
              omega (arith, ap length e) in
            elim (ℕ_discrete fr.opcode 9) [
              | yes ping ↦
                  rw (e, ← passed_ping net mask works fr frs t rest c ping)
                    (round net mask works fuel (some buf) c read
                        (step_ping net mask works (some buf) fr c₁ ping)
                      ∙ within fuel buf (ponged net mask works fr.payload c₁) frs last rest
                          (omega arith) w.2 z l fits more)
              | no other ↦
                  rw (e, ← passed_other net mask works fr frs t rest c other)
                    (round net mask works fuel (some buf) c read
                        (step_within net mask works buf fr c₁ skip w.0 other)
                      ∙ within fuel buf c₁ frs last rest (omega arith) w.2 z l fits more)
            ]
      ]

  -- Up to the first frame of a message.
  before :
      (fuel k : ℕ) (c : Conn) (frs next : List Frame) (rest : List ℕ)
      → fuel ≡ length frs + k
      → Before frs
      → Frames c.incoming (frs ++ next) rest
      → (t : List ℕ) × Frames t next rest
        × (read_loop net fuel none c ≡ read_loop net k none (passed net mask works frs t c))
  unfolding pongs pings
  before fuel k c [] next rest e b frames = (
    c.incoming,
    frames,
    rw (e, append-nil c.sent)
        (ap₂
          (λ (n d : ℕ).
            read_loop net n none (record { incoming = c.incoming; sent = c.sent; draws = d }))
          (omega arith) (omega arith)),
  )
  before zero k c (fr ∷ frs) next rest e b frames = absurd (omega arith)
  before (suc fuel) k c (fr ∷ frs) next rest e b (t, read, more) =
      let c₁ = record c { incoming = t } in
      elim (ℕ_discrete fr.opcode 9) [
        | yes ping ↦
            let ih =
              before fuel k (ponged net mask works fr.payload c₁) frs next rest (omega arith) b.2
                more in
            (
              ih.0,
              ih.1,
              rw (← passed_ping net mask works fr frs t ih.0 c ping) (
                  round net mask works fuel none c read (step_ping net mask works none fr c₁ ping)
                  ∙ ih.2),
            )
        | no other ↦
            let ih = before fuel k c₁ frs next rest (omega arith) b.2 more in
            (
              ih.0,
              ih.1,
              rw (← passed_other net mask works fr frs t ih.0 c other) (
                  round net mask works fuel none c read
                    (step_before net mask works fr c₁ b.0 b.1 other)
                  ∙ ih.2),
            )
      ]

  -- A message in one frame, after frames that are neither text nor close.
  pub read_ws_text-whole :
      (c : Conn) (skipped : List Frame) (whole : Frame) (rest : List ℕ)
      → Before skipped
      → whole.opcode ≡ 1
      → whole.fin ≡ true
      → Frames c.incoming (skipped ++ whole ∷ []) rest
      → read_ws_text net c ≡ some (ok (whole.payload, passed net mask works skipped rest c))
  unfolding read_ws_text next_frame
  read_ws_text-whole c skipped whole rest b text final frames =
      let size = Frames-length c.incoming (skipped ++ whole ∷ []) rest frames in
      let k = length c.incoming - length skipped in
      let count : suc (length c.incoming) ≡ length skipped + suc k =
        omega (arith, length-append skipped (whole ∷ [])) in
      let at =
        before (suc (length c.incoming)) (suc k) c skipped (whole ∷ []) rest count b frames in
      let (t, read, ends) = at.1 in
      at.2
      ∙ last_round net mask works k none (passed net mask works skipped at.0 c) read (ground arith)
      ∙ ap (λ (u : List ℕ). some (ok (whole.payload, passed net mask works skipped u c))) (ends)

  -- `readWSTextLocked` on the frames of a message in fragments: frames that are neither text nor close, a
  -- text frame that is not final, frames that are neither close nor a final continuation, and a final
  -- continuation. Where the payloads of the text frame and of the continuations have 16 MiB at most
  -- together, it returns them in order as one message, leaves the bytes that follow the last frame, and
  -- has sent one pong for each ping before and within the message, in order, each with the first 125
  -- bytes of the ping's payload, provided that the connection takes what is written and the random
  -- source gives masks.
  pub read_ws_text-fragments :
      (c : Conn) (skipped middle : List Frame) (first last : Frame) (rest : List ℕ)
      → Before skipped
      → first.opcode ≡ 1
      → first.fin ≡ false
      → Within middle
      → last.opcode ≡ 0
      → last.fin ≡ true
      → length first.payload + length (fragments middle) + length last.payload
        ≤ max_web_socket_payload_bytes
      → Frames c.incoming (skipped ++ first ∷ (middle ++ last ∷ [])) rest
      → read_ws_text net c
        ≡ some (
            ok (
              first.payload ++ (fragments middle ++ last.payload),
              record {
                incoming = rest;
                sent = c.sent ++ pongs mask c.draws (skipped ++ middle);
                draws = c.draws + pings (skipped ++ middle);
              },
            ))
  unfolding read_ws_text
  read_ws_text-fragments c skipped middle first last rest b text open_end w z final fits frames =
      let size = Frames-length c.incoming (skipped ++ first ∷ (middle ++ last ∷ [])) rest frames in
      let l1 = length-append skipped (first ∷ (middle ++ last ∷ [])) in
      let l2 = length-append middle (last ∷ []) in
      let k = length c.incoming - length skipped in
      let count : suc (length c.incoming) ≡ length skipped + suc k = omega (arith, l1) in
      let enough : length middle < k = omega (arith, l1, l2) in
      let at =
        before (suc (length c.incoming)) (suc k) c skipped (first ∷ (middle ++ last ∷ [])) rest
          count b frames in
      let (t, read, more) = at.1 in
      let c₁ = passed net mask works skipped t c in
      at.2
      ∙ round net mask works k none (passed net mask works skipped at.0 c) read
          (step_first net mask works first c₁ text open_end)
      ∙ within k first.payload c₁ middle last rest enough w z final fits more
      ∙ ap (λ (c' : Conn). some (ok (first.payload ++ (fragments middle ++ last.payload), c')))
          (passed-passed net mask works skipped middle t rest c)
