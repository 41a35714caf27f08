-- ===== src/Maadapter/Message/Loop.antt =====
-- internal/maadapter/direct.go: what a read leaves of the bytes that came in, and that the loops of
-- `readWSTextLocked` end.
use ma_dlna.Base.{
  ℕ, zero, suc, ◌+◌, ◌≤◌, ◌<◌, ◌≡◌, refl, subst, List, Option, none, some, length, length-append,
  arith, ◌⊎◌, inl, inr,
}
use ma_dlna.Maadapter.Frame.{
  Result, ok, err, Frame, max_web_socket_payload_bytes, read_server_frame,
}
use ma_dlna.Maadapter.Frame.Reads.{Holds, Result-cases, Framed, read_server_frame-Framed}
use ma_dlna.Maadapter.Message.{
  Net, Conn, Next, done, go_on, answered, write_client_control_frame, write_client_frame,
  write_bytes, next_frame, read_loop, read_ws_text,
}

Next-cases :
    (n : Next)
    → ((r : Result (List ℕ × Conn)) × (n ≡ done r))
      ⊎ ((buf : Option (List ℕ)) × (c : Conn) × (n ≡ go_on buf c))
Next-cases (done r) = inl (r, refl)
Next-cases (go_on buf c) = inr (buf, c, refl)

-- A message within the limit, for which at least two bytes of what came in were taken.
abbrev pub Delivered : List ℕ → Option (Result (List ℕ × Conn)) → Type 0
Delivered s none = ⊥
Delivered s (some r) =
    Holds
      (λ (p : List ℕ × Conn).
        (length p.0 ≤ max_web_socket_payload_bytes) × (2 + length p.1.incoming ≤ length s))
      r

-- What the step after a frame keeps: the bytes that are still to come in.
abbrev Kept : List ℕ → Next → Type 0
Kept s (done r) =
    Holds (λ (p : List ℕ × Conn). (length p.0 ≤ max_web_socket_payload_bytes) × (p.1.incoming ≡ s))
      r
Kept s (go_on buf c) = c.incoming ≡ s

answered-Kept :
    (s : List ℕ) (buf : Option (List ℕ)) (r : Result Conn)
    → Holds (λ (c : Conn). c.incoming ≡ s) r
    → Kept s (answered buf r)
unfolding answered
answered-Kept s buf (ok c) h = h
answered-Kept s buf (err e) h = tt

module _ (net : Net) where
  write_client_frame-incoming :
      (opcode : ℕ) (payload : List ℕ) (c : Conn)
      → Holds (λ (c' : Conn). c'.incoming ≡ c.incoming) (write_client_frame net opcode payload c)
  unfolding write_client_frame write_bytes
  write_client_frame-incoming opcode payload c = ground arith

  pong-Kept :
      (buf : Option (List ℕ)) (payload : List ℕ) (c : Conn)
      → Kept c.incoming (answered buf (write_client_control_frame net 10 payload c))
  unfolding write_client_control_frame
  pong-Kept buf payload c =
      answered-Kept c.incoming buf (write_client_control_frame net 10 payload c)
        (write_client_frame-incoming 10 _ c)

  next_frame-Kept :
      (buf : Option (List ℕ)) (fr : Frame) (c : Conn)
      → length fr.payload ≤ max_web_socket_payload_bytes
      → Kept c.incoming (next_frame net buf fr c)
  unfolding next_frame
  next_frame-Kept none fr c small = ground (arith, pong-Kept none fr.payload c)
  next_frame-Kept (some buf) fr c small =
      ground (arith, pong-Kept (some buf) fr.payload c, length-append buf fr.payload)

  read_loop-Delivered :
      (fuel : ℕ) (buf : Option (List ℕ)) (c : Conn)
      → length c.incoming < fuel
      → Delivered c.incoming (read_loop net fuel buf c)
  unfolding read_loop
  read_loop-Delivered zero buf c h = absurd (omega arith)
  read_loop-Delivered (suc fuel) buf c h = elim (Result-cases (read_server_frame c.incoming)) [
    | inl (e, failed) ↦ rw (failed, Delivered, Holds) tt
    | inr ((fr, left), read) ↦
        let c' = record c { incoming = left } in
        let framed =
          subst (Holds (Framed c.incoming)) (read) (read_server_frame-Framed c.incoming) in
        let kept = next_frame-Kept buf fr c' framed.0 in
        elim (Next-cases (next_frame net buf fr c')) [
          | inl (r, ended) ↦ ground (arith, read, ended, kept)
          | inr (buf', c'', on) ↦
              let same : c''.incoming ≡ left = subst (Kept left) (on) kept in
              ground (arith, read, on, same, read_loop-Delivered fuel buf' c'')
        ]
  ]

  -- `readWSTextLocked` always ends, on whatever bytes the connection delivers: in an error, or with a
  -- message of at most 16 MiB for which it has taken two bytes or more.
  pub read_ws_text-Delivered : (c : Conn) → Delivered c.incoming (read_ws_text net c)
  unfolding read_ws_text
  read_ws_text-Delivered c = read_loop-Delivered (suc (length c.incoming)) none c (omega arith)
