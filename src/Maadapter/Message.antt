-- ===== src/Maadapter/Message.antt =====
-- internal/maadapter/direct.go: `readWSTextLocked`, which puts a text message together from its frames
-- and answers pings, with `writeClientFrame` on the connection.
pub mod Loop
pub mod Fragments
use ma_dlna.Base.{
  ℕ, zero, suc, ◌+◌, Bool, true, false, List, [], ◌∷◌, ◌++◌, Option, none, some, ◌==◌, ltb, length,
  take, if◌then◌else◌,
}
use ma_dlna.Maadapter.Frame.{
  Error, eof, message_too_large, random_failed, write_failed, Result, ok, err, ◌>>=◌, Frame,
  max_web_socket_payload_bytes, apply_mask, frame_header, read_server_frame,
}

-- What stands outside the program: `random i` is the mask of the `i`-th draw, and `accepts sent bytes`
-- says whether the connection takes `bytes` after all that it has taken. `sets_deadline` tells in the
-- same way whether it takes a deadline.
pub record Net : Type 0 where
  pub random : ℕ → Option (List ℕ)
  pub accepts : List ℕ → List ℕ → Bool
  pub sets_deadline : List ℕ → Bool

-- A connection with its buffered reader: what the server's side delivers until it ends or the deadline
-- passes, and what the client has sent.
pub record Conn : Type 0 where
  pub incoming : List ℕ
  pub sent : List ℕ
  pub draws : ℕ

module _ (net : Net) where
  -- `w.Write`
  unfoldable pub write_bytes : List ℕ → Conn → Result Conn
  write_bytes bytes c =
      if net.accepts c.sent bytes
      then ok (record c { sent = c.sent ++ bytes })
      else err write_failed

  unfoldable pub write_client_frame : ℕ → List ℕ → Conn → Result Conn
  unfolding write_bytes
  write_client_frame opcode payload c = elim (net.random c.draws) [
    | none ↦ err random_failed
    | some mask ↦
        write_bytes (frame_header mask opcode (length payload)) (record c { draws = suc c.draws })
        >>= write_bytes (apply_mask mask 0 payload)
  ]

  unfoldable pub write_client_text_frame : List ℕ → Conn → Result Conn
  unfolding write_client_frame
  write_client_text_frame payload c = write_client_frame 0x1 payload c

  unfoldable pub write_client_control_frame : ℕ → List ℕ → Conn → Result Conn
  unfolding write_client_frame
  write_client_control_frame opcode payload c =
      write_client_frame opcode (if ltb 125 (length payload) then take 125 payload else payload) c

-- After a frame: the function returns, or it reads on. The buffer is `none` in the outer loop and holds
-- the fragments so far in the inner one.
pub data Next : Type 0 where
  done : Result (List ℕ × Conn) → Next
  go_on : Option (List ℕ) → Conn → Next

-- The case of a ping.
unfoldable pub answered : Option (List ℕ) → Result Conn → Next
answered buf (err e) = done (err e)
answered buf (ok c) = go_on buf c

module _ (net : Net) where
  -- The `switch` of the outer loop, by `none`, and that of the inner one.
  unfoldable pub next_frame : Option (List ℕ) → Frame → Conn → Next
  unfolding answered write_client_control_frame
  next_frame none fr c =
      if fr.opcode == 0x1
      then if fr.fin then done (ok (fr.payload, c)) else go_on (some fr.payload) c
      else if fr.opcode == 0x8
      then done (err eof)
      else if fr.opcode == 0x9
      then answered none (write_client_control_frame net 0xA fr.payload c)
      else go_on none c
  next_frame (some buf) fr c =
      if fr.opcode == 0x0
      then if ltb max_web_socket_payload_bytes (length buf + length fr.payload)
        then done (err message_too_large)
        else if fr.fin
        then done (ok (buf ++ fr.payload, c))
        else go_on (some (buf ++ fr.payload)) c
      else if fr.opcode == 0x8
      then done (err eof)
      else if fr.opcode == 0x9
      then answered (some buf) (write_client_control_frame net 0xA fr.payload c)
      else go_on (some buf) c

  -- Both loops, on fuel; `none` means that the fuel ran out.
  unfoldable pub read_loop : ℕ → Option (List ℕ) → Conn → Option (Result (List ℕ × Conn))
  unfolding next_frame read_server_frame
  read_loop zero buf c = none
  read_loop (suc fuel) buf c = elim (read_server_frame c.incoming) [
    | err e ↦ some (err e)
    | ok (fr, left) ↦ elim (next_frame buf fr (record c { incoming = left })) [
      | done r ↦ some r
      | go_on buf' c' ↦ read_loop fuel buf' c'
    ]
  ]

  -- Every frame takes two bytes at least, so as many rounds as there are bytes, and one more, are
  -- enough.
  unfoldable pub read_ws_text : Conn → Option (Result (List ℕ × Conn))
  unfolding read_loop
  read_ws_text c = read_loop (suc (length c.incoming)) none c
