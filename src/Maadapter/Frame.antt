-- ===== src/Maadapter/Frame.antt =====
-- internal/maadapter/direct.go: the frames of the WebSocket, `readServerFrame` and `writeClientFrame`.
-- Bytes are numbers below 256, and what the connection delivers is a list of them.
pub mod Bits
pub mod RoundTrip
pub mod Reads
use Prim.Native.Nat.{bit_and, bit_or, bit_xor}
use ma_dlna.Base.{
  ℕ, zero, suc, ◌+◌, ◌*◌, ◌/◌, ◌%◌, Bool, true, false, not, List, [], ◌∷◌, ◌++◌, ◌==◌, ltb, leb,
  length, take, drop, get_or, if◌then◌else◌,
}

-- The errors of a connection; `eof` is Go's `io.EOF`, also for a close frame.
pub data Error : Type 0 where
  eof : Error
  unexpected_eof : Error
  frame_too_large : ℕ → Error
  message_too_large : Error
  random_failed : Error
  write_failed : Error

pub data Result {ℓ} (A : Type ℓ) : Type ℓ where
  ok : A → Result A
  err : Error → Result A

infixl 5 ◌>>=◌
abbrev pub ◌>>=◌ {ℓ κ} : {A : Type ℓ} {B : Type κ} → Result A → (A → Result B) → Result B
ok a >>= f = f a
err e >>= f = err e

pub record Frame : Type 0 where
  pub fin : Bool
  pub opcode : ℕ
  pub payload : List ℕ

abbrev pub max_web_socket_payload_bytes : ℕ
max_web_socket_payload_bytes = 16777216

-- `binary.BigEndian.PutUint16`
unfoldable pub put_uint16 : ℕ → List ℕ
put_uint16 n = (n / 256 % 256) ∷ (n % 256) ∷ []

-- `binary.BigEndian.PutUint64`
unfoldable pub put_uint64 : ℕ → List ℕ
put_uint64 n =
    (n / 72057594037927936 % 256)
    ∷ (n / 281474976710656 % 256)
    ∷ (n / 1099511627776 % 256)
    ∷ (n / 4294967296 % 256)
    ∷ (n / 16777216 % 256)
    ∷ (n / 65536 % 256)
    ∷ (n / 256 % 256)
    ∷ (n % 256)
    ∷ []

-- `binary.BigEndian.Uint16` and `Uint64`, with what stands before as `acc`
unfoldable pub big_endian : ℕ → List ℕ → ℕ
big_endian acc [] = acc
big_endian acc (b ∷ bs) = big_endian (acc * 256 + b) bs

-- `io.ReadFull` into `n` bytes, with the bytes that are left.
unfoldable pub read_full : ℕ → List ℕ → Result (List ℕ × List ℕ)
read_full zero s = ok ([], s)
read_full (suc n) [] = err eof
read_full (suc n) (b ∷ bs) =
    if leb n (length bs) then ok (b ∷ take n bs, drop n bs) else err unexpected_eof

-- The masking of byte `i` and those after it.
unfoldable pub apply_mask : List ℕ → ℕ → List ℕ → List ℕ
apply_mask mask i [] = []
apply_mask mask i (b ∷ bs) = bit_xor b (get_or mask (i % 4) 0) ∷ apply_mask mask (suc i) bs

-- the `switch n` of `readServerFrame`
unfoldable pub read_length : ℕ → List ℕ → Result (ℕ × List ℕ)
unfolding read_full big_endian
read_length n s =
    if n == 126
    then (do (ext, s') ← read_full 2 s; ok (big_endian 0 ext, s'))
    else if n == 127
    then (do (ext, s') ← read_full 8 s; ok (big_endian 0 ext, s'))
    else ok (n, s)

-- What follows the length: the mask, if there is one, and the payload.
unfoldable pub read_payload : Bool → ℕ → List ℕ → Result (List ℕ × List ℕ)
unfolding read_full apply_mask
read_payload false n s = read_full n s
read_payload true n s = do
  (mask, s') ← read_full 4 s
  (masked, s'') ← read_full n s'
  ok (apply_mask mask 0 masked, s'')

-- `if n > maxWebSocketPayloadBytes`, before the rest of the frame
unfoldable pub read_limited : Bool → ℕ → List ℕ → Result (List ℕ × List ℕ)
unfolding read_payload
read_limited masked n s =
    if ltb max_web_socket_payload_bytes n then err (frame_too_large n) else read_payload masked n s

unfoldable pub read_server_frame : List ℕ → Result (Frame × List ℕ)
unfolding read_full read_length read_limited
read_server_frame s = do
  (header, s₁) ← read_full 2 s
  let h0 = get_or header 0 0
  let h1 = get_or header 1 0
  (n, s₂) ← read_length (bit_and h1 0x7f) s₁
  (payload, s₃) ← read_limited (not (bit_and h1 0x80 == 0)) n s₂
  ok (record { fin = not (bit_and h0 0x80 == 0); opcode = bit_and h0 0x0f; payload = payload }, s₃)

-- the second byte and the longer length, by `switch`
unfoldable pub length_bytes : ℕ → List ℕ
unfolding put_uint16 put_uint64
length_bytes n =
    if ltb n 126
    then bit_or 0x80 n ∷ []
    else if leb n 65535
    then bit_or 0x80 126 ∷ put_uint16 n
    else bit_or 0x80 127 ∷ put_uint64 n

-- the header, with the mask at its end
unfoldable pub frame_header : List ℕ → ℕ → ℕ → List ℕ
unfolding length_bytes
frame_header mask opcode n = bit_or 0x80 opcode ∷ (length_bytes n ++ mask)

-- All that `writeClientFrame` writes: the header, then the masked payload.
unfoldable pub client_frame : List ℕ → ℕ → List ℕ → List ℕ
unfolding frame_header apply_mask
client_frame mask opcode payload =
    frame_header mask opcode (length payload) ++ apply_mask mask 0 payload
