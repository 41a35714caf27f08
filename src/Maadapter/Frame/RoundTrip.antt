-- ===== src/Maadapter/Frame/RoundTrip.antt =====
-- internal/maadapter/direct.go: a frame that the client writes, in the bytes of `writeClientFrame`, is
-- read back by `readServerFrame`.
use Prim.Native.Nat.{bit_and, bit_or}
use mathlib.Core.List.{append_assoc}
use native.Mathlib.Decide.{dec_lt}
use ma_dlna.Base.{
  ℕ, zero, suc, ◌^◌, ◌≤◌, ◌<◌, ◌≡◌, refl, ap, ap₂, true, not, List, [], ◌∷◌, ◌++◌, ◌==◌, length,
  length-append, take, drop, arith,
}
use ma_dlna.Maadapter.Frame.{
  ok, put_uint16, put_uint64, big_endian, read_full, apply_mask, read_length, read_payload,
  read_limited, read_server_frame, length_bytes, frame_header, client_frame,
  max_web_socket_payload_bytes,
}
use ma_dlna.Maadapter.Frame.Bits.{opcode_bits, length_bits, bit_xor_twice}

take-length-append : (xs rest : List ℕ) → take (length xs) (xs ++ rest) ≡ xs
take-length-append [] rest = refl
take-length-append (x ∷ xs) rest = ap (◌∷◌ x) (take-length-append xs rest)

drop-length-append : (xs rest : List ℕ) → drop (length xs) (xs ++ rest) ≡ rest
drop-length-append [] rest = refl
drop-length-append (x ∷ xs) rest = drop-length-append xs rest

-- `io.ReadFull` of as many bytes as stand there.
pub read_full-append :
    (n : ℕ) (xs rest : List ℕ) → length xs ≡ n → read_full n (xs ++ rest) ≡ ok (xs, rest)
unfolding read_full
read_full-append zero [] rest e = refl
read_full-append zero (x ∷ xs) rest e = absurd (omega arith)
read_full-append (suc n) [] rest e = absurd (omega arith)
read_full-append (suc n) (x ∷ xs) rest e =
    let same : length xs ≡ n = omega arith in
    rw (← same) (
      ground (arith, length-append xs rest, take-length-append xs rest, drop-length-append xs rest))

pub length-apply_mask :
    (mask : List ℕ) (i : ℕ) (bs : List ℕ) → length (apply_mask mask i bs) ≡ length bs
unfolding apply_mask
length-apply_mask mask i [] = refl
length-apply_mask mask i (b ∷ bs) = ap suc (length-apply_mask mask (suc i) bs)

apply_mask_twice :
    (mask : List ℕ) (i : ℕ) (bs : List ℕ) → apply_mask mask i (apply_mask mask i bs) ≡ bs
unfolding apply_mask
apply_mask_twice mask i [] = refl
apply_mask_twice mask i (b ∷ bs) = ap₂ ◌∷◌ (bit_xor_twice b _) (apply_mask_twice mask (suc i) bs)

read_payload-masked :
    (mask payload rest : List ℕ)
    → length mask ≡ 4
    → read_payload true (length payload) (mask ++ apply_mask mask 0 payload ++ rest)
      ≡ ok (payload, rest)
unfolding read_payload
read_payload-masked mask payload rest four =
    rw
      (
        append_assoc mask (apply_mask mask 0 payload) rest,
        read_full-append 4 mask (apply_mask mask 0 payload ++ rest) four,
        read_full-append (length payload) (apply_mask mask 0 payload) rest
            (length-apply_mask mask 0 payload),
        apply_mask_twice mask 0 payload,
      )
      refl

-- The second byte `h` with the longer length after it says `n`, and that a mask follows.
record Announces (n : ℕ) (bytes : List ℕ) : Type 0 where
  first : ℕ
  ext : List ℕ
  split : bytes ≡ first ∷ ext
  masked : bit_and first 0x80 ≡ 128
  read : (s : List ℕ) → read_length (bit_and first 0x7f) (ext ++ s) ≡ ok (n, s)

short-Announces : (n : ℕ) → n < 126 → Announces n (length_bytes n)
unfolding length_bytes read_length
short-Announces n h =
    let bits = length_bits n (omega arith) in
    record {
      first = bit_or 0x80 n;
      ext = [];
      split = ground arith;
      masked = bits.1;
      read = λ s. rw bits.0 (ground arith);
    }

two-Announces : (n : ℕ) → 126 ≤ n → n ≤ 65535 → Announces n (length_bytes n)
unfolding length_bytes read_length put_uint16 read_full big_endian
two-Announces n h k = record {
  first = 254;
  ext = put_uint16 n;
  split = ground arith;
  masked = refl;
  read = λ s. ground arith;
}

-- The eight bytes of a length.
big_endian-put_uint64 : (n : ℕ) → n < 2 ^ 64 → big_endian 0 (put_uint64 n) ≡ n
unfolding big_endian put_uint64
big_endian-put_uint64 n h = omega arith

eight-Announces : (n : ℕ) → 65535 < n → n < 2 ^ 64 → Announces n (length_bytes n)
unfolding length_bytes read_length put_uint64 read_full
eight-Announces n h k = record {
  first = 255;
  ext = put_uint64 n;
  split = ground arith;
  masked = refl;
  read = λ s. ground (arith, big_endian-put_uint64 n);
}

length_bytes-Announces : (n : ℕ) → n < 2 ^ 64 → Announces n (length_bytes n)
length_bytes-Announces n h = elim (dec_lt n 126) [
  | yes short ↦ short-Announces n short
  | no long ↦ elim (dec_lt 65535 n) [
    | yes eight ↦ eight-Announces n eight h
    | no two ↦ two-Announces n (omega arith) (omega arith)
  ]
]

-- A frame whose length and payload are read.
pub read_server_frame_of_parts :
    (h0 h1 n : ℕ) (s t payload rest : List ℕ)
    → read_length (bit_and h1 0x7f) s ≡ ok (n, t)
    → read_limited (not (bit_and h1 0x80 == 0)) n t ≡ ok (payload, rest)
    → read_server_frame (h0 ∷ h1 ∷ s)
      ≡ ok (
        record { fin = not (bit_and h0 0x80 == 0); opcode = bit_and h0 0x0f; payload = payload },
        rest,
      )
unfolding read_server_frame
read_server_frame_of_parts h0 h1 n s t payload rest len body =
    rw (read_full-append 2 (h0 ∷ h1 ∷ []) s refl, len, body) refl

read_limited-masked :
    (mask payload rest : List ℕ) (h1 : ℕ)
    → length mask ≡ 4
    → length payload ≤ max_web_socket_payload_bytes
    → bit_and h1 0x80 ≡ 128
    → read_limited
        (not (bit_and h1 0x80 == 0))
        (length payload)
        (mask ++ apply_mask mask 0 payload ++ rest)
      ≡ ok (payload, rest)
unfolding read_limited
read_limited-masked mask payload rest h1 four small masked =
    rw masked (ground (arith, read_payload-masked mask payload rest four))

-- A frame that the client writes, with any opcode below 16, a mask of four bytes and a payload of at
-- most 16 MiB, is read back by `readServerFrame` as a final frame with the same opcode and payload,
-- and the bytes that follow are left for the next read.
pub client_frame-read_server_frame :
    (mask payload rest : List ℕ) (opcode : ℕ)
    → length mask ≡ 4
    → opcode < 16
    → length payload ≤ max_web_socket_payload_bytes
    → read_server_frame (client_frame mask opcode payload ++ rest)
      ≡ ok (record { fin = true; opcode = opcode; payload = payload }, rest)
unfolding client_frame frame_header
client_frame-read_server_frame mask payload rest opcode four low small =
    let a = length_bytes-Announces (length payload) (omega arith) in
    let bits = opcode_bits opcode low in
    let body = mask ++ apply_mask mask 0 payload in
    rw
      (
        a.split,
        append_assoc a.ext mask (apply_mask mask 0 payload),
        append_assoc a.ext body rest,
        read_server_frame_of_parts (bit_or 0x80 opcode) a.first (length payload)
            (a.ext ++ (body ++ rest)) (body ++ rest) payload rest (a.read (body ++ rest))
            (read_limited-masked mask payload rest a.first four small a.masked),
        bits.0,
        bits.1,
      )
      refl
