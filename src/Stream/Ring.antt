-- ===== src/Stream/Ring.antt =====
-- internal/stream/ringbuffer.go: the bytes of the encoder that were written last.
-- A method that mutates `*RingBuffer` returns the new record; the lock makes each one atomic.
pub mod Refine
use ma_dlna.Base.{
  ℕ, zero, suc, ◌+◌, ◌-◌, ◌%◌, ◌^◌, List, [], ◌∷◌, length, get_or, set, replicate, ltb, leb,
  if◌then◌else◌,
}
use ma_dlna.Base.Int.{ℤ, pos, pos_part, ltb_ℤ}

-- `RingBuffer`. `write` counts all bytes ever written: it is a Go int, kept as its 64-bit pattern.
pub record Ring : Type 0 where
  pub buf : List ℕ
  pub size : ℕ
  pub write : ℕ

unfoldable pub new : ℕ → Ring
new size = record { buf = replicate size 0; size = size; write = 0 }

write_byte : Ring → ℕ → Ring
write_byte rb b = record rb {
  buf = set rb.buf (rb.write % rb.size) b;
  write = (rb.write + 1) % 2 ^ 64;
}

unfoldable pub write : Ring → List ℕ → Ring
unfolding write_byte
write rb [] = rb
write rb (b ∷ bytes) = write (write_byte rb b) bytes

-- The loop of `Read`, with the rounds left first: `buf[i] = rb.buf[(startPos+i)%rb.size]`.
pub copy_out : Ring → ℕ → ℕ → ℕ → List ℕ → List ℕ
copy_out rb start zero i buf = buf
copy_out rb start (suc k) i buf =
    copy_out rb start k (i + 1) (set buf i (get_or rb.buf ((start + i) % rb.size) 0))

-- the position at which `Read` starts: not below 0, nor below the oldest byte held
pub read_from : Ring → ℤ → ℕ
read_from rb offset =
    let oldest : ℕ = if ltb rb.size rb.write then rb.write - rb.size else 0 in
    let wanted : ℕ = if ltb_ℤ offset (pos 0) then 0 else pos_part offset in
    if ltb wanted oldest then oldest else wanted

-- the rest of `Read`, from that position
pub read_at : Ring → ℕ → List ℕ → ℕ × List ℕ
read_at rb from buf =
    let left = rb.write - from in
    let available : ℕ = if ltb (length buf) left then length buf else left in
    if leb rb.write from
    then (0, buf)
    else (available, copy_out rb (from % rb.size) available 0 buf)

-- The number of bytes read, and `buf` after them.
pub read : Ring → ℤ → List ℕ → ℕ × List ℕ
read rb offset buf = read_at rb (read_from rb offset) buf

unfoldable pub write_position : Ring → ℕ
write_position rb = rb.write
