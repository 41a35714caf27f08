-- ===== src/Stream/Ring/Refine.antt =====
-- A ring holds the end of the history of all bytes written to it.
use native.Mathlib.Nat.{mod-add-mod, mod-eq_of_lt, mod-eq-sub-mod, mod-lt}
use mathlib.Core.List.{append-nil, append_assoc}
use native.Mathlib.Decide.{dec_lt, ℕ_discrete}
use ma_dlna.Base.{
  ℕ, zero, suc, ◌+◌, ◌-◌, ◌%◌, ◌^◌, ◌≤◌, ◌<◌, min, max, true, false, ◌≡◌, refl, ◌∙◌, ap, ◌≢◌, List,
  [], ◌∷◌, ◌++◌, some, length, get_elem?, get_or, set, arith, ltb, leb, ◌&&◌, if◌then◌else◌,
  length-set, length-append, length-replicate, get_elem?-append_left, get_elem?-append_self,
  get_or-set_self, get_or-set_ne, get_elem?-set_self, get_elem?-set_ne,
}
use ma_dlna.Base.Int.{ℤ, pos_part}
use ma_dlna.Stream.Ring.{Ring, new, write_byte, write, copy_out, read_from, read_at, read}

-- `h` is all that was written, oldest first: the ring still has its last `size` bytes.
pub record Represents (rb : Ring) (h : List ℕ) : Type 0 where
  pub storage : length rb.buf ≡ rb.size
  pub positive : 0 < rb.size
  pub counted : rb.write ≡ length h
  pub holds :
      (i : ℕ)
      → i < length h
      → length h ≤ i + rb.size
      → get_elem? h i ≡ some (get_or rb.buf (i % rb.size) 0)

-- A new ring of a positive size represents the empty history.
pub new-Represents : (size : ℕ) → 0 < size → Represents (new size) []
unfolding new
new-Represents size h = record {
  storage = length-replicate size 0;
  positive = h;
  counted = refl;
  holds = λ i p q. elim p [ ];
}

-- Fewer than `s` steps round the ring do not come back to the start.
mod_ne : (s i n : ℕ) → i < n → n < i + s → n % s ≢ i % s
mod_ne s i n h k e = elim (dec_lt (i % s + (n - i)) s) [
  | yes p ↦ omega (arith, e, shift, mod-eq_of_lt p)
  | no p ↦ omega (
    arith,
    e,
    shift,
    mod-eq-sub-mod {n = i % s + (n - i)} {m = s} (omega arith),
    mod-eq_of_lt {n = i % s + (n - i) - s} {m = s} (omega (arith, bound)),
  )
]
  where
    bound : i % s < s
    bound = mod-lt i (omega arith)

    shift : n % s ≡ (i % s + (n - i)) % s
    shift = rw mod-add-mod (ap (λ k. k % s) (omega arith))

module _ (rb : Ring) (b : ℕ) (h : List ℕ) (v : Represents rb h) (room : length h + 1 < 2 ^ 63) where
  write_byte-holds :
      (i : ℕ)
      → i < length h + 1
      → length h + 1 ≤ i + rb.size
      → get_elem? (h ++ b ∷ []) i
        ≡ some (get_or (set rb.buf (rb.write % rb.size) b) (i % rb.size) 0)
  write_byte-holds i p q = elim (ℕ_discrete i (length h)) [
    | yes e ↦
        rw (v.counted, e, get_elem?-append_self h b)
          (rw
            (get_or-set_self rb.buf (length h % rb.size) b 0
              (omega (arith, v.storage, mod-lt (length h) v.positive)))
            refl)
    | no e ↦
        rw (get_elem?-append_left h (b ∷ []) i (omega arith), v.counted)
          (rw
            (get_or-set_ne rb.buf (length h % rb.size) (i % rb.size) b 0
              (mod_ne rb.size i (length h) (omega arith) (omega arith)))
            (v.holds i (omega arith) (omega arith)))
  ]

  write_byte-Represents : Represents (write_byte rb b) (h ++ b ∷ [])
  unfolding write_byte
  write_byte-Represents = record {
    storage = length-set rb.buf (rb.write % rb.size) b ∙ v.storage;
    positive = v.positive;
    counted = omega (arith, v.counted, length-append h (b ∷ []));
    holds = λ i p q.
        write_byte-holds i (omega (arith, length-append h (b ∷ [])))
          (omega (arith, length-append h (b ∷ [])));
  }

-- Writing appends to the history, as long as the count of bytes fits a Go int.
pub write-Represents :
    (rb : Ring) (bytes h : List ℕ)
    → Represents rb h
    → length h + length bytes < 2 ^ 63
    → Represents (write rb bytes) (h ++ bytes)
unfolding write
write-Represents rb [] h v room = rw append-nil v
write-Represents rb (b ∷ bytes) h v room = rw (← append_assoc h (b ∷ []) bytes) (
    write-Represents (write_byte rb b) bytes (h ++ b ∷ [])
      (write_byte-Represents rb b h v (omega arith)) (omega (arith, length-append h (b ∷ []))))

get_elem?-copy_out :
    (rb : Ring) (start k i j : ℕ) (buf : List ℕ)
    → i + k ≤ length buf
    → get_elem? (copy_out rb start k i buf) j ≡ (
        if leb i j && ltb j (i + k)
        then some (get_or rb.buf ((start + j) % rb.size) 0)
        else get_elem? buf j)
unfolding copy_out
get_elem?-copy_out rb start zero i j buf h = ground arith
get_elem?-copy_out rb start (suc k) i j buf h =
    let v = get_or rb.buf ((start + i) % rb.size) 0 in
    ground (
      arith,
      get_elem?-copy_out rb start k (i + 1) j (set buf i v),
      length-set buf i v,
      get_elem?-set_self buf i v,
      get_elem?-set_ne buf {i = i} {j = j} v,
    )

-- where a read of the history starts, and how many bytes it gets
abbrev pub first : Ring → List ℕ → ℤ → ℕ
first rb h offset = max (pos_part offset) (length h - rb.size)

read_from-eq-first :
    (rb : Ring) (h : List ℕ) (offset : ℤ)
    → rb.write ≡ length h
    → read_from rb offset ≡ first rb h offset
unfolding read_from
read_from-eq-first rb h offset e = ground arith

-- what a read from a position returns, seen against the history
pub record Reads (h : List ℕ) (from : ℕ) (buf : List ℕ) (r : ℕ × List ℕ) : Type 0 where
  pub count : r.0 ≡ min (length h - from) (length buf)
  pub bytes :
      (j : ℕ) → get_elem? r.1 j ≡ (if ltb j r.0 then get_elem? h (from + j) else get_elem? buf j)

read_at-eq :
    (rb : Ring) (from n : ℕ) (buf : List ℕ)
    → n ≡ min (rb.write - from) (length buf)
    → read_at rb from buf ≡ (n, copy_out rb (from % rb.size) n 0 buf)
unfolding read_at copy_out
read_at-eq rb from n buf e = elim (dec_lt from rb.write) [
  | yes p ↦
      let cut : (if ltb (length buf) (rb.write - from) then length buf else rb.write - from) ≡ n =
        ground arith in
      let go : leb rb.write from ≡ false = ground arith in rw (go, cut)
  | no p ↦
      let none_left : n ≡ 0 = omega arith in
      let stop : leb rb.write from ≡ true = ground arith in rw (stop, none_left)
]

read_at-Reads :
    (rb : Ring) (h : List ℕ) (from : ℕ) (buf : List ℕ)
    → Represents rb h
    → length h ≤ from + rb.size
    → Reads h from buf (read_at rb from buf)
read_at-Reads rb h from buf v old =
    let n : ℕ = min (rb.write - from) (length buf) in
    rw (read_at-eq rb from n buf refl) (record {
      count = omega (arith, v.counted);
      bytes = λ j.
          let copied = get_elem?-copy_out rb (from % rb.size) n 0 j buf in
          let shown = rw mod-add-mod at copied in
          ground (arith, v.counted, shown, v.holds (from + j));
    })

-- `Read` returns the bytes of the history from the offset, or from the oldest byte still held if
-- the offset is older or negative: as many as the history and the buffer have. The rest of the
-- buffer stays as it was.
pub read-Reads :
    (rb : Ring) (h : List ℕ) (offset : ℤ) (buf : List ℕ)
    → Represents rb h
    → Reads h (first rb h offset) buf (read rb offset buf)
unfolding read
read-Reads rb h offset buf v =
    rw (read_from-eq-first rb h offset v.counted)
      (read_at-Reads rb h (first rb h offset) buf v (omega arith))
