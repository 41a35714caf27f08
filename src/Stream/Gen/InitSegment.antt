-- ===== src/Stream/Gen/InitSegment.antt =====
-- The init segment of a generation: the prefix of its output that late clients are given.
use mathlib.Core.List.{append-nil, append_assoc, flatten}
use ma_dlna.Base.{
  ℕ, ◌-◌, ◌≤◌, min, true, List, [], ◌∷◌, ◌++◌, ◌≡◌, refl, sym, ◌∙◌, Option, take-nil, nil_of_length,
  ap, arith, length, take, length-append, length-take, take-append, take_of_length-le, ltb,
  if◌then◌else◌,
}
use ma_dlna.Stream.Gen.{Gen, fresh, get_init_segment, accumulate_init_buf}
use ma_dlna.Base.Int.{ℤ}
use ma_dlna.Stream.Ring.{Ring}

-- the chunks of the output in order
pub accumulate_all : Gen → List (List ℕ) → Gen
accumulate_all gen [] = gen
accumulate_all gen (chunk ∷ chunks) = accumulate_all (accumulate_init_buf gen chunk) chunks

-- `out` is the output so far: the segment is its first `init_buf_limit` bytes, and it is closed
-- once it is full.
pub record Holds (gen : Gen) (out : List ℕ) : Type 0 where
  pub prefix : gen.init_buf ≡ take gen.init_buf_limit out
  pub sized : gen.init_buf_size ≡ length gen.init_buf
  pub closed : gen.init_buf_done ≡ true → gen.init_buf_limit ≤ length out

kept-eq-take : (r : ℕ) (xs : List ℕ) → (if ltb r (length xs) then take r xs else xs) ≡ take r xs
kept-eq-take r xs = ground (arith, take_of_length-le r xs)

full : (n : ℕ) (out chunk : List ℕ) → n ≤ length out → take n (out ++ chunk) ≡ take n out
full n out chunk h =
    let none_left : n - length out ≡ 0 = omega arith in
    rw (take-append n out chunk, none_left) (append-nil (take n out))

pub accumulate-Holds :
    (gen : Gen) (out chunk : List ℕ)
    → Holds gen out
    → Holds (accumulate_init_buf gen chunk) (out ++ chunk)
unfolding accumulate_init_buf
accumulate-Holds gen out chunk v =
    let limit = gen.init_buf_limit in
    let remaining = limit - gen.init_buf_size in
    let left : limit - length out ≡ remaining =
      omega (arith, v.sized, ap length v.prefix, length-take limit out) in
    let kept = kept-eq-take remaining chunk in
    ground (
      arith,
      v.closed,
      kept,
      left,
      full limit out chunk,
      take-append limit out chunk,
      length-append out chunk,
      length-take remaining chunk,
      length-append gen.init_buf (take remaining chunk),
      ap length v.prefix,
      length-take limit out,
    )

pub ring-accumulate : (gen : Gen) (chunk : List ℕ) → (accumulate_init_buf gen chunk).ring ≡ gen.ring
unfolding accumulate_init_buf
ring-accumulate gen chunk = ground arith

limit-accumulate :
    (gen : Gen) (chunk : List ℕ)
    → (accumulate_init_buf gen chunk).init_buf_limit ≡ gen.init_buf_limit
unfolding accumulate_init_buf
limit-accumulate gen chunk = ground arith

-- The output so far grows by each chunk, and the segment stays its prefix.
pub accumulate_all-Holds :
    (gen : Gen) (out : List ℕ) (chunks : List (List ℕ))
    → Holds gen out
    → Holds (accumulate_all gen chunks) (out ++ flatten chunks)
unfolding accumulate_all flatten
accumulate_all-Holds gen out [] v = rw append-nil v
accumulate_all-Holds gen out (chunk ∷ chunks) v = rw (← append_assoc out chunk (flatten chunks)) (
    accumulate_all-Holds (accumulate_init_buf gen chunk) (out ++ chunk) chunks
      (accumulate-Holds gen out chunk v))

limit-accumulate_all :
    (gen : Gen) (chunks : List (List ℕ))
    → (accumulate_all gen chunks).init_buf_limit ≡ gen.init_buf_limit
unfolding accumulate_all
limit-accumulate_all gen [] = refl
limit-accumulate_all gen (chunk ∷ chunks) =
    limit-accumulate_all (accumulate_init_buf gen chunk) chunks ∙ limit-accumulate gen chunk

pub segment_of_Holds :
    (gen : Gen) (out : List ℕ)
    → Holds gen out
    → get_init_segment gen ≡ (take gen.init_buf_limit out, min gen.init_buf_limit (length out))
unfolding get_init_segment
segment_of_Holds gen out v =
    let segment = take gen.init_buf_limit out in
    ground (
      arith,
      v.prefix,
      v.sized,
      ap length v.prefix,
      length-take gen.init_buf_limit out,
      nil_of_length segment,
      nil_of_length gen.init_buf,
    )

-- Whatever chunks the output of a new generation comes in, the init segment is exactly its first
-- `init_buf_limit` bytes, with their number, and it is empty for a limit of 0.
pub init_segment-prefix :
    (ring : Ring) (offset : ℤ) (limit gen_id : ℕ) (start_time : Option ℤ) (chunks : List (List ℕ))
    → get_init_segment (accumulate_all (fresh ring offset limit gen_id start_time) chunks)
      ≡ (take limit (flatten chunks), min limit (length (flatten chunks)))
unfolding fresh
init_segment-prefix ring offset limit gen_id start_time chunks =
    let gen = fresh ring offset limit gen_id start_time in
    let v : Holds gen [] = record {
      prefix = sym (take-nil limit);
      sized = refl;
      closed = λ e. cc e;
    } in
    rw (
      segment_of_Holds _ (flatten chunks) (accumulate_all-Holds gen [] chunks v),
      limit-accumulate_all gen chunks,
    )
