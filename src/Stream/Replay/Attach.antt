-- ===== src/Stream/Replay/Attach.antt =====
-- What a client that attaches is sent, against the history of the generation.
use mathlib.Core.List.{append-nil, append_assoc, flatten}
use native.Mathlib.Decide.{dec_lt}
use native.Mathlib.Decide.{ℕ_discrete}
use ma_dlna.Base.{
  ◌⊎◌, inl, inr, ℕ, ◌+◌, ◌-◌, ◌≤◌, min, max, List, [], ◌∷◌, ◌++◌, ◌≡◌, refl, sym, ◌∙◌, ap₂, inl,
  inr, arith, length, take, drop, replicate, get_elem?, ltb, leb, if◌then◌else◌, length-take,
  length-drop, length-replicate, get_elem?-take, get_elem?-drop, get_elem?_of_ge, list_ext,
  take-take, take_of_length-le, nil_of_length,
}
use ma_dlna.Base.Int.{ℤ, pos, pos_part, sub_ℕ, ltb_ℤ}
use ma_dlna.Stream.Ring.{read, write_position}
use ma_dlna.Stream.Ring.Refine.{Represents, Reads, read-Reads}
use ma_dlna.Stream.Gen.{Gen}
use ma_dlna.Stream.Gen.InitSegment.{Holds, segment_of_Holds}
use ma_dlna.Stream.Replay.{StreamConfig, allow_replay_bytes, send_init, send_prebuffer, replay}

-- A read of everything from a position on is the rest of the history.
Reads-drop :
    (h : List ℕ) (from n : ℕ) (buf out : List ℕ)
    → Reads h from buf (n, out)
    → n ≡ length h - from
    → take n out ≡ drop from h
Reads-drop h from n buf out v e =
    list_ext _ _ same ∙ take_of_length-le n (drop from h) (omega (arith, length-drop from h))
  where
    same : (i : ℕ) → get_elem? (take n out) i ≡ get_elem? (take n (drop from h)) i
    same i = elim (dec_lt i n) [
      | yes p ↦
          let shown = v.bytes i in
          ground (
            arith,
            shown,
            get_elem?-take n i out,
            get_elem?-take n i (drop from h),
            get_elem?-drop from i h,
          )
      | no p ↦
          get_elem?_of_ge (take n out) i (omega (arith, length-take n out))
          ∙ sym (
              get_elem?_of_ge (take n (drop from h)) i (omega (arith, length-take n (drop from h))))
    ]

-- the bytes allowed out of a budget, where 0 stands for no budget
abbrev pub allowed : ℕ → ℕ → ℕ → ℕ
allowed n budget left = if leb budget 0 then n else min n left

allow_lem : (n budget left : ℕ) → (allow_replay_bytes n budget left).0 ≡ allowed n budget left
unfolding allow_replay_bytes
allow_lem n budget left = ground arith

allow_rest :
    (n budget : ℕ) → (allow_replay_bytes n budget budget).1 ≡ budget - allowed n budget budget
unfolding allow_replay_bytes
allow_rest n budget = ground arith

module _ (cfg : StreamConfig) (gen : Gen) (h : List ℕ) where
  -- the length of the prefix and of the suffix of the history that a client is sent
  abbrev pub prefix_sent : ℕ
  prefix_sent =
      allowed (min gen.init_buf_limit (length h)) cfg.max_replay_bytes cfg.max_replay_bytes

  abbrev pub suffix_sent : ℕ
  suffix_sent =
      min (allowed cfg.prebuffer_bytes cfg.max_replay_bytes (cfg.max_replay_bytes - prefix_sent))
        (min gen.ring.size (length h - prefix_sent))

module _ (cfg : StreamConfig) (gen : Gen) (h : List ℕ) (ring : Represents gen.ring h)
    (seg : Holds gen h) where
  send_init_lem :
      let (first, sent, remaining) = send_init cfg gen in
      (flatten first ≡ take (prefix_sent cfg gen h) h)
      × (sent ≡ (prefix_sent cfg gen h))
      × (remaining ≡ cfg.max_replay_bytes - (prefix_sent cfg gen h))
  unfolding send_init flatten
  send_init_lem =
      let held = take gen.init_buf_limit h in
      let n = min gen.init_buf_limit (length h) in
      let budget = cfg.max_replay_bytes in
      ground (
        arith,
        segment_of_Holds gen h seg,
        length-take gen.init_buf_limit h,
        allow_lem (length held) budget budget,
        allow_rest (length held) budget,
        allow_lem n budget budget,
        allow_rest n budget,
        take-take (prefix_sent cfg gen h) gen.init_buf_limit h,
        append-nil (take (prefix_sent cfg gen h) h),
      )

chunk_lem :
    (p n : ℕ) (out rest : List ℕ)
    → n ≤ p
    → n ≡ length rest
    → take n out ≡ rest
    → flatten (if ltb 0 p then (if ltb 0 n then take n out ∷ [] else []) else []) ≡ rest
unfolding flatten
chunk_lem p n out rest le e same = ground (arith, append-nil rest, nil_of_length rest)

-- where the prebuffer starts
back_to : ℕ → ℕ → ℕ → ℤ
back_to wp p sent = let back = sub_ℕ wp p in if ltb_ℤ back (pos sent) then pos sent else back

pos_part-back_to : (wp p sent : ℕ) → pos_part (back_to wp p sent) ≡ max (wp - p) sent
unfolding back_to
pos_part-back_to wp p sent = ground arith

send_prebuffer_lem :
    (gen : Gen) (h : List ℕ) (p sent : ℕ)
    → Represents gen.ring h
    → sent ≤ length h
    → let n = min p (min gen.ring.size (length h - sent)) in
      flatten (send_prebuffer gen p sent) ≡ drop (length h - n) h
unfolding send_prebuffer write_position back_to
send_prebuffer_lem gen h p sent v le =
    let start = back_to gen.ring.write p sent in
    let r = read gen.ring start (replicate p 0) in
    let from = max (pos_part start) (length h - gen.ring.size) in
    let n = min p (min gen.ring.size (length h - sent)) in
    let got = read-Reads gen.ring h start (replicate p 0) v in
    let spot : from ≡ length h - n =
      omega (arith, pos_part-back_to gen.ring.write p sent, v.counted, v.positive) in
    let count : r.0 ≡ length h - from = omega (
      arith,
      got.count,
      length-replicate p (let z : ℕ = 0 in z),
      pos_part-back_to gen.ring.write p sent,
      v.counted,
    ) in
    rw (← spot) (
      chunk_lem p r.0 r.1 (drop from h)
        (omega (arith, got.count, length-replicate p (let z : ℕ = 0 in z)))
        (omega (arith, count, length-drop from h))
        (Reads-drop h from r.0 (replicate p 0) r.1 got count))

flatten-append : (xs ys : List (List ℕ)) → flatten (xs ++ ys) ≡ flatten xs ++ flatten ys
unfolding flatten
flatten-append [] ys = refl
flatten-append (x ∷ xs) ys = rw (flatten-append xs ys, append_assoc x (flatten xs) (flatten ys))

-- what a client that attaches is sent before the live chunks
pub record Attached (cfg : StreamConfig) (gen : Gen) (h : List ℕ) (sent : List ℕ) (a n : ℕ)
    : Type 0 where
  pub bytes : sent ≡ take a h ++ drop (length h - n) h
  pub no_overlap : a + n ≤ length h
  pub in_segment : a ≤ gen.init_buf_limit
  pub in_prebuffer : n ≤ cfg.prebuffer_bytes
  pub in_budget : (cfg.max_replay_bytes ≡ 0) ⊎ (a + n ≤ cfg.max_replay_bytes)

-- A client that attaches to a generation is sent a prefix of its output, then the newest bytes up to
-- the live point: no byte is sent twice, the prefix fits the init segment, the suffix the prebuffer,
-- and both together the replay budget if there is one. The two lengths are `prefix_sent` and
-- `suffix_sent`, which take as much as these limits and the ring allow.
pub replay-Attached :
    (cfg : StreamConfig) (gen : Gen) (h : List ℕ) (ring : Represents gen.ring h) (seg : Holds gen h)
    → Attached cfg gen h (flatten (replay cfg gen)) (prefix_sent cfg gen h) (suffix_sent cfg gen h)
unfolding replay
replay-Attached cfg gen h ring seg =
    let a = prefix_sent cfg gen h in
    let (head, sent, left) = send_init_lem cfg gen h ring seg in
    let first = (send_init cfg gen).0 in
    let p = allowed cfg.prebuffer_bytes cfg.max_replay_bytes (cfg.max_replay_bytes - a) in
    record {
      bytes =
          rw
            (
              sent,
              left,
              allow_lem cfg.prebuffer_bytes cfg.max_replay_bytes (cfg.max_replay_bytes - a),
            )
            (flatten-append first (send_prebuffer gen p a)
              ∙ ap₂ ◌++◌ head (send_prebuffer_lem gen h p a ring (ground arith)));
      no_overlap = ground arith;
      in_segment = ground arith;
      in_prebuffer = ground arith;
      in_budget = elim (ℕ_discrete cfg.max_replay_bytes 0) [
        | yes e ↦ inl e
        | no b ↦ inr (ground arith)
      ];
    }
