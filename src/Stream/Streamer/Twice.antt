-- ===== src/Stream/Streamer/Twice.antt =====
-- A client that attaches while the encoder is between the init segment and `broadcast` of one chunk, in
-- stream.go: it is sent the chunk twice.
use ma_dlna.Base.{
  ℕ, zero, suc, ◌+◌, ◌-◌, ◌^◌, ◌<◌, ◌≤◌, Bool, false, List, [], ◌∷◌, ◌++◌, refl, String, arith, ◌≡◌,
  ==_self, sym, ◌∙◌, ap, Bool-cases, inl, inr, length, some, eqb, drop, take, length-append,
}
use mathlib.Core.List.{flatten, append-nil, append_assoc}
use ma_dlna.Base.Dict.{lookup, insert, lookup-insert}
use ma_dlna.Stream.Gen.{Gen, Client}
use ma_dlna.Stream.Replay.{StreamConfig, replay, send_init, send_prebuffer, allow_replay_bytes}
use ma_dlna.Stream.Replay.Attach.{Attached, prefix_sent, suffix_sent, replay-Attached}
use ma_dlna.Stream.Streamer.{Streamer}
use ma_dlna.Stream.Streamer.Run.{send, send_all, broadcast, store_chunk, keep_chunk, send_chunk}
use ma_dlna.Stream.Streamer.Serve.{attach_client, attach_status}
use ma_dlna.Stream.Streamer.Steps.{stores, keeps, attaches, sends, step, run}
use ma_dlna.Stream.Streamer.Output.{Fed, store-Half, keep-Fed}

drop-append : (n : ℕ) (h chunk : List ℕ) → n ≤ length h → drop n (h ++ chunk) ≡ drop n h ++ chunk
drop-append zero h chunk le = refl
drop-append (suc n) [] chunk le = absurd (omega (arith, le))
drop-append (suc n) (x ∷ h) chunk le = drop-append n h chunk (omega (arith, le))

send_all-kept :
    (done_first : String → Bool) (chunk : List ℕ) (id : String) (c : Client)
    (clients : List (String × Client))
    → lookup id clients ≡ some c
    → c.cancelled ≡ false
    → length c.ch < 64
    → lookup id (send_all done_first chunk clients).0 ≡ some (record c { ch = c.ch ++ chunk ∷ [] })
unfolding send_all send lookup
send_all-kept done_first chunk id c [] e on room = cc e
send_all-kept done_first chunk id c ((k, c') ∷ clients) e on room = elim (Bool-cases (eqb k id)) [
  | inl same ↦ ground (arith, e, on, room, same)
  | inr other ↦ ground (arith, e, on, room, other, send_all-kept done_first chunk id c clients)
]

send_init-length : (cfg : StreamConfig) (gen : Gen) → length (send_init cfg gen).0 ≤ 1
unfolding send_init
send_init-length cfg gen = ground arith

send_prebuffer-length : (gen : Gen) (p sent : ℕ) → length (send_prebuffer gen p sent) ≤ 1
unfolding send_prebuffer
send_prebuffer-length gen p sent = ground arith

replay-length : (cfg : StreamConfig) (gen : Gen) → length (replay cfg gen) ≤ 2
unfolding replay
replay-length cfg gen =
    let (first, sent, remaining) = send_init cfg gen in
    let p = (allow_replay_bytes cfg.prebuffer_bytes cfg.max_replay_bytes remaining).0 in
    omega (
      arith,
      length-append first (send_prebuffer gen p sent),
      send_init-length cfg gen,
      send_prebuffer-length gen p sent,
    )

flatten-snoc : (xs : List (List ℕ)) (x : List ℕ) → flatten (xs ++ x ∷ []) ≡ flatten xs ++ x
unfolding flatten
flatten-snoc [] x = append-nil x
flatten-snoc (y ∷ xs) x = rw (flatten-snoc xs x, append_assoc y (flatten xs) x)

-- the last bytes of an output that a client is sent with a chunk that they have whole
Attached-chunk :
    (cfg : StreamConfig) (gen : Gen) (h chunk sent : List ℕ) (a n : ℕ)
    → Attached cfg gen (h ++ chunk) sent a n
    → length chunk ≤ n
    → (x : List ℕ) × (sent ≡ x ++ chunk)
Attached-chunk cfg gen h chunk sent a n v le =
    let total = length-append h chunk in
    let from = length (h ++ chunk) - n in
    let head = take a (h ++ chunk) in
    (
      head ++ drop from h,
      v.bytes
          ∙ ap (λ (t : List ℕ). head ++ t) (drop-append from h chunk (omega (arith, total, le)))
          ∙ sym (append_assoc head (drop from h) chunk),
    )

-- what is on the channel of a client that attaches and is sent a chunk
attach-send :
    (done_first : String → Bool) (id sid : String) (a g : ℕ) (chunk : List ℕ) (t : Streamer)
    → attach_status a g t ≡ 200
    → lookup id ((send_chunk done_first g chunk (attach_client id sid a g t).0).gen_at g).clients
      ≡ some (record { cancelled = false; ch = replay t.cfg (t.gen_at g) ++ chunk ∷ [] })
unfolding send_chunk broadcast attach_client
attach-send done_first id sid a g chunk t ok =
    let c : Client = record { cancelled = false; ch = replay t.cfg (t.gen_at g) } in
    let clients = insert id c (t.gen_at g).clients in
    let here : lookup id clients ≡ some c =
      ground (arith, lookup-insert id id c (t.gen_at g).clients) in
    let kept =
      send_all-kept done_first chunk id c clients here refl
        (omega (arith, replay-length t.cfg (t.gen_at g))) in
    rw ok (rw (==_self g) kept)

-- a chunk in the ring and in the init segment
abbrev pub kept : ℕ → List ℕ → Streamer → Streamer
kept g chunk s = (run (stores g chunk ∷ keeps g chunk ∷ []) s).0

-- A client that attaches after a chunk was written into the ring and the init segment, and before it is
-- broadcast, and whose share of the prebuffer takes the whole chunk, is sent the chunk twice in a row: the replay
-- ends with it, and `broadcast` sends it again.
pub attach-twice :
    (done_first : String → Bool) (id sid : String) (a g : ℕ) (chunk h : List ℕ) (s : Streamer)
    → g < s.gen_count
    → Fed (s.gen_at g) h
    → length h + length chunk < 2 ^ 63
    → attach_status a g (kept g chunk s) ≡ 200
    → length chunk ≤ suffix_sent s.cfg ((kept g chunk s).gen_at g) (h ++ chunk)
    → let u = (run (attaches id sid a g ∷ sends done_first g chunk ∷ []) (kept g chunk s)).0 in
      (c : Client) × (x : List ℕ) × (lookup id (u.gen_at g).clients ≡ some c)
      × (flatten c.ch ≡ x ++ chunk ++ chunk)
unfolding run step keep_chunk store_chunk
attach-twice done_first id sid a g chunk h s low f room ok whole =
    let t = keep_chunk g chunk (store_chunk g chunk s) in
    let gen = t.gen_at g in
    let stored = store-Half g chunk h s (low, f) room in
    let fed = (keep-Fed g chunk h (store_chunk g chunk s) stored).1 in
    let (x, ends) =
      Attached-chunk s.cfg gen h chunk (flatten (replay s.cfg gen))
        (prefix_sent s.cfg gen (h ++ chunk)) (suffix_sent s.cfg gen (h ++ chunk))
        (replay-Attached s.cfg gen (h ++ chunk) fed.ring fed.segment) whole in
    (
      record { cancelled = false; ch = replay s.cfg gen ++ chunk ∷ [] },
      x,
      attach-send done_first id sid a g chunk t ok,
      flatten-snoc (replay s.cfg gen) chunk ∙ ap (λ (y : List ℕ). y ++ chunk) ends,
    )
