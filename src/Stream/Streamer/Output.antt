-- ===== src/Stream/Streamer/Output.antt =====
-- What the output of an encoder leaves in its generation, and what a client that attaches gets of it.
use mathlib.Core.List.{flatten, append-nil, append_assoc}
use ma_dlna.Base.{
  ℕ, ◌+◌, ◌^◌, ◌<◌, Bool, Option, sym, take-nil, length-append, ==_self, List, [], ◌∷◌, ◌++◌, refl,
  String, arith, All, ◌∙◌, Bool-cases, inl, inr, length,
}
use ma_dlna.Base.Int.{ℤ}
use ma_dlna.Stream.Ring.{new as new_ring}
use ma_dlna.Stream.Ring.Refine.{Represents, new-Represents, write-Represents}
use ma_dlna.Stream.Gen.{Gen, fresh}
use ma_dlna.Stream.Gen.InitSegment.{Holds, accumulate-Holds, ring-accumulate}
use ma_dlna.Stream.Replay.{replay}
use ma_dlna.Stream.Replay.Attach.{Attached, prefix_sent, suffix_sent, replay-Attached}
use ma_dlna.Stream.Streamer.{Streamer}
use ma_dlna.Stream.Streamer.Run.{Gaps, run_chunk, store_chunk, keep_chunk, send_chunk}
use ma_dlna.Stream.Streamer.Steps.{Event, sends, step, run}
use ma_dlna.Stream.Streamer.Others.{IsOutput, Same, run-Kept}

-- `h` is all the output of a generation: its ring and its init segment are taken from it.
pub record Fed (gen : Gen) (h : List ℕ) : Type 0 where
  pub ring : Represents gen.ring h
  pub segment : Holds gen h

-- A chunk, and the sections of others in its gaps and after it.
abbrev pub Round : Type 0
Round = List ℕ × (ℕ → List Event)

abbrev gaps_of : (ℕ → List Event) → Gaps
gaps_of es i s = (run (es i) s).0

-- the chunks of an encoder in order, and what others do meanwhile
pub run_chunks : (String → Bool) → ℕ → ℕ → List Round → Streamer → Streamer
run_chunks done_first a g [] s = s
run_chunks done_first a g ((chunk, es) ∷ rounds) s =
    let s' = run_chunk (gaps_of es) done_first a g chunk s in
    run_chunks done_first a g rounds (run (es 3) s').0

-- the output
unfoldable pub written : List Round → List ℕ
written [] = []
written ((chunk, es) ∷ rounds) = chunk ++ written rounds

-- The others do not write output of the generation.
abbrev pub AreOthers : ℕ → Round → Type 0
AreOthers g r = (i : ℕ) → All (λ e. ¬ IsOutput g e) (r.1 i)

Same-Holds : (gen gen' : Gen) (h : List ℕ) → Same gen gen' → Holds gen h → Holds gen' h
Same-Holds gen gen' h e v = record {
  prefix = rw (e.buf, e.limit) v.prefix;
  sized = rw (e.size, e.buf) v.sized;
  closed = λ c. rw e.limit (v.closed (sym e.closed ∙ c));
}

Same-Fed : (gen gen' : Gen) (h : List ℕ) → Same gen gen' → Fed gen h → Fed gen' h
Same-Fed gen gen' h e f = record {
  ring = rw e.ring f.ring;
  segment = Same-Holds gen gen' h e f.segment;
}

-- between the ring and the init segment
pub record Half (gen : Gen) (h chunk : List ℕ) : Type 0 where
  ring : Represents gen.ring (h ++ chunk)
  segment : Holds gen h

module _ (g : ℕ) where
  -- The generation is there, and has had the output.
  abbrev pub HasFed : List ℕ → Streamer → Type 0
  HasFed h s = (g < s.gen_count) × Fed (s.gen_at g) h

  pub store-Half :
      (chunk h : List ℕ) (s : Streamer)
      → HasFed h s
      → length h + length chunk < 2 ^ 63
      → (g < (store_chunk g chunk s).gen_count) × Half ((store_chunk g chunk s).gen_at g) h chunk
  unfolding store_chunk
  store-Half chunk h s (low, f) room = rw (==_self g) (
    low,
    record {
      ring = write-Represents (s.gen_at g).ring chunk h f.ring room;
      segment = record {
        prefix = f.segment.prefix;
        sized = f.segment.sized;
        closed = f.segment.closed;
      };
    },
  )

  pub keep-Fed :
      (chunk h : List ℕ) (s : Streamer)
      → (g < s.gen_count) × Half (s.gen_at g) h chunk
      → HasFed (h ++ chunk) (keep_chunk g chunk s)
  unfolding keep_chunk
  keep-Fed chunk h s (low, f) = rw (==_self g) (
    low,
    record {
      ring = rw (ring-accumulate (s.gen_at g) chunk) f.ring;
      segment = accumulate-Holds (s.gen_at g) h chunk f.segment;
    },
  )

  others-Fed :
      (es : List Event) (h : List ℕ) (s : Streamer)
      → All (λ e. ¬ IsOutput g e) es
      → HasFed h s
      → HasFed h (run es s).0
  others-Fed es h s others (low, f) =
      let (low', same) = run-Kept es g s low others in
      (low', Same-Fed (s.gen_at g) ((run es s).0.gen_at g) h same f)

  others-Half :
      (es : List Event) (h chunk : List ℕ) (s : Streamer)
      → All (λ e. ¬ IsOutput g e) es
      → (g < s.gen_count) × Half (s.gen_at g) h chunk
      → (g < (run es s).0.gen_count) × Half ((run es s).0.gen_at g) h chunk
  others-Half es h chunk s others (low, f) =
      let (low', same) = run-Kept es g s low others in
      (
        low',
        record {
          ring = rw same.ring f.ring;
          segment = Same-Holds (s.gen_at g) ((run es s).0.gen_at g) h same f.segment;
        },
      )

  send-Fed :
      (done_first : String → Bool) (chunk h : List ℕ) (s : Streamer)
      → HasFed h s
      → HasFed h (send_chunk done_first g chunk s)
  unfolding send_chunk run step
  send-Fed done_first chunk h s f = others-Fed (sends done_first g chunk ∷ []) h s ((λ e. e), tt) f

  chunk-Fed :
      (done_first : String → Bool) (a : ℕ) (r : Round) (h : List ℕ) (s : Streamer)
      → AreOthers g r
      → HasFed h s
      → length h + length r.0 < 2 ^ 63
      → HasFed (h ++ r.0) (run_chunk (gaps_of r.1) done_first a g r.0 s)
  unfolding run_chunk
  chunk-Fed done_first a (chunk, es) h s others f room =
      let stored = store-Half chunk h s f room in
      let s₁ = (run (es 0) (store_chunk g chunk s)).0 in
      let half = others-Half (es 0) h chunk (store_chunk g chunk s) (others 0) stored in
      let s₂ = (run (es 1) (keep_chunk g chunk s₁)).0 in
      let fed =
        others-Fed (es 1) (h ++ chunk) (keep_chunk g chunk s₁) (others 1)
          (keep-Fed chunk h s₁ half) in
      elim (Bool-cases (s₂.stream_at a).active) [
        | inr off ↦ rw off fed
        | inl on ↦ rw on (
            send-Fed done_first chunk (h ++ chunk) (run (es 2) s₂).0
              (others-Fed (es 2) (h ++ chunk) s₂ (others 2) fed))
      ]

  chunks-Fed :
      (done_first : String → Bool) (a : ℕ) (rounds : List Round) (h : List ℕ) (s : Streamer)
      → All (AreOthers g) rounds
      → HasFed h s
      → length h + length (written rounds) < 2 ^ 63
      → HasFed (h ++ written rounds) (run_chunks done_first a g rounds s)
  unfolding run_chunks written
  chunks-Fed done_first a [] h s others f room = rw append-nil f
  chunks-Fed done_first a ((chunk, es) ∷ rounds) h s (o, others) f room =
      let total = length-append chunk (written rounds) in
      let s' = run_chunk (gaps_of es) done_first a g chunk s in
      let fed = chunk-Fed done_first a (chunk, es) h s o f (omega (arith, total)) in
      rw (← append_assoc h chunk (written rounds)) (
        chunks-Fed done_first a rounds (h ++ chunk) (run (es 3) s').0 others
          (others-Fed (es 3) (h ++ chunk) s' (o 3) fed)
          (omega (arith, total, length-append h chunk)))

-- Whatever chunks an encoder has written in full since its generation was made, and whatever other
-- sections have run between them and between the sections of each, a client that attaches while the
-- encoder is between two chunks is sent a prefix of the whole output followed by its newest bytes, with
-- no byte twice, within the init segment, the prebuffer and the replay budget.
pub run_chunks-Attached :
    (done_first : String → Bool) (a g : ℕ) (rounds : List Round) (s : Streamer)
    → g < s.gen_count
    → Fed (s.gen_at g) []
    → All (AreOthers g) rounds
    → length (written rounds) < 2 ^ 63
    → let gen = (run_chunks done_first a g rounds s).gen_at g in
      let h = written rounds in
      Attached s.cfg gen h
        (flatten (replay s.cfg gen))
        (prefix_sent s.cfg gen h)
        (suffix_sent s.cfg gen h)
run_chunks-Attached done_first a g rounds s low f others room =
    let gen = (run_chunks done_first a g rounds s).gen_at g in
    let (_, fed) = chunks-Fed g done_first a rounds [] s others (low, f) (omega arith) in
    replay-Attached s.cfg gen (written rounds) fed.ring fed.segment

-- A generation made by `Start`, `Resume` or a restart is fed nothing yet.
pub fresh-Fed :
    (size : ℕ) (offset : ℤ) (limit gen_id : ℕ) (start_time : Option ℤ)
    → 0 < size
    → Fed (fresh (new_ring size) offset limit gen_id start_time) []
unfolding fresh
fresh-Fed size offset limit gen_id start_time h = record {
  ring = new-Represents size h;
  segment = record { prefix = sym (take-nil limit); sized = refl; closed = λ e. cc e };
}
