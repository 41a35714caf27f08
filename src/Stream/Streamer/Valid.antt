-- ===== src/Stream/Streamer/Valid.antt =====
-- What the streamer's steps keep: the two children apply it to each step and to schedules.
-- Generation ids are never given twice, and the current one of a stream only goes up.
pub mod Sections
pub mod Schedules
use ma_dlna.Base.{
  ℕ, suc, ◌+◌, ◌≤◌, ◌<◌, ◌^◌, Bool, true, false, List, [], ◌∷◌, ◌≡◌, ◌∙◌, Option, none, some,
  String, arith, ◌==◌,
}
use ma_dlna.Base.Dict.{lookup, insert, lookup-insert, lookup-delete}
use ma_dlna.Base.Int.{ℤ}
use ma_dlna.Stream.Gen.{
  Gen, fresh, accumulate_init_buf, close_clients, kill_cmd, set_err, accept_presentation,
  presentation_elapsed,
}
use ma_dlna.Stream.Streamer.{Streamer, Stream, Callback, install, set_gen, set_stream, put}

-- `next_gen_id` counts the generations, the one at address `g` has id `g + 1`, and a stream's recorded
-- id is that of its current generation. A registered stream is in use and has its session.
pub record IsValid (s : Streamer) : Type 0 where
  pub counted : s.next_gen_id ≡ s.gen_count
  pub ids : (g : ℕ) → g < s.gen_count → (s.gen_at g).gen_id ≡ suc g
  pub current :
      (a : ℕ)
      → a < s.stream_count
      → ((s.stream_at a).gen < s.gen_count)
        × ((s.stream_at a).current_gen_id ≡ suc (s.stream_at a).gen)
  pub mapped :
      (sid : String) (a : ℕ)
      → lookup sid s.streams ≡ some a
      → (a < s.stream_count) × ((s.stream_at a).session_id ≡ sid)

-- What every step keeps of what is there: no stream or generation goes away, a generation keeps its
-- id and ring size, and a stream's current id does not fall.
pub record Grows (s t : Streamer) : Type 0 where
  pub streams_kept : s.stream_count ≤ t.stream_count
  pub gens_kept : s.gen_count ≤ t.gen_count
  pub ids_up :
      (a : ℕ) → a < s.stream_count → (s.stream_at a).current_gen_id ≤ (t.stream_at a).current_gen_id

-- A step that gives no id: it changes neither ids nor sessions, and registers nothing.
pub record Local (s t : Streamer) : Type 0 where
  pub ids_same : t.next_gen_id ≡ s.next_gen_id
  pub gens_same : t.gen_count ≡ s.gen_count
  pub streams_same : t.stream_count ≡ s.stream_count
  pub gen_same : (g : ℕ) → (t.gen_at g).gen_id ≡ (s.gen_at g).gen_id
  pub stream_same :
      (a : ℕ)
      → ((t.stream_at a).gen ≡ (s.stream_at a).gen)
        × ((t.stream_at a).current_gen_id ≡ (s.stream_at a).current_gen_id)
        × ((t.stream_at a).session_id ≡ (s.stream_at a).session_id)
  pub unmapped :
      (sid : String) (a : ℕ) → lookup sid t.streams ≡ some a → lookup sid s.streams ≡ some a

pub Local-IsValid : (s t : Streamer) → Local s t → IsValid s → IsValid t
Local-IsValid s t l v = record {
  counted = omega (arith, l.ids_same, l.gens_same, v.counted);
  ids = λ g h. omega (arith, l.gen_same g, v.ids g (omega (arith, l.gens_same)));
  current = λ a h.
      let here = v.current a (omega (arith, l.streams_same)) in
      omega (arith, l.stream_same a, l.gens_same, here);
  mapped = λ sid a h.
      let (low, same) = v.mapped sid a (l.unmapped sid a h) in
      (omega (arith, l.streams_same), (l.stream_same a).2 ∙ same);
}

pub Local-Grows : (s t : Streamer) → Local s t → Grows s t
Local-Grows s t l = record {
  streams_kept = omega (arith, l.streams_same);
  gens_kept = omega (arith, l.gens_same);
  ids_up = λ a h. omega (arith, l.stream_same a);
}

pub Grows-trans : (s t u : Streamer) → Grows s t → Grows t u → Grows s u
Grows-trans s t u g h = record {
  streams_kept = omega (arith, g.streams_kept, h.streams_kept);
  gens_kept = omega (arith, g.gens_kept, h.gens_kept);
  ids_up = λ a p. omega (arith, g.ids_up a p, h.ids_up a (omega (arith, g.streams_kept)));
}

pub install-IsValid :
    (s : Streamer) (a : ℕ) (sid : String) (gen : Gen) (runs : ℕ)
    → s.gen_count + 1 < 2 ^ 64
    → IsValid s
    → IsValid (install s a sid gen runs).0
install-IsValid s a sid gen runs room v = record {
  counted = ground (arith, v.counted);
  ids = λ g' h. ground (arith, v.counted, v.ids g');
  current = λ b h. ground (arith, v.counted, v.current b h);
  mapped = λ sid' b h. ground (arith, v.mapped sid' b h);
}

pub install-Grows :
    (s : Streamer) (a : ℕ) (sid : String) (gen : Gen) (runs : ℕ)
    → s.gen_count + 1 < 2 ^ 64
    → IsValid s
    → Grows s (install s a sid gen runs).0
install-Grows s a sid gen runs room v = record {
  streams_kept = omega arith;
  gens_kept = omega arith;
  ids_up = λ b h. ground (arith, v.counted, v.current b h);
}
