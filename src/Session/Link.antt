-- ===== src/Session/Link.antt =====
-- The streamer (internal/stream/stream.go) as the manager sees it: it keeps the laws that the manager
-- relies on, as long as what other goroutines do during a call starts and stops no stream. `NewManager`
-- hands the `genStartCallback` of the streamer to `SetSessionGenID`.
pub mod Effects
pub mod Kept
use ma_dlna.Base.{
  ℕ, ◌+◌, ◌<◌, ◌&&◌, List, [], ◌∷◌, ◌≡◌, ◌⊎◌, ◌∙◌, none, some, String, if◌then◌else◌, ◌==◌,
}
use ma_dlna.Base.Dict.{lookup}
use ma_dlna.Base.Int.{ℤ}
use ma_dlna.Stream.Streamer
use ma_dlna.Stream.Streamer.{
  Callback, gen_start, first_client, failed, ended, start, stop, stop_if_generation, pause, seek,
  resume, mark_playback_accepted_if_generation,
}
use ma_dlna.Stream.Ring
use ma_dlna.Stream.Streamer.Valid.{Local}
use ma_dlna.Session.Api.{Api, Starts}

unfoldable pub starts_of : List Callback → Starts
starts_of [] = []
starts_of (gen_start sid gen_id ∷ calls) = (sid, gen_id) ∷ starts_of calls
starts_of (first_client sid gen_id ∷ calls) = starts_of calls
starts_of (failed sid gen_id message ∷ calls) = starts_of calls
starts_of (ended sid gen_id ∷ calls) = starts_of calls

unfoldable pub generation : String → Streamer.Streamer → ℕ
generation sid s = elim (lookup sid s.streams) [
  | none ↦ 0
  | some a ↦ (s.stream_at a).current_gen_id
]

-- What surrounds a call: the clock, what others do until it has its lock, and while it waits for an
-- encoder.
pub record Around : Type 0 where
  pub now : ℤ
  pub env : Streamer.Streamer → Streamer.Streamer
  pub wait : Streamer.Streamer → Streamer.Streamer

unfoldable pub streamer_api : Around → Api Streamer.Streamer
unfolding generation starts_of start stop stop_if_generation pause seek resume
    mark_playback_accepted_if_generation
streamer_api w = record {
  generation = λ sid s. generation sid s;
  start = λ sid uri s. let (s', calls) = start sid uri w.now s in (s', starts_of calls);
  stop = λ sid s. stop w.env sid s;
  stop_if_generation = λ sid gen_id s. stop_if_generation w.env sid gen_id s;
  pause = λ sid s. let (s', calls, _) = pause w.env w.wait sid w.now s in (s', starts_of calls);
  seek = λ sid offset s. let (s', calls) = seek w.env w.wait sid offset s in (s', starts_of calls);
  resume = λ sid s. let (s', calls) = resume w.env sid w.now s in (s', starts_of calls);
  mark_playback_accepted = λ sid gen_id s. mark_playback_accepted_if_generation sid gen_id w.now s;
}

-- Others register and unregister no stream, and give it no generation.
abbrev pub IsCalm : (Streamer.Streamer → Streamer.Streamer) → Type 0
IsCalm f = (s : Streamer.Streamer) → Local s (f s) × ((f s).streams ≡ s.streams)

-- A registered stream is in use and has its session.
abbrev pub IsMapped : Streamer.Streamer → Type 0
IsMapped s =
    (sid : String) (a : ℕ)
    → lookup sid s.streams ≡ some a
    → (a < s.stream_count) × ((s.stream_at a).session_id ≡ sid)
