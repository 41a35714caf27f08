-- ===== src/Stream/Streamer/Valid/Sections.antt =====
-- Each section that gives no id is local.
use ma_dlna.Base.{ℕ, Bool, List, ◌≡◌, refl, ◌∙◌, inl, inr, ◌⊎◌, String, arith}
use ma_dlna.Base.Dict.{delete, lookup-delete}
use ma_dlna.Base.Int.{ℤ}
use ma_dlna.Stream.Gen.{
  accumulate_init_buf, close_clients, kill_cmd, set_err, accept_presentation, presentation_elapsed,
}
use ma_dlna.Stream.Streamer.{
  Streamer, stop_locked, stop_found, elapsed_at, mark_playback_accepted_if_generation,
}
use ma_dlna.Stream.Streamer.Run.{
  close_started, mark_error, run_started, store_chunk, keep_chunk, send_chunk, exit_off,
  exit_locked, exit_clients, exit_done, startup_claim, switch_off, cancel_gen, kill_gen,
}
use ma_dlna.Stream.Streamer.Serve.{attach_client, detach_client}
use ma_dlna.Stream.Streamer.Valid.{Local}

pub Local-refl : (s : Streamer) → Local s s
Local-refl s = ground arith

pub unregister-Local :
    (sid : String) (s : Streamer) → Local s (record s { streams = delete sid s.streams })
unregister-Local sid s = record {
  ids_same = refl;
  gens_same = refl;
  streams_same = refl;
  gen_same = λ g. refl;
  stream_same = λ a. (refl, refl, refl);
  unmapped = λ sid' a h. ground (arith, lookup-delete sid sid' s.streams);
}

module _ (s : Streamer) where
  pub stop_locked-Local : (a : ℕ) → Local s (stop_locked a s).0
  unfolding stop_locked
  stop_locked-Local a = ground arith

  pub elapsed_at-Local : (a : ℕ) (now : ℤ) → Local s (elapsed_at a now s).0
  unfolding elapsed_at presentation_elapsed
  elapsed_at-Local a now = ground arith

  pub accept-Local :
      (sid : String) (gen_id : ℕ) (now : ℤ)
      → Local s (mark_playback_accepted_if_generation sid gen_id now s).0
  unfolding mark_playback_accepted_if_generation accept_presentation
  accept-Local sid gen_id now = ground arith

  pub close_started-Local : (g : ℕ) → Local s (close_started g s)
  unfolding close_started
  close_started-Local g = ground arith

  pub mark_error-Local : (g : ℕ) (message : String) → Local s (mark_error g message s)
  unfolding mark_error set_err
  mark_error-Local g message = ground arith

  pub run_started-Local : (g : ℕ) → Local s (run_started g s)
  unfolding run_started
  run_started-Local g = ground arith

  pub store_chunk-Local : (g : ℕ) (chunk : List ℕ) → Local s (store_chunk g chunk s)
  unfolding store_chunk
  store_chunk-Local g chunk = ground arith

  pub keep_chunk-Local : (g : ℕ) (chunk : List ℕ) → Local s (keep_chunk g chunk s)
  unfolding keep_chunk accumulate_init_buf
  keep_chunk-Local g chunk = ground arith

  pub send_chunk-Local :
      (done_first : String → Bool) (g : ℕ) (chunk : List ℕ)
      → Local s (send_chunk done_first g chunk s)
  unfolding send_chunk
  send_chunk-Local done_first g chunk = ground arith

  pub exit_off-Local : (g : ℕ) → Local s (exit_off g s)
  unfolding exit_off
  exit_off-Local g = ground arith

  pub exit_locked-Local : (a g : ℕ) (had_error : Bool) → Local s (exit_locked a g had_error s).0
  unfolding exit_locked
  exit_locked-Local a g had_error = ground arith

  pub exit_clients-Local : (g : ℕ) → Local s (exit_clients g s)
  unfolding exit_clients close_clients
  exit_clients-Local g = ground arith

  pub exit_done-Local : (g : ℕ) → Local s (exit_done g s)
  unfolding exit_done
  exit_done-Local g = ground arith

  pub startup_claim-Local : (a g : ℕ) → Local s (startup_claim a g s).0
  unfolding startup_claim
  startup_claim-Local a g = ground arith

  pub switch_off-Local : (a : ℕ) → Local s (switch_off a s)
  unfolding switch_off
  switch_off-Local a = ground arith

  pub cancel_gen-Local : (g : ℕ) → Local s (cancel_gen g s)
  unfolding cancel_gen
  cancel_gen-Local g = ground arith

  pub kill_gen-Local : (g : ℕ) → Local s (kill_gen g s)
  unfolding kill_gen kill_cmd
  kill_gen-Local g = ground arith

  pub attach-Local : (id sid : String) (a g : ℕ) → Local s (attach_client id sid a g s).0
  unfolding attach_client
  attach-Local id sid a g = ground arith

  pub detach-Local : (id : String) (g : ℕ) → Local s (detach_client id g s).0
  unfolding detach_client
  detach-Local id g = ground arith

pub Local-trans : (s t u : Streamer) → Local s t → Local t u → Local s u
Local-trans s t u l m = record {
  ids_same = m.ids_same ∙ l.ids_same;
  gens_same = m.gens_same ∙ l.gens_same;
  streams_same = m.streams_same ∙ l.streams_same;
  gen_same = λ g. m.gen_same g ∙ l.gen_same g;
  stream_same = λ a.
      let (p, q, r) = l.stream_same a in
      let (p', q', r') = m.stream_same a in (p' ∙ p, q' ∙ q, r' ∙ r);
  unmapped = λ sid a h. l.unmapped sid a (m.unmapped sid a h);
}

pub stop_found_cases :
    (s : Streamer) (sid : String) (gen_id a : ℕ)
    → ((stop_found sid gen_id a s).0 ≡ s)
      ⊎ ((stop_found sid gen_id a s).0
          ≡ (stop_locked a (record s { streams = delete sid s.streams })).0)
unfolding stop_found
stop_found_cases s sid gen_id a = ground arith

-- Whatever `StopIfGeneration` decides, it only takes an entry out of the map and halts.
pub stop_found-Local :
    (s : Streamer) (sid : String) (gen_id a : ℕ) → Local s (stop_found sid gen_id a s).0
stop_found-Local s sid gen_id a =
    let s' = record s { streams = delete sid s.streams } in
    elim (stop_found_cases s sid gen_id a) [
      | inl e ↦ rw e (Local-refl s)
      | inr e ↦
          rw e (
            Local-trans s s' (stop_locked a s').0 (unregister-Local sid s) (stop_locked-Local s' a))
    ]
