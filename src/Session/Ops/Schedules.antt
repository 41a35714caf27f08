-- ===== src/Session/Ops/Schedules.antt =====
-- Schedules of the manager's methods.
use ma_dlna.Base.{ℕ, List, [], ◌∷◌, String}
use ma_dlna.Base.Int.{ℤ}
use ma_dlna.Session.Manager.Evict.{Request}
use ma_dlna.Session.Api.{Api}
use ma_dlna.Session.Ops
use ma_dlna.Session.Ops.{World, hear, call, set_manager, set_streamer, notify}

-- The methods that change the manager or the streamer, with their arguments.
pub data Op : Type 0 where
  start_stream : String → String → Op
  resume play stop pause : String → Op
  seek : String → ℤ → Op
  create : Request → Op
  shutdown : Op
  stop_if accept_if mark_accepted_if : String → ℕ → Op
  set_error_if stop_with_error_if : String → ℕ → String → Op
  set_error_unstarted : String → String → Op

module _ {S : Type 0} (api : Api S) (env : World S → World S) where
  unfoldable pub act : Op → ℕ → World S → World S
  act (start_stream sid uri) now w = Ops.start_stream api sid uri w
  act (resume sid) now w = Ops.resume api sid w
  act (play sid) now w = (Ops.play api env sid now w).0
  act (stop sid) now w = (Ops.stop api env sid now w).0
  act (pause sid) now w = (Ops.pause api env sid now w).0
  act (seek sid offset) now w = Ops.seek api env sid offset now w
  act (create r) now w = Ops.create_with_base api env r now w
  act shutdown now w = Ops.shutdown api env w
  act (stop_if sid gen_id) now w = (Ops.stop_if_generation api env env sid gen_id now w).0
  act (accept_if sid gen_id) now w =
      (Ops.accept_playback_if_generation api env env sid gen_id now w).0
  act (mark_accepted_if sid gen_id) now w =
      (Ops.mark_playback_accepted_if_generation api env env sid gen_id w).0
  act (set_error_if sid gen_id message) now w =
      (Ops.set_error_if_generation api sid gen_id message now w).0
  act (stop_with_error_if sid gen_id message) now w =
      (Ops.stop_with_error_if_generation_active api env env sid gen_id message now w).0
  act (set_error_unstarted sid message) now w =
      (Ops.set_error_if_no_generation api sid message now w).0

  unfoldable pub run : List (Op × ℕ) → World S → World S
  run [] w = w
  run ((op, now) ∷ ops) w = run ops (act op now w)
