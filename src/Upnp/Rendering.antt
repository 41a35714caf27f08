-- ===== src/Upnp/Rendering.antt =====
-- internal/upnp/upnp.go: `serveRenderingControl`, the volume and the mute of the renderer. Its commands run
-- one after another, under `rcMu`.
pub mod Agrees
use ma_dlna.Base.{
  ℕ, Bool, true, false, not, ◌&&◌, List, [], ◌∷◌, ◌++◌, Option, none, some, ltb, if◌then◌else◌,
}
use ma_dlna.Base.Int.{ℤ, pos, pos_part, ltb_ℤ}

-- The fields of the handler, what Music Assistant has accepted (`heard`, the last volume first), and the
-- events that subscribers were told, volume and mute, the last first.
pub record Rendering : Type 0 where
  pub volume : ℕ
  pub prev_volume : ℕ
  pub muted : Bool
  pub heard : List ℕ
  pub told : List (ℕ × Bool)

abbrev pub new_rendering : Rendering
new_rendering = record { volume = 50; prev_volume = 50; muted = false; heard = []; told = [] }

-- The answers of the commands: the response, or the fault 501.
pub data Answer : Type 0 where
  done action_failed : Answer

-- The volume that a command asks for, from the number that `Sscanf` reads, if there is one.
unfoldable pub desired_volume : Option ℤ → ℕ
desired_volume none = 50
desired_volume (some v) =
    if ltb_ℤ v (pos 0) then 0 else if ltb_ℤ (pos 100) v then 100 else pos_part v

-- A call of the backend that succeeds.
unfoldable pub heard_volume : ℕ → Rendering → Rendering
heard_volume v r = record r { heard = v ∷ r.heard }

unfoldable pub tell : ℕ → Bool → Rendering → Rendering
tell v m r = record r { told = (v, m) ∷ r.told }

-- `accepts` says whether the call of the backend succeeds; a call that fails changes nothing.
unfoldable pub set_volume : Bool → Option ℤ → Rendering → Rendering × Answer
unfolding desired_volume heard_volume tell
set_volume accepts desired r =
    let v = desired_volume desired in
    let m = r.muted && not (ltb 0 v) in
    if accepts
    then (tell v m (record (heard_volume v r) { volume = v; muted = m }), done)
    else (r, action_failed)

unfoldable pub same : Bool → Bool → Bool
same true b = b
same false b = not b

-- No change of the mute: the backend is brought in line.
unfoldable pub sync_mute : Bool → Rendering → Rendering × Answer
unfolding heard_volume
sync_mute accepts r =
    let v : ℕ = if r.muted then 0 else r.volume in
    if accepts then (heard_volume v r, done) else (r, action_failed)

unfoldable pub mute : Bool → Rendering → Rendering × Answer
unfolding heard_volume tell
mute accepts r =
    if accepts
    then (
      tell r.volume true (record (heard_volume 0 r) { prev_volume = r.volume; muted = true }),
      done,
    )
    else (r, action_failed)

unfoldable pub unmute : Bool → Rendering → Rendering × Answer
unfolding heard_volume tell
unmute accepts r =
    let v : ℕ = if ltb 0 r.prev_volume then r.prev_volume else r.volume in
    if accepts
    then (tell v false (record (heard_volume v r) { volume = v; muted = false }), done)
    else (r, action_failed)

unfoldable pub set_mute : Bool → Bool → Rendering → Rendering × Answer
unfolding same sync_mute mute unmute
set_mute accepts target r =
    if same target r.muted
    then sync_mute accepts r
    else if target
    then mute accepts r
    else unmute accepts r

pub data Command : Type 0 where
  volume_command : Bool → Option ℤ → Command
  mute_command : Bool → Bool → Command

unfoldable pub serve : Command → Rendering → Rendering × Answer
unfolding set_volume set_mute
serve (volume_command accepts desired) r = set_volume accepts desired r
serve (mute_command accepts target) r = set_mute accepts target r

unfoldable pub run : List Command → Rendering → Rendering
unfolding serve
run [] r = r
run (c ∷ cs) r = run cs (serve c r).0
