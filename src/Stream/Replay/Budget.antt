-- ===== src/Stream/Replay/Budget.antt =====
-- The replay budget: what a sequence of requests is allowed in all.
use ma_dlna.Base.{ℕ, ◌+◌, ◌-◌, ◌<◌, min, List, [], ◌∷◌, ◌≡◌, arith}
use ma_dlna.Stream.Replay.{allow_replay_bytes}

unfoldable pub sum : List ℕ → ℕ
sum [] = 0
sum (n ∷ ns) = n + sum ns

-- the bytes allowed to each request in turn
unfoldable pub allow_all : ℕ → ℕ → List ℕ → List ℕ
allow_all max_replay_bytes remaining [] = []
allow_all max_replay_bytes remaining (n ∷ ns) =
    let (m, remaining') = allow_replay_bytes n max_replay_bytes remaining in
    m ∷ allow_all max_replay_bytes remaining' ns

-- With a budget set, the requests are served in order until it is used up: in all they are allowed
-- what they ask for or what remains, whichever is less.
pub sum-allow_all :
    (max_replay_bytes remaining : ℕ) (ns : List ℕ)
    → 0 < max_replay_bytes
    → sum (allow_all max_replay_bytes remaining ns) ≡ min (sum ns) remaining
unfolding sum allow_all allow_replay_bytes
sum-allow_all b r [] h = omega arith
sum-allow_all b r (n ∷ ns) h = ground (
  arith,
  sum-allow_all b (r - min r n) ns h,
  sum-allow_all b r ns h,
  sum-allow_all b 0 ns h,
  sum-allow_all b (r - n) ns h,
  sum-allow_all b (r - r) ns h,
)
