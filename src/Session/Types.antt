-- ===== src/Session/Types.antt =====
-- internal/session/session.go: the data of a session and of the manager.
use ma_dlna.Base.{ℕ, Bool, List, String}

pub data State : Type 0 where
  idle loaded starting playing paused stopped error : State

unfoldable pub State-discrete : Discrete State
State-discrete = hlevel

pub record Metadata : Type 0 where
  pub title : String
  pub artist : String
  pub album : String
  pub album_art_uri : String
  pub duration : String
  pub content_type : String

-- `Session`; times are counted from any fixed moment.
pub record Session : Type 0 where
  pub id : String
  pub source_uri : String
  pub metadata_raw : String
  pub metadata : Metadata
  pub state : State
  pub stream_url : String
  pub stream_token : String
  pub next_uri : String
  pub play_mode : String
  pub created_at : ℕ
  pub updated_at : ℕ
  pub error_text : String

-- the part of the configuration that the manager reads
pub record Settings : Type 0 where
  pub public_base_url : String
  pub output_format : String
  pub require_stream_token : Bool

-- `Manager`, without the streamer and the notifier. `session_gen_id` reads 0 where the map has no
-- entry, as in Go.
pub record Manager : Type 0 where
  pub sessions : List (String × Session)
  pub session_gen_id : String → ℕ
  pub current_session_id : String
  pub cfg : Settings

abbrev pub max_sessions : ℕ
max_sessions = 64
