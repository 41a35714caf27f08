-- ===== src/Config.antt =====
-- internal/config/config.go: the configuration, `Validate` and `Load`. Go's `int` is an integer here: no
-- value of the configuration is computed with.
mod Tests
pub mod Security
pub mod Load
pub mod Loaded
use Prim.Native.Nat.{bit_and, bit_or}
use Prim.Native.String.{◌++◌}
use ma_dlna.Base.{
  ℕ, ◌/◌, ◌%◌, Bool, true, false, not, ◌&&◌, ◌||◌, List, [], ◌∷◌, Option, none, some, String, eqb,
  get_or, set, take, drop, if◌then◌else◌,
}
use ma_dlna.Base.Int.{ℤ, pos, ltb_ℤ}
use ma_dlna.Base.Go.{Url, trim_right_slash, contains, format_int}

pub record ServerConfig : Type 0 where
  pub bind_host : String
  pub http_port : ℤ
  pub public_base_url : String
  pub stream_public_base_url : String

pub record UpnpConfig : Type 0 where
  pub friendly_name : String
  pub manufacturer : String
  pub model_name : String
  pub uuid : String
  pub advertise_interval_secs : ℤ
  pub auto_base_url : Bool

pub record MusicAssistantConfig : Type 0 where
  pub url : String
  pub token : String
  pub target_player_id : String

pub record FfmpegConfig : Type 0 where
  pub binary : String
  pub output_format : String
  pub codec : String
  pub bitrate : String
  pub sample_rate : ℤ
  pub channels : ℤ
  pub realtime : Bool
  pub reconnect : Bool
  pub extra_input_args : List String
  pub extra_output_args : List String

pub record StreamConfig : Type 0 where
  pub prebuffer_bytes : ℤ
  pub ring_buffer_bytes : ℤ
  pub init_segment_bytes : ℤ
  pub max_replay_bytes : ℤ
  pub max_clients_per_session : ℤ
  pub no_client_grace_seconds : ℤ
  pub startup_timeout_seconds : ℤ

pub record SecurityConfig : Type 0 where
  pub require_stream_token : Bool
  pub allowed_source_cidrs : List String
  pub blocked_source_cidrs : List String
  pub allow_public_sources : Bool
  pub allow_loopback_sources : Bool

pub record LoggingConfig : Type 0 where
  pub level : String

pub record Config : Type 0 where
  pub server : ServerConfig
  pub upnp : UpnpConfig
  pub music_assistant : MusicAssistantConfig
  pub ffmpeg : FfmpegConfig
  pub stream : StreamConfig
  pub security : SecurityConfig
  pub logging : LoggingConfig

-- The errors of `Load` and `Validate`, by what they name.
pub data ConfigError : Type 0 where
  unreadable unparsable unspecified_host : ConfigError
  ring_buffer prebuffer max_clients startup_timeout no_client_grace : ConfigError
  init_segment max_replay init_segment_over_ring output_format : ConfigError
  base_url base_url_scheme stream_base_url stream_base_url_scheme : ConfigError
  ma_url_missing ma_url ma_url_scheme ma_token target_player : ConfigError

-- `url.Parse` with the test for a scheme and a host
unfoldable pub absolute : Option Url → Option String
absolute none = none
absolute (some u) = if eqb u.scheme "" || eqb u.host "" then none else some u.scheme

unfoldable pub is_http : String → Bool
is_http s = eqb s "http" || eqb s "https"

unfoldable pub is_ma_scheme : String → Bool
unfolding is_http
is_ma_scheme s = is_http s || (eqb s "ws" || eqb s "wss")

-- A URL that has to be there: absolute, and its scheme one of those that `ok` takes.
unfoldable pub check_url :
    (String → Bool) → ConfigError → ConfigError → Option Url → Option ConfigError
unfolding absolute
check_url ok_scheme bad bad_scheme u = elim (absolute u) [
  | none ↦ some bad
  | some scheme ↦ if ok_scheme scheme then none else some bad_scheme
]

infixr 30 ◌then_check◌
-- The first error of two checks, in this order.
abbrev pub ◌then_check◌ : Option ConfigError → Option ConfigError → Option ConfigError
none then_check next = next
some e then_check next = some e

-- `if test { return e }`
abbrev pub fail_if : Bool → ConfigError → Option ConfigError
fail_if true e = some e
fail_if false e = none

-- The sizes and times of the stream.
unfoldable pub validate_stream : StreamConfig → Option ConfigError
validate_stream s =
    fail_if (ltb_ℤ s.ring_buffer_bytes (pos 1024)) ring_buffer
    then_check fail_if (ltb_ℤ s.prebuffer_bytes (pos 0)) prebuffer
    then_check fail_if (not (ltb_ℤ (pos 0) s.max_clients_per_session)) max_clients
    then_check fail_if (not (ltb_ℤ (pos 0) s.startup_timeout_seconds)) startup_timeout
    then_check fail_if (not (ltb_ℤ (pos 0) s.no_client_grace_seconds)) no_client_grace
    then_check fail_if (ltb_ℤ s.init_segment_bytes (pos 0)) init_segment
    then_check fail_if (ltb_ℤ s.max_replay_bytes (pos 0)) max_replay
    then_check fail_if (ltb_ℤ s.ring_buffer_bytes s.init_segment_bytes) init_segment_over_ring

module _ (parse : String → Option Url) where
  -- The two addresses of the server, where they are set.
  unfoldable pub validate_server : ServerConfig → Option ConfigError
  unfolding check_url is_http
  validate_server s =
      (if eqb s.public_base_url ""
        then none
        else check_url is_http base_url base_url_scheme (parse s.public_base_url))
      then_check (if eqb s.stream_public_base_url ""
          then none
          else check_url is_http stream_base_url stream_base_url_scheme
              (parse s.stream_public_base_url))

  unfoldable pub validate_music_assistant : MusicAssistantConfig → Option ConfigError
  unfolding check_url is_ma_scheme
  validate_music_assistant m =
      fail_if (eqb m.url "") ma_url_missing
      then_check check_url is_ma_scheme ma_url ma_url_scheme (parse m.url)
      then_check fail_if (eqb m.token "") ma_token
      then_check fail_if (eqb m.target_player_id "") target_player

  -- `Validate`; `none` is the `nil` error.
  unfoldable pub validate : Config → Option ConfigError
  unfolding validate_stream validate_server validate_music_assistant
  validate c =
      validate_stream c.stream
      then_check fail_if (eqb c.ffmpeg.output_format "") output_format
      then_check validate_server c.server
      then_check validate_music_assistant c.music_assistant
