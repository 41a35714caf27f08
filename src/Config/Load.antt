-- ===== src/Config/Load.antt =====
-- internal/config/config.go: the defaults, and `Load`.
use Prim.Native.Nat.{bit_and, bit_or}
use Prim.Native.String.{◌++◌}
use ma_dlna.Base.{
  ℕ, ◌/◌, ◌%◌, true, false, not, ◌&&◌, ◌||◌, List, [], ◌∷◌, Option, none, some, String, eqb, get_or,
  set, take, drop, if◌then◌else◌,
}
use ma_dlna.Base.Int.{pos}
use ma_dlna.Base.Go.{Url, trim_right_slash, contains, format_int}
use ma_dlna.Config.{Config, ConfigError, unreadable, unparsable, unspecified_host, validate}

abbrev pub default_config : Config
default_config = record {
  server = record {
    bind_host = "0.0.0.0";
    http_port = pos 8787;
    public_base_url = "";
    stream_public_base_url = "";
  };
  upnp = record {
    friendly_name = "Music Assistant Whole Home";
    manufacturer = "dlna-ma-bridge";
    model_name = "DLNA to Music Assistant Bridge";
    uuid = "auto";
    advertise_interval_secs = pos 1800;
    auto_base_url = true;
  };
  music_assistant = record {
    url = "http://musicassistant.local:8095";
    token = "";
    target_player_id = "whole_home";
  };
  ffmpeg = record {
    binary = "ffmpeg";
    output_format = "opus";
    codec = "libopus";
    bitrate = "192k";
    sample_rate = pos 48000;
    channels = pos 2;
    realtime = true;
    reconnect = true;
    extra_input_args = [];
    extra_output_args = [];
  };
  stream = record {
    prebuffer_bytes = pos 32768;
    ring_buffer_bytes = pos 8388608;
    init_segment_bytes = pos 32768;
    max_replay_bytes = pos 65536;
    max_clients_per_session = pos 16;
    no_client_grace_seconds = pos 10;
    startup_timeout_seconds = pos 30;
  };
  security = record {
    require_stream_token = true;
    allowed_source_cidrs = "192.168.0.0/16" ∷ "10.0.0.0/8" ∷ "172.16.0.0/12" ∷ [];
    blocked_source_cidrs = "169.254.0.0/16" ∷ [];
    allow_public_sources = true;
    allow_loopback_sources = false;
  };
  logging = record { level = "info" };
}

abbrev hex_digit : ℕ → String
hex_digit d =
    get_or
      ("0" ∷ "1" ∷ "2" ∷ "3" ∷ "4" ∷ "5" ∷ "6" ∷ "7" ∷ "8" ∷ "9" ∷ "a" ∷ "b" ∷ "c" ∷ "d" ∷ "e" ∷ "f"
        ∷ [])
      d ""

-- `hex.EncodeToString`
unfoldable pub hex : List ℕ → String
hex [] = ""
hex (b ∷ bs) = hex_digit (b / 16) ++ (hex_digit (b % 16) ++ hex bs)

-- the bytes in five groups, with the version and the variant set
unfoldable pub uuid_groups : List ℕ → String
unfolding hex
uuid_groups bytes =
    let b₁ = set bytes 6 (bit_or (bit_and (get_or bytes 6 0) 0x0f) 0x40) in
    let b = set b₁ 8 (bit_or (bit_and (get_or b₁ 8 0) 0x3f) 0x80) in
    hex (take 4 b)
    ++ ("-"
        ++ (hex (take 2 (drop 4 b))
            ++ ("-"
                ++ (hex (take 2 (drop 6 b))
                    ++ ("-" ++ (hex (take 2 (drop 8 b)) ++ ("-" ++ hex (drop 10 b))))))))

-- `generateUUID`, from sixteen random bytes
unfoldable pub generate_uuid : List ℕ → String
unfolding uuid_groups
generate_uuid bytes = "uuid:" ++ uuid_groups bytes

-- The addresses of the server, filled in and without a slash at their ends.
unfoldable pub with_base_urls : Config → Config
unfolding trim_right_slash format_int
with_base_urls c =
    let s = c.server in
    let base =
      if eqb s.public_base_url ""
      then "http://" ++ (s.bind_host ++ (":" ++ format_int s.http_port))
      else s.public_base_url in
    record c {
      server = record s {
        public_base_url = trim_right_slash base;
        stream_public_base_url = trim_right_slash s.stream_public_base_url;
      };
    }

unfoldable pub with_uuid : List ℕ → Config → Config
unfolding generate_uuid
with_uuid bytes c =
    if eqb c.upnp.uuid "" || eqb c.upnp.uuid "auto"
    then record c { upnp = record c.upnp { uuid = generate_uuid bytes } }
    else c

-- the configuration, or the error
pub data Load : Type 0 where
  loaded : Config → Load
  refused : ConfigError → Load

module _ (parse : String → Option Url) (bytes : List ℕ) where
  -- From the check of the host on.
  unfoldable pub checked : Config → Load
  unfolding validate with_uuid contains
  checked c =
      if contains "0.0.0.0" c.server.public_base_url && not c.upnp.auto_base_url
      then refused unspecified_host
      else elim (validate parse c) [ some e ↦ refused e | none ↦ loaded (with_uuid bytes c) ]

  -- `file` is what the file holds, `expand` is `os.ExpandEnv`, and `unmarshal` decodes the text onto a
  -- configuration.
  unfoldable pub load : (String → String) → (String → Config → Option Config) → Option String → Load
  unfolding checked with_base_urls
  load expand unmarshal none = refused unreadable
  load expand unmarshal (some file) = elim (unmarshal (expand file) default_config) [
    | none ↦ refused unparsable
    | some c ↦ checked (with_base_urls c)
  ]
