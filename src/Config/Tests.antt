-- ===== src/Config/Tests.antt =====
-- Witnesses of the theorems about internal/config, and runs of its functions.
use ma_dlna.Base.{
  ℕ, ◌≡◌, ◌↔◌, ◌⊎◌, refl, true, false, List, [], ◌∷◌, Option, none, some, String, All, replicate,
  text_discrete, Bool-cases,
}
use ma_dlna.Base.Go.{Url}
use ma_dlna.Config.{Config, SecurityConfig}
use ma_dlna.Config.Load.{load, loaded, default_config, with_uuid, with_base_urls}
use ma_dlna.Config.Loaded.{IsLoaded, load-IsLoaded}
use ma_dlna.Config.Security.{Ip, v4, IpNet, validate_ip, validate_source_uri, public_source}
use ma_dlna.Config.Security.Policy.{Admitted, validate_source_uri_iff}

abbrev url : String → String → Url
url scheme host = record { scheme = scheme; host = host; path = ""; raw_query = ""; fragment = "" }

-- every address parses, as one of http
abbrev parse : String → Option Url
parse s = some (url "http" "host")

-- the text of a file that sets the token and nothing else
abbrev unmarshal : String → Config → Option Config
unmarshal file c = some (record c { music_assistant = record c.music_assistant { token = file } })

abbrev sixteen : List ℕ
sixteen = replicate 16 255

abbrev ready : Config
ready = with_uuid sixteen (
    with_base_urls (record default_config {
      music_assistant = record default_config.music_assistant { token = "secret" };
    }))

loads : load parse sixteen (λ s. s) unmarshal (some "secret") ≡ loaded ready
unfolding load text_discrete Bool-cases
loads = refl

load-IsLoaded_example : IsLoaded parse ready
load-IsLoaded_example = load-IsLoaded parse sixteen (λ s. s) unmarshal (some "secret") ready loads

ready_url : ready.server.public_base_url ≡ "http://0.0.0.0:8787"
unfolding with_uuid with_base_urls text_discrete Bool-cases
ready_url = refl

ready_uuid : ready.upnp.uuid ≡ "uuid:ffffffff-ffff-4fff-bfff-ffffffffffff"
unfolding with_uuid with_base_urls text_discrete Bool-cases
ready_uuid = refl

-- no range parses
abbrev no_ranges : String → Option IpNet
no_ranges s = none

-- every host is 127.0.0.1
abbrev at_home : Url → Option (List Ip)
at_home u = some (v4 2130706433 ∷ [])

abbrev policy : SecurityConfig
policy = record {
  require_stream_token = true;
  allowed_source_cidrs = [];
  blocked_source_cidrs = [];
  allow_public_sources = false;
  allow_loopback_sources = true;
}

validate_source_uri_iff_example :
    (validate_source_uri no_ranges parse at_home policy "http://localhost/a" ≡ none) ↔ (
      (u : Url) × (parse "http://localhost/a" ≡ some u)
      × ((u.scheme ≡ "http") ⊎ (u.scheme ≡ "https"))
      × ((ips : List Ip) × (at_home u ≡ some ips) × All (Admitted no_ranges policy) ips))
validate_source_uri_iff_example =
    validate_source_uri_iff no_ranges parse at_home policy "http://localhost/a"

-- An allowed loopback address is refused as a public one where public sources are not allowed.
loopback_is_public : validate_ip no_ranges policy (v4 2130706433) ≡ some public_source
unfolding validate_ip
loopback_is_public = refl
