-- ===== src/Config/Loaded.antt =====
-- internal/config/config.go: what holds of a configuration that `Load` returns.
use Prim.Native.Char.{code}
use Prim.Native.String.{◌++◌}
use Prim.Native.String.append
use ma_dlna.Base.{
  ℕ, ◌≡◌, ◌≢◌, refl, sym, ap, subst, Bool, true, false, not, ◌&&◌, ◌||◌, ◌⊎◌, inl, inr, List,
  Option, none, some, String, eqb, text_discrete, if◌then◌else◌, arith, Option-cases, Bool-cases,
}
use ma_dlna.Base.Int.{pos, ◌≤ℤ◌}
use ma_dlna.Base.Go.{Url, trim_right_slash, trim_right_slash_idem, contains}
use ma_dlna.Config.{
  Config, StreamConfig, ConfigError, absolute, is_http, is_ma_scheme, check_url, fail_if,
  ◌then_check◌, validate_stream, validate_server, validate_music_assistant, validate,
}
use ma_dlna.Config.Load.{
  default_config, uuid_groups, with_base_urls, with_uuid, generate_uuid, loaded, checked, load,
}

pub record IsValidStream (s : StreamConfig) : Type 0 where
  pub ring : pos 1024 ≤ℤ s.ring_buffer_bytes
  pub prebuffer : pos 0 ≤ℤ s.prebuffer_bytes
  pub clients : pos 1 ≤ℤ s.max_clients_per_session
  pub startup : pos 1 ≤ℤ s.startup_timeout_seconds
  pub grace : pos 1 ≤ℤ s.no_client_grace_seconds
  pub init : pos 0 ≤ℤ s.init_segment_bytes
  pub replay : pos 0 ≤ℤ s.max_replay_bytes
  pub init_fits : s.init_segment_bytes ≤ℤ s.ring_buffer_bytes

then_check-none : (a b : Option ConfigError) → (a then_check b) ≡ none → (a ≡ none) × (b ≡ none)
then_check-none none b h = (refl, h)
then_check-none (some e) b h = absurd (cc)

fail_if-none : (t : Bool) (e : ConfigError) → fail_if t e ≡ none → t ≡ false
fail_if-none true e h = absurd (cc)
fail_if-none false e h = refl

ne_of_fail_if : (s : String) (e : ConfigError) → fail_if (eqb s "") e ≡ none → s ≢ ""
ne_of_fail_if s e h = ground arith

first : String → ℕ
first String.[] = 0
first (String.◌∷◌ c s) = code c

first-uuid : (rest : String) → first ("uuid:" ++ rest) ≡ b'u'
unfolding first
first-uuid rest = rw (append.cons "u" "uid:" rest) refl

ne_of_first : (s t : String) → first s ≢ first t → s ≢ t
ne_of_first s t differ e = differ (ap first e)

generate_uuid-ne : (bytes : List ℕ) → (generate_uuid bytes ≢ "") × (generate_uuid bytes ≢ "auto")
unfolding generate_uuid first
generate_uuid-ne bytes =
    let start : first (generate_uuid bytes) ≡ b'u' = first-uuid (uuid_groups bytes) in
    (ne_of_first _ "" (omega (arith, start)), ne_of_first _ "auto" (omega (arith, start)))

validate_stream-IsValidStream : (s : StreamConfig) → validate_stream s ≡ none → IsValidStream s
unfolding validate_stream
validate_stream-IsValidStream s h = ground (arith, h)

-- The schemes that are allowed.
abbrev pub Http : String → Type 0
Http s = (s ≡ "http") ⊎ (s ≡ "https")

abbrev pub MaScheme : String → Type 0
MaScheme s = Http s ⊎ ((s ≡ "ws") ⊎ (s ≡ "wss"))

module _ (parse : String → Option Url) where
  -- An absolute URL with a host and an allowed scheme.
  pub record IsUrl (Allowed : String → Type 0) (s : String) : Type 0 where
    pub url : Url
    pub parsed : parse s ≡ some url
    pub has_host : url.host ≢ ""
    pub allowed : Allowed url.scheme

  abbrev pub IsUrlIfSet : String → Type 0
  IsUrlIfSet s = (s ≡ "") ⊎ IsUrl Http s

  pub record IsValid (c : Config) : Type 0 where
    pub stream : IsValidStream c.stream
    pub output_format : c.ffmpeg.output_format ≢ ""
    pub base : IsUrlIfSet c.server.public_base_url
    pub stream_base : IsUrlIfSet c.server.stream_public_base_url
    pub ma_url : IsUrl MaScheme c.music_assistant.url
    pub token : c.music_assistant.token ≢ ""
    pub target : c.music_assistant.target_player_id ≢ ""

  is_http-Http : (s : String) → is_http s ≡ true → Http s
  unfolding is_http
  is_http-Http s h = elim (text_discrete s "http") [
    | yes e ↦ inl e
    | no n ↦ elim (text_discrete s "https") [ yes e ↦ inr e | no n' ↦ absurd (ground arith) ]
  ]

  is_ma_scheme-MaScheme : (s : String) → is_ma_scheme s ≡ true → MaScheme s
  unfolding is_ma_scheme
  is_ma_scheme-MaScheme s h = elim (Bool-cases (is_http s)) [
    | inl http ↦ inl (is_http-Http s http)
    | inr other ↦ elim (text_discrete s "ws") [
      | yes e ↦ inr (inl e)
      | no n ↦ elim (text_discrete s "wss") [ yes e ↦ inr (inr e) | no n' ↦ absurd (ground arith) ]
    ]
  ]

  check_url-IsUrl :
      (test : String → Bool) (Allowed : String → Type 0) (bad bad_scheme : ConfigError) (s : String)
      → ((t : String) → test t ≡ true → Allowed t)
      → check_url test bad bad_scheme (parse s) ≡ none
      → IsUrl Allowed s
  unfolding check_url absolute
  check_url-IsUrl test Allowed bad bad_scheme s sound h = elim (Option-cases (parse s)) [
    | inl unparsed ↦ absurd (ground (arith, h, unparsed))
    | inr (u, parsed) ↦ record {
      url = u;
      parsed = parsed;
      has_host = ground (arith, h, parsed);
      allowed = sound u.scheme (ground (arith, h, parsed));
    }
  ]

  if_set-IsUrl :
      (bad bad_scheme : ConfigError) (s : String)
      → (if eqb s "" then none else check_url is_http bad bad_scheme (parse s)) ≡ none
      → IsUrlIfSet s
  if_set-IsUrl bad bad_scheme s h = elim (text_discrete s "") [
    | yes e ↦ inl e
    | no n ↦ inr (check_url-IsUrl is_http Http bad bad_scheme s is_http-Http (ground (arith, h)))
  ]

  validate-IsValid : (c : Config) → validate parse c ≡ none → IsValid c
  unfolding validate validate_server validate_music_assistant
  validate-IsValid c h =
      let (s, h1) = then_check-none (validate_stream c.stream) _ h in
      let (o, h2) = then_check-none (fail_if (eqb c.ffmpeg.output_format "") _) _ h1 in
      let (v, m) = then_check-none (validate_server parse c.server) _ h2 in
      let (b, sb) = then_check-none (if eqb c.server.public_base_url "" then none else _) _ v in
      let (mu, m1) = then_check-none (fail_if (eqb c.music_assistant.url "") _) _ m in
      let (u, m2) =
        then_check-none (check_url is_ma_scheme _ _ (parse c.music_assistant.url)) _ m1 in
      let (t, p) = then_check-none (fail_if (eqb c.music_assistant.token "") _) _ m2 in
      record {
        stream = validate_stream-IsValidStream c.stream s;
        output_format = ne_of_fail_if c.ffmpeg.output_format _ o;
        base = if_set-IsUrl _ _ c.server.public_base_url b;
        stream_base = if_set-IsUrl _ _ c.server.stream_public_base_url sb;
        ma_url =
            check_url-IsUrl is_ma_scheme MaScheme _ _ c.music_assistant.url is_ma_scheme-MaScheme u;
        token = ne_of_fail_if c.music_assistant.token _ t;
        target = ne_of_fail_if c.music_assistant.target_player_id _ p;
      }

  -- A configuration as the program runs with it.
  pub record IsLoaded (c : Config) : Type 0 where
    pub valid : IsValid c
    pub base_trimmed : trim_right_slash c.server.public_base_url ≡ c.server.public_base_url
    pub stream_trimmed :
        trim_right_slash c.server.stream_public_base_url ≡ c.server.stream_public_base_url
    pub host : (contains "0.0.0.0" c.server.public_base_url ≡ false) ⊎ (c.upnp.auto_base_url ≡ true)
    pub uuid_set : c.upnp.uuid ≢ ""
    pub uuid_drawn : c.upnp.uuid ≢ "auto"

  host_cases :
      (c : Config)
      → (contains "0.0.0.0" c.server.public_base_url && not c.upnp.auto_base_url) ≡ false
      → (contains "0.0.0.0" c.server.public_base_url ≡ false) ⊎ (c.upnp.auto_base_url ≡ true)
  host_cases c h = elim (Bool-cases c.upnp.auto_base_url) [
    | inl auto ↦ inr auto
    | inr manual ↦ inl (ground (arith, h, manual))
  ]

  module _ (bytes : List ℕ) where
    with_uuid-IsLoaded :
        (c : Config)
        → IsValid c
        → trim_right_slash c.server.public_base_url ≡ c.server.public_base_url
        → trim_right_slash c.server.stream_public_base_url ≡ c.server.stream_public_base_url
        → (contains "0.0.0.0" c.server.public_base_url ≡ false) ⊎ (c.upnp.auto_base_url ≡ true)
        → IsLoaded (with_uuid bytes c)
    unfolding with_uuid
    with_uuid-IsLoaded c valid base stream_base host =
        let drawn = generate_uuid-ne bytes in
        elim (Bool-cases (eqb c.upnp.uuid "" || eqb c.upnp.uuid "auto")) [
          | inl unset ↦
              let c₁ = record c { upnp = record c.upnp { uuid = generate_uuid bytes } } in
              let e : with_uuid bytes c ≡ c₁ = ground (arith, unset) in
              subst IsLoaded (sym e) (record {
                valid = record {
                  stream = valid.stream;
                  output_format = valid.output_format;
                  base = valid.base;
                  stream_base = valid.stream_base;
                  ma_url = valid.ma_url;
                  token = valid.token;
                  target = valid.target;
                };
                base_trimmed = base;
                stream_trimmed = stream_base;
                host = host;
                uuid_set = drawn.0;
                uuid_drawn = drawn.1;
              })
          | inr given ↦
              let e : with_uuid bytes c ≡ c = ground (arith, given) in
              subst IsLoaded (sym e) (record {
                valid = valid;
                base_trimmed = base;
                stream_trimmed = stream_base;
                host = host;
                uuid_set = ground arith;
                uuid_drawn = ground arith;
              })
        ]

    checked-IsLoaded :
        (c c' : Config)
        → trim_right_slash c.server.public_base_url ≡ c.server.public_base_url
        → trim_right_slash c.server.stream_public_base_url ≡ c.server.stream_public_base_url
        → checked parse bytes c ≡ loaded c'
        → IsLoaded c'
    unfolding checked
    checked-IsLoaded c c' base stream_base h =
        let clear = contains "0.0.0.0" c.server.public_base_url && not c.upnp.auto_base_url in
        elim (Bool-cases clear) [
          | inl bad ↦ absurd (ground (arith, h, bad))
          | inr fine ↦ elim (Option-cases (validate parse c)) [
            | inr (e, invalid) ↦ absurd (ground (arith, h, fine, invalid))
            | inl ok_ ↦
                let valid = validate-IsValid c ok_ in
                let e : c' ≡ with_uuid bytes c = ground (arith, h, fine, ok_) in
                subst IsLoaded (sym e)
                  (with_uuid-IsLoaded c valid base stream_base (host_cases c fine))
          ]
        ]

    -- A configuration that `Load` returns, whatever the file holds, has passed every check: the sizes and
    -- times of the stream are in their ranges and the init segment fits the ring, the output format, the
    -- token and the player are set, the address of Music Assistant has a host and one of the schemes http,
    -- https, ws and wss, and each address of the server is empty or has a host and the scheme http or
    -- https, and has no slash at its end; the public address does not name 0.0.0.0 unless the address is
    -- detected, and the device has a UUID that is neither empty nor `auto`.
    pub load-IsLoaded :
        (expand : String → String) (unmarshal : String → Config → Option Config)
        (file : Option String) (c : Config)
        → load parse bytes expand unmarshal file ≡ loaded c
        → IsLoaded c
    unfolding load with_base_urls
    load-IsLoaded expand unmarshal none c h = absurd (cc)
    load-IsLoaded expand unmarshal (some file) c h =
        elim (Option-cases (unmarshal (expand file) default_config)) [
          | inl unparsed ↦ absurd (ground (arith, h, unparsed))
          | inr (c₀, parsed) ↦
              let e : checked parse bytes (with_base_urls c₀) ≡ loaded c =
                ground (arith, h, parsed) in
              checked-IsLoaded (with_base_urls c₀) c (trim_right_slash_idem _)
                (trim_right_slash_idem _) e
        ]
