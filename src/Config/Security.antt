-- ===== src/Config/Security.antt =====
-- internal/config/security.go: the policy for the addresses of a source.
pub mod Policy
use Prim.Native.Char.{code}
use Prim.Native.String.{◌++◌}
use ma_dlna.Base.{
  ℕ, ◌-◌, ◌/◌, ◌%◌, ◌^◌, Bool, true, false, not, ◌&&◌, ◌||◌, List, [], ◌∷◌, Option, none, some,
  String, eqb, ◌==◌, if◌then◌else◌,
}
use ma_dlna.Base.Go.{Url}
use ma_dlna.Config.{SecurityConfig}

-- `net.IP`: an IPv4 address of 32 bits, or an IPv6 address of 128 bits that stands for none.
pub data Ip : Type 0 where
  v4 : ℕ → Ip
  v6 : ℕ → Ip

-- `net.IPNet`, by its address and the length of its prefix
pub record IpNet : Type 0 where
  pub ip : Ip
  pub ones : ℕ

-- `Contains`: the same family, and the same prefix
unfoldable pub contains_ip : Ip → Ip → ℕ → Bool
contains_ip (v4 a) (v4 b) ones = a / 2 ^ (32 - ones) == b / 2 ^ (32 - ones)
contains_ip (v6 a) (v6 b) ones = a / 2 ^ (128 - ones) == b / 2 ^ (128 - ones)
contains_ip (v4 a) (v6 b) ones = false
contains_ip (v6 a) (v4 b) ones = false

-- `IsPrivate`: 10/8, 172.16/12 and 192.168/16, or fc00::/7
unfoldable pub is_private : Ip → Bool
is_private (v4 x) = x / 2 ^ 24 == 10 || x / 2 ^ 20 == 2753 || x / 2 ^ 16 == 49320
is_private (v6 x) = x / 2 ^ 121 == 126

-- `IsLoopback`: 127/8, or ::1
unfoldable pub is_loopback : Ip → Bool
is_loopback (v4 x) = x / 2 ^ 24 == 127
is_loopback (v6 x) = x == 1

-- `IsLinkLocalUnicast`: 169.254/16, or fe80::/10
unfoldable pub is_link_local_unicast : Ip → Bool
is_link_local_unicast (v4 x) = x / 2 ^ 16 == 43518
is_link_local_unicast (v6 x) = x / 2 ^ 118 == 1018

-- `IsLinkLocalMulticast`: 224.0.0/24, or ffx2::/16 for any x
unfoldable pub is_link_local_multicast : Ip → Bool
is_link_local_multicast (v4 x) = x / 2 ^ 8 == 14680064
is_link_local_multicast (v6 x) = x / 2 ^ 120 == 255 && x / 2 ^ 112 % 16 == 2

-- `IsMulticast`: 224/4, or ff00::/8
unfoldable pub is_multicast : Ip → Bool
is_multicast (v4 x) = x / 2 ^ 28 == 14
is_multicast (v6 x) = x / 2 ^ 120 == 255

-- `IsUnspecified`
unfoldable pub is_unspecified : Ip → Bool
is_unspecified (v4 x) = x == 0
is_unspecified (v6 x) = x == 0

pub data Rejection : Type 0 where
  invalid_url unsupported_scheme unresolved : Rejection
  blocked_by_policy not_in_allowed loopback link_local multicast_or_unspecified public_source :
      Rejection

-- `len(xs) == 0`
unfoldable pub is_empty : List String → Bool
is_empty [] = true
is_empty (x ∷ xs) = false

module _ (parse_cidr : String → Option IpNet) where
  -- Whether one of the ranges holds the address; a range that does not parse is passed over.
  unfoldable pub in_ranges : List String → Ip → Bool
  unfolding contains_ip
  in_ranges [] ip = false
  in_ranges (cidr ∷ cidrs) ip =
      let rest = in_ranges cidrs ip in
      elim (parse_cidr cidr) [ none ↦ rest | some nw ↦ contains_ip nw.ip ip nw.ones || rest ]

  -- `validateIP`; `none` is the `nil` error.
  unfoldable pub validate_ip : SecurityConfig → Ip → Option Rejection
  unfolding in_ranges is_empty is_private is_loopback is_link_local_unicast is_link_local_multicast
      is_multicast is_unspecified
  validate_ip c ip =
      if in_ranges c.blocked_source_cidrs ip
      then some blocked_by_policy
      else if (not (is_empty c.allowed_source_cidrs) && is_private ip)
          && not (in_ranges c.allowed_source_cidrs ip)
      then some not_in_allowed
      else if is_loopback ip && not c.allow_loopback_sources
      then some loopback
      else if is_link_local_unicast ip || is_link_local_multicast ip
      then some link_local
      else if is_multicast ip || is_unspecified ip
      then some multicast_or_unspecified
      else if not (is_private ip) && not c.allow_public_sources
      then some public_source
      else none

  -- the loop over the addresses of the host
  unfoldable pub validate_ips : SecurityConfig → List Ip → Option Rejection
  unfolding validate_ip
  validate_ips c [] = none
  validate_ips c (ip ∷ ips) =
      let rest = validate_ips c ips in elim (validate_ip c ip) [ some e ↦ some e | none ↦ rest ]

  -- `ValidateSourceURI` and `ValidateOrReject`, which only logs besides. `parse` is `url.Parse`, and
  -- `lookup` resolves the host name of a URL.
  unfoldable pub validate_source_uri :
      (String → Option Url) → (Url → Option (List Ip)) → SecurityConfig → String → Option Rejection
  unfolding validate_ips
  validate_source_uri parse lookup c raw_url = elim (parse raw_url) [
    | none ↦ some invalid_url
    | some u ↦
        let resolved : Option Rejection = elim (lookup u) [
          | none ↦ some unresolved
          | some ips ↦ validate_ips c ips
        ] in
        if not (eqb u.scheme "http") && not (eqb u.scheme "https")
        then some unsupported_scheme
        else resolved
  ]

-- `safeURL` of the log: the address without its query
unfoldable pub safe_url : String → String
safe_url String.[] = String.[]
safe_url (String.◌∷◌ c s) =
    let rest = safe_url s in if code c == b'?' then "?..." else String.◌∷◌ c rest
