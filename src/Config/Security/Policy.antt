-- ===== src/Config/Security/Policy.antt =====
-- internal/config/security.go: which addresses of a source are admitted.
use ma_dlna.Base.{
  ◌≡◌, ◌↔◌, refl, true, false, not, ◌&&◌, ◌⊎◌, inl, inr, List, [], ◌∷◌, Option, none, some, String,
  text_discrete, arith, Option-cases, Bool-cases, All,
}
use ma_dlna.Base.Go.{Url}
use ma_dlna.Config.{SecurityConfig}
use ma_dlna.Config.Security.{
  Ip, IpNet, contains_ip, is_private, is_loopback, is_link_local_unicast, is_link_local_multicast,
  is_multicast, is_unspecified, in_ranges, is_empty, validate_ip, validate_ips, validate_source_uri,
}

is_empty-nil : (xs : List String) → is_empty xs ≡ true → xs ≡ []
unfolding is_empty
is_empty-nil [] h = refl
is_empty-nil (x ∷ xs) h = absurd (cc)

module _ (parse_cidr : String → Option IpNet) where
  -- The address lies in one of the ranges that parse.
  abbrev pub InSome : List String → Ip → Type 0
  InSome [] ip = ⊥
  InSome (cidr ∷ cidrs) ip =
      ((nw : IpNet) × (parse_cidr cidr ≡ some nw) × (contains_ip nw.ip ip nw.ones ≡ true))
      ⊎ InSome cidrs ip

  in_ranges-InSome :
      (cidrs : List String) (ip : Ip) → in_ranges parse_cidr cidrs ip ≡ true → InSome cidrs ip
  unfolding in_ranges
  in_ranges-InSome [] ip h = absurd (cc)
  in_ranges-InSome (cidr ∷ cidrs) ip h = elim (Option-cases (parse_cidr cidr)) [
    | inl unparsed ↦ inr (in_ranges-InSome cidrs ip (ground (arith, h, unparsed)))
    | inr (nw, parsed) ↦ elim (Bool-cases (contains_ip nw.ip ip nw.ones)) [
      | inl here ↦ inl (nw, parsed, here)
      | inr elsewhere ↦ inr (in_ranges-InSome cidrs ip (ground (arith, h, parsed, elsewhere)))
    ]
  ]

  InSome-in_ranges :
      (cidrs : List String) (ip : Ip) → InSome cidrs ip → in_ranges parse_cidr cidrs ip ≡ true
  unfolding in_ranges
  InSome-in_ranges [] ip h = absurd h
  InSome-in_ranges (cidr ∷ cidrs) ip (inl (nw, parsed, here)) = ground (arith, parsed, here)
  InSome-in_ranges (cidr ∷ cidrs) ip (inr h) =
      ground (arith, InSome-in_ranges cidrs ip h, Option-cases (parse_cidr cidr))

  -- The policy for one address.
  pub record Admitted (c : SecurityConfig) (ip : Ip) : Type 0 where
    pub not_blocked : ¬ (InSome c.blocked_source_cidrs ip)
    pub listed :
        is_private ip ≡ true → (c.allowed_source_cidrs ≡ []) ⊎ InSome c.allowed_source_cidrs ip
    pub looped : is_loopback ip ≡ true → c.allow_loopback_sources ≡ true
    pub routed : (is_link_local_unicast ip ≡ false) × (is_link_local_multicast ip ≡ false)
    pub one_host : (is_multicast ip ≡ false) × (is_unspecified ip ≡ false)
    pub reached : (is_private ip ≡ true) ⊎ (c.allow_public_sources ≡ true)

  listed_of_checked :
      (allowed : List String) (ip : Ip)
      → ((not (is_empty allowed) && is_private ip) && not (in_ranges parse_cidr allowed ip)) ≡ false
      → is_private ip ≡ true
      → (allowed ≡ []) ⊎ InSome allowed ip
  listed_of_checked allowed ip h private = elim (Bool-cases (is_empty allowed)) [
    | inl empty ↦ inl (is_empty-nil allowed empty)
    | inr some_range ↦ inr (in_ranges-InSome allowed ip (ground (arith, h, private, some_range)))
  ]

  validate_ip-Admitted :
      (c : SecurityConfig) (ip : Ip) → validate_ip parse_cidr c ip ≡ none → Admitted c ip
  unfolding validate_ip
  validate_ip-Admitted c ip h = record {
    not_blocked = λ b. absurd (ground (arith, h, InSome-in_ranges c.blocked_source_cidrs ip b));
    listed = listed_of_checked c.allowed_source_cidrs ip (ground (arith, h));
    looped = λ l. ground (arith, h, l);
    routed = ground (arith, h);
    one_host = ground (arith, h);
    reached = elim (Bool-cases (is_private ip)) [
      | inl private ↦ inl private
      | inr public ↦ inr (ground (arith, h, public))
    ];
  }

  not_in_ranges :
      (cidrs : List String) (ip : Ip) → ¬ (InSome cidrs ip) → in_ranges parse_cidr cidrs ip ≡ false
  not_in_ranges cidrs ip out = elim (Bool-cases (in_ranges parse_cidr cidrs ip)) [
    | inl inside ↦ absurd (out (in_ranges-InSome cidrs ip inside))
    | inr outside ↦ outside
  ]

  listed-checked :
      (allowed : List String) (ip : Ip)
      → (is_private ip ≡ true → (allowed ≡ []) ⊎ InSome allowed ip)
      → ((not (is_empty allowed) && is_private ip) && not (in_ranges parse_cidr allowed ip)) ≡ false
  unfolding is_empty
  listed-checked [] ip h = refl
  listed-checked (x ∷ xs) ip h = elim (Bool-cases (is_private ip)) [
    | inr public ↦ rw public refl
    | inl private ↦ elim (h private) [
      | inl empty ↦ absurd (cc)
      | inr inside ↦ rw (private, InSome-in_ranges (x ∷ xs) ip inside) refl
    ]
  ]

  Admitted-validate_ip :
      (c : SecurityConfig) (ip : Ip) → Admitted c ip → validate_ip parse_cidr c ip ≡ none
  unfolding validate_ip
  Admitted-validate_ip c ip a =
      let unblocked = not_in_ranges c.blocked_source_cidrs ip a.not_blocked in
      let listed = listed-checked c.allowed_source_cidrs ip a.listed in
      let looped : (is_loopback ip && not c.allow_loopback_sources) ≡ false =
        elim (Bool-cases (is_loopback ip)) [
          | inl l ↦ rw (l, a.looped l) refl
          | inr l ↦ rw l refl
        ] in
      let reached : (not (is_private ip) && not c.allow_public_sources) ≡ false = elim a.reached [
        | inl p ↦ rw p refl
        | inr p ↦ ground (arith, p)
      ] in
      ground (arith, unblocked, listed, looped, reached, a.routed, a.one_host)

  validate_ips-All :
      (c : SecurityConfig) (ips : List Ip)
      → validate_ips parse_cidr c ips ≡ none
      → All (Admitted c) ips
  unfolding validate_ips
  validate_ips-All c [] h = tt
  validate_ips-All c (ip ∷ ips) h = elim (Option-cases (validate_ip parse_cidr c ip)) [
    | inl fine ↦ (validate_ip-Admitted c ip fine, validate_ips-All c ips (ground (arith, h, fine)))
    | inr (e, refused) ↦ absurd (ground (arith, h, refused))
  ]

  All-validate_ips :
      (c : SecurityConfig) (ips : List Ip)
      → All (Admitted c) ips
      → validate_ips parse_cidr c ips ≡ none
  unfolding validate_ips
  All-validate_ips c [] h = refl
  All-validate_ips c (ip ∷ ips) h =
      ground (arith, Admitted-validate_ip c ip h.0, All-validate_ips c ips h.1)

  accepted :
      (parse : String → Option Url) (lookup : Url → Option (List Ip)) (c : SecurityConfig)
      (raw_url : String)
      → validate_source_uri parse_cidr parse lookup c raw_url ≡ none
      → (u : Url) × (parse raw_url ≡ some u)
        × ((u.scheme ≡ "http") ⊎ (u.scheme ≡ "https"))
        × ((ips : List Ip) × (lookup u ≡ some ips) × All (Admitted c) ips)
  unfolding validate_source_uri
  accepted parse lookup c raw_url h = elim (Option-cases (parse raw_url)) [
    | inl unparsed ↦ absurd (ground (arith, h, unparsed))
    | inr (u, parsed) ↦ elim (Option-cases (lookup u)) [
      | inl unresolved_host ↦ absurd (ground (arith, h, parsed, unresolved_host))
      | inr (ips, resolved) ↦ (
        u,
        parsed,
        elim (text_discrete u.scheme "http") [
          | yes e ↦ inl e
          | no n ↦ elim (text_discrete u.scheme "https") [
            | yes e ↦ inr e
            | no n' ↦ absurd (ground (arith, h, parsed))
          ]
        ],
        (ips, resolved, validate_ips-All c ips (ground (arith, h, parsed, resolved))),
      )
    ]
  ]

  admitted :
      (parse : String → Option Url) (lookup : Url → Option (List Ip)) (c : SecurityConfig)
      (raw_url : String)
      → (u : Url) × (parse raw_url ≡ some u)
        × ((u.scheme ≡ "http") ⊎ (u.scheme ≡ "https"))
        × ((ips : List Ip) × (lookup u ≡ some ips) × All (Admitted c) ips)
      → validate_source_uri parse_cidr parse lookup c raw_url ≡ none
  unfolding validate_source_uri
  admitted parse lookup c raw_url (u, parsed, scheme, (ips, resolved, all)) =
      let fine = All-validate_ips c ips all in ground (arith, parsed, scheme, resolved, fine)

  -- `ValidateSourceURI` accepts an address exactly when it parses, its scheme is http or https, its host
  -- resolves, and every IP address of the host is admitted: it lies in no blocked range that parses; if it
  -- is private, there is no list of allowed ranges or it lies in one; if it is a loopback address, these
  -- are allowed; it is neither link-local nor multicast nor unspecified; and it is private, or public
  -- sources are allowed.
  pub validate_source_uri_iff :
      (parse : String → Option Url) (lookup : Url → Option (List Ip)) (c : SecurityConfig)
      (raw_url : String)
      → (validate_source_uri parse_cidr parse lookup c raw_url ≡ none) ↔ (
          (u : Url) × (parse raw_url ≡ some u)
          × ((u.scheme ≡ "http") ⊎ (u.scheme ≡ "https"))
          × ((ips : List Ip) × (lookup u ≡ some ips) × All (Admitted c) ips))
  unfolding validate_source_uri
  validate_source_uri_iff parse lookup c raw_url =
      (accepted parse lookup c raw_url, admitted parse lookup c raw_url)
