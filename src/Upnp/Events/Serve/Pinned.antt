-- ===== src/Upnp/Events/Serve/Pinned.antt =====
-- internal/upnp/upnp.go: what `validateCallback` accepts.
use ma_dlna.Base.{
  ◌≡◌, ◌≢◌, refl, ◌∙◌, Bool, true, false, not, ◌&&◌, ◌⊎◌, inl, inr, List, [], ◌∷◌, some, String,
  eqb, text_discrete, All, arith, Bool-cases, Option-cases,
}
use ma_dlna.Base.Go.{Url}
use ma_dlna.Config.Security.{Ip}
use ma_dlna.Upnp.Events.Serve.{
  extract_callback_urls, Resolver, is_blocked, any_blocked, any_is, pin_of, check_urls,
  validate_callback,
}

-- One of the addresses reads as the text.
abbrev pub Resolves {ℓ} : {A : Type ℓ} → (A → String) → String → List A → Type 0
Resolves text s [] = ⊥
Resolves text s (x ∷ xs) = (text x ≡ s) ⊎ Resolves text s xs

module _ (r : Resolver) (allow_loopback : Bool) (remote_ip : String) where
  -- A callback URL of the requester: http or https, its host resolves, one of its addresses is the
  -- requester's, and none is blocked.
  pub record IsOwn (raw : String) : Type 0 where
    pub url : Url
    pub parsed : r.parse raw ≡ some url
    pub scheme : (url.scheme ≡ "http") ⊎ (url.scheme ≡ "https")
    pub ips : List Ip
    pub resolved : r.resolve url ≡ some ips
    pub own : Resolves r.ip_text remote_ip ips
    pub open_ : All (λ ip. is_blocked allow_loopback ip ≡ false) ips

  any_is-Resolves :
      (ips : List Ip) → any_is r remote_ip ips ≡ true → Resolves r.ip_text remote_ip ips
  unfolding any_is
  any_is-Resolves [] h = absurd (cc)
  any_is-Resolves (ip ∷ ips) h = elim (text_discrete (r.ip_text ip) remote_ip) [
    | yes e ↦ inl e
    | no n ↦ inr (any_is-Resolves ips (ground (arith, h)))
  ]

  any_blocked-All :
      (ips : List Ip)
      → any_blocked allow_loopback ips ≡ false
      → All (λ ip. is_blocked allow_loopback ip ≡ false) ips
  unfolding any_blocked
  any_blocked-All [] h = tt
  any_blocked-All (ip ∷ ips) h = (ground (arith, h), any_blocked-All ips (ground (arith, h)))

  -- What one URL gives.
  pin_of_lem :
      (ips : List Ip) (pin pin' : String)
      → remote_ip ≢ ""
      → (pin ≡ "") ⊎ (pin ≡ remote_ip)
      → pin_of r remote_ip ips pin ≡ some pin'
      → (pin' ≡ remote_ip) × (any_is r remote_ip ips ≡ true)
  unfolding pin_of
  pin_of_lem ips pin pin' known old h = ground (arith, h, old)

  scheme_of :
      (s : String)
      → (not (eqb s "http") && not (eqb s "https")) ≡ false
      → (s ≡ "http") ⊎ (s ≡ "https")
  scheme_of s h = elim (text_discrete s "http") [
    | yes e ↦ inl e
    | no n ↦ elim (text_discrete s "https") [ yes e ↦ inr e | no n' ↦ absurd (ground (arith, h)) ]
  ]

  module _ (known : remote_ip ≢ "") where
    check_urls-All :
        (urls : List String) (pin pin' : String)
        → (pin ≡ "") ⊎ (pin ≡ remote_ip)
        → check_urls r allow_loopback remote_ip urls pin ≡ some pin'
        → All IsOwn urls × ((pin' ≡ remote_ip) ⊎ ((urls ≡ []) × (pin' ≡ pin)))
    unfolding check_urls
    check_urls-All [] pin pin' old h = (tt, inr (refl, cc))
    check_urls-All (raw ∷ urls) pin pin' old h = elim (Option-cases (r.parse raw)) [
      | inl unparsed ↦ absurd (ground (arith, h, unparsed))
      | inr (u, parsed) ↦
          elim (Bool-cases (not (eqb u.scheme "http") && not (eqb u.scheme "https"))) [
            | inl bad ↦ absurd (ground (arith, h, parsed, bad))
            | inr good ↦ elim (Option-cases (r.resolve u)) [
              | inl lost ↦ absurd (ground (arith, h, parsed, good, lost))
              | inr (ips, resolved) ↦ elim (Option-cases (pin_of r remote_ip ips pin)) [
                | inl foreign ↦ absurd (ground (arith, h, parsed, good, resolved, foreign))
                | inr (p, pinned) ↦ elim (Bool-cases (any_blocked allow_loopback ips)) [
                  | inl blocked ↦
                      absurd (ground (arith, h, parsed, good, resolved, pinned, blocked))
                  | inr free ↦
                      let own = pin_of_lem ips pin p known old pinned in
                      let next : check_urls r allow_loopback remote_ip urls p ≡ some pin' =
                        ground (arith, h, parsed, good, resolved, pinned, free) in
                      let ih = check_urls-All urls p pin' (inr own.0) next in
                      (
                        (
                          record {
                            url = u;
                            parsed = parsed;
                            scheme = scheme_of u.scheme good;
                            ips = ips;
                            resolved = resolved;
                            own = any_is-Resolves ips own.1;
                            open_ = any_blocked-All ips free;
                          },
                          ih.0,
                        ),
                        inl (elim ih.1 [ inl e ↦ e | inr e ↦ e.1 ∙ own.0 ]),
                      )
                ]
              ]
            ]
          ]
    ]

  -- If the address of the requester is known and `validateCallback` accepts a callback header, then
  -- deliveries are pinned to the requester's address, there is a URL in the header, and every URL in it is
  -- one of http or https whose host resolves to addresses that include the requester's and are neither
  -- link-local, multicast nor unspecified, nor loopback unless this is allowed.
  pub validate_callback-All :
      (callback pin : String)
      → remote_ip ≢ ""
      → validate_callback r allow_loopback callback remote_ip ≡ some pin
      → (pin ≡ remote_ip)
        × (extract_callback_urls callback ≢ [])
        × All IsOwn (extract_callback_urls callback)
  unfolding validate_callback
  validate_callback-All callback pin known h = go (extract_callback_urls callback) refl
    where
      go :
          (urls : List String)
          → extract_callback_urls callback ≡ urls
          → (pin ≡ remote_ip) × (urls ≢ []) × All IsOwn urls
      go [] e = absurd (ground (arith, h, e))
      go (raw ∷ urls) e =
          let some_pin : check_urls r allow_loopback remote_ip (raw ∷ urls) "" ≡ some pin =
            ground (arith, h, e) in
          let all = check_urls-All known (raw ∷ urls) "" pin (inl refl) some_pin in
          (elim all.1 [ inl own ↦ own | inr (e', p) ↦ absurd (cc (e')) ], (λ n. cc (n)), all.0)
