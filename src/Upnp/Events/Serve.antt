-- ===== src/Upnp/Events/Serve.antt =====
-- internal/upnp/upnp.go: the requests for subscriptions, `serveEvent`, and the check of the address to
-- which events are delivered.
pub mod Pinned
use ma_dlna.Base.{
  ℕ, Bool, true, false, not, ◌&&◌, ◌||◌, List, [], ◌∷◌, Option, none, some, String, eqb,
  if◌then◌else◌,
}
use ma_dlna.Base.Int.{ℤ}
use ma_dlna.Base.Go.{Url, contains, starts_with, trim_space}
use ma_dlna.Base.Dict.{lookup}
use ma_dlna.Session.Metadata.{split}
use ma_dlna.Stream.Streamer.Serve.{trim_prefix}
use ma_dlna.Config.Security.{
  Ip, is_loopback, is_link_local_unicast, is_link_local_multicast, is_multicast, is_unspecified,
}
use ma_dlna.Upnp.Events.{Events, add_subscriber, renew, unsubscribe}

unfoldable pub event_service_from_path : String → String
unfolding contains
event_service_from_path path =
    if contains "/rendering/" path
    then "RenderingControl"
    else if contains "/connection/" path
    then "ConnectionManager"
    else "AVTransport"

-- the parts of the header that start with an angle bracket
unfoldable pub bracketed : List String → List String
unfolding trim_space starts_with
bracketed [] = []
bracketed (part ∷ parts) =
    let rest = bracketed parts in
    let p = trim_space part in if starts_with "<" p then trim_prefix "<" p ∷ rest else rest

unfoldable pub extract_callback_urls : String → List String
unfolding bracketed
extract_callback_urls callback = bracketed (split b'>' callback)

-- `parse` is `url.Parse`, `resolve` looks the host of a URL up, `ip_text` is `IP.String`.
pub record Resolver : Type 0 where
  pub parse : String → Option Url
  pub resolve : Url → Option (List Ip)
  pub ip_text : Ip → String

-- An address to which no event is sent.
unfoldable pub is_blocked : Bool → Ip → Bool
is_blocked allow_loopback ip =
    (is_loopback ip && not allow_loopback)
    || is_link_local_unicast ip
    || is_link_local_multicast ip
    || is_multicast ip
    || is_unspecified ip

unfoldable pub any_blocked : Bool → List Ip → Bool
unfolding is_blocked
any_blocked allow_loopback [] = false
any_blocked allow_loopback (ip ∷ ips) =
    is_blocked allow_loopback ip || any_blocked allow_loopback ips

module _ (r : Resolver) where
  unfoldable pub any_is : String → List Ip → Bool
  any_is remote [] = false
  any_is remote (ip ∷ ips) = eqb (r.ip_text ip) remote || any_is remote ips

  unfoldable pub first_text : List Ip → String
  first_text [] = ""
  first_text (ip ∷ ips) = r.ip_text ip

  -- The address to which deliveries are pinned, after one URL; `none` is an error. A lookup without an
  -- error has an address.
  unfoldable pub pin_of : String → List Ip → String → Option String
  unfolding any_is first_text
  pin_of remote_ip ips pin =
      if not (eqb remote_ip "")
      then (if any_is remote_ip ips then some (if eqb pin "" then remote_ip else pin) else none)
      else some (if eqb pin "" then first_text ips else pin)

  -- The loop over the URLs of the header.
  unfoldable pub check_urls : Bool → String → List String → String → Option String
  unfolding pin_of any_blocked
  check_urls allow_loopback remote_ip [] pin = some pin
  check_urls allow_loopback remote_ip (raw ∷ urls) pin = elim (r.parse raw) [
    | none ↦ none
    | some u ↦
        if not (eqb u.scheme "http") && not (eqb u.scheme "https")
        then none
        else elim (r.resolve u) [
          | none ↦ none
          | some ips ↦ elim (pin_of remote_ip ips pin) [
            | none ↦ none
            | some pin' ↦
                if any_blocked allow_loopback ips
                then none
                else check_urls allow_loopback remote_ip urls pin'
          ]
        ]
  ]

  -- `validateCallback`, from the host of the remote address on, which is "" where it does not parse.
  unfoldable pub validate_callback : Bool → String → String → Option String
  unfolding check_urls extract_callback_urls
  validate_callback allow_loopback callback remote_ip = elim (extract_callback_urls callback) [
    | [] ↦ none
    | raw ∷ urls ↦ check_urls allow_loopback remote_ip (raw ∷ urls) ""
  ]

-- `sid` is the header `SID` of the request.
pub record Request : Type 0 where
  pub method : String
  pub path : String
  pub sid : String
  pub callback : String
  pub remote_ip : String

-- The status, the header `SID`, and the subscriber whose first delivery waits for this response.
pub record Response : Type 0 where
  pub status : ℕ
  pub sid : String
  pub releases : Option ℕ

abbrev respond_with : ℕ → String → Response
respond_with status sid = record { status = status; sid = sid; releases = none }

-- `body` gives the body of the first event for a service, under the same lock.
module _ (r : Resolver) (allow_loopback : Bool) (body : String → String) (now : ℤ) where
  unfoldable pub serve_renewal : String → Option ℕ → Events → Response × Events
  unfolding renew
  serve_renewal sid none ev = (respond_with 412 "", ev)
  serve_renewal sid (some a) ev = (respond_with 200 sid, renew sid now ev)

  -- A new subscription; `new_sid` is "uuid:" and a random UUID.
  unfoldable pub serve_subscription : Request → String → Option String → Events → Response × Events
  unfolding add_subscriber event_service_from_path
  serve_subscription req new_sid none ev = (respond_with 412 "", ev)
  serve_subscription req new_sid (some pin) ev =
      let svc = event_service_from_path req.path in
      (
        record { status = 200; sid = new_sid; releases = some ev.next },
        add_subscriber new_sid req.callback pin svc (body svc) now ev,
      )

  unfoldable pub serve_event : Request → String → Events → Response × Events
  unfolding serve_renewal serve_subscription unsubscribe validate_callback
  serve_event req new_sid ev =
      if eqb req.method "SUBSCRIBE"
      then if not (eqb req.sid "")
        then serve_renewal req.sid (lookup req.sid ev.subscribers) ev
        else if eqb req.callback ""
        then (respond_with 400 "", ev)
        else serve_subscription req new_sid
            (validate_callback r allow_loopback req.callback req.remote_ip) ev
      else if eqb req.method "UNSUBSCRIBE"
      then (respond_with 200 "", unsubscribe req.sid ev)
      else (respond_with 405 "", ev)
