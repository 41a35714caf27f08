-- ===== src/Maadapter/Status.antt =====
-- internal/maadapter/direct.go: the status of the player, from the queues of Music Assistant. Floating-point
-- numbers, with their conversions, and the calls of Music Assistant are arguments.
pub mod Uris
use ma_dlna.Base.{
  Bool, true, false, not, ◌&&◌, ◌||◌, List, [], ◌∷◌, ◌++◌, Option, none, some, String, eqb,
  if◌then◌else◌,
}
use ma_dlna.Base.Go.{starts_with, trim_space}
use ma_dlna.Base.Int.{ℤ, pos, ltb_ℤ}
use ma_dlna.Maadapter.Reply.{ma_command_timeout, Outcome, success, failure}
use ma_dlna.Upnp.PosCache.{PlayerStatus, advanced}

pub record MaProviderMapping : Type 0 where
  pub item_id : String
  pub url : String

pub record MaMediaItem : Type 0 where
  pub item_id : String
  pub uri : String
  pub provider_mappings : List MaProviderMapping

-- `current_item` is the media item of the current item, `none` where either pointer is nil.
pub record MaQueueStatus (F : Type 0) : Type 0 where
  pub state : Option String
  pub queue_id : Option String
  pub elapsed_time : Option F
  pub elapsed_time_last_updated : Option F
  pub current_item : Option MaMediaItem

unfoldable pub contains_text : String → List String → Bool
contains_text uri [] = false
contains_text uri (existing ∷ uris) = eqb existing uri || contains_text uri uris

-- the closure `add`
unfoldable pub add_uri : String → List String → List String
unfolding contains_text trim_space
add_uri uri uris =
    let u = trim_space uri in
    if eqb u "" then uris else if contains_text u uris then uris else uris ++ (u ∷ [])

unfoldable pub is_http_uri : String → Bool
is_http_uri uri = starts_with "http://" uri || starts_with "https://" uri

-- an address that is added where it is one of the web
unfoldable pub add_http : String → List String → List String
unfolding add_uri is_http_uri
add_http uri uris = if not (eqb uri "") && is_http_uri uri then add_uri uri uris else uris

unfoldable pub add_urls : List MaProviderMapping → List String → List String
unfolding add_uri
add_urls [] uris = uris
add_urls (m ∷ ms) uris =
    let rest = add_urls ms (add_uri m.url uris) in
    let skipped = add_urls ms uris in if not (eqb m.url "") then rest else skipped

unfoldable pub add_item_ids : List MaProviderMapping → List String → List String
unfolding add_http
add_item_ids [] uris = uris
add_item_ids (m ∷ ms) uris = add_item_ids ms (add_http m.item_id uris)

unfoldable pub current_uris_from_media_item : MaMediaItem → List String
unfolding add_urls add_http add_item_ids add_uri
current_uris_from_media_item item =
    let mappings = item.provider_mappings in
    let web = add_http item.item_id (add_http item.uri (add_urls mappings [])) in
    add_uri item.item_id (add_uri item.uri (add_item_ids mappings web))

-- the first text, or ""
unfoldable pub first_uri : List String → String
first_uri [] = ""
first_uri (uri ∷ uris) = uri

unfoldable pub or_empty : Option String → String
or_empty none = ""
or_empty (some s) = s

unfoldable pub uris_of : Option MaMediaItem → List String
unfolding current_uris_from_media_item
uris_of none = []
uris_of (some item) = current_uris_from_media_item item

-- `to_duration` turns seconds into nanoseconds, `ma_timestamp_to_time` gives `none` for a zero time.
module _ {F : Type 0} (to_duration : F → ℤ) (ma_timestamp_to_time : F → Option ℤ)
    (target : String) where
  unfoldable pub player_status_from_ma : MaQueueStatus F → PlayerStatus
  unfolding uris_of first_uri or_empty
  player_status_from_ma q =
      let uris = uris_of q.current_item in
      record {
        state = elim q.state [ none ↦ "unknown" | some st ↦ st ];
        queue_id = or_empty q.queue_id;
        current_uri = first_uri uris;
        current_uris = uris;
        has_elapsed = elim q.elapsed_time [ none ↦ false | some t ↦ true ];
        elapsed = elim q.elapsed_time [ none ↦ pos 0 | some t ↦ to_duration t ];
        elapsed_updated_at = elim q.elapsed_time_last_updated [
          | none ↦ none
          | some t ↦ ma_timestamp_to_time t
        ];
      }

  -- A queue id, or the target where it is missing.
  unfoldable pub queue_or_target : String → String
  queue_or_target qid = if eqb qid "" then target else qid

  unfoldable pub with_queue_id : String → PlayerStatus → PlayerStatus
  with_queue_id qid ps = if eqb ps.queue_id "" then record ps { queue_id = qid } else ps

  -- what the full status of the queue adds to one without addresses
  unfoldable pub completed : PlayerStatus → PlayerStatus → PlayerStatus
  completed full ps =
      let with_uris : PlayerStatus = elim full.current_uris [
        | [] ↦ ps
        | uri ∷ uris ↦ record ps {
          current_uri = full.current_uri;
          current_uris = full.current_uris;
        }
      ] in
      if not ps.has_elapsed && full.has_elapsed
      then record with_uris {
        elapsed = full.elapsed;
        elapsed_updated_at = full.elapsed_updated_at;
        has_elapsed = true;
      }
      else with_uris

  -- `active` is the answer for the active queue of the player, `get` for a queue by its id, in the time
  -- that remains.
  module _ (active : Outcome (Option (MaQueueStatus F)))
      (get : String → Outcome (Option (MaQueueStatus F))) where
    -- The status of a queue that has a state. Failures of the second call are passed over.
    unfoldable pub active_status : MaQueueStatus F → PlayerStatus
    unfolding player_status_from_ma with_queue_id completed
    active_status q =
        let ps = with_queue_id target (player_status_from_ma q) in
        let full : PlayerStatus = elim (get ps.queue_id) [
          | success (some q') ↦ completed (player_status_from_ma q') ps
          | success none ↦ ps
          | failure e ↦ ps
        ] in
        elim ps.current_uris [ [] ↦ if eqb ps.state "playing" then full else ps | uri ∷ uris ↦ ps ]

    unfoldable pub queue_status : String → Outcome PlayerStatus
    unfolding player_status_from_ma with_queue_id
    queue_status qid = elim (get qid) [
      | failure e ↦ failure e
      | success none ↦ success (record {
        state = "unknown";
        queue_id = "";
        current_uri = "";
        current_uris = [];
        has_elapsed = false;
        elapsed = pos 0;
        elapsed_updated_at = none;
      })
      | success (some q) ↦ success (with_queue_id qid (player_status_from_ma q))
    ]

    unfoldable pub get_status_within : ℤ → Outcome PlayerStatus
    unfolding active_status queue_status queue_or_target or_empty
    get_status_within timeout =
        let polled : Outcome PlayerStatus = elim active [
          | failure e ↦ failure e
          | success none ↦ queue_status target
          | success (some q) ↦ elim q.state [
            | some st ↦ success (active_status q)
            | none ↦ queue_status (queue_or_target (or_empty q.queue_id))
          ]
        ] in
        if ltb_ℤ (pos 0) timeout then polled else failure ma_command_timeout

    -- The status and the position, or `none` where it is not known.
    unfoldable pub playback_position : ℤ → ℤ → Outcome (Option ℤ)
    unfolding get_status_within advanced
    playback_position timeout now = elim (get_status_within timeout) [
      | failure e ↦ failure e
      | success st ↦
          if not st.has_elapsed
          then success none
          else if eqb st.state "playing"
          then success (some (advanced now st.elapsed st.elapsed_updated_at))
          else success (some st.elapsed)
    ]

  -- `resolveQueueID`
  unfoldable pub resolve_queue_id : Outcome (Option (MaQueueStatus F)) → Outcome String
  unfolding queue_or_target or_empty
  resolve_queue_id (failure e) = failure e
  resolve_queue_id (success none) = success target
  resolve_queue_id (success (some q)) = success (queue_or_target (or_empty q.queue_id))

  -- Resume, Stop, Pause and Seek: the command goes to the queue, if the player has told one.
  unfoldable pub queue_command :
      Outcome (Option (MaQueueStatus F)) → (String → Outcome Unit) → Outcome Unit
  unfolding resolve_queue_id
  queue_command active send = elim (resolve_queue_id active) [
    | failure e ↦ failure e
    | success qid ↦ send qid
  ]
