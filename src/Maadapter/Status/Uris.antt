-- ===== src/Maadapter/Status/Uris.antt =====
-- The addresses of a media item, and what a Play waits for: a status that names its source.
use ma_dlna.Base.{
  Bool, false, ◌&&◌, ◌||◌, List, [], ◌∷◌, ◌++◌, ◌≡◌, refl, sym, ◌⊎◌, inl, inr, String, eqb,
  text_discrete, subst, arith,
}
use ma_dlna.Base.Go.{trim_space}
use ma_dlna.Maadapter.Status.{
  MaProviderMapping, MaMediaItem, contains_text, add_uri, is_http_uri, add_http, add_urls,
  add_item_ids, current_uris_from_media_item,
}

trim_space-empty : trim_space "" ≡ ""
unfolding trim_space
trim_space-empty = refl

contains_text-append :
    (src : String) (xs ys : List String)
    → contains_text src (xs ++ ys) ≡ (contains_text src xs || contains_text src ys)
unfolding contains_text
contains_text-append src [] ys = refl
contains_text-append src (x ∷ xs) ys = ground (arith, contains_text-append src xs ys)

-- A text that is not empty is among the addresses after `add` if it was before, or is the one added.
add_uri-contains :
    (src uri : String) (uris : List String)
    → eqb src "" ≡ false
    → contains_text src (add_uri uri uris) ≡ (contains_text src uris || eqb (trim_space uri) src)
unfolding add_uri contains_text
add_uri-contains src uri uris named =
    let u = trim_space uri in ground (arith, named, contains_text-append src uris (u ∷ []))

-- The mapping has the text as its address, or as an item id that is an address of the web.
unfoldable pub url_is : String → List MaProviderMapping → Bool
url_is src [] = false
url_is src (m ∷ ms) = eqb (trim_space m.url) src || url_is src ms

unfoldable pub web_id_is : String → List MaProviderMapping → Bool
unfolding is_http_uri
web_id_is src [] = false
web_id_is src (m ∷ ms) =
    (is_http_uri m.item_id && eqb (trim_space m.item_id) src) || web_id_is src ms

module _ (src : String) (named : eqb src "" ≡ false) where
  empty_or_other : (uri : String) → (eqb uri "" ≡ false) ⊎ (eqb (trim_space uri) src ≡ false)
  empty_or_other uri = elim (text_discrete uri "") [
    | yes e ↦
        let at_empty : eqb (trim_space "") src ≡ false = ground (arith, named, trim_space-empty) in
        inr (subst (λ (u : String). eqb (trim_space u) src ≡ false) (sym e) at_empty)
    | no other ↦ inl (ground (arith, other))
  ]

  add_http-contains :
      (uri : String) (uris : List String)
      → contains_text src (add_http uri uris)
        ≡ (contains_text src uris || (is_http_uri uri && eqb (trim_space uri) src))
  unfolding add_http
  add_http-contains uri uris =
      ground (arith, empty_or_other uri, add_uri-contains src uri uris named)

  add_urls-contains :
      (ms : List MaProviderMapping) (uris : List String)
      → contains_text src (add_urls ms uris) ≡ (contains_text src uris || url_is src ms)
  unfolding add_urls url_is
  add_urls-contains [] uris = ground arith
  add_urls-contains (m ∷ ms) uris = ground (
    arith,
    empty_or_other m.url,
    add_uri-contains src m.url uris named,
    add_urls-contains ms uris,
    add_urls-contains ms (add_uri m.url uris),
  )

  add_item_ids-contains :
      (ms : List MaProviderMapping) (uris : List String)
      → contains_text src (add_item_ids ms uris) ≡ (contains_text src uris || web_id_is src ms)
  unfolding add_item_ids web_id_is
  add_item_ids-contains [] uris = ground arith
  add_item_ids-contains (m ∷ ms) uris =
      ground (
        arith,
        add_http-contains m.item_id uris,
        add_item_ids-contains ms (add_http m.item_id uris),
      )

  -- For a text that is not empty, the addresses of a media item contain it exactly when it is, without the
  -- space around it, the address of a mapping, or the item id of a mapping whose item id is an address of
  -- the web, or the address or the id of the item.
  pub current_uris-contains :
      (item : MaMediaItem)
      → contains_text src (current_uris_from_media_item item) ≡ (
          url_is src item.provider_mappings
          || web_id_is src item.provider_mappings
          || eqb (trim_space item.uri) src
          || eqb (trim_space item.item_id) src)
  unfolding current_uris_from_media_item contains_text
  current_uris-contains item =
      let ms = item.provider_mappings in
      let urls = add_urls ms [] in
      let web = add_http item.item_id (add_http item.uri urls) in
      let ids = add_item_ids ms web in
      ground (
        arith,
        add_urls-contains ms [],
        add_http-contains item.uri urls,
        add_http-contains item.item_id (add_http item.uri urls),
        add_item_ids-contains ms web,
        add_uri-contains src item.uri ids named,
        add_uri-contains src item.item_id (add_uri item.uri ids) named,
      )
