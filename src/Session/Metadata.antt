-- ===== src/Session/Metadata.antt =====
-- internal/session/session.go: the metadata of a session, from the DIDL-Lite document of the control
-- point. Go's XML decoder and URL parser are arguments.
pub mod Protocol
use Prim.Native.Char.{Char, code}
use Prim.Native.String.{String}
use ma_dlna.Base.{
  ℕ, Bool, true, false, not, ◌||◌, List, [], ◌∷◌, Option, none, some, ◌==◌, eqb, if◌then◌else◌,
}
use ma_dlna.Session.Types.{Metadata}

pub record DidlItem : Type 0 where
  pub title : String
  pub creator : String
  pub artist : String
  pub album : String
  pub album_art_uri : String
  pub duration : String
  pub protocol_info : String

abbrev pub empty_metadata : Metadata
empty_metadata = record {
  title = "";
  artist = "";
  album = "";
  album_art_uri = "";
  duration = "";
  content_type = "";
}

unfoldable pub cons_head : Char → List String → List String
cons_head c [] = String.◌∷◌ c String.[] ∷ []
cons_head c (part ∷ parts) = String.◌∷◌ c part ∷ parts

-- `strings.Split` at one character.
unfoldable pub split : ℕ → String → List String
unfolding cons_head
split d String.[] = String.[] ∷ []
split d (String.◌∷◌ c s) =
    let rest = split d s in if code c == d then String.[] ∷ rest else cons_head c rest

unfoldable pub third : List String → String
third (a ∷ b ∷ c ∷ parts) = if eqb c "*" then "" else c
third _ = ""

unfoldable pub content_type_from_protocol_info : String → String
unfolding third
content_type_from_protocol_info info = third (split b':' info)

unfoldable pub build_metadata : DidlItem → Metadata
unfolding content_type_from_protocol_info
build_metadata it = record {
  title = it.title;
  artist = if not (eqb it.artist "") then it.artist else it.creator;
  album = it.album;
  album_art_uri = it.album_art_uri;
  duration = it.duration;
  content_type = content_type_from_protocol_info it.protocol_info;
}

-- `decode_doc` decodes the items of a DIDL-Lite document, `decode_item` a bare item; `none` is an
-- error.
unfoldable pub parse_didl :
    (String → Option (List DidlItem)) → (String → Option DidlItem) → String → Metadata
unfolding build_metadata
parse_didl decode_doc decode_item xml =
    let bare : Metadata = elim (decode_item xml) [
      | none ↦ empty_metadata
      | some it ↦ build_metadata it
    ] in
    let parsed : Metadata = elim (decode_doc xml) [
      | some (it ∷ items) ↦ build_metadata it
      | _ ↦ bare
    ] in
    if eqb xml "" then empty_metadata else parsed

-- a URL as `net/url` reads it, with `ResolveReference`
pub record Urls (U : Type 0) : Type 0 where
  pub parse : String → Option U
  pub is_abs : U → Bool
  pub scheme : U → String
  pub host : U → String
  pub resolve : U → U → String

unfoldable pub against_base : {U : Type 0} → Urls U → Metadata → U → Option U → Metadata
against_base u md art none = md
against_base u md art (some base) =
    if eqb (u.scheme base) "" || eqb (u.host base) ""
    then md
    else record md { album_art_uri = u.resolve base art }

unfoldable pub resolve_metadata_uris : {U : Type 0} → Urls U → Metadata → String → Metadata
unfolding against_base
resolve_metadata_uris u md source_uri =
    let resolved : Metadata = elim (u.parse md.album_art_uri) [
      | none ↦ md
      | some art ↦ if u.is_abs art then md else against_base u md art (u.parse source_uri)
    ] in
    if eqb md.album_art_uri "" then md else resolved
