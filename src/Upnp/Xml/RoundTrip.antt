-- ===== src/Upnp/Xml/RoundTrip.antt =====
-- internal/upnp/upnp.go: what each replacement of `escapeXML` and `unescapeXML` does, and that they undo
-- each other.
use Prim.Native.Char.{Char}
use Prim.Native.String.{String}
use ma_dlna.Base.{true, false, ◌≡◌, refl, sym, ap, ◌∙◌, arith}
use ma_dlna.Base.Go.{starts_with}
use ma_dlna.Upnp.Xml.{size, replace_from, replace_all, escape_xml, unescape_xml}
use ma_dlna.Upnp.Xml.Escapes.{
  pieces, Turns, replace_pieces, one, escaped, by_character, one_lem, amp_lem, lt_lem, gt_lem,
  quot_lem, other_lem,
}

amp-Turns :
    (c : Char)
    → Turns "&" "&amp;" (escaped false false false false) (escaped true false false false) c
unfolding replace_from starts_with size
amp-Turns =
    by_character
      (Turns "&" "&amp;" (escaped false false false false) (escaped true false false false))
      (λ rest. rw (one_lem "&" rest) refl)
      (λ rest. rw (one_lem "<" rest, one_lem "<" (replace_from "&" "&amp;" 0 rest)) refl)
      (λ rest. rw (one_lem ">" rest, one_lem ">" (replace_from "&" "&amp;" 0 rest)) refl)
      (λ rest. rw (one_lem "\"" rest, one_lem "\"" (replace_from "&" "&amp;" 0 rest)) refl)
      λ c a b d e rest.
        other_lem "&" "&amp;" (escaped false false false false) (escaped true false false false) c
          rest (ground arith) (ground arith) (ground arith)

lt-Turns :
    (c : Char) → Turns "<" "&lt;" (escaped true false false false) (escaped true true false false) c
unfolding replace_from starts_with size
lt-Turns =
    by_character (Turns "<" "&lt;" (escaped true false false false) (escaped true true false false))
      (λ rest. rw (amp_lem rest, amp_lem (replace_from "<" "&lt;" 0 rest)) refl)
      (λ rest. rw (one_lem "<" rest) refl)
      (λ rest. rw (one_lem ">" rest, one_lem ">" (replace_from "<" "&lt;" 0 rest)) refl)
      (λ rest. rw (one_lem "\"" rest, one_lem "\"" (replace_from "<" "&lt;" 0 rest)) refl)
      λ c a b d e rest.
        other_lem "<" "&lt;" (escaped true false false false) (escaped true true false false) c rest
          (ground arith) (ground arith) (ground arith)

gt-Turns :
    (c : Char) → Turns ">" "&gt;" (escaped true true false false) (escaped true true true false) c
unfolding replace_from starts_with size
gt-Turns =
    by_character (Turns ">" "&gt;" (escaped true true false false) (escaped true true true false))
      (λ rest. rw (amp_lem rest, amp_lem (replace_from ">" "&gt;" 0 rest)) refl)
      (λ rest. rw (lt_lem rest, lt_lem (replace_from ">" "&gt;" 0 rest)) refl)
      (λ rest. rw (one_lem ">" rest) refl)
      (λ rest. rw (one_lem "\"" rest, one_lem "\"" (replace_from ">" "&gt;" 0 rest)) refl)
      λ c a b d e rest.
        other_lem ">" "&gt;" (escaped true true false false) (escaped true true true false) c rest
          (ground arith) (ground arith) (ground arith)

quot-Turns :
    (c : Char) → Turns "\"" "&quot;" (escaped true true true false) (escaped true true true true) c
unfolding replace_from starts_with size
quot-Turns =
    by_character (Turns "\"" "&quot;" (escaped true true true false) (escaped true true true true))
      (λ rest. rw (amp_lem rest, amp_lem (replace_from "\"" "&quot;" 0 rest)) refl)
      (λ rest. rw (lt_lem rest, lt_lem (replace_from "\"" "&quot;" 0 rest)) refl)
      (λ rest. rw (gt_lem rest, gt_lem (replace_from "\"" "&quot;" 0 rest)) refl)
      (λ rest. rw (one_lem "\"" rest) refl)
      λ c a b d e rest.
        other_lem "\"" "&quot;" (escaped true true true false) (escaped true true true true) c rest
          (ground arith) (ground arith) (ground arith)

un_lt-Turns :
    (c : Char) → Turns "&lt;" "<" (escaped true true true true) (escaped true false true true) c
unfolding replace_from starts_with size
un_lt-Turns =
    by_character (Turns "&lt;" "<" (escaped true true true true) (escaped true false true true))
      (λ rest. rw (amp_lem rest, amp_lem (replace_from "&lt;" "<" 0 rest)) refl)
      (λ rest. rw (lt_lem rest) refl)
      (λ rest. rw (gt_lem rest, gt_lem (replace_from "&lt;" "<" 0 rest)) refl)
      (λ rest. rw (quot_lem rest, quot_lem (replace_from "&lt;" "<" 0 rest)) refl)
      λ c a b d e rest.
        other_lem "&lt;" "<" (escaped true true true true) (escaped true false true true) c rest
          (ground arith) (ground arith) (ground arith)

un_gt-Turns :
    (c : Char) → Turns "&gt;" ">" (escaped true false true true) (escaped true false false true) c
unfolding replace_from starts_with size
un_gt-Turns =
    by_character (Turns "&gt;" ">" (escaped true false true true) (escaped true false false true))
      (λ rest. rw (amp_lem rest, amp_lem (replace_from "&gt;" ">" 0 rest)) refl)
      (λ rest. rw (one_lem "<" rest, one_lem "<" (replace_from "&gt;" ">" 0 rest)) refl)
      (λ rest. rw (gt_lem rest) refl)
      (λ rest. rw (quot_lem rest, quot_lem (replace_from "&gt;" ">" 0 rest)) refl)
      λ c a b d e rest.
        other_lem "&gt;" ">" (escaped true false true true) (escaped true false false true) c rest
          (ground arith) (ground arith) (ground arith)

un_quot-Turns :
    (c : Char)
    → Turns "&quot;" "\"" (escaped true false false true) (escaped true false false false) c
unfolding replace_from starts_with size
un_quot-Turns =
    by_character
      (Turns "&quot;" "\"" (escaped true false false true) (escaped true false false false))
      (λ rest. rw (amp_lem rest, amp_lem (replace_from "&quot;" "\"" 0 rest)) refl)
      (λ rest. rw (one_lem "<" rest, one_lem "<" (replace_from "&quot;" "\"" 0 rest)) refl)
      (λ rest. rw (one_lem ">" rest, one_lem ">" (replace_from "&quot;" "\"" 0 rest)) refl)
      (λ rest. rw (quot_lem rest) refl)
      λ c a b d e rest.
        other_lem "&quot;" "\"" (escaped true false false true) (escaped true false false false) c
          rest (ground arith) (ground arith) (ground arith)

un_apos-Turns :
    (c : Char)
    → Turns "&apos;" "'" (escaped true false false false) (escaped true false false false) c
unfolding replace_from starts_with size
un_apos-Turns =
    by_character
      (Turns "&apos;" "'" (escaped true false false false) (escaped true false false false))
      (λ rest. rw (amp_lem rest, amp_lem (replace_from "&apos;" "'" 0 rest)) refl)
      (λ rest. rw (one_lem "<" rest, one_lem "<" (replace_from "&apos;" "'" 0 rest)) refl)
      (λ rest. rw (one_lem ">" rest, one_lem ">" (replace_from "&apos;" "'" 0 rest)) refl)
      (λ rest. rw (one_lem "\"" rest, one_lem "\"" (replace_from "&apos;" "'" 0 rest)) refl)
      λ c a b d e rest.
        other_lem "&apos;" "'" (escaped true false false false) (escaped true false false false) c
          rest (ground arith) (ground arith) (ground arith)

un_amp-Turns :
    (c : Char)
    → Turns "&amp;" "&" (escaped true false false false) (escaped false false false false) c
unfolding replace_from starts_with size
un_amp-Turns =
    by_character
      (Turns "&amp;" "&" (escaped true false false false) (escaped false false false false))
      (λ rest. rw (amp_lem rest) refl)
      (λ rest. rw (one_lem "<" rest, one_lem "<" (replace_from "&amp;" "&" 0 rest)) refl)
      (λ rest. rw (one_lem ">" rest, one_lem ">" (replace_from "&amp;" "&" 0 rest)) refl)
      (λ rest. rw (one_lem "\"" rest, one_lem "\"" (replace_from "&amp;" "&" 0 rest)) refl)
      λ c a b d e rest.
        other_lem "&amp;" "&" (escaped true false false false) (escaped false false false false) c
          rest (ground arith) (ground arith) (ground arith)

unescaped : (c : Char) → escaped false false false false c ≡ one c
unescaped c = ground arith

pieces_lem : (s : String) → pieces (escaped false false false false) s ≡ s
unfolding pieces
pieces_lem String.[] = refl
pieces_lem (String.◌∷◌ c s) =
    rw (unescaped c, one_lem c (pieces (escaped false false false false) s), pieces_lem s) refl

-- What `escapeXML` makes of a text: the four characters replaced, one by one.
escape_xml-pieces : (s : String) → escape_xml s ≡ pieces (escaped true true true true) s
unfolding escape_xml replace_all
escape_xml-pieces s =
    ap
      (λ (t : String).
        replace_from "\"" "&quot;" 0
          (replace_from ">" "&gt;" 0 (replace_from "<" "&lt;" 0 (replace_from "&" "&amp;" 0 t))))
      (sym (pieces_lem s))
    ∙ ap
        (λ (t : String).
          replace_from "\"" "&quot;" 0 (replace_from ">" "&gt;" 0 (replace_from "<" "&lt;" 0 t)))
        (replace_pieces "&" "&amp;" _ _ amp-Turns s)
    ∙ ap (λ (t : String). replace_from "\"" "&quot;" 0 (replace_from ">" "&gt;" 0 t))
        (replace_pieces "<" "&lt;" _ _ lt-Turns s)
    ∙ ap (λ (t : String). replace_from "\"" "&quot;" 0 t) (replace_pieces ">" "&gt;" _ _ gt-Turns s)
    ∙ replace_pieces "\"" "&quot;" _ _ quot-Turns s

unescape_xml-pieces : (s : String) → unescape_xml (pieces (escaped true true true true) s) ≡ s
unfolding unescape_xml replace_all
unescape_xml-pieces s =
    rw
      (
        replace_pieces "&lt;" "<" _ _ un_lt-Turns s,
        replace_pieces "&gt;" ">" _ _ un_gt-Turns s,
        replace_pieces "&quot;" "\"" _ _ un_quot-Turns s,
        replace_pieces "&apos;" "'" _ _ un_apos-Turns s,
        replace_pieces "&amp;" "&" _ _ un_amp-Turns s,
      )
      (pieces_lem s)

-- `unescapeXML` gives back every text that `escapeXML` has escaped.
pub unescape_xml-escape_xml : (s : String) → unescape_xml (escape_xml s) ≡ s
unescape_xml-escape_xml s = rw (escape_xml-pieces s) (unescape_xml-pieces s)
