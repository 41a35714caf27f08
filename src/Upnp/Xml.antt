-- ===== src/Upnp/Xml.antt =====
-- internal/upnp/upnp.go: the escaping of XML, `escapeXML` and `unescapeXML`.
mod Escapes
pub mod RoundTrip
use Prim.Native.Char.{Char, code}
use Prim.Native.String.{String, ◌++◌}
use ma_dlna.Base.{ℕ, zero, suc, ◌-◌, ◌==◌, if◌then◌else◌}
use ma_dlna.Base.Go.{starts_with}

unfoldable pub size : String → ℕ
size String.[] = 0
size (String.◌∷◌ c s) = suc (size s)

-- `strings.ReplaceAll(s, old, new)` for a text `old` that is not empty: `skip` characters of `s` belong to
-- an occurrence that is replaced already.
unfoldable pub replace_from : String → String → ℕ → String → String
unfolding starts_with size
replace_from old new skip String.[] = String.[]
replace_from old new (suc skip) (String.◌∷◌ c s) = replace_from old new skip s
replace_from old new zero (String.◌∷◌ c s) =
    let found = new ++ replace_from old new (size old - 1) s in
    let kept = String.◌∷◌ c (replace_from old new zero s) in
    if starts_with old (String.◌∷◌ c s) then found else kept

unfoldable pub replace_all : String → String → String → String
unfolding replace_from
replace_all s old new = replace_from old new 0 s

unfoldable pub escape_xml : String → String
unfolding replace_all
escape_xml s =
    let s₁ = replace_all s "&" "&amp;" in
    let s₂ = replace_all s₁ "<" "&lt;" in
    let s₃ = replace_all s₂ ">" "&gt;" in replace_all s₃ "\"" "&quot;"

unfoldable pub unescape_xml : String → String
unfolding replace_all
unescape_xml s =
    let s₁ = replace_all s "&lt;" "<" in
    let s₂ = replace_all s₁ "&gt;" ">" in
    let s₃ = replace_all s₂ "&quot;" "\"" in
    let s₄ = replace_all s₃ "&apos;" "'" in replace_all s₄ "&amp;" "&"
