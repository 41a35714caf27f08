-- ===== src/Session/Metadata/Protocol.antt =====
-- The content type in a `protocolInfo` of four fields, `protocol:network:contentFormat:additionalInfo`.
use Prim.Native.Char.{code}
use Prim.Native.String.{String, ◌++◌}
use Prim.Native.String.append
use ma_dlna.Base.{ℕ, false, ◌∷◌, ◌≡◌, refl, eqb, if◌then◌else◌, ◌==◌}
use ma_dlna.Session.Metadata.{split, cons_head, third, content_type_from_protocol_info}

-- No character of the text has the code.
abbrev pub Avoids : ℕ → String → Type 0
Avoids d String.[] = Unit
Avoids d (String.◌∷◌ c s) = ((code c == d) ≡ false) × Avoids d s

split-colon : (s : String) → split b':' (":" ++ s) ≡ "" ∷ split b':' s
unfolding split cons_head
split-colon s = rw (append.cons ":" "" s, append.nil s, split) refl

split-field : (a s : String) → Avoids b':' a → split b':' (a ++ (":" ++ s)) ≡ a ∷ split b':' s
unfolding split cons_head
split-field String.[] s e = rw (append.nil (":" ++ s)) (split-colon s)
split-field (String.◌∷◌ c a) s e =
    rw (append.cons c a (":" ++ s), split, e.0, if◌then◌else◌, split-field a s e.1) refl

-- Where the first three fields have no colon, the content type is the third one, and it is empty for
-- the wildcard.
pub content_type-third :
    (protocol network format info : String)
    → Avoids b':' protocol
    → Avoids b':' network
    → Avoids b':' format
    → content_type_from_protocol_info
        (protocol ++ (":" ++ (network ++ (":" ++ (format ++ (":" ++ info))))))
      ≡ (if eqb format "*" then "" else format)
unfolding content_type_from_protocol_info third
content_type-third protocol network format info a b c = rw (
  split-field protocol (network ++ (":" ++ (format ++ (":" ++ info)))) a,
  split-field network (format ++ (":" ++ info)) b,
  split-field format info c,
)
