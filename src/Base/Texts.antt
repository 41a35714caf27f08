-- ===== src/Base/Texts.antt =====
-- Equality of texts as a decision and as a test.
use Prim.Native.String.{String}
use mathlib.Core.Path.{◌≡◌}
use mathlib.Core.Logic.{inl, inr}
use mathlib.Core.Bool.{Bool, true, false}
use text.Mathlib.Text.{◌==◌}
use text.Mathlib.TextEquality.{eq_iff}
use native.Mathlib.Omega.{arith}
use ma_dlna.Base.Tests.{Bool-cases}

pub ne_of_differ : (s t : String) → (s == t) ≡ false → ¬ (s ≡ t)
ne_of_differ s t h e = ground (arith, (eq_iff s t).1 e)

unfoldable pub text_discrete : (s t : String) → Dec (s ≡ t)
text_discrete s t = elim (Bool-cases (s == t)) [
  | inl same ↦ yes ((eq_iff s t).0 same)
  | inr other ↦ no (ne_of_differ s t other)
]

-- Go's `==` on strings.
abbrev pub eqb : String → String → Bool
eqb s t = elim (text_discrete s t) [ yes e ↦ true | no e ↦ false ]
