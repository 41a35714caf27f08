-- ===== src/Base/Go.antt =====
-- What the program uses of the texts of Go's standard library, and the parts of a URL.
use Prim.Native.Char.{code}
use Prim.Native.String.{String, ◌++◌}
use Prim.Native.Nat.{ℕ, zero, suc, ◌/◌, ◌%◌}
use mathlib.Core.Path.{◌≡◌, refl}
use mathlib.Core.Bool.{Bool, true, false, ◌&&◌, ◌||◌}
use mathlib.Core.List.{[], ◌∷◌}
use native.Mathlib.Omega.{arith}
use ma_dlna.Base.Tests.{ltb, leb, ◌==◌, if◌then◌else◌}
use ma_dlna.Base.Texts.{eqb}
use ma_dlna.Base.Lists.{get_or}
use ma_dlna.Base.Int.{ℤ, pos, negsuc}

-- `url.URL`
pub record Url : Type 0 where
  pub scheme : String
  pub host : String
  pub path : String
  pub raw_query : String
  pub fragment : String

-- `strings.TrimRight(s, "/")`
unfoldable pub trim_right_slash : String → String
trim_right_slash String.[] = String.[]
trim_right_slash (String.◌∷◌ c s) =
    let rest = trim_right_slash s in
    if eqb rest "" && code c == b'/' then String.[] else String.◌∷◌ c rest

-- The result has no slash at its end: nothing more can be trimmed.
pub trim_right_slash_idem :
    (s : String) → trim_right_slash (trim_right_slash s) ≡ trim_right_slash s
unfolding trim_right_slash
trim_right_slash_idem String.[] = refl
trim_right_slash_idem (String.◌∷◌ c s) = ground (arith, trim_right_slash_idem s)

-- `strings.HasPrefix`
unfoldable pub starts_with : String → String → Bool
starts_with String.[] s = true
starts_with (String.◌∷◌ c p) String.[] = false
starts_with (String.◌∷◌ c p) (String.◌∷◌ d s) = code c == code d && starts_with p s

-- `strings.Contains(s, sub)`
unfoldable pub contains : String → String → Bool
unfolding starts_with
contains sub String.[] = starts_with sub String.[]
contains sub (String.◌∷◌ c s) = starts_with sub (String.◌∷◌ c s) || contains sub s

abbrev digit : ℕ → String
digit d = get_or ("0" ∷ "1" ∷ "2" ∷ "3" ∷ "4" ∷ "5" ∷ "6" ∷ "7" ∷ "8" ∷ "9" ∷ []) d ""

-- the decimal digits of `n`, before `tail`; `n + 1` rounds are enough
unfoldable pub digits : ℕ → ℕ → String → String
digits zero n tail = tail
digits (suc fuel) n tail =
    let more = digits fuel (n / 10) (digit (n % 10) ++ tail) in
    if ltb n 10 then digit n ++ tail else more

-- `%d`
unfoldable pub format_int : ℤ → String
unfolding digits
format_int (pos n) = digits (suc n) n ""
format_int (negsuc n) = "-" ++ digits (suc (suc n)) (suc n) ""

-- `unicode.IsSpace`
unfoldable pub is_space : ℕ → Bool
is_space c =
    (leb 9 c && leb c 13)
    || c == 32
    || c == 0x85
    || c == 0xa0
    || c == 0x1680
    || (leb 0x2000 c && leb c 0x200a)
    || c == 0x2028
    || c == 0x2029
    || c == 0x202f
    || c == 0x205f
    || c == 0x3000

unfoldable pub trim_left_space : String → String
unfolding is_space
trim_left_space String.[] = String.[]
trim_left_space (String.◌∷◌ c s) =
    let rest = trim_left_space s in if is_space (code c) then rest else String.◌∷◌ c s

unfoldable pub trim_right_space : String → String
unfolding is_space
trim_right_space String.[] = String.[]
trim_right_space (String.◌∷◌ c s) =
    let rest = trim_right_space s in
    if eqb rest "" && is_space (code c) then String.[] else String.◌∷◌ c rest

-- `strings.TrimSpace`
unfoldable pub trim_space : String → String
unfolding trim_left_space trim_right_space
trim_space s = trim_right_space (trim_left_space s)
