-- ===== src/Upnp/Xml/Escapes.antt =====
-- internal/upnp/upnp.go: `strings.ReplaceAll` on texts that are made of pieces, one for each character.
use Prim.Native.Char.{Char, code}
use Prim.Native.String.{String, ◌++◌}
use Prim.Native.String.append
use text.Mathlib.TextEquality.{Char-path}
use native.Mathlib.Decide.{ℕ_discrete}
use ma_dlna.Base.{Bool, false, ◌≡◌, ◌≢◌, refl, sym, subst, ap, ◌∙◌, ◌==◌, if◌then◌else◌}
use ma_dlna.Base.Go.{starts_with}
use ma_dlna.Upnp.Xml.{replace_from}

-- The pieces of all characters, one after the other.
unfoldable pub pieces : (Char → String) → String → String
pieces piece String.[] = String.[]
pieces piece (String.◌∷◌ c s) = piece c ++ pieces piece s

-- What a replacement does to the piece of a character, whatever follows it.
abbrev pub Turns : String → String → (Char → String) → (Char → String) → Char → Type 0
Turns old new before after c =
    (rest : String)
    → replace_from old new 0 (before c ++ rest) ≡ after c ++ replace_from old new 0 rest

pub replace_pieces :
    (old new : String) (before after : Char → String)
    → ((c : Char) → Turns old new before after c)
    → (s : String) → replace_from old new 0 (pieces before s) ≡ pieces after s
unfolding pieces replace_from
replace_pieces old new before after turns String.[] = refl
replace_pieces old new before after turns (String.◌∷◌ c s) =
    turns c (pieces before s)
    ∙ ap (λ (t : String). after c ++ t) (replace_pieces old new before after turns s)

abbrev pub one : Char → String
one c = String.◌∷◌ c String.[]

-- The piece of a character when the four replacements of `escapeXML` that are `true` are made.
abbrev pub escaped : Bool → Bool → Bool → Bool → Char → String
escaped amp lt gt quot c =
    if code c == 38
    then if amp then "&amp;" else one c
    else if code c == 60
    then if lt then "&lt;" else one c
    else if code c == 62
    then if gt then "&gt;" else one c
    else if code c == 34
    then if quot then "&quot;" else one c
    else one c

-- The four characters that are escaped, and the others.
pub by_character {ℓ} :
    (P : Char → Type ℓ)
    → P "&"
    → P "<"
    → P ">"
    → P "\""
    → ((c : Char) → code c ≢ 38 → code c ≢ 60 → code c ≢ 62 → code c ≢ 34 → P c)
    → (c : Char) → P c
by_character P amp lt gt quot other c = elim (ℕ_discrete (code c) 38) [
  | yes e ↦ subst P (sym (Char-path c "&" e)) amp
  | no a ↦ elim (ℕ_discrete (code c) 60) [
    | yes e ↦ subst P (sym (Char-path c "<" e)) lt
    | no b ↦ elim (ℕ_discrete (code c) 62) [
      | yes e ↦ subst P (sym (Char-path c ">" e)) gt
      | no d ↦ elim (ℕ_discrete (code c) 34) [
        | yes e ↦ subst P (sym (Char-path c "\"" e)) quot
        | no f ↦ other c a b d f
      ]
    ]
  ]
]

-- The escapes as characters, with the text that follows.
abbrev pub amp_then : String → String
amp_then r = String.◌∷◌ "&" (String.◌∷◌ "a" (String.◌∷◌ "m" (String.◌∷◌ "p" (String.◌∷◌ ";" r))))

abbrev pub lt_then : String → String
lt_then r = String.◌∷◌ "&" (String.◌∷◌ "l" (String.◌∷◌ "t" (String.◌∷◌ ";" r)))

abbrev pub gt_then : String → String
gt_then r = String.◌∷◌ "&" (String.◌∷◌ "g" (String.◌∷◌ "t" (String.◌∷◌ ";" r)))

abbrev pub quot_then : String → String
quot_then r =
    String.◌∷◌ "&"
      (String.◌∷◌ "q" (String.◌∷◌ "u" (String.◌∷◌ "o" (String.◌∷◌ "t" (String.◌∷◌ ";" r)))))

pub one_lem : (c : Char) (r : String) → one c ++ r ≡ String.◌∷◌ c r
one_lem c r = append.cons c "" r ∙ ap (String.◌∷◌ c) (append.nil r)

pub amp_lem : (r : String) → "&amp;" ++ r ≡ amp_then r
amp_lem r =
    rw
      (
        append.cons "&" "amp;" r,
        append.cons "a" "mp;" r,
        append.cons "m" "p;" r,
        append.cons "p" ";" r,
        append.cons ";" "" r,
        append.nil r,
      )
      refl

pub lt_lem : (r : String) → "&lt;" ++ r ≡ lt_then r
lt_lem r =
    rw
      (
        append.cons "&" "lt;" r,
        append.cons "l" "t;" r,
        append.cons "t" ";" r,
        append.cons ";" "" r,
        append.nil r,
      )
      refl

pub gt_lem : (r : String) → "&gt;" ++ r ≡ gt_then r
gt_lem r =
    rw
      (
        append.cons "&" "gt;" r,
        append.cons "g" "t;" r,
        append.cons "t" ";" r,
        append.cons ";" "" r,
        append.nil r,
      )
      refl

pub quot_lem : (r : String) → "&quot;" ++ r ≡ quot_then r
quot_lem r =
    rw
      (
        append.cons "&" "quot;" r,
        append.cons "q" "uot;" r,
        append.cons "u" "ot;" r,
        append.cons "o" "t;" r,
        append.cons "t" ";" r,
        append.cons ";" "" r,
        append.nil r,
      )
      refl

kept_lem :
    (old new : String) (c : Char) (rest : String)
    → starts_with old (String.◌∷◌ c rest) ≡ false
    → replace_from old new 0 (String.◌∷◌ c rest) ≡ String.◌∷◌ c (replace_from old new 0 rest)
unfolding replace_from
kept_lem old new c rest miss = rw miss refl

-- A character that no replacement is about stays, if no occurrence starts with it.
pub other_lem :
    (old new : String) (before after : Char → String) (c : Char) (rest : String)
    → before c ≡ one c
    → after c ≡ one c
    → starts_with old (String.◌∷◌ c rest) ≡ false
    → replace_from old new 0 (before c ++ rest) ≡ after c ++ replace_from old new 0 rest
other_lem old new before after c rest b a miss =
    rw (b, a, one_lem c rest, one_lem c (replace_from old new 0 rest))
      (kept_lem old new c rest miss)
