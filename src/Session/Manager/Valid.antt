-- ===== src/Session/Manager/Valid.antt =====
-- What the map of sessions keeps: each session under its id, no id twice, no session idle, and no
-- more than `maxSessions` of them.
use ma_dlna.Base.{
  ◌≤◌, Bool, true, false, List, [], ◌∷◌, ◌≡◌, refl, ap₂, subst, ◌∙◌, none, some, String, All, arith,
  length, eqb, if◌then◌else◌, text_discrete,
}
use ma_dlna.Base.Dict.{lookup, insert, delete, lookup-insert, lookup-delete}
use ma_dlna.Session.Types.{idle, Session, Manager, max_sessions}

-- Each session stands under its id, and no id twice.
abbrev pub IsKeyed : List (String × Session) → Type 0
IsKeyed [] = Unit {0}
IsKeyed ((k, s) ∷ rest) = (s.id ≡ k) × (lookup k rest ≡ none) × IsKeyed rest

abbrev pub IsBusy : String × Session → Type 0
IsBusy e = ¬ (e.1.state ≡ idle)

pub record IsValid (m : Manager) : Type 0 where
  pub keyed : IsKeyed m.sessions
  pub busy : All IsBusy m.sessions
  pub bounded : length m.sessions ≤ max_sessions

module _ (P : String × Session → Type 0) where
  All-if :
      (b : Bool) (xs ys : List (String × Session))
      → All P xs
      → All P ys
      → All P (if b then xs else ys)
  All-if true xs ys p q = p
  All-if false xs ys p q = q

  pub All-insert :
      (k : String) (s : Session) (l : List (String × Session))
      → P (k, s)
      → All P l
      → All P (insert k s l)
  unfolding insert
  All-insert k s [] p ps = (p, tt)
  All-insert k s ((j, t) ∷ l) p ps =
      All-if (eqb j k) ((k, s) ∷ l) ((j, t) ∷ insert k s l) (p, ps.1)
        (ps.0, All-insert k s l p ps.1)

  pub All-delete : (k : String) (l : List (String × Session)) → All P l → All P (delete k l)
  unfolding delete
  All-delete k [] ps = tt
  All-delete k ((j, t) ∷ l) ps =
      let rest = All-delete k l ps.1 in
      All-if (eqb j k) (delete k l) ((j, t) ∷ delete k l) rest (ps.0, rest)

  pub All-lookup :
      (k : String) (l : List (String × Session)) (s : Session)
      → All P l
      → lookup k l ≡ some s
      → P (k, s)
  unfolding lookup
  All-lookup k [] s ps e = cc e
  All-lookup k ((j, t) ∷ l) s ps e = elim (text_discrete j k) [
    | yes same ↦ subst P (ap₂ (λ a b. (a, b)) same (ground (arith, e))) ps.0
    | no other ↦ All-lookup k l s ps.1 (ground (arith, e))
  ]

IsKeyed-if :
    (b : Bool) (xs ys : List (String × Session))
    → (b ≡ true → IsKeyed xs)
    → (b ≡ false → IsKeyed ys)
    → IsKeyed (if b then xs else ys)
IsKeyed-if true xs ys p q = p refl
IsKeyed-if false xs ys p q = q refl

pub insert-IsKeyed :
    (k : String) (s : Session) (l : List (String × Session))
    → s.id ≡ k
    → IsKeyed l
    → IsKeyed (insert k s l)
unfolding insert lookup
insert-IsKeyed k s [] e v = (e, refl, tt)
insert-IsKeyed k s ((j, t) ∷ l) e v =
    IsKeyed-if (eqb j k) ((k, s) ∷ l) ((j, t) ∷ insert k s l) (λ same. (e, ground (arith, v), v.2))
      (λ other. (v.0, ground (arith, v, lookup-insert k j s l), insert-IsKeyed k s l e v.2))

pub delete-IsKeyed : (k : String) (l : List (String × Session)) → IsKeyed l → IsKeyed (delete k l)
unfolding delete lookup
delete-IsKeyed k [] v = tt
delete-IsKeyed k ((j, t) ∷ l) v =
    let rest = delete-IsKeyed k l v.2 in
    IsKeyed-if (eqb j k) (delete k l) ((j, t) ∷ delete k l) (λ same. rest)
      (λ other. (v.0, ground (arith, v, lookup-delete k j l), rest))

pub id_of_lookup :
    (k : String) (l : List (String × Session)) (s : Session)
    → IsKeyed l
    → lookup k l ≡ some s
    → s.id ≡ k
unfolding lookup
id_of_lookup k [] s v e = cc e
id_of_lookup k ((j, t) ∷ l) s v e = ground (arith, v, id_of_lookup k l s v.2)

pub length-insert_of_lookup :
    (k : String) (s t : Session) (l : List (String × Session))
    → lookup k l ≡ some t
    → length (insert k s l) ≡ length l
unfolding lookup insert
length-insert_of_lookup k s t [] e = cc e
length-insert_of_lookup k s t ((j, u) ∷ l) e = ground (arith, length-insert_of_lookup k s t l)

pub insert_known-IsValid :
    (m : Manager) (sid : String) (s t : Session)
    → IsValid m
    → lookup sid m.sessions ≡ some s
    → t.id ≡ s.id
    → ¬ (t.state ≡ idle)
    → IsValid (record m { sessions = insert sid t m.sessions })
insert_known-IsValid m sid s t v e same busy = record {
  keyed = insert-IsKeyed sid t m.sessions (same ∙ id_of_lookup sid m.sessions s v.keyed e) v.keyed;
  busy = All-insert IsBusy sid t m.sessions busy v.busy;
  bounded = omega (arith, v.bounded, length-insert_of_lookup sid t s m.sessions e);
}
