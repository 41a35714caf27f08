-- ===== src/Session/Manager/Evict/Bound.antt =====
-- What `evictByState` takes out of the map: the session that was updated longest ago among those in
-- the given states, and never the current one.
use ma_dlna.Base.{
  ◌≤◌, Bool, true, false, List, [], ◌∷◌, ◌≡◌, ◌⊎◌, inl, inr, Option, none, some, String, All, arith,
  eqb, Option-cases, if◌then◌else◌,
}
use ma_dlna.Base.Dict.{lookup, delete}
use ma_dlna.Session.Types.{State, Session, Manager}
use ma_dlna.Session.Manager.Valid.{IsKeyed}
use ma_dlna.Session.Manager.Evict.{is_one_of, older, find_oldest, evict_by_state}

module _ (current : String) (states : List State) where
  abbrev pub IsCandidate : Session → Type 0
  IsCandidate s = (eqb s.id current ≡ false) × (is_one_of s.state states ≡ true)

  older_sound :
      (acc : Option Session) (s o : Session)
      → older current states acc s ≡ some o
      → (acc ≡ some o) ⊎ ((s ≡ o) × IsCandidate s)
  unfolding older
  older_sound acc s o e = ground arith

  find_sound :
      (acc : Option Session) (l : List (String × Session)) (o : Session)
      → IsKeyed l
      → find_oldest current states acc l ≡ some o
      → (acc ≡ some o) ⊎ ((lookup o.id l ≡ some o) × IsCandidate o)
  unfolding find_oldest lookup
  find_sound acc [] o v e = inl e
  find_sound acc ((k, s) ∷ l) o v e = elim (find_sound (older current states acc s) l o v.2 e) [
    | inl here ↦ ground (arith, older_sound acc s o here)
    | inr (there, c) ↦ inr (ground (arith, v.1, there), c)
  ]

  abbrev NoYounger : Session → Option Session → Type 0
  NoYounger o none = Unit {0}
  NoYounger o (some a) = o.updated_at ≤ a.updated_at

  older_min :
      (acc : Option Session) (s o : Session)
      → NoYounger o (older current states acc s)
      → NoYounger o acc × (IsCandidate s → o.updated_at ≤ s.updated_at)
  unfolding older
  older_min none s o h = ground arith
  older_min (some a) s o h = ground arith

  -- The result is no younger than what was there before, nor than any candidate of the list.
  find_min :
      (acc : Option Session) (l : List (String × Session)) (o : Session)
      → find_oldest current states acc l ≡ some o
      → NoYounger o acc × All (λ e. IsCandidate e.1 → o.updated_at ≤ e.1.updated_at) l
  unfolding find_oldest
  find_min acc [] o e = (rw e (omega arith), tt)
  find_min acc ((k, s) ∷ l) o e =
      let (low, rest) = find_min (older current states acc s) l o e in
      let (low', mine) = older_min acc s o low in (low', (mine, rest))

  older-none :
      (acc : Option Session) (s : Session)
      → older current states acc s ≡ none
      → (acc ≡ none) × (IsCandidate s → ⊥)
  unfolding older
  older-none acc s e = ground arith

  find_none :
      (acc : Option Session) (l : List (String × Session))
      → find_oldest current states acc l ≡ none
      → (acc ≡ none) × All (λ e. IsCandidate e.1 → ⊥) l
  unfolding find_oldest
  find_none acc [] e = (e, tt)
  find_none acc ((k, s) ∷ l) e =
      let (gone, rest) = find_none (older current states acc s) l e in
      let (gone', mine) = older-none acc s gone in (gone', (mine, rest))

-- One eviction: what was taken out, or that there was nothing to take.
pub data Evicts (states : List State) (m : Manager) : Manager × Bool → Type 0 where
  evicted :
      (o : Session)
      → lookup o.id m.sessions ≡ some o
      → IsCandidate m.current_session_id states o
      → All
          (λ e. IsCandidate m.current_session_id states e.1 → o.updated_at ≤ e.1.updated_at)
          m.sessions
      → Evicts states m (record m { sessions = delete o.id m.sessions }, true)
  nothing :
      All (λ e. IsCandidate m.current_session_id states e.1 → ⊥) m.sessions
      → Evicts states m (m, false)

-- In a map of sessions under their ids, `evictByState` takes out exactly the session that was updated
-- longest ago among those in the given states that are not the current one, and fails exactly if
-- there is none.
pub evict_by_state-Evicts :
    (states : List State) (m : Manager)
    → IsKeyed m.sessions
    → Evicts states m (evict_by_state states m)
unfolding evict_by_state
evict_by_state-Evicts states m v =
    let found = find_oldest m.current_session_id states none m.sessions in
    elim (Option-cases found) [
      | inl e ↦
          rw (e, evict_by_state)
            (nothing (find_none m.current_session_id states none m.sessions e).1)
      | inr (o, e) ↦
          let min = (find_min m.current_session_id states none m.sessions o e).1 in
          elim (find_sound m.current_session_id states none m.sessions o v e) [
            | inl absent ↦ cc absent
            | inr (there, c) ↦
                rw (e, evict_by_state) (rw (c.0, if◌then◌else◌) (evicted o there c min))
          ]
    ]
