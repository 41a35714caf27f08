-- ===== src/Session/Manager/Evict/Create.antt =====
-- The section of `CreateWithBase`: how it leaves the map of sessions.
use native.Mathlib.Decide.{dec_lt}
use ma_dlna.Base.{
  ℕ, ◌≤◌, ◌<◌, Bool, true, false, List, [], ◌∷◌, ◌≡◌, ◌⊎◌, inl, inr, refl, none, some, String, All,
  arith, length, eqb, ltb, ltb→lt, text_discrete, Bool-cases, if◌then◌else◌,
}
use ma_dlna.Base.Dict.{lookup, insert, delete, lookup-insert, length-insert-le, length-delete_lt}
use ma_dlna.Session.Types.{idle, stopped, error, Session, Manager, max_sessions}
use ma_dlna.Session.Manager.{moved}
use ma_dlna.Session.Manager.Valid.{
  IsKeyed, IsBusy, IsValid, All-insert, All-delete, All-lookup, insert-IsKeyed, delete-IsKeyed,
}
use ma_dlna.Session.Manager.Evict.{
  is_one_of, is_live, evict_by_state, evict_loop, evict_locked, stop_live, make_room, Request,
  new_session, create_section,
}
use ma_dlna.Session.Manager.Evict.Bound.{
  IsCandidate, Evicts, evicted, nothing, evict_by_state-Evicts,
}

abbrev pub IsStopped : String × Session → Type 0
IsStopped e = e.1.state ≡ stopped

lookup-stop_live :
    (now : ℕ) (k : String) (l : List (String × Session))
    → lookup k l ≡ none
    → lookup k (stop_live now l).0 ≡ none
unfolding lookup stop_live
lookup-stop_live now k [] e = refl
lookup-stop_live now k ((j, s) ∷ l) e = ground (arith, lookup-stop_live now k l)

lookup-some-stop_live :
    (now : ℕ) (k : String) (l : List (String × Session)) (s : Session)
    → lookup k l ≡ some s
    → (t : Session) × (lookup k (stop_live now l).0 ≡ some t)
unfolding lookup stop_live
lookup-some-stop_live now k [] s e = cc e
lookup-some-stop_live now k ((j, t) ∷ l) s e = elim (text_discrete j k) [
  | yes same ↦ (if is_live t.state then moved stopped now t else t, ground (arith, same))
  | no other ↦
      let (u, there) = lookup-some-stop_live now k l s (ground (arith, e, other)) in
      (u, ground (arith, there, other))
]

survives :
    (k j : String) (s : Session) (l : List (String × Session)) (t : Session)
    → lookup k l ≡ some t
    → (u : Session) × (lookup k (insert j s l) ≡ some u)
survives k j s l t e = ground (arith, e, lookup-insert j k s l)

All-IsBusy : (l : List (String × Session)) → All IsStopped l → All IsBusy l
All-IsBusy [] v = tt
All-IsBusy ((j, s) ∷ l) v = (λ e. ground (arith, v.0, e), All-IsBusy l v.1)

length-stop_live : (now : ℕ) (l : List (String × Session)) → length (stop_live now l).0 ≡ length l
unfolding stop_live
length-stop_live now [] = refl
length-stop_live now ((j, s) ∷ l) = ground (arith, length-stop_live now l)

stop_live-IsKeyed :
    (now : ℕ) (l : List (String × Session)) → IsKeyed l → IsKeyed (stop_live now l).0
unfolding stop_live
stop_live-IsKeyed now [] v = tt
stop_live-IsKeyed now ((j, s) ∷ l) v =
    ground (arith, v, stop_live-IsKeyed now l v.2, lookup-stop_live now j l v.1)

-- What is not live and not idle is stopped.
stopped_of_busy : (s : Session) → ¬ (s.state ≡ idle) → is_live s.state ≡ false → s.state ≡ stopped
unfolding is_live
stopped_of_busy s busy e = ground (arith, busy, e)

stop_live-IsStopped :
    (now : ℕ) (l : List (String × Session)) → All IsBusy l → All IsStopped (stop_live now l).0
unfolding stop_live
stop_live-IsStopped now [] v = tt
stop_live-IsStopped now ((j, s) ∷ l) v =
    ground (arith, v, stop_live-IsStopped now l v.1, stopped_of_busy s v.0)

-- `k` is in the list.
abbrev pub is_listed : String → List String → Bool
is_listed k [] = false
is_listed k (x ∷ xs) = if eqb x k then true else is_listed k xs

-- The streams of all live sessions are going to be stopped.
stop_live-is_listed :
    (now : ℕ) (k : String) (l : List (String × Session)) (s : Session)
    → IsKeyed l
    → lookup k l ≡ some s
    → is_live s.state ≡ true
    → is_listed k (stop_live now l).1 ≡ true
unfolding lookup stop_live
stop_live-is_listed now k [] s v e h = cc e
stop_live-is_listed now k ((j, t) ∷ l) s v e h =
    ground (arith, v, e, h, stop_live-is_listed now k l s v.2)

-- Where every session is stopped and none can be evicted, there is at most the current one.
alone :
    (current : String) (l : List (String × Session))
    → IsKeyed l
    → All IsStopped l
    → All (λ e. IsCandidate current (stopped ∷ error ∷ []) e.1 → ⊥) l
    → length l ≤ 1
unfolding is_one_of lookup
alone current [] v st stuck = omega arith
alone current ((j, s) ∷ []) v st stuck = omega arith
alone current ((j, s) ∷ (k, t) ∷ l) v st stuck = ground (arith, v, st, stuck)

-- An eviction from a full map of stopped sessions makes room.
makes_room :
    (m : Manager) (r : Manager × Bool)
    → IsKeyed m.sessions
    → All IsStopped m.sessions
    → length m.sessions ≡ max_sessions
    → Evicts (stopped ∷ error ∷ []) m r
    → (o : String) × (r ≡ (record m { sessions = delete o m.sessions }, true))
      × (length (delete o m.sessions) < max_sessions)
makes_room m _ v st full (evicted o there c min) =
    (o.id, refl, omega (arith, full, length-delete_lt o.id o m.sessions there))
makes_room m _ v st full (nothing stuck) =
    absurd (omega (arith, full, alone m.current_session_id m.sessions v st stuck))

evict_locked_of_room :
    (m m' : Manager)
    → evict_by_state (stopped ∷ error ∷ []) m ≡ (m', true)
    → length m'.sessions < max_sessions
    → evict_locked m ≡ m'
unfolding evict_locked evict_loop
evict_locked_of_room m m' e h = ground (arith, e, h)

evict_locked-done :
    (m : Manager)
    → IsKeyed m.sessions
    → All IsStopped m.sessions
    → length m.sessions ≡ max_sessions
    → (o : String) × (evict_locked m ≡ record m { sessions = delete o m.sessions })
      × (length (delete o m.sessions) < max_sessions)
evict_locked-done m v st full =
    let states = stopped ∷ error ∷ [] in
    let (o, e, h) =
      makes_room m (evict_by_state states m) v st full (evict_by_state-Evicts states m v) in
    (o, evict_locked_of_room m (record m { sessions = delete o m.sessions }) e h, h)

record Room (now : ℕ) (m room : Manager) : Type 0 where
  keyed : IsKeyed room.sessions
  all_stopped : All IsStopped room.sessions
  bounded : length room.sessions < max_sessions
  kept : length m.sessions < max_sessions → room.sessions ≡ (stop_live now m.sessions).0

ltb-false : (a b : ℕ) → ltb a b ≡ false → b ≤ a
ltb-false a b e = ground (arith, e)

make_room-Room : (now : ℕ) (m : Manager) → IsValid m → Room now m (make_room now m)
unfolding make_room
make_room-Room now m v =
    let keyed = stop_live-IsKeyed now m.sessions v.keyed in
    let all_stopped = stop_live-IsStopped now m.sessions v.busy in
    let same = length-stop_live now m.sessions in
    elim (Bool-cases (ltb (length m.sessions) max_sessions)) [
      | inl e ↦
          rw (e, if◌then◌else◌)
            (record {
              keyed = keyed;
              all_stopped = all_stopped;
              bounded = omega (arith, same, ltb→lt (length m.sessions) max_sessions e);
              kept = λ h. refl;
            })
      | inr e ↦
          let full = ltb-false (length m.sessions) max_sessions e in
          let m' = record m { sessions = (stop_live now m.sessions).0 } in
          let (o, done, less) =
            evict_locked-done m' keyed all_stopped (omega (arith, same, full, v.bounded)) in
          rw (e, if◌then◌else◌, done)
            (record {
              keyed = delete-IsKeyed o m'.sessions keyed;
              all_stopped = All-delete IsStopped o m'.sessions all_stopped;
              bounded = less;
              kept = λ h. absurd (omega (arith, h, full));
            })
    ]

-- What opening a session under `r` leaves behind.
pub record Opens (r : Request) (now : ℕ) (m m' : Manager) (to_stop : List String) : Type 0 where
  pub valid : IsValid m'
  pub current : m'.current_session_id ≡ r.id
  pub entered : lookup r.id m'.sessions ≡ some (new_session m.cfg.output_format r now)
  pub others_stopped :
      (k : String) (s : Session) → lookup k m'.sessions ≡ some s → ¬ (r.id ≡ k) → s.state ≡ stopped
  pub told :
      (k : String) (s : Session)
      → lookup k m.sessions ≡ some s
      → is_live s.state ≡ true
      → is_listed k to_stop ≡ true
  pub kept :
      (length m.sessions ≡ max_sessions)
      ⊎ ((k : String) (s : Session)
          → lookup k m.sessions ≡ some s
          → (t : Session) × (lookup k m'.sessions ≡ some t))

-- In a valid map of sessions, `CreateWithBase` leaves a valid map, of at most `maxSessions` again,
-- however full it was. The new session stands under its id, loaded, and is the current one. Every
-- other session left is stopped, the streams of all that were live are to be stopped, and a map that
-- was not full loses no session.
pub create_section-Opens :
    (r : Request) (now : ℕ) (m : Manager)
    → IsValid m
    → Opens r now m (create_section r now m).0 (create_section r now m).1
unfolding create_section new_session
create_section-Opens r now m v =
    let room = make_room-Room now m v in
    let new = new_session m.cfg.output_format r now in
    let l = (make_room now m).sessions in
    record {
      valid = record {
        keyed = insert-IsKeyed r.id new l refl room.keyed;
        busy = All-insert IsBusy r.id new l (λ e. cc e) (All-IsBusy l room.all_stopped);
        bounded = omega (arith, room.bounded, length-insert-le r.id new l);
      };
      current = refl;
      entered = ground (arith, lookup-insert r.id r.id new l);
      others_stopped = λ k s e ne.
          All-lookup IsStopped k l s room.all_stopped
            (ground (arith, e, ne, lookup-insert r.id k new l));
      told = λ k s e h. stop_live-is_listed now k m.sessions s v.keyed e h;
      kept = elim (dec_lt (length m.sessions) max_sessions) [
        | no full ↦ inl (omega (arith, v.bounded, full))
        | yes h ↦ inr (λ k s e.
            let (t, there) = lookup-some-stop_live now k m.sessions s e in
            survives k r.id new l t (rw (room.kept h) there))
      ];
    }
