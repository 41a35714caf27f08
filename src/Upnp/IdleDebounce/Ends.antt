-- ===== src/Upnp/IdleDebounce/Ends.antt =====
-- When the playback monitor takes a playback to have ended.
use ma_dlna.Base.{
  Bool, true, false, List, [], ◌∷◌, ◌≡◌, ◌⊎◌, inl, inr, refl, subst, sym, ◌∙◌, Option-cases,
  Bool-cases, none, some, String, All, arith, eqb, if◌then◌else◌,
}
use ma_dlna.Base.Int.{ℤ, ◌-ℤ◌, ltb_ℤ}
use ma_dlna.Upnp.IdleDebounce.{
  IdleDebounce, Kind-discrete, idle, kind_of, ten_seconds, in_grace, update_idle, update,
}

-- The polls of the backend, the last one first: its state and the moment.
unfoldable pub run : List (String × ℤ) → IdleDebounce → IdleDebounce
run [] d = d
run ((st, now) ∷ earlier) d = (update st now (run earlier d)).0

-- The backend has been idle in all polls since one at the moment.
pub data IdleSince (t : ℤ) : List (String × ℤ) → Type 0 where
  first :
      (st : String) (earlier : List (String × ℤ))
      → kind_of st ≡ idle
      → IdleSince t ((st, t) ∷ earlier)
  still :
      (st : String) (now : ℤ) (earlier : List (String × ℤ))
      → kind_of st ≡ idle
      → IdleSince t earlier
      → IdleSince t ((st, now) ∷ earlier)

-- The backend was not idle in some poll.
pub data HasWoken : List (String × ℤ) → Type 0 where
  here :
      (st : String) (now : ℤ) (earlier : List (String × ℤ))
      → ¬ (kind_of st ≡ idle)
      → HasWoken ((st, now) ∷ earlier)
  before :
      (st : String) (now : ℤ) (earlier : List (String × ℤ))
      → HasWoken earlier
      → HasWoken ((st, now) ∷ earlier)

pub update-eq-update_idle :
    (st : String) (now : ℤ) (d : IdleDebounce)
    → kind_of st ≡ idle
    → update st now d ≡ update_idle now d
unfolding update
update-eq-update_idle st now d e = ground (arith, e)

update-idle_since :
    (st : String) (now t : ℤ) (d : IdleDebounce)
    → (update st now d).0.idle_since ≡ some t
    → (kind_of st ≡ idle) × ((d.idle_since ≡ some t) ⊎ ((d.idle_since ≡ none) × (now ≡ t)))
unfolding update update_idle
update-idle_since st now t d e = elim (Option-cases d.idle_since) [
  | inl n ↦ ground (arith, e, n)
  | inr (u, s) ↦ ground (arith, e, s)
]

update-startup_grace_till :
    (st : String) (now : ℤ) (d : IdleDebounce)
    → ((update st now d).0.startup_grace_till ≡ d.startup_grace_till) ⊎ ¬ (kind_of st ≡ idle)
unfolding update update_idle
update-startup_grace_till st now d = elim (Kind-discrete (kind_of st) idle) [
  | no awake ↦ inr awake
  | yes e ↦ inl (ground (arith, e))
]

idle_since_lem :
    (polls : List (String × ℤ)) (d : IdleDebounce) (t : ℤ)
    → d.idle_since ≡ none
    → (run polls d).idle_since ≡ some t
    → IdleSince t polls
unfolding run
idle_since_lem [] d t v e = cc (e, v)
idle_since_lem ((st, now) ∷ earlier) d t v e =
    let (quiet, since) = update-idle_since st now t (run earlier d) e in
    elim since [
      | inl s ↦ still st now earlier quiet (idle_since_lem earlier d t v s)
      | inr (n, same) ↦
          subst (λ u. IdleSince t ((st, u) ∷ earlier)) (sym same) (first st earlier quiet)
    ]

grace_lem :
    (polls : List (String × ℤ)) (d : IdleDebounce)
    → ((run polls d).startup_grace_till ≡ d.startup_grace_till) ⊎ HasWoken polls
unfolding run
grace_lem [] d = inl refl
grace_lem ((st, now) ∷ earlier) d = elim (grace_lem earlier d) [
  | inr w ↦ inr (before st now earlier w)
  | inl e ↦ elim (update-startup_grace_till st now (run earlier d)) [
    | inl f ↦ inl (f ∙ e)
    | inr awake ↦ inr (here st now earlier awake)
  ]
]

update-stops :
    (st : String) (now : ℤ) (d : IdleDebounce)
    → (update st now d).1 ≡ true
    → (kind_of st ≡ idle)
      × (in_grace now d.startup_grace_till ≡ false)
      × ((t : ℤ) × (d.idle_since ≡ some t) × (ltb_ℤ (now -ℤ t) ten_seconds ≡ false))
unfolding update update_idle
update-stops st now d e = elim (Option-cases d.idle_since) [
  | inl n ↦ ground (arith, e, n)
  | inr (t, s) ↦ (ground (arith, e, s), ground (arith, e, s), (t, s, ground (arith, e, s)))
]

-- From a debounce that has seen no idle poll, `update` tells to stop only if the status that it is given
-- is idle, and so are all that it was given from one at least ten seconds before; and only if one that
-- it was given was of another state or the startup grace is over. What it is not given, a poll that
-- fails or one while the session is paused, does not count.
pub stops-IdleSince :
    (polls : List (String × ℤ)) (st : String) (now : ℤ) (d : IdleDebounce)
    → d.idle_since ≡ none
    → (update st now (run polls d)).1 ≡ true
    → ((t : ℤ) × IdleSince t ((st, now) ∷ polls) × (ltb_ℤ (now -ℤ t) ten_seconds ≡ false))
      × (HasWoken polls ⊎ (in_grace now d.startup_grace_till ≡ false))
stops-IdleSince polls st now d v e =
    let (quiet, grace, (t, since, long)) = update-stops st now (run polls d) e in
    (
      (t, still st now polls quiet (idle_since_lem polls d t v since), long),
      elim (grace_lem polls d) [
        | inl same ↦ inr (subst (λ g. in_grace now g ≡ false) same grace)
        | inr w ↦ inl w
      ],
    )

-- The answers of a monitor to its polls, the first one first: it returns when it stops.
pub answers : List (String × ℤ) → IdleDebounce → List (Bool × String)
answers [] d = []
answers ((st, now) ∷ later) d =
    let (d', stop, event) = update st now d in
    let rest = answers later d' in (stop, event) ∷ (if stop then [] else rest)

-- no event, or the stop
abbrev pub IsSilent : Bool × String → Type 0
IsSilent a = ((a.0 ≡ false) × (a.1 ≡ "")) ⊎ ((a.0 ≡ true) × (a.1 ≡ "STOPPED"))

update-paused :
    (st : String) (now : ℤ) (d : IdleDebounce)
    → eqb d.last_emitted "PAUSED_PLAYBACK" ≡ true
    → (((update st now d).1 ≡ true) × ((update st now d).2 ≡ "STOPPED"))
      ⊎ (((update st now d).1 ≡ false)
          × ((update st now d).2 ≡ "")
          × (eqb (update st now d).0.last_emitted "PAUSED_PLAYBACK" ≡ true))
unfolding update update_idle
update-paused st now d e = elim (Bool-cases (update st now d).1) [
  | inl stop ↦ inl (stop, ground (arith, stop))
  | inr go ↦ elim (Option-cases d.idle_since) [
    | inl n ↦ inr (go, ground (arith, e, go, n), ground (arith, e, go, n))
    | inr (t, s) ↦ inr (go, ground (arith, e, go, s), ground (arith, e, go, s))
  ]
]

-- Once a monitor has sent the event of a pause, it sends no event for any later pause, however often
-- the backend plays and pauses in between: its further answers are no event, or the stop.
pub pause-once :
    (polls : List (String × ℤ)) (d : IdleDebounce)
    → eqb d.last_emitted "PAUSED_PLAYBACK" ≡ true
    → All IsSilent (answers polls d)
unfolding answers
pause-once [] d e = tt
pause-once ((st, now) ∷ later) d e = elim (update-paused st now d e) [
  | inl (stop, event) ↦ (inr (stop, event), rw (stop, if◌then◌else◌) tt)
  | inr (go, event, still_paused) ↦
      (inl (go, event), rw (go, if◌then◌else◌) (pause-once later (update st now d).0 still_paused))
]
