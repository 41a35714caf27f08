-- ===== src/Session/Link/Effects.antt =====
-- What the streamer's calls do to the map of streams and to the generations, for one session and for
-- the others.
use ma_dlna.Base.{
  ℕ, suc, true, [], ◌≡◌, ◌⊎◌, inl, inr, refl, ap, ◌∙◌, none, some, String, arith, Option-cases,
}
use ma_dlna.Base.Dict.{lookup, insert, delete, lookup-insert, lookup-delete}
use ma_dlna.Base.Int.{ℤ}
use ma_dlna.Stream.Streamer
use ma_dlna.Stream.Streamer.{
  put, Callback, gen_start, first_client, failed, ended, install, blank_stream, is_active, start,
  stop, stop_locked, stop_found, stop_if_generation, pause, seek, resume, resume_found,
  restart_with_offset, restart_begin, restart_finish, elapsed, elapsed_at, still_current,
  mark_playback_accepted_if_generation, current_gen,
}
use ma_dlna.Stream.Gen.{Gen}
use ma_dlna.Stream.Streamer.Valid.{Local}
use ma_dlna.Stream.Streamer.Valid.Sections.{
  Local-refl, Local-trans, unregister-Local, stop_locked-Local,
}
use ma_dlna.Session.Api.{Starts, Announces}
use ma_dlna.Session.Link.{starts_of, generation, Around, streamer_api, IsCalm, IsMapped}

pub same_generation :
    (k : String) (s t : Streamer.Streamer)
    → Local s t
    → lookup k t.streams ≡ lookup k s.streams
    → generation k t ≡ generation k s
unfolding generation
same_generation k s t l e = elim (Option-cases (lookup k s.streams)) [
  | inl no_one ↦ ground (arith, e, no_one)
  | inr (b, there) ↦ ground (arith, e, there, l.stream_same b)
]

-- A new generation for one session is none of another's.
pub install_other :
    (sid k : String) (t : Streamer.Streamer) (a : ℕ) (gen : Gen) (runs : ℕ)
    → IsMapped t
    → lookup sid t.streams ≡ some a
    → ¬ (sid ≡ k)
    → generation k (install t a sid gen runs).0 ≡ generation k t
unfolding generation
install_other sid k t a gen runs v here ne = elim (Option-cases (lookup k t.streams)) [
  | inl no_one ↦ ground (arith, no_one)
  | inr (b, there) ↦ ground (arith, there, v k b there, v sid a here, ne)
]

pub stop_locked-streams : (a : ℕ) (s : Streamer.Streamer) → (stop_locked a s).0.streams ≡ s.streams
unfolding stop_locked
stop_locked-streams a s = ground arith

pub accept-streams :
    (sid : String) (gen_id : ℕ) (now : ℤ) (s : Streamer.Streamer)
    → (mark_playback_accepted_if_generation sid gen_id now s).0.streams ≡ s.streams
unfolding mark_playback_accepted_if_generation
accept-streams sid gen_id now s = ground arith

pub elapsed_at-streams :
    (a : ℕ) (now : ℤ) (s : Streamer.Streamer) → (elapsed_at a now s).0.streams ≡ s.streams
unfolding elapsed_at
elapsed_at-streams a now s = refl

pub still_current_of_lookup :
    (s : Streamer.Streamer) (sid : String) (a : ℕ)
    → lookup sid s.streams ≡ some a
    → still_current s sid a ≡ true
unfolding still_current
still_current_of_lookup s sid a e = ground (arith, e)

pub elapsed_here :
    (s : Streamer.Streamer) (sid : String) (a : ℕ) (now : ℤ)
    → lookup sid s.streams ≡ some a
    → elapsed sid now s ≡ elapsed_at a now s
unfolding elapsed
elapsed_here s sid a now e = rw (e, elapsed)

-- The streamer with a blank stream entered for a session.
abbrev pub registered : String → String → Streamer.Streamer → Streamer.Streamer
registered sid uri s =
    let a = s.stream_count in
    record s {
      streams = insert sid a s.streams;
      stream_count = suc a;
      stream_at = put s.stream_at a (blank_stream sid uri);
    }

pub registered-IsMapped :
    (sid uri : String) (s : Streamer.Streamer) → IsMapped s → IsMapped (registered sid uri s)
unfolding blank_stream
registered-IsMapped sid uri s v k b e =
    ground (arith, e, v k b, lookup-insert sid k s.stream_count s.streams)

pub registered_other :
    (sid uri : String) (s : Streamer.Streamer)
    → IsMapped s
    → (k : String) → ¬ (sid ≡ k)
    → generation k (registered sid uri s) ≡ generation k s
unfolding generation
registered_other sid uri s v k ne = elim (Option-cases (lookup k s.streams)) [
  | inl no_one ↦ ground (arith, no_one, ne, lookup-insert sid k s.stream_count s.streams)
  | inr (b, there) ↦
      ground (arith, there, ne, v k b there, lookup-insert sid k s.stream_count s.streams)
]

module _ (w : Around) where
  pub Local-law :
      (sid : String) (s t : Streamer.Streamer)
      → IsMapped s
      → Local s t
      → ((k : String) → ¬ (sid ≡ k) → lookup k t.streams ≡ lookup k s.streams)
      → (lookup sid t.streams ≡ none) ⊎ (lookup sid t.streams ≡ lookup sid s.streams)
      → IsMapped t × Announces (streamer_api w) sid s (t, [])
  unfolding streamer_api generation
  Local-law sid s t v l others own = (
    λ k b e.
        let here = v k b (l.unmapped k b e) in
        (omega (arith, l.streams_same, here), (l.stream_same b).2 ∙ here.1),
    record {
      others = λ k ne. same_generation k s t l (others k ne);
      own = inl (
        refl,
        elim own [
          | inl gone ↦ inl (ground (arith, gone))
          | inr same ↦ inr (same_generation sid s t l same)
        ],
      );
    },
  )

  pub install_law :
      (sid : String) (s t : Streamer.Streamer) (a : ℕ) (gen : Gen) (runs : ℕ)
      → IsMapped t
      → lookup sid t.streams ≡ some a
      → ((k : String) → ¬ (sid ≡ k) → generation k t ≡ generation k s)
      → IsMapped (install t a sid gen runs).0
        × Announces
            (streamer_api w)
            sid
            s
            ((install t a sid gen runs).0, starts_of (install t a sid gen runs).1)
  unfolding streamer_api generation starts_of
  install_law sid s t a gen runs v here others = (
    λ k b e. ground (arith, v k b e),
    record {
      others = λ k ne. install_other sid k t a gen runs v here ne ∙ others k ne;
      own = inr (ground (arith, here));
    },
  )

  unfoldable pub Law : String → Streamer.Streamer → Streamer.Streamer × Starts → Type 0
  Law sid s r = IsMapped r.0 × Announces (streamer_api w) sid s r

  pub same-Law : (sid : String) (s : Streamer.Streamer) → IsMapped s → Law sid s (s, [])
  unfolding Law
  same-Law sid s v = Local-law sid s s v (Local-refl s) (λ k ne. refl) (inr refl)

  -- a step that is local and leaves the map as it is
  pub kept-Law :
      (sid : String) (s t : Streamer.Streamer)
      → IsMapped s
      → Local s t
      → t.streams ≡ s.streams
      → Law sid s (t, [])
  unfolding Law
  kept-Law sid s t v l e = Local-law sid s t v l (λ k ne. ap (lookup k) e) (inr (ap (lookup sid) e))

  -- A call after a step that is local and leaves the map as it is.
  pub after-Law :
      (sid : String) (s t : Streamer.Streamer) (r : Streamer.Streamer × Starts)
      → Local s t
      → t.streams ≡ s.streams
      → Law sid t r
      → Law sid s r
  unfolding Law streamer_api
  after-Law sid s t r l e (v, a) =
      let same = λ (k : String). same_generation k s t l (ap (lookup k) e) in
      (
        v,
        record {
          others = λ k ne. a.others k ne ∙ same k;
          own = elim a.own [
            | inr new ↦ inr new
            | inl (no_start, inl none_left) ↦ inl (no_start, inl none_left)
            | inl (no_start, inr kept) ↦ inl (no_start, inr (kept ∙ same sid))
          ];
        },
      )

  -- a stream taken out of the map, and halted after what others do
  pub removed-Law :
      (f : Streamer.Streamer → Streamer.Streamer) (sid : String) (s : Streamer.Streamer) (a : ℕ)
      → IsCalm f
      → IsMapped s
      → Law sid s ((stop_locked a (f (record s { streams = delete sid s.streams }))).0, [])
  unfolding Law
  removed-Law f sid s a calm v =
      let s' = record s { streams = delete sid s.streams } in
      let (quiet, same) = calm s' in
      let t = (stop_locked a (f s')).0 in
      let l =
        Local-trans s s' t (unregister-Local sid s)
          (Local-trans s' (f s') t quiet (stop_locked-Local (f s') a)) in
      let e = stop_locked-streams a (f s') ∙ same in
      Local-law sid s t v l
        (λ k ne. ap (lookup k) e ∙ ground (arith, ne, lookup-delete sid k s.streams))
        (inl (ap (lookup sid) e ∙ ground (arith, lookup-delete sid sid s.streams)))

  pub installed-Law :
      (sid : String) (s t : Streamer.Streamer) (a : ℕ) (gen : Gen) (runs : ℕ)
      → IsMapped s
      → Local s t
      → t.streams ≡ s.streams
      → lookup sid s.streams ≡ some a
      → Law sid s ((install t a sid gen runs).0, starts_of (install t a sid gen runs).1)
  unfolding Law
  installed-Law sid s t a gen runs v l e here =
      let (v', kept) = kept-Law sid s t v l e in
      install_law sid s t a gen runs v' (ap (lookup sid) e ∙ here)
        (λ k ne. same_generation k s t l (ap (lookup k) e))
