-- ===== src/Upnp/Events/Kept.antt =====
-- internal/upnp/upnp.go: what all sections of the handlers, timers and workers keep of a subscriber.
use native.Mathlib.Decide.{ℕ_discrete}
use ma_dlna.Base.{
  ℕ, ◌<◌, ◌≡◌, sym, subst, true, ◌⊎◌, inl, inr, List, [], ◌∷◌, Option, none, some, String, eqb,
  arith, Bool-cases,
}
use ma_dlna.Base.Int.{ℤ, ltb_ℤ}
use ma_dlna.Base.Dict.{lookup}
use ma_dlna.Upnp.Events.{
  EventSubscriber, Events, set_subscriber, close, close_and_delete, new_subscriber, add_subscriber,
  respond, renew_found, renew, unsubscribe_found, unsubscribe, expire_found, expire_subscriber,
  close_each, close_all_subscribers, next_event, notify_one, notify_each, notify_subscribers,
  worker_take, worker_send, Step, add, response, renewal, removal, timer, notify, close_all,
  take_next, send_it, step,
}

-- A property of a subscriber that all sections keep.
pub record Kept {ℓ} (P : EventSubscriber → Type ℓ) : Type ℓ where
  pub by_close : (sub : EventSubscriber) → P sub → P (close sub)
  pub by_event : (body : String) (sub : EventSubscriber) → P sub → P (next_event body sub)
  pub by_take : (sub : EventSubscriber) → P sub → P (worker_take sub)
  pub by_send : (sub : EventSubscriber) → P sub → P (worker_send sub)
  pub by_response : (sub : EventSubscriber) → P sub → P (record sub { responded = true })
  pub by_renewal : (t : ℤ) (sub : EventSubscriber) → P sub → P (record sub { expires_at = t })

module _ {ℓ} (P : EventSubscriber → Type ℓ) (kept : Kept P) (a : ℕ) where
  set_lem :
      (b : ℕ) (sub : EventSubscriber) (ev : Events)
      → P (ev.subscriber_at a)
      → (P (ev.subscriber_at b) → P sub)
      → P ((set_subscriber b sub ev).subscriber_at a)
  unfolding set_subscriber
  set_lem b sub ev h to = elim (ℕ_discrete a b) [
    | yes same ↦
        let e : (set_subscriber b sub ev).subscriber_at a ≡ sub = ground (arith, same) in
        subst P (sym e) (to (subst (λ (c : ℕ). P (ev.subscriber_at c)) (same) h))
    | no other ↦
        let e : (set_subscriber b sub ev).subscriber_at a ≡ ev.subscriber_at a =
          ground (arith, other) in
        subst P (sym e) h
  ]

  close_and_delete_lem :
      (sid : String) (b : ℕ) (ev : Events)
      → P (ev.subscriber_at a)
      → P ((close_and_delete sid b ev).subscriber_at a)
  unfolding close_and_delete
  close_and_delete_lem sid b ev h =
      set_lem b (close (ev.subscriber_at b)) ev h (kept.by_close (ev.subscriber_at b))

  close_each_lem :
      (subs : List (String × ℕ)) (ev : Events)
      → P (ev.subscriber_at a)
      → P ((close_each subs ev).subscriber_at a)
  unfolding close_each
  close_each_lem [] ev h = h
  close_each_lem ((sid, b) ∷ subs) ev h =
      close_each_lem subs (close_and_delete sid b ev) (close_and_delete_lem sid b ev h)

  notify_one_lem :
      (service body : String) (now : ℤ) (b : ℕ) (ev : Events)
      → P (ev.subscriber_at a)
      → P ((notify_one service body now b ev).subscriber_at a)
  unfolding notify_one
  notify_one_lem service body now b ev h =
      let sub = ev.subscriber_at b in
      elim (Bool-cases (ltb_ℤ sub.expires_at now)) [
        | inl over ↦
            let e : notify_one service body now b ev ≡ close_and_delete sub.sid b ev =
              ground (arith, over) in
            subst (λ (v : Events). P (v.subscriber_at a)) (sym e)
              (close_and_delete_lem sub.sid b ev h)
        | inr lives ↦ elim (Bool-cases (eqb sub.service service)) [
          | inl same ↦
              let e : notify_one service body now b ev ≡ set_subscriber b (next_event body sub) ev =
                ground (arith, lives, same) in
              subst (λ (v : Events). P (v.subscriber_at a)) (sym e)
                (set_lem b (next_event body sub) ev h (kept.by_event body sub))
          | inr other ↦
              let e : notify_one service body now b ev ≡ ev = ground (arith, lives, other) in
              subst (λ (v : Events). P (v.subscriber_at a)) (sym e) h
        ]
      ]

  notify_each_lem :
      (service body : String) (now : ℤ) (subs : List (String × ℕ)) (ev : Events)
      → P (ev.subscriber_at a)
      → P ((notify_each service body now subs ev).subscriber_at a)
  unfolding notify_each
  notify_each_lem service body now [] ev h = h
  notify_each_lem service body now ((sid, b) ∷ subs) ev h =
      notify_each_lem service body now subs (notify_one service body now b ev)
        (notify_one_lem service body now b ev h)

  unsubscribe_found_lem :
      (sid : String) (o : Option ℕ) (ev : Events)
      → P (ev.subscriber_at a)
      → P ((unsubscribe_found sid o ev).subscriber_at a)
  unfolding unsubscribe_found
  unsubscribe_found_lem sid none ev h = h
  unsubscribe_found_lem sid (some b) ev h = close_and_delete_lem sid b ev h

  renew_found_lem :
      (o : Option ℕ) (now : ℤ) (ev : Events)
      → P (ev.subscriber_at a)
      → P ((renew_found o now ev).subscriber_at a)
  unfolding renew_found
  renew_found_lem none now ev h = h
  renew_found_lem (some b) now ev h = set_lem b _ ev h (kept.by_renewal _ (ev.subscriber_at b))

  expire_found_lem :
      (sid : String) (o : Option ℕ) (now : ℤ) (ev : Events)
      → P (ev.subscriber_at a)
      → P ((expire_found sid o now ev).subscriber_at a)
  unfolding expire_found
  expire_found_lem sid none now ev h = h
  expire_found_lem sid (some b) now ev h =
      elim (Bool-cases (ltb_ℤ now (ev.subscriber_at b).expires_at)) [
        | inl early ↦ rw early h
        | inr over ↦ rw over (close_and_delete_lem sid b ev h)
      ]

  add_lem :
      (sid callback callback_ip service body : String) (now : ℤ) (ev : Events)
      → P (ev.subscriber_at a)
      → (a < ev.next) ⊎ P (new_subscriber sid callback callback_ip service body now)
      → P ((add_subscriber sid callback callback_ip service body now ev).subscriber_at a)
  unfolding add_subscriber set_subscriber
  add_lem sid callback callback_ip service body now ev h (inr fresh) =
      set_lem ev.next (new_subscriber sid callback callback_ip service body now) ev h (λ old. fresh)
  add_lem sid callback callback_ip service body now ev h (inl below) =
      let e : (add_subscriber sid callback callback_ip service body now ev).subscriber_at a
          ≡ ev.subscriber_at a =
        ground (arith, below) in
      subst P (sym e) h

  -- The subscription that a step adds has the property, or the address is taken already.
  abbrev pub IsFresh : Step → Events → Type ℓ
  IsFresh (add sid callback callback_ip service body now) ev =
      (a < ev.next) ⊎ P (new_subscriber sid callback callback_ip service body now)
  IsFresh s ev = Unit

  pub step_lem :
      (s : Step) (ev : Events)
      → P (ev.subscriber_at a)
      → IsFresh s ev
      → P ((step s ev).subscriber_at a)
  unfolding step respond renew unsubscribe expire_subscriber notify_subscribers
      close_all_subscribers
  step_lem (add sid callback callback_ip service body now) ev h fresh =
      add_lem sid callback callback_ip service body now ev h fresh
  step_lem (response b) ev h fresh = set_lem b _ ev h (kept.by_response (ev.subscriber_at b))
  step_lem (renewal sid now) ev h fresh = renew_found_lem (lookup sid ev.subscribers) now ev h
  step_lem (removal sid) ev h fresh = unsubscribe_found_lem sid (lookup sid ev.subscribers) ev h
  step_lem (timer sid now) ev h fresh = expire_found_lem sid (lookup sid ev.subscribers) now ev h
  step_lem (notify service body now) ev h fresh =
      notify_each_lem service body now ev.subscribers ev h
  step_lem close_all ev h fresh = close_each_lem ev.subscribers ev h
  step_lem (take_next b) ev h fresh = set_lem b _ ev h (kept.by_take (ev.subscriber_at b))
  step_lem (send_it b) ev h fresh = set_lem b _ ev h (kept.by_send (ev.subscriber_at b))
