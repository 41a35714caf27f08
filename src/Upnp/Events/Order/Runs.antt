-- ===== src/Upnp/Events/Order/Runs.antt =====
-- internal/upnp/upnp.go: the deliveries under every schedule of the handlers, timers and workers.
use ma_dlna.Base.{
  ℕ, suc, ◌≤◌, ◌<◌, ◌≡◌, refl, ◌∙◌, true, ◌⊎◌, inl, inr, List, [], ◌∷◌, ◌++◌, Option, none, some,
  String, arith, Bool-cases,
}
use ma_dlna.Base.Int.{ℤ, pos}
use ma_dlna.Base.Dict.{lookup}
use ma_dlna.Upnp.Events.{
  EventDelivery, EventSubscriber, Events, blank, no_events, set_subscriber, enqueue, close,
  close_and_delete, new_subscriber, add_subscriber, respond, renew_found, renew, unsubscribe_found,
  unsubscribe, expire_found, expire_subscriber, close_each, close_all_subscribers, next_event,
  notify_one, notify_each, notify_subscribers, worker_take, worker_send, Step, add, response,
  renewal, removal, timer, notify, close_all, take_next, send_it, step, run,
}
use ma_dlna.Upnp.Events.Kept.{Kept, IsFresh, step_lem}
use ma_dlna.Upnp.Events.Order.{
  InOrder, count_from, seqs, upto, pending, next_event-InOrder, close-InOrder, worker_take-InOrder,
  worker_send-InOrder,
}

-- Addresses are given out once, in order.
close_each-next : (subs : List (String × ℕ)) (ev : Events) → (close_each subs ev).next ≡ ev.next
unfolding close_each close_and_delete set_subscriber
close_each-next [] ev = refl
close_each-next ((sid, a) ∷ subs) ev = close_each-next subs (close_and_delete sid a ev)

notify_one-next :
    (service body : String) (now : ℤ) (a : ℕ) (ev : Events)
    → (notify_one service body now a ev).next ≡ ev.next
unfolding notify_one close_and_delete set_subscriber
notify_one-next service body now a ev = ground arith

notify_each-next :
    (service body : String) (now : ℤ) (subs : List (String × ℕ)) (ev : Events)
    → (notify_each service body now subs ev).next ≡ ev.next
unfolding notify_each
notify_each-next service body now [] ev = refl
notify_each-next service body now ((sid, a) ∷ subs) ev =
    notify_each-next service body now subs (notify_one service body now a ev)
    ∙ notify_one-next service body now a ev

found-next :
    (sid : String) (o : Option ℕ) (now : ℤ) (ev : Events)
    → ((unsubscribe_found sid o ev).next ≡ ev.next)
      × ((renew_found o now ev).next ≡ ev.next)
      × ((expire_found sid o now ev).next ≡ ev.next)
unfolding unsubscribe_found renew_found expire_found close_and_delete set_subscriber
found-next sid none now ev = (refl, refl, refl)
found-next sid (some a) now ev = (refl, refl, ground arith)

step-next-le : (s : Step) (ev : Events) → ev.next ≤ (step s ev).next
unfolding step add_subscriber respond set_subscriber renew unsubscribe expire_subscriber
    notify_subscribers close_all_subscribers
step-next-le (add sid callback callback_ip service body now) ev = omega arith
step-next-le (response b) ev = omega arith
step-next-le (renewal sid now) ev =
    omega (arith, (found-next sid (lookup sid ev.subscribers) now ev).1)
step-next-le (removal sid) ev =
    omega (arith, (found-next sid (lookup sid ev.subscribers) (pos 0) ev).0)
step-next-le (timer sid now) ev =
    omega (arith, (found-next sid (lookup sid ev.subscribers) now ev).2)
step-next-le (notify service body now) ev =
    omega (arith, notify_each-next service body now ev.subscribers ev)
step-next-le close_all ev = omega (arith, close_each-next ev.subscribers ev)
step-next-le (take_next b) ev = omega arith
step-next-le (send_it b) ev = omega arith

InOrder-Kept : Kept InOrder
InOrder-Kept = record {
  by_close = λ sub o. close-InOrder sub o;
  by_event = λ body sub o. next_event-InOrder sub o body;
  by_take = λ sub o. worker_take-InOrder sub o;
  by_send = λ sub o. worker_send-InOrder sub o;
  by_response = λ sub o. record {
    count = o.count;
    sent_upto = o.sent_upto;
    bound = o.bound;
    live = o.live;
    waits = λ silent. absurd (cc);
    flags = o.flags;
  };
  by_renewal = λ t sub o. record {
    count = o.count;
    sent_upto = o.sent_upto;
    bound = o.bound;
    live = o.live;
    waits = o.waits;
    flags = o.flags;
  };
}

new_subscriber-InOrder :
    (sid callback callback_ip service body : String) (now : ℤ)
    → InOrder (new_subscriber sid callback callback_ip service body now)
unfolding new_subscriber enqueue count_from
new_subscriber-InOrder sid callback callback_ip service body now = record {
  count = 0;
  sent_upto = refl;
  bound = omega arith;
  live = λ o. refl;
  waits = λ silent. refl;
  flags = λ o. (refl, tt);
}

blank-InOrder : InOrder blank
unfolding count_from
blank-InOrder = record {
  count = 0;
  sent_upto = refl;
  bound = omega arith;
  live = λ open_. absurd (cc);
  waits = λ silent. refl;
  flags = λ open_. absurd (cc);
}

-- Closed, with these deliveries sent.
abbrev Shut : List EventDelivery → EventSubscriber → Type 0
Shut l sub = (sub.closed ≡ true) × (sub.sent ≡ l)

close-Shut : (l : List EventDelivery) (sub : EventSubscriber) → Shut l sub → Shut l (close sub)
unfolding close
close-Shut l sub h = ground (arith, h)

next_event-Shut :
    (l : List EventDelivery) (body : String) (sub : EventSubscriber)
    → Shut l sub
    → Shut l (next_event body sub)
unfolding next_event enqueue
next_event-Shut l body sub h = ground (arith, h)

worker_take-Shut :
    (l : List EventDelivery) (sub : EventSubscriber) → Shut l sub → Shut l (worker_take sub)
unfolding worker_take
worker_take-Shut l sub h = ground (arith, h)

worker_send-Shut :
    (l : List EventDelivery) (sub : EventSubscriber) → Shut l sub → Shut l (worker_send sub)
unfolding worker_send
worker_send-Shut l sub h = ground (arith, h)

Shut-Kept : (l : List EventDelivery) → Kept (Shut l)
Shut-Kept l = record {
  by_close = close-Shut l;
  by_event = next_event-Shut l;
  by_take = worker_take-Shut l;
  by_send = worker_send-Shut l;
  by_response = λ sub h. h;
  by_renewal = λ t sub h. h;
}

run-InOrder :
    (steps : List Step) (a : ℕ) (ev : Events)
    → InOrder (ev.subscriber_at a)
    → InOrder ((run steps ev).subscriber_at a)
unfolding run
run-InOrder [] a ev h = h
run-InOrder (s ∷ steps) a ev h =
    run-InOrder steps a (step s ev) (step_lem InOrder InOrder-Kept a s ev h (fresh s))
  where
    fresh : (s' : Step) → IsFresh InOrder InOrder-Kept a s' ev
    fresh (add sid callback callback_ip service body now) =
        inr (new_subscriber-InOrder sid callback callback_ip service body now)
    fresh (response b) = tt
    fresh (renewal sid now) = tt
    fresh (removal sid) = tt
    fresh (timer sid now) = tt
    fresh (notify service body now) = tt
    fresh close_all = tt
    fresh (take_next b) = tt
    fresh (send_it b) = tt

run-Shut :
    (steps : List Step) (l : List EventDelivery) (a : ℕ) (ev : Events)
    → a < ev.next
    → Shut l (ev.subscriber_at a)
    → Shut l ((run steps ev).subscriber_at a)
unfolding run
run-Shut [] l a ev below h = h
run-Shut (s ∷ steps) l a ev below h =
    run-Shut steps l a (step s ev) (omega (arith, step-next-le s ev))
      (step_lem (Shut l) (Shut-Kept l) a s ev h (taken s))
  where
    taken : (s' : Step) → IsFresh (Shut l) (Shut-Kept l) a s' ev
    taken (add sid callback callback_ip service body now) = inl below
    taken (response b) = tt
    taken (renewal sid now) = tt
    taken (removal sid) = tt
    taken (timer sid now) = tt
    taken (notify service body now) = tt
    taken close_all = tt
    taken (take_next b) = tt
    taken (send_it b) = tt

-- What the deliveries to a subscriber are at any time.
pub record IsOrdered (sub : EventSubscriber) : Type 0 where
  pub count : ℕ
  pub sent_upto : seqs sub.sent ≡ upto count
  pub bound : count ≤ suc sub.seq
  pub complete : (sub.closed ≡ true) ⊎ (seqs (sub.sent ++ pending sub) ≡ upto (suc sub.seq))
  pub responded : (sub.responded ≡ true) ⊎ (sub.sent ≡ [])

InOrder-IsOrdered : (sub : EventSubscriber) → InOrder sub → IsOrdered sub
InOrder-IsOrdered sub o = record {
  count = o.count;
  sent_upto = o.sent_upto;
  bound = o.bound;
  complete = elim (Bool-cases sub.closed) [ inl shut ↦ inl shut | inr open_ ↦ inr (o.live open_) ];
  responded = elim (Bool-cases sub.responded) [
    | inl done ↦ inl done
    | inr not_yet ↦ inr (o.waits not_yet)
  ];
}

-- Under every schedule of subscriptions, renewals, cancellations, timers, events and workers, what a
-- worker has sent to a subscriber has the numbers 0, 1, 2, ... in order and without a gap, up to the last
-- event at most; nothing is sent before the response to the subscription; and, unless the subscriber is
-- closed, the deliveries sent and those still to send are all those up to the last event.
pub run-IsOrdered : (steps : List Step) (a : ℕ) → IsOrdered ((run steps no_events).subscriber_at a)
run-IsOrdered steps a =
    InOrder-IsOrdered ((run steps no_events).subscriber_at a)
      (run-InOrder steps a no_events blank-InOrder)

-- A subscriber that has been closed, by its cancellation or its expiry, is sent nothing more, whatever the
-- handlers, timers and workers do after that.
pub closed-run :
    (before after : List Step) (a : ℕ)
    → ((run before no_events).subscriber_at a).closed ≡ true
    → a < (run before no_events).next
    → ((run after (run before no_events)).subscriber_at a).sent
      ≡ ((run before no_events).subscriber_at a).sent
closed-run before after a shut below =
    let ev = run before no_events in
    (run-Shut after (ev.subscriber_at a).sent a ev below (shut, refl)).1
