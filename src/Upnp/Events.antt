-- ===== src/Upnp/Events.antt =====
-- internal/upnp/upnp.go: the subscribers to the events of the device, each with a queue and a goroutine
-- that delivers it. Handlers, timers and workers hold subscribers by pointer, so they are kept in a
-- store by address, and a step of a worker names the address that it holds.
pub mod Serve
pub mod Kept
pub mod Order
use ma_dlna.Base.{
  ℕ, suc, ◌+◌, Bool, true, false, not, ◌&&◌, List, [], ◌∷◌, ◌++◌, Option, none, some, String, eqb,
  ◌==◌, if◌then◌else◌,
}
use ma_dlna.Base.Int.{ℤ, pos, ◌+ℤ◌, ltb_ℤ}
use ma_dlna.Base.Dict.{lookup, insert, delete}

-- `release` says that the delivery waits for the response to the subscription.
pub record EventDelivery : Type 0 where
  pub callback : String
  pub callback_ip : String
  pub sid : String
  pub service : String
  pub seq : ℕ
  pub body : String
  pub release : Bool

-- `in_hand` is the delivery that the worker has taken off the queue, `responded` says that the channel
-- `release` of the subscription is closed, and `sent` lists what the worker has sent to the callback.
pub record EventSubscriber : Type 0 where
  pub sid : String
  pub callback : String
  pub callback_ip : String
  pub service : String
  pub seq : ℕ
  pub expires_at : ℤ
  pub queue : List EventDelivery
  pub closed : Bool
  pub worker_started : Bool
  pub in_hand : Option EventDelivery
  pub responded : Bool
  pub sent : List EventDelivery

-- The part of the handler under `mu`: the map of the subscribers, and the store.
pub record Events : Type 0 where
  pub subscribers : List (String × ℕ)
  pub subscriber_at : ℕ → EventSubscriber
  pub next : ℕ

-- no subscriber
abbrev pub blank : EventSubscriber
blank = record {
  sid = "";
  callback = "";
  callback_ip = "";
  service = "";
  seq = 0;
  expires_at = pos 0;
  queue = [];
  closed = true;
  worker_started = false;
  in_hand = none;
  responded = false;
  sent = [];
}

abbrev pub no_events : Events
no_events = record { subscribers = []; subscriber_at = λ a. blank; next = 0 }

-- 1800 seconds
abbrev pub subscription_time : ℤ
subscription_time = pos 1800000000000

unfoldable pub set_subscriber : ℕ → EventSubscriber → Events → Events
set_subscriber a sub ev = record ev {
  subscriber_at = λ b. if b == a then sub else ev.subscriber_at b;
}

-- `enqueueSubscriberDeliveryLocked` with `ensureWorkerLocked`
unfoldable pub enqueue : EventDelivery → EventSubscriber → EventSubscriber
enqueue ed sub =
    let s = record sub { worker_started = true } in
    if sub.closed then s else record s { queue = sub.queue ++ (ed ∷ []) }

-- `closeSubscriberLocked`; a subscriber that is closed already is left as it is.
unfoldable pub close : EventSubscriber → EventSubscriber
close sub = if sub.closed then sub else record sub { closed = true; queue = [] }

-- the end of a subscription: closed, and out of the map
unfoldable pub close_and_delete : String → ℕ → Events → Events
unfolding close set_subscriber
close_and_delete sid a ev =
    let ev' = set_subscriber a (close (ev.subscriber_at a)) ev in
    record ev' { subscribers = delete sid ev'.subscribers }

-- a new subscriber with its first delivery in the queue
unfoldable pub new_subscriber : String → String → String → String → String → ℤ → EventSubscriber
unfolding enqueue
new_subscriber sid callback callback_ip service body now =
    enqueue
      (record {
        callback = callback;
        callback_ip = callback_ip;
        sid = sid;
        service = service;
        seq = 0;
        body = body;
        release = true;
      })
      (record blank {
        sid = sid;
        callback = callback;
        callback_ip = callback_ip;
        service = service;
        expires_at = now +ℤ subscription_time;
        closed = false;
      })

-- A new subscription under `mu`.
unfoldable pub add_subscriber : String → String → String → String → String → ℤ → Events → Events
unfolding new_subscriber set_subscriber
add_subscriber sid callback callback_ip service body now ev =
    let sub = new_subscriber sid callback callback_ip service body now in
    let ev' = set_subscriber ev.next sub ev in
    record ev' { subscribers = insert sid ev.next ev.subscribers; next = suc ev.next }

-- `close(release)`, after the response
unfoldable pub respond : ℕ → Events → Events
unfolding set_subscriber
respond a ev = set_subscriber a (record (ev.subscriber_at a) { responded = true }) ev

-- A renewal, for a subscriber that is in the map.
unfoldable pub renew_found : Option ℕ → ℤ → Events → Events
unfolding set_subscriber
renew_found none now ev = ev
renew_found (some a) now ev =
    set_subscriber a (record (ev.subscriber_at a) { expires_at = now +ℤ subscription_time }) ev

unfoldable pub renew : String → ℤ → Events → Events
unfolding renew_found
renew sid now ev = renew_found (lookup sid ev.subscribers) now ev

unfoldable pub unsubscribe_found : String → Option ℕ → Events → Events
unfolding close_and_delete
unsubscribe_found sid none ev = record ev { subscribers = delete sid ev.subscribers }
unsubscribe_found sid (some a) ev = close_and_delete sid a ev

unfoldable pub unsubscribe : String → Events → Events
unfolding unsubscribe_found
unsubscribe sid ev = unsubscribe_found sid (lookup sid ev.subscribers) ev

-- The expiry timer of `scheduleExpiryLocked`: a subscription that was renewed stays.
unfoldable pub expire_found : String → Option ℕ → ℤ → Events → Events
unfolding close_and_delete
expire_found sid none now ev = ev
expire_found sid (some a) now ev =
    if ltb_ℤ now (ev.subscriber_at a).expires_at then ev else close_and_delete sid a ev

unfoldable pub expire_subscriber : String → ℤ → Events → Events
unfolding expire_found
expire_subscriber sid now ev = expire_found sid (lookup sid ev.subscribers) now ev

-- `closeAllSubscribers`: the loop over the map as it was.
unfoldable pub close_each : List (String × ℕ) → Events → Events
unfolding close_and_delete
close_each [] ev = ev
close_each ((sid, a) ∷ subs) ev = close_each subs (close_and_delete sid a ev)

unfoldable pub close_all_subscribers : Events → Events
unfolding close_each
close_all_subscribers ev = close_each ev.subscribers ev

-- the next event for a subscriber: its number, and its delivery
unfoldable pub next_event : String → EventSubscriber → EventSubscriber
unfolding enqueue
next_event body sub =
    let s = record sub { seq = suc sub.seq } in
    enqueue
      (record {
        callback = s.callback;
        callback_ip = s.callback_ip;
        sid = s.sid;
        service = s.service;
        seq = s.seq;
        body = body;
        release = false;
      })
      s

-- One round of `notifySubscribers`.
unfoldable pub notify_one : String → String → ℤ → ℕ → Events → Events
unfolding close_and_delete next_event set_subscriber
notify_one service body now a ev =
    let sub = ev.subscriber_at a in
    if ltb_ℤ sub.expires_at now
    then close_and_delete sub.sid a ev
    else if eqb sub.service service
    then set_subscriber a (next_event body sub) ev
    else ev

unfoldable pub notify_each : String → String → ℤ → List (String × ℕ) → Events → Events
unfolding notify_one
notify_each service body now [] ev = ev
notify_each service body now ((sid, a) ∷ subs) ev =
    notify_each service body now subs (notify_one service body now a ev)

unfoldable pub notify_subscribers : String → String → ℤ → Events → Events
unfolding notify_each
notify_subscribers service body now ev = notify_each service body now ev.subscribers ev

-- `runSubscriberWorker`, the first section: the head of the queue, if the worker waits for one.
unfoldable pub take_queue : List EventDelivery → EventSubscriber → EventSubscriber
take_queue [] sub = sub
take_queue (ed ∷ eds) sub = record sub { in_hand = some ed; queue = eds }

unfoldable pub worker_take : EventSubscriber → EventSubscriber
unfolding take_queue
worker_take sub = elim sub.in_hand [
  | some ed ↦ sub
  | none ↦ if sub.worker_started && not sub.closed then take_queue sub.queue sub else sub
]

-- The second section, once the delivery is released: a closed subscriber gets nothing more.
unfoldable pub worker_send : EventSubscriber → EventSubscriber
worker_send sub = elim sub.in_hand [
  | none ↦ sub
  | some ed ↦
      if ed.release && not sub.responded
      then sub
      else if sub.closed
      then sub
      else record sub { in_hand = none; sent = sub.sent ++ (ed ∷ []) }
]

-- The sections of the handlers, timers and workers.
pub data Step : Type 0 where
  add : String → String → String → String → String → ℤ → Step
  response : ℕ → Step
  renewal : String → ℤ → Step
  removal : String → Step
  timer : String → ℤ → Step
  notify : String → String → ℤ → Step
  close_all : Step
  take_next : ℕ → Step
  send_it : ℕ → Step

unfoldable pub step : Step → Events → Events
unfolding add_subscriber respond renew unsubscribe expire_subscriber notify_subscribers
    close_all_subscribers worker_take worker_send set_subscriber
step (add sid callback callback_ip service body now) ev =
    add_subscriber sid callback callback_ip service body now ev
step (response a) ev = respond a ev
step (renewal sid now) ev = renew sid now ev
step (removal sid) ev = unsubscribe sid ev
step (timer sid now) ev = expire_subscriber sid now ev
step (notify service body now) ev = notify_subscribers service body now ev
step close_all ev = close_all_subscribers ev
step (take_next a) ev = set_subscriber a (worker_take (ev.subscriber_at a)) ev
step (send_it a) ev = set_subscriber a (worker_send (ev.subscriber_at a)) ev

unfoldable pub run : List Step → Events → Events
unfolding step
run [] ev = ev
run (s ∷ steps) ev = run steps (step s ev)
