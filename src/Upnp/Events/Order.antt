-- ===== src/Upnp/Events/Order.antt =====
-- internal/upnp/upnp.go: the order of the deliveries to a subscriber.
pub mod Runs
use mathlib.Core.List.{append_assoc, map-append}
use ma_dlna.Base.{
  ℕ, zero, suc, ◌+◌, ◌≤◌, ◌<◌, ◌≡◌, refl, sym, ap, ap₂, ◌∙◌, true, false, not, ◌&&◌, List, [], ◌∷◌,
  ◌++◌, map, String, subst, Option, none, some, ◌==◌, All, if◌then◌else◌, arith, Bool-cases,
  Option-cases, inl, inr,
}
use ma_dlna.Upnp.Events.{
  EventDelivery, EventSubscriber, enqueue, close, next_event, take_queue, worker_take, worker_send,
}

abbrev pub seqs : List EventDelivery → List ℕ
seqs = map (λ d. d.seq)

-- `n` numbers from `k` on
unfoldable pub count_from : ℕ → ℕ → List ℕ
count_from k zero = []
count_from k (suc n) = k ∷ count_from (suc k) n

abbrev pub upto : ℕ → List ℕ
upto n = count_from 0 n

abbrev pub hand : Option EventDelivery → List EventDelivery
hand none = []
hand (some ed) = ed ∷ []

-- what the worker has still to send
abbrev pub pending : EventSubscriber → List EventDelivery
pending sub = hand sub.in_hand ++ sub.queue

-- The deliveries have the numbers from 0 on, without a gap: those sent, and, as long as the subscriber is
-- not closed, those sent and those still to send, up to the last event. None is sent before the response.
pub record InOrder (sub : EventSubscriber) : Type 0 where
  pub count : ℕ
  pub sent_upto : seqs sub.sent ≡ upto count
  pub bound : count ≤ suc sub.seq
  pub live : sub.closed ≡ false → seqs (sub.sent ++ pending sub) ≡ upto (suc sub.seq)
  pub waits : sub.responded ≡ false → sub.sent ≡ []
  pub flags : sub.closed ≡ false → All (λ d. d.release ≡ (d.seq == 0)) (pending sub)

count_from-snoc : (k n x : ℕ) → x ≡ k + n → count_from k n ++ (x ∷ []) ≡ count_from k (suc n)
unfolding count_from
count_from-snoc k zero x e = ap (λ (y : ℕ). y ∷ []) (omega arith)
count_from-snoc k (suc n) x e = ap (◌∷◌ k) (count_from-snoc (suc k) n x (omega arith))

tail_of : List ℕ → List ℕ
tail_of [] = []
tail_of (x ∷ xs) = xs

-- What stands after the numbers of a longer count is the next number.
count_from-next :
    (k n m x : ℕ) (xs : List ℕ)
    → count_from k n ++ (x ∷ xs) ≡ count_from k m
    → (x ≡ k + n) × (n < m)
unfolding count_from tail_of
count_from-next k zero zero x xs e = absurd (cc)
count_from-next k zero (suc m) x xs e = let first : x ≡ k = cc in omega arith
count_from-next k (suc n) zero x xs e = absurd (cc)
count_from-next k (suc n) (suc m) x xs e =
    omega (arith, count_from-next (suc k) n m x xs (ap tail_of e))

count_from-nil : (k n : ℕ) → count_from k n ≡ [] → n ≡ 0
unfolding count_from
count_from-nil k zero e = refl
count_from-nil k (suc n) e = absurd (cc)

All-append {ℓ κ} :
    {A : Type ℓ} (P : A → Type κ) (xs ys : List A) → All P xs → All P ys → All P (xs ++ ys)
All-append P [] ys h k = k
All-append P (x ∷ xs) ys h k = (h.0, All-append P xs ys h.1 k)

-- the delivery of an event
abbrev event : String → EventSubscriber → EventDelivery
event body sub = record {
  callback = sub.callback;
  callback_ip = sub.callback_ip;
  sid = sub.sid;
  service = sub.service;
  seq = suc sub.seq;
  body = body;
  release = false;
}

seqs-append : (xs ys : List EventDelivery) → seqs (xs ++ ys) ≡ seqs xs ++ seqs ys
seqs-append xs ys = map-append (λ (d : EventDelivery). d.seq) xs ys

module _ (sub : EventSubscriber) (ord : InOrder sub) where
  -- A delivery with the next number, at the end of the queue.
  queued-InOrder :
      (body : String)
      → sub.closed ≡ false
      → InOrder (record sub {
        seq = suc sub.seq;
        worker_started = true;
        queue = sub.queue ++ (event body sub ∷ []);
      })
  queued-InOrder body open_ =
      let ed = event body sub in
      let regroup : sub.sent ++ (hand sub.in_hand ++ (sub.queue ++ (ed ∷ [])))
          ≡ (sub.sent ++ (hand sub.in_hand ++ sub.queue)) ++ (ed ∷ []) =
        simp append_assoc in
      record {
        count = ord.count;
        sent_upto = ord.sent_upto;
        bound = omega (arith, ord.bound);
        live = λ o.
            ap seqs regroup
            ∙ seqs-append (sub.sent ++ pending sub) (ed ∷ [])
            ∙ ap (λ (l : List ℕ). l ++ (suc sub.seq ∷ [])) (ord.live open_)
            ∙ count_from-snoc 0 (suc sub.seq) (suc sub.seq) (omega arith);
        waits = ord.waits;
        flags = λ o.
            subst (All (λ (d : EventDelivery). d.release ≡ (d.seq == 0)))
              (append_assoc (hand sub.in_hand) sub.queue (ed ∷ []))
              (All-append (λ (d : EventDelivery). d.release ≡ (d.seq == 0)) (pending sub) (ed ∷ [])
                (ord.flags open_) (ground arith, tt));
      }

  skipped-InOrder :
      sub.closed ≡ true → InOrder (record sub { seq = suc sub.seq; worker_started = true })
  skipped-InOrder shut = record {
    count = ord.count;
    sent_upto = ord.sent_upto;
    bound = omega (arith, ord.bound);
    live = λ open_. absurd (cc (shut));
    waits = ord.waits;
    flags = λ open_. absurd (cc (shut));
  }

  pub next_event-InOrder : (body : String) → InOrder (next_event body sub)
  unfolding next_event enqueue
  next_event-InOrder body = elim (Bool-cases sub.closed) [
    | inl shut ↦
        let e : next_event body sub ≡ record sub { seq = suc sub.seq; worker_started = true } =
          ground (arith, shut) in
        subst InOrder (sym e) (skipped-InOrder shut)
    | inr live_ ↦
        let e : next_event body sub ≡ record sub {
          seq = suc sub.seq;
          worker_started = true;
          queue = sub.queue ++ (event body sub ∷ []);
        } =
          ground (arith, live_) in
        subst InOrder (sym e) (queued-InOrder body live_)
  ]

  pub close-InOrder : InOrder (close sub)
  unfolding close
  close-InOrder = elim (Bool-cases sub.closed) [
    | inl shut ↦ let e : close sub ≡ sub = ground (arith, shut) in subst InOrder (sym e) ord
    | inr live_ ↦
        let e : close sub ≡ record sub { closed = true; queue = [] } = ground (arith, live_) in
        subst InOrder (sym e) (record {
          count = ord.count;
          sent_upto = ord.sent_upto;
          bound = ord.bound;
          live = λ open_. absurd (cc);
          waits = ord.waits;
          flags = λ open_. absurd (cc);
        })
  ]

  -- The head of the queue goes to the hand.
  taken-InOrder :
      (ed : EventDelivery) (eds : List EventDelivery)
      → sub.in_hand ≡ none
      → sub.queue ≡ ed ∷ eds
      → InOrder (record sub { in_hand = some ed; queue = eds })
  taken-InOrder ed eds empty head =
      let same : pending sub ≡ ed ∷ eds =
        ap₂ (λ (o : Option EventDelivery) q. hand o ++ q) empty head in
      record {
        count = ord.count;
        sent_upto = ord.sent_upto;
        bound = ord.bound;
        live = λ o. ap (λ l. seqs (sub.sent ++ l)) (sym same) ∙ ord.live o;
        waits = ord.waits;
        flags =
            λ o. subst (All (λ (d : EventDelivery). d.release ≡ (d.seq == 0))) (same) (ord.flags o);
      }

  -- The delivery in the hand goes out.
  sent-InOrder :
      (ed : EventDelivery)
      → sub.in_hand ≡ some ed
      → sub.closed ≡ false
      → (ed.release && not sub.responded) ≡ false
      → InOrder (record sub { in_hand = none; sent = sub.sent ++ (ed ∷ []) })
  sent-InOrder ed held open_ free =
      let same : pending sub ≡ ed ∷ sub.queue =
        ap (λ (o : Option EventDelivery). hand o ++ sub.queue) held in
      let all : seqs sub.sent ++ (ed.seq ∷ seqs sub.queue) ≡ upto (suc sub.seq) =
        sym (seqs-append sub.sent (ed ∷ sub.queue))
        ∙ ap (λ l. seqs (sub.sent ++ l)) (sym same)
        ∙ ord.live open_ in
      let next =
        count_from-next 0 ord.count (suc sub.seq) ed.seq (seqs sub.queue)
          (ap (λ l. l ++ (ed.seq ∷ seqs sub.queue)) (sym ord.sent_upto) ∙ all) in
      let flags =
        subst (All (λ (d : EventDelivery). d.release ≡ (d.seq == 0))) (same) (ord.flags open_) in
      record {
        count = suc ord.count;
        sent_upto =
            seqs-append sub.sent (ed ∷ [])
            ∙ ap (λ l. l ++ (ed.seq ∷ [])) ord.sent_upto
            ∙ count_from-snoc 0 ord.count ed.seq next.0;
        bound = next.1;
        live = λ o.
            ap seqs (append_assoc sub.sent (ed ∷ []) sub.queue)
            ∙ ap (λ l. seqs (sub.sent ++ l)) (sym same)
            ∙ ord.live open_;
        waits = λ silent.
            let none_sent : seqs sub.sent ≡ [] = ap seqs (ord.waits silent) in
            let zero_count = count_from-nil 0 ord.count (sym ord.sent_upto ∙ none_sent) in
            absurd (ground (arith, flags.0, free, silent, zero_count, next.0));
        flags = λ o. flags.1;
      }

module _ (sub : EventSubscriber) (ord : InOrder sub) where
  pub worker_take-InOrder : InOrder (worker_take sub)
  unfolding worker_take take_queue
  worker_take-InOrder = elim (Option-cases sub.in_hand) [
    | inr (ed, held) ↦
        let e : worker_take sub ≡ sub = ground (arith, held) in subst InOrder (sym e) ord
    | inl empty ↦ elim (Bool-cases (sub.worker_started && not sub.closed)) [
      | inr rests ↦
          let e : worker_take sub ≡ sub = ground (arith, empty, rests) in subst InOrder (sym e) ord
      | inl works ↦
          let e : worker_take sub ≡ take_queue sub.queue sub = ground (arith, empty, works) in
          subst InOrder (sym e) (take_queue-InOrder sub.queue refl empty)
    ]
  ]
    where
      take_queue-InOrder :
          (q : List EventDelivery) → sub.queue ≡ q → sub.in_hand ≡ none → InOrder (take_queue q sub)
      take_queue-InOrder [] head empty = ord
      take_queue-InOrder (ed ∷ eds) head empty = taken-InOrder sub ord ed eds empty head

  pub worker_send-InOrder : InOrder (worker_send sub)
  unfolding worker_send
  worker_send-InOrder = elim (Option-cases sub.in_hand) [
    | inl empty ↦ let e : worker_send sub ≡ sub = ground (arith, empty) in subst InOrder (sym e) ord
    | inr (ed, held) ↦ elim (Bool-cases (ed.release && not sub.responded)) [
      | inl waits ↦
          let e : worker_send sub ≡ sub = ground (arith, held, waits) in subst InOrder (sym e) ord
      | inr free ↦ elim (Bool-cases sub.closed) [
        | inl shut ↦
            let e : worker_send sub ≡ sub = ground (arith, held, free, shut) in
            subst InOrder (sym e) ord
        | inr open_ ↦
            let e : worker_send sub ≡ record sub { in_hand = none; sent = sub.sent ++ (ed ∷ []) } =
              ground (arith, held, free, open_) in
            subst InOrder (sym e) (sent-InOrder sub ord ed held open_ free)
      ]
    ]
  ]
