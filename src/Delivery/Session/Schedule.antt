-- ===== src/Delivery/Session/Schedule.antt =====
-- `enqueueDelivery` and the flush messages that a session sends to itself.
use stream_analytics.Base.{
  ℕ, ◌-◌, ◌<◌, ◌≤◌, ◌≡◌, refl, Bool, true, false, List, if◌then◌else◌, arith, Bool-cases,
  Option-cases, inl, inr,
}
use stream_analytics.Base.Int.{pos, ◌<ℤ◌}
use stream_analytics.Ring.{Ring, IsValid, push_back, drop_front, remove_at, pop_front}
use stream_analytics.Ring
use stream_analytics.Ring.Contents.{push_back-IsValid, drop_front-IsValid}
use stream_analytics.Ring.Removal.{remove_at-IsValid, remove_at-room}
use stream_analytics.Delivery.Session.{
  DeliveryEvent, no_event, BackpressurePolicy, drop_newest, drop_oldest, priority_drop, other,
  DropReason, Session, disconnects, on_drop, score_of, lowest, is_full, replace,
  priority_drop_event, start_flush, append, append_unless, flush_unless, after_priority_drop,
  enqueue_full, enqueue_delivery, queue_full, dropped_oldest, dropped_priority, dropped_self,
}
use stream_analytics.Delivery.Session.Refine.{dropped, on_drop_form, victim-lt, drop_front_room}

-- What holds between any two statements that start or stop a flush: a session that is open has one
-- flush message in its mailbox if it is flushing and none otherwise, and has dropped fewer events
-- than the threshold, if there is one.
pub record Counted (s : Session) : Type 0 where
  pub valid : IsValid s.outbound
  pub pending : s.closed ≡ false → s.sent_flushes ≡ (if s.flushing then 1 else 0)
  pub patient :
      s.closed ≡ false
      → pos 0 <ℤ s.slow_client_drop_threshold
      → pos s.drop_count <ℤ s.slow_client_drop_threshold

-- What holds between two messages: also, an open session with a queued event is flushing.
pub record Scheduled (s : Session) : Type 0 where
  pub counted : Counted s
  pub awake : s.closed ≡ false → 0 < s.outbound.count → s.flushing ≡ true

dropped-Counted :
    (s : Session) (closed : Bool) (problems : List DropReason)
    → (closed ≡ false → s.closed ≡ false)
    → (disconnects s ≡ true → closed ≡ true)
    → Counted s
    → Counted (dropped s closed problems)
dropped-Counted s true problems opened closes c = record {
  valid = c.valid;
  pending = λ o. absurd (cc o);
  patient = λ o. absurd (cc o);
}
dropped-Counted s false problems opened closes c = record {
  valid = c.valid;
  pending = λ o. c.pending (opened o);
  patient = λ o p. elim (Bool-cases (disconnects s)) [
    | inl d ↦ absurd (cc (closes d))
    | inr d ↦ unfold disconnects in ground (arith, c.patient (opened o) p, d)
  ];
}

start_flush-Scheduled : (s : Session) → Counted s → Scheduled (start_flush s)
unfolding start_flush
start_flush-Scheduled s c = elim (Bool-cases s.flushing) [
  | inl f ↦ simp f (record { counted = c; awake = λ o h. f })
  | inr f ↦ simp f (record {
    counted = record {
      valid = c.valid;
      pending = λ o. ground (arith, c.pending o, f);
      patient = c.patient;
    };
    awake = λ o h. refl;
  })
]

append-Scheduled :
    (s : Session) (evt : DeliveryEvent)
    → s.outbound.count < s.outbound.cap
    → Counted s
    → Scheduled (append s evt)
unfolding append push_back
append-Scheduled s evt room c = start_flush-Scheduled _ (record {
  valid = push_back-IsValid no_event evt c.valid room;
  pending = c.pending;
  patient = c.patient;
})

pub closed-Scheduled : (s : Session) → Counted s → s.closed ≡ true → Scheduled s
closed-Scheduled s c h = record { counted = c; awake = λ o b. absurd (cc (h, o)) }

-- A drop, and nothing after it.
pub on_drop-Scheduled :
    (send : DropReason → Bool) (s : Session) (reason : DropReason)
    → Scheduled s
    → Scheduled (on_drop send s reason).0
on_drop-Scheduled send s reason c =
    let (closed, problems, e, opened, closes) = on_drop_form send s reason in
    let t : Scheduled (dropped s closed problems) = record {
      counted = dropped-Counted s closed problems opened closes c.counted;
      awake = λ o h. c.awake (opened o) h;
    } in
    simp e t

append_unless_closed :
    (evt : DeliveryEvent) (s : Session) (closed : Bool)
    → s.outbound.count < s.outbound.cap
    → Counted s
    → (closed ≡ true → s.closed ≡ true)
    → Scheduled (append_unless evt (s, closed))
unfolding append_unless
append_unless_closed evt s true room c h = closed-Scheduled s c (h refl)
append_unless_closed evt s false room c h = append-Scheduled s evt room c

append_unless-Scheduled :
    (send : DropReason → Bool) (s : Session) (evt : DeliveryEvent) (reason : DropReason)
    → s.outbound.count < s.outbound.cap
    → Counted s
    → Scheduled (append_unless evt (on_drop send s reason))
append_unless-Scheduled send s evt reason room c =
    let (closed, problems, e, opened, closes) = on_drop_form send s reason in
    simp e (
      append_unless_closed evt (dropped s closed problems) (disconnects s) room
        (dropped-Counted s closed problems opened closes c) closes)

flush_unless_closed :
    (s : Session) (closed : Bool)
    → Counted s
    → (closed ≡ true → s.closed ≡ true)
    → Scheduled (flush_unless (s, closed))
unfolding flush_unless
flush_unless_closed s true c h = closed-Scheduled s c (h refl)
flush_unless_closed s false c h = start_flush-Scheduled s c

flush_unless-Scheduled :
    (send : DropReason → Bool) (s : Session) (reason : DropReason)
    → Counted s
    → Scheduled (flush_unless (on_drop send s reason))
flush_unless-Scheduled send s reason c =
    let (closed, problems, e, opened, closes) = on_drop_form send s reason in
    simp e (
      flush_unless_closed (dropped s closed problems) (disconnects s)
        (dropped-Counted s closed problems opened closes c) closes)

drop_front-Counted :
    (s : Session) → Counted s → Counted (record s { outbound = drop_front no_event s.outbound })
drop_front-Counted s c = record {
  valid = drop_front-IsValid no_event c.valid;
  pending = c.pending;
  patient = c.patient;
}

count-remove_at : (r : Ring DeliveryEvent) (k : ℕ) → (remove_at no_event r k).count ≤ r.count - 1
unfolding remove_at drop_front Ring.advance Ring.close_gap
count-remove_at r k = ground arith

replaced-Counted :
    (s : Session) (evt : DeliveryEvent) (k : ℕ)
    → k < s.outbound.count
    → Counted s
    → Counted (record s { outbound = push_back no_event (remove_at no_event s.outbound k) evt })
replaced-Counted s evt k h c = record {
  valid =
      push_back-IsValid no_event evt (remove_at-IsValid no_event k c.valid)
        (remove_at-room no_event s.outbound k c.valid h);
  pending = c.pending;
  patient = c.patient;
}

full-Scheduled :
    (send : DropReason → Bool) (policy : BackpressurePolicy) (s : Session) (evt : DeliveryEvent)
    → is_full s.outbound ≡ true
    → Scheduled s
    → Scheduled (enqueue_full send policy s evt)
unfolding enqueue_full after_priority_drop priority_drop_event replace
full-Scheduled send drop_newest s evt full c = on_drop-Scheduled send s queue_full c
full-Scheduled send (other t) s evt full c = on_drop-Scheduled send s queue_full c
full-Scheduled send drop_oldest s evt full c =
    append_unless-Scheduled send (record s { outbound = drop_front no_event s.outbound }) evt
      dropped_oldest (drop_front_room s c.counted.valid) (drop_front-Counted s c.counted)
full-Scheduled send priority_drop s evt full c =
    elim (Option-cases (lowest (score_of s.priorities) s.outbound evt)) [
      | inl n ↦ simp (full, n) (on_drop-Scheduled send s dropped_self c)
      | inr (k, e) ↦
          simp (full, e)
            (flush_unless-Scheduled send _ dropped_priority
              (replaced-Counted s evt k (victim-lt s evt k e) c.counted))
    ]

pub enqueue_delivery-Scheduled :
    (send : DropReason → Bool) (s : Session) (evt : DeliveryEvent)
    → Scheduled s
    → Scheduled (enqueue_delivery send s evt)
unfolding enqueue_delivery
enqueue_delivery-Scheduled send s evt c = elim (Bool-cases (is_full s.outbound)) [
  | inl full ↦ simp full (full-Scheduled send s.policy s evt full c)
  | inr room ↦ simp room (
      append-Scheduled s evt (unfold is_full in ground (arith, c.counted.valid.counted, room))
        c.counted)
]
