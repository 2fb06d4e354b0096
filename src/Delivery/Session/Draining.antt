-- ===== src/Delivery/Session/Draining.antt =====
-- What holds while `flushOutbound` runs, and what it leaves.
use stream_analytics.Base.{
  ℕ, zero, suc, ◌-◌, ◌≡◌, refl, sym, subst, Bool, true, false, List, [], ◌∷◌, if◌then◌else◌, arith,
  ltb, ◌==◌, ◌||◌, min, Bool-cases, inl, inr,
}
use stream_analytics.Base.Int.{pos, ◌<ℤ◌}
use stream_analytics.Ring.{Ring, IsValid, pop_front}
use stream_analytics.Ring.Contents.{pop_front-IsValid}
use stream_analytics.Delivery.Session.Refine.{dropped, on_drop_form}
use stream_analytics.Delivery.Session.{
  disconnects, frame_too_large, on_drop, Aside, cut, too_large_frame, aside, asides, DeliveryEvent,
  DropReason, no_event, Session, close_session,
}
use stream_analytics.Delivery.Session.Flush.{
  Socket, WriteOutcome, wrote, too_large, failed, is_failed, after_write, stop_flush, finish_batch,
  FrameOutcome, frame_sent, frame_too_big, frame_failed, Round, returns, goes_on, flush_event,
  same_subject, all_prepared, pop_batch, BatchOutcome, sent, batch_failed, try_frames, after_frame,
  after_round, write_candidates, write_batch, after_batch, flush_round, flush_loop,
}
use stream_analytics.Delivery.Session.Schedule.{Scheduled, closed-Scheduled}

-- What holds while a flush message is handled.
pub record Draining (s : Session) : Type 0 where
  pub valid : IsValid s.outbound
  pub busy : s.closed ≡ false → (s.flushing ≡ true) × (s.sent_flushes ≡ 0)
  pub patient :
      s.closed ≡ false
      → pos 0 <ℤ s.slow_client_drop_threshold
      → pos s.drop_count <ℤ s.slow_client_drop_threshold

stop_flush-Scheduled : (s : Session) → Draining s → s.outbound.count ≡ 0 → Scheduled (stop_flush s)
unfolding stop_flush
stop_flush-Scheduled s d h = record {
  counted = record { valid = d.valid; pending = λ o. (d.busy o).1; patient = d.patient };
  awake = λ o b. absurd (omega (arith, h, b));
}

finish_batch-Scheduled : (s : Session) → Draining s → Scheduled (finish_batch s)
unfolding finish_batch
finish_batch-Scheduled s d = elim (Bool-cases (ltb 0 s.outbound.count)) [
  | inl some_left ↦ simp some_left (record {
    counted = record {
      valid = d.valid;
      pending = λ o. ground (arith, d.busy o);
      patient = d.patient;
    };
    awake = λ o b. (d.busy o).0;
  })
  | inr none_left ↦ simp none_left (stop_flush-Scheduled s d (ground arith))
]

pop_front_none : (r : Ring DeliveryEvent) → (pop_front no_event r).1 ≡ false → r.count ≡ 0
unfolding pop_front
pop_front_none r h = ground arith

pub close_session-Scheduled : (s : Session) → IsValid s.outbound → Scheduled (close_session s)
unfolding close_session
close_session-Scheduled s v =
    closed-Scheduled _
      (record { valid = v; pending = λ o. absurd (cc o); patient = λ o. absurd (cc o) }) refl

closed-Draining : (s : Session) → Draining s → Draining (close_session s)
unfolding close_session
closed-Draining s d = record {
  valid = d.valid;
  busy = λ o. absurd (cc o);
  patient = λ o. absurd (cc o);
}

dropped-Draining :
    (s : Session) (closed : Bool) (problems : List DropReason)
    → (closed ≡ false → s.closed ≡ false)
    → (disconnects s ≡ true → closed ≡ true)
    → Draining s
    → Draining (dropped s closed problems)
dropped-Draining s closed problems opened closes d = record {
  valid = d.valid;
  busy = λ o. d.busy (opened o);
  patient = λ o p. elim (Bool-cases (disconnects s)) [
    | inl q ↦ absurd (cc (closes q, o))
    | inr q ↦ unfold disconnects in ground (arith, d.patient (opened o) p, q)
  ];
}

on_drop-Draining :
    (send : DropReason → Bool) (s : Session) (reason : DropReason)
    → Draining s
    → Draining (on_drop send s reason).0
on_drop-Draining send s reason d =
    let (closed, problems, e, opened, closes) = on_drop_form send s reason in
    subst (λ (r : Session × Bool). Draining r.0) (sym e)
      (dropped-Draining s closed problems opened closes d)

asides-Draining : (s : Session) (more : List Aside) → Draining s → Draining (asides s more)
unfolding asides aside
asides-Draining s [] d = d
asides-Draining s (cut ∷ more) d = asides-Draining (close_session s) more (closed-Draining s d)
asides-Draining s (too_large_frame send ∷ more) d =
    asides-Draining (on_drop send s frame_too_large).0 more
      (on_drop-Draining send s frame_too_large d)

after_write-Draining :
    (s : Session) (evt : DeliveryEvent) (outcome : WriteOutcome)
    → Draining s
    → Draining (after_write s evt outcome)
unfolding after_write
after_write-Draining s evt wrote d = record { valid = d.valid; busy = d.busy; patient = d.patient }
after_write-Draining s evt (too_large send) d = on_drop-Draining send s frame_too_large d
after_write-Draining s evt failed d = d

popped-Draining :
    (s : Session)
    → Draining s
    → Draining (record s { outbound = (pop_front no_event s.outbound).2 })
popped-Draining s d = record {
  valid = pop_front-IsValid no_event d.valid;
  busy = d.busy;
  patient = d.patient;
}

-- The state that a round leaves is as it should be.
IsSound : Round → Type 0
IsSound (returns s) = Scheduled s
IsSound (goes_on left s) = Draining s

flush_event-IsSound :
    (socket : Socket) (left : ℕ) (s : Session) → Draining s → IsSound (flush_event socket left s)
unfolding flush_event IsSound
flush_event-IsSound socket left s d =
    let evt = (pop_front no_event s.outbound).0 in
    let popped = asides-Draining _ (socket.snapshot left evt) (popped-Draining s d) in
    elim (Bool-cases (pop_front no_event s.outbound).1) [
      | inr empty ↦
          rw (flush_event, empty) (stop_flush-Scheduled s d (pop_front_none s.outbound empty))
      | inl found ↦ elim (Bool-cases (is_failed (socket.write left evt))) [
        | inr passed ↦
            rw (flush_event, found, passed)
              (after_write-Draining _ evt (socket.write left evt) popped)
        | inl broken ↦ rw (flush_event, found, broken) (close_session-Scheduled _ popped.valid)
      ]
    ]

pop_batch-Draining : (count : ℕ) (s : Session) → Draining s → Draining (pop_batch count s)
unfolding pop_batch after_write
pop_batch-Draining zero s d = d
pop_batch-Draining (suc count) s d =
    pop_batch-Draining count _ (after_write-Draining _ _ wrote (popped-Draining s d))

after_frame-Draining :
    (o : FrameOutcome) (count : ℕ) (s : Session) (smaller : Session × BatchOutcome)
    → Draining s
    → Draining smaller.0
    → Draining (after_frame o count s smaller).0
unfolding after_frame
after_frame-Draining frame_sent count s smaller d e = pop_batch-Draining count s d
after_frame-Draining frame_too_big count s smaller d e = e
after_frame-Draining frame_failed count s smaller d e = d

try_frames-Draining :
    (frame : ℕ → FrameOutcome) (count : ℕ) (s : Session)
    → Draining s
    → Draining (try_frames frame count s).0
unfolding try_frames
try_frames-Draining frame zero s d = d
try_frames-Draining frame (suc k) s d = elim (Bool-cases (k == 0)) [
  | inl e ↦ rw (try_frames, e) d
  | inr e ↦
      rw (try_frames, e)
        (after_frame-Draining (frame (suc k)) (suc k) s _ d (try_frames-Draining frame k s d))
]

write_candidates-Draining :
    (socket : Socket) (left : ℕ) (s : Session)
    → Draining s
    → Draining (write_candidates socket left s).0
unfolding write_candidates
write_candidates-Draining socket left s d =
    let count = same_subject s.outbound 1 (min left s.outbound.count - 1) in
    elim (Bool-cases (ltb count 2)) [
      | inl few ↦ rw (write_candidates, few) d
      | inr many ↦ elim (Bool-cases (all_prepared (socket.prepares left) s.outbound 0 count)) [
        | inl ready ↦
            rw (write_candidates, many, ready) (try_frames-Draining (socket.frame left) count s d)
        | inr unready ↦ rw (write_candidates, many, unready) d
      ]
    ]

write_batch-Draining :
    (socket : Socket) (left : ℕ) (s : Session) → Draining s → Draining (write_batch socket left s).0
unfolding write_batch
write_batch-Draining socket left s d = elim (Bool-cases (ltb left 2 || ltb s.outbound.count 2)) [
  | inl few ↦ rw (write_batch, few) d
  | inr many ↦
      rw (write_batch, many) (write_candidates-Draining socket left _ (asides-Draining s _ d))
]

after_batch-IsSound :
    (socket : Socket) (left : ℕ) (s : Session) (o : BatchOutcome)
    → Draining s
    → IsSound (after_batch socket left (s, o))
unfolding after_batch IsSound
after_batch-IsSound socket left s batch_failed d = close_session-Scheduled s d.valid
after_batch-IsSound socket left s (sent zero) d = flush_event-IsSound socket left s d
after_batch-IsSound socket left s (sent (suc n)) d = d

flush_round-IsSound :
    (socket : Socket) (left : ℕ) (s : Session) → Draining s → IsSound (flush_round socket left s)
unfolding flush_round
flush_round-IsSound socket left s d = by_batching socket.batches
  where
    by_batching :
        (batches : Bool)
        → IsSound (
            if batches
            then after_batch socket left (write_batch socket left s)
            else flush_event socket left s)
    by_batching false = flush_event-IsSound socket left s d
    by_batching true =
        after_batch-IsSound socket left (write_batch socket left s).0 (write_batch socket left s).1
          (write_batch-Draining socket left s d)

after_round-Scheduled :
    (next : ℕ → Session → Session) (r : Round)
    → ((left : ℕ) (s : Session) → Draining s → Scheduled (next left s))
    → IsSound r
    → Scheduled (after_round next r)
unfolding after_round IsSound
after_round-Scheduled next (returns s) h d = d
after_round-Scheduled next (goes_on left s) h d = h left s d

pub flush_loop-Scheduled :
    (socket : Socket) (rounds left : ℕ) (s : Session)
    → Draining s
    → Scheduled (flush_loop socket rounds left s)
unfolding flush_loop
flush_loop-Scheduled socket zero left s d = finish_batch-Scheduled s d
flush_loop-Scheduled socket (suc rounds) left s d = elim (Bool-cases (left == 0)) [
  | inl e ↦ rw (flush_loop, e) (finish_batch-Scheduled s d)
  | inr e ↦
      rw (flush_loop, e)
        (after_round-Scheduled (flush_loop socket rounds) (flush_round socket left s)
          (flush_loop-Scheduled socket rounds) (flush_round-IsSound socket left s d))
]
