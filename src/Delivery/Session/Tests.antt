-- ===== src/Delivery/Session/Tests.antt =====
-- A session whose queue holds a trade and a book delta and is full.
use stream_analytics.Base.{◌≡◌, refl, Bool, true, false, List, ◌==◌, if◌then◌else◌, [], ◌∷◌, arith}
use stream_analytics.Base.Int.{pos}
use stream_analytics.Base.Text.{Text, text, text_eq, equal_fold}
use stream_analytics.Ring.{Ring, IsValid}
use stream_analytics.Ring.Contents.{contents}
use stream_analytics.Delivery.Session.{
  too_large_frame, DeliveryEvent, no_event, priority_drop, Session, score_of, lowest,
  enqueue_delivery,
}
use stream_analytics.Delivery.Session.Victim.{Chosen, lowest-Chosen}
use stream_analytics.Delivery.Session.Refine.{queued, enqueue_spec, enqueue_delivery-refines}
use stream_analytics.Delivery.Session.Schedule.{Scheduled}
use stream_analytics.Delivery.Session.Flush.{
  Socket, wrote, FrameOutcome, frame_sent, frame_too_big, frame_failed,
}
use stream_analytics.Delivery.Session.Mailbox.{
  Message, delivers, flushes, metrics_ticks, inbound_text, disconnected, run, run-Scheduled,
}

abbrev event : Text → DeliveryEvent
event event_type = record no_event { env = record no_event.env { event_type = event_type } }

abbrev trade : DeliveryEvent
trade = event (text "marketdata.trade")

abbrev delta : DeliveryEvent
delta = event (text "marketdata.bookdelta")

abbrev ring : Ring DeliveryEvent
ring = record { buf = trade ∷ delta ∷ []; head = 1; count = 2; cap = 2 }

abbrev session : Session
session = record {
  outbound = ring;
  policy = priority_drop;
  priorities = (text "marketdata.trade", pos 100) ∷ (text "marketdata.bookdelta", pos 20) ∷ [];
  slow_client_drop_threshold = pos 3;
  flushing = true;
  closed = false;
  drop_count = 0;
  queue_high_watermark = 2;
  sent_flushes = 1;
  problems = [];
  written = [];
}

ring-IsValid : IsValid ring
ring-IsValid = record {
  positive = omega arith;
  sized = refl;
  headed = omega arith;
  counted = omega arith;
}

session-Scheduled : Scheduled session
session-Scheduled = record {
  counted = record { valid = ring-IsValid; pending = λ o. refl; patient = λ o p. omega arith };
  awake = λ o h. refl;
}

enqueue_delivery-refines_example :
    queued (enqueue_delivery (λ r. true) session trade) ≡ enqueue_spec session trade
enqueue_delivery-refines_example = enqueue_delivery-refines (λ r. true) session trade ring-IsValid

lowest-Chosen_example :
    Chosen
      (score_of session.priorities)
      (contents no_event ring)
      trade
      (lowest (score_of session.priorities) ring trade)
lowest-Chosen_example = lowest-Chosen (score_of session.priorities) ring trade

-- A socket that batches, on which a frame has room for two events.
abbrev working : Socket
working = record {
  batches = true;
  snapshot = λ left evt. [];
  batch_snapshot = λ left evt. [];
  write = λ left evt. wrote;
  prepares = λ left evt. true;
  frame = λ left count. if count == 2 then frame_sent else frame_too_big;
}

has_room : FrameOutcome → Bool
has_room frame_sent = true
has_room frame_too_big = true
has_room frame_failed = false

abbrev messages : List Message
messages =
    delivers (λ r. true) trade
    ∷ flushes (record working { frame = λ left count. frame_failed })
    ∷ metrics_ticks true []
    ∷ inbound_text (too_large_frame (λ r. true) ∷ [])
    ∷ delivers (λ r. false) delta
    ∷ disconnected
    ∷ []

run-Scheduled_example : Scheduled (run session messages)
run-Scheduled_example = run-Scheduled session messages session-Scheduled

-- The Kelvin sign is a k for `strings.EqualFold`.
kelvin_sign : equal_fold (8490 ∷ text "arat") (text "Karat") ≡ true
unfolding equal_fold text_eq
kelvin_sign = refl
