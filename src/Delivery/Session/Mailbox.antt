-- ===== src/Delivery/Session/Mailbox.antt =====
-- The session as a state machine driven by its mailbox: `Receive` of
-- internal/actors/delivery/runtime/session.go and `handleMetricsTick` of session_metrics_tick.go.
use stream_analytics.Base.{
  ◌-◌, ◌≡◌, refl, Bool, true, false, List, [], ◌∷◌, if◌then◌else◌, arith, ◌==◌, ◌||◌, not,
  Bool-cases, inl, inr,
}
use stream_analytics.Delivery.Session.{
  frame_too_large, on_drop, Aside, cut, too_large_frame, aside, asides, DeliveryEvent, DropReason,
  Session, close_session, enqueue_delivery,
}
use stream_analytics.Delivery.Session.Flush.{Socket, stop_flush, flush_outbound, flush_batch_size}
use stream_analytics.Delivery.Session.Schedule.{
  Scheduled, closed-Scheduled, on_drop-Scheduled, enqueue_delivery-Scheduled,
}
use stream_analytics.Delivery.Session.Draining.{close_session-Scheduled, flush_loop-Scheduled}

-- The messages of `Receive`, with what becomes of the frames that handling them writes. Of the
-- commands of a client and of a range request only that is kept. `unknown` is the `default`, and
-- stands for `Initialized` too. `ticks` also gets whether a connection and a session are there.
pub data Message : Type 0 where
  started attaches inbound_text ranges : List Aside → Message
  keepalive_ticks stopped disconnected unknown : Message
  metrics_ticks : Bool → List Aside → Message
  delivers : (DropReason → Bool) → DeliveryEvent → Message
  flushes : Socket → Message

unfoldable pub handle_metrics_tick : Bool → List Aside → Session → Session
handle_metrics_tick attached frames s =
    if s.closed || not attached then s else asides (record s { queue_high_watermark = 0 }) frames

-- A flush message that was not sent is not handled. A failed ping sends `sessionDisconnected`, which
-- then is a message of its own.
unfoldable pub receive : Session → Message → Session
receive s (started frames) = asides s frames
receive s (attaches frames) = asides s frames
receive s (inbound_text frames) = asides s frames
receive s (ranges frames) = asides s frames
receive s keepalive_ticks = s
receive s (metrics_ticks attached frames) = handle_metrics_tick attached frames s
receive s stopped = close_session s
receive s disconnected = close_session s
receive s unknown = s
receive s (delivers send evt) = enqueue_delivery send s evt
receive s (flushes socket) =
    if s.sent_flushes == 0
    then s
    else flush_outbound socket (record s { sent_flushes = s.sent_flushes - 1 })

unfoldable pub run : Session → List Message → Session
run s [] = s
run s (m ∷ ms) = run (receive s m) ms

flush_outbound-Scheduled :
    (socket : Socket) (s : Session)
    → (s.sent_flushes == 0) ≡ false
    → Scheduled s
    → Scheduled (flush_outbound socket (record s { sent_flushes = s.sent_flushes - 1 }))
unfolding flush_outbound stop_flush
flush_outbound-Scheduled socket s h c = elim (Bool-cases s.closed) [
  | inl closed ↦ simp closed (
      closed-Scheduled
        (record s { flushing = false; closed = true; sent_flushes = s.sent_flushes - 1 })
        (record {
          valid = c.counted.valid;
          pending = λ o. absurd (cc o);
          patient = λ o. absurd (cc o);
        })
        refl)
  | inr opened ↦ simp opened (
      flush_loop-Scheduled socket flush_batch_size flush_batch_size
        (record s { closed = false; sent_flushes = s.sent_flushes - 1 })
        (record {
          valid = c.counted.valid;
          busy = λ o. ground (arith, c.counted.pending opened, h);
          patient = λ o. c.counted.patient opened;
        }))
]

asides-Scheduled : (s : Session) (more : List Aside) → Scheduled s → Scheduled (asides s more)
unfolding asides aside
asides-Scheduled s [] c = c
asides-Scheduled s (cut ∷ more) c =
    asides-Scheduled (close_session s) more (close_session-Scheduled s c.counted.valid)
asides-Scheduled s (too_large_frame send ∷ more) c =
    asides-Scheduled (on_drop send s frame_too_large).0 more
      (on_drop-Scheduled send s frame_too_large c)

handle_metrics_tick-Scheduled :
    (attached : Bool) (frames : List Aside) (s : Session)
    → Scheduled s
    → Scheduled (handle_metrics_tick attached frames s)
unfolding handle_metrics_tick
handle_metrics_tick-Scheduled attached frames s c = elim (Bool-cases (s.closed || not attached)) [
  | inl e ↦ rw (handle_metrics_tick, e) c
  | inr e ↦
      rw (handle_metrics_tick, e)
        (asides-Scheduled (record s { queue_high_watermark = 0 }) frames
          record {
            counted = record {
              valid = c.counted.valid;
              pending = c.counted.pending;
              patient = c.counted.patient;
            };
            awake = c.awake;
          })
]

pub receive-Scheduled : (s : Session) (m : Message) → Scheduled s → Scheduled (receive s m)
unfolding receive
receive-Scheduled s (started frames) c = asides-Scheduled s frames c
receive-Scheduled s (attaches frames) c = asides-Scheduled s frames c
receive-Scheduled s (inbound_text frames) c = asides-Scheduled s frames c
receive-Scheduled s (ranges frames) c = asides-Scheduled s frames c
receive-Scheduled s keepalive_ticks c = c
receive-Scheduled s (metrics_ticks attached frames) c =
    handle_metrics_tick-Scheduled attached frames s c
receive-Scheduled s stopped c = close_session-Scheduled s c.counted.valid
receive-Scheduled s disconnected c = close_session-Scheduled s c.counted.valid
receive-Scheduled s unknown c = c
receive-Scheduled s (delivers send evt) c = enqueue_delivery-Scheduled send s evt c
receive-Scheduled s (flushes socket) c = elim (Bool-cases (s.sent_flushes == 0)) [
  | inl idle ↦ simp idle c
  | inr waiting ↦ simp waiting (flush_outbound-Scheduled socket s waiting c)
]

-- For a session of which this holds at the start, whatever messages it receives, whichever writes fail
-- and whichever frames are too large, it goes on to hold: the ring is valid; and while the session is
-- open, exactly one flush message is in its mailbox if it is flushing and none otherwise, it is
-- flushing if an event is queued, and with a positive threshold it has dropped fewer events than that.
pub run-Scheduled : (s : Session) (ms : List Message) → Scheduled s → Scheduled (run s ms)
unfolding run
run-Scheduled s [] c = c
run-Scheduled s (m ∷ ms) c = run-Scheduled (receive s m) ms (receive-Scheduled s m c)
