-- ===== src/Delivery/Session.antt =====
-- The outbound side of a delivery session: internal/actors/delivery/runtime/session_drop_policy.go
-- (`enqueueDelivery`), with the policies of internal/core/delivery/domain/backpressure_policy.go; its
-- child Flush has `flushOutbound`, and Mailbox `Receive`. The actor handles one message at a time. The
-- socket is a parameter: `send` says whether a problem frame is written. Metrics, samples and logs are
-- left out; of `closeSession` only the flag is kept, and of a problem frame only its reason.
pub mod Flush
pub mod Victim
pub mod Refine
pub mod Schedule
pub mod Draining
pub mod Mailbox
pub mod Moved
pub mod Batch
pub mod Drain
mod Tests
use stream_analytics.Base.{
  ℕ, zero, suc, ◌+◌, ◌*◌, Bool, true, false, ◌&&◌, ◌||◌, List, [], ◌∷◌, ◌++◌, Option, none, some,
  ltb, leb, ◌==◌, if◌then◌else◌,
}
use stream_analytics.Base.Int.{ℤ, pos, negsuc, ◌-ℤ◌, ltb_ℤ, leb_ℤ}
use stream_analytics.Base.Text.{Text, text, text_eq, text_key, trim_space, to_lower, equal_fold}
use stream_analytics.Base.Assoc.{lookup}
use stream_analytics.Ring.{Ring, push_back, pop_front, drop_front, at, remove_at}
use stream_analytics.Ring
use stream_analytics.Envelope.{Envelope}

-- The string type `BackpressurePolicy`: its three constants and any other text.
pub data BackpressurePolicy : Type 0 where
  drop_newest drop_oldest priority_drop : BackpressurePolicy
  other : Text → BackpressurePolicy

pub normalize_backpressure_policy : Text → BackpressurePolicy
normalize_backpressure_policy raw =
    let s = to_lower (trim_space raw) in
    if text_eq s (text "drop_newest")
    then drop_newest
    else if text_eq s (text "drop_oldest")
    then drop_oldest
    else if text_eq s (text "priority_drop")
    then priority_drop
    else drop_newest

-- The reasons of a drop.
pub data DropReason : Type 0 where
  queue_full dropped_oldest dropped_priority dropped_self frame_too_large slow_client_disconnect :
      DropReason

-- `subject` is the subject's string.
pub record DeliveryEvent : Type 0 where
  pub subject : Text
  pub env : Envelope

-- `DeliveryEvent{}`.
abbrev pub no_event : DeliveryEvent
no_event = record {
  subject = [];
  env = record {
    event_type = [];
    version = pos 0;
    venue = [];
    instrument = [];
    ts_exchange = pos 0;
    ts_ingest = pos 0;
    seq = pos 0;
    idempotency_key = [];
    content_type = [];
    meta = [];
    payload = [];
  };
}

-- The fields of `SessionActor` that these methods use, after `ensureDefaults`. `sent_flushes` counts
-- the `sessionFlushOutbound` messages in the session's mailbox, `problems` and `written` hold what
-- was written to the client.
pub record Session : Type 0 where
  pub outbound : Ring DeliveryEvent
  pub policy : BackpressurePolicy
  pub priorities : List (Text × ℤ)
  pub slow_client_drop_threshold : ℤ
  pub flushing : Bool
  pub closed : Bool
  pub drop_count : ℕ
  pub queue_high_watermark : ℕ
  pub sent_flushes : ℕ
  pub problems : List DropReason
  pub written : List DeliveryEvent

pub close_session : Session → Session
close_session s = record s { closed = true }

-- `writeProblem`: a problem frame that cannot be written closes the session.
pub write_problem : (DropReason → Bool) → Session → DropReason → Session
write_problem send s reason =
    if send reason then record s { problems = s.problems ++ reason ∷ [] } else close_session s

-- The `switch` of `onDrop`.
report : (DropReason → Bool) → Session → DropReason → Session
unfolding write_problem
report send s queue_full = write_problem send s queue_full
report send s dropped_self = write_problem send s dropped_self
report send s frame_too_large = write_problem send s frame_too_large
report send s _ = s

count_drop : Session → Session
count_drop s = record s { drop_count = s.drop_count + 1 }

-- Whether one more drop reaches the threshold.
unfoldable pub disconnects : Session → Bool
disconnects s =
    ltb_ℤ (pos 0) s.slow_client_drop_threshold
    && leb_ℤ s.slow_client_drop_threshold (pos (s.drop_count + 1))

-- `onDrop`: the session, and whether it was closed.
unfoldable pub on_drop : (DropReason → Bool) → Session → DropReason → Session × Bool
unfolding report count_drop
on_drop send s reason =
    if disconnects s
    then (
      close_session (write_problem send (count_drop (report send s reason)) slow_client_disconnect),
      true,
    )
    else (count_drop (report send s reason), false)

unfoldable pub is_high_volume_event_type : Text → Bool
is_high_volume_event_type event_type =
    equal_fold (trim_space event_type) (text "marketdata.bookdelta")

pub or_zero : Option ℤ → ℤ
or_zero none = pos 0
or_zero (some p) = p

pub event_priority : List (Text × ℤ) → Text → ℤ
unfolding or_zero
event_priority priorities event_type = or_zero (lookup event_type priorities)

-- Ten times a priority. Priorities are small: the product does not wrap.
unfoldable pub times_ten : ℤ → ℤ
times_ten (pos n) = pos (n * 10)
times_ten (negsuc n) = negsuc (n * 10 + 9)

unfoldable pub drop_score : List (Text × ℤ) → Text → ℤ
drop_score priorities event_type =
    let score = times_ten (event_priority priorities event_type) in
    if is_high_volume_event_type event_type then score -ℤ pos 5 else score

pub score_of : List (Text × ℤ) → DeliveryEvent → ℤ
score_of priorities evt = drop_score priorities evt.env.event_type

-- The loop of `priorityDrop`, at index `i` with `rounds` rounds left; `none` is -1.
unfoldable pub scan : (DeliveryEvent → ℤ) → Ring DeliveryEvent → ℕ → ℕ → ℤ → Option ℕ → Option ℕ
scan score r i zero lowest_score lowest_idx = lowest_idx
scan score r i (suc rounds) lowest_score lowest_idx =
    let here = score (at no_event r i) in
    let lower = ltb_ℤ here lowest_score in
    scan score r (i + 1) rounds (if lower then here else lowest_score)
      (if lower then some i else lowest_idx)

unfoldable pub lowest : (DeliveryEvent → ℤ) → Ring DeliveryEvent → DeliveryEvent → Option ℕ
lowest score r evt = scan score r 0 r.count (score evt) none

replace : Session → DeliveryEvent → Option ℕ → Session × Bool
replace s evt none = (s, false)
replace s evt (some i) =
    (record s { outbound = push_back no_event (remove_at no_event s.outbound i) evt }, true)

-- `IsFull`.
unfoldable pub is_full : Ring DeliveryEvent → Bool
is_full r = leb r.cap r.count

unfoldable pub priority_drop_event : Session → DeliveryEvent → Session × Bool
unfolding replace
priority_drop_event s evt =
    if is_full s.outbound
    then replace s evt (lowest (score_of s.priorities) s.outbound evt)
    else (record s { outbound = push_back no_event s.outbound evt }, true)

-- `s.flushing = true` and the message to itself, unless it is flushing.
unfoldable pub start_flush : Session → Session
start_flush s =
    if s.flushing then s else record s { flushing = true; sent_flushes = s.sent_flushes + 1 }

-- What follows the `switch`.
unfoldable pub append : Session → DeliveryEvent → Session
append s evt =
    let outbound = push_back no_event s.outbound evt in
    start_flush (record s {
      outbound = outbound;
      queue_high_watermark =
          if ltb s.queue_high_watermark outbound.count
          then outbound.count
          else s.queue_high_watermark;
    })

-- The case of `drop_oldest` after `onDrop`.
append_unless : DeliveryEvent → Session × Bool → Session
append_unless evt (s, true) = s
append_unless evt (s, false) = append s evt

-- The end of the case of `priority_drop`.
flush_unless : Session × Bool → Session
flush_unless (s, true) = s
flush_unless (s, false) = start_flush s

-- The case of `priority_drop`.
after_priority_drop : (DropReason → Bool) → Session × Bool → Session
unfolding flush_unless
after_priority_drop send (s, false) = (on_drop send s dropped_self).0
after_priority_drop send (s, true) = flush_unless (on_drop send s dropped_priority)

-- The `switch` of a full queue, with what follows.
unfoldable pub enqueue_full :
    (DropReason → Bool) → BackpressurePolicy → Session → DeliveryEvent → Session
unfolding append_unless after_priority_drop
enqueue_full send drop_newest s evt = (on_drop send s queue_full).0
enqueue_full send drop_oldest s evt =
    append_unless evt
      (on_drop send (record s { outbound = drop_front no_event s.outbound }) dropped_oldest)
enqueue_full send priority_drop s evt = after_priority_drop send (priority_drop_event s evt)
enqueue_full send (other _) s evt = (on_drop send s queue_full).0

unfoldable pub enqueue_delivery : (DropReason → Bool) → Session → DeliveryEvent → Session
enqueue_delivery send s evt =
    if is_full s.outbound then enqueue_full send s.policy s evt else append s evt

-- What writing a frame that is not an event does to these fields, if not nothing: `writeJSON` fails and
-- closes the session, or the frame is too large.
pub data Aside : Type 0 where
  cut : Aside
  too_large_frame : (DropReason → Bool) → Aside

unfoldable pub aside : Session → Aside → Session
aside s cut = close_session s
aside s (too_large_frame send) = (on_drop send s frame_too_large).0

unfoldable pub asides : Session → List Aside → Session
asides s [] = s
asides s (a ∷ more) = asides (aside s a) more
