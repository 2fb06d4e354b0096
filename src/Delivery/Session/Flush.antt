-- ===== src/Delivery/Session/Flush.antt =====
-- `flushOutbound`, `writeDeliveryBatchFromQueue` and `writeDeliveryEvent` of
-- internal/actors/delivery/runtime/session_delivery.go. A `Socket` says what becomes of every frame that
-- one flush writes: encoding, compression and the limit on its size are in its answers. Numbers of
-- the last delivery and the snapshots that are kept are left out.
use stream_analytics.Base.{
  ℕ, zero, suc, ◌+◌, ◌-◌, Bool, true, false, ◌&&◌, ◌||◌, List, [], ◌∷◌, ◌++◌, min, ltb, ◌==◌,
  if◌then◌else◌,
}
use stream_analytics.Base.Text.{text_eq}
use stream_analytics.Ring.{Ring, pop_front, at}
use stream_analytics.Delivery.Session.{
  DeliveryEvent, DropReason, no_event, Session, close_session, on_drop, frame_too_large, Aside,
  asides,
}

abbrev pub flush_batch_size : ℕ
flush_batch_size = 32

unfoldable pub stop_flush : Session → Session
stop_flush s = record s { flushing = false }

-- The end of a batch.
unfoldable pub finish_batch : Session → Session
finish_batch s =
    if ltb 0 s.outbound.count then record s { sent_flushes = s.sent_flushes + 1 } else stop_flush s

-- What `writeDeliveryEvent` does with an event: it is written, it is dropped because its frame is too
-- large (with what becomes of the problem frames), or an error is returned.
pub data WriteOutcome : Type 0 where
  wrote : WriteOutcome
  too_large : (DropReason → Bool) → WriteOutcome
  failed : WriteOutcome

unfoldable pub is_failed : WriteOutcome → Bool
is_failed failed = true
is_failed _ = false

unfoldable pub after_write : Session → DeliveryEvent → WriteOutcome → Session
after_write s evt wrote = record s { written = s.written ++ evt ∷ [] }
after_write s evt (too_large send) = (on_drop send s frame_too_large).0
after_write s evt failed = s

-- What becomes of a frame with several events: it is written, it is larger than `MaxFrameBytes`, or it
-- is not marshalled or not written.
pub data FrameOutcome : Type 0 where
  frame_sent frame_too_big frame_failed : FrameOutcome

-- `batches` is `HasBatching() && !PreferProto`. The other fields answer for the round in which so many
-- events are left of the batch: the deferred snapshot that goes before an event, also where
-- `writeDeliveryBatchFromQueue` looks at the event first, the event alone, the
-- payload of an event of a candidate frame, and the frame with the first events so many.
pub record Socket : Type 0 where
  pub batches : Bool
  pub snapshot : ℕ → DeliveryEvent → List Aside
  pub batch_snapshot : ℕ → DeliveryEvent → List Aside
  pub write : ℕ → DeliveryEvent → WriteOutcome
  pub prepares : ℕ → DeliveryEvent → Bool
  pub frame : ℕ → ℕ → FrameOutcome

-- What a round of the loop does: it returns, or it goes on with so many events left.
pub data Round : Type 0 where
  returns : Session → Round
  goes_on : ℕ → Session → Round

-- The round that takes one event.
unfoldable pub flush_event : Socket → ℕ → Session → Round
flush_event socket left s =
    let (evt, found, rest) = pop_front no_event s.outbound in
    let popped = asides (record s { outbound = rest }) (socket.snapshot left evt) in
    if found
    then (if is_failed (socket.write left evt)
        then returns (close_session popped)
        else goes_on (left - 1) (after_write popped evt (socket.write left evt)))
    else returns (stop_flush s)

-- The events from index `i` on, at most so many, that have the subject of the first one.
unfoldable pub same_subject : Ring DeliveryEvent → ℕ → ℕ → ℕ
same_subject r i zero = i
same_subject r i (suc more) =
    let rest = same_subject r (i + 1) more in
    if text_eq (at no_event r i).subject (at no_event r 0).subject then rest else i

-- Whether all payloads from index `i` on, so many, are there.
unfoldable pub all_prepared : (DeliveryEvent → Bool) → Ring DeliveryEvent → ℕ → ℕ → Bool
all_prepared prepares r i zero = true
all_prepared prepares r i (suc more) =
    prepares (at no_event r i) && all_prepared prepares r (i + 1) more

-- The events of a frame that was written leave the queue.
unfoldable pub pop_batch : ℕ → Session → Session
pop_batch zero s = s
pop_batch (suc count) s =
    let (evt, found, rest) = pop_front no_event s.outbound in
    pop_batch count (record s { outbound = rest; written = s.written ++ evt ∷ [] })

-- The result of `writeDeliveryBatchFromQueue`.
pub data BatchOutcome : Type 0 where
  sent : ℕ → BatchOutcome
  batch_failed : BatchOutcome

-- The end of a round of the loop over the sizes; `smaller` is what the next rounds do.
unfoldable pub after_frame :
    FrameOutcome → ℕ → Session → Session × BatchOutcome → Session × BatchOutcome
after_frame frame_sent count s smaller = (pop_batch count s, sent count)
after_frame frame_too_big count s smaller = smaller
after_frame frame_failed count s smaller = (s, batch_failed)

-- The loop over the sizes of the frame, from the largest down to 2.
unfoldable pub try_frames : (ℕ → FrameOutcome) → ℕ → Session → Session × BatchOutcome
try_frames frame zero s = (s, batch_failed)
try_frames frame (suc k) s =
    let smaller = try_frames frame k s in
    if k == 0 then (s, batch_failed) else after_frame (frame (suc k)) (suc k) s smaller

-- What follows the deferred snapshot.
unfoldable pub write_candidates : Socket → ℕ → Session → Session × BatchOutcome
write_candidates socket left s =
    let count = same_subject s.outbound 1 (min left s.outbound.count - 1) in
    if ltb count 2
    then (s, sent 0)
    else if all_prepared (socket.prepares left) s.outbound 0 count
    then try_frames (socket.frame left) count s
    else (s, batch_failed)

-- `writeDeliveryBatchFromQueue`, which is called with at most `wsFlushBatchSize`.
unfoldable pub write_batch : Socket → ℕ → Session → Session × BatchOutcome
write_batch socket left s =
    if ltb left 2 || ltb s.outbound.count 2
    then (s, sent 0)
    else write_candidates socket left
        (asides s (socket.batch_snapshot left (at no_event s.outbound 0)))

unfoldable pub after_batch : Socket → ℕ → Session × BatchOutcome → Round
after_batch socket left (s, batch_failed) = returns (close_session s)
after_batch socket left (s, sent zero) = flush_event socket left s
after_batch socket left (s, sent (suc n)) = goes_on (left - suc n) s

unfoldable pub flush_round : Socket → ℕ → Session → Round
flush_round socket left s =
    if socket.batches
    then after_batch socket left (write_batch socket left s)
    else flush_event socket left s

unfoldable pub after_round : (ℕ → Session → Session) → Round → Session
after_round next (returns s) = s
after_round next (goes_on left s) = next left s

-- The loop of `flushOutbound`, with `left` events left in the batch. Every round takes one at least,
-- so that as many rounds are enough.
unfoldable pub flush_loop : Socket → ℕ → ℕ → Session → Session
flush_loop socket zero left s = finish_batch s
flush_loop socket (suc rounds) left s =
    if left == 0
    then finish_batch s
    else after_round (flush_loop socket rounds) (flush_round socket left s)

unfoldable pub flush_outbound : Socket → Session → Session
flush_outbound socket s =
    if s.closed then stop_flush s else flush_loop socket flush_batch_size flush_batch_size s
