-- ===== src/Delivery/Session/Batch.antt =====
-- `writeDeliveryBatchFromQueue` on a socket that works.
use stream_analytics.Base.{
  ℕ, zero, suc, ◌+◌, ◌-◌, ◌≤◌, ◌≡◌, refl, true, false, ◌||◌, min, arith, ltb, ◌==◌, Bool-cases, inl,
  inr,
}
use stream_analytics.Ring.{Ring, at}
use stream_analytics.Delivery.Session.{DeliveryEvent, no_event, Session, asides}
use stream_analytics.Delivery.Session.Flush.{
  Socket, FrameOutcome, frame_sent, frame_too_big, frame_failed, same_subject, all_prepared,
  pop_batch, BatchOutcome, sent, after_frame, try_frames, write_candidates, write_batch,
}
use stream_analytics.Delivery.Session.Moved.{IsWorking}

-- What `writeDeliveryBatchFromQueue` does on a socket that works.
pub data BatchMoved (left : ℕ) (s : Session) (p : Session × BatchOutcome) : Type 0 where
  none_sent : p ≡ (s, sent 0) → BatchMoved left s p
  some_sent : (n : ℕ) → suc n ≤ left → p ≡ (pop_batch (suc n) s, sent (suc n)) → BatchMoved left s p

BatchMoved-le :
    (a b : ℕ) (s : Session) (p : Session × BatchOutcome)
    → a ≤ b
    → BatchMoved a s p
    → BatchMoved b s p
BatchMoved-le a b s p h (none_sent e) = none_sent e
BatchMoved-le a b s p h (some_sent n l e) = some_sent n (omega (arith, l, h)) e

after_frame-BatchMoved :
    (o : FrameOutcome) (n : ℕ) (s : Session) (smaller : Session × BatchOutcome)
    → ¬ (o ≡ frame_failed)
    → BatchMoved n s smaller
    → BatchMoved (suc n) s (after_frame o (suc n) s smaller)
unfolding after_frame
after_frame-BatchMoved frame_sent n s smaller h m = some_sent n (omega arith) refl
after_frame-BatchMoved frame_too_big n s smaller h m =
    BatchMoved-le n (suc n) s smaller (omega arith) m
after_frame-BatchMoved frame_failed n s smaller h m = absurd (h refl)

try_frames-BatchMoved :
    (socket : Socket) (left k : ℕ) (s : Session)
    → IsWorking socket
    → BatchMoved (suc (suc k)) s (try_frames (socket.frame left) (suc (suc k)) s)
unfolding try_frames after_frame
try_frames-BatchMoved socket left zero s w =
    some_sent 1 (omega arith) (rw (try_frames, w.pairs left) refl)
try_frames-BatchMoved socket left (suc k) s w =
    let more : (suc (suc k) == 0) ≡ false = ground arith in
    rw (try_frames, more)
      (after_frame-BatchMoved (socket.frame left (suc (suc (suc k)))) (suc (suc k)) s
        (try_frames (socket.frame left) (suc (suc k)) s) (w.unfailing left (suc (suc (suc k))))
        (try_frames-BatchMoved socket left k s w))

try_frames_many :
    (socket : Socket) (left count : ℕ) (s : Session)
    → IsWorking socket
    → 2 ≤ count
    → BatchMoved count s (try_frames (socket.frame left) count s)
try_frames_many socket left zero s w h = absurd (omega (arith, h))
try_frames_many socket left (suc zero) s w h = absurd (omega (arith, h))
try_frames_many socket left (suc (suc k)) s w h = try_frames-BatchMoved socket left k s w

same_subject-le : (r : Ring DeliveryEvent) (i more : ℕ) → same_subject r i more ≤ i + more
unfolding same_subject
same_subject-le r i zero = omega arith
same_subject-le r i (suc more) = ground (arith, same_subject-le r (i + 1) more)

all_prepared_lem :
    (socket : Socket) (left : ℕ) (r : Ring DeliveryEvent) (i more : ℕ)
    → IsWorking socket
    → all_prepared (socket.prepares left) r i more ≡ true
unfolding all_prepared
all_prepared_lem socket left r i zero w = refl
all_prepared_lem socket left r i (suc more) w =
    rw (all_prepared, w.prepared left (at no_event r i))
      (all_prepared_lem socket left r (i + 1) more w)

write_candidates-BatchMoved :
    (socket : Socket) (left : ℕ) (s : Session)
    → IsWorking socket
    → 2 ≤ left
    → 2 ≤ s.outbound.count
    → BatchMoved (min left s.outbound.count) s (write_candidates socket left s)
unfolding write_candidates
write_candidates-BatchMoved socket left s w h c =
    let size = same_subject s.outbound 1 (min left s.outbound.count - 1) in
    let within : size ≤ min left s.outbound.count =
      omega (arith, h, c, same_subject-le s.outbound 1 (min left s.outbound.count - 1)) in
    elim (Bool-cases (ltb size 2)) [
      | inl few ↦ rw (write_candidates, few) (none_sent refl)
      | inr many ↦
          rw (write_candidates, many, all_prepared_lem socket left s.outbound 0 size w)
            (BatchMoved-le size (min left s.outbound.count) s _ within
              (try_frames_many socket left size s w (ground (arith, many))))
    ]

pub write_batch-BatchMoved :
    (socket : Socket) (left : ℕ) (s : Session)
    → IsWorking socket
    → BatchMoved (min left s.outbound.count) s (write_batch socket left s)
unfolding write_batch asides
write_batch-BatchMoved socket left s w = elim (Bool-cases (ltb left 2 || ltb s.outbound.count 2)) [
  | inl few ↦ rw (write_batch, few) (none_sent refl)
  | inr many ↦
      rw (write_batch, many, w.batch_snapshots left (at no_event s.outbound 0))
        (write_candidates-BatchMoved socket left s w (ground (arith, many)) (ground (arith, many)))
]
