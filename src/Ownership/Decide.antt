-- ===== src/Ownership/Decide.antt =====
-- When `DecideMonotonic` accepts, what a refusal carries, and what a resync asks for.
use stream_analytics.Base.{
  refl, Option, none, some, ◌≡◌, ◌↔◌, ◌⊎◌, inl, inr, Bool, true, false, arith, Option-cases,
  if◌then◌else◌,
}
use stream_analytics.Base.Int.{pos, ◌≤ℤ◌, ◌<ℤ◌}
use stream_analytics.Base.Text.{text_eq, trim_space, is_empty}
use stream_analytics.Ownership.{
  MonotonicInput, MonotonicDecision, accept, convert_to_resync, resync_overlap, replay_duplicate,
  no_reason, decide_monotonic, is_invalid, pending_resync_overlap, owner_change_decision,
  snapshot_overlap_decision, decide_seq, is_replay_duplicate, or_else, drop_decision,
  invalid_decision,
}

-- The owner is unchanged, or unknown on one side.
abbrev pub SameOwner : MonotonicInput → Type 0
SameOwner m =
    (is_empty m.candidate_owner ≡ true)
    ⊎ (is_empty m.last_owner ≡ true)
    ⊎ (text_eq m.candidate_owner m.last_owner ≡ true)

-- What an acceptable observation satisfies.
pub record Acceptable (m : MonotonicInput) : Type 0 where
  pub keyed : is_empty (trim_space m.stream_key) ≡ false
  pub positive : pos 0 <ℤ m.candidate_seq
  pub newer : (m.last_seq ≤ℤ pos 0) ⊎ (m.last_seq <ℤ m.candidate_seq)
  pub past_resync :
      (m.pending_resync_watermark ≤ℤ pos 0)
      ⊎ (m.is_snapshot ≡ true)
      ⊎ (m.pending_resync_watermark <ℤ m.candidate_seq)
  pub past_handoff :
      SameOwner m ⊎ ((m.handoff_watermark_seq <ℤ m.candidate_seq) × (m.last_seq <ℤ m.candidate_seq))
  pub past_snapshot :
      (m.is_snapshot ≡ false)
      ⊎ (m.handoff_watermark_seq ≤ℤ pos 0)
      ⊎ (m.handoff_watermark_seq <ℤ m.candidate_seq)

valid_iff :
    (m : MonotonicInput)
    → (is_invalid m ≡ false)
      ↔ ((is_empty (trim_space m.stream_key) ≡ false) × (pos 0 <ℤ m.candidate_seq))
unfolding is_invalid
valid_iff m = (λ h. (ground arith, ground arith), λ h. ground arith)

past_resync_iff :
    (m : MonotonicInput)
    → (pending_resync_overlap m ≡ false) ↔ (
        (m.pending_resync_watermark ≤ℤ pos 0)
        ⊎ (m.is_snapshot ≡ true)
        ⊎ (m.pending_resync_watermark <ℤ m.candidate_seq))
unfolding pending_resync_overlap
past_resync_iff m = (λ h. ground arith, λ h. ground arith)

past_handoff_iff :
    (m : MonotonicInput)
    → (owner_change_decision m ≡ none) ↔ (
        SameOwner m
        ⊎ ((m.handoff_watermark_seq <ℤ m.candidate_seq) × (m.last_seq <ℤ m.candidate_seq)))
unfolding owner_change_decision
past_handoff_iff m = (λ h. ground arith, λ h. ground arith)

past_snapshot_iff :
    (m : MonotonicInput)
    → (snapshot_overlap_decision m ≡ none) ↔ (
        (m.is_snapshot ≡ false)
        ⊎ (m.handoff_watermark_seq ≤ℤ pos 0)
        ⊎ (m.handoff_watermark_seq <ℤ m.candidate_seq))
unfolding snapshot_overlap_decision
past_snapshot_iff m = (λ h. ground arith, λ h. ground arith)

newer_iff :
    (m : MonotonicInput)
    → ((decide_seq m).action ≡ accept) ↔ ((m.last_seq ≤ℤ pos 0) ⊎ (m.last_seq <ℤ m.candidate_seq))
unfolding decide_seq
newer_iff m = (λ h. ground arith, λ h. ground arith)

-- No guard fires.
record Passes (m : MonotonicInput) : Type 0 where
  valid : is_invalid m ≡ false
  resynced : pending_resync_overlap m ≡ false
  fresh : is_replay_duplicate m ≡ false
  owned : owner_change_decision m ≡ none
  clear : snapshot_overlap_decision m ≡ none
  newest : (decide_seq m).action ≡ accept

owner_change_resyncs :
    (m : MonotonicInput) (d : MonotonicDecision)
    → owner_change_decision m ≡ some d
    → (d.action ≡ convert_to_resync)
      × (m.candidate_seq ≤ℤ d.resync_watermark)
      × (m.last_seq ≤ℤ d.resync_watermark)
unfolding owner_change_decision
owner_change_resyncs m d e = (ground arith, ground arith, ground arith)

snapshot_overlap_resyncs :
    (m : MonotonicInput) (d : MonotonicDecision)
    → snapshot_overlap_decision m ≡ some d
    → (d.action ≡ convert_to_resync) × (m.candidate_seq ≤ℤ d.resync_watermark)
unfolding snapshot_overlap_decision
snapshot_overlap_resyncs m d e = (ground arith, ground arith)

newer-fresh :
    (m : MonotonicInput)
    → ((m.last_seq ≤ℤ pos 0) ⊎ (m.last_seq <ℤ m.candidate_seq))
    → is_replay_duplicate m ≡ false
unfolding is_replay_duplicate
newer-fresh m h = ground arith

accept-Passes : (m : MonotonicInput) → (decide_monotonic m).action ≡ accept → Passes m
unfolding decide_monotonic or_else drop_decision invalid_decision
accept-Passes m h = elim (Option-cases (owner_change_decision m)) [
  | inr (d, e) ↦ absurd (ground (arith, owner_change_resyncs m d e))
  | inl o ↦ elim (Option-cases (snapshot_overlap_decision m)) [
    | inr (d, e) ↦ absurd (ground (arith, snapshot_overlap_resyncs m d e))
    | inl s ↦ ground arith
  ]
]

-- `DecideMonotonic` accepts exactly the acceptable observations: a keyed stream, a positive
-- sequence number above the last one if there is one, above a pending resync unless it is a
-- snapshot, above the handoff and the last number on a change of owner, and above the handoff for a
-- snapshot.
pub accept_iff : (m : MonotonicInput) → ((decide_monotonic m).action ≡ accept) ↔ Acceptable m
accept_iff m = (sound, complete)
  where
    sound : (decide_monotonic m).action ≡ accept → Acceptable m
    sound h =
        let p = accept-Passes m h in
        record {
          keyed = ((valid_iff m).0 p.valid).0;
          positive = ((valid_iff m).0 p.valid).1;
          newer = (newer_iff m).0 p.newest;
          past_resync = (past_resync_iff m).0 p.resynced;
          past_handoff = (past_handoff_iff m).0 p.owned;
          past_snapshot = (past_snapshot_iff m).0 p.clear;
        }

    complete : Acceptable m → (decide_monotonic m).action ≡ accept
    complete a =
        unfold decide_monotonic or_else in
        rw
          (
            (valid_iff m).1 (a.keyed, a.positive),
            (past_resync_iff m).1 a.past_resync,
            newer-fresh m a.newer,
            (past_handoff_iff m).1 a.past_handoff,
            (past_snapshot_iff m).1 a.past_snapshot,
          )
          ((newer_iff m).1 a.newer)

decide_seq-no_resync :
    (m : MonotonicInput)
    → (decide_seq m).action ≡ convert_to_resync
    → m.candidate_seq ≤ℤ (decide_seq m).resync_watermark
unfolding decide_seq
decide_seq-no_resync m h = absurd (ground arith)

decide_seq_reason :
    (m : MonotonicInput)
    → ((decide_seq m).reject_reason ≡ no_reason) ↔ ((decide_seq m).action ≡ accept)
unfolding decide_seq
decide_seq_reason m = (λ h. ground arith, λ h. ground arith)

owner_change_reason :
    (m : MonotonicInput) (d : MonotonicDecision)
    → owner_change_decision m ≡ some d
    → (d.reject_reason ≡ no_reason) ↔ (d.action ≡ accept)
unfolding owner_change_decision
owner_change_reason m d e = (λ h. ground arith, λ h. ground arith)

snapshot_overlap_reason :
    (m : MonotonicInput) (d : MonotonicDecision)
    → snapshot_overlap_decision m ≡ some d
    → (d.reject_reason ≡ no_reason) ↔ (d.action ≡ accept)
unfolding snapshot_overlap_decision
snapshot_overlap_reason m d e = (λ h. ground arith, λ h. ground arith)

-- What holds of every decision that a step of the policy can make holds of its result.
pub decide_cases {ℓ} :
    (P : MonotonicDecision → Type ℓ) (m : MonotonicInput)
    → P invalid_decision
    → P (drop_decision resync_overlap false true)
    → P (drop_decision replay_duplicate true false)
    → ((d : MonotonicDecision) → owner_change_decision m ≡ some d → P d)
    → ((d : MonotonicDecision) → snapshot_overlap_decision m ≡ some d → P d)
    → P (decide_seq m)
    → P (decide_monotonic m)
unfolding decide_monotonic or_else
decide_cases P m invalid resync duplicate owner snapshot last = guard (is_invalid m) invalid (
    guard (pending_resync_overlap m) resync (
      guard (is_replay_duplicate m) duplicate (
        first (owner_change_decision m) owner (first (snapshot_overlap_decision m) snapshot last))))
  where
    guard : (b : Bool) {x y : MonotonicDecision} → P x → P y → P (if b then x else y)
    guard true p q = p
    guard false p q = q

    first :
        (o : Option MonotonicDecision) {y : MonotonicDecision}
        → ((d : MonotonicDecision) → o ≡ some d → P d)
        → P y
        → P (or_else o y)
    first none p q = q
    first (some d) p q = p d refl

-- A resync asks the stream to get past the refused observation: its watermark is at or above the
-- candidate's sequence number.
pub resync_covers :
    (m : MonotonicInput)
    → (decide_monotonic m).action ≡ convert_to_resync
    → m.candidate_seq ≤ℤ (decide_monotonic m).resync_watermark
resync_covers m =
    decide_cases (λ d. d.action ≡ convert_to_resync → m.candidate_seq ≤ℤ d.resync_watermark) m
      (unfold invalid_decision in λ h. ground arith) (unfold drop_decision in λ h. ground arith)
      (unfold drop_decision in λ h. ground arith) (λ d e h. (owner_change_resyncs m d e).1)
      (λ d e h. (snapshot_overlap_resyncs m d e).1) (decide_seq-no_resync m)

-- Whatever is not accepted says why, and an accepted observation says nothing.
pub reason_iff :
    (m : MonotonicInput)
    → ((decide_monotonic m).reject_reason ≡ no_reason) ↔ ((decide_monotonic m).action ≡ accept)
reason_iff m =
    decide_cases (λ d. (d.reject_reason ≡ no_reason) ↔ (d.action ≡ accept)) m
      (unfold invalid_decision in (λ h. ground arith, λ h. ground arith))
      (unfold drop_decision in (λ h. ground arith, λ h. ground arith))
      (unfold drop_decision in (λ h. ground arith, λ h. ground arith)) (owner_change_reason m)
      (snapshot_overlap_reason m) (decide_seq_reason m)
