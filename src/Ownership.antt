-- ===== src/Ownership.antt =====
-- internal/shared/ownership/monotonic.go: the policy that decides whether an observation of a
-- stream is accepted, dropped, or turned into a resync, from its sequence number, its watermark
-- and its owner. `int64` values are integers: the one subtraction, in `staleGap`, is reached only
-- with both operands positive, and does not wrap.

pub mod Decide
mod Tests
use stream_analytics.Base.{Bool, true, false, ◌&&◌, ◌||◌, not, Option, none, some, if◌then◌else◌}
use stream_analytics.Base.Int.{ℤ, pos, ltb_ℤ, leb_ℤ, eq_ℤ, ◌-ℤ◌}
use stream_analytics.Base.Text.{Text, text, text_eq, trim_space, is_empty}

pub data MonotonicAction : Type 0 where
  accept drop convert_to_resync : MonotonicAction

-- `no_reason` is the empty string.
pub data Reason : Type 0 where
  no_reason unknown seq_invalid replay_duplicate owner_change resync_overlap : Reason
  stale_event out_of_order_input seq_non_monotonic : Reason

pub record MonotonicInput : Type 0 where
  pub stream_key : Text
  pub is_snapshot : Bool
  pub candidate_seq : ℤ
  pub candidate_watermark : ℤ
  pub last_seq : ℤ
  pub last_watermark : ℤ
  pub candidate_owner : Text
  pub last_owner : Text
  pub handoff_watermark_seq : ℤ
  pub pending_resync_watermark : ℤ
  pub stale_gap_window : ℤ

pub record MonotonicDecision : Type 0 where
  pub action : MonotonicAction
  pub reject_reason : Reason
  pub violation_type : Reason
  pub coherence_reason : Reason
  pub resync_watermark : ℤ
  pub duplicate : Bool
  pub out_of_order : Bool

abbrev pub accept_decision : MonotonicDecision
accept_decision = record {
  action = accept;
  reject_reason = no_reason;
  violation_type = no_reason;
  coherence_reason = no_reason;
  resync_watermark = pos 0;
  duplicate = false;
  out_of_order = false;
}

unfoldable pub drop_decision : Reason → Bool → Bool → MonotonicDecision
drop_decision reason duplicate out_of_order = record accept_decision {
  action = drop;
  reject_reason = reason;
  coherence_reason = reason;
  duplicate = duplicate;
  out_of_order = out_of_order;
}

unfoldable pub invalid_decision : MonotonicDecision
invalid_decision = record accept_decision {
  action = drop;
  reject_reason = seq_invalid;
  violation_type = seq_invalid;
  coherence_reason = unknown;
}

unfoldable pub is_invalid : MonotonicInput → Bool
is_invalid m = is_empty (trim_space m.stream_key) || leb_ℤ m.candidate_seq (pos 0)

unfoldable pub pending_resync_overlap : MonotonicInput → Bool
pending_resync_overlap m =
    ltb_ℤ (pos 0) m.pending_resync_watermark
    && (not m.is_snapshot && leb_ℤ m.candidate_seq m.pending_resync_watermark)

unfoldable pub is_replay_duplicate : MonotonicInput → Bool
is_replay_duplicate m = ltb_ℤ (pos 0) m.last_seq && eq_ℤ m.candidate_seq m.last_seq

-- The watermark that a new owner has to pass.
unfoldable pub owner_watermark : MonotonicInput → ℤ
owner_watermark m =
    if ltb_ℤ m.handoff_watermark_seq m.last_seq then m.last_seq else m.handoff_watermark_seq

unfoldable pub resync_decision : Reason → ℤ → MonotonicDecision
resync_decision reason watermark = record accept_decision {
  action = convert_to_resync;
  reject_reason = reason;
  coherence_reason = reason;
  resync_watermark = watermark;
  out_of_order = true;
}

unfoldable pub owner_change_decision : MonotonicInput → Option MonotonicDecision
unfolding owner_watermark resync_decision
owner_change_decision m =
    if is_empty m.candidate_owner
      || (is_empty m.last_owner || text_eq m.candidate_owner m.last_owner)
    then none
    else if ltb_ℤ (owner_watermark m) m.candidate_seq
    then none
    else some (resync_decision owner_change (owner_watermark m))

unfoldable pub snapshot_overlap_decision : MonotonicInput → Option MonotonicDecision
unfolding resync_decision
snapshot_overlap_decision m =
    if not m.is_snapshot
      || (leb_ℤ m.handoff_watermark_seq (pos 0) || ltb_ℤ m.handoff_watermark_seq m.candidate_seq)
    then none
    else some (resync_decision resync_overlap m.handoff_watermark_seq)

unfoldable pub watermark_regressed : MonotonicInput → Bool
watermark_regressed m =
    ltb_ℤ (pos 0) m.last_watermark
    && (ltb_ℤ (pos 0) m.candidate_watermark && ltb_ℤ m.candidate_watermark m.last_watermark)

unfoldable pub stale_gap : MonotonicInput → Bool
stale_gap m =
    let gap = m.last_seq -ℤ m.candidate_seq in ltb_ℤ (pos 0) gap && leb_ℤ gap m.stale_gap_window

-- `DecideMonotonic` from its last tests on.
unfoldable pub decide_seq : MonotonicInput → MonotonicDecision
unfolding watermark_regressed stale_gap drop_decision
decide_seq m =
    if leb_ℤ m.last_seq (pos 0) || ltb_ℤ m.last_seq m.candidate_seq
    then accept_decision
    else if watermark_regressed m
    then drop_decision stale_event false true
    else if stale_gap m
    then drop_decision stale_event false true
    else record accept_decision {
      action = drop;
      reject_reason = seq_non_monotonic;
      violation_type = seq_non_monotonic;
      coherence_reason = out_of_order_input;
      out_of_order = true;
    }

unfoldable pub or_else : Option MonotonicDecision → MonotonicDecision → MonotonicDecision
or_else (some d) rest = d
or_else none rest = rest

unfoldable pub decide_monotonic : MonotonicInput → MonotonicDecision
decide_monotonic m =
    if is_invalid m
    then invalid_decision
    else if pending_resync_overlap m
    then drop_decision resync_overlap false true
    else if is_replay_duplicate m
    then drop_decision replay_duplicate true false
    else or_else (owner_change_decision m) (or_else (snapshot_overlap_decision m) (decide_seq m))
