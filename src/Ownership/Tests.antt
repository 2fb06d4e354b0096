-- ===== src/Ownership/Tests.antt =====
-- The monotonic policy at concrete observations.
use stream_analytics.Base.{◌≡◌, ◌↔◌, refl, false}
use stream_analytics.Base.Int.{pos, ◌≤ℤ◌}
use stream_analytics.Base.Text.{text, text_eq, trim_space, is_empty}
use stream_analytics.Ownership.{
  MonotonicInput, accept, convert_to_resync, no_reason, is_invalid, pending_resync_overlap,
  is_replay_duplicate, owner_change_decision, or_else, decide_monotonic,
}
use stream_analytics.Ownership.Decide.{Acceptable, accept_iff, resync_covers, reason_iff}

-- A new owner that starts below the stream's last number.
abbrev takeover : MonotonicInput
takeover = record {
  stream_key = text "s";
  is_snapshot = false;
  candidate_seq = pos 5;
  candidate_watermark = pos 0;
  last_seq = pos 9;
  last_watermark = pos 0;
  candidate_owner = text "b";
  last_owner = text "a";
  handoff_watermark_seq = pos 0;
  pending_resync_watermark = pos 0;
  stale_gap_window = pos 2048;
}

takeover_resyncs : (decide_monotonic takeover).action ≡ convert_to_resync
unfolding decide_monotonic is_invalid trim_space is_empty pending_resync_overlap is_replay_duplicate
    owner_change_decision or_else text_eq
takeover_resyncs = refl

accept_iff_example : ((decide_monotonic takeover).action ≡ accept) ↔ Acceptable takeover
accept_iff_example = accept_iff takeover

resync_covers_example : takeover.candidate_seq ≤ℤ (decide_monotonic takeover).resync_watermark
resync_covers_example = resync_covers takeover takeover_resyncs

reason_iff_example :
    ((decide_monotonic takeover).reject_reason ≡ no_reason)
    ↔ ((decide_monotonic takeover).action ≡ accept)
reason_iff_example = reason_iff takeover
