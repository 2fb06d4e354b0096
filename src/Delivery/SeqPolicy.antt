-- ===== src/Delivery/SeqPolicy.antt =====
-- internal/actors/delivery/runtime/seq_policy.go and seq_policy_contract.go: the delivery layer's
-- sequence policy over `ownership.DecideMonotonic`, its test-facing contract view, and the reading
-- of watermarks from an envelope's metadata.
pub mod Contract
use stream_analytics.Base.{Bool, Option, none, some, List, [], if◌then◌else◌}
use stream_analytics.Base.Int.{ℤ, pos, ltb_ℤ}
use stream_analytics.Base.Text.{Text, text, text_key, trim_space, to_lower, contains, is_empty}
use stream_analytics.Base.Assoc.{lookup}
use stream_analytics.Base.Parse.{parse_int64}
use stream_analytics.Ownership.{
  MonotonicAction, accept, drop, convert_to_resync, Reason, no_reason, MonotonicInput,
  MonotonicDecision, decide_monotonic,
}

abbrev pub default_stale_gap_window : ℤ
default_stale_gap_window = pos 2048

-- `seqPolicyInput`.
pub record SeqPolicyInput : Type 0 where
  pub stream_key : Text
  pub event_type : Text
  pub candidate_seq : ℤ
  pub candidate_ts_ingest : ℤ
  pub last_seq : ℤ
  pub last_ts_ingest : ℤ
  pub candidate_processor_id : Text
  pub last_processor_id : Text
  pub handoff_watermark_seq : ℤ
  pub pending_resync_watermark : ℤ

-- `seqPolicyDecision`.
pub record SeqPolicyDecision : Type 0 where
  pub action : MonotonicAction
  pub reject_reason : Reason
  pub violation_type : Reason
  pub coherence_reason : Reason
  pub resync_watermark : ℤ
  pub duplicate : Bool
  pub out_of_order : Bool

unfoldable pub is_snapshot_event_type : Text → Bool
is_snapshot_event_type event_type = contains (to_lower (trim_space event_type)) (text "snapshot")

unfoldable pub monotonic_input : ℤ → SeqPolicyInput → MonotonicInput
monotonic_input stale_gap_window m = record {
  stream_key = m.stream_key;
  is_snapshot = is_snapshot_event_type m.event_type;
  candidate_seq = m.candidate_seq;
  candidate_watermark = m.candidate_ts_ingest;
  last_seq = m.last_seq;
  last_watermark = m.last_ts_ingest;
  candidate_owner = m.candidate_processor_id;
  last_owner = m.last_processor_id;
  handoff_watermark_seq = m.handoff_watermark_seq;
  pending_resync_watermark = m.pending_resync_watermark;
  stale_gap_window = stale_gap_window;
}

-- The `switch` of `Decide`. A field that a literal leaves out is its zero value.
unfoldable pub translate : MonotonicAction → MonotonicDecision → SeqPolicyDecision
translate accept d = record {
  action = accept;
  reject_reason = no_reason;
  violation_type = no_reason;
  coherence_reason = no_reason;
  resync_watermark = pos 0;
  duplicate = Bool.false;
  out_of_order = Bool.false;
}
translate convert_to_resync d = record {
  action = convert_to_resync;
  reject_reason = d.reject_reason;
  violation_type = no_reason;
  coherence_reason = d.coherence_reason;
  resync_watermark = d.resync_watermark;
  duplicate = d.duplicate;
  out_of_order = d.out_of_order;
}
translate drop d = record {
  action = drop;
  reject_reason = d.reject_reason;
  violation_type = d.violation_type;
  coherence_reason = d.coherence_reason;
  resync_watermark = pos 0;
  duplicate = d.duplicate;
  out_of_order = d.out_of_order;
}

-- `defaultSeqPolicy.Decide`.
unfoldable pub decide : ℤ → SeqPolicyInput → SeqPolicyDecision
unfolding translate
decide stale_gap_window m =
    let d = decide_monotonic (monotonic_input stale_gap_window m) in translate d.action d

contract_action : MonotonicAction → MonotonicAction
contract_action accept = accept
contract_action convert_to_resync = convert_to_resync
contract_action drop = drop

contract_decision : SeqPolicyDecision → MonotonicDecision
unfolding contract_action
contract_decision d = record {
  action = contract_action d.action;
  reject_reason = d.reject_reason;
  violation_type = d.violation_type;
  coherence_reason = d.coherence_reason;
  resync_watermark = d.resync_watermark;
  duplicate = d.duplicate;
  out_of_order = d.out_of_order;
}

pub record SeqPolicyContractInput : Type 0 where
  pub stream_key : Text
  pub event_type : Text
  pub candidate_seq : ℤ
  pub candidate_ts_ingest : ℤ
  pub last_seq : ℤ
  pub last_ts_ingest : ℤ
  pub candidate_processor_id : Text
  pub last_processor_id : Text
  pub handoff_watermark_seq : ℤ
  pub pending_resync_watermark : ℤ

unfoldable pub seq_policy_input : SeqPolicyContractInput → SeqPolicyInput
seq_policy_input m = record {
  stream_key = m.stream_key;
  event_type = m.event_type;
  candidate_seq = m.candidate_seq;
  candidate_ts_ingest = m.candidate_ts_ingest;
  last_seq = m.last_seq;
  last_ts_ingest = m.last_ts_ingest;
  candidate_processor_id = m.candidate_processor_id;
  last_processor_id = m.last_processor_id;
  handoff_watermark_seq = m.handoff_watermark_seq;
  pending_resync_watermark = m.pending_resync_watermark;
}

-- `DecideSeqPolicyContract`, whose result has the fields of `ownership.MonotonicDecision`.
pub decide_seq_policy_contract : SeqPolicyContractInput → MonotonicDecision
unfolding contract_decision
decide_seq_policy_contract m =
    contract_decision (decide default_stale_gap_window (seq_policy_input m))

abbrev pub Meta : Type 0
Meta = List (Text × Text)

-- `meta[key]`: the empty string where there is no entry.
unfoldable pub meta_value : Meta → Text → Text
meta_value meta key = elim (lookup key meta) [ some v ↦ v | none ↦ [] ]

or_zero : Option ℤ → ℤ
or_zero (some v) = v
or_zero none = pos 0

unfoldable pub parse_int64_meta : Meta → Text → ℤ
unfolding or_zero
parse_int64_meta meta key =
    let raw = trim_space (meta_value meta key) in
    if is_empty raw then pos 0 else or_zero (parse_int64 raw)

unfoldable pub handoff_watermark_from_meta : Meta → ℤ
handoff_watermark_from_meta meta =
    let w = parse_int64_meta meta (text "handoff_watermark_seq") in
    if ltb_ℤ (pos 0) w then w else parse_int64_meta meta (text "watermark_seq")
