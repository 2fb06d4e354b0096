-- ===== src/Delivery/SeqPolicy/Contract.antt =====
-- The delivery policy and its contract view against `ownership.DecideMonotonic`.
use stream_analytics.Base.Int.{ℤ, pos}
use stream_analytics.Base.{◌≡◌, refl, sym, ap, ◌∙◌, arith}
use stream_analytics.Base.Text.{text, trim_space, to_lower, contains}
use stream_analytics.Ownership.{
  MonotonicAction, accept, drop, convert_to_resync, MonotonicInput, MonotonicDecision,
  decide_monotonic, invalid_decision, drop_decision, owner_change_decision,
  snapshot_overlap_decision, decide_seq,
}
use stream_analytics.Ownership.Decide.{decide_cases}
use stream_analytics.Delivery.SeqPolicy.{
  SeqPolicyInput, SeqPolicyContractInput, seq_policy_input, is_snapshot_event_type,
  default_stale_gap_window, monotonic_input, translate, contract_decision, decide,
  decide_seq_policy_contract,
}

-- Both translations together.
abbrev there_and_back : MonotonicDecision → MonotonicDecision
there_and_back d = contract_decision (translate d.action d)

-- What the shared policy is to be asked: the numbers and the ingestion times of the candidate and of
-- the last event, the times being the watermarks; who sent them; what is said of a handoff and of a
-- resync; and whether the type of the event names a snapshot. A gap of 2048 is stale.
pub question : SeqPolicyContractInput → MonotonicInput
question m = record {
  stream_key = m.stream_key;
  is_snapshot = contains (to_lower (trim_space m.event_type)) (text "snapshot");
  candidate_seq = m.candidate_seq;
  candidate_watermark = m.candidate_ts_ingest;
  last_seq = m.last_seq;
  last_watermark = m.last_ts_ingest;
  candidate_owner = m.candidate_processor_id;
  last_owner = m.last_processor_id;
  handoff_watermark_seq = m.handoff_watermark_seq;
  pending_resync_watermark = m.pending_resync_watermark;
  stale_gap_window = pos 2048;
}

asked :
    (m : SeqPolicyContractInput)
    → monotonic_input default_stale_gap_window (seq_policy_input m) ≡ question m
unfolding monotonic_input seq_policy_input is_snapshot_event_type question
asked m = refl

-- The contract view of the delivery policy answers with the whole decision of the shared monotonic
-- policy, on every input, the question to it being `question`: every field of the input reaches the
-- field of its meaning, the ingestion times serve as watermarks, an event is a snapshot if its type
-- says so, and the window for stale gaps is 2048.
pub contract-eq-monotonic :
    (m : SeqPolicyContractInput) → decide_seq_policy_contract m ≡ decide_monotonic (question m)
unfolding decide_seq_policy_contract decide contract_decision translate
contract-eq-monotonic m =
    decide_cases (λ d. there_and_back d ≡ d)
      (monotonic_input default_stale_gap_window (seq_policy_input m))
      (unfold invalid_decision in refl) (unfold drop_decision in refl)
      (unfold drop_decision in refl) (λ d e. unfold owner_change_decision in ground arith)
      (λ d e. unfold snapshot_overlap_decision in ground arith) (unfold decide_seq in ground arith)
    ∙ ap decide_monotonic (asked m)

translate-action : (a : MonotonicAction) (d : MonotonicDecision) → (translate a d).action ≡ a
unfolding translate
translate-action accept d = refl
translate-action convert_to_resync d = refl
translate-action drop d = refl

pub decide-action :
    (w : ℤ) (m : SeqPolicyInput)
    → (decide w m).action ≡ (decide_monotonic (monotonic_input w m)).action
unfolding decide
decide-action w m = let d = decide_monotonic (monotonic_input w m) in translate-action d.action d

translate-resync :
    (a : MonotonicAction) (d : MonotonicDecision)
    → a ≡ convert_to_resync
    → (translate a d).resync_watermark ≡ d.resync_watermark
unfolding translate
translate-resync accept d h = cc
translate-resync convert_to_resync d h = refl
translate-resync drop d h = cc

pub decide-resync :
    (w : ℤ) (m : SeqPolicyInput)
    → (decide w m).action ≡ convert_to_resync
    → (decide w m).resync_watermark ≡ (decide_monotonic (monotonic_input w m)).resync_watermark
unfolding decide
decide-resync w m h =
    let d = decide_monotonic (monotonic_input w m) in
    translate-resync d.action d (sym (translate-action d.action d) ∙ h)
