-- ===== src/Delivery/Router/Tests.antt =====
-- The router's stream state at concrete envelopes.
use stream_analytics.Base.{
  ◌≡◌, ◌<◌, ◌-◌, ◌^◌, refl, ◌⊎◌, true, [], ◌∷◌, length, arith, if◌then◌else◌,
}
use stream_analytics.Base.Int.{ℤ, pos, ◌≤ℤ◌, ◌<ℤ◌, ◌+ℤ◌, ltb_ℤ, eq_ℤ}
use stream_analytics.Base.Text.{Text, text, text_eq, text_key, trim_space, is_empty}
use stream_analytics.Base.Assoc.{lookup}
use stream_analytics.Envelope.{Envelope}
use stream_analytics.Ownership.{decide_monotonic}
use stream_analytics.Delivery.SeqPolicy.{
  SeqPolicyContractInput, is_snapshot_event_type, decide_seq_policy_contract,
}
use stream_analytics.Delivery.SeqPolicy.Contract.{question, contract-eq-monotonic}
use stream_analytics.Delivery.Router.{
  StreamState, Router, zero_state, observe, state_of, accept_stream_seq, next_delivery_seq,
}
use stream_analytics.Delivery.Router.Admission.{Rises, passed_seqs, passed_seqs-Rises, resync_gate}
use stream_analytics.Delivery.Router.Entries.{
  IsValid, accept_stream_seq-IsValid, next_delivery_seq_follows, next_delivery_seq_unbounded,
}

abbrev trade : ℤ → Envelope
trade seq = record {
  event_type = text "marketdata.trade";
  version = pos 1;
  venue = text "binance";
  instrument = text "BTC-USDT";
  ts_exchange = pos 10;
  ts_ingest = pos 11;
  seq = seq;
  idempotency_key = text "k";
  content_type = [];
  meta = [];
  payload = 1 ∷ [];
}

abbrev stream : Text
stream = text "s"

-- One stream is allowed.
abbrev small : Router
small = record {
  stream_state = (text "t", zero_state) ∷ [];
  stream_state_ttl = 60;
  max_stream_state_entries = 1;
}

abbrev token : Text → Text
token id = text "7"

-- A snapshot from another processor, behind the last event.
abbrev late_snapshot : SeqPolicyContractInput
late_snapshot = record {
  stream_key = text "s";
  event_type = text "marketdata.Snapshot";
  candidate_seq = pos 3;
  candidate_ts_ingest = pos 11;
  last_seq = pos 7;
  last_ts_ingest = pos 20;
  candidate_processor_id = text "7";
  last_processor_id = text "8";
  handoff_watermark_seq = pos 5;
  pending_resync_watermark = pos 0;
}

contract-eq-monotonic_example :
    decide_seq_policy_contract late_snapshot ≡ decide_monotonic (question late_snapshot)
contract-eq-monotonic_example = contract-eq-monotonic late_snapshot

passed_seqs-Rises_example : Rises (pos 0) (
    passed_seqs token stream zero_state
      ((1, trade (pos 3)) ∷ (2, trade (pos 3)) ∷ (3, trade (pos 2)) ∷ (4, trade (pos 8)) ∷ []))
passed_seqs-Rises_example =
    passed_seqs-Rises token stream zero_state
      ((1, trade (pos 3)) ∷ (2, trade (pos 3)) ∷ (3, trade (pos 2)) ∷ (4, trade (pos 8)) ∷ [])
      (omega arith)

abbrev resyncing : StreamState
resyncing = record zero_state { pending_resync_watermark = pos 5 }

resync_gate_example :
    let (s', passed, reason) = observe token stream 1 resyncing (trade (pos 3)) in
    if passed
    then ((is_snapshot_event_type (text "marketdata.trade") ≡ true) ⊎ (pos 5 <ℤ pos 3))
      × (s'.pending_resync_watermark ≡ (if ltb_ℤ (pos 5) (pos 3) then pos 0 else pos 5))
    else (pos 5 ≤ℤ s'.pending_resync_watermark)
resync_gate_example = resync_gate token stream 1 resyncing (trade (pos 3)) (omega arith)

small-IsValid : IsValid small
unfolding is_empty
small-IsValid = record { positive = omega arith; keyed = (refl, tt); bounded = omega arith }

accept_stream_seq-IsValid_example :
    IsValid (accept_stream_seq token small 100 100 stream (trade (pos 3))).0
accept_stream_seq-IsValid_example =
    accept_stream_seq-IsValid token small 100 100 stream (trade (pos 3)) small-IsValid

next_delivery_seq_follows_example :
    (next_delivery_seq small 100 (text "t")).1
    ≡ (if eq_ℤ (pos 0) (pos (2 ^ 63 - 1)) then pos 1 else pos 0 +ℤ pos 1)
unfolding is_empty trim_space state_of lookup text_eq
next_delivery_seq_follows_example =
    (next_delivery_seq_follows small 100 (text "t") stream refl (omega arith) (omega arith)).0

next_delivery_seq_unbounded_example :
    let r' = (next_delivery_seq small 100 stream).0 in
    r'.max_stream_state_entries < length r'.stream_state
unfolding is_empty trim_space lookup text_eq
next_delivery_seq_unbounded_example = next_delivery_seq_unbounded small 100 stream refl refl refl
