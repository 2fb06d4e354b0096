-- ===== src/Delivery/FanOut/Tests.antt =====
-- A trade with a market type, for a session that is subscribed to its subject and to the alias.
use stream_analytics.Base.{◌≡◌, refl, true, false, [], ◌∷◌, some, none}
use stream_analytics.Base.Int.{pos}
use stream_analytics.Base.Text.{
  Text, text, text_eq, text_key, trim_space, to_lower, to_upper, is_empty, has_prefix, contains,
}
use stream_analytics.Base.Assoc.{lookup, insert}
use stream_analytics.Base.Nested.{is_some, is_nil}
use stream_analytics.Base.Members.{mem, NoDup}
use stream_analytics.Market.Stream.{strip_separators}
use stream_analytics.Ownership.{
  decide_monotonic, is_invalid, pending_resync_overlap, is_replay_duplicate, owner_watermark,
  resync_decision, watermark_regressed, stale_gap, or_else, owner_change_decision,
  snapshot_overlap_decision, decide_seq,
}
use stream_analytics.Delivery.SeqPolicy.{
  meta_value, parse_int64_meta, handoff_watermark_from_meta, is_snapshot_event_type,
  monotonic_input, decide, translate,
}
use stream_analytics.Envelope.{Envelope, ok}
use stream_analytics.Delivery.Router.{
  processor_instance_id, candidate_owner, policy_input, accepted_state, settle, observe, make_room,
  ensure, state_of, Router, accept_stream_seq,
}
use stream_analytics.Delivery.Subject.{
  Subject, subject_from_envelope, is_signal_event_type, new_subject, lower_trim, or_default,
  normalize_symbol, canonical_instrument, meta_at, is_signal, equal_fold, string, subject_eq,
}
use stream_analytics.Delivery.Subscriptions.{Tables, Pid, subject_key}
use stream_analytics.Delivery.Routing.{
  validate_envelope_for_delivery, routing_timeframe_for_envelope, delivery_contracts, is_governed,
  allow_envelope_timeframe_override, routing_market_type_alias_subject, wildcard_subject,
}
use stream_analytics.Delivery.FanOut.{
  route, targets_of, targets_at, no_targets, admit_all, admit, admit_next, subject_or_none,
  handle_envelope,
}
use stream_analytics.Delivery.FanOut.Once.{pids, all_targets, handle_envelope-delivers}

abbrev trade : Envelope
trade = record {
  event_type = text "marketdata.trade";
  version = pos 1;
  venue = text "BINANCE";
  instrument = text "BTC-USDT";
  ts_exchange = pos 10;
  ts_ingest = pos 11;
  seq = pos 3;
  idempotency_key = text "k";
  content_type = [];
  meta = (text "instrument_market_type", text "spot") ∷ [];
  payload = 1 ∷ [];
}

abbrev primary : Subject
primary = record {
  stream_type = text "marketdata.trade";
  kind = [];
  venue = text "binance";
  symbol = text "BTCUSDT";
  timeframe = text "raw";
}

abbrev alias : Subject
alias = record primary { symbol = text "BTCUSDT:SPOT" }

abbrev empty_router : Router
empty_router = record { stream_state = []; stream_state_ttl = 60; max_stream_state_entries = 10 }

abbrev tables : Tables
tables = record {
  sessions = [];
  session_by_pid = [];
  session_subjects = [];
  subject_sessions = [];
  subject_pids = (primary, text "p" ∷ []) ∷ (alias, text "q" ∷ text "p" ∷ []) ∷ [];
  router = empty_router;
  max_active_sessions = pos 0;
}

abbrev token : Text → Text
token id = text "7"

trade_valid : validate_envelope_for_delivery trade ≡ ok tt
unfolding validate_envelope_for_delivery delivery_contracts is_governed lower_trim trim_space
    to_lower text_eq lookup is_empty
trade_valid = refl

trade_subject :
    subject_from_envelope trade (routing_timeframe_for_envelope (text "raw") trade) ≡ ok primary
unfolding subject_from_envelope is_signal_event_type new_subject lower_trim or_default
    normalize_symbol canonical_instrument trim_space to_lower to_upper text_eq is_empty
    strip_separators routing_timeframe_for_envelope allow_envelope_timeframe_override has_prefix
    lookup is_some meta_at
trade_subject = refl

trade_alias : routing_market_type_alias_subject primary trade ≡ some alias
unfolding routing_market_type_alias_subject new_subject lower_trim or_default normalize_symbol
    canonical_instrument trim_space to_lower to_upper text_eq is_empty strip_separators contains
    has_prefix lookup meta_at subject_eq
trade_alias = refl

trade_wildcard : wildcard_subject primary ≡ none
unfolding wildcard_subject is_signal equal_fold trim_space to_lower text_eq
trade_wildcard = refl

trade_targets : no_targets tables (route primary trade) ≡ false
unfolding no_targets route targets_of lookup subject_eq text_eq is_nil
trade_targets = refl

trade_admitted : (admit_all token (λ i. i) tables (route primary trade) trade).1 ≡ true
unfolding contains has_prefix admit_all route admit admit_next targets_of targets_at lookup
    subject_eq text_eq is_nil accept_stream_seq string subject_or_none trim_space to_lower is_signal
    equal_fold is_empty processor_instance_id candidate_owner policy_input accepted_state settle
    observe make_room ensure state_of meta_value parse_int64_meta handoff_watermark_from_meta insert
    is_snapshot_event_type monotonic_input decide translate decide_monotonic is_invalid
    pending_resync_overlap is_replay_duplicate owner_watermark resync_decision watermark_regressed
    stale_gap or_else owner_change_decision snapshot_overlap_decision decide_seq
trade_admitted = rw (trade_alias, trade_wildcard) refl

primary_once : NoDup (targets_of tables primary)
unfolding targets_of lookup subject_eq text_eq mem
primary_once = (refl, tt)

handle_envelope-delivers_example :
    let o = handle_envelope token (λ i. i) (text "raw") false false tables trade in
    NoDup (pids o.sent)
    × ((p : Pid) → mem p (pids o.sent) ≡ mem p (all_targets tables (route primary trade)))
handle_envelope-delivers_example =
    handle_envelope-delivers token (λ i. i) (text "raw") false tables trade primary trade_valid
      trade_subject trade_targets trade_admitted primary_once
