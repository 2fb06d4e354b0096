-- ===== src/Delivery/Routing.antt =====
-- The routing of an envelope to its subject, its market-type alias and the wildcard of a signal, of
-- internal/actors/delivery/runtime/router.go, and `ValidateEnvelopeForDelivery` of
-- internal/core/delivery/domain/envelope_policy.go.
use stream_analytics.Base.{
  Bool, not, ◌&&◌, ◌||◌, List, [], ◌∷◌, ◌++◌, Option, none, some, if◌then◌else◌,
}
use stream_analytics.Base.Int.{ℤ, pos, eq_ℤ}
use stream_analytics.Base.Text.{
  Text, text, text_eq, text_key, trim_space, to_lower, to_upper, is_empty, has_prefix, contains,
}
use stream_analytics.Base.Assoc.{lookup}
use stream_analytics.Base.Nested.{is_some}
use stream_analytics.Envelope.{Result, ok, err, validation_failed, refuse_if, ◌>>◌, Envelope}
use stream_analytics.Delivery.Subject.{
  Subject, subject_eq, is_signal, new_subject, new_signal_subject, meta_at, lower_trim,
  default_timeframe,
}
use stream_analytics.Delivery.Subscriptions.{subject_key}

pub record DeliveryContract : Type 0 where
  pub version : ℤ
  pub owner_bc : Text
  pub producer_bc : Text
  pub schema_authority : Text

-- A contract of version 1.
abbrev pub contract : Text → Text → Text → DeliveryContract
contract owner producer authority = record {
  version = pos 1;
  owner_bc = owner;
  producer_bc = producer;
  schema_authority = authority;
}

unfoldable pub delivery_contracts : List (Text × DeliveryContract)
delivery_contracts =
    (text "marketdata.trade", contract (text "marketdata") (text "marketdata") (text "marketdata"))
    ∷ (
      text "marketdata.bookdelta",
      contract (text "marketdata") (text "marketdata") (text "marketdata"),
    )
    ∷ (
      text "marketdata.markprice",
      contract (text "marketdata") (text "marketdata") (text "marketdata"),
    )
    ∷ (
      text "marketdata.open_interest",
      contract (text "marketdata") (text "marketdata") (text "marketdata"),
    )
    ∷ (
      text "marketdata.liquidation",
      contract (text "marketdata") (text "marketdata") (text "marketdata"),
    )
    ∷ (
      text "insights.crossvenue.trade_snapshot",
      contract (text "insights") (text "aggregation") (text "aggregation"),
    )
    ∷ (
      text "insights.crossvenue.spread_signal",
      contract (text "insights") (text "aggregation") (text "aggregation"),
    )
    ∷ (
      text "evidence.microstructure_evidence",
      contract (text "evidence") (text "evidence") (text "evidence"),
    )
    ∷ (text "liquidity.evidence", contract (text "evidence") (text "evidence") (text "evidence"))
    ∷ (
      text "evidence.regime_evidence",
      contract (text "evidence") (text "evidence") (text "evidence"),
    )
    ∷ (
      text "insights.microstructure_evidence",
      contract (text "evidence") (text "evidence") (text "evidence"),
    )
    ∷ (
      text "insights.regime_evidence",
      contract (text "evidence") (text "evidence") (text "evidence"),
    )
    ∷ (text "signal.composite", contract (text "signal") (text "signal") (text "signal"))
    ∷ (text "signal.event", contract (text "signal") (text "signal") (text "signal"))
    ∷ (text "strategy.intent", contract (text "strategy") (text "strategy") (text "strategy"))
    ∷ (text "execution.event", contract (text "execution") (text "execution") (text "execution"))
    ∷ (text "portfolio.state", contract (text "portfolio") (text "portfolio") (text "portfolio"))
    ∷ (
      text "aggregation.snapshot",
      contract (text "aggregation") (text "aggregation") (text "aggregation"),
    )
    ∷ (
      text "aggregation.orderbook_inconsistency",
      contract (text "aggregation") (text "aggregation") (text "aggregation"),
    )
    ∷ (
      text "aggregation.candle",
      contract (text "aggregation") (text "aggregation") (text "aggregation"),
    )
    ∷ (
      text "aggregation.stats",
      contract (text "aggregation") (text "aggregation") (text "aggregation"),
    )
    ∷ (
      text "aggregation.tape",
      contract (text "aggregation") (text "aggregation") (text "aggregation"),
    )
    ∷ (
      text "aggregation.oi",
      contract (text "aggregation") (text "aggregation") (text "aggregation"),
    )
    ∷ (
      text "aggregation.delta_volume",
      contract (text "aggregation") (text "aggregation") (text "aggregation"),
    )
    ∷ (
      text "aggregation.cvd",
      contract (text "aggregation") (text "aggregation") (text "aggregation"),
    )
    ∷ (
      text "aggregation.bar_stats",
      contract (text "aggregation") (text "aggregation") (text "aggregation"),
    )
    ∷ (
      text "insights.heatmap_snapshot",
      contract (text "insights") (text "aggregation") (text "aggregation"),
    )
    ∷ (
      text "insights.heatmap_delta",
      contract (text "insights") (text "aggregation") (text "aggregation"),
    )
    ∷ (
      text "insights.volume_profile_snapshot",
      contract (text "insights") (text "aggregation") (text "aggregation"),
    )
    ∷ (
      text "insights.volume_profile_delta",
      contract (text "insights") (text "aggregation") (text "aggregation"),
    )
    ∷ (
      text "insights.session_volume_profile",
      contract (text "insights") (text "aggregation") (text "aggregation"),
    )
    ∷ (
      text "insights.tpo_profile",
      contract (text "insights") (text "aggregation") (text "aggregation"),
    )
    ∷ (
      text "insights.fused_volume_profile_snapshot",
      contract (text "insights") (text "aggregation") (text "aggregation"),
    )
    ∷ (
      text "insights.fused_heatmap_snapshot",
      contract (text "insights") (text "aggregation") (text "aggregation"),
    )
    ∷ []

-- Whether the governance of a contract is in order.
unfoldable pub is_governed : DeliveryContract → Bool
is_governed c =
    text_eq c.owner_bc c.producer_bc
    || (not (is_empty (trim_space c.schema_authority))
        && (text_eq c.schema_authority c.owner_bc || text_eq c.schema_authority c.producer_bc))

unfoldable pub validate_envelope_for_delivery : Envelope → Result (Unit {0})
validate_envelope_for_delivery env = elim (lookup (lower_trim env.event_type) delivery_contracts) [
  | none ↦ err validation_failed
  | some c ↦ do
    refuse_if (not (eq_ℤ env.version c.version)) validation_failed
    refuse_if (not (is_governed c)) validation_failed
]

unfoldable pub allow_envelope_timeframe_override : Text → Bool
allow_envelope_timeframe_override event_type =
    let et = lower_trim event_type in
    (has_prefix et (text "insights.") || has_prefix et (text "evidence."))
    || is_some (
        lookup et (
          (text "aggregation.candle", tt {0})
          ∷ (text "aggregation.stats", tt)
          ∷ (text "aggregation.tape", tt)
          ∷ (text "aggregation.oi", tt)
          ∷ (text "aggregation.delta_volume", tt)
          ∷ (text "aggregation.cvd", tt)
          ∷ (text "aggregation.bar_stats", tt)
          ∷ (text "signal.composite", tt)
          ∷ (text "signal.event", tt)
          ∷ []))

unfoldable pub routing_timeframe_for_envelope : Text → Envelope → Text
routing_timeframe_for_envelope default env =
    let timeframe =
      if is_empty (trim_space default) then default_timeframe else trim_space default in
    let tf = trim_space (meta_at (text "timeframe") env.meta) in
    if not (allow_envelope_timeframe_override env.event_type)
    then timeframe
    else if is_empty tf
    then timeframe
    else to_lower tf

-- The end of `routingMarketTypeAliasSubject`.
unless_same : Subject → Result Subject → Option Subject
unless_same primary (err p) = none
unless_same primary (ok alias) = if subject_eq alias primary then none else some alias

unfoldable pub routing_market_type_alias_subject : Subject → Envelope → Option Subject
unfolding unless_same
routing_market_type_alias_subject primary env =
    let market_type = to_upper (trim_space (meta_at (text "instrument_market_type") env.meta)) in
    let symbol = trim_space env.instrument in
    let full = if contains symbol (text ":") then symbol else symbol ++ (text ":" ++ market_type) in
    if is_empty market_type
    then none
    else if is_empty symbol
    then none
    else unless_same primary (new_subject primary.stream_type primary.venue full primary.timeframe)

unfoldable pub wildcard_subject : Subject → Option Subject
unfolding unless_same
wildcard_subject subject =
    if is_signal subject
    then unless_same subject
        (new_signal_subject (text "*") subject.venue subject.symbol subject.timeframe)
    else none
