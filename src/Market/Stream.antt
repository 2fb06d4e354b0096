-- ===== src/Market/Stream.antt =====
-- internal/core/marketdata/domain/instrument_stream.go: the aggregate that numbers the events of
-- one instrument and refuses the ones out of order and the duplicates, with the value objects of
-- value_objects.go and market_type.go that build it. Details of problems are left out, and
-- `DedupWindow`, which is positive, is a natural number. The capacity of `seenOrd`'s backing array,
-- which the compaction in `recordSeen` is about, is not modelled.
pub mod Seen
pub mod Refine
pub mod History
mod Tests
use stream_analytics.Base.{
  ℕ, zero, suc, ◌+◌, ◌≡◌, Bool, true, false, ◌&&◌, ◌||◌, List, [], ◌∷◌, ◌++◌, get_or, drop, length,
  Option, none, some, ltb, leb, ◌==◌, ==_iff, if◌then◌else◌,
}
use stream_analytics.Base.Int.{ℤ, pos, pos_part, ltb_ℤ, leb_ℤ}
use stream_analytics.Base.Text.{Text, text, text_eq, trim_space, to_upper, is_empty}
use stream_analytics.Base.Assoc.{Key, lookup, insert, remove}
use stream_analytics.Envelope.{
  Problem, out_of_order, duplicate, validation_failed, Result, ok, err, ◌>>=◌, refuse_if, ◌>>◌,
  Envelope, validate,
}
use stream_analytics.Hash.{sum_fields_fast64, sum_idempotency_key_fast64, idempotency_key_fast}

instance abbrev pub hash_key : Key ℕ
hash_key = record { eq = ◌==◌; eq_iff = ==_iff }

pub record StreamId : Type 0 where
  pub venue : Text
  pub instrument : Text
  pub market_type : Text

pub record InstrumentStream : Type 0 where
  pub id : StreamId
  pub dedup_window : ℕ
  pub last_seq : ℤ
  pub seen : List (ℕ × Unit {0})
  pub seen_ord : List ℕ
  pub out_of_order_count : ℕ
  pub duplicate_count : ℕ

-- `NewVenueID` and `naming.CanonicalVenue`.
pub new_venue_id : Text → Result Text
new_venue_id raw =
    if is_empty (trim_space raw) then err validation_failed else ok (to_upper (trim_space raw))

unfoldable pub is_separator : ℕ → Bool
is_separator c = c == 47 || (c == 45 || (c == 95 || c == 46))

-- The replacer of `naming.CanonicalInstrument`, which deletes '/', '-', '_' and '.'.
unfoldable pub strip_separators : Text → Text
unfolding is_separator
strip_separators [] = []
strip_separators (c ∷ s) =
    let rest = strip_separators s in if is_separator c then rest else c ∷ rest

pub new_instrument_id : Text → Result Text
unfolding strip_separators
new_instrument_id raw =
    if is_empty (trim_space raw)
    then err validation_failed
    else ok (strip_separators (to_upper (trim_space raw)))

pub new_market_type : Text → Result Text
new_market_type raw =
    let v = to_upper (trim_space raw) in
    if text_eq v (text "SPOT")
    then ok v
    else if text_eq v (text "USD_M_FUTURES")
    then ok v
    else if text_eq v (text "COIN_M_FUTURES")
    then ok v
    else err validation_failed

-- `NewInstrumentStreamWithMarketType`.
unfoldable pub new_instrument_stream : Text → Text → Text → ℤ → Result InstrumentStream
new_instrument_stream raw_venue raw_instrument raw_market_type dedup_window = do
  venue ← new_venue_id raw_venue
  instrument ← new_instrument_id raw_instrument
  market_type ← new_market_type (if is_empty raw_market_type then text "SPOT" else raw_market_type)
  refuse_if (leb_ℤ dedup_window (pos 0)) validation_failed
  ok record {
    id = record { venue = venue; instrument = instrument; market_type = market_type };
    dedup_window = pos_part dedup_window;
    last_seq = pos 0;
    seen = [];
    seen_ord = [];
    out_of_order_count = 0;
    duplicate_count = 0;
  }

-- `Health().IsHealthy`.
pub is_healthy : InstrumentStream → Bool
is_healthy s = if ltb 0 s.out_of_order_count || ltb 0 s.duplicate_count then false else true

-- The arguments of `BuildEnvelope`.
pub record Event : Type 0 where
  pub event_type : Text
  pub version : ℤ
  pub ts_exchange : ℤ
  pub ts_ingest : ℤ
  pub seq : ℤ
  pub content_type : Text
  pub payload : List ℕ
  pub source_idempotency_key : Text

-- `ikeyHash`.
unfoldable pub ikey_hash : StreamId → Event → ℕ
ikey_hash id e =
    if is_empty e.source_idempotency_key
    then sum_idempotency_key_fast64 id.venue id.instrument e.event_type e.seq
    else sum_fields_fast64 (e.source_idempotency_key ∷ [])

-- `ikey`.
pub ikey : StreamId → Event → Text
ikey id e =
    if is_empty e.source_idempotency_key
    then idempotency_key_fast id.venue id.instrument e.event_type e.seq
    else e.source_idempotency_key

unfoldable pub envelope_of : StreamId → Event → Envelope
envelope_of id e = record {
  event_type = e.event_type;
  version = e.version;
  venue = id.venue;
  instrument = id.instrument;
  ts_exchange = e.ts_exchange;
  ts_ingest = e.ts_ingest;
  seq = e.seq;
  idempotency_key = ikey id e;
  content_type = e.content_type;
  meta = [];
  payload = e.payload;
}

-- The second result of a lookup in `seen`.
unfoldable pub has : ℕ → List (ℕ × Unit {0}) → Bool
has h m = elim (lookup h m) [ none ↦ false | some _ ↦ true ]

-- `recordSeen` on `seen` and `seenOrd`. A window is positive, so a full one has an oldest hash.
unfoldable pub record_seen : ℕ → List (ℕ × Unit {0}) → List ℕ → ℕ → List (ℕ × Unit {0}) × List ℕ
record_seen max_size seen seen_ord h =
    if leb max_size (length seen_ord)
    then (insert h tt (remove (get_or seen_ord 0 0) seen), drop 1 seen_ord ++ h ∷ [])
    else (insert h tt seen, seen_ord ++ h ∷ [])

pub is_out_of_order : InstrumentStream → Event → Bool
is_out_of_order s e = leb_ℤ e.seq s.last_seq && ltb_ℤ (pos 0) s.last_seq

-- The state after all checks.
pub commit : InstrumentStream → Event → InstrumentStream
commit s e =
    let (seen, seen_ord) = record_seen s.dedup_window s.seen s.seen_ord (ikey_hash s.id e) in
    record s { last_seq = e.seq; seen = seen; seen_ord = seen_ord }

-- The end of `BuildEnvelope`.
pub finish : InstrumentStream → Event → Result Envelope → InstrumentStream × Result Envelope
finish s e (err p) = (s, err p)
finish s e (ok env) = (commit s e, ok env)

unfoldable pub build_envelope : InstrumentStream → Event → InstrumentStream × Result Envelope
unfolding finish
build_envelope s e =
    if is_out_of_order s e
    then (record s { out_of_order_count = s.out_of_order_count + 1 }, err out_of_order)
    else if has (ikey_hash s.id e) s.seen
    then (record s { duplicate_count = s.duplicate_count + 1 }, err duplicate)
    else finish s e (validate (envelope_of s.id e))
