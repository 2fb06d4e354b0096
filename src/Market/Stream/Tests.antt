-- ===== src/Market/Stream/Tests.antt =====
-- A stream with a window of two hashes, and its events.
use stream_analytics.Base.{ℕ, ◌≡◌, refl, List, [], ◌∷◌, arith}
use stream_analytics.Base.Int.{pos}
use stream_analytics.Base.Text.{Text, text}
use stream_analytics.Market.Stream.{InstrumentStream, Event, build_envelope}
use stream_analytics.Market.Stream.Refine.{IsValid, build_envelope-IsValid}
use stream_analytics.Market.Stream.History.{
  IsNew, new-IsValid, run, accepted, answer_after, build_envelope-answers, Rises, accepted-Rises,
}

abbrev stream : InstrumentStream
stream = record {
  id = record { venue = text "BINANCE"; instrument = text "BTCUSDT"; market_type = text "SPOT" };
  dedup_window = 2;
  last_seq = pos 0;
  seen = [];
  seen_ord = [];
  out_of_order_count = 0;
  duplicate_count = 0;
}

abbrev trade : ℕ → Text → Event
trade n key = record {
  event_type = text "marketdata.trade";
  version = pos 1;
  ts_exchange = pos 1;
  ts_ingest = pos 1;
  seq = pos n;
  content_type = [];
  payload = 1 ∷ [];
  source_idempotency_key = key;
}

abbrev trades : List Event
trades = trade 1 (text "a") ∷ trade 2 (text "b") ∷ trade 3 (text "a") ∷ trade 2 (text "c") ∷ []

stream-IsNew : IsNew stream
unfolding IsNew
stream-IsNew = (omega arith, refl, refl, refl)

build_envelope-answers_example :
    (build_envelope (run stream trades) (trade 4 (text "b"))).1
    ≡ answer_after stream.id 2 (accepted stream trades) (trade 4 (text "b"))
build_envelope-answers_example =
    build_envelope-answers stream trades (trade 4 (text "b")) stream-IsNew

accepted-Rises_example : Rises (pos 0) (accepted stream trades)
accepted-Rises_example =
    accepted-Rises stream trades (new-IsValid stream stream-IsNew) (omega arith)

build_envelope-IsValid_example : IsValid (build_envelope stream (trade 1 (text "a"))).0
build_envelope-IsValid_example =
    build_envelope-IsValid stream (trade 1 (text "a")) (new-IsValid stream stream-IsNew)
