-- ===== src/Delivery/Subject/Tests.antt =====
-- The round trip at a signal's subject, and subjects outside its conditions.
use stream_analytics.Base.{◌≡◌, refl, true, false, []}
use stream_analytics.Base.Text.{Text, text, trim_space, to_lower, to_upper, text_eq, is_empty}
use stream_analytics.Market.Stream.{strip_separators}
use stream_analytics.Envelope.{ok}
use stream_analytics.Delivery.Subject.{
  Subject, parse_subject, parse_parts, split, string, is_signal, new_subject, new_signal_subject,
  lower_trim, or_default, normalize_symbol, canonical_instrument, equal_fold, kind_string,
}
use stream_analytics.Delivery.Subject.RoundTrip.{parse_subject-string}

abbrev raw_signal : Text
raw_signal = text " Signal/Momentum/BINANCE/btc-usdt/ "

abbrev momentum : Subject
momentum = record {
  stream_type = text "signal";
  kind = text "momentum";
  venue = text "binance";
  symbol = text "BTCUSDT";
  timeframe = text "raw";
}

parses_signal : parse_subject raw_signal ≡ ok momentum
unfolding parse_subject parse_parts split new_signal_subject lower_trim or_default normalize_symbol
    canonical_instrument equal_fold trim_space to_lower to_upper text_eq is_empty strip_separators
parses_signal = refl

prints_signal : string momentum ≡ text "signal/momentum/binance/BTCUSDT/raw"
unfolding string is_signal kind_string lower_trim equal_fold trim_space to_lower text_eq is_empty
prints_signal = refl

momentum_trimmed : trim_space momentum.symbol ≡ momentum.symbol
unfolding trim_space
momentum_trimmed = refl

momentum_kind : is_signal momentum ≡ true → is_empty momentum.kind ≡ false
unfolding is_empty
momentum_kind h = refl

parse_subject-string_example : parse_subject (string momentum) ≡ ok momentum
parse_subject-string_example =
    parse_subject-string raw_signal momentum parses_signal momentum_trimmed momentum_kind

-- A signal's subject of four parts has no kind, and is printed with one.
abbrev kindless : Subject
kindless = record {
  stream_type = text "signal";
  kind = [];
  venue = text "binance";
  symbol = text "BTCUSDT";
  timeframe = text "raw";
}

parses_kindless : parse_subject (text "signal/binance/BTCUSDT/raw") ≡ ok kindless
unfolding parse_subject parse_parts split new_subject lower_trim or_default normalize_symbol
    canonical_instrument trim_space to_lower to_upper text_eq is_empty strip_separators
parses_kindless = refl

prints_kindless : string kindless ≡ text "signal/unknown/binance/BTCUSDT/raw"
unfolding string is_signal kind_string lower_trim equal_fold trim_space to_lower text_eq is_empty
prints_kindless = refl

-- The normal form of a symbol may have another.
normalizes_once : normalize_symbol (text "- BTC") ≡ text " BTC"
unfolding normalize_symbol canonical_instrument trim_space to_upper strip_separators
normalizes_once = refl

normalizes_again : normalize_symbol (text " BTC") ≡ text "BTC"
unfolding normalize_symbol canonical_instrument trim_space to_upper strip_separators
normalizes_again = refl
