-- ===== src/Delivery/Subject.antt =====
-- internal/core/delivery/domain/subject.go: the routing key of delivered events, its parser and its
-- printer; `CanonicalInstrument` of internal/shared/naming/naming.go, and the contract check of
-- internal/core/delivery/domain/envelope_policy.go. Messages of problems are left out.
-- `equal_fold` compares as `strings.EqualFold` does for a text of ASCII letters.
pub mod Parts
pub mod RoundTrip
mod Tests
use stream_analytics.Base.{
  ℕ, Bool, true, false, not, ◌&&◌, ◌||◌, List, [], ◌∷◌, ◌++◌, Option, none, some, ◌==◌,
  if◌then◌else◌,
}
use stream_analytics.Base.Int.{ℤ, pos, eq_ℤ}
use stream_analytics.Base.Text.{
  Text, text, text_eq, text_key, trim_space, to_lower, to_upper, is_empty,
}
use stream_analytics.Base.Assoc.{lookup}
use stream_analytics.Envelope.{
  Problem, validation_failed, Result, ok, err, ◌>>=◌, refuse_if, ◌>>◌, Envelope,
}
use stream_analytics.Market.Stream.{strip_separators}

abbrev pub slash : ℕ
slash = 47

pub record Subject : Type 0 where
  pub stream_type : Text
  pub kind : Text
  pub venue : Text
  pub symbol : Text
  pub timeframe : Text

-- `==` on subjects.
unfoldable pub subject_eq : Subject → Subject → Bool
subject_eq s t =
    text_eq s.stream_type t.stream_type
    && (text_eq s.kind t.kind
        && (text_eq s.venue t.venue
            && (text_eq s.symbol t.symbol && text_eq s.timeframe t.timeframe)))

-- U+017F and U+212A fold to ASCII letters.
fold : Text → Text
fold [] = []
fold (c ∷ s) = (if c == 0x17F then b's' else if c == 0x212A then b'k' else c) ∷ fold s

unfoldable pub equal_fold : Text → Text → Bool
unfolding fold
equal_fold s t = text_eq (to_lower (fold s)) (to_lower (fold t))

abbrev pub signal_stream_type : Text
signal_stream_type = text "signal"

abbrev pub unknown_signal_subject_kind : Text
unknown_signal_subject_kind = text "unknown"

abbrev pub default_timeframe : Text
default_timeframe = text "raw"

unfoldable pub canonical_instrument : Text → Text
canonical_instrument instrument = strip_separators (to_upper (trim_space instrument))

unfoldable pub normalize_symbol : Text → Text
normalize_symbol raw = canonical_instrument raw

pub is_instrument_symbol_equivalent : Text → Text → Bool
is_instrument_symbol_equivalent symbol instrument =
    text_eq (normalize_symbol symbol) (normalize_symbol instrument)

-- `strings.ToLower(strings.TrimSpace(s))`.
unfoldable pub lower_trim : Text → Text
lower_trim s = to_lower (trim_space s)

unfoldable pub or_default : Text → Text
or_default tf = if is_empty tf then default_timeframe else tf

unfoldable pub new_subject : Text → Text → Text → Text → Result Subject
new_subject stream_type venue symbol timeframe = do
  refuse_if (is_empty (lower_trim stream_type)) validation_failed
  refuse_if (is_empty (lower_trim venue)) validation_failed
  refuse_if (is_empty (normalize_symbol symbol)) validation_failed
  ok record {
    stream_type = lower_trim stream_type;
    kind = [];
    venue = lower_trim venue;
    symbol = normalize_symbol symbol;
    timeframe = or_default (lower_trim timeframe);
  }

unfoldable pub new_signal_subject : Text → Text → Text → Text → Result Subject
new_signal_subject kind venue symbol timeframe = do
  refuse_if (is_empty (lower_trim kind)) validation_failed
  refuse_if (is_empty (lower_trim venue)) validation_failed
  refuse_if (is_empty (normalize_symbol symbol)) validation_failed
  ok record {
    stream_type = signal_stream_type;
    kind = lower_trim kind;
    venue = lower_trim venue;
    symbol = normalize_symbol symbol;
    timeframe = or_default (lower_trim timeframe);
  }

-- `strings.Split(s, "/")`, which gives at least one part.
add_to_first : ℕ → List Text → List Text
add_to_first c [] = (c ∷ []) ∷ []
add_to_first c (part ∷ parts) = (c ∷ part) ∷ parts

unfoldable pub split : Text → List Text
unfolding add_to_first
split [] = [] ∷ []
split (c ∷ s) = let rest = split s in if c == slash then [] ∷ rest else add_to_first c rest

-- What `ParseSubject` does with the parts.
unfoldable pub parse_parts : List Text → Result Subject
parse_parts (a ∷ b ∷ c ∷ d ∷ []) = new_subject a b c d
parse_parts (a ∷ b ∷ c ∷ d ∷ e ∷ []) =
    if equal_fold (trim_space a) signal_stream_type
    then new_signal_subject b c d e
    else err validation_failed
parse_parts _ = err validation_failed

unfoldable pub parse_subject : Text → Result Subject
parse_subject raw = parse_parts (split (trim_space raw))

unfoldable pub is_signal : Subject → Bool
is_signal s = equal_fold (trim_space s.stream_type) signal_stream_type

unfoldable pub kind_string : Subject → Text
kind_string s =
    if is_empty (lower_trim s.kind) then unknown_signal_subject_kind else lower_trim s.kind

-- `Subject.String`.
unfoldable pub string : Subject → Text
string s =
    if is_signal s
    then signal_stream_type
      ++ slash ∷ (kind_string s ++ slash ∷ (s.venue ++ slash ∷ (s.symbol ++ slash ∷ s.timeframe)))
    else s.stream_type ++ slash ∷ (s.venue ++ slash ∷ (s.symbol ++ slash ∷ s.timeframe))

-- `env.Meta[key]`, empty where the key is missing.
unfoldable pub meta_at : Text → List (Text × Text) → Text
meta_at key meta = elim (lookup key meta) [ none ↦ [] | some v ↦ v ]

unfoldable pub envelope_kind : Envelope → Text
envelope_kind env =
    let kind = lower_trim (meta_at (text "kind") env.meta) in
    if is_empty kind then unknown_signal_subject_kind else kind

unfoldable pub is_signal_event_type : Text → Bool
is_signal_event_type event_type =
    text_eq (lower_trim event_type) (text "signal.composite")
    || text_eq (lower_trim event_type) (text "signal.event")

unfoldable pub subject_from_envelope : Envelope → Text → Result Subject
subject_from_envelope env timeframe =
    if is_signal_event_type env.event_type
    then new_signal_subject (envelope_kind env) env.venue env.instrument timeframe
    else new_subject env.event_type env.venue env.instrument timeframe

pub timeframe_from_envelope_meta : Envelope → Text → Text
timeframe_from_envelope_meta env fallback =
    let tf = trim_space (meta_at (text "timeframe") env.meta) in
    if is_empty tf then fallback else tf
