-- ===== src/Delivery/Subject/RoundTrip.antt =====
-- A subject that the parser gives is parsed again from what it is printed as.
use stream_analytics.Base.{
  ◌≡◌, refl, sym, ap, subst, ◌∙◌, true, false, List, [], ◌∷◌, ◌++◌, arith, Bool-cases, inl, inr,
}
use stream_analytics.Base.Text.{Text, trim_space, to_lower, text_eq, is_empty}
use stream_analytics.Base.Text.Trim.{IsTrimmed-whole}
use stream_analytics.Envelope.{ok}
use stream_analytics.Delivery.Subject.{
  Subject, slash, split, parse_parts, parse_subject, string, kind_string, is_signal, new_subject,
  new_signal_subject, lower_trim, or_default, normalize_symbol, equal_fold, signal_stream_type,
}
use stream_analytics.Delivery.Subject.Parts.{
  IsField, IsSymbol, IsField-IsSolid, IsField-lower_trim, slash-IsSolid, tail_text,
  tail_text-IsSolid, split-tail_text, split-join, new_subject_same, signal-IsField,
  new_signal_subject_same, AllSlashFree, split-AllSlashFree, lower_trim-IsField, or_default-IsField,
  normalize_symbol-IsSymbol,
}

-- The subjects that are printed faithfully.
record IsCanonical (s : Subject) : Type 0 where
  venue : IsField s.venue
  symbol : IsSymbol s.symbol
  timeframe : IsField s.timeframe
  plain : is_signal s ≡ false → IsField s.stream_type × (s.kind ≡ [])
  signal : is_signal s ≡ true → (s.stream_type ≡ signal_stream_type) × IsField s.kind

parse-plain :
    (a v s t : Text)
    → IsField a
    → IsField v
    → IsSymbol s
    → IsField t
    → parse_subject (a ++ slash ∷ tail_text v s t)
      ≡ ok record { stream_type = a; kind = []; venue = v; symbol = s; timeframe = t }
unfolding parse_subject parse_parts
parse-plain a v s t f g k h =
    rw
      (
        IsTrimmed-whole _
            (slash-IsSolid a _ (IsField-IsSolid a f) (tail_text-IsSolid v s t g k h)).trimmed,
        split-join a (tail_text v s t) f.plain,
        split-tail_text v s t g k h,
      )
      (new_subject_same a v s t f g k h)

signal_folds : equal_fold (trim_space signal_stream_type) signal_stream_type ≡ true
unfolding equal_fold trim_space to_lower text_eq
signal_folds = refl

parse-signal :
    (a v s t : Text)
    → IsField a
    → IsField v
    → IsSymbol s
    → IsField t
    → parse_subject (signal_stream_type ++ slash ∷ (a ++ slash ∷ tail_text v s t))
      ≡ ok record {
        stream_type = signal_stream_type;
        kind = a;
        venue = v;
        symbol = s;
        timeframe = t;
      }
unfolding parse_subject parse_parts
parse-signal a v s t f g k h =
    let rest = a ++ slash ∷ tail_text v s t in
    let solid = slash-IsSolid a _ (IsField-IsSolid a f) (tail_text-IsSolid v s t g k h) in
    rw
      (
        IsTrimmed-whole _
            (slash-IsSolid signal_stream_type rest (IsField-IsSolid _ signal-IsField)
              solid).trimmed,
        split-join signal_stream_type rest signal-IsField.plain,
        split-join a (tail_text v s t) f.plain,
        split-tail_text v s t g k h,
      )
      (rw signal_folds (new_signal_subject_same a v s t f g k h))

string-plain :
    (s : Subject)
    → is_signal s ≡ false
    → string s ≡ s.stream_type ++ slash ∷ tail_text s.venue s.symbol s.timeframe
unfolding string tail_text
string-plain s e = rw e refl

string-signal :
    (s : Subject)
    → is_signal s ≡ true
    → IsField s.kind
    → string s
      ≡ signal_stream_type ++ slash ∷ (s.kind ++ slash ∷ tail_text s.venue s.symbol s.timeframe)
unfolding string tail_text kind_string
string-signal s e f = rw (e, IsField-lower_trim s.kind f, f.filled) refl

parse_subject-canonical : (s : Subject) → IsCanonical s → parse_subject (string s) ≡ ok s
parse_subject-canonical s c = elim (Bool-cases (is_signal s)) [
  | inr e ↦
      ap parse_subject (string-plain s e)
      ∙ parse-plain s.stream_type s.venue s.symbol s.timeframe (c.plain e).0 c.venue c.symbol
          c.timeframe
      ∙ ap (λ (k : Text). ok (record s { kind = k })) (sym (c.plain e).1)
  | inl e ↦
      ap parse_subject (string-signal s e (c.signal e).1)
      ∙ parse-signal s.kind s.venue s.symbol s.timeframe (c.signal e).1 c.venue c.symbol c.timeframe
      ∙ ap (λ (k : Text). ok (record s { stream_type = k })) (sym (c.signal e).0)
]

abbrev plain_subject : Text → Text → Text → Text → Subject
plain_subject a b c d = record {
  stream_type = lower_trim a;
  kind = [];
  venue = lower_trim b;
  symbol = normalize_symbol c;
  timeframe = or_default (lower_trim d);
}

abbrev signal_subject : Text → Text → Text → Text → Subject
signal_subject a b c d = record {
  stream_type = signal_stream_type;
  kind = lower_trim a;
  venue = lower_trim b;
  symbol = normalize_symbol c;
  timeframe = or_default (lower_trim d);
}

-- What a constructor that succeeds has checked.
abbrev Checked : Text → Text → Text → Type 0
Checked a b c =
    (is_empty (lower_trim a) ≡ false)
    × (is_empty (lower_trim b) ≡ false)
    × (is_empty (normalize_symbol c) ≡ false)

new_subject_ok :
    (a b c d : Text) (s : Subject)
    → new_subject a b c d ≡ ok s
    → Checked a b c × (plain_subject a b c d ≡ s)
unfolding new_subject
new_subject_ok a b c d s h = ground arith

new_signal_subject_ok :
    (a b c d : Text) (s : Subject)
    → new_signal_subject a b c d ≡ ok s
    → Checked a b c × (signal_subject a b c d ≡ s)
unfolding new_signal_subject
new_signal_subject_ok a b c d s h = ground arith

-- What the round trip asks of a subject: its symbol has no space at either end, and the subject of
-- a signal names its kind.
abbrev IsStable : Subject → Type 0
IsStable s = (trim_space s.symbol ≡ s.symbol) × (is_signal s ≡ true → is_empty s.kind ≡ false)

plain-IsCanonical :
    (a b c d : Text)
    → AllSlashFree (a ∷ b ∷ c ∷ d ∷ [])
    → Checked a b c
    → IsStable (plain_subject a b c d)
    → IsCanonical (plain_subject a b c d)
unfolding is_empty
plain-IsCanonical a b c d f k t = record {
  venue = lower_trim-IsField b f.1.0 k.1;
  symbol = normalize_symbol-IsSymbol c k.2 t.0;
  timeframe = or_default-IsField d f.1.1.1.0;
  plain = λ e. (lower_trim-IsField a f.0 k.0, refl);
  signal = λ e. absurd (cc (t.1 e));
}

signal-IsCanonical :
    (a b c d : Text)
    → AllSlashFree (a ∷ b ∷ c ∷ d ∷ [])
    → Checked a b c
    → IsStable (signal_subject a b c d)
    → IsCanonical (signal_subject a b c d)
unfolding is_signal
signal-IsCanonical a b c d f k t = record {
  venue = lower_trim-IsField b f.1.0 k.1;
  symbol = normalize_symbol-IsSymbol c k.2 t.0;
  timeframe = or_default-IsField d f.1.1.1.0;
  plain = λ e. absurd (cc (signal_folds, e));
  signal = λ e. (refl, lower_trim-IsField a f.0 k.0);
}

parse_parts-IsCanonical :
    (parts : List Text) (s : Subject)
    → AllSlashFree parts
    → parse_parts parts ≡ ok s
    → IsStable s
    → IsCanonical s
unfolding parse_parts
parse_parts-IsCanonical [] s f h t = absurd (cc h)
parse_parts-IsCanonical (a ∷ []) s f h t = absurd (cc h)
parse_parts-IsCanonical (a ∷ b ∷ []) s f h t = absurd (cc h)
parse_parts-IsCanonical (a ∷ b ∷ c ∷ []) s f h t = absurd (cc h)
parse_parts-IsCanonical (a ∷ b ∷ c ∷ d ∷ []) s f h t =
    let (k, e) = new_subject_ok a b c d s h in
    subst (λ (r : Subject). IsStable r → IsCanonical r) e (plain-IsCanonical a b c d f k) t
parse_parts-IsCanonical (a ∷ b ∷ c ∷ d ∷ e ∷ []) s f h t =
    let (k, q) = new_signal_subject_ok b c d e s (ground (arith, h)) in
    subst (λ (r : Subject). IsStable r → IsCanonical r) q (signal-IsCanonical b c d e f.1 k) t
parse_parts-IsCanonical (a ∷ b ∷ c ∷ d ∷ e ∷ g ∷ rest) s f h t = absurd (cc h)

-- Where a text parses to a subject whose symbol has no white space at either end and which names a
-- kind if it is a signal's, printing the subject and parsing it again gives the same subject.
pub parse_subject-string :
    (raw : Text) (s : Subject)
    → parse_subject raw ≡ ok s
    → trim_space s.symbol ≡ s.symbol
    → (is_signal s ≡ true → is_empty s.kind ≡ false)
    → parse_subject (string s) ≡ ok s
parse_subject-string raw s h symbol kind = parse_subject-canonical s (
    parse_parts-IsCanonical (split (trim_space raw)) s (split-AllSlashFree (trim_space raw))
      (unfold parse_subject in h) (symbol, kind))

-- Two such subjects that are printed alike are equal, so that the router's stream states, which it
-- keys by the printed subjects, are not shared between subjects.
string-injective :
    (raw raw' : Text) (s t : Subject)
    → parse_subject raw ≡ ok s
    → parse_subject raw' ≡ ok t
    → IsStable s
    → IsStable t
    → string s ≡ string t
    → s ≡ t
string-injective raw raw' s t h k p q e =
    let a = parse_subject-string raw s h p.0 p.1 in
    let b = parse_subject-string raw' t k q.0 q.1 in cc (a, b, ap parse_subject e)
