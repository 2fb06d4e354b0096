-- ===== src/Delivery/Subject/Parts.antt =====
-- The parts of a subject as the constructors leave them, and the splitting of a text at slashes.
use stream_analytics.Base.{
  ℕ, ◌≡◌, refl, ap, true, false, List, [], ◌∷◌, ◌++◌, arith, ◌==◌, Bool-cases, inl, inr,
}
use stream_analytics.Base.Text.{Text, text, trim_space, to_lower, to_upper, is_empty}
use stream_analytics.Base.Text.Trim.{
  all, all-trim_space, IsTrimmed, IsTrimmed-whole, whole-IsTrimmed, trim_space-IsTrimmed,
  join-IsTrimmed,
}
use stream_analytics.Base.Text.Case.{
  no_slash, no_slash-to_lower, to_lower-IsTrimmed, to_lower_twice, to_upper_twice,
}
use stream_analytics.Market.Stream.{is_separator, strip_separators}
use stream_analytics.Envelope.{ok}
use stream_analytics.Delivery.Subject.{
  slash, split, add_to_first, new_subject, new_signal_subject, lower_trim, or_default,
  normalize_symbol, canonical_instrument, signal_stream_type,
}

to_upper-strip : (s : Text) → to_upper (strip_separators s) ≡ strip_separators (to_upper s)
unfolding to_upper strip_separators is_separator
to_upper-strip [] = refl
to_upper-strip (c ∷ s) = ground (arith, to_upper-strip s)

strip_twice : (s : Text) → strip_separators (strip_separators s) ≡ strip_separators s
unfolding strip_separators
strip_twice [] = refl
strip_twice (c ∷ s) = elim (Bool-cases (is_separator c)) [
  | inl e ↦ rw e (strip_twice s)
  | inr e ↦ rw (e, e) (ap (λ (t : Text). c ∷ t) (strip_twice s))
]

no_slash-strip : (s : Text) → all no_slash (strip_separators s) ≡ true
unfolding strip_separators is_separator
no_slash-strip [] = refl
no_slash-strip (c ∷ s) = ground (arith, no_slash-strip s)

normalize_symbol_twice :
    (s : Text)
    → trim_space (normalize_symbol s) ≡ normalize_symbol s
    → normalize_symbol (normalize_symbol s) ≡ normalize_symbol s
unfolding normalize_symbol canonical_instrument
normalize_symbol_twice s h =
    rw (h, to_upper-strip (to_upper (trim_space s)), to_upper_twice (trim_space s))
      (strip_twice (to_upper (trim_space s)))

is_empty-append : (s t : Text) → is_empty s ≡ false → is_empty (s ++ t) ≡ false
unfolding is_empty
is_empty-append [] t h = absurd (cc h)
is_empty-append (c ∷ s) t h = refl

-- `split` at a slash.
abbrev pub AllSlashFree : List Text → Type 0
AllSlashFree [] = Unit
AllSlashFree (s ∷ ss) = (all no_slash s ≡ true) × AllSlashFree ss

add_to_first-AllSlashFree :
    (c : ℕ) (ss : List Text)
    → no_slash c ≡ true
    → AllSlashFree ss
    → AllSlashFree (add_to_first c ss)
unfolding add_to_first
add_to_first-AllSlashFree c [] h k = (ground (arith, h), tt)
add_to_first-AllSlashFree c (s ∷ ss) h k = (rw (h, k.0) refl, k.1)

pub split-AllSlashFree : (s : Text) → AllSlashFree (split s)
unfolding split
split-AllSlashFree [] = (refl, tt)
split-AllSlashFree (c ∷ s) = elim (Bool-cases (c == slash)) [
  | inl e ↦ rw e (refl, split-AllSlashFree s)
  | inr e ↦ rw e (add_to_first-AllSlashFree c (split s) (rw e refl) (split-AllSlashFree s))
]

pub split-join : (s t : Text) → all no_slash s ≡ true → split (s ++ slash ∷ t) ≡ s ∷ split t
unfolding split add_to_first
split-join [] t h = refl
split-join (c ∷ s) t h = elim (Bool-cases (c == slash)) [
  | inl e ↦ absurd (ground (arith, h, e))
  | inr e ↦ rw (e, split-join s t (ground (arith, h))) refl
]

split_last : (s : Text) → all no_slash s ≡ true → split s ≡ s ∷ []
unfolding split add_to_first
split_last [] h = refl
split_last (c ∷ s) h = elim (Bool-cases (c == slash)) [
  | inl e ↦ absurd (ground (arith, h, e))
  | inr e ↦ rw (e, split_last s (ground (arith, h))) refl
]

-- A part of a subject other than its symbol, as the constructors leave it.
pub record IsField (s : Text) : Type 0 where
  pub filled : is_empty s ≡ false
  pub trimmed : IsTrimmed s
  pub lowered : to_lower s ≡ s
  pub plain : all no_slash s ≡ true

pub lower_trim-IsField :
    (s : Text) → all no_slash s ≡ true → is_empty (lower_trim s) ≡ false → IsField (lower_trim s)
unfolding lower_trim
lower_trim-IsField s h n = record {
  filled = n;
  trimmed = to_lower-IsTrimmed (trim_space s) (trim_space-IsTrimmed s);
  lowered = to_lower_twice (trim_space s);
  plain = no_slash-to_lower (trim_space s) (all-trim_space no_slash s h);
}

pub IsField-lower_trim : (s : Text) → IsField s → lower_trim s ≡ s
unfolding lower_trim
IsField-lower_trim s f = rw (IsTrimmed-whole s f.trimmed) f.lowered

raw-IsField : IsField (text "raw")
unfolding trim_space to_lower is_empty
raw-IsField = record {
  filled = refl;
  trimmed = whole-IsTrimmed (text "raw") refl;
  lowered = refl;
  plain = refl;
}

pub or_default-IsField : (s : Text) → all no_slash s ≡ true → IsField (or_default (lower_trim s))
unfolding or_default
or_default-IsField s h = elim (Bool-cases (is_empty (lower_trim s))) [
  | inl e ↦ rw e raw-IsField
  | inr e ↦ rw e (lower_trim-IsField s h e)
]

or_default_filled : (s : Text) → is_empty s ≡ false → or_default s ≡ s
unfolding or_default
or_default_filled s h = rw h refl

pub record IsSymbol (s : Text) : Type 0 where
  pub filled : is_empty s ≡ false
  pub trimmed : IsTrimmed s
  pub stable : normalize_symbol s ≡ s
  pub plain : all no_slash s ≡ true

pub normalize_symbol-IsSymbol :
    (s : Text)
    → is_empty (normalize_symbol s) ≡ false
    → trim_space (normalize_symbol s) ≡ normalize_symbol s
    → IsSymbol (normalize_symbol s)
normalize_symbol-IsSymbol s n h = record {
  filled = n;
  trimmed = whole-IsTrimmed (normalize_symbol s) h;
  stable = normalize_symbol_twice s h;
  plain = unfold normalize_symbol canonical_instrument in no_slash-strip (to_upper (trim_space s));
}

-- The constructors on parts that they leave as they are.
pub new_subject_same :
    (a b c d : Text)
    → IsField a
    → IsField b
    → IsSymbol c
    → IsField d
    → new_subject a b c d
      ≡ ok record { stream_type = a; kind = []; venue = b; symbol = c; timeframe = d }
unfolding new_subject
new_subject_same a b c d f g k t =
    rw
      (
        IsField-lower_trim a f,
        IsField-lower_trim b g,
        k.stable,
        IsField-lower_trim d t,
        f.filled,
        g.filled,
        k.filled,
        or_default_filled d t.filled,
      )
      refl

pub new_signal_subject_same :
    (a b c d : Text)
    → IsField a
    → IsField b
    → IsSymbol c
    → IsField d
    → new_signal_subject a b c d
      ≡ ok record {
        stream_type = signal_stream_type;
        kind = a;
        venue = b;
        symbol = c;
        timeframe = d;
      }
unfolding new_signal_subject
new_signal_subject_same a b c d f g k t =
    rw
      (
        IsField-lower_trim a f,
        IsField-lower_trim b g,
        k.stable,
        IsField-lower_trim d t,
        f.filled,
        g.filled,
        k.filled,
        or_default_filled d t.filled,
      )
      refl

pub signal-IsField : IsField signal_stream_type
unfolding trim_space to_lower is_empty
signal-IsField = record {
  filled = refl;
  trimmed = whole-IsTrimmed (text "signal") refl;
  lowered = refl;
  plain = refl;
}

pub record IsSolid (s : Text) : Type 0 where
  pub filled : is_empty s ≡ false
  pub trimmed : IsTrimmed s

pub slash-IsSolid : (s t : Text) → IsSolid s → IsSolid t → IsSolid (s ++ slash ∷ t)
slash-IsSolid s t h k = record {
  filled = is_empty-append s (slash ∷ t) h.filled;
  trimmed = join-IsTrimmed s (slash ∷ []) t h.filled k.filled h.trimmed k.trimmed;
}

pub IsField-IsSolid : (s : Text) → IsField s → IsSolid s
IsField-IsSolid s f = record { filled = f.filled; trimmed = f.trimmed }

IsSymbol-IsSolid : (s : Text) → IsSymbol s → IsSolid s
IsSymbol-IsSolid s f = record { filled = f.filled; trimmed = f.trimmed }

unfoldable pub tail_text : Text → Text → Text → Text
tail_text v s t = v ++ slash ∷ (s ++ slash ∷ t)

pub tail_text-IsSolid :
    (v s t : Text) → IsField v → IsSymbol s → IsField t → IsSolid (tail_text v s t)
unfolding tail_text
tail_text-IsSolid v s t f g h =
    slash-IsSolid v (s ++ slash ∷ t) (IsField-IsSolid v f)
      (slash-IsSolid s t (IsSymbol-IsSolid s g) (IsField-IsSolid t h))

pub split-tail_text :
    (v s t : Text) → IsField v → IsSymbol s → IsField t → split (tail_text v s t) ≡ v ∷ s ∷ t ∷ []
unfolding tail_text
split-tail_text v s t f g h =
    rw (split-join v (s ++ slash ∷ t) f.plain, split-join s t g.plain, split_last t h.plain) refl
