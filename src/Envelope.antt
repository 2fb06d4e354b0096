-- ===== src/Envelope.antt =====
-- internal/shared/envelope/envelope.go and the problem codes of internal/shared/problem/problem.go.
-- A problem is modelled by its code; its message, details and cause are not.
use stream_analytics.Base.{ℕ, Bool, List, if◌then◌else◌}
use stream_analytics.Base.Int.{ℤ, pos, ltb_ℤ, leb_ℤ}
use stream_analytics.Base.Text.{Text, text, text_eq, trim_space, to_lower, is_empty}
use stream_analytics.Base.Assoc.{insert}
use stream_analytics.Base.Text.{text_key}

pub data Problem : Type 0 where
  validation_failed invalid_argument not_found conflict internal unavailable : Problem
  out_of_order duplicate integrity_violation : Problem

-- A pair of a value and a `*problem.Problem` of which one is nil.
pub data Result {ℓ} (A : Type ℓ) : Type ℓ where
  ok : A → Result A
  err : Problem → Result A

infixl 5 ◌>>=◌
abbrev pub ◌>>=◌ {ℓ κ} : {A : Type ℓ} {B : Type κ} → Result A → (A → Result B) → Result B
ok a >>= f = f a
err p >>= f = err p

infixl 5 ◌>>◌
abbrev pub ◌>>◌ {ℓ} : {B : Type ℓ} → Result (Unit {0}) → Result B → Result B
m >> k = m >>= λ _. k

-- `if bad { return problem }`.
abbrev pub refuse_if : Bool → Problem → Result (Unit {0})
refuse_if bad p = if bad then err p else ok tt

pub record Envelope : Type 0 where
  pub event_type : Text
  pub version : ℤ
  pub venue : Text
  pub instrument : Text
  pub ts_exchange : ℤ
  pub ts_ingest : ℤ
  pub seq : ℤ
  pub idempotency_key : Text
  pub content_type : Text
  pub meta : List (Text × Text)
  pub payload : List ℕ

is_blank : Text → Bool
is_blank s = is_empty (trim_space s)

abbrev pub content_type_json : Text
content_type_json = text "application/json"

abbrev pub content_type_proto : Text
content_type_proto = text "application/protobuf"

unfoldable pub normalize_content_type : Text → Result Text
normalize_content_type content_type =
    let s = to_lower (trim_space content_type) in
    if is_empty s
    then ok content_type_json
    else if text_eq s content_type_json
    then ok content_type_json
    else if text_eq s content_type_proto
    then ok content_type_proto
    else err validation_failed

-- `Validate`, which also writes the normalised content type back.
unfoldable pub validate : Envelope → Result Envelope
unfolding is_blank
validate e = do
  refuse_if (is_blank e.event_type) validation_failed
  refuse_if (ltb_ℤ e.version (pos 1)) validation_failed
  refuse_if (is_blank e.venue) validation_failed
  refuse_if (is_blank e.instrument) validation_failed
  refuse_if (leb_ℤ e.ts_ingest (pos 0)) validation_failed
  refuse_if (ltb_ℤ e.seq (pos 0)) validation_failed
  refuse_if (is_blank e.idempotency_key) validation_failed
  content_type ← normalize_content_type e.content_type
  refuse_if (is_empty e.payload) validation_failed
  ok (record e { content_type = content_type })

unfoldable pub with_meta : Envelope → Text → Text → Envelope
with_meta e key value = record e { meta = insert key value e.meta }
