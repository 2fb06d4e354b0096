-- ===== src/Hash/Fnv.antt =====
-- The hashes of internal/shared/hash/hash.go against FNV-1a on one string of bytes.
use stream_analytics.Base.{ℕ, ◌/◌, ◌%◌, ◌^◌, ◌≡◌, refl, sym, ◌∙◌, List, [], ◌∷◌, ◌++◌}
use stream_analytics.Base.Int.{ℤ}
use stream_analytics.Base.Text.{Text}
use stream_analytics.Hash.{
  fnv64a_offset, mix, mix_bytes, mix_fields, mix_first, sum_fields_fast64, uint64, mix_uint64,
  sum_idempotency_key_fast64,
}

-- FNV-1a on 64 bits.
unfoldable pub fnv1a : List ℕ → ℕ
fnv1a bs = mix_bytes fnv64a_offset bs

-- Each field with a zero byte before it.
unfoldable pub separated : List Text → List ℕ
separated [] = []
separated (f ∷ fs) = 0 ∷ f ++ separated fs

-- The fields with a zero byte between them.
unfoldable pub joined : List Text → List ℕ
joined [] = []
joined (f ∷ fs) = f ++ separated fs

-- The eight bytes of a number, the highest first.
unfoldable pub big_endian : ℕ → List ℕ
big_endian u =
    u / 2 ^ 56 % 256
    ∷ u / 2 ^ 48 % 256
    ∷ u / 2 ^ 40 % 256
    ∷ u / 2 ^ 32 % 256
    ∷ u / 2 ^ 24 % 256
    ∷ u / 2 ^ 16 % 256
    ∷ u / 2 ^ 8 % 256
    ∷ u % 256
    ∷ []

mix_bytes-append : (h : ℕ) (xs ys : List ℕ) → mix_bytes h (xs ++ ys) ≡ mix_bytes (mix_bytes h xs) ys
unfolding mix_bytes
mix_bytes-append h [] ys = refl
mix_bytes-append h (x ∷ xs) ys = mix_bytes-append (mix h x) xs ys

mix_fields_lem : (h : ℕ) (fs : List Text) → mix_fields h fs ≡ mix_bytes h (separated fs)
unfolding mix_fields mix_bytes separated
mix_fields_lem h [] = refl
mix_fields_lem h (f ∷ fs) =
    mix_fields_lem (mix_bytes (mix h 0) f) fs ∙ sym (mix_bytes-append (mix h 0) f (separated fs))

mix_first_lem : (h : ℕ) (fs : List Text) → mix_first h fs ≡ mix_bytes h (joined fs)
unfolding mix_first joined
mix_first_lem h [] = unfold mix_bytes in refl
mix_first_lem h (f ∷ fs) =
    mix_fields_lem (mix_bytes h f) fs ∙ sym (mix_bytes-append h f (separated fs))

-- `SumFieldsFast64` is FNV-1a of the fields joined by zero bytes.
pub sum_fields_fast64-eq-fnv1a : (fs : List Text) → sum_fields_fast64 fs ≡ fnv1a (joined fs)
unfolding sum_fields_fast64 fnv1a
sum_fields_fast64-eq-fnv1a fs = mix_first_lem fnv64a_offset fs

-- `SumIdempotencyKeyFast64` is FNV-1a of the three fields and the eight bytes of the number, joined
-- by zero bytes, which is the hash that `SumFieldsFast64` gives to the four byte strings.
pub sum_idempotency_key-eq-sum_fields :
    (venue instrument event_type : Text) (seq : ℤ)
    → let fields = venue ∷ instrument ∷ event_type ∷ big_endian (uint64 seq) ∷ [] in
      (sum_idempotency_key_fast64 venue instrument event_type seq ≡ fnv1a (joined fields))
      × (sum_idempotency_key_fast64 venue instrument event_type seq ≡ sum_fields_fast64 fields)
unfolding sum_idempotency_key_fast64 sum_fields_fast64 mix_first mix_fields mix_uint64 big_endian
    mix_bytes
sum_idempotency_key-eq-sum_fields venue instrument event_type seq =
    (sum_fields_fast64-eq-fnv1a _, refl)
