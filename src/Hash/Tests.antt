-- ===== src/Hash/Tests.antt =====
-- Tests of the hashes.
use stream_analytics.Base.{◌≡◌, refl, [], ◌∷◌}
use stream_analytics.Base.Int.{pos}
use stream_analytics.Base.Text.{text}
use stream_analytics.Hash.{
  sum_fields_fast64, sum_idempotency_key_fast64, uint64, mix_first, mix_fields, mix_bytes, mix,
}
use stream_analytics.Hash.Fnv.{
  sum_idempotency_key-eq-sum_fields, sum_fields_fast64-eq-fnv1a, big_endian, joined, fnv1a,
}

-- The published FNV-1a value of "a".
sum_fields_a : sum_fields_fast64 (text "a" ∷ []) ≡ 0xaf63dc4c8601ec8c
unfolding sum_fields_fast64 mix_first mix_fields mix_bytes mix
sum_fields_a = refl

sum_fields_fast64-eq-fnv1a_example :
    sum_fields_fast64 (text "ab" ∷ text "c" ∷ []) ≡ fnv1a (joined (text "ab" ∷ text "c" ∷ []))
sum_fields_fast64-eq-fnv1a_example = sum_fields_fast64-eq-fnv1a (text "ab" ∷ text "c" ∷ [])

sum_idempotency_key-eq-sum_fields_example :
    let fields =
      text "BINANCE"
      ∷ text "BTCUSDT"
      ∷ text "marketdata.trade"
      ∷ big_endian (uint64 (pos 7))
      ∷ [] in
    (sum_idempotency_key_fast64 (text "BINANCE") (text "BTCUSDT") (text "marketdata.trade") (pos 7)
      ≡ fnv1a (joined fields))
    × (sum_idempotency_key_fast64
          (text "BINANCE")
          (text "BTCUSDT")
          (text "marketdata.trade")
          (pos 7)
        ≡ sum_fields_fast64 fields)
sum_idempotency_key-eq-sum_fields_example =
    sum_idempotency_key-eq-sum_fields (text "BINANCE") (text "BTCUSDT") (text "marketdata.trade")
      (pos 7)
