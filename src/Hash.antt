-- ===== src/Hash.antt =====
-- internal/shared/hash/hash.go: the FNV-1a hashes of 64 bits. A string is the list of its bytes, and
-- a product of `uint64` is taken modulo 2^64. The SHA-256 functions and the hash of floats are not
-- modelled.
pub mod Fnv
mod Tests
use Prim.Native.Nat.{bit_xor}
use stream_analytics.Base.{
  ℕ, zero, suc, ◌+◌, ◌-◌, ◌*◌, ◌/◌, ◌%◌, ◌^◌, Bool, true, false, List, [], ◌∷◌, ◌++◌, ltb, ◌==◌,
  if◌then◌else◌,
}
use stream_analytics.Base.Int.{ℤ, pos, negsuc}
use stream_analytics.Base.Text.{Text}

abbrev pub fnv64a_offset : ℕ
fnv64a_offset = 14695981039346656037

abbrev pub fnv64a_prime : ℕ
fnv64a_prime = 1099511628211

-- `h ^= b` and `h *= fnv64aPrime`.
unfoldable pub mix : ℕ → ℕ → ℕ
mix h b = bit_xor h b * fnv64a_prime % 2 ^ 64

-- The inner loop over the bytes of a field.
unfoldable pub mix_bytes : ℕ → List ℕ → ℕ
mix_bytes h [] = h
mix_bytes h (b ∷ bs) = mix_bytes (mix h b) bs

-- The outer loop after the first field, each with the separator before it.
unfoldable pub mix_fields : ℕ → List Text → ℕ
mix_fields h [] = h
mix_fields h (f ∷ fs) = mix_fields (mix_bytes (mix h 0) f) fs

unfoldable pub mix_first : ℕ → List Text → ℕ
mix_first h [] = h
mix_first h (f ∷ fs) = mix_fields (mix_bytes h f) fs

unfoldable pub sum_fields_fast64 : List Text → ℕ
sum_fields_fast64 fs = mix_first fnv64a_offset fs

-- `uint64(v)` of an `int64`.
unfoldable pub uint64 : ℤ → ℕ
uint64 (pos n) = n % 2 ^ 64
uint64 (negsuc n) = 2 ^ 64 - 1 - n % 2 ^ 64

-- The eight mixing steps of the sequence number, from the highest byte to the lowest.
unfoldable pub mix_uint64 : ℕ → ℕ → ℕ
mix_uint64 h u =
    let h = mix h (u / 2 ^ 56 % 256) in
    let h = mix h (u / 2 ^ 48 % 256) in
    let h = mix h (u / 2 ^ 40 % 256) in
    let h = mix h (u / 2 ^ 32 % 256) in
    let h = mix h (u / 2 ^ 24 % 256) in
    let h = mix h (u / 2 ^ 16 % 256) in let h = mix h (u / 2 ^ 8 % 256) in mix h (u % 256)

unfoldable pub sum_idempotency_key_fast64 : Text → Text → Text → ℤ → ℕ
sum_idempotency_key_fast64 venue instrument event_type seq =
    mix_uint64 (mix (mix_first fnv64a_offset (venue ∷ instrument ∷ event_type ∷ [])) 0) (uint64 seq)

-- The character of a hexadecimal digit.
hex_digit : ℕ → ℕ
hex_digit d = if ltb d 10 then 48 + d else 87 + d

-- `strconv.FormatUint(u, 16)`, with `rounds` digits at most before the last.
format_hex : ℕ → ℕ → Text
unfolding hex_digit
format_hex zero u = hex_digit (u % 16) ∷ []
format_hex (suc rounds) u =
    let rest = format_hex rounds (u / 16) in
    if u / 16 == 0 then hex_digit (u % 16) ∷ [] else rest ++ hex_digit (u % 16) ∷ []

-- 15 digits before the last are enough for 64 bits.
unfoldable pub idempotency_key_fast : Text → Text → Text → ℤ → Text
unfolding format_hex
idempotency_key_fast venue instrument event_type seq =
    format_hex 15 (sum_idempotency_key_fast64 venue instrument event_type seq)
