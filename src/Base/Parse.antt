-- ===== src/Base/Parse.antt =====
-- `strconv.ParseInt(s, 10, 64)`: an optional sign and at least one digit, within the range of int64.
use stream_analytics.Base.{
  ℕ, ◌+◌, ◌-◌, ◌*◌, ◌^◌, ◌&&◌, Option, none, some, [], ◌∷◌, leb, ltb, ◌==◌, if◌then◌else◌,
}
use stream_analytics.Base.Int.{ℤ, pos, sub_ℕ}
use stream_analytics.Base.Text.{Text}

digits : Text → ℕ → Option ℕ
digits [] n = some n
digits (c ∷ s) n =
    let rest = digits s (n * 10 + (c - b'0')) in if leb b'0' c && leb c b'9' then rest else none

unsigned : Text → Option ℕ
unsigned [] = none
unsigned (c ∷ s) = digits (c ∷ s) 0

negated : Option ℕ → Option ℤ
negated none = none
negated (some n) = if leb n (2 ^ 63) then some (sub_ℕ 0 n) else none

positive : Option ℕ → Option ℤ
positive none = none
positive (some n) = if ltb n (2 ^ 63) then some (pos n) else none

unfoldable pub parse_int64 : Text → Option ℤ
unfolding digits unsigned negated positive
parse_int64 [] = none
parse_int64 (c ∷ s) =
    if c == b'-'
    then negated (unsigned s)
    else if c == b'+'
    then positive (unsigned s)
    else positive (unsigned (c ∷ s))
