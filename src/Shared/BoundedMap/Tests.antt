-- ===== src/Shared/BoundedMap/Tests.antt =====
-- A map for two entries that gets three.
use stream_analytics.Base.{refl, List, [], ◌∷◌, true, arith, some, ◌≡◌}
use stream_analytics.Base.Int.{pos}
use stream_analytics.Base.Text.{Text, text, text_key, text_eq}
use stream_analytics.Base.Assoc.{lookup, Distinct}
use stream_analytics.Base.Nested.{is_some}
use stream_analytics.Shared.BoundedMap.{get, put, BoundedMap}
use stream_analytics.Shared.BoundedMap.Stored.{get-put}
use stream_analytics.Shared.BoundedMap.Valid.{IsValid}
use stream_analytics.Shared.BoundedMap.Bounded.{Call, gets, puts, calls, calls-IsValid}

abbrev empty : BoundedMap Text Text
empty = record {
  max_size = 2;
  ttl = pos 10;
  items = [];
  lru = [];
  has_on_evict = true;
  op_count = 0;
  sweep_every_ops = 0;
  sweep_min_interval = pos 5;
  last_sweep = 0;
}

empty-IsValid : IsValid empty
unfolding lookup is_some
empty-IsValid = record {
  positive = omega arith;
  same = λ k. refl;
  once = tt;
  bounded = omega arith;
}

-- The use of `a` leaves `b` at the back.
abbrev three : List (Call Text Text)
three =
    puts 1 (text "a") (text "x")
    ∷ puts 2 (text "b") (text "y")
    ∷ gets 3 (text "a")
    ∷ puts 4 (text "c") (text "z")
    ∷ []

calls-IsValid_example : IsValid (calls Text Text empty three)
calls-IsValid_example = calls-IsValid Text Text empty three empty-IsValid

abbrev full : BoundedMap Text Text
full = record empty {
  items =
      (text "a", record { value = text "x"; expires_at = some 11 })
      ∷ (text "b", record { value = text "y"; expires_at = some 12 })
      ∷ [];
  lru = (text "a", tt) ∷ (text "b", tt) ∷ [];
}

full-Distinct : Distinct full.items
unfolding lookup text_eq
full-Distinct = (refl, (refl, tt))

get-put_example :
    (get Text Text 13 (text "c") (put Text Text 4 (text "c") (text "z") full).0).1 ≡ some (text "z")
get-put_example = get-put Text Text 4 13 (text "c") (text "z") full full-Distinct
