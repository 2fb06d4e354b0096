-- ===== src/Ring/Tests.antt =====
-- A ring of four slots whose three elements wrap around the end of the array.
use stream_analytics.Base.{ℕ, ◌≡◌, refl, [], ◌∷◌, arith}
use stream_analytics.Base.Slots.{erase_idx}
use stream_analytics.Ring.{Ring, IsValid, remove_at}
use stream_analytics.Ring.Contents.{contents}
use stream_analytics.Ring.Removal.{remove_at-contents}

abbrev ring : Ring ℕ
ring = record { buf = 12 ∷ 13 ∷ 0 ∷ 11 ∷ []; head = 3; count = 3; cap = 4 }

ring-IsValid : IsValid ring
ring-IsValid = record {
  positive = omega arith;
  sized = refl;
  headed = omega arith;
  counted = omega arith;
}

remove_at-contents_example : contents 0 (remove_at 0 ring 1) ≡ erase_idx 1 (contents 0 ring)
remove_at-contents_example = remove_at-contents 0 ring 1 ring-IsValid (omega arith)
