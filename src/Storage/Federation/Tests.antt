-- ===== src/Storage/Federation/Tests.antt =====
-- Two results that share a window.
use stream_analytics.Base.{ℕ, ◌≡◌, refl, List, [], ◌∷◌}
use stream_analytics.Base.Int.{ℤ, pos}
use stream_analytics.Base.Assoc.{lookup, insert}
use stream_analytics.Base.Nested.{is_some, is_nil}
use stream_analytics.Storage.Federation.{
  merge_by_window_start, merge_loop, append_rest, unless_seen,
}
use stream_analytics.Storage.Federation.Merge.{Merged, merge_by_window_start-Merges}

-- A window start with the number of the tier.
abbrev Item : Type 0
Item = ℤ × ℕ

abbrev start_of : Item → ℤ
start_of x = x.0

abbrev hot : List Item
hot = (pos 2, 1) ∷ (pos 2, 2) ∷ (pos 3, 1) ∷ []

abbrev cold : List Item
cold = (pos 1, 3) ∷ (pos 2, 3) ∷ (pos 5, 3) ∷ (pos 5, 4) ∷ []

merge_by_window_start-Merges_example :
    Merged start_of hot cold (merge_by_window_start start_of hot cold)
merge_by_window_start-Merges_example =
    merge_by_window_start-Merges start_of hot cold ((refl, (refl, tt)), ((refl, tt), (tt, tt)))
      ((refl, (refl, (refl, tt))), ((refl, (refl, tt)), ((refl, tt), (tt, tt))))

merged :
    merge_by_window_start start_of hot cold ≡ (pos 1, 3) ∷ (pos 2, 1) ∷ (pos 3, 1) ∷ (pos 5, 3) ∷ []
unfolding merge_by_window_start merge_loop append_rest unless_seen lookup insert is_some is_nil
merged = refl

-- One result alone keeps its repeated windows.
not_merged : merge_by_window_start start_of [] cold ≡ cold
unfolding merge_by_window_start is_nil
not_merged = refl
