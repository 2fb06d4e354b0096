-- ===== src/Ingest/RetryBudget/Slots.antt =====
-- Counting the slots in use, and the entries of a table.
use stream_analytics.Base.{
  ℕ, zero, suc, ◌+◌, ◌<◌, ◌≤◌, ◌≡◌, refl, ap, ◌∙◌, subst, List, [], ◌∷◌, none, some, set, get_or,
  length, replicate, arith, if◌then◌else◌, Bool-cases, inl, inr,
}
use stream_analytics.Base.Text.{Text, text_eq, text_eq_iff, text_key, is_empty}
use stream_analytics.Base.Assoc.{lookup, remove, Distinct, remove_absent}

abbrev pub in_use : Text → ℕ
in_use t = if is_empty t then 0 else 1

unfoldable pub used : List Text → ℕ
used [] = 0
used (x ∷ xs) = in_use x + used xs

pub used-le : (xs : List Text) → used xs ≤ length xs
unfolding used
used-le [] = omega arith
used-le (x ∷ xs) = ground (arith, used-le xs)

pub used-set :
    (xs : List Text) (i : ℕ) (v : Text)
    → i < length xs
    → used (set xs i v) + in_use (get_or xs i []) ≡ used xs + in_use v
unfolding used
used-set [] i v h = absurd (omega arith)
used-set (x ∷ xs) zero v h = omega arith
used-set (x ∷ xs) (suc i) v h = omega (arith, used-set xs i v (omega arith))

pub used-replicate : (n : ℕ) → used (replicate n []) ≡ 0
unfolding used is_empty
used-replicate zero = refl
used-replicate (suc n) = omega (arith, used-replicate n)

module _ {V : Type 0} where
  pub length-remove :
      (k : Text) (v : V) (m : List (Text × V))
      → Distinct m
      → lookup k m ≡ some v
      → length (remove k m) + 1 ≡ length m
  unfolding lookup remove
  length-remove k v [] d h = absurd (ground arith)
  length-remove k v ((j, w) ∷ m) d h = elim (Bool-cases (text_eq j k)) [
    | inl e ↦ rw e (
        ap (λ l. length l + 1)
          (remove_absent k m (subst (λ i. lookup i m ≡ none) ((text_eq_iff j k).0 e) d.0))
        ∙ omega arith)
    | inr e ↦ rw e (
        let q : length (remove k m) + 1 ≡ length m =
          length-remove k v m d.1 (ground (arith, h, e)) in
        omega (arith, q))
  ]

pub get_or-replicate : (n i : ℕ) → get_or (replicate {A = Text} n []) i [] ≡ []
get_or-replicate zero i = refl
get_or-replicate (suc n) zero = refl
get_or-replicate (suc n) (suc i) = get_or-replicate n i
