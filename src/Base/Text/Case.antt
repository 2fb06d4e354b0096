-- ===== src/Base/Text/Case.antt =====
-- The case maps on trimmed texts, and what else they keep.
use mathlib.Core.List.{reverse-cons}
use stream_analytics.Base.{
  ℕ, ◌≡◌, refl, sym, ap, ap₂, subst, map, ◌∙◌, Bool, true, false, [], ◌∷◌, ◌++◌, reverse, arith,
  if◌then◌else◌, Bool-cases, inl, inr, ◌==◌,
}
use stream_analytics.Base.Text.{
  Text, is_space, trim_left, lower, upper, to_lower, to_upper, is_empty,
}
use stream_analytics.Base.Text.Trim.{all, IsTrimmed}

-- The case maps.
is_space-lower : (c : ℕ) → is_space (lower c) ≡ is_space c
unfolding is_space lower
is_space-lower c = ground arith

is_space-upper : (c : ℕ) → is_space (upper c) ≡ is_space c
unfolding is_space upper
is_space-upper c = ground arith

map-reverse : (f : ℕ → ℕ) (s : Text) → map f (reverse s) ≡ reverse (map f s)
map-reverse f [] = refl
map-reverse f (c ∷ s) =
    ap (map f) (reverse-cons c s)
    ∙ snoc (reverse s)
    ∙ ap (λ (t : Text). t ++ f c ∷ []) (map-reverse f s)
    ∙ sym (reverse-cons (f c) (map f s))
  where
    snoc : (t : Text) → map f (t ++ c ∷ []) ≡ map f t ++ f c ∷ []
    snoc [] = refl
    snoc (d ∷ t) = ap (λ (u : Text). f d ∷ u) (snoc t)

module _ (f : ℕ → ℕ) (keeps : (c : ℕ) → is_space (f c) ≡ is_space c) where
  trim_left-map : (s : Text) → trim_left (map f s) ≡ map f (trim_left s)
  unfolding trim_left
  trim_left-map [] = refl
  trim_left-map (c ∷ s) = elim (Bool-cases (is_space c)) [
    | inl e ↦ rw (keeps c, e) (trim_left-map s)
    | inr e ↦ rw (keeps c, e) refl
  ]

  map-IsTrimmed : (s : Text) → IsTrimmed s → IsTrimmed (map f s)
  map-IsTrimmed s h = record {
    start = trim_left-map s ∙ ap (map f) h.start;
    end =
        ap trim_left (sym (map-reverse f s))
        ∙ trim_left-map (reverse s)
        ∙ ap (map f) h.end
        ∙ map-reverse f s;
  }

to_lower-map : (s : Text) → to_lower s ≡ map lower s
unfolding to_lower
to_lower-map [] = refl
to_lower-map (c ∷ s) = ap (λ (t : Text). lower c ∷ t) (to_lower-map s)

to_upper-map : (s : Text) → to_upper s ≡ map upper s
unfolding to_upper
to_upper-map [] = refl
to_upper-map (c ∷ s) = ap (λ (t : Text). upper c ∷ t) (to_upper-map s)

pub to_lower-IsTrimmed : (s : Text) → IsTrimmed s → IsTrimmed (to_lower s)
to_lower-IsTrimmed s h =
    subst IsTrimmed (sym (to_lower-map s)) (map-IsTrimmed lower is_space-lower s h)

pub to_upper-IsTrimmed : (s : Text) → IsTrimmed s → IsTrimmed (to_upper s)
to_upper-IsTrimmed s h =
    subst IsTrimmed (sym (to_upper-map s)) (map-IsTrimmed upper is_space-upper s h)

pub to_lower_twice : (s : Text) → to_lower (to_lower s) ≡ to_lower s
unfolding to_lower lower
to_lower_twice [] = refl
to_lower_twice (c ∷ s) = ap₂ (λ (d : ℕ) (t : Text). d ∷ t) (once c) (to_lower_twice s)
  where
    once : (c : ℕ) → lower (lower c) ≡ lower c
    once c = ground arith

pub to_upper_twice : (s : Text) → to_upper (to_upper s) ≡ to_upper s
unfolding to_upper upper
to_upper_twice [] = refl
to_upper_twice (c ∷ s) = ap₂ (λ (d : ℕ) (t : Text). d ∷ t) (once c) (to_upper_twice s)
  where
    once : (c : ℕ) → upper (upper c) ≡ upper c
    once c = ground arith

abbrev pub no_slash : ℕ → Bool
no_slash c = if c == 47 then false else true

pub no_slash-to_lower : (s : Text) → all no_slash s ≡ true → all no_slash (to_lower s) ≡ true
unfolding to_lower lower
no_slash-to_lower [] h = refl
no_slash-to_lower (c ∷ s) h = ground (arith, no_slash-to_lower s)

pub is_empty-to_lower : (s : Text) → is_empty (to_lower s) ≡ is_empty s
unfolding to_lower is_empty
is_empty-to_lower [] = refl
is_empty-to_lower (c ∷ s) = refl
