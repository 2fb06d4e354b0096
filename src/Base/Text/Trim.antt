-- ===== src/Base/Text/Trim.antt =====
-- Trimming and the case maps: what they keep of a text, and when they change nothing.
use mathlib.Core.List.{reverse-append, reverse-reverse, reverse-cons, append_assoc}
use stream_analytics.Base.{
  ℕ, ◌≤◌, ◌≡◌, refl, sym, ap, ◌∙◌, Bool, true, false, ◌&&◌, [], ◌∷◌, ◌++◌, reverse, arith, length,
  length-append, Bool-cases, inl, inr,
}
use stream_analytics.Base.Text.{Text, is_space, trim_left, trim_space, is_empty}

abbrev pub all : (ℕ → Bool) → Text → Bool
all p [] = true
all p (c ∷ s) = p c && all p s

module _ (p : ℕ → Bool) where
  pub all-append : (s t : Text) → all p (s ++ t) ≡ (all p s && all p t)
  all-append [] t = refl
  all-append (c ∷ s) t = ground (arith, all-append s t)

  pub all-reverse : (s : Text) → all p (reverse s) ≡ all p s
  all-reverse [] = refl
  all-reverse (c ∷ s) =
      rw (reverse-cons c s, all-append (reverse s) (c ∷ [])) (ground (arith, all-reverse s))

  pub all-trim_left : (s : Text) → all p s ≡ true → all p (trim_left s) ≡ true
  unfolding trim_left
  all-trim_left [] h = refl
  all-trim_left (c ∷ s) h = ground (arith, all-trim_left s)

  pub all-trim_space : (s : Text) → all p s ≡ true → all p (trim_space s) ≡ true
  unfolding trim_space
  all-trim_space s h =
      all-reverse (trim_left (reverse (trim_left s)))
      ∙ all-trim_left (reverse (trim_left s)) (all-reverse (trim_left s) ∙ all-trim_left s h)

length-reverse : (s : Text) → length (reverse s) ≡ length s
length-reverse [] = refl
length-reverse (c ∷ s) =
    rw (reverse-cons c s, length-append (reverse s) (c ∷ [])) (omega (arith, length-reverse s))

length-trim_left : (s : Text) → length (trim_left s) ≤ length s
unfolding trim_left
length-trim_left [] = omega arith
length-trim_left (c ∷ s) = ground (arith, length-trim_left s)

trim_left_whole : (s : Text) → length (trim_left s) ≡ length s → trim_left s ≡ s
unfolding trim_left
trim_left_whole [] h = refl
trim_left_whole (c ∷ s) h = elim (Bool-cases (is_space c)) [
  | inl e ↦ absurd (ground (arith, h, length-trim_left s))
  | inr e ↦ rw e refl
]

pub trim_left_twice : (s : Text) → trim_left (trim_left s) ≡ trim_left s
unfolding trim_left
trim_left_twice [] = refl
trim_left_twice (c ∷ s) = elim (Bool-cases (is_space c)) [
  | inl e ↦ rw e (trim_left_twice s)
  | inr e ↦ rw (e, e) refl
]

trim_left-snoc :
    (s t : Text) (c : ℕ) → is_space c ≡ false → trim_left (s ++ c ∷ t) ≡ trim_left s ++ c ∷ t
unfolding trim_left
trim_left-snoc [] t c h = rw h refl
trim_left-snoc (d ∷ s) t c h = elim (Bool-cases (is_space d)) [
  | inl e ↦ rw e (trim_left-snoc s t c h)
  | inr e ↦ rw e refl
]

pub trim_left-append :
    (s t : Text) → is_empty s ≡ false → trim_left s ≡ s → trim_left (s ++ t) ≡ s ++ t
unfolding is_empty trim_left
trim_left-append [] t n h = absurd (ground arith)
trim_left-append (c ∷ s) t n h = elim (Bool-cases (is_space c)) [
  | inl e ↦ absurd (ground (arith, ap length h, length-trim_left s))
  | inr e ↦ rw e refl
]

-- What a text that `trim_space` does not change looks like from both ends.
pub record IsTrimmed (s : Text) : Type 0 where
  pub start : trim_left s ≡ s
  pub end : trim_left (reverse s) ≡ reverse s

pub IsTrimmed-whole : (s : Text) → IsTrimmed s → trim_space s ≡ s
unfolding trim_space
IsTrimmed-whole s h = rw (h.start, h.end) (reverse-reverse s)

pub whole-IsTrimmed : (s : Text) → trim_space s ≡ s → IsTrimmed s
unfolding trim_space
whole-IsTrimmed s h =
    let e = trim_left_whole s (
      omega (
        arith,
        length-trim_left s,
        length-trim_left (reverse (trim_left s)),
        length-reverse (trim_left s),
        length-reverse (trim_left (reverse (trim_left s))),
        ap length h,
      )) in
    record {
      start = e;
      end =
          sym (reverse-reverse (trim_left (reverse s)))
          ∙ ap reverse (ap (λ (t : Text). reverse (trim_left (reverse t))) (sym e) ∙ h);
    }

trim_right_keeps :
    (s : Text)
    → trim_left s ≡ s
    → trim_left (reverse (trim_left (reverse s))) ≡ reverse (trim_left (reverse s))
unfolding trim_left
trim_right_keeps [] h = refl
trim_right_keeps (c ∷ s) h = elim (Bool-cases (is_space c)) [
  | inl e ↦ absurd (ground (arith, ap length h, length-trim_left s))
  | inr e ↦
      rw
        (
          reverse-cons c s,
          trim_left-snoc (reverse s) [] c e,
          reverse-append (trim_left (reverse s)) (c ∷ []),
        )
        (rw e refl)
]

pub trim_space-IsTrimmed : (s : Text) → IsTrimmed (trim_space s)
unfolding trim_space
trim_space-IsTrimmed s = record {
  start = trim_right_keeps (trim_left s) (trim_left_twice s);
  end =
      ap trim_left (reverse-reverse (trim_left (reverse (trim_left s))))
      ∙ trim_left_twice (reverse (trim_left s))
      ∙ sym (reverse-reverse (trim_left (reverse (trim_left s))));
}

is_empty-reverse : (s : Text) → is_empty (reverse s) ≡ is_empty s
unfolding is_empty
is_empty-reverse [] = refl
is_empty-reverse (c ∷ s) = rw (reverse-cons c s) (snoc (reverse s))
  where
    snoc : (t : Text) → is_empty (t ++ c ∷ []) ≡ false
    snoc [] = refl
    snoc (d ∷ t) = refl

-- A text between two that are trimmed and not empty.
pub join-IsTrimmed :
    (s m t : Text)
    → is_empty s ≡ false
    → is_empty t ≡ false
    → IsTrimmed s
    → IsTrimmed t
    → IsTrimmed (s ++ (m ++ t))
join-IsTrimmed s m t a b h k = record {
  start = trim_left-append s (m ++ t) a h.start;
  end =
      rw
        (
          reverse-append s (m ++ t),
          reverse-append m t,
          append_assoc (reverse t) (reverse m) (reverse s),
        )
        (trim_left-append (reverse t) (reverse m ++ reverse s) (is_empty-reverse t ∙ b) k.end);
}
