-- ===== src/Aggregation/OrderBook/Sides.antt =====
-- One side of a book as a list of levels in the order of their prices.
use stream_analytics.Base.{
  ◌≡◌, refl, sym, ◌∙◌, Bool, true, false, not, ◌&&◌, List, [], ◌∷◌, ap₂, arith, Bool-cases, inl,
  inr,
}
use stream_analytics.Base.Int.{ℤ, pos, ltb_ℤ, eq_ℤ, ◌<ℤ◌}
use stream_analytics.Base.Float.{finite, ltb_float, eq_float}
use stream_analytics.Aggregation.OrderBook.{
  Level, IsWeakOrder, All, bid_less, ask_less, place, discard,
}

-- A finite positive price.
pub record IsPriced (l : Level) : Type 0 where
  pub ticks : ℤ
  pub is_finite : l.price ≡ finite ticks
  pub positive : pos 0 <ℤ ticks

-- What the trees need of their orders.
pub record IsOrder (less : Level → Level → Bool) : Type 0 where
  pub equal :
      (a b : Level)
      → IsPriced a
      → IsPriced b
      → eq_float a.price b.price ≡ (not (less a b) && not (less b a))
  pub asym : (a b : Level) → IsPriced a → IsPriced b → less a b ≡ true → less b a ≡ false
  pub trans :
      (a b c : Level)
      → IsPriced a
      → IsPriced b
      → IsPriced c
      → less a b ≡ true
      → less b c ≡ true
      → less a c ≡ true
  pub same :
      (a b c : Level)
      → IsPriced a
      → IsPriced b
      → IsPriced c
      → less a b ≡ false
      → less b a ≡ false
      → less b c ≡ less a c
  pub same_right :
      (a b c : Level)
      → IsPriced a
      → IsPriced b
      → IsPriced c
      → less a b ≡ false
      → less b a ≡ false
      → less c b ≡ less c a

eq_ℤ_tests : (a b : ℤ) → eq_ℤ a b ≡ (not (ltb_ℤ a b) && not (ltb_ℤ b a))
eq_ℤ_tests a b = ground arith

eq_ℤ_tests_swapped : (a b : ℤ) → eq_ℤ a b ≡ (not (ltb_ℤ b a) && not (ltb_ℤ a b))
eq_ℤ_tests_swapped a b = ground arith

pub eq_float-ticks :
    {a b : Level} (p : IsPriced a) (q : IsPriced b)
    → eq_float a.price b.price ≡ eq_ℤ p.ticks q.ticks
unfolding eq_float
eq_float-ticks p q = rw (p.is_finite, q.is_finite) refl

ltb_ℤ_asym : (a b : ℤ) → ltb_ℤ a b ≡ true → ltb_ℤ b a ≡ false
ltb_ℤ_asym a b h = ground arith

ltb_ℤ_trans : (a b c : ℤ) → ltb_ℤ a b ≡ true → ltb_ℤ b c ≡ true → ltb_ℤ a c ≡ true
ltb_ℤ_trans a b c h k = ground arith

ltb_ℤ_same : (a b c : ℤ) → ltb_ℤ a b ≡ false → ltb_ℤ b a ≡ false → ltb_ℤ b c ≡ ltb_ℤ a c
ltb_ℤ_same a b c h k = ground arith

ltb_ℤ_same_right : (a b c : ℤ) → ltb_ℤ a b ≡ false → ltb_ℤ b a ≡ false → ltb_ℤ c b ≡ ltb_ℤ c a
ltb_ℤ_same_right a b c h k = ground arith

pub ask_less-ticks :
    {a b : Level} (p : IsPriced a) (q : IsPriced b) → ask_less a b ≡ ltb_ℤ p.ticks q.ticks
unfolding ask_less ltb_float
ask_less-ticks p q = rw (ask_less, p.is_finite, q.is_finite) refl

bid_less-ticks :
    {a b : Level} (p : IsPriced a) (q : IsPriced b) → bid_less a b ≡ ltb_ℤ q.ticks p.ticks
unfolding bid_less ltb_float
bid_less-ticks p q = rw (bid_less, p.is_finite, q.is_finite) refl

pub ask_less-IsOrder : IsOrder ask_less
ask_less-IsOrder = record {
  equal = λ a b p q.
      eq_float-ticks p q
      ∙ eq_ℤ_tests p.ticks q.ticks
      ∙ ap₂ (λ (c d : Bool). not c && not d) (sym (ask_less-ticks p q)) (sym (ask_less-ticks q p));
  asym =
      λ a b p q h. ask_less-ticks q p ∙ ltb_ℤ_asym p.ticks q.ticks (sym (ask_less-ticks p q) ∙ h);
  trans = λ a b c p q r h k.
      ask_less-ticks p r
      ∙ ltb_ℤ_trans p.ticks q.ticks r.ticks (sym (ask_less-ticks p q) ∙ h)
          (sym (ask_less-ticks q r) ∙ k);
  same = λ a b c p q r h k.
      ask_less-ticks q r
      ∙ ltb_ℤ_same p.ticks q.ticks r.ticks (sym (ask_less-ticks p q) ∙ h)
          (sym (ask_less-ticks q p) ∙ k)
      ∙ sym (ask_less-ticks p r);
  same_right = λ a b c p q r h k.
      ask_less-ticks r q
      ∙ ltb_ℤ_same_right p.ticks q.ticks r.ticks (sym (ask_less-ticks p q) ∙ h)
          (sym (ask_less-ticks q p) ∙ k)
      ∙ sym (ask_less-ticks r p);
}

pub bid_less-IsOrder : IsOrder bid_less
bid_less-IsOrder = record {
  equal = λ a b p q.
      eq_float-ticks p q
      ∙ eq_ℤ_tests_swapped p.ticks q.ticks
      ∙ ap₂ (λ (c d : Bool). not c && not d) (sym (bid_less-ticks p q)) (sym (bid_less-ticks q p));
  asym =
      λ a b p q h. bid_less-ticks q p ∙ ltb_ℤ_asym q.ticks p.ticks (sym (bid_less-ticks p q) ∙ h);
  trans = λ a b c p q r h k.
      bid_less-ticks p r
      ∙ ltb_ℤ_trans r.ticks q.ticks p.ticks (sym (bid_less-ticks q r) ∙ k)
          (sym (bid_less-ticks p q) ∙ h);
  same = λ a b c p q r h k.
      bid_less-ticks q r
      ∙ ltb_ℤ_same_right p.ticks q.ticks r.ticks (sym (bid_less-ticks q p) ∙ k)
          (sym (bid_less-ticks p q) ∙ h)
      ∙ sym (bid_less-ticks p r);
  same_right = λ a b c p q r h k.
      bid_less-ticks r q
      ∙ ltb_ℤ_same p.ticks q.ticks r.ticks (sym (bid_less-ticks q p) ∙ k)
          (sym (bid_less-ticks p q) ∙ h)
      ∙ sym (bid_less-ticks r p);
}

abbrev pub AllPriced : List Level → Type 0
AllPriced xs = All IsPriced xs

pub IsWeakOrder-IsOrder : (less : Level → Level → Bool) → IsOrder less → IsWeakOrder IsPriced less
IsWeakOrder-IsOrder less o = record { asym = o.asym; trans = o.trans; same = o.same }

-- `n` comes before every item.
abbrev pub Before : (Level → Level → Bool) → Level → List Level → Type 0
Before less n [] = Unit
Before less n (x ∷ xs) = (less n x ≡ true) × Before less n xs

abbrev pub Sorted : (Level → Level → Bool) → List Level → Type 0
Sorted less [] = Unit
Sorted less (x ∷ xs) = Before less x xs × Sorted less xs

module _ (less : Level → Level → Bool) (o : IsOrder less) where
  pub place-AllPriced :
      (n : Level) (xs : List Level) → IsPriced n → AllPriced xs → AllPriced (place less n xs)
  unfolding place
  place-AllPriced n [] p ps = (p, tt)
  place-AllPriced n (x ∷ xs) p ps = elim (Bool-cases (less n x)) [
    | inl e ↦ rw e (p, ps)
    | inr e ↦ rw e (elim (Bool-cases (less x n)) [
      | inl f ↦ rw f (ps.0, place-AllPriced n xs p ps.1)
      | inr f ↦ rw f (p, ps.1)
    ])
  ]

  pub discard-AllPriced :
      (n : Level) (xs : List Level) → AllPriced xs → AllPriced (discard less n xs)
  unfolding discard
  discard-AllPriced n [] ps = tt
  discard-AllPriced n (x ∷ xs) ps = elim (Bool-cases (less n x)) [
    | inl e ↦ rw e ps
    | inr e ↦ rw e (elim (Bool-cases (less x n)) [
      | inl f ↦ rw f (ps.0, discard-AllPriced n xs ps.1)
      | inr f ↦ rw f ps.1
    ])
  ]

  pub Before-trans :
      (a b : Level) (xs : List Level)
      → IsPriced a
      → IsPriced b
      → AllPriced xs
      → less a b ≡ true
      → Before less b xs
      → Before less a xs
  Before-trans a b [] p q ps h k = tt
  Before-trans a b (x ∷ xs) p q ps h k =
      (o.trans a b x p q ps.0 h k.0, Before-trans a b xs p q ps.1 h k.1)

  Before-same :
      (a b : Level) (xs : List Level)
      → IsPriced a
      → IsPriced b
      → AllPriced xs
      → less a b ≡ false
      → less b a ≡ false
      → Before less b xs
      → Before less a xs
  Before-same a b [] p q ps h k l = tt
  Before-same a b (x ∷ xs) p q ps h k l =
      (sym (o.same a b x p q ps.0 h k) ∙ l.0, Before-same a b xs p q ps.1 h k l.1)

  Before-place :
      (m n : Level) (xs : List Level)
      → less m n ≡ true
      → Before less m xs
      → Before less m (place less n xs)
  unfolding place
  Before-place m n [] h k = (h, tt)
  Before-place m n (x ∷ xs) h k = elim (Bool-cases (less n x)) [
    | inl e ↦ rw e (h, k)
    | inr e ↦ rw e (elim (Bool-cases (less x n)) [
      | inl f ↦ rw f (k.0, Before-place m n xs h k.1)
      | inr f ↦ rw f (h, k.1)
    ])
  ]

  Before-discard :
      (m n : Level) (xs : List Level) → Before less m xs → Before less m (discard less n xs)
  unfolding discard
  Before-discard m n [] k = tt
  Before-discard m n (x ∷ xs) k = elim (Bool-cases (less n x)) [
    | inl e ↦ rw e k
    | inr e ↦ rw e (elim (Bool-cases (less x n)) [
      | inl f ↦ rw f (k.0, Before-discard m n xs k.1)
      | inr f ↦ rw f k.1
    ])
  ]

  pub place-Sorted :
      (n : Level) (xs : List Level)
      → IsPriced n
      → AllPriced xs
      → Sorted less xs
      → Sorted less (place less n xs)
  unfolding place
  place-Sorted n [] p ps s = (tt, tt)
  place-Sorted n (x ∷ xs) p ps s = elim (Bool-cases (less n x)) [
    | inl e ↦ rw e ((e, Before-trans n x xs p ps.0 ps.1 e s.0), s)
    | inr e ↦ rw e (elim (Bool-cases (less x n)) [
      | inl f ↦ rw f (Before-place x n xs f s.0, place-Sorted n xs p ps.1 s.1)
      | inr f ↦ rw f (Before-same n x xs p ps.0 ps.1 e f s.0, s.1)
    ])
  ]

  pub discard-Sorted :
      (n : Level) (xs : List Level) → Sorted less xs → Sorted less (discard less n xs)
  unfolding discard
  discard-Sorted n [] s = tt
  discard-Sorted n (x ∷ xs) s = elim (Bool-cases (less n x)) [
    | inl e ↦ rw e s
    | inr e ↦ rw e (elim (Bool-cases (less x n)) [
      | inl f ↦ rw f (Before-discard x n xs s.0, discard-Sorted n xs s.1)
      | inr f ↦ rw f s.1
    ])
  ]
