-- ===== src/Base/Slots.antt =====
-- Reads and writes of a slice whose slots have a default value.
use stream_analytics.Base.{
  ℕ, zero, suc, ◌<◌, ◌≡◌, ◌≢◌, refl, ap, List, [], ◌∷◌, ◌++◌, ◌+◌, arith, length, get_or, set, ◌≤◌,
}

module _ {ℓ} {A : Type ℓ} where
  pub get_or-set_self :
      (xs : List A) (i : ℕ) (v d : A) → i < length xs → get_or (set xs i v) i d ≡ v
  get_or-set_self [] i v d h = elim h [ ]
  get_or-set_self (x ∷ xs) zero v d h = refl
  get_or-set_self (x ∷ xs) (suc i) v d h = get_or-set_self xs i v d (omega arith)

  pub get_or-set_ne :
      (xs : List A) (i j : ℕ) (v d : A) → i ≢ j → get_or (set xs i v) j d ≡ get_or xs j d
  get_or-set_ne [] i j v d h = refl
  get_or-set_ne (x ∷ xs) zero zero v d h = absurd (h refl)
  get_or-set_ne (x ∷ xs) zero (suc j) v d h = refl
  get_or-set_ne (x ∷ xs) (suc i) zero v d h = refl
  get_or-set_ne (x ∷ xs) (suc i) (suc j) v d h = get_or-set_ne xs i j v d (λ e. h (ap suc e))

  pub set_beyond : (xs : List A) (i : ℕ) (v : A) → length xs ≤ i → set xs i v ≡ xs
  set_beyond [] i v h = refl
  set_beyond (x ∷ xs) zero v h = absurd (omega arith)
  set_beyond (x ∷ xs) (suc i) v h = ap (◌∷◌ x) (set_beyond xs i v (omega arith))

  pub set_last : (xs : List A) (y v : A) → set (xs ++ y ∷ []) (length xs) v ≡ xs ++ v ∷ []
  set_last [] y v = refl
  set_last (x ∷ xs) y v = ap (◌∷◌ x) (set_last xs y v)

  -- The list without its entry at an index.
  unfoldable pub erase_idx : ℕ → List A → List A
  erase_idx i [] = []
  erase_idx zero (x ∷ xs) = xs
  erase_idx (suc i) (x ∷ xs) = x ∷ erase_idx i xs

  pub length-erase_idx :
      (i : ℕ) (xs : List A) → i < length xs → length (erase_idx i xs) + 1 ≡ length xs
  unfolding erase_idx
  length-erase_idx i [] h = absurd (omega arith)
  length-erase_idx zero (x ∷ xs) h = omega arith
  length-erase_idx (suc i) (x ∷ xs) h = omega (arith, length-erase_idx i xs)

  -- All entries but the last.
  unfoldable pub but_last : List A → List A
  but_last [] = []
  but_last (x ∷ []) = []
  but_last (x ∷ y ∷ ys) = x ∷ but_last (y ∷ ys)

  pub but_last-snoc : (xs : List A) (y : A) → but_last (xs ++ y ∷ []) ≡ xs
  unfolding but_last
  but_last-snoc [] y = refl
  but_last-snoc (x ∷ []) y = refl
  but_last-snoc (x ∷ z ∷ zs) y = ap (◌∷◌ x) (but_last-snoc (z ∷ zs) y)
