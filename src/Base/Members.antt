-- ===== src/Base/Members.antt =====
-- Membership in a list as a test, and lists without repetitions.
use stream_analytics.Base.{◌≤◌, ◌≡◌, refl, Bool, false, ◌||◌, List, [], ◌∷◌, ◌++◌, arith, length}
use stream_analytics.Base.Assoc.{Key}

module _ {ℓ} {A : Type ℓ} ⦃k : Key A⦄ where
  unfoldable pub mem : A → List A → Bool
  mem a [] = false
  mem a (b ∷ bs) = k.eq b a || mem a bs

  abbrev pub NoDup : List A → Type 0
  NoDup [] = Unit
  NoDup (a ∷ bs) = (mem a bs ≡ false) × NoDup bs

  pub mem-append : (a : A) (bs cs : List A) → mem a (bs ++ cs) ≡ (mem a bs || mem a cs)
  unfolding mem
  mem-append a [] cs = refl
  mem-append a (b ∷ bs) cs = ground (arith, mem-append a bs cs)

  pub NoDup-snoc : (bs : List A) (a : A) → mem a bs ≡ false → NoDup bs → NoDup (bs ++ a ∷ [])
  unfolding mem
  NoDup-snoc [] a h d = (refl, tt)
  NoDup-snoc (b ∷ bs) a h d = (
    ground (arith, mem-append b bs (a ∷ []), d.0, h, k.eq_iff a b, k.eq_iff b a),
    NoDup-snoc bs a (ground (arith, h)) d.1,
  )

  pub single-NoDup : (bs : List A) → length bs ≤ 1 → NoDup bs
  unfolding mem
  single-NoDup [] h = tt
  single-NoDup (b ∷ []) h = (refl, tt)
  single-NoDup (b ∷ c ∷ bs) h = absurd (omega (arith, h))
