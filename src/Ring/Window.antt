-- ===== src/Ring/Window.antt =====
-- The logical contents of a ring, oldest first, and what the slot operations do to it.
use native.Mathlib.Nat
use native.Mathlib.Nat.{mod-lt, mod-eq_of_lt, add-mod_right}
use stream_analytics.Base.{
  ℕ, zero, suc, ◌+◌, ◌-◌, ◌%◌, ◌<◌, ◌≤◌, ◌≡◌, ◌≢◌, refl, sym, ap, ap₂, ◌∙◌, List, [], ◌∷◌, ◌++◌,
  arith, length, get_or, set,
}
use stream_analytics.Ring.Index.{mod_ne}
use stream_analytics.Base.Slots.{get_or-set_self, get_or-set_ne, set_beyond}

suc_mod : (h k cap : ℕ) → h % cap ≡ k % cap → suc h % cap ≡ suc k % cap
suc_mod h k cap e = rw (Nat.suc-mod h cap, Nat.suc-mod k cap, e)

-- The slot of the start is the last one from its successor.
around : (h cap : ℕ) → 0 < cap → (h + 0) % cap ≡ (suc h + (cap - 1)) % cap
around h cap lt =
    ap (λ k. k % cap) (omega arith) ∙ sym (add-mod_right h cap) ∙ ap (λ k. k % cap) (omega arith)

apart : (h j cap : ℕ) → suc j < cap → (h + suc j) % cap ≢ h % cap
apart h j cap lt e = mod_ne h (h + suc j) cap (omega arith) (omega arith) (sym e)

module _ {A : Type 0} (nil : A) where
  -- The `n` values from position `h` on, in a buffer of capacity `cap`.
  unfoldable pub window : List A → ℕ → ℕ → ℕ → List A
  window buf cap h zero = []
  window buf cap h (suc n) = get_or buf (h % cap) nil ∷ window buf cap (suc h) n

  pub length-window : (buf : List A) (cap h n : ℕ) → length (window buf cap h n) ≡ n
  unfolding window
  length-window buf cap h zero = refl
  length-window buf cap h (suc n) = ap suc (length-window buf cap (suc h) n)

  pub get_or-window :
      (buf : List A) (cap h n j : ℕ)
      → j < n
      → get_or (window buf cap h n) j nil ≡ get_or buf ((h + j) % cap) nil
  unfolding window
  get_or-window buf cap h zero j lt = absurd (omega arith)
  get_or-window buf cap h (suc n) zero lt = ap (λ k. get_or buf (k % cap) nil) (omega arith)
  get_or-window buf cap h (suc n) (suc j) lt =
      get_or-window buf cap (suc h) n j (omega arith)
      ∙ ap (λ k. get_or buf (k % cap) nil) (omega arith)

  -- Only the start modulo the capacity matters.
  pub window_cong :
      (buf : List A) (cap h k n : ℕ) → h % cap ≡ k % cap → window buf cap h n ≡ window buf cap k n
  unfolding window
  window_cong buf cap h k zero e = refl
  window_cong buf cap h k (suc n) e =
      cc (window_cong buf cap (suc h) (suc k) n (suc_mod h k cap e), e)

  -- A write at logical index `j` is a write in the contents, or outside them.
  pub window-set :
      (buf : List A) (cap h n j : ℕ) (v : A)
      → length buf ≡ cap
      → j < cap
      → n ≤ cap
      → window (set buf ((h + j) % cap) v) cap h n ≡ set (window buf cap h n) j v
  unfolding window
  window-set buf cap h zero j v s lt le = refl
  window-set buf cap h (suc n) zero v s lt le =
      let beyond = window-set buf cap (suc h) n (cap - 1) v s (omega arith) (omega arith) in
      ap₂ ◌∷◌
        (ap (λ k. get_or (set buf (k % cap) v) (h % cap) nil) (omega arith)
          ∙ get_or-set_self buf (h % cap) v nil (rw s (mod-lt h lt)))
        (ap (λ k. window (set buf k v) cap (suc h) n) (around h cap lt)
          ∙ beyond
          ∙ set_beyond (window buf cap (suc h) n) (cap - 1) v
              (omega (arith, length-window buf cap (suc h) n)))
  window-set buf cap h (suc n) (suc j) v s lt le =
      ap₂ ◌∷◌ (get_or-set_ne buf ((h + suc j) % cap) (h % cap) v nil (apart h j cap lt)) (
        ap (λ k. window (set buf (k % cap) v) cap (suc h) n) (omega arith)
        ∙ window-set buf cap (suc h) n j v s (omega arith) (omega arith))

  -- A write just before the window leaves it alone.
  window-set_before :
      (buf : List A) (cap h n : ℕ) (v : A)
      → length buf ≡ cap
      → n < cap
      → window (set buf ((h + 0) % cap) v) cap (suc h) n ≡ window buf cap (suc h) n
  window-set_before buf cap h n v s lt =
      ap (λ k. window (set buf k v) cap (suc h) n) (around h cap (omega arith))
      ∙ window-set buf cap (suc h) n (cap - 1) v s (omega arith) (omega arith)
      ∙ set_beyond (window buf cap (suc h) n) (cap - 1) v
          (omega (arith, length-window buf cap (suc h) n))

  -- Clearing the first slot and stepping the start leaves the rest.
  pub window-free :
      (buf : List A) (cap h n : ℕ) (v : A)
      → length buf ≡ cap
      → h < cap
      → n < cap
      → window buf cap h (suc n) ≡ get_or buf h nil ∷ window (set buf h v) cap ((h + 1) % cap) n
  unfolding window
  window-free buf cap h n v s hc lt = ap₂ ◌∷◌ (ap (λ k. get_or buf k nil) (mod-eq_of_lt hc)) (
      sym (window-set_before buf cap h n v s lt)
      ∙ ap (λ k. window (set buf k v) cap (suc h) n) here
      ∙ window_cong (set buf h v) cap (suc h) ((h + 1) % cap) n next)
    where
      here : (h + 0) % cap ≡ h
      here = ap (λ k. k % cap) (omega arith) ∙ mod-eq_of_lt hc

      next : suc h % cap ≡ (h + 1) % cap % cap
      next = ap (λ k. k % cap) (omega arith) ∙ sym (Nat.mod-mod (h + 1) cap)

  pub window-snoc :
      (buf : List A) (cap h n : ℕ)
      → window buf cap h (suc n) ≡ window buf cap h n ++ get_or buf ((h + n) % cap) nil ∷ []
  unfolding window
  window-snoc buf cap h zero = ap (λ k. get_or buf (k % cap) nil ∷ []) (omega arith)
  window-snoc buf cap h (suc n) = ap (◌∷◌ (get_or buf (h % cap) nil)) (
      window-snoc buf cap (suc h) n
      ∙ ap (λ k. window buf cap (suc h) n ++ get_or buf (k % cap) nil ∷ []) (omega arith))
