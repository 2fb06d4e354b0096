-- ===== src/Ring/Removal.antt =====
-- Removing an element from the middle of a ring: the shifting loop against the list.
use stream_analytics.Base.{
  ℕ, zero, suc, ◌+◌, ◌-◌, ◌%◌, ◌<◌, ◌≤◌, ◌≡◌, refl, sym, ap, ◌∙◌, List, [], ◌∷◌, inl, inr, arith,
  length, get_or, set, length-set, Bool-cases, ◌==◌, ==_iff,
}
use stream_analytics.Base.Slots.{erase_idx, but_last, set_beyond, but_last-snoc}
use stream_analytics.Ring.{Ring, IsValid, shift, close_gap, drop_front, remove_at}
use stream_analytics.Ring.Window.{window, length-window, get_or-window, window-set, window-snoc}
use stream_analytics.Ring.Contents.{contents, tail, drop_front-contents, drop_front-IsValid}

module _ {A : Type 0} (nil : A) where
  -- The loop on the logical contents.
  slide : List A → ℕ → ℕ → List A
  slide xs j zero = xs
  slide xs j (suc rounds) = slide (set xs j (get_or xs (j + 1) nil)) (j + 1) rounds

  slide-cons :
      (x : A) (xs : List A) (j rounds : ℕ) → slide (x ∷ xs) (suc j) rounds ≡ x ∷ slide xs j rounds
  unfolding slide
  slide-cons x xs j zero = refl
  slide-cons x xs j (suc rounds) =
      ap (λ k. slide (x ∷ set xs j (get_or (x ∷ xs) k nil)) k rounds)
        (let e : suc j + 1 ≡ suc (j + 1) = omega arith in e)
      ∙ slide-cons x (set xs j (get_or xs (j + 1) nil)) (j + 1) rounds

  length-slide : (xs : List A) (j rounds : ℕ) → length (slide xs j rounds) ≡ length xs
  unfolding slide
  length-slide xs j zero = refl
  length-slide xs j (suc rounds) =
      length-slide (set xs j (get_or xs (j + 1) nil)) (j + 1) rounds
      ∙ length-set xs j (get_or xs (j + 1) nil)

  but_last-cons : (x : A) (xs : List A) → 0 < length xs → but_last (x ∷ xs) ≡ x ∷ but_last xs
  unfolding but_last
  but_last-cons x [] h = absurd (omega arith)
  but_last-cons x (y ∷ ys) h = refl

  length-shift :
      (buf : List A) (head cap j rounds : ℕ) → length (shift nil buf head cap j rounds) ≡ length buf
  unfolding shift
  length-shift buf head cap j zero = refl
  length-shift buf head cap j (suc rounds) =
      length-shift (set buf ((head + j) % cap) (get_or buf ((head + j + 1) % cap) nil)) head cap
        (j + 1) rounds
      ∙ length-set buf ((head + j) % cap) (get_or buf ((head + j + 1) % cap) nil)

  moved :
      (buf : List A) (head cap n j : ℕ)
      → j + 1 < n
      → get_or buf ((head + j + 1) % cap) nil ≡ get_or (window nil buf cap head n) (j + 1) nil
  moved buf head cap n j lt =
      ap (λ k. get_or buf (k % cap) nil) (omega arith)
      ∙ sym (get_or-window nil buf cap head n (j + 1) lt)

  window-shift :
      (buf : List A) (head cap n j rounds : ℕ)
      → length buf ≡ cap
      → n ≤ cap
      → j + rounds < n
      → window nil (shift nil buf head cap j rounds) cap head n
        ≡ slide (window nil buf cap head n) j rounds
  unfolding shift slide
  window-shift buf head cap n j zero s le lt = refl
  window-shift buf head cap n j (suc rounds) s le lt =
      window-shift (set buf ((head + j) % cap) (get_or buf ((head + j + 1) % cap) nil)) head cap n
        (j + 1) rounds
        (length-set buf ((head + j) % cap) (get_or buf ((head + j + 1) % cap) nil) ∙ s) le
        (omega arith)
      ∙ ap (λ l. slide l (j + 1) rounds)
          (window-set nil buf cap head n j (get_or buf ((head + j + 1) % cap) nil) s (omega arith)
              le
            ∙ ap (set (window nil buf cap head n) j) (moved buf head cap n j (omega arith)))

  -- The loop closes the gap: what is left is the list without the entry, and one slot more.
  but_last-slide :
      (xs : List A) (j rounds : ℕ)
      → j + rounds + 1 ≡ length xs
      → but_last (slide xs j rounds) ≡ erase_idx j xs
  unfolding slide but_last erase_idx
  but_last-slide [] j rounds e = absurd (omega arith)
  but_last-slide (x ∷ []) zero zero e = refl
  but_last-slide (x ∷ y ∷ ys) zero (suc rounds) e =
      ap but_last (slide-cons y (y ∷ ys) 0 rounds)
      ∙ but_last-cons y (slide (y ∷ ys) 0 rounds) (omega (arith, length-slide (y ∷ ys) 0 rounds))
      ∙ ap (◌∷◌ y) (but_last-slide (y ∷ ys) 0 rounds (omega arith))
  but_last-slide (x ∷ y ∷ ys) (suc j) rounds e =
      ap but_last (slide-cons x (y ∷ ys) j rounds)
      ∙ but_last-cons x (slide (y ∷ ys) j rounds) (omega (arith, length-slide (y ∷ ys) j rounds))
      ∙ ap (◌∷◌ x) (but_last-slide (y ∷ ys) j rounds (omega arith))
  but_last-slide _ _ _ e = absurd (omega arith)

  -- The window one slot shorter is the window without its last entry, wherever that slot is written.
  window-but_last :
      (buf : List A) (cap h n : ℕ) (v : A)
      → length buf ≡ cap
      → n < cap
      → window nil (set buf ((h + n) % cap) v) cap h n ≡ but_last (window nil buf cap h (suc n))
  window-but_last buf cap h n v s lt =
      window-set nil buf cap h n n v s lt (omega arith)
      ∙ set_beyond (window nil buf cap h n) n v (omega (arith, length-window nil buf cap h n))
      ∙ sym (but_last-snoc (window nil buf cap h n) (get_or buf ((h + n) % cap) nil))
      ∙ ap but_last (sym (window-snoc nil buf cap h n))

  close_gap-IsValid : {r : Ring A} (i : ℕ) → IsValid r → IsValid (close_gap nil r i)
  unfolding close_gap
  close_gap-IsValid {r} i v = record {
    positive = v.positive;
    sized =
        length-set (shift nil r.buf r.head r.cap i (r.count - 1 - i))
          ((r.head + r.count - 1) % r.cap) nil
        ∙ length-shift r.buf r.head r.cap i (r.count - 1 - i)
        ∙ v.sized;
    headed = v.headed;
    counted = omega (arith, v.counted);
  }

  close_gap-contents :
      (r : Ring A) (i : ℕ)
      → IsValid r
      → i < r.count
      → contents nil (close_gap nil r i) ≡ erase_idx i (contents nil r)
  unfolding contents close_gap
  close_gap-contents r i v lt =
      ap
        (λ k.
          window nil (set (shift nil r.buf r.head r.cap i (r.count - 1 - i)) (k % r.cap) nil) r.cap
            r.head (r.count - 1))
        (omega arith)
      ∙ window-but_last (shift nil r.buf r.head r.cap i (r.count - 1 - i)) r.cap r.head
          (r.count - 1) nil (length-shift r.buf r.head r.cap i (r.count - 1 - i) ∙ v.sized)
          (omega (arith, v.counted))
      ∙ ap but_last (
          window-shift r.buf r.head r.cap (suc (r.count - 1)) i (r.count - 1 - i) v.sized
            (omega (arith, v.counted)) (omega arith))
      ∙ ap (λ n. but_last (slide (window nil r.buf r.cap r.head n) i (r.count - 1 - i)))
          (omega arith)
      ∙ but_last-slide (window nil r.buf r.cap r.head r.count) i (r.count - 1 - i)
          (omega (arith, length-window nil r.buf r.cap r.head r.count))

  tail-erase_idx : (xs : List A) → tail nil xs ≡ erase_idx 0 xs
  unfolding tail erase_idx
  tail-erase_idx [] = refl
  tail-erase_idx (x ∷ xs) = refl

  -- In a valid ring `RemoveAt`, at an index below the count, takes exactly the element at that logical
  -- index out and leaves the others in order.
  pub remove_at-contents :
      (r : Ring A) (i : ℕ)
      → IsValid r
      → i < r.count
      → contents nil (remove_at nil r i) ≡ erase_idx i (contents nil r)
  unfolding remove_at
  remove_at-contents r i v lt = elim (Bool-cases (i == 0)) [
    | inl e ↦
        rw (e, (==_iff i 0).0 e) (drop_front-contents nil r v ∙ tail-erase_idx (contents nil r))
    | inr e ↦ rw e (close_gap-contents r i v lt)
  ]

  pub remove_at-IsValid : {r : Ring A} (i : ℕ) → IsValid r → IsValid (remove_at nil r i)
  unfolding remove_at
  remove_at-IsValid {r} i v = elim (Bool-cases (i == 0)) [
    | inl e ↦ rw e (drop_front-IsValid nil v)
    | inr e ↦ rw e (close_gap-IsValid i v)
  ]

  pub remove_at-room :
      (r : Ring A) (i : ℕ)
      → IsValid r
      → i < r.count
      → (remove_at nil r i).count < (remove_at nil r i).cap
  unfolding remove_at drop_front close_gap
  remove_at-room r i v lt = ground (arith, v.counted)
