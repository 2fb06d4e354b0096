-- ===== src/Ring/Contents.antt =====
-- A ring against the list of its live elements, oldest first: appending, taking from the front.

use native.Mathlib.Nat.{mod-lt}
use stream_analytics.Base.{
  ℕ, suc, ◌+◌, ◌-◌, ◌%◌, ◌<◌, ◌≡◌, refl, sym, ap, ◌∙◌, List, [], ◌∷◌, ◌++◌, Bool, true, false, inl,
  inr, arith, Bool-cases, ◌==◌, ==_iff, length, get_or, set, length-set, length-replicate,
}
use stream_analytics.Base.Slots.{set_last}
use stream_analytics.Ring.{Ring, IsValid, init, push_back, advance, pop_front, drop_front, at}
use stream_analytics.Ring.Window.{
  window, length-window, get_or-window, window-set, window-snoc, window-free,
}

module _ {A : Type 0} (nil : A) where
  unfoldable pub contents : Ring A → List A
  contents r = window nil r.buf r.cap r.head r.count

  pub length-contents : (r : Ring A) → length (contents r) ≡ r.count
  unfolding contents
  length-contents r = length-window nil r.buf r.cap r.head r.count

  pub init-IsValid : (capacity : ℕ) → 0 < capacity → IsValid (init nil capacity)
  unfolding init
  init-IsValid capacity h = record {
    positive = h;
    sized = length-replicate capacity nil;
    headed = h;
    counted = omega arith;
  }

  pub contents-init : (capacity : ℕ) → contents (init nil capacity) ≡ []
  unfolding contents init window
  contents-init capacity = refl

  pub push_back-IsValid :
      {r : Ring A} (v : A) → IsValid r → r.count < r.cap → IsValid (push_back nil r v)
  unfolding push_back
  push_back-IsValid {r} v i h = record {
    positive = i.positive;
    sized = length-set r.buf ((r.head + r.count) % r.cap) v ∙ i.sized;
    headed = i.headed;
    counted = omega arith;
  }

  pub contents-push_back :
      (r : Ring A) (v : A)
      → IsValid r
      → r.count < r.cap
      → contents (push_back nil r v) ≡ contents r ++ v ∷ []
  unfolding contents push_back
  contents-push_back r v i h =
      ap (window nil (set r.buf ((r.head + r.count) % r.cap) v) r.cap r.head) (omega arith)
      ∙ window-set nil r.buf r.cap r.head (suc r.count) r.count v i.sized h (omega arith)
      ∙ ap (λ l. set l r.count v) (window-snoc nil r.buf r.cap r.head r.count)
      ∙ ap (λ k. set (window nil r.buf r.cap r.head r.count ++ last ∷ []) k v)
          (sym (length-window nil r.buf r.cap r.head r.count))
      ∙ set_last (window nil r.buf r.cap r.head r.count) last v
    where
      last : A
      last = get_or r.buf ((r.head + r.count) % r.cap) nil

  pub advance-IsValid : {r : Ring A} → IsValid r → IsValid (advance nil r)
  unfolding advance
  advance-IsValid {r} i = record {
    positive = i.positive;
    sized = length-set r.buf r.head nil ∙ i.sized;
    headed = mod-lt (r.head + 1) i.positive;
    counted = omega (arith, i.counted);
  }

  -- Freeing the head slot takes the oldest element off.
  pub contents-advance :
      (r : Ring A)
      → IsValid r
      → 0 < r.count
      → contents r ≡ get_or r.buf r.head nil ∷ contents (advance nil r)
  unfolding contents advance
  contents-advance r i h =
      ap (window nil r.buf r.cap r.head) (omega arith)
      ∙ window-free nil r.buf r.cap r.head (r.count - 1) nil i.sized i.headed
          (omega (arith, i.counted))

  pub at-contents : (r : Ring A) (j : ℕ) → j < r.count → at nil r j ≡ get_or (contents r) j nil
  unfolding at contents
  at-contents r j h = sym (get_or-window nil r.buf r.cap r.head r.count j h)

  contents_empty : (r : Ring A) → r.count ≡ 0 → contents r ≡ []
  unfolding contents window
  contents_empty r e = rw e

  -- The abstract queue: the oldest element and the rest, or the zero value and `false`.
  unfoldable pub pop : List A → A × Bool × List A
  pop [] = (nil, false, [])
  pop (x ∷ xs) = (x, true, xs)

  unfoldable pub tail : List A → List A
  tail [] = []
  tail (x ∷ xs) = xs

  pub pop_front-contents :
      (r : Ring A)
      → IsValid r
      → let (x, found, r') = pop_front nil r in (x, found, contents r') ≡ pop (contents r)
  unfolding pop_front pop
  pop_front-contents r i = elim (Bool-cases (r.count == 0)) [
    | inl e ↦ rw (e, contents_empty r ((==_iff r.count 0).0 e))
    | inr e ↦ rw (e, contents-advance r i (ground arith))
  ]

  pub pop_front-IsValid : {r : Ring A} → IsValid r → IsValid (pop_front nil r).2
  unfolding pop_front
  pop_front-IsValid {r} i = elim (Bool-cases (r.count == 0)) [
    | inl e ↦ rw e i
    | inr e ↦ rw e (advance-IsValid i)
  ]

  pub drop_front-contents :
      (r : Ring A) → IsValid r → contents (drop_front nil r) ≡ tail (contents r)
  unfolding drop_front tail
  drop_front-contents r i = elim (Bool-cases (r.count == 0)) [
    | inl e ↦ rw (e, contents_empty r ((==_iff r.count 0).0 e))
    | inr e ↦ rw (e, contents-advance r i (ground arith))
  ]

  pub drop_front-IsValid : {r : Ring A} → IsValid r → IsValid (drop_front nil r)
  unfolding drop_front
  drop_front-IsValid {r} i = elim (Bool-cases (r.count == 0)) [
    | inl e ↦ rw e i
    | inr e ↦ rw e (advance-IsValid i)
  ]

  -- After an element has left, the ring has room.
  pub advance-room :
      (r : Ring A) → IsValid r → 0 < r.count → (advance nil r).count < (advance nil r).cap
  unfolding advance
  advance-room r i h = omega (arith, i.counted)
