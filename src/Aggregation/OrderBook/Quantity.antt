-- ===== src/Aggregation/OrderBook/Quantity.antt =====
-- The quantity at a price after the updates of a side.
use stream_analytics.Base.{
  ◌≡◌, refl, sym, ap, ◌∙◌, Bool, true, false, List, [], ◌∷◌, Option, none, some, arith,
  if◌then◌else◌, Bool-cases, inl, inr,
}
use stream_analytics.Base.Int.{ℤ, eq_ℤ}
use stream_analytics.Base.Float.{Float, zero_float, eq_float}
use stream_analytics.Aggregation.OrderBook.{
  Level, level_key, BTree, place, discard, apply_side_updates, bid_less, ask_less, OrderBook,
  updated, validate_levels,
}
use stream_analytics.Aggregation.OrderBook.Sides.{
  bid_less-IsOrder, ask_less-IsOrder, IsPriced, eq_float-ticks, IsOrder, AllPriced, Before, Sorted,
  place-AllPriced, place-Sorted, discard-AllPriced, discard-Sorted, Before-trans,
}
use stream_analytics.Aggregation.OrderBook.Levels.{
  validate_levels-AllPriced, apply_levels, apply_side_updates-Holds,
}
use stream_analytics.Envelope.{ok}
use stream_analytics.Aggregation.OrderBook.Valid.{IsValid}

-- The quantity of the level with the price of `n`.
unfoldable pub quantity_at : Level → List Level → Option Float
quantity_at n [] = none
quantity_at n (x ∷ xs) =
    let rest = quantity_at n xs in if eq_float x.price n.price then some x.quantity else rest

-- The quantity that the updates leave: the last one at the price, no level for zero.
unfoldable pub last_quantity : Level → List Level → Option Float → Option Float
last_quantity n [] before = before
last_quantity n (u ∷ us) before = last_quantity n us (
    if eq_float u.price n.price
    then (if eq_float u.quantity zero_float then none else some u.quantity)
    else before)

eq_split : (a b n : ℤ) → eq_ℤ a b ≡ false → eq_ℤ a n ≡ true → eq_ℤ b n ≡ false
eq_split a b n h k = ground arith

eq_join : (a b n : ℤ) → eq_ℤ a b ≡ true → eq_ℤ a n ≡ eq_ℤ b n
eq_join a b n h = ground arith

module _ (less : Level → Level → Bool) (o : IsOrder less) where
  -- Two levels that are not equal cannot both have the price of a third.
  apart :
      (x u n : Level)
      → IsPriced x
      → IsPriced u
      → IsPriced n
      → eq_float x.price u.price ≡ false
      → eq_float x.price n.price ≡ true
      → eq_float u.price n.price ≡ false
  apart x u n p q r h k =
      eq_float-ticks q r
      ∙ eq_split p.ticks q.ticks r.ticks (sym (eq_float-ticks p q) ∙ h)
          (sym (eq_float-ticks p r) ∙ k)

  joined :
      (x u n : Level)
      → IsPriced x
      → IsPriced u
      → IsPriced n
      → eq_float x.price u.price ≡ true
      → eq_float x.price n.price ≡ eq_float u.price n.price
  joined x u n p q r h =
      eq_float-ticks p r
      ∙ eq_join p.ticks q.ticks r.ticks (sym (eq_float-ticks p q) ∙ h)
      ∙ sym (eq_float-ticks q r)

  quantity_at-place :
      (n u : Level) (xs : List Level)
      → IsPriced n
      → IsPriced u
      → AllPriced xs
      → quantity_at n (place less u xs)
        ≡ (if eq_float u.price n.price then some u.quantity else quantity_at n xs)
  unfolding quantity_at place
  quantity_at-place n u [] p q ps = refl
  quantity_at-place n u (x ∷ xs) p q ps = elim (Bool-cases (less u x)) [
    | inl e ↦ rw (place, e) refl
    | inr e ↦ elim (Bool-cases (less x u)) [
      | inl f ↦
          rw (place, e, f)
            (ground (
              arith,
              quantity_at-place n u xs p q ps.1,
              apart x u n ps.0 q p (ground (arith, o.equal x u ps.0 q, f)),
            ))
      | inr f ↦
          rw (place, e, f)
            (ground (arith, joined x u n ps.0 q p (ground (arith, o.equal x u ps.0 q, e, f))))
    ]
  ]

  Before-none :
      (n u : Level) (xs : List Level)
      → IsPriced n
      → IsPriced u
      → AllPriced xs
      → Before less u xs
      → eq_float u.price n.price ≡ true
      → quantity_at n xs ≡ none
  unfolding quantity_at
  Before-none n u [] p q ps h e = refl
  Before-none n u (x ∷ xs) p q ps h e = ground (
    arith,
    Before-none n u xs p q ps.1 h.1 e,
    apart u x n q ps.0 p (ground (arith, o.equal u x q ps.0, h.0)),
  )

  quantity_at-discard :
      (n u : Level) (xs : List Level)
      → IsPriced n
      → IsPriced u
      → AllPriced xs
      → Sorted less xs
      → quantity_at n (discard less u xs)
        ≡ (if eq_float u.price n.price then none else quantity_at n xs)
  unfolding quantity_at discard
  quantity_at-discard n u [] p q ps s = ground arith
  quantity_at-discard n u (x ∷ xs) p q ps s = elim (Bool-cases (less u x)) [
    | inl e ↦
        rw (discard, e)
          (ground (
            arith,
            Before-none n u (x ∷ xs) p q ps (e, Before-trans less o u x xs q ps.0 ps.1 e s.0),
          ))
    | inr e ↦ elim (Bool-cases (less x u)) [
      | inl f ↦
          rw (discard, e, f)
            (ground (
              arith,
              quantity_at-discard n u xs p q ps.1 s.1,
              apart x u n ps.0 q p (ground (arith, o.equal x u ps.0 q, f)),
            ))
      | inr f ↦
          rw (discard, e, f)
            (ground (
              arith,
              joined x u n ps.0 q p (ground (arith, o.equal x u ps.0 q, e, f)),
              Before-none n x xs p ps.0 ps.1 s.0,
            ))
    ]
  ]

  quantity_at-apply_levels :
      (us : List Level) (n : Level) (xs : List Level)
      → IsPriced n
      → AllPriced us
      → AllPriced xs
      → Sorted less xs
      → quantity_at n (apply_levels less xs us) ≡ last_quantity n us (quantity_at n xs)
  unfolding apply_levels last_quantity
  quantity_at-apply_levels [] n xs p qs ps s = refl
  quantity_at-apply_levels (u ∷ us) n xs p qs ps s =
      elim (Bool-cases (eq_float u.quantity zero_float)) [
        | inl e ↦
            rw (apply_levels, last_quantity, e)
              (quantity_at-apply_levels us n (discard less (level_key u) xs) p qs.1
                  (discard-AllPriced less o (level_key u) xs ps)
                  (discard-Sorted less o (level_key u) xs s)
                ∙ ap (last_quantity n us) (
                    quantity_at-discard n (level_key u) xs p
                      (record {
                        ticks = qs.0.ticks;
                        is_finite = qs.0.is_finite;
                        positive = qs.0.positive;
                      })
                      ps s))
        | inr e ↦
            rw (apply_levels, last_quantity, e)
              (quantity_at-apply_levels us n (place less u xs) p qs.1
                  (place-AllPriced less o u xs qs.0 ps) (place-Sorted less o u xs qs.0 ps s)
                ∙ ap (last_quantity n us) (quantity_at-place n u xs p qs.0 ps))
      ]

-- On either side of a valid book, after updates that pass the checks, the quantity at a price is that
-- of the last update of the price, with no level if it is zero, and without one what it was before.
pub quantity_at-updated :
    (B : BTree) (b : OrderBook B) (bids asks : List Level) (n : Level)
    → IsValid B b
    → validate_levels bids ≡ ok tt
    → validate_levels asks ≡ ok tt
    → IsPriced n
    → (quantity_at n (B.ascend (updated B b bids asks).bids)
        ≡ last_quantity n bids (quantity_at n (B.ascend b.bids)))
      × (quantity_at n (B.ascend (updated B b bids asks).asks)
          ≡ last_quantity n asks (quantity_at n (B.ascend b.asks)))
unfolding updated
quantity_at-updated B b bids asks n v h k p = (
  side bid_less bid_less-IsOrder bids b.bids v.xs v.shows.bids (validate_levels-AllPriced bids h)
      v.tidy.bids_priced v.tidy.bids_sorted,
  side ask_less ask_less-IsOrder asks b.asks v.ys v.shows.asks (validate_levels-AllPriced asks k)
      v.tidy.asks_priced v.tidy.asks_sorted,
)
  where
    side :
        (less : Level → Level → Bool)
        → IsOrder less
        → (us : List Level) (t : B.T) (xs : List Level) → B.Holds less t xs
        → AllPriced us
        → AllPriced xs
        → Sorted less xs
        → quantity_at n (B.ascend (apply_side_updates B t us))
          ≡ last_quantity n us (quantity_at n (B.ascend t))
    side less o us t xs holds qs ps s =
        ap (quantity_at n)
          (B.ascend-Holds less _ _ (apply_side_updates-Holds less o B us t xs qs ps holds))
        ∙ quantity_at-apply_levels less o us n xs p qs ps s
        ∙ ap (λ (ys : List Level). last_quantity n us (quantity_at n ys))
            (sym (B.ascend-Holds less t xs holds))
