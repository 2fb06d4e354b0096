-- ===== src/Aggregation/OrderBook/Valid.antt =====
-- The invariants of the book, and the book as two lists of levels.
use stream_analytics.Base.{
  ℕ, ◌≤◌, ◌<◌, ◌≡◌, refl, sym, ◌∙◌, Bool, true, false, ◌||◌, List, [], ◌∷◌, Option, none, some,
  arith, length, leb, length-take, if◌then◌else◌, Bool-cases, inl, inr,
}
use stream_analytics.Base.Int.{ℤ, ltb_ℤ, eq_ℤ}
use stream_analytics.Base.Float.{ltb_float, eq_float}
use stream_analytics.Aggregation.OrderBook.{
  Level, BTree, OrderBook, bid_less, ask_less, is_crossed, cleared_for, updated, prune,
}
use stream_analytics.Aggregation.OrderBook.Sides.{
  IsPriced, AllPriced, Before, Sorted, ask_less-IsOrder, bid_less-IsOrder, Before-trans,
  ask_less-ticks,
}
use stream_analytics.Aggregation.OrderBook.Levels.{
  apply_levels, limit_levels, apply_levels-Sorted, limit_levels-Sorted, apply_side_updates-Holds,
  prune_tree-Holds,
}

abbrev pub first : List Level → Option Level
first [] = none
first (x ∷ xs) = some x

-- Every price of `xs` is below every price of `ys`.
abbrev pub Below : List Level → List Level → Type 0
Below [] ys = Unit
Below (x ∷ xs) ys = Before ask_less x ys × Below xs ys

Below-bids :
    (x : Level) (xs ys : List Level)
    → IsPriced x
    → AllPriced xs
    → AllPriced ys
    → Before bid_less x xs
    → Before ask_less x ys
    → Below xs ys
Below-bids x [] ys p ps qs s h = tt
Below-bids x (z ∷ xs) ys p ps qs s h = (
  Before-trans ask_less ask_less-IsOrder z x ys ps.0 p qs (unfold bid_less ask_less in s.0) h,
  Below-bids x xs ys p ps.1 qs s.1 h,
)

crossed-ticks :
    (B : BTree) {x y : Level} (p : IsPriced x) (q : IsPriced y)
    → is_crossed B (some x) (some y) ≡ (ltb_ℤ q.ticks p.ticks || eq_ℤ q.ticks p.ticks)
unfolding is_crossed ltb_float eq_float
crossed-ticks B p q = rw (is_crossed, p.is_finite, q.is_finite) refl

above_ticks : (a b : ℤ) → (ltb_ℤ b a || eq_ℤ b a) ≡ false → ltb_ℤ a b ≡ true
above_ticks a b h = ground arith

uncrossed_less :
    (B : BTree) (x y : Level)
    → IsPriced x
    → IsPriced y
    → is_crossed B (some x) (some y) ≡ false
    → ask_less x y ≡ true
uncrossed_less B x y p q h =
    ask_less-ticks p q ∙ above_ticks p.ticks q.ticks (sym (crossed-ticks B p q) ∙ h)

pub uncrossed-Below :
    (B : BTree) (xs ys : List Level)
    → AllPriced xs
    → AllPriced ys
    → Sorted bid_less xs
    → Sorted ask_less ys
    → is_crossed B (first xs) (first ys) ≡ false
    → Below xs ys
uncrossed-Below B [] ys ps qs s t h = tt
uncrossed-Below B (x ∷ xs) [] ps qs s t h = (tt, Below-bids x xs [] ps.0 ps.1 tt s.0 tt)
uncrossed-Below B (x ∷ xs) (y ∷ ys) ps qs s t h =
    let e = uncrossed_less B x y ps.0 qs.0 h in
    let b = Before-trans ask_less ask_less-IsOrder x y ys ps.0 qs.0 qs.1 e t.0 in
    ((e, b), Below-bids x xs (y ∷ ys) ps.0 ps.1 qs s.0 (e, b))

module _ (B : BTree) where
  -- The levels of the trees.
  pub record Shows (b : OrderBook B) (xs ys : List Level) : Type 0 where
    pub bids : B.Holds bid_less b.bids xs
    pub asks : B.Holds ask_less b.asks ys

  -- Prices are finite and positive, bids fall and asks rise, and so no price is twice.
  pub record IsTidy (xs ys : List Level) : Type 0 where
    pub bids_priced : AllPriced xs
    pub asks_priced : AllPriced ys
    pub bids_sorted : Sorted bid_less xs
    pub asks_sorted : Sorted ask_less ys

  pub record IsValid (b : OrderBook B) : Type 0 where
    pub xs : List Level
    pub ys : List Level
    pub shows : Shows b xs ys
    pub tidy : IsTidy xs ys
    pub bounded :
        0 < b.max_levels_per_side
        → (length xs ≤ b.max_levels_per_side) × (length ys ≤ b.max_levels_per_side)
    pub apart : Below xs ys

  pub cleared-Shows :
      (b : OrderBook B) (xs ys : List Level) (is_snapshot : Bool)
      → Shows b xs ys
      → Shows
          (cleared_for B is_snapshot b)
          (if is_snapshot then [] else xs)
          (if is_snapshot then [] else ys)
  unfolding cleared_for
  cleared-Shows b xs ys true h = record { bids = B.new-Holds bid_less; asks = B.new-Holds ask_less }
  cleared-Shows b xs ys false h = h

  pub cleared-IsTidy :
      (xs ys : List Level) (is_snapshot : Bool)
      → IsTidy xs ys
      → IsTidy (if is_snapshot then [] else xs) (if is_snapshot then [] else ys)
  cleared-IsTidy xs ys true h = record {
    bids_priced = tt;
    asks_priced = tt;
    bids_sorted = tt;
    asks_sorted = tt;
  }
  cleared-IsTidy xs ys false h = h

  pub updated-Shows :
      (b : OrderBook B) (xs ys bids asks : List Level)
      → AllPriced bids
      → AllPriced asks
      → IsTidy xs ys
      → Shows b xs ys
      → Shows
          (updated B b bids asks)
          (apply_levels bid_less xs bids)
          (apply_levels ask_less ys asks)
  unfolding updated
  updated-Shows b xs ys bids asks p q t h = record {
    bids =
        apply_side_updates-Holds bid_less bid_less-IsOrder B bids b.bids xs p t.bids_priced h.bids;
    asks =
        apply_side_updates-Holds ask_less ask_less-IsOrder B asks b.asks ys q t.asks_priced h.asks;
  }

  pub updated-IsTidy :
      (xs ys bids asks : List Level)
      → AllPriced bids
      → AllPriced asks
      → IsTidy xs ys
      → IsTidy (apply_levels bid_less xs bids) (apply_levels ask_less ys asks)
  updated-IsTidy xs ys bids asks p q h =
      let (a, b) =
        apply_levels-Sorted bid_less bid_less-IsOrder bids xs p h.bids_priced h.bids_sorted in
      let (c, d) =
        apply_levels-Sorted ask_less ask_less-IsOrder asks ys q h.asks_priced h.asks_sorted in
      record { bids_priced = a; asks_priced = c; bids_sorted = b; asks_sorted = d }

  pub prune-Shows :
      (b : OrderBook B) (xs ys : List Level)
      → IsTidy xs ys
      → Shows b xs ys
      → Shows
          (prune B b)
          (limit_levels b.max_levels_per_side xs)
          (limit_levels b.max_levels_per_side ys)
  unfolding prune limit_levels
  prune-Shows b xs ys t h = elim (Bool-cases (leb b.max_levels_per_side 0)) [
    | inl e ↦ rw (prune, limit_levels, e) record { bids = h.bids; asks = h.asks }
    | inr e ↦
        rw (prune, limit_levels, e)
          record {
            bids =
                prune_tree-Holds bid_less bid_less-IsOrder B b.max_levels_per_side b.bids xs
                  t.bids_priced t.bids_sorted h.bids;
            asks =
                prune_tree-Holds ask_less ask_less-IsOrder B b.max_levels_per_side b.asks ys
                  t.asks_priced t.asks_sorted h.asks;
          }
  ]

  pub limit-IsTidy :
      (n : ℕ) (xs ys : List Level) → IsTidy xs ys → IsTidy (limit_levels n xs) (limit_levels n ys)
  limit-IsTidy n xs ys t =
      let (a, b) = limit_levels-Sorted bid_less bid_less-IsOrder n xs t.bids_priced t.bids_sorted in
      let (c, d) = limit_levels-Sorted ask_less ask_less-IsOrder n ys t.asks_priced t.asks_sorted in
      record { bids_priced = a; asks_priced = c; bids_sorted = b; asks_sorted = d }

  pub prune_limit : (b : OrderBook B) → (prune B b).max_levels_per_side ≡ b.max_levels_per_side
  unfolding prune
  prune_limit b = ground arith

  pub length-limit_levels : (n : ℕ) (xs : List Level) → 0 < n → length (limit_levels n xs) ≤ n
  unfolding limit_levels
  length-limit_levels n xs h = ground (arith, length-take n xs)
