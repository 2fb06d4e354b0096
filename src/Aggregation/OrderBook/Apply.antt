-- ===== src/Aggregation/OrderBook/Apply.antt =====
-- What `applyDelta` does to a valid book.
use stream_analytics.Base.{
  ℕ, ◌≤◌, ◌<◌, ◌≡◌, refl, sym, ap₂, ◌∙◌, Bool, true, false, not, ◌&&◌, List, [], ◌∷◌, arith, length,
  if◌then◌else◌, Bool-cases, inl, inr,
}
use stream_analytics.Base.Int.{ℤ, pos, leb_ℤ}
use stream_analytics.Envelope.{Result, ok, err, validation_failed, out_of_order, refuse_if}
use stream_analytics.Aggregation.OrderBook.{
  Level, BTree, OrderBook, bid_less, ask_less, first_level, is_crossed, settle_book, check_delta,
  cleared_for, updated, prune, after_check, apply_delta, validate_levels,
}
use stream_analytics.Aggregation.OrderBook.Sides.{AllPriced}
use stream_analytics.Aggregation.OrderBook.Levels.{
  apply_levels, limit_levels, validate_levels-AllPriced, both_ok,
}
use stream_analytics.Aggregation.OrderBook.Valid.{
  first, uncrossed-Below, Shows, IsTidy, IsValid, cleared-Shows, cleared-IsTidy, updated-Shows,
  updated-IsTidy, prune-Shows, limit-IsTidy, prune_limit, length-limit_levels,
}

-- One side after an update, by the list of its levels.
abbrev pub next_levels : (Level → Level → Bool) → ℕ → Bool → List Level → List Level → List Level
next_levels less max_levels is_snapshot xs us =
    limit_levels max_levels (apply_levels less (if is_snapshot then [] else xs) us)

module _ (B : BTree) where
  pub first_level-Holds :
      (less : Level → Level → Bool) (t : B.T) (xs : List Level)
      → B.Holds less t xs
      → first_level B t ≡ first xs
  unfolding first_level
  first_level-Holds less t [] h = rw (first_level, B.ascend-Holds less t [] h) refl
  first_level-Holds less t (x ∷ xs) h = rw (first_level, B.ascend-Holds less t (x ∷ xs) h) refl

  pub check_priced :
      (b : OrderBook B) (seq : ℤ) (bids asks : List Level) (is_snapshot : Bool)
      → check_delta B b seq bids asks is_snapshot ≡ ok tt
      → AllPriced bids × AllPriced asks
  unfolding check_delta
  check_priced b seq bids asks is_snapshot h =
      let (_, k) = both_ok (refuse_if (leb_ℤ seq (pos 0)) validation_failed) _ h in
      let (_, l) = both_ok (refuse_if (leb_ℤ seq b.last_seq && not is_snapshot) out_of_order) _ k in
      let (p, q) = both_ok (validate_levels bids) (validate_levels asks) l in
      (validate_levels-AllPriced bids p, validate_levels-AllPriced asks q)

  -- The book before `checkSpread`.
  abbrev pub pruned : OrderBook B → List Level → List Level → Bool → OrderBook B
  pruned b bids asks is_snapshot = prune B (updated B (cleared_for B is_snapshot b) bids asks)

  pruned_limit :
      (b : OrderBook B) (bids asks : List Level) (is_snapshot : Bool)
      → (pruned b bids asks is_snapshot).max_levels_per_side ≡ b.max_levels_per_side
  unfolding updated cleared_for
  pruned_limit b bids asks true = prune_limit B _
  pruned_limit b bids asks false = prune_limit B _

  pub pruned-Shows :
      (b : OrderBook B) (xs ys bids asks : List Level) (is_snapshot : Bool)
      → AllPriced bids
      → AllPriced asks
      → IsTidy B xs ys
      → Shows B b xs ys
      → Shows B
          (pruned b bids asks is_snapshot)
          (next_levels bid_less b.max_levels_per_side is_snapshot xs bids)
          (next_levels ask_less b.max_levels_per_side is_snapshot ys asks)
  unfolding updated cleared_for
  pruned-Shows b xs ys bids asks true p q t h =
      prune-Shows B (updated B (cleared_for B true b) bids asks) _ _
        (updated-IsTidy B [] [] bids asks p q (cleared-IsTidy B xs ys true t))
        (updated-Shows B (cleared_for B true b) [] [] bids asks p q (cleared-IsTidy B xs ys true t)
          (cleared-Shows B b xs ys true h))
  pruned-Shows b xs ys bids asks false p q t h =
      prune-Shows B (updated B b bids asks) _ _ (updated-IsTidy B xs ys bids asks p q t)
        (updated-Shows B b xs ys bids asks p q t h)

  pub next-IsTidy :
      (max_levels : ℕ) (xs ys bids asks : List Level) (is_snapshot : Bool)
      → AllPriced bids
      → AllPriced asks
      → IsTidy B xs ys
      → IsTidy B
          (next_levels bid_less max_levels is_snapshot xs bids)
          (next_levels ask_less max_levels is_snapshot ys asks)
  next-IsTidy max_levels xs ys bids asks is_snapshot p q t =
      limit-IsTidy B max_levels _ _
        (updated-IsTidy B _ _ bids asks p q (cleared-IsTidy B xs ys is_snapshot t))

  pub empty-IsValid :
      (b : OrderBook B) → b.bids ≡ B.new_tree bid_less → b.asks ≡ B.new_tree ask_less → IsValid B b
  empty-IsValid b e f = record {
    xs = [];
    ys = [];
    shows = record { bids = rw e (B.new-Holds bid_less); asks = rw f (B.new-Holds ask_less) };
    tidy = record { bids_priced = tt; asks_priced = tt; bids_sorted = tt; asks_sorted = tt };
    bounded = λ h. (omega arith, omega arith);
    apart = tt;
  }

  settle_book-IsValid :
      (b : OrderBook B) (xs ys : List Level) (seq : ℤ)
      → Shows B b xs ys
      → IsTidy B xs ys
      → (0 < b.max_levels_per_side
          → (length xs ≤ b.max_levels_per_side) × (length ys ≤ b.max_levels_per_side))
      → IsValid B (settle_book B seq b).0
  unfolding settle_book
  settle_book-IsValid b xs ys seq s t n =
      elim (Bool-cases (is_crossed B (first_level B b.bids) (first_level B b.asks))) [
        | inl e ↦ rw (settle_book, e) (empty-IsValid _ refl refl)
        | inr e ↦
            rw (settle_book, e)
              record {
                xs = xs;
                ys = ys;
                shows = record { bids = s.bids; asks = s.asks };
                tidy = t;
                bounded = n;
                apart =
                    uncrossed-Below B xs ys t.bids_priced t.asks_priced t.bids_sorted t.asks_sorted
                      (ap₂ (is_crossed B) (sym (first_level-Holds bid_less b.bids xs s.bids))
                          (sym (first_level-Holds ask_less b.asks ys s.asks))
                        ∙ e);
              }
      ]

  after_check-IsValid :
      (b : OrderBook B) (seq : ℤ) (bids asks : List Level) (is_snapshot : Bool)
      (r : Result (Unit {0}))
      → check_delta B b seq bids asks is_snapshot ≡ r
      → IsValid B b
      → IsValid B (after_check B b seq bids asks is_snapshot r).0
  unfolding after_check
  after_check-IsValid b seq bids asks is_snapshot (err p) h v = v
  after_check-IsValid b seq bids asks is_snapshot (ok tt) h v =
      let (p, q) = check_priced b seq bids asks is_snapshot h in
      settle_book-IsValid (pruned b bids asks is_snapshot) _ _ seq
        (pruned-Shows b v.xs v.ys bids asks is_snapshot p q v.tidy v.shows)
        (next-IsTidy b.max_levels_per_side v.xs v.ys bids asks is_snapshot p q v.tidy)
        (rw (pruned_limit b bids asks is_snapshot) (λ n. (
          length-limit_levels B b.max_levels_per_side _ n,
          length-limit_levels B b.max_levels_per_side _ n,
        )))

  -- A book whose trees hold levels with finite positive prices, bids falling and asks rising, every
  -- bid below every ask, and no more levels on a side than a positive limit allows, is such a book
  -- after any delta or snapshot, whether it is applied, refused or leaves the book crossed.
  pub apply_delta-IsValid :
      (b : OrderBook B) (seq : ℤ) (bids asks : List Level) (is_snapshot : Bool)
      → IsValid B b
      → IsValid B (apply_delta B b seq bids asks is_snapshot).0
  unfolding apply_delta
  apply_delta-IsValid b seq bids asks is_snapshot v =
      after_check-IsValid b seq bids asks is_snapshot _ refl v
