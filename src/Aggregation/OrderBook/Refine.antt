-- ===== src/Aggregation/OrderBook/Refine.antt =====
-- `applyDelta` by the lists of levels that the trees hold.
use stream_analytics.Base.{
  ◌≡◌, refl, ap, ap₂, Bool, true, false, List, [], ◌∷◌, ◌++◌, arith, Bool-cases, inl, inr,
}
use stream_analytics.Base.Int.{ℤ}
use stream_analytics.Envelope.{Result, ok, err, integrity_violation}
use stream_analytics.Aggregation.OrderBook.{
  Level, BTree, OrderBook, healthy, needs_resync, bid_less, ask_less, first_level, is_crossed,
  settle_book, check_delta, cleared_for, updated, prune, after_check, apply_delta,
}
use stream_analytics.Aggregation.OrderBook.Valid.{first, Shows, IsValid}
use stream_analytics.Aggregation.OrderBook.Apply.{
  next_levels, pruned, pruned-Shows, check_priced, first_level-Holds,
}

module _ (B : BTree) where
  -- The effect of a delta or snapshot on `b`, of which `xs` and `ys` are the sides after its updates.
  pub record Settled (b b' : OrderBook B) (seq : ℤ) (xs ys : List Level) (r : Result (Unit {0}))
      : Type 0 where
    pub applied :
        is_crossed B (first xs) (first ys) ≡ false
        → (r ≡ ok tt)
          × (B.ascend b'.bids ≡ xs)
          × (B.ascend b'.asks ≡ ys)
          × (b'.state ≡ healthy)
          × (b'.events ≡ b.events)
    pub crossed :
        is_crossed B (first xs) (first ys) ≡ true
        → (r ≡ err integrity_violation)
          × (B.ascend b'.bids ≡ [])
          × (B.ascend b'.asks ≡ [])
          × (b'.state ≡ needs_resync)
          × (b'.events ≡ b.events ++ seq ∷ [])
    pub numbered : b'.last_seq ≡ seq

  pruned_events :
      (b : OrderBook B) (bids asks : List Level) (is_snapshot : Bool)
      → (pruned B b bids asks is_snapshot).events ≡ b.events
  unfolding prune updated cleared_for
  pruned_events b bids asks true = ground arith
  pruned_events b bids asks false = ground arith

  settle_book-Settled :
      (b b0 : OrderBook B) (seq : ℤ) (xs ys : List Level)
      → b0.events ≡ b.events
      → Shows B b0 xs ys
      → Settled b (settle_book B seq b0).0 seq xs ys (settle_book B seq b0).1
  unfolding settle_book
  settle_book-Settled b b0 seq xs ys v s =
      let same : is_crossed B (first_level B b0.bids) (first_level B b0.asks)
          ≡ is_crossed B (first xs) (first ys) =
        ap₂ (is_crossed B) (first_level-Holds B bid_less b0.bids xs s.bids)
          (first_level-Holds B ask_less b0.asks ys s.asks) in
      elim (Bool-cases (is_crossed B (first_level B b0.bids) (first_level B b0.asks))) [
        | inl e ↦
            rw (settle_book, e)
              record {
                applied = λ h. absurd (cc (same, e, h));
                crossed = λ h. (
                  refl,
                  B.ascend-Holds bid_less (B.new_tree bid_less) [] (B.new-Holds bid_less),
                  B.ascend-Holds ask_less (B.new_tree ask_less) [] (B.new-Holds ask_less),
                  refl,
                  ap (λ (es : List ℤ). es ++ seq ∷ []) v,
                );
                numbered = refl;
              }
        | inr e ↦
            rw (settle_book, e)
              record {
                applied = λ h. (
                  refl,
                  B.ascend-Holds bid_less b0.bids xs s.bids,
                  B.ascend-Holds ask_less b0.asks ys s.asks,
                  refl,
                  v,
                );
                crossed = λ h. absurd (cc (same, e, h));
                numbered = refl;
              }
      ]

  -- A delta or snapshot that passes the checks leaves a valid book with the number `seq` and, on each
  -- side, the levels of before, none for a snapshot, with the updates made one after the other and then
  -- cut to the limit; but if the best bid is then not below the best ask, both sides are empty, the book
  -- needs a resync and records an inconsistency, and otherwise it is healthy.
  pub apply_delta-refines :
      (b : OrderBook B) (seq : ℤ) (bids asks : List Level) (is_snapshot : Bool)
      → IsValid B b
      → check_delta B b seq bids asks is_snapshot ≡ ok tt
      → let (b', r) = apply_delta B b seq bids asks is_snapshot in
        Settled b b' seq
          (next_levels bid_less b.max_levels_per_side is_snapshot (B.ascend b.bids) bids)
          (next_levels ask_less b.max_levels_per_side is_snapshot (B.ascend b.asks) asks)
          r
  unfolding apply_delta after_check
  apply_delta-refines b seq bids asks is_snapshot v h =
      let (p, q) = check_priced B b seq bids asks is_snapshot h in
      rw
        (
          apply_delta,
          h,
          B.ascend-Holds bid_less b.bids v.xs v.shows.bids,
          B.ascend-Holds ask_less b.asks v.ys v.shows.asks,
        )
        (settle_book-Settled b (pruned B b bids asks is_snapshot) seq _ _
          (pruned_events b bids asks is_snapshot)
          (pruned-Shows B b v.xs v.ys bids asks is_snapshot p q v.tidy v.shows))
