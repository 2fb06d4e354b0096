-- ===== src/Aggregation/OrderBook.antt =====
-- The order book: internal/core/aggregation/domain/btree_orderbook.go, with `Level`, `validateLevel`
-- and `HealthState` of orderbook.go, and orderbook_policy.go. The B-tree of github.com/google/btree is
-- a parameter. The pruning strategy is `FurthestFromMidPruneStrategy`, the only one. Messages and
-- details of problems are left out, and so is `Spread`, which subtracts floats.
pub mod Sides
pub mod Levels
pub mod Valid
pub mod Apply
pub mod Refine
pub mod Quantity
mod Tests
use stream_analytics.Base.{
  ℕ, ◌+◌, ◌-◌, ◌≡◌, Bool, true, false, not, ◌&&◌, ◌||◌, List, [], ◌∷◌, ◌++◌, Option, none, some,
  length, take, leb, if◌then◌else◌,
}
use stream_analytics.Base.Int.{ℤ, pos, pos_part, ltb_ℤ, leb_ℤ}
use stream_analytics.Base.Text.{Text, trim_space, is_empty}
use stream_analytics.Base.Float.{Float, zero_float, ltb_float, eq_float, is_nan, is_inf}
use stream_analytics.Envelope.{
  Problem, validation_failed, out_of_order, integrity_violation, Result, ok, err, ◌>>=◌, refuse_if,
  ◌>>◌,
}

pub record Level : Type 0 where
  pub price : Float
  pub quantity : Float

-- The orders of `newBidTree` and `newAskTree`.
unfoldable pub bid_less : Level → Level → Bool
bid_less a b = ltb_float b.price a.price

unfoldable pub ask_less : Level → Level → Bool
ask_less a b = ltb_float a.price b.price

-- A list in the order of `less`, with one more item, which replaces an equal one.
unfoldable pub place : (Level → Level → Bool) → Level → List Level → List Level
place less n [] = n ∷ []
place less n (x ∷ xs) =
    let rest = place less n xs in
    if less n x then n ∷ x ∷ xs else if less x n then x ∷ rest else n ∷ xs

-- A list in the order of `less` without the item that is equal to `n`.
unfoldable pub discard : (Level → Level → Bool) → Level → List Level → List Level
discard less n [] = []
discard less n (x ∷ xs) =
    let rest = discard less n xs in if less n x then x ∷ xs else if less x n then x ∷ rest else xs

-- A strict weak order on the items of which `P` holds, as `btree` asks for it.
pub record IsWeakOrder (P : Level → Type 0) (less : Level → Level → Bool) : Type 0 where
  pub asym : (a b : Level) → P a → P b → less a b ≡ true → less b a ≡ false
  pub trans :
      (a b c : Level) → P a → P b → P c → less a b ≡ true → less b c ≡ true → less a c ≡ true
  pub same :
      (a b c : Level) → P a → P b → P c → less a b ≡ false → less b a ≡ false → less b c ≡ less a c

abbrev pub All : (Level → Type 0) → List Level → Type 0
All P [] = Unit
All P (x ∷ xs) = P x × All P xs

-- What the code uses of `btree.BTreeG`: `Holds less t xs` says that the tree `t`, made with `less`,
-- has the items `xs`, which `Ascend` visits in this order.
pub record BTree : Type 1 where
  pub T : Type 0
  pub new_tree : (Level → Level → Bool) → T
  pub replace_or_insert : Level → T → T
  pub delete : Level → T → T
  pub ascend : T → List Level
  pub len : T → ℕ
  pub Holds : (Level → Level → Bool) → T → List Level → Type 0
  pub new-Holds : (less : Level → Level → Bool) → Holds less (new_tree less) []
  pub replace_or_insert-Holds :
      (P : Level → Type 0) (less : Level → Level → Bool) (t : T) (xs : List Level) (n : Level)
      → IsWeakOrder P less
      → All P xs
      → P n
      → Holds less t xs
      → Holds less (replace_or_insert n t) (place less n xs)
  pub delete-Holds :
      (P : Level → Type 0) (less : Level → Level → Bool) (t : T) (xs : List Level) (n : Level)
      → IsWeakOrder P less
      → All P xs
      → P n
      → Holds less t xs
      → Holds less (delete n t) (discard less n xs)
  pub ascend-Holds :
      (less : Level → Level → Bool) (t : T) (xs : List Level) → Holds less t xs → ascend t ≡ xs
  pub len-Holds :
      (less : Level → Level → Bool) (t : T) (xs : List Level) → Holds less t xs → len t ≡ length xs

pub data HealthState : Type 0 where
  healthy needs_resync : HealthState

-- `validateLevel`.
unfoldable pub validate_level : Level → Result (Unit {0})
validate_level l = do
  refuse_if (is_nan l.price) validation_failed
  refuse_if (is_inf l.price) validation_failed
  refuse_if (ltb_float l.price zero_float) validation_failed
  refuse_if (eq_float l.price zero_float) validation_failed
  refuse_if (is_nan l.quantity) validation_failed
  refuse_if (is_inf l.quantity) validation_failed
  refuse_if (ltb_float l.quantity zero_float) validation_failed

unfoldable pub validate_levels : List Level → Result (Unit {0})
validate_levels [] = ok tt
validate_levels (l ∷ ls) = validate_level l >> validate_levels ls

-- The limit of `NewOrderBookLimitsPolicy`.
pub new_limits_policy : ℤ → Result ℕ
new_limits_policy max_levels =
    if ltb_ℤ max_levels (pos 0) then err validation_failed else ok (pos_part max_levels)

-- `levelNode{Price: u.Price}`.
abbrev pub level_key : Level → Level
level_key u = record { price = u.price; quantity = zero_float }

module _ (B : BTree) where
  -- `events` holds the sequence numbers of the `OrderBookInconsistentDetected` events.
  pub record OrderBook : Type 0 where
    pub venue : Text
    pub instrument : Text
    pub last_seq : ℤ
    pub bids : B.T
    pub asks : B.T
    pub max_levels_per_side : ℕ
    pub last_pruned_levels : ℕ
    pub state : HealthState
    pub events : List ℤ

  pub new_order_book : Text → Text → ℕ → Result OrderBook
  new_order_book venue instrument max_levels = do
    refuse_if (is_empty (trim_space venue)) validation_failed
    refuse_if (is_empty (trim_space instrument)) validation_failed
    ok record {
      venue = venue;
      instrument = instrument;
      last_seq = pos 0;
      bids = B.new_tree bid_less;
      asks = B.new_tree ask_less;
      max_levels_per_side = max_levels;
      last_pruned_levels = 0;
      state = healthy;
      events = [];
    }

  unfoldable pub first_level : B.T → Option Level
  first_level t = elim (B.ascend t) [ [] ↦ none | ◌∷◌ l _ ↦ some l ]

  -- One update of `applySideUpdates`.
  unfoldable pub apply_update : B.T → Level → B.T
  apply_update t u =
      if eq_float u.quantity zero_float then B.delete (level_key u) t else B.replace_or_insert u t

  unfoldable pub apply_side_updates : B.T → List Level → B.T
  apply_side_updates t [] = t
  apply_side_updates t (u ∷ us) = apply_side_updates (apply_update t u) us

  -- The loop that fills a new tree with the levels kept.
  unfoldable pub insert_all : B.T → List Level → B.T
  insert_all t [] = t
  insert_all t (n ∷ ns) = insert_all (B.replace_or_insert n t) ns

  -- `pruneBidTree` and `pruneAskTree`: the tree and the number of levels removed.
  unfoldable pub prune_tree : (Level → Level → Bool) → ℕ → B.T → B.T × ℕ
  prune_tree less max_levels t =
      let kept = take max_levels (B.ascend t) in
      if leb (B.len t) max_levels
      then (t, 0)
      else (insert_all (B.new_tree less) kept, B.len t - length kept)

  -- `Prune`, which does nothing without a limit.
  unfoldable pub prune : OrderBook → OrderBook
  prune b =
      let (bids, from_bids) = prune_tree bid_less b.max_levels_per_side b.bids in
      let (asks, from_asks) = prune_tree ask_less b.max_levels_per_side b.asks in
      if leb b.max_levels_per_side 0
      then record b { last_pruned_levels = 0 }
      else record b { bids = bids; asks = asks; last_pruned_levels = from_bids + from_asks }

  -- `checkSpread`: `a >= b` is `a > b || a == b`.
  unfoldable pub is_crossed : Option Level → Option Level → Bool
  is_crossed none _ = false
  is_crossed (some bid) none = false
  is_crossed (some bid) (some ask) = ltb_float ask.price bid.price || eq_float ask.price bid.price

  -- The end of `applyDelta`.
  unfoldable pub settle_book : ℤ → OrderBook → OrderBook × Result (Unit {0})
  settle_book seq b =
      if is_crossed (first_level b.bids) (first_level b.asks)
      then (
        record b {
          state = needs_resync;
          last_seq = seq;
          events = b.events ++ seq ∷ [];
          bids = B.new_tree bid_less;
          asks = B.new_tree ask_less;
        },
        err integrity_violation,
      )
      else (record b { state = healthy; last_seq = seq }, ok tt)

  -- The checks of `applyDelta`.
  unfoldable pub check_delta : OrderBook → ℤ → List Level → List Level → Bool → Result (Unit {0})
  check_delta b seq bids asks is_snapshot = do
    refuse_if (leb_ℤ seq (pos 0)) validation_failed
    refuse_if (leb_ℤ seq b.last_seq && not is_snapshot) out_of_order
    validate_levels bids
    validate_levels asks

  -- The new trees of a snapshot.
  unfoldable pub cleared_for : Bool → OrderBook → OrderBook
  cleared_for is_snapshot b =
      if is_snapshot then record b { bids = B.new_tree bid_less; asks = B.new_tree ask_less } else b

  unfoldable pub updated : OrderBook → List Level → List Level → OrderBook
  updated b bids asks = record b {
    bids = apply_side_updates b.bids bids;
    asks = apply_side_updates b.asks asks;
  }

  unfoldable pub after_check :
      OrderBook
      → ℤ
      → List Level
      → List Level
      → Bool
      → Result (Unit {0})
      → OrderBook × Result (Unit {0})
  after_check b seq bids asks is_snapshot (err p) = (b, err p)
  after_check b seq bids asks is_snapshot (ok _) =
      settle_book seq (prune (updated (cleared_for is_snapshot b) bids asks))

  -- `ApplyDelta` and `ApplySnapshot` are the two cases of `is_snapshot`.
  unfoldable pub apply_delta :
      OrderBook → ℤ → List Level → List Level → Bool → OrderBook × Result (Unit {0})
  apply_delta b seq bids asks is_snapshot =
      after_check b seq bids asks is_snapshot (check_delta b seq bids asks is_snapshot)

  -- `TopN` on one side, with `levelsFromTreeLimited`.
  unfoldable pub top_n : B.T → ℤ → List Level
  top_n t n =
      if leb_ℤ n (pos 0) || leb_ℤ (pos (B.len t)) n
      then B.ascend t
      else take (pos_part n) (B.ascend t)

  -- `PullDomainEvents`.
  pub pull_domain_events : OrderBook → OrderBook × List ℤ
  pull_domain_events b = (record b { events = [] }, b.events)
