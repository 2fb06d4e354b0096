-- ===== src/Aggregation/OrderBook/Tests.antt =====
-- A small book over sorted lists as trees.
use stream_analytics.Base.{◌≡◌, refl, ap, Bool, false, List, [], ◌∷◌, length, arith}
use stream_analytics.Base.Int.{ℤ, pos}
use stream_analytics.Base.Text.{text}
use stream_analytics.Base.Float.{Float, finite, zero_float, ltb_float, eq_float, is_nan, is_inf}
use stream_analytics.Envelope.{ok}
use stream_analytics.Aggregation.OrderBook.{
  Level, BTree, OrderBook, healthy, needs_resync, bid_less, ask_less, place, discard,
  validate_level, validate_levels, check_delta, apply_delta, after_check, settle_book, updated,
  prune, prune_tree, insert_all, cleared_for, first_level, is_crossed, apply_side_updates,
  apply_update,
}
use stream_analytics.Aggregation.OrderBook.Valid.{IsValid}
use stream_analytics.Aggregation.OrderBook.Apply.{apply_delta-IsValid, next_levels, empty-IsValid}
use stream_analytics.Aggregation.OrderBook.Refine.{Settled, apply_delta-refines}
use stream_analytics.Aggregation.OrderBook.Quantity.{
  quantity_at, last_quantity, quantity_at-updated,
}

-- A tree is its order and its items.
abbrev sorted_lists : BTree
sorted_lists = record {
  T = (Level → Level → Bool) × List Level;
  new_tree = λ less. (less, []);
  replace_or_insert = λ n t. (t.0, place t.0 n t.1);
  delete = λ n t. (t.0, discard t.0 n t.1);
  ascend = λ t. t.1;
  len = λ t. length t.1;
  Holds = λ less t xs. t ≡ (less, xs);
  new-Holds = λ less. refl;
  replace_or_insert-Holds = λ P less t xs n o ps p h.
      ap (λ (u : (Level → Level → Bool) × List Level). (u.0, place u.0 n u.1)) h;
  delete-Holds = λ P less t xs n o ps p h.
      ap (λ (u : (Level → Level → Bool) × List Level). (u.0, discard u.0 n u.1)) h;
  ascend-Holds = λ less t xs h. ap (λ (u : (Level → Level → Bool) × List Level). u.1) h;
  len-Holds = λ less t xs h. ap (λ (u : (Level → Level → Bool) × List Level). length u.1) h;
}

abbrev level : Float → Float → Level
level price quantity = record { price = price; quantity = quantity }

abbrev p : ℤ → Float
p n = finite n

-- At most two levels on a side.
abbrev empty_book : OrderBook sorted_lists
empty_book = record {
  venue = text "binance";
  instrument = text "BTCUSDT";
  last_seq = pos 0;
  bids = (bid_less, []);
  asks = (ask_less, []);
  max_levels_per_side = 2;
  last_pruned_levels = 0;
  state = healthy;
  events = [];
}

empty_book-IsValid : IsValid sorted_lists empty_book
empty_book-IsValid = empty-IsValid sorted_lists empty_book refl refl

abbrev some_bids : List Level
some_bids =
    level (p (pos 8)) (p (pos 1))
    ∷ level (p (pos 10)) (p (pos 2))
    ∷ level (p (pos 9)) (p (pos 3))
    ∷ level (p (pos 10)) (p (pos 5))
    ∷ []

abbrev some_asks : List Level
some_asks =
    level (p (pos 12)) (p (pos 1))
    ∷ level (p (pos 11)) (p (pos 1))
    ∷ level (p (pos 12)) (p (pos 0))
    ∷ []

apply_delta-IsValid_example :
    IsValid sorted_lists (apply_delta sorted_lists empty_book (pos 1) some_bids some_asks false).0
apply_delta-IsValid_example =
    apply_delta-IsValid sorted_lists empty_book (pos 1) some_bids some_asks false empty_book-IsValid

bids_left :
    (apply_delta sorted_lists empty_book (pos 1) some_bids some_asks false).0.bids.1
    ≡ level (p (pos 10)) (p (pos 5)) ∷ level (p (pos 9)) (p (pos 3)) ∷ []
unfolding apply_delta check_delta validate_levels validate_level after_check settle_book updated
    prune prune_tree insert_all cleared_for first_level is_crossed apply_side_updates apply_update
    place discard bid_less ask_less ltb_float eq_float is_nan is_inf
bids_left = refl

checked : check_delta sorted_lists empty_book (pos 1) some_bids some_asks false ≡ ok tt
unfolding check_delta validate_levels validate_level ltb_float eq_float is_nan is_inf
checked = refl

apply_delta-refines_example :
    let (b', r) = apply_delta sorted_lists empty_book (pos 1) some_bids some_asks false in
    Settled sorted_lists empty_book b'
      (pos 1)
      (next_levels bid_less 2 false [] some_bids)
      (next_levels ask_less 2 false [] some_asks)
      r
apply_delta-refines_example =
    apply_delta-refines sorted_lists empty_book (pos 1) some_bids some_asks false empty_book-IsValid
      checked

bids_valid : validate_levels some_bids ≡ ok tt
unfolding validate_levels validate_level ltb_float eq_float is_nan is_inf
bids_valid = refl

asks_valid : validate_levels some_asks ≡ ok tt
unfolding validate_levels validate_level ltb_float eq_float is_nan is_inf
asks_valid = refl

quantity_at-updated_example :
    let b' = updated sorted_lists empty_book some_bids some_asks in
    let n = level (p (pos 10)) zero_float in
    (quantity_at n b'.bids.1 ≡ last_quantity n some_bids (quantity_at n []))
    × (quantity_at n b'.asks.1 ≡ last_quantity n some_asks (quantity_at n []))
quantity_at-updated_example =
    quantity_at-updated sorted_lists empty_book some_bids some_asks (level (p (pos 10)) zero_float)
      empty_book-IsValid bids_valid asks_valid
      (record { ticks = pos 10; is_finite = refl; positive = omega arith })

-- A crossed book is cleared, and a delta after it makes it healthy without a snapshot.
abbrev crossed_book : OrderBook sorted_lists
crossed_book =
    (apply_delta sorted_lists empty_book (pos 1) (level (p (pos 5)) (p (pos 1)) ∷ [])
      (level (p (pos 5)) (p (pos 1)) ∷ []) false).0

crossed_then_healthy :
    (crossed_book.state ≡ needs_resync)
    × ((apply_delta sorted_lists crossed_book (pos 2) [] [] false).0.state ≡ healthy)
unfolding apply_delta check_delta validate_levels validate_level after_check settle_book updated
    prune prune_tree insert_all cleared_for first_level is_crossed apply_side_updates apply_update
    place discard bid_less ask_less ltb_float eq_float is_nan is_inf
crossed_then_healthy = (refl, refl)
