-- ===== src/Market/Queue/Spec.antt =====
-- The list that `wsQueue` stands for, and `Enqueue` as an operation on it: a closed queue refuses,
-- a queue with room appends, and a full one makes room as its policy says.
use stream_analytics.Base.{
  ℕ, suc, Bool, true, false, List, [], ◌∷◌, ◌++◌, Option, none, some, ltb, length, if◌then◌else◌,
}
use stream_analytics.Base.Slots.{erase_idx}
use stream_analytics.Market.Queue.{
  WsMessage, BackpressurePolicy, drop_depth_keep_ops, is_depth, is_liquidation, is_mark_price,
}

abbrev pub next_idx : Option ℕ → Option ℕ
next_idx none = none
next_idx (some k) = some (suc k)

abbrev pub or_zero : Option ℕ → ℕ
or_zero none = 0
or_zero (some k) = k

-- The first index whose entry passes the test.
unfoldable pub find_idx : (Option WsMessage → Bool) → List (Option WsMessage) → Option ℕ
find_idx p [] = none
find_idx p (x ∷ xs) = if p x then some 0 else next_idx (find_idx p xs)

-- The entry that gives way to `msg`: the oldest depth update; for a mark price and with no depth
-- update queued, the oldest liquidation; the oldest entry otherwise.
unfoldable pub victim : Option WsMessage → List (Option WsMessage) → ℕ
victim msg xs = elim (find_idx is_depth xs) [
  | some i ↦ i
  | none ↦ or_zero (if is_mark_price msg then find_idx is_liquidation xs else none)
]

unfoldable pub make_room :
    BackpressurePolicy → Option WsMessage → List (Option WsMessage) → List (Option WsMessage)
make_room drop_depth_keep_ops msg xs =
    if is_depth msg then xs else erase_idx (victim msg xs) xs ++ msg ∷ []
make_room _ msg xs = erase_idx 0 xs ++ msg ∷ []

unfoldable pub enqueue_spec :
    Bool
    → BackpressurePolicy
    → ℕ
    → List (Option WsMessage)
    → Option WsMessage
    → List (Option WsMessage) × ℕ × Bool
enqueue_spec closed policy capacity xs msg =
    if closed
    then (xs, 1, false)
    else if ltb (length xs) capacity
    then (xs ++ msg ∷ [], 0, false)
    else (make_room policy msg xs, 1, true)
