-- ===== src/Market/Queue.antt =====
-- internal/actors/marketdata/runtime/backpressure_queue.go: the bounded queue between the
-- websocket readers and the parser (`wsQueue`). A method that mutates the receiver returns the new
-- queue; the mutex makes each method one step. `*ws.WsMessage` is an option, nil being `none`.
pub mod Spec
pub mod Refine
pub mod Laws
pub mod Order
mod Tests
use stream_analytics.Base.{
  ℕ, zero, suc, ◌+◌, Bool, true, false, ◌&&◌, List, get_or, Option, none, some, ltb, ◌==◌,
  if◌then◌else◌, not,
}
use stream_analytics.Base.Int.{ℤ, pos, pos_part, leb_ℤ}
use stream_analytics.Base.Text.{Text, text, text_eq, contains, is_empty}
use stream_analytics.Ring.{Ring, push_back, advance, at, remove_at}
use stream_analytics.Ring

-- `ws.WsMessage`.
pub record WsMessage : Type 0 where
  pub exchange : Text
  pub bucket_id : ℤ
  pub consumer_id : Text
  pub endpoint : Text
  pub payload : List ℕ
  pub recv_at : ℕ

-- The string type `BackpressurePolicy`: its two constants and any other text.
pub data BackpressurePolicy : Type 0 where
  drop_oldest : BackpressurePolicy
  drop_depth_keep_ops : BackpressurePolicy
  other : Text → BackpressurePolicy

pub normalize_backpressure_policy : Text → BackpressurePolicy
normalize_backpressure_policy raw =
    if text_eq raw (text "drop_oldest")
    then drop_oldest
    else if text_eq raw (text "drop_depth_keep_trades")
    then drop_depth_keep_ops
    else drop_depth_keep_ops

-- `buf`, `head`, `count` and `capacity` are the ring's fields.
pub record WsQueue : Type 0 where
  pub policy : BackpressurePolicy
  pub ring : Ring (Option WsMessage)
  pub closed : Bool

pub new_ws_queue : ℤ → BackpressurePolicy → WsQueue
new_ws_queue capacity policy = record {
  policy = policy;
  ring = Ring.init none (if leb_ℤ capacity (pos 0) then 1024 else pos_part capacity);
  closed = false;
}

pub close : WsQueue → WsQueue
close q = record q { closed = true }

has_token : Text → Option WsMessage → Bool
has_token token none = false
has_token token (some msg) = not (is_empty msg.payload) && contains msg.payload token

pub is_depth : Option WsMessage → Bool
unfolding has_token
is_depth = has_token (text "\"depthUpdate\"")

pub is_liquidation : Option WsMessage → Bool
unfolding has_token
is_liquidation = has_token (text "\"forceOrder\"")

pub is_mark_price : Option WsMessage → Bool
unfolding has_token
is_mark_price = has_token (text "\"markPriceUpdate\"")

-- The loop of `findFirstDepth` and `findFirstLiquidation`, at index `i` with `rounds` rounds left;
-- `none` is -1.
pub find_from : (Option WsMessage → Bool) → Ring (Option WsMessage) → ℕ → ℕ → Option ℕ
find_from p r i zero = none
find_from p r i (suc rounds) = if p (at none r i) then some i else find_from p r (i + 1) rounds

pub find_first_depth : Ring (Option WsMessage) → Option ℕ
find_first_depth r = find_from is_depth r 0 r.count

pub find_first_liquidation : Ring (Option WsMessage) → Option ℕ
find_first_liquidation r = find_from is_liquidation r 0 r.count

pub or_liquidation : WsQueue → Option WsMessage → Option ℕ → Option ℕ
or_liquidation q msg (some i) = some i
or_liquidation q msg none = if is_mark_price msg then find_first_liquidation q.ring else none

pub or_head : Option ℕ → ℕ
or_head (some i) = i
or_head none = 0

-- `dropIdx` after its two fallbacks.
pub drop_index : WsQueue → Option WsMessage → ℕ
unfolding or_liquidation or_head
drop_index q msg = or_head (or_liquidation q msg (find_first_depth q.ring))

pub replace_head : WsQueue → Option WsMessage → WsQueue
replace_head q msg = record q { ring = push_back none (advance none q.ring) msg }

-- The `switch` of a full queue.
pub enqueue_full : BackpressurePolicy → WsQueue → Option WsMessage → WsQueue × ℕ × Bool
unfolding replace_head
enqueue_full drop_oldest q msg = (replace_head q msg, 1, true)
enqueue_full drop_depth_keep_ops q msg = if is_depth msg then (q, 1, true) else (
  record q { ring = push_back none (remove_at none q.ring (drop_index q msg)) msg },
  1,
  true,
)
enqueue_full (other _) q msg = (replace_head q msg, 1, true)

-- The new queue, how many messages were dropped, and whether the queue was full.
pub enqueue : WsQueue → Option WsMessage → WsQueue × ℕ × Bool
unfolding enqueue_full
enqueue q msg =
    if q.closed
    then (q, 1, false)
    else if ltb q.ring.count q.ring.cap
    then (record q { ring = push_back none q.ring msg }, 0, false)
    else enqueue_full q.policy q msg

-- `Pop` waits while the queue is empty and open.
pub data PopResult : Type 0 where
  waits : PopResult
  ended : PopResult
  popped : Option WsMessage → WsQueue → PopResult

pub pop : WsQueue → PopResult
pop q =
    if q.ring.count == 0
    then (if q.closed then ended else waits)
    else popped (get_or q.ring.buf q.ring.head none) (record q { ring = advance none q.ring })

pub len : WsQueue → ℕ
len q = q.ring.count
