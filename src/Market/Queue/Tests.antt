-- ===== src/Market/Queue/Tests.antt =====
-- Runs of `wsQueue`, and each of its theorems at a concrete queue.
use stream_analytics.Base.{ℕ, ◌+◌, ◌≡◌, refl, List, [], ◌∷◌, ◌++◌, Option, some, length}
use mathlib.Core.List.Sublist
use stream_analytics.Base.Int.{pos}
use stream_analytics.Base.Text.{text, contains, is_empty}
use stream_analytics.Ring.{IsValid, init, push_back, remove_at, at}
use stream_analytics.Ring.Contents.{contents}
use stream_analytics.Ring.Window.{window}
use stream_analytics.Market.Queue.{
  WsMessage, WsQueue, drop_depth_keep_ops, is_depth, new_ws_queue, enqueue, pop, drop_index,
  find_first_depth, find_from,
}
use stream_analytics.Market.Queue.Spec.{find_idx, enqueue_spec}
use stream_analytics.Market.Queue.Refine.{queued, enqueue-refines}
use stream_analytics.Market.Queue.Laws.{
  new_ws_queue-IsValid, enqueue-IsValid, enqueue_accounts, keep_ops, enqueue_keeps_ops, Pops,
  pop-queued,
}
use stream_analytics.Market.Queue.Order.{
  Trace, enqueues, pops, closes, run, IsOrdered, run-IsOrdered,
}

abbrev frame : List ℕ → Option WsMessage
frame payload = some (record {
  exchange = text "binance";
  bucket_id = pos 1;
  consumer_id = text "c1";
  endpoint = text "wss://example";
  payload = payload;
  recv_at = 0;
})

abbrev trade : Option WsMessage
trade = frame (text "{\"e\":\"trade\"}")

abbrev depth : Option WsMessage
depth = frame (text "{\"e\":\"depthUpdate\"}")

abbrev empty : WsQueue
empty = new_ws_queue (pos 2) drop_depth_keep_ops

-- A full queue: a trade, then a depth update.
abbrev full : WsQueue
full = (enqueue (enqueue empty trade).0 depth).0

full-IsValid : IsValid full.ring
full-IsValid =
    enqueue-IsValid (enqueue empty trade).0 depth
      (enqueue-IsValid empty trade (new_ws_queue-IsValid (pos 2) drop_depth_keep_ops))

full_evicts_depth : queued (enqueue full trade).0 ≡ trade ∷ trade ∷ []
unfolding enqueue new_ws_queue queued is_depth contents window init push_back is_empty contains
    remove_at drop_index find_first_depth find_from at find_idx
full_evicts_depth = refl

enqueue-refines_example :
    (queued (enqueue full trade).0, (enqueue full trade).1, (enqueue full trade).2)
    ≡ enqueue_spec full.closed full.policy full.ring.cap (queued full) trade
enqueue-refines_example = enqueue-refines full trade full-IsValid

enqueue-IsValid_example : IsValid (enqueue full trade).0.ring
enqueue-IsValid_example = enqueue-IsValid full trade full-IsValid

enqueue_accounts_example :
    length (queued (enqueue full trade).0) + (enqueue full trade).1 ≡ length (queued full) + 1
enqueue_accounts_example = enqueue_accounts full trade full-IsValid

enqueue_keeps_ops_example :
    keep_ops (queued (enqueue full trade).0) ≡ keep_ops (queued full) ++ keep_ops (trade ∷ [])
unfolding enqueue new_ws_queue queued is_depth contents window init push_back is_empty contains
    remove_at drop_index find_first_depth find_from at find_idx
enqueue_keeps_ops_example = enqueue_keeps_ops full trade 1 full-IsValid refl refl refl

pop-queued_example : Pops full (queued full) (pop full)
pop-queued_example = pop-queued full full-IsValid

abbrev start : Trace
start = record { queue = full; offered = trade ∷ depth ∷ []; taken = [] }

start-IsOrdered : IsOrdered start
unfolding enqueue new_ws_queue queued is_depth contents window init push_back is_empty contains
    remove_at drop_index find_first_depth find_from at find_idx
start-IsOrdered = record { valid = full-IsValid; ordered = Sublist.refl _ }

run-IsOrdered_example :
    IsOrdered (run start (enqueues trade ∷ pops ∷ closes ∷ enqueues depth ∷ pops ∷ pops ∷ []))
run-IsOrdered_example =
    run-IsOrdered start (enqueues trade ∷ pops ∷ closes ∷ enqueues depth ∷ pops ∷ pops ∷ [])
      start-IsOrdered
