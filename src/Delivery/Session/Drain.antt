-- ===== src/Delivery/Session/Drain.antt =====
-- Flush messages on a socket that works empty the queue, with and without batching.
use stream_analytics.Base.{ℕ, ◌+◌, ◌≤◌, ◌≡◌, List}
use stream_analytics.Delivery.Session.{Session}
use stream_analytics.Delivery.Session.Flush.{Round, returns, goes_on}
use stream_analytics.Delivery.Session.Moved.{Moved}

-- What a round does on a socket that works, with `left` events left of the batch.
data RoundMoved (left : ℕ) (s : Session) (r : Round) : Type 0 where
  emptied : (t : Session) → r ≡ returns t → Moved left s t → RoundMoved left s r
  moved_on :
      (n rest : ℕ) (t : Session)
      → n + rest ≡ left
      → 1 ≤ n
      → r ≡ goes_on rest t
      → Moved n s t
      → RoundMoved left s r
