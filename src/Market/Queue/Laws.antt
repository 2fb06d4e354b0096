-- ===== src/Market/Queue/Laws.antt =====
-- What a client of `wsQueue` can rely on: validity, accounting, and which messages survive.
use mathlib.Core.List.{append-nil}
use stream_analytics.Base.{
  ℕ, zero, suc, ◌+◌, ◌<◌, ◌≡◌, refl, ap, ap₂, sym, ◌∙◌, Bool, true, false, List, [], ◌∷◌, ◌++◌,
  Option, none, some, arith, ltb, length, length-append, if◌then◌else◌, Bool-cases, inl, inr,
  get_or, ltb→lt, ◌==◌,
}
use stream_analytics.Base.Int.{ℤ, pos, negsuc}
use stream_analytics.Base.Slots.{erase_idx, length-erase_idx}
use stream_analytics.Ring.{IsValid, advance}
use stream_analytics.Ring.Contents.{
  push_back-IsValid, advance-IsValid, contents-advance, advance-room, init-IsValid,
}
use stream_analytics.Ring.Removal.{remove_at-IsValid, remove_at-room}
use stream_analytics.Market.Queue.{
  WsMessage, WsQueue, BackpressurePolicy, drop_oldest, drop_depth_keep_ops, other, is_depth,
  drop_index, enqueue, enqueue_full, replace_head, new_ws_queue, PopResult, pop, popped, waits,
  ended,
}
use stream_analytics.Market.Queue.Spec.{find_idx, victim, make_room, enqueue_spec}
use stream_analytics.Market.Queue.Refine.{
  queued, length-queued, enqueue-refines, victim-lt, drop_index-lt,
}

replace_head-IsValid :
    (q : WsQueue) (msg : Option WsMessage)
    → IsValid q.ring
    → 0 < q.ring.count
    → IsValid (replace_head q msg).ring
unfolding replace_head
replace_head-IsValid q msg v h =
    push_back-IsValid none msg (advance-IsValid none v) (advance-room none q.ring v h)

enqueue_full-IsValid :
    (policy : BackpressurePolicy) (q : WsQueue) (msg : Option WsMessage)
    → IsValid q.ring
    → 0 < q.ring.count
    → IsValid (enqueue_full policy q msg).0.ring
unfolding enqueue_full
enqueue_full-IsValid drop_oldest q msg v h = replace_head-IsValid q msg v h
enqueue_full-IsValid (other t) q msg v h = replace_head-IsValid q msg v h
enqueue_full-IsValid drop_depth_keep_ops q msg v h = elim (Bool-cases (is_depth msg)) [
  | inl e ↦ rw e v
  | inr e ↦ rw e (
      push_back-IsValid none msg (remove_at-IsValid none (drop_index q msg) v)
        (remove_at-room none q.ring (drop_index q msg) v (drop_index-lt q msg h)))
]

-- A new queue is valid, whatever capacity was asked for.
pub new_ws_queue-IsValid :
    (capacity : ℤ) (policy : BackpressurePolicy) → IsValid (new_ws_queue capacity policy).ring
unfolding new_ws_queue
new_ws_queue-IsValid (pos n) policy = init-IsValid none _ (ground arith)
new_ws_queue-IsValid (negsuc n) policy = init-IsValid none _ (ground arith)

-- `Enqueue` keeps a queue valid: the
-- buffer stays of its length, the head inside it, and the count within the capacity.
pub enqueue-IsValid :
    (q : WsQueue) (msg : Option WsMessage) → IsValid q.ring → IsValid (enqueue q msg).0.ring
unfolding enqueue
enqueue-IsValid q msg v = elim (Bool-cases q.closed) [
  | inl c ↦ rw c v
  | inr o ↦ elim (Bool-cases (ltb q.ring.count q.ring.cap)) [
    | inl room ↦ rw (o, room) (push_back-IsValid none msg v (ltb→lt _ _ room))
    | inr full ↦ simp (o, full) (enqueue_full-IsValid q.policy q msg v (ground (arith, v.positive)))
  ]
]

spec_accounts :
    (closed : Bool) (policy : BackpressurePolicy) (capacity : ℕ) (xs : List (Option WsMessage))
    (msg : Option WsMessage)
    → 0 < capacity
    → let (ys, dropped, entered) = enqueue_spec closed policy capacity xs msg in
      length ys + dropped ≡ length xs + 1
unfolding enqueue_spec make_room
spec_accounts closed drop_depth_keep_ops capacity xs msg h = ground (
  arith,
  length-append xs (msg ∷ []),
  length-append (erase_idx (victim msg xs) xs) (msg ∷ []),
  length-erase_idx (victim msg xs) xs,
  victim-lt msg xs,
)
spec_accounts closed _ capacity xs msg h = ground (
  arith,
  length-append xs (msg ∷ []),
  length-append (erase_idx 0 xs) (msg ∷ []),
  length-erase_idx 0 xs,
)

-- On a valid ring no message is lost uncounted: what is queued after `Enqueue`, with the drops that
-- it reports, makes up what was queued before and the new message.
pub enqueue_accounts :
    (q : WsQueue) (msg : Option WsMessage)
    → IsValid q.ring
    → length (queued (enqueue q msg).0) + (enqueue q msg).1 ≡ length (queued q) + 1
enqueue_accounts q msg v =
    ap (λ (t : List (Option WsMessage) × ℕ × Bool). length t.0 + t.1) (enqueue-refines q msg v)
    ∙ spec_accounts q.closed q.policy q.ring.cap (queued q) msg v.positive

-- The messages that are not depth updates, in order.
pub keep_ops : List (Option WsMessage) → List (Option WsMessage)
keep_ops [] = []
keep_ops (x ∷ xs) = if is_depth x then keep_ops xs else x ∷ keep_ops xs

keep_ops-append :
    (xs ys : List (Option WsMessage)) → keep_ops (xs ++ ys) ≡ keep_ops xs ++ keep_ops ys
unfolding keep_ops
keep_ops-append [] ys = refl
keep_ops-append (x ∷ xs) ys = ground (arith, keep_ops-append xs ys)

-- Taking the first depth update out leaves the rest alone.
keep_ops-erase_depth :
    (xs : List (Option WsMessage)) (k : ℕ)
    → find_idx is_depth xs ≡ some k
    → keep_ops (erase_idx k xs) ≡ keep_ops xs
unfolding keep_ops find_idx erase_idx
keep_ops-erase_depth [] k e = cc
keep_ops-erase_depth (x ∷ xs) zero e = ground arith
keep_ops-erase_depth (x ∷ xs) (suc k) e = ground (arith, keep_ops-erase_depth xs k)

spec_keeps_ops :
    (capacity : ℕ) (xs : List (Option WsMessage)) (msg : Option WsMessage) (k : ℕ)
    → find_idx is_depth xs ≡ some k
    → keep_ops (enqueue_spec false drop_depth_keep_ops capacity xs msg).0
      ≡ keep_ops xs ++ keep_ops (msg ∷ [])
unfolding enqueue_spec make_room victim keep_ops
spec_keeps_ops capacity xs msg k e = ground (
  arith,
  keep_ops-append xs (msg ∷ []),
  keep_ops-append (erase_idx k xs) (msg ∷ []),
  keep_ops-erase_depth xs k e,
  append-nil (keep_ops xs),
)

-- Under `drop_depth_keep_trades`, while a depth update is queued, `Enqueue` on an open queue with a
-- valid ring loses no other message: those that are not depth updates stay, in order, and the new
-- one is added if it is not one.
pub enqueue_keeps_ops :
    (q : WsQueue) (msg : Option WsMessage) (k : ℕ)
    → IsValid q.ring
    → q.closed ≡ false
    → q.policy ≡ drop_depth_keep_ops
    → find_idx is_depth (queued q) ≡ some k
    → keep_ops (queued (enqueue q msg).0) ≡ keep_ops (queued q) ++ keep_ops (msg ∷ [])
enqueue_keeps_ops q msg k v o p e =
    ap (λ (t : List (Option WsMessage) × ℕ × Bool). keep_ops t.0) (enqueue-refines q msg v)
    ∙ ap₂ (λ c policy. keep_ops (enqueue_spec c policy q.ring.cap (queued q) msg).0) o p
    ∙ spec_keeps_ops q.ring.cap (queued q) msg k e

abbrev pub Pops : WsQueue → List (Option WsMessage) → PopResult → Type 0
Pops q [] r = r ≡ (if q.closed then ended else waits)
Pops q (x ∷ xs) r =
    (q' : WsQueue) × (r ≡ popped x q') × (queued q' ≡ xs) × IsValid q'.ring × (q'.closed ≡ q.closed)

queued-Pops :
    (q : WsQueue) (xs : List (Option WsMessage))
    → IsValid q.ring
    → queued q ≡ xs
    → Pops q xs (pop q)
unfolding pop
queued-Pops q [] v e =
    simp (
      let empty : (q.ring.count == 0) ≡ true = ground (arith, ap length e, length-queued q) in
      empty)
queued-Pops q (x ∷ xs) v e = (
  record q { ring = advance none q.ring },
  simp busy (ap (λ m. popped m (record q { ring = advance none q.ring })) (cc split)),
  cc split,
  advance-IsValid none v,
  refl,
)
  where
    busy : (q.ring.count == 0) ≡ false
    busy = ground (arith, ap length e, length-queued q)

    live : 0 < q.ring.count
    live = omega (arith, ap length e, length-queued q)

    split :
        x ∷ xs
        ≡ get_or q.ring.buf q.ring.head none ∷ queued (record q { ring = advance none q.ring })
    split = sym e ∙ (unfold queued in contents-advance none q.ring v live)

-- On a valid ring `Pop` takes the oldest message, waits on an empty open queue, and ends on an empty
-- closed one, so a closed queue is drained before it ends.
pub pop-queued : (q : WsQueue) → IsValid q.ring → Pops q (queued q) (pop q)
pop-queued q v = queued-Pops q (queued q) v refl
