-- ===== src/Market/Queue/Order.antt =====
-- Any interleaving of producers and the consumer on one `wsQueue`: order is kept.
use mathlib.Core.List.{Sublist, append_assoc, sublist-append_left}
use mathlib.Core.List.Sublist
use stream_analytics.Base.{
  ℕ, zero, suc, ◌≡◌, refl, ap, Bool, true, false, List, [], ◌∷◌, ◌++◌, Option, arith, ltb, length,
  Bool-cases, inl, inr,
}
use stream_analytics.Base.Slots.{erase_idx}
use stream_analytics.Ring.{IsValid}
use stream_analytics.Market.Queue.{
  WsMessage, WsQueue, BackpressurePolicy, drop_depth_keep_ops, is_depth, enqueue, close, PopResult,
  pop, popped, waits, ended,
}
use stream_analytics.Market.Queue.Spec.{victim, make_room, enqueue_spec}
use stream_analytics.Market.Queue.Refine.{queued, enqueue-refines}
use stream_analytics.Market.Queue.Laws.{enqueue-IsValid, pop-queued, Pops}

pub data Call : Type 0 where
  enqueues : Option WsMessage → Call
  pops : Call
  closes : Call

-- The queue after some calls, with the messages offered to it and those taken from it, in order.
-- A consumer that waits or has reached the end takes nothing.
pub record Trace : Type 0 where
  pub queue : WsQueue
  pub offered : List (Option WsMessage)
  pub taken : List (Option WsMessage)

take_popped : Trace → PopResult → Trace
take_popped t waits = t
take_popped t ended = t
take_popped t (popped m q) = record t { queue = q; taken = t.taken ++ m ∷ [] }

pub step : Trace → Call → Trace
unfolding take_popped
step t (enqueues m) = record t { queue = (enqueue t.queue m).0; offered = t.offered ++ m ∷ [] }
step t pops = take_popped t (pop t.queue)
step t closes = record t { queue = close t.queue }

pub run : Trace → List Call → Trace
run t [] = t
run t (c ∷ cs) = run (step t c) cs

pub record IsOrdered (t : Trace) : Type 0 where
  pub valid : IsValid t.queue.ring
  pub ordered : Sublist (t.taken ++ queued t.queue) t.offered

erase_idx-sublist : (i : ℕ) (xs : List (Option WsMessage)) → Sublist (erase_idx i xs) xs
unfolding erase_idx
erase_idx-sublist i [] = Sublist.refl []
erase_idx-sublist zero (x ∷ xs) = Sublist.cons x (Sublist.refl xs)
erase_idx-sublist (suc i) (x ∷ xs) = Sublist.cons-cons x (erase_idx-sublist i xs)

make_room-sublist :
    (policy : BackpressurePolicy) (xs : List (Option WsMessage)) (msg : Option WsMessage)
    → Sublist (make_room policy msg xs) (xs ++ msg ∷ [])
unfolding make_room
make_room-sublist drop_depth_keep_ops xs msg = elim (Bool-cases (is_depth msg)) [
  | inl e ↦ rw e (sublist-append_left xs (msg ∷ []))
  | inr e ↦ rw e (Sublist.append (erase_idx-sublist (victim msg xs) xs) (Sublist.refl (msg ∷ [])))
]
make_room-sublist _ xs msg = Sublist.append (erase_idx-sublist 0 xs) (Sublist.refl (msg ∷ []))

spec-sublist :
    (closed : Bool) (policy : BackpressurePolicy) (capacity : ℕ) (xs : List (Option WsMessage))
    (msg : Option WsMessage)
    → Sublist (enqueue_spec closed policy capacity xs msg).0 (xs ++ msg ∷ [])
unfolding enqueue_spec
spec-sublist true policy capacity xs msg = sublist-append_left xs (msg ∷ [])
spec-sublist false policy capacity xs msg = elim (Bool-cases (ltb (length xs) capacity)) [
  | inl room ↦ rw room (Sublist.refl (xs ++ msg ∷ []))
  | inr full ↦ rw full (make_room-sublist policy xs msg)
]

enqueues-IsOrdered :
    (t : Trace) (m : Option WsMessage) → IsOrdered t → IsOrdered (step t (enqueues m))
unfolding step
enqueues-IsOrdered t m h = record {
  valid = enqueue-IsValid t.queue m h.valid;
  ordered =
      rw (ap (λ (r : List (Option WsMessage) × ℕ × Bool). r.0) (enqueue-refines t.queue m h.valid))
        (Sublist.trans
          (Sublist.append (Sublist.refl t.taken)
            (spec-sublist t.queue.closed t.queue.policy t.queue.ring.cap (queued t.queue) m))
          (rw (← append_assoc) (Sublist.append h.ordered (Sublist.refl (m ∷ [])))));
}

take_popped-IsOrdered :
    (t : Trace) (xs : List (Option WsMessage)) (r : PopResult)
    → queued t.queue ≡ xs
    → Pops t.queue xs r
    → IsOrdered t
    → IsOrdered (take_popped t r)
unfolding take_popped
take_popped-IsOrdered t [] waits e p h = h
take_popped-IsOrdered t [] ended e p h = h
take_popped-IsOrdered t [] (popped m q) e p h = absurd (ground arith)
take_popped-IsOrdered t (x ∷ xs) r e (q', p, f, v, c) h =
    rw p (record { valid = v; ordered = rw (append_assoc, f) (rw e at (h.ordered)) })

step-IsOrdered : (t : Trace) (c : Call) → IsOrdered t → IsOrdered (step t c)
unfolding step
step-IsOrdered t (enqueues m) h = enqueues-IsOrdered t m h
step-IsOrdered t pops h =
    take_popped-IsOrdered t (queued t.queue) (pop t.queue) refl (pop-queued t.queue h.valid) h
step-IsOrdered t closes h = unfold close queued in record { valid = h.valid; ordered = h.ordered }

-- Through any interleaving of calls, what has been taken, followed by what is queued, is what was
-- offered with some messages left out: none is reordered, duplicated or made up.
pub run-IsOrdered : (t : Trace) (cs : List Call) → IsOrdered t → IsOrdered (run t cs)
unfolding run
run-IsOrdered t [] h = h
run-IsOrdered t (c ∷ cs) h = run-IsOrdered (step t c) cs (step-IsOrdered t c h)
