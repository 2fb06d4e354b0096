-- ===== src/Market/Queue/Refine.antt =====
-- The ring-buffer code of `wsQueue` implements the list operations of `Spec`.
use stream_analytics.Base.{
  ℕ, zero, suc, ◌+◌, ◌<◌, ◌≡◌, refl, ap, sym, ◌∙◌, Bool, true, false, List, [], ◌∷◌, ◌++◌, Option,
  none, some, arith, ltb, length, Bool-cases, inl, inr, ltb→lt,
}
use stream_analytics.Base.Slots.{erase_idx}
use stream_analytics.Ring.{Ring, IsValid, push_back, advance, at, remove_at}
use stream_analytics.Ring.Window.{window}
use stream_analytics.Ring.Contents.{
  contents, length-contents, contents-push_back, advance-IsValid, contents-advance, advance-room,
}
use stream_analytics.Ring.Removal.{remove_at-contents, remove_at-IsValid, remove_at-room}
use stream_analytics.Market.Queue.{
  WsMessage, WsQueue, BackpressurePolicy, drop_oldest, drop_depth_keep_ops, other, is_depth,
  is_liquidation, find_from, find_first_depth, find_first_liquidation, drop_index, enqueue,
  enqueue_full, replace_head,
}
use stream_analytics.Market.Queue.Spec.{
  next_idx, or_zero, find_idx, victim, make_room, enqueue_spec,
}

-- The queued messages, oldest first.
unfoldable pub queued : WsQueue → List (Option WsMessage)
queued q = contents none q.ring

abbrev plus : ℕ → Option ℕ → Option ℕ
plus i none = none
plus i (some k) = some (i + k)

plus_zero : (o : Option ℕ) → plus 0 o ≡ o
plus_zero none = refl
plus_zero (some k) = ap some (omega arith)

plus-next_idx : (o : Option ℕ) (i : ℕ) → plus (i + 1) o ≡ plus i (next_idx o)
plus-next_idx none i = refl
plus-next_idx (some k) i = ap some (omega arith)

find_from_lem :
    (p : Option WsMessage → Bool) (r : Ring (Option WsMessage)) (i rounds : ℕ)
    → find_from p r i rounds ≡ plus i (find_idx p (window none r.buf r.cap (r.head + i) rounds))
unfolding find_from find_idx window at
find_from_lem p r i zero = refl
find_from_lem p r i (suc rounds) = ground (
  arith,
  find_from_lem p r (i + 1) rounds,
  ap (λ h. window none r.buf r.cap h rounds)
      (let e : r.head + (i + 1) ≡ suc (r.head + i) = omega arith in e),
  plus-next_idx (find_idx p (window none r.buf r.cap (suc (r.head + i)) rounds)) i,
)

find_idx-lt :
    (p : Option WsMessage → Bool) (xs : List (Option WsMessage)) (k : ℕ)
    → find_idx p xs ≡ some k
    → k < length xs
unfolding find_idx
find_idx-lt p [] k e = cc
find_idx-lt p (x ∷ xs) zero e = omega arith
find_idx-lt p (x ∷ xs) (suc k) e = ground (arith, find_idx-lt p xs k)

pub victim-lt :
    (msg : Option WsMessage) (xs : List (Option WsMessage))
    → 0 < length xs
    → victim msg xs < length xs
unfolding victim
victim-lt msg xs h = ground (
  arith,
  find_idx-lt is_depth xs (or_zero (find_idx is_depth xs)),
  find_idx-lt is_liquidation xs (or_zero (find_idx is_liquidation xs)),
)

pub length-queued : (q : WsQueue) → length (queued q) ≡ q.ring.count
unfolding queued
length-queued q = length-contents none q.ring

find_first_lem :
    (p : Option WsMessage → Bool) (r : Ring (Option WsMessage))
    → find_from p r 0 r.count ≡ find_idx p (contents none r)
unfolding contents
find_first_lem p r =
    find_from_lem p r 0 r.count
    ∙ plus_zero (find_idx p (window none r.buf r.cap (r.head + 0) r.count))
    ∙ ap (λ h. find_idx p (window none r.buf r.cap h r.count)) (omega arith)

pub drop_index_lem :
    (q : WsQueue) (msg : Option WsMessage) → drop_index q msg ≡ victim msg (queued q)
unfolding drop_index victim queued contents find_first_depth find_first_liquidation
drop_index_lem q msg =
    ground (arith, find_first_lem is_depth q.ring, find_first_lem is_liquidation q.ring)

-- The oldest entry makes way.
queued-replace_head :
    (q : WsQueue) (msg : Option WsMessage)
    → IsValid q.ring
    → 0 < q.ring.count
    → queued (replace_head q msg) ≡ erase_idx 0 (queued q) ++ msg ∷ []
unfolding queued replace_head
queued-replace_head q msg v h =
    contents-push_back none (advance none q.ring) msg (advance-IsValid none v)
      (advance-room none q.ring v h)
    ∙ ap (λ l. l ++ msg ∷ [])
        (sym (ap (erase_idx 0) (contents-advance none q.ring v h) ∙ unfold erase_idx in refl))

pub drop_index-lt :
    (q : WsQueue) (msg : Option WsMessage) → 0 < q.ring.count → drop_index q msg < q.ring.count
drop_index-lt q msg h =
    omega (arith, drop_index_lem q msg, length-queued q, victim-lt msg (queued q))

-- The chosen entry makes way.
replace_victim-queued :
    (q : WsQueue) (msg : Option WsMessage)
    → IsValid q.ring
    → 0 < q.ring.count
    → contents none (push_back none (remove_at none q.ring (drop_index q msg)) msg)
      ≡ erase_idx (victim msg (queued q)) (queued q) ++ msg ∷ []
unfolding queued
replace_victim-queued q msg v h =
    contents-push_back none (remove_at none q.ring (drop_index q msg)) msg
      (remove_at-IsValid none (drop_index q msg) v)
      (remove_at-room none q.ring (drop_index q msg) v (drop_index-lt q msg h))
    ∙ ap (λ l. l ++ msg ∷ [])
        (remove_at-contents none q.ring (drop_index q msg) v (drop_index-lt q msg h)
          ∙ ap (λ k. erase_idx k (contents none q.ring)) (drop_index_lem q msg))

make_room-queued :
    (policy : BackpressurePolicy) (q : WsQueue) (msg : Option WsMessage)
    → IsValid q.ring
    → 0 < q.ring.count
    → queued (enqueue_full policy q msg).0 ≡ make_room policy msg (queued q)
unfolding enqueue_full make_room
make_room-queued drop_oldest q msg v h = queued-replace_head q msg v h
make_room-queued (other t) q msg v h = queued-replace_head q msg v h
make_room-queued drop_depth_keep_ops q msg v h = elim (Bool-cases (is_depth msg)) [
  | inl e ↦ rw e
  | inr e ↦ rw e (unfold queued in replace_victim-queued q msg v h)
]

enqueue_full-flags :
    (policy : BackpressurePolicy) (q : WsQueue) (msg : Option WsMessage)
    → ((enqueue_full policy q msg).1 ≡ 1) × ((enqueue_full policy q msg).2 ≡ true)
unfolding enqueue_full
enqueue_full-flags drop_depth_keep_ops q msg = ground arith
enqueue_full-flags policy q msg = (refl, refl)

-- `Enqueue` on a valid ring does to the queued messages what `enqueue_spec` says, and reports the same
-- number of drops and the same backpressure flag.
pub enqueue-refines :
    (q : WsQueue) (msg : Option WsMessage)
    → IsValid q.ring
    → let (q', dropped, entered) = enqueue q msg in
      (queued q', dropped, entered) ≡ enqueue_spec q.closed q.policy q.ring.cap (queued q) msg
unfolding enqueue enqueue_spec queued
enqueue-refines q msg v = elim (Bool-cases q.closed) [
  | inl c ↦ rw c
  | inr o ↦ elim (Bool-cases (ltb q.ring.count q.ring.cap)) [
    | inl room ↦
        rw (o, room, length-queued q, room)
          (ap (λ (l : List (Option WsMessage)). (l, 0, false))
            (unfold queued in contents-push_back none q.ring msg v (ltb→lt _ _ room)))
    | inr full ↦
        rw (o, full, length-queued q, full)
          (cc (
            make_room-queued q.policy q msg v (ground (arith, v.positive)),
            (enqueue_full-flags q.policy q msg).0,
            (enqueue_full-flags q.policy q msg).1,
          ))
  ]
]
