-- ===== src/Delivery/Session/Refine.antt =====
-- What `enqueueDelivery` does to the queued events, as a list.
use stream_analytics.Base.{
  ℕ, ◌+◌, ◌<◌, ◌≡◌, refl, ap, sym, ◌∙◌, Bool, true, false, List, [], ◌∷◌, ◌++◌, length, none, some,
  if◌then◌else◌, arith, leb, Bool-cases, Option-cases, inl, inr,
}
use stream_analytics.Base.Int.{ℤ}
use stream_analytics.Base.Slots.{erase_idx}
use stream_analytics.Ring.{IsValid, push_back, drop_front, remove_at}
use stream_analytics.Ring
use stream_analytics.Ring.Contents.{
  contents, length-contents, contents-push_back, tail, drop_front-contents, drop_front-IsValid,
}
use stream_analytics.Ring.Removal.{remove_at-contents, remove_at-IsValid, remove_at-room}
use stream_analytics.Delivery.Session.{
  DeliveryEvent, no_event, BackpressurePolicy, drop_newest, drop_oldest, priority_drop, other,
  DropReason, Session, disconnects, on_drop, report, count_drop, close_session, write_problem,
  score_of, lowest, is_full, replace, priority_drop_event, start_flush, append, append_unless,
  flush_unless, after_priority_drop, enqueue_full, enqueue_delivery, queue_full, dropped_oldest,
  dropped_priority, dropped_self, frame_too_large, slow_client_disconnect,
}
use stream_analytics.Delivery.Session.Victim.{victim, lowest-victim, lowest-Chosen, refuses, takes}

-- The queued events, oldest first.
unfoldable pub queued : Session → List DeliveryEvent
queued s = contents no_event s.outbound

-- The session after a drop.
abbrev pub dropped : Session → Bool → List DropReason → Session
dropped s closed problems = record s {
  drop_count = s.drop_count + 1;
  closed = closed;
  problems = problems;
}

-- A problem frame is written, or the session is closed.
Reported : Session → Session → Type 0
Reported s t =
    (closed : Bool) × (problems : List DropReason) × (t
      ≡ record s { closed = closed; problems = problems })
    × (closed ≡ false → s.closed ≡ false)

Reported-write_problem :
    (send : DropReason → Bool) (s : Session) (reason : DropReason)
    → Reported s (write_problem send s reason)
unfolding Reported write_problem close_session
Reported-write_problem send s reason = elim (Bool-cases (send reason)) [
  | inl sent ↦ (s.closed, s.problems ++ reason ∷ [], rw sent refl, λ o. o)
  | inr failed ↦ (true, s.problems, rw failed refl, λ o. absurd (cc o))
]

Reported-report :
    (send : DropReason → Bool) (s : Session) (reason : DropReason)
    → Reported s (report send s reason)
unfolding report
Reported-report send s queue_full = Reported-write_problem send s queue_full
Reported-report send s dropped_self = Reported-write_problem send s dropped_self
Reported-report send s frame_too_large = Reported-write_problem send s frame_too_large
Reported-report send s _ = unfold Reported in (s.closed, s.problems, refl, λ o. o)

-- `onDrop` counts the drop, and closes the session at the threshold or where a frame fails.
pub on_drop_form :
    (send : DropReason → Bool) (s : Session) (reason : DropReason)
    → (closed : Bool) × (problems : List DropReason) × (on_drop send s reason
        ≡ (dropped s closed problems, disconnects s))
      × (closed ≡ false → s.closed ≡ false)
      × (disconnects s ≡ true → closed ≡ true)
unfolding on_drop count_drop close_session Reported
on_drop_form send s reason =
    let (closed, problems, e, o) = Reported-report send s reason in
    let (closed', problems', e', o') =
      Reported-write_problem send (dropped s closed problems) slow_client_disconnect in
    elim (Bool-cases (disconnects s)) [
      | inl d ↦ (true, problems', simp (d, e, e') refl, λ q. absurd (cc q), λ q. refl)
      | inr d ↦ (closed, problems, simp (d, e) refl, o, λ q. absurd (cc (q, d)))
    ]

-- `enqueueDelivery` on a list: a queue with room appends, and a full one drops the incoming event,
-- drops the oldest, or lets the one that `victim` names give way. Dropping the oldest event appends
-- the incoming one unless the drop disconnects the client.
unfoldable pub make_room :
    BackpressurePolicy
    → Bool
    → (DeliveryEvent → ℤ)
    → List DeliveryEvent
    → DeliveryEvent
    → List DeliveryEvent
make_room drop_oldest disconnected score xs evt =
    if disconnected then tail no_event xs else tail no_event xs ++ evt ∷ []
make_room priority_drop disconnected score xs evt = elim (victim score xs evt) [
  | none ↦ xs
  | some k ↦ erase_idx k xs ++ evt ∷ []
]
make_room _ disconnected score xs evt = xs

unfoldable pub enqueue_spec : Session → DeliveryEvent → List DeliveryEvent
enqueue_spec s evt =
    if leb s.outbound.cap (length (queued s))
    then make_room s.policy (disconnects s) (score_of s.priorities) (queued s) evt
    else queued s ++ evt ∷ []

queued-start_flush : (s : Session) → queued (start_flush s) ≡ queued s
unfolding queued start_flush
queued-start_flush s = elim (Bool-cases s.flushing) [ inl f ↦ simp f refl | inr f ↦ simp f refl ]

queued-append :
    (s : Session) (evt : DeliveryEvent)
    → IsValid s.outbound
    → s.outbound.count < s.outbound.cap
    → queued (append s evt) ≡ queued s ++ evt ∷ []
unfolding append queued
queued-append s evt v room =
    (unfold queued in queued-start_flush _) ∙ contents-push_back no_event s.outbound evt v room

after_drop :
    (send : DropReason → Bool) (s : Session) (reason : DropReason)
    → queued (on_drop send s reason).0 ≡ queued s
unfolding queued
after_drop send s reason =
    let (closed, problems, e, opened, closes) = on_drop_form send s reason in simp e refl

append_unless_lem :
    (send : DropReason → Bool) (s : Session) (evt : DeliveryEvent) (reason : DropReason)
    → IsValid s.outbound
    → s.outbound.count < s.outbound.cap
    → queued (append_unless evt (on_drop send s reason))
      ≡ (if disconnects s then queued s else queued s ++ evt ∷ [])
unfolding append_unless
append_unless_lem send s evt reason v room =
    let (closed, problems, e, opened, closes) = on_drop_form send s reason in
    elim (Bool-cases (disconnects s)) [
      | inl d ↦ simp (e, d) (unfold queued in refl)
      | inr d ↦
          simp (e, d)
            (queued-append (dropped s closed problems) evt v room ∙ (unfold queued in refl))
    ]

flush_unless_lem :
    (send : DropReason → Bool) (s : Session) (reason : DropReason)
    → queued (flush_unless (on_drop send s reason)) ≡ queued s
unfolding flush_unless
flush_unless_lem send s reason =
    let (closed, problems, e, opened, closes) = on_drop_form send s reason in
    elim (Bool-cases (disconnects s)) [
      | inl d ↦ simp (e, d) (unfold queued in refl)
      | inr d ↦ simp (e, d) (queued-start_flush _ ∙ (unfold queued in refl))
    ]

pub drop_front_room :
    (s : Session)
    → IsValid s.outbound
    → (drop_front no_event s.outbound).count < (drop_front no_event s.outbound).cap
unfolding drop_front Ring.advance
drop_front_room s v = ground (arith, v.positive, v.counted)

queued-drop_oldest :
    (send : DropReason → Bool) (s : Session) (evt : DeliveryEvent)
    → IsValid s.outbound
    → queued (enqueue_full send drop_oldest s evt)
      ≡ make_room drop_oldest (disconnects s) (score_of s.priorities) (queued s) evt
unfolding enqueue_full make_room disconnects
queued-drop_oldest send s evt v =
    append_unless_lem send (record s { outbound = drop_front no_event s.outbound }) evt
      dropped_oldest (drop_front-IsValid no_event v) (drop_front_room s v)
    ∙ ap (λ l. if disconnects s then l else l ++ evt ∷ [])
        (unfold queued in drop_front-contents no_event s.outbound v)

-- The ring after the `k`th event has given way.
pub replaced_lem :
    (s : Session) (evt : DeliveryEvent) (k : ℕ)
    → IsValid s.outbound
    → k < s.outbound.count
    → contents no_event (push_back no_event (remove_at no_event s.outbound k) evt)
      ≡ erase_idx k (queued s) ++ evt ∷ []
unfolding queued
replaced_lem s evt k v h =
    contents-push_back no_event (remove_at no_event s.outbound k) evt
      (remove_at-IsValid no_event k v) (remove_at-room no_event s.outbound k v h)
    ∙ ap (λ l. l ++ evt ∷ []) (remove_at-contents no_event s.outbound k v h)

-- The chosen index is inside.
pub victim-lt :
    (s : Session) (evt : DeliveryEvent) (k : ℕ)
    → lowest (score_of s.priorities) s.outbound evt ≡ some k
    → k < s.outbound.count
victim-lt s evt k e = elim (lowest-Chosen (score_of s.priorities) s.outbound evt) [
  | refuses n b ↦ absurd (cc (n, e))
  | takes j q v ↦ ground (arith, v.inside, length-contents no_event s.outbound, q, e)
]

queued-priority_drop :
    (send : DropReason → Bool) (s : Session) (evt : DeliveryEvent)
    → IsValid s.outbound
    → is_full s.outbound ≡ true
    → queued (enqueue_full send priority_drop s evt)
      ≡ make_room priority_drop (disconnects s) (score_of s.priorities) (queued s) evt
unfolding enqueue_full after_priority_drop priority_drop_event replace make_room
queued-priority_drop send s evt v full =
    let q : lowest (score_of s.priorities) s.outbound evt
        ≡ victim (score_of s.priorities) (queued s) evt =
      unfold queued in lowest-victim (score_of s.priorities) s.outbound evt in
    elim (Option-cases (lowest (score_of s.priorities) s.outbound evt)) [
      | inl n ↦ simp (full, n, make_room, sym q ∙ n) (after_drop send s dropped_self)
      | inr (k, e) ↦
          simp (full, e, make_room, sym q ∙ e)
            (flush_unless_lem send
                (record s { outbound = push_back no_event (remove_at no_event s.outbound k) evt })
                dropped_priority
              ∙ (unfold queued in replaced_lem s evt k v (victim-lt s evt k e)))
    ]

queued-full :
    (send : DropReason → Bool) (policy : BackpressurePolicy) (s : Session) (evt : DeliveryEvent)
    → IsValid s.outbound
    → is_full s.outbound ≡ true
    → queued (enqueue_full send policy s evt)
      ≡ make_room policy (disconnects s) (score_of s.priorities) (queued s) evt
queued-full send drop_newest s evt v full =
    unfold enqueue_full make_room in after_drop send s queue_full
queued-full send (other t) s evt v full =
    unfold enqueue_full make_room in after_drop send s queue_full
queued-full send drop_oldest s evt v full = queued-drop_oldest send s evt v
queued-full send priority_drop s evt v full = queued-priority_drop send s evt v full

-- `enqueueDelivery` on a valid ring does to the queued events what `enqueue_spec` says, under every
-- policy, and whether problem frames can be written or not.
pub enqueue_delivery-refines :
    (send : DropReason → Bool) (s : Session) (evt : DeliveryEvent)
    → IsValid s.outbound
    → queued (enqueue_delivery send s evt) ≡ enqueue_spec s evt
unfolding enqueue_delivery enqueue_spec
enqueue_delivery-refines send s evt v =
    let q : is_full s.outbound ≡ leb s.outbound.cap (length (queued s)) =
      unfold is_full queued in
      ap (leb s.outbound.cap) (sym (length-contents no_event s.outbound)) in
    elim (Bool-cases (is_full s.outbound)) [
      | inl full ↦ simp (full, sym q ∙ full) (queued-full send s.policy s evt v full)
      | inr room ↦
          simp (room, sym q ∙ room)
            (queued-append s evt v (unfold is_full in ground (arith, v.counted, room)))
    ]
