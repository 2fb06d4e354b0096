-- ===== src/Delivery/Session/Moved.antt =====
-- Events on their way from the queue to the client.
use mathlib.Core.List.{append_assoc, append-nil}
use stream_analytics.Base.{
  ℕ, zero, suc, ◌+◌, ◌≤◌, ◌≡◌, refl, sym, ap, ap₂, ◌∙◌, Bool, true, List, [], ◌∷◌, ◌++◌, take, drop,
  length, arith, ltb, Bool-cases, inl, inr,
}
use stream_analytics.Ring.{IsValid, pop_front}
use stream_analytics.Ring.Contents.{contents, pop, pop_front-contents, pop_front-IsValid}
use stream_analytics.Delivery.Session.{DeliveryEvent, no_event, Session}
use stream_analytics.Delivery.Session.Flush.{
  Socket, wrote, finish_batch, stop_flush, frame_sent, frame_failed, pop_batch,
}

-- Every event is written, whatever snapshot goes before it; payloads are prepared, no frame of several
-- events fails, and a frame with two is small enough.
pub record IsWorking (socket : Socket) : Type 0 where
  pub writes : (left : ℕ) (evt : DeliveryEvent) → socket.write left evt ≡ wrote
  pub snapshots : (left : ℕ) (evt : DeliveryEvent) → socket.snapshot left evt ≡ []
  pub batch_snapshots : (left : ℕ) (evt : DeliveryEvent) → socket.batch_snapshot left evt ≡ []
  pub prepared : (left : ℕ) (evt : DeliveryEvent) → socket.prepares left evt ≡ true
  pub unfailing : (left count : ℕ) → ¬ (socket.frame left count ≡ frame_failed)
  pub pairs : (left : ℕ) → socket.frame left 2 ≡ frame_sent

abbrev pub queued : Session → List DeliveryEvent
queued s = contents no_event s.outbound

-- `n` events have moved from the queue to the client.
pub record Moved (n : ℕ) (s s' : Session) : Type 0 where
  pub written : s'.written ≡ s.written ++ take n (queued s)
  pub left : queued s' ≡ drop n (queued s)
  pub still_open : s'.closed ≡ s.closed
  pub valid : IsValid s'.outbound

Moved-none :
    (s s' : Session)
    → IsValid s'.outbound
    → s'.written ≡ s.written
    → queued s' ≡ queued s
    → s'.closed ≡ s.closed
    → Moved 0 s s'
Moved-none s s' v a b c = record {
  written = a ∙ sym (append-nil s.written);
  left = b;
  still_open = c;
  valid = v;
}

abbrev no_deliveries : List DeliveryEvent
no_deliveries = []

take_nothing : (n : ℕ) → take n no_deliveries ≡ []
take_nothing zero = refl
take_nothing (suc n) = refl

drop_nothing : (n : ℕ) → drop n no_deliveries ≡ []
drop_nothing zero = refl
drop_nothing (suc n) = refl

take_add :
    (a b c : ℕ) (xs : List DeliveryEvent) → a + b ≡ c → take c xs ≡ take a xs ++ take b (drop a xs)
take_add zero b c xs h = let e : c ≡ b = omega (arith, h) in ap (λ (n : ℕ). take n xs) e
take_add (suc a) b zero xs h = absurd (omega (arith, h))
take_add (suc a) b (suc c) [] h = sym (take_nothing b)
take_add (suc a) b (suc c) (x ∷ xs) h =
    ap (λ (ys : List DeliveryEvent). x ∷ ys) (take_add a b c xs (omega (arith, h)))

drop_add : (a b c : ℕ) (xs : List DeliveryEvent) → a + b ≡ c → drop c xs ≡ drop b (drop a xs)
drop_add zero b c xs h = let e : c ≡ b = omega (arith, h) in ap (λ (n : ℕ). drop n xs) e
drop_add (suc a) b zero xs h = absurd (omega (arith, h))
drop_add (suc a) b (suc c) [] h = sym (drop_nothing b)
drop_add (suc a) b (suc c) (x ∷ xs) h = drop_add a b c xs (omega (arith, h))

-- Nothing moves from an empty queue.
pub Moved-empty :
    (n : ℕ) (s s' : Session)
    → IsValid s'.outbound
    → queued s ≡ []
    → s'.written ≡ s.written
    → queued s' ≡ queued s
    → s'.closed ≡ s.closed
    → Moved n s s'
Moved-empty n s s' v e a b c = record {
  written =
      a
      ∙ sym (append-nil s.written)
      ∙ ap (λ (ys : List DeliveryEvent). s.written ++ ys)
          (sym (take_nothing n) ∙ ap (take n) (sym e));
  left = b ∙ e ∙ sym (drop_nothing n) ∙ ap (drop n) (sym e);
  still_open = c;
  valid = v;
}

pub Moved-trans :
    (a b c : ℕ) (s t u : Session) → a + b ≡ c → Moved a s t → Moved b t u → Moved c s u
Moved-trans a b c s t u sum m n = record {
  written =
      n.written
      ∙ ap₂ (λ (xs ys : List DeliveryEvent). xs ++ take b ys) m.written m.left
      ∙ append_assoc s.written (take a (queued s)) (take b (drop a (queued s)))
      ∙ ap (λ (ys : List DeliveryEvent). s.written ++ ys) (sym (take_add a b c (queued s) sum));
  left = n.left ∙ ap (drop b) m.left ∙ sym (drop_add a b c (queued s) sum);
  still_open = n.still_open ∙ m.still_open;
  valid = n.valid;
}

pub finish_batch-Moved : (s : Session) → IsValid s.outbound → Moved 0 s (finish_batch s)
unfolding finish_batch stop_flush
finish_batch-Moved s v = elim (Bool-cases (ltb 0 s.outbound.count)) [
  | inl e ↦ rw (finish_batch, e) (Moved-none s _ v refl refl refl)
  | inr e ↦ rw (finish_batch, e) (Moved-none s _ v refl refl refl)
]

-- The event at the front is popped and written.
abbrev pub taken : Session → Session
taken s = record s {
  outbound = (pop_front no_event s.outbound).2;
  written = s.written ++ (pop_front no_event s.outbound).0 ∷ [];
}

pub taken-Moved :
    (s : Session) (x : DeliveryEvent) (xs : List DeliveryEvent)
    → IsValid s.outbound
    → queued s ≡ x ∷ xs
    → Moved 1 s (taken s)
unfolding pop
taken-Moved s x xs v e =
    let q = pop_front-contents no_event s.outbound v ∙ ap (pop no_event) e in
    record {
      written =
          ap (λ (y : DeliveryEvent). s.written ++ y ∷ [])
            (ap (λ (t : DeliveryEvent × Bool × List DeliveryEvent). t.0) q)
          ∙ ap (λ (ys : List DeliveryEvent). s.written ++ take 1 ys) (sym e);
      left = ap (λ (t : DeliveryEvent × Bool × List DeliveryEvent). t.2) q ∙ ap (drop 1) (sym e);
      still_open = refl;
      valid = pop_front-IsValid no_event v;
    }

pub front_found :
    (s : Session) (xs : List DeliveryEvent)
    → IsValid s.outbound
    → queued s ≡ xs
    → (pop_front no_event s.outbound).1 ≡ (pop no_event xs).1
front_found s xs v e =
    ap (λ (t : DeliveryEvent × Bool × List DeliveryEvent). t.1)
      (pop_front-contents no_event s.outbound v ∙ ap (pop no_event) e)

pub pop_batch-Moved :
    (n : ℕ) (s : Session) (xs : List DeliveryEvent)
    → queued s ≡ xs
    → n ≤ length xs
    → IsValid s.outbound
    → Moved n s (pop_batch n s)
unfolding pop_batch
pop_batch-Moved zero s xs e h v = Moved-none s s v refl refl refl
pop_batch-Moved (suc n) s [] e h v = absurd (omega (arith, h))
pop_batch-Moved (suc n) s (x ∷ xs) e h v =
    let m = taken-Moved s x xs v e in
    Moved-trans 1 n (suc n) s (taken s) (pop_batch n (taken s)) (omega arith) m
      (pop_batch-Moved n (taken s) xs (m.left ∙ ap (drop 1) e) (omega (arith, h)) m.valid)
