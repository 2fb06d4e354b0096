-- ===== src/Delivery/Session/Victim.antt =====
-- Which queued event gives way under `priority_drop`.
use stream_analytics.Base.{
  ℕ, zero, suc, ◌+◌, ◌%◌, ◌<◌, ◌≡◌, refl, ap, sym, ◌∙◌, subst, List, [], ◌∷◌, get_or, length,
  Option, none, some, if◌then◌else◌, arith, Bool-cases, inl, inr, ltb→lt,
}
use stream_analytics.Base.Int.{ℤ, ◌<ℤ◌, ◌≤ℤ◌, ltb_ℤ}
use stream_analytics.Ring.{Ring, at}
use stream_analytics.Ring.Window.{window}
use stream_analytics.Ring.Contents.{contents}
use stream_analytics.Delivery.Session.{DeliveryEvent, no_event, scan, lowest}

-- The loop on a list.
unfoldable pub scan_list : (DeliveryEvent → ℤ) → List DeliveryEvent → ℕ → ℤ → Option ℕ → Option ℕ
scan_list score [] i low idx = idx
scan_list score (x ∷ xs) i low idx =
    scan_list score xs (i + 1) (if ltb_ℤ (score x) low then score x else low)
      (if ltb_ℤ (score x) low then some i else idx)

scan_lem :
    (score : DeliveryEvent → ℤ) (r : Ring DeliveryEvent) (i rounds : ℕ) (low : ℤ) (idx : Option ℕ)
    → scan score r i rounds low idx
      ≡ scan_list score (window no_event r.buf r.cap (r.head + i) rounds) i low idx
unfolding scan scan_list window at
scan_lem score r i zero low idx = refl
scan_lem score r i (suc rounds) low idx =
    let here = score (get_or r.buf ((r.head + i) % r.cap) no_event) in
    let low' = if ltb_ℤ here low then here else low in
    let idx' = if ltb_ℤ here low then some i else idx in
    scan_lem score r (i + 1) rounds low' idx'
    ∙ ap (λ h. scan_list score (window no_event r.buf r.cap h rounds) (i + 1) low' idx')
        (let e : r.head + (i + 1) ≡ suc (r.head + i) = omega arith in e)

-- The event at `k` scores below `low`, no event scores below it, and none before it as low.
pub record IsVictim (score : DeliveryEvent → ℤ) (xs : List DeliveryEvent) (low : ℤ) (k : ℕ)
    : Type 0 where
  pub inside : k < length xs
  pub below : score (get_or xs k no_event) <ℤ low
  pub least : (j : ℕ) → j < length xs → score (get_or xs k no_event) ≤ℤ score (get_or xs j no_event)
  pub first : (j : ℕ) → j < k → score (get_or xs k no_event) <ℤ score (get_or xs j no_event)

-- No event scores below `low`.
abbrev pub NoneBelow : (DeliveryEvent → ℤ) → List DeliveryEvent → ℤ → Type 0
NoneBelow score xs low = (j : ℕ) → j < length xs → low ≤ℤ score (get_or xs j no_event)

-- What the loop ends with, started at index `i` with `idx`.
pub data Scanned (score : DeliveryEvent → ℤ) (xs : List DeliveryEvent) (i : ℕ) (low : ℤ)
    (idx : Option ℕ) (result : Option ℕ) : Type 0 where
  kept : result ≡ idx → NoneBelow score xs low → Scanned score xs i low idx result
  found :
      (k : ℕ) → result ≡ some (i + k) → IsVictim score xs low k → Scanned score xs i low idx result

NoneBelow-cons :
    (score : DeliveryEvent → ℤ) (x : DeliveryEvent) (xs : List DeliveryEvent) (low : ℤ)
    → low ≤ℤ score x
    → NoneBelow score xs low
    → NoneBelow score (x ∷ xs) low
NoneBelow-cons score x xs low h n zero b = h
NoneBelow-cons score x xs low h n (suc j) b = n j (omega arith)

-- The first event, where no later one scores below it.
IsVictim-here :
    (score : DeliveryEvent → ℤ) (x : DeliveryEvent) (xs : List DeliveryEvent) (low : ℤ)
    → score x <ℤ low
    → NoneBelow score xs (score x)
    → IsVictim score (x ∷ xs) low 0
IsVictim-here score x xs low h n = record {
  inside = omega arith;
  below = h;
  least = NoneBelow-cons score x xs (score x) (omega arith) n;
  first = λ j b. absurd (omega arith);
}

-- A later event, which scores below the first one and below `low`.
IsVictim-later :
    (score : DeliveryEvent → ℤ) (x : DeliveryEvent) (xs : List DeliveryEvent) (low low' : ℤ) (k : ℕ)
    → low' ≤ℤ score x
    → low' ≤ℤ low
    → IsVictim score xs low' k
    → IsVictim score (x ∷ xs) low (suc k)
IsVictim-later score x xs low low' k h l v = record {
  inside = omega (arith, v.inside);
  below = omega (arith, v.below);
  least = NoneBelow-cons score x xs (score (get_or xs k no_event)) (omega (arith, v.below)) v.least;
  first = before;
}
  where
    before :
        (j : ℕ) → j < suc k → score (get_or xs k no_event) <ℤ score (get_or (x ∷ xs) j no_event)
    before zero b = omega (arith, v.below)
    before (suc j) b = v.first j (omega arith)

scanned :
    (score : DeliveryEvent → ℤ) (xs : List DeliveryEvent) (i : ℕ) (low : ℤ) (idx : Option ℕ)
    → Scanned score xs i low idx (scan_list score xs i low idx)
unfolding scan_list
scanned score [] i low idx = kept refl (λ j b. absurd (omega arith))
scanned score (x ∷ xs) i low idx = elim (Bool-cases (ltb_ℤ (score x) low)) [
  | inl lower ↦ rw lower (elim (scanned score xs (i + 1) (score x) (some i)) [
    | kept e n ↦
        found 0 (e ∙ ap some (omega arith)) (IsVictim-here score x xs low (ltb→lt _ _ lower) n)
    | found k e v ↦
        found (suc k) (e ∙ ap some (omega arith))
          (IsVictim-later score x xs low (score x) k (omega arith) (ground arith) v)
  ])
  | inr higher ↦ rw higher (elim (scanned score xs (i + 1) low idx) [
    | kept e n ↦ kept e (NoneBelow-cons score x xs low (ground arith) n)
    | found k e v ↦
        found (suc k) (e ∙ ap some (omega arith))
          (IsVictim-later score x xs low low k (ground arith) (omega arith) v)
  ])
]

-- The two outcomes for an incoming event.
pub data Chosen (score : DeliveryEvent → ℤ) (xs : List DeliveryEvent) (evt : DeliveryEvent)
    (result : Option ℕ) : Type 0 where
  refuses : result ≡ none → NoneBelow score xs (score evt) → Chosen score xs evt result
  takes : (k : ℕ) → result ≡ some k → IsVictim score xs (score evt) k → Chosen score xs evt result

-- The loop of `priorityDrop` on a list.
unfoldable pub victim : (DeliveryEvent → ℤ) → List DeliveryEvent → DeliveryEvent → Option ℕ
victim score xs evt = scan_list score xs 0 (score evt) none

pub lowest-victim :
    (score : DeliveryEvent → ℤ) (r : Ring DeliveryEvent) (evt : DeliveryEvent)
    → lowest score r evt ≡ victim score (contents no_event r) evt
unfolding lowest victim contents
lowest-victim score r evt =
    scan_lem score r 0 r.count (score evt) none
    ∙ ap (λ h. scan_list score (window no_event r.buf r.cap h r.count) 0 (score evt) none)
        (let z : r.head + 0 ≡ r.head = omega arith in z)

pub victim-Chosen :
    (score : DeliveryEvent → ℤ) (xs : List DeliveryEvent) (evt : DeliveryEvent)
    → Chosen score xs evt (victim score xs evt)
unfolding victim
victim-Chosen score xs evt = elim (scanned score xs 0 (score evt) none) [
  | kept q n ↦ refuses q n
  | found k q v ↦ takes k (q ∙ ap some (omega arith)) v
]

-- The choice that `priorityDrop` makes on a full queue: the first of the queued events with the
-- lowest score, if that is below the score of the incoming event; none otherwise.
pub lowest-Chosen :
    (score : DeliveryEvent → ℤ) (r : Ring DeliveryEvent) (evt : DeliveryEvent)
    → Chosen score (contents no_event r) evt (lowest score r evt)
lowest-Chosen score r evt =
    subst (Chosen score (contents no_event r) evt) (sym (lowest-victim score r evt))
      (victim-Chosen score (contents no_event r) evt)
