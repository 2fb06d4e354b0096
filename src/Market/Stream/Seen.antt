-- ===== src/Market/Stream/Seen.antt =====
-- The set and the queue of seen hashes agree.
use stream_analytics.Base.{
  ℕ, suc, ◌-◌, ◌≤◌, ◌<◌, ◌≡◌, refl, ap, Bool, false, ◌||◌, List, [], ◌∷◌, ◌++◌, drop, length, leb,
  ◌==◌, ==_iff, if◌then◌else◌, arith, Bool-cases, inl, inr, length-append,
}
use stream_analytics.Base.Assoc.{lookup, insert, remove, lookup-insert, lookup-remove}
use stream_analytics.Market.Stream.{hash_key, has, record_seen}

unfoldable pub elem : ℕ → List ℕ → Bool
elem h [] = false
elem h (x ∷ xs) = x == h || elem h xs

-- No hash twice.
abbrev pub NoDup : List ℕ → Type 0
NoDup [] = Unit {0}
NoDup (x ∷ xs) = (elem x xs ≡ false) × NoDup xs

-- The last `n` elements.
unfoldable pub last : ℕ → List ℕ → List ℕ
last n xs = drop (length xs - n) xs

pub record Agrees (max_size : ℕ) (seen : List (ℕ × Unit {0})) (seen_ord : List ℕ) : Type 0 where
  pub same : (h : ℕ) → has h seen ≡ elem h seen_ord
  pub once : NoDup seen_ord
  pub bounded : length seen_ord ≤ max_size

elem-append : (h k : ℕ) (xs : List ℕ) → elem h (xs ++ k ∷ []) ≡ (elem h xs || k == h)
unfolding elem
elem-append h k [] = ground arith
elem-append h k (x ∷ xs) = ground (arith, elem-append h k xs)

append-NoDup : (k : ℕ) (xs : List ℕ) → NoDup xs → elem k xs ≡ false → NoDup (xs ++ k ∷ [])
unfolding elem
append-NoDup k [] d n = (refl, tt)
append-NoDup k (x ∷ xs) (a, d) n =
    (ground (arith, elem-append x k xs), append-NoDup k xs d (ground arith))

has-insert : (h k : ℕ) (m : List (ℕ × Unit {0})) → has h (insert k tt m) ≡ (has h m || k == h)
unfolding has
has-insert h k m = ground (arith, lookup-insert k h tt m)

has-remove :
    (h k : ℕ) (m : List (ℕ × Unit {0})) → has h (remove k m) ≡ (if k == h then false else has h m)
unfolding has
has-remove h k m = ground (arith, lookup-remove k h m)

-- After the oldest hash is forgotten.
pub forget-Agrees :
    (max_size : ℕ) (seen : List (ℕ × Unit {0})) (x : ℕ) (xs : List ℕ)
    → Agrees max_size seen (x ∷ xs)
    → (h : ℕ) → has h (remove x seen) ≡ elem h xs
unfolding elem
forget-Agrees max_size seen x xs a h =
    ground (arith, has-remove h x seen, a.same h, a.once.0, ==_iff x h)

-- The queue after a hash is recorded holds the last hashes.
pub record_seen-last :
    (max_size : ℕ) (seen : List (ℕ × Unit {0})) (seen_ord : List ℕ) (h : ℕ)
    → 0 < max_size
    → Agrees max_size seen seen_ord
    → (record_seen max_size seen seen_ord h).1 ≡ last max_size (seen_ord ++ h ∷ [])
unfolding record_seen last
record_seen-last max_size seen [] h p a = ground arith
record_seen-last max_size seen (x ∷ xs) h p a = elim (Bool-cases (leb max_size (suc (length xs)))) [
  | inl full ↦ rw full (
      ap (λ n. drop n (x ∷ xs ++ h ∷ []))
        (let e : 1 ≡ suc (length (xs ++ h ∷ [])) - max_size =
            ground (arith, length-append xs (h ∷ []), a.bounded) in
          e))
  | inr room ↦ rw room (
      ap (λ n. drop n (x ∷ xs ++ h ∷ []))
        (let e : 0 ≡ suc (length (xs ++ h ∷ [])) - max_size =
            ground (arith, length-append xs (h ∷ [])) in
          e))
]

pub record_seen-Agrees :
    (max_size : ℕ) (seen : List (ℕ × Unit {0})) (seen_ord : List ℕ) (h : ℕ)
    → 0 < max_size
    → Agrees max_size seen seen_ord
    → elem h seen_ord ≡ false
    → let (seen', seen_ord') = record_seen max_size seen seen_ord h in
      Agrees max_size seen' seen_ord'
unfolding record_seen
record_seen-Agrees max_size seen [] h p a n =
    rw (let e : leb max_size 0 ≡ false = ground arith in e) (record {
      same = λ k. ground (arith, has-insert k h seen, a.same k, elem-append k h []);
      once = append-NoDup h [] tt n;
      bounded = omega arith;
    })
record_seen-Agrees max_size seen (x ∷ xs) h p a n =
    elim (Bool-cases (leb max_size (suc (length xs)))) [
      | inl full ↦ rw full (record {
        same = λ k. ground (
          arith,
          has-insert k h (remove x seen),
          forget-Agrees max_size seen x xs a k,
          elem-append k h xs,
        );
        once = append-NoDup h xs a.once.1 (unfold elem in ground arith);
        bounded = omega (arith, length-append xs (h ∷ []), a.bounded);
      })
      | inr room ↦ rw room (record {
        same = λ k. ground (arith, has-insert k h seen, a.same k, elem-append k h (x ∷ xs));
        once = append-NoDup h (x ∷ xs) a.once n;
        bounded = ground (arith, length-append xs (h ∷ []));
      })
    ]

pub empty-Agrees : (max_size : ℕ) → Agrees max_size [] []
empty-Agrees max_size = record {
  same = λ h. unfold has elem lookup in refl;
  once = tt;
  bounded = omega arith;
}
