-- ===== src/Aggregation/Window/Oldest.antt =====
-- The window that is closed to make room.
use stream_analytics.Base.{
  ◌≡◌, refl, ap, Bool, true, false, ◌||◌, List, [], ◌∷◌, some, arith, Bool-cases, inl, inr,
}
use stream_analytics.Base.Int.{ℤ, ◌≤ℤ◌}
use stream_analytics.Base.Assoc.{lookup}
use stream_analytics.Aggregation.Window.{
  WindowKey, window_key_eq, window_key_eq_iff, window_key_key, States, oldest_from, oldest_window,
  state_or_zero, is_older,
}

unfoldable pub elem : WindowKey → List WindowKey → Bool
elem k [] = false
elem k (x ∷ xs) = window_key_eq x k || elem k xs

-- The start of the open window of a key.
unfoldable pub start_of : WindowKey → States → ℤ
start_of k states = state_or_zero (lookup k states)

-- The key is in the order with its start, and no key in the order has an earlier one.
pub record IsOldest (states : States) (order : List WindowKey) (k : WindowKey) (s : ℤ)
    : Type 0 where
  pub member : elem k order ≡ true
  pub stored : s ≡ start_of k states
  pub least : (j : WindowKey) → elem j order ≡ true → s ≤ℤ start_of j states

older-le : (s t : ℤ) (k j : WindowKey) → is_older s t k j ≡ true → s ≤ℤ t
unfolding is_older
older-le s t k j h = ground arith

younger-le : (s t : ℤ) (k j : WindowKey) → is_older s t k j ≡ false → t ≤ℤ s
unfolding is_older
younger-le s t k j h = ground arith

start_of_eq :
    (states : States) (k j : WindowKey)
    → window_key_eq k j ≡ true
    → start_of k states ≡ start_of j states
start_of_eq states k j h = ap (λ i. start_of i states) ((window_key_eq_iff k j).0 h)

-- The key before is passed over.
IsOldest-replaced :
    (states : States) (keys : List WindowKey) (k x : WindowKey)
    → start_of x states ≤ℤ start_of k states
    → (k' : WindowKey) (s' : ℤ) → IsOldest states (x ∷ keys) k' s'
    → IsOldest states (k ∷ x ∷ keys) k' s'
unfolding elem
IsOldest-replaced states keys k x le k' s' o = record {
  member = ground (arith, o.member);
  stored = o.stored;
  least = λ j h. elim (Bool-cases (window_key_eq k j)) [
    | inl e ↦
        ground
          (arith, start_of_eq states k j e, o.least x (ground (arith, window_key_eq_iff x x)), le)
    | inr n ↦ o.least j (ground arith)
  ];
}

-- The key after is passed over.
IsOldest-kept :
    (states : States) (keys : List WindowKey) (k x : WindowKey)
    → start_of k states ≤ℤ start_of x states
    → (k' : WindowKey) (s' : ℤ) → IsOldest states (k ∷ keys) k' s'
    → IsOldest states (k ∷ x ∷ keys) k' s'
unfolding elem
IsOldest-kept states keys k x le k' s' o = record {
  member = ground (arith, o.member);
  stored = o.stored;
  least = λ j h. elim (Bool-cases (window_key_eq x j)) [
    | inl e ↦
        ground
          (arith, start_of_eq states x j e, o.least k (ground (arith, window_key_eq_iff k k)), le)
    | inr n ↦ o.least j (ground arith)
  ];
}

oldest_from-IsOldest :
    (states : States) (keys : List WindowKey) (k : WindowKey) (s : ℤ)
    → s ≡ start_of k states
    → let (k', s') = oldest_from states keys k s in IsOldest states (k ∷ keys) k' s'
unfolding oldest_from elem start_of
oldest_from-IsOldest states [] k s e = record {
  member = ground (arith, window_key_eq_iff k k);
  stored = e;
  least = λ j h. ground (arith, e, start_of_eq states k j (ground arith));
}
oldest_from-IsOldest states (x ∷ xs) k s e =
    elim (Bool-cases (is_older (start_of x states) s x k)) [
      | inl older ↦
          let le : start_of x states ≤ℤ start_of k states =
            ground (arith, older-le (start_of x states) s x k older, e) in
          let r = oldest_from states xs x (start_of x states) in
          simp older (
            IsOldest-replaced states xs k x le r.0 r.1
              (oldest_from-IsOldest states xs x (start_of x states) refl))
      | inr younger ↦
          let le : start_of k states ≤ℤ start_of x states =
            ground (arith, younger-le (start_of x states) s x k younger, e) in
          let r = oldest_from states xs k s in
          simp younger
            (IsOldest-kept states xs k x le r.0 r.1 (oldest_from-IsOldest states xs k s e))
    ]

pub oldest_window_lem :
    (states : States) (order : List WindowKey) (k : WindowKey)
    → elem k order ≡ true
    → (k' : WindowKey) × (s : ℤ) × (oldest_window states order ≡ some (k', s))
      × IsOldest states order k' s
unfolding oldest_window elem start_of
oldest_window_lem states [] k h = absurd (ground arith)
oldest_window_lem states (x ∷ xs) k h =
    let r = oldest_from states xs x (start_of x states) in
    (r.0, r.1, refl, oldest_from-IsOldest states xs x (start_of x states) refl)
