-- ===== src/Shared/BoundedMap/Stored.antt =====
-- What a `Get` finds after a `Put` of the same key.
use stream_analytics.Base.{
  ℕ, ◌+◌, ◌≡◌, refl, ap, ◌∙◌, false, ◌||◌, List, [], ◌∷◌, Option, none, some, length, leb, ltb,
  arith, if◌then◌else◌, Bool-cases, Option-cases, inl, inr,
}
use stream_analytics.Base.Int.{ℤ, pos, leb_ℤ, pos_part}
use stream_analytics.Base.Assoc.{
  Key, lookup, lookup-insert, lookup-remove, Distinct, remove-Distinct, insert-Distinct,
}
use stream_analytics.Base.Nested.{is_nil}
use stream_analytics.Shared.BoundedMap.{
  by_ttl, BoundedEntry, BoundedMap, is_expired_at, evict_locked, and_then, sweep_entries,
  sweep_locked, is_due, mark_sweep, maybe_sweep_locked, count_op, get_entry, get, evict_tail, back,
  make_room, store, push_new, put_entry, put, next_expiry_at,
}

module _ {ℓ κ} {K : Type ℓ} {V : Type κ} ⦃keys : Key K⦄ where
  -- The map has the entry `e` at `k`, and `t` as its time to live.
  record Holds (t : ℤ) (k : K) (e : BoundedEntry K V) (m : BoundedMap K V) : Type κ where
    there : lookup k m.items ≡ some e
    ttl : m.ttl ≡ t

  -- The entry is not expired in a map with `t` as its time to live.
  IsFresh : ℕ → ℤ → BoundedEntry K V → Type (ℓ ⊔ κ)
  IsFresh now t e = (m : BoundedMap K V) → m.ttl ≡ t → is_expired_at K V m e now ≡ false

  evict_other :
      (t : ℤ) (k j : K) (e x : BoundedEntry K V) (m : BoundedMap K V)
      → keys.eq j k ≡ false
      → Holds t k e m
      → Holds t k e (evict_locked K V j x by_ttl m).0
  unfolding evict_locked
  evict_other t k j e x m other h = record {
    there = rw (lookup-remove j k m.items, other) h.there;
    ttl = h.ttl;
  }

  sweep_entries-Holds :
      (now : ℕ) (t : ℤ) (k : K) (e : BoundedEntry K V) (es : List (K × BoundedEntry K V))
      (m : BoundedMap K V)
      → IsFresh now t e
      → Distinct es
      → ((x : BoundedEntry K V) → lookup k es ≡ some x → x ≡ e)
      → Holds t k e m
      → Holds t k e (sweep_entries K V now es m).0
  unfolding sweep_entries and_then lookup IsFresh
  sweep_entries-Holds now t k e [] m fresh d own h = h
  sweep_entries-Holds now t k e ((j, y) ∷ es) m fresh d own h = elim (Bool-cases (keys.eq j k)) [
    | inl at_k ↦
        let same : j ≡ k = (keys.eq_iff j k).0 at_k in
        let mine : y ≡ e = own y (rw at_k refl) in
        rw (ap (λ (x : BoundedEntry K V). is_expired_at K V m x now) mine ∙ fresh m h.ttl) (
          sweep_entries-Holds now t k e es m fresh d.1 (λ x found. absurd (cc (d.0, found, same)))
            h)
    | inr other ↦
        let rest : (x : BoundedEntry K V) → lookup k es ≡ some x → x ≡ e =
          λ x found. own x (rw other found) in
        elim (Bool-cases (is_expired_at K V m y now)) [
          | inl old ↦
              rw old (
                sweep_entries-Holds now t k e es _ fresh d.1 rest (evict_other t k j e y m other h))
          | inr young ↦ rw young (sweep_entries-Holds now t k e es m fresh d.1 rest h)
        ]
  ]

  sweep_locked-Holds :
      (now : ℕ) (t : ℤ) (k : K) (e : BoundedEntry K V) (m : BoundedMap K V)
      → IsFresh now t e
      → Distinct m.items
      → Holds t k e m
      → Holds t k e (sweep_locked K V now m).0
  unfolding sweep_locked
  sweep_locked-Holds now t k e m fresh d h =
      elim (Bool-cases (leb_ℤ m.ttl (pos 0) || is_nil m.items)) [
        | inl b ↦ rw (sweep_locked, b) h
        | inr b ↦
            rw (sweep_locked, b)
              (sweep_entries-Holds now t k e m.items m fresh d
                (λ x found. ground (arith, found, h.there)) h)
      ]

  maybe_sweep_locked-Holds :
      (now : ℕ) (t : ℤ) (k : K) (e : BoundedEntry K V) (m : BoundedMap K V)
      → IsFresh now t e
      → Distinct m.items
      → Holds t k e m
      → Holds t k e (maybe_sweep_locked K V now m).0
  unfolding maybe_sweep_locked mark_sweep
  maybe_sweep_locked-Holds now t k e m fresh d h = elim (Bool-cases (leb_ℤ m.ttl (pos 0))) [
    | inl b ↦ rw (maybe_sweep_locked, b) h
    | inr b ↦
        let swept : Holds t k e (sweep_locked K V now m).0 =
          sweep_locked-Holds now t k e m fresh d h in
        rw (maybe_sweep_locked, b)
          (elim (Bool-cases (is_due K V now m)) [
            | inl f ↦ rw f record { there = swept.there; ttl = swept.ttl }
            | inr f ↦ rw f h
          ])
  ]

  abbrev stored : ℕ → V → BoundedMap K V → BoundedEntry K V
  stored now x m = record { value = x; expires_at = next_expiry_at K V m now }

  stored-IsFresh : (now : ℕ) (x : V) (m : BoundedMap K V) → IsFresh now m.ttl (stored now x m)
  unfolding IsFresh is_expired_at next_expiry_at
  stored-IsFresh now x m m' same = rw same (ground arith)

  -- A map with as long a time to live and every key once.
  record IsLike (m m' : BoundedMap K V) : Type κ where
    ttl : m'.ttl ≡ m.ttl
    once : Distinct m'.items

  make_room-IsLike : (m : BoundedMap K V) → Distinct m.items → IsLike m (make_room K V m).0
  unfolding make_room evict_tail evict_locked
  make_room-IsLike m d = elim (Bool-cases (leb m.max_size (length m.items))) [
    | inr b ↦ rw (make_room, b) record { ttl = refl; once = d }
    | inl b ↦ elim (Option-cases (back m.lru)) [
      | inl e ↦ rw (make_room, b, evict_tail, e) record { ttl = refl; once = d }
      | inr (k, e) ↦ elim (Option-cases (lookup k m.items)) [
        | inl f ↦ rw (make_room, b, evict_tail, e, f) record { ttl = refl; once = d }
        | inr (x, f) ↦
            rw (make_room, b, evict_tail, e, f)
              record { ttl = refl; once = remove-Distinct k m.items d }
      ]
    ]
  ]

  store-Holds :
      (now : ℕ) (k : K) (x : V) (lru : List (K × Unit {0})) (m : BoundedMap K V)
      → Holds m.ttl k (stored now x m) (store K V now k x lru m)
  unfolding store
  store-Holds now k x lru m = record {
    there = rw (lookup-insert k k (stored now x m) m.items, (keys.eq_iff k k).1 refl) refl;
    ttl = refl;
  }

  stored_swept :
      (now : ℕ) (k : K) (x : V) (lru : List (K × Unit {0})) (m : BoundedMap K V)
      → Distinct m.items
      → Holds m.ttl k (stored now x m) (maybe_sweep_locked K V now (store K V now k x lru m)).0
  unfolding store
  stored_swept now k x lru m d =
      maybe_sweep_locked-Holds now m.ttl k (stored now x m) (store K V now k x lru m)
        (stored-IsFresh now x m) (insert-Distinct k (stored now x m) m.items d)
        (store-Holds now k x lru m)

  same_stored :
      (now : ℕ) (x : V) (m m' : BoundedMap K V) → m'.ttl ≡ m.ttl → stored now x m' ≡ stored now x m
  unfolding next_expiry_at
  same_stored now x m m' same = rw same refl

  put_entry-Holds :
      (now : ℕ) (k : K) (x : V) (m : BoundedMap K V) (o : Option (BoundedEntry K V))
      → Distinct m.items
      → Holds m.ttl k (stored now x m) (put_entry K V now k x m o).0
  unfolding put_entry push_new and_then
  put_entry-Holds now k x m (some _) d = stored_swept now k x _ m d
  put_entry-Holds now k x m none d =
      let room : BoundedMap K V = (make_room K V m).0 in
      let like : IsLike m room = make_room-IsLike m d in
      let h = stored_swept now k x ((k, tt) ∷ room.lru) room like.once in
      record {
        there = h.there ∙ ap some (same_stored now x m room like.ttl);
        ttl = h.ttl ∙ like.ttl;
      }

  get_held :
      (later now : ℕ) (k : K) (x : V) (m m' : BoundedMap K V)
      → Holds m.ttl k (stored now x m) m'
      → (get K V later k m').1
        ≡ (if leb_ℤ m.ttl (pos 0) || ltb later (now + pos_part m.ttl) then some x else none)
  unfolding get get_entry count_op is_expired_at next_expiry_at
  get_held later now k x m m' h = rw (h.there, h.ttl) (ground arith)

module _ {ℓ κ} (K : Type ℓ) (V : Type κ) ⦃keys : Key K⦄ where
  -- In a map with every key once, a `Get` directly after a `Put` of the same key finds the value that
  -- was put if the time to live is not positive or is not over yet, and finds nothing if it is over,
  -- whatever the put evicted.
  pub get-put :
      (now later : ℕ) (k : K) (x : V) (m : BoundedMap K V)
      → Distinct m.items
      → (get K V later k (put K V now k x m).0).1
        ≡ (if leb_ℤ m.ttl (pos 0) || ltb later (now + pos_part m.ttl) then some x else none)
  unfolding put count_op next_expiry_at
  get-put now later k x m d =
      get_held later now k x (count_op K V m) (put K V now k x m).0
        (put_entry-Holds now k x (count_op K V m) (lookup k m.items) d)
