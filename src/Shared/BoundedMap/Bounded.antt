-- ===== src/Shared/BoundedMap/Bounded.antt =====
-- The map and its list of uses agree and stay within the size.
use stream_analytics.Base.{
  ℕ, ◌<◌, ◌≡◌, refl, sym, ap, ◌∙◌, Bool, true, false, ◌||◌, List, [], ◌∷◌, Option, none, some,
  length, leb, arith, Bool-cases, Option-cases, inl, inr,
}
use stream_analytics.Base.Int.{ℤ}
use stream_analytics.Base.Assoc.{
  Key, lookup, insert, lookup-insert, lookup-remove, length-insert, length-remove-lt,
}
use stream_analytics.Base.Nested.{is_some}
use stream_analytics.Shared.BoundedMap.{
  by_size, by_ttl, by_delete, BoundedEntry, BoundedMap, is_expired_at, evict_locked, and_then,
  sweep_locked, count_op, get_entry, get, back, evict_tail, make_room, store, push_new, put_entry,
  put, delete_entry, delete, sweep, set_on_evict, set_sweep_every_ops, set_sweep_min_interval,
}
use stream_analytics.Shared.BoundedMap.Valid.{
  IsValid, lookup-move_to_front, move_to_front-Distinct, back-lookup, back-none,
  evict_locked-IsValid, and_then-IsValid, marked-IsValid, sweep_locked-IsValid,
  maybe_sweep_locked-IsValid, counted-IsValid,
}

module _ {ℓ κ} {K : Type ℓ} {V : Type κ} ⦃keys : Key K⦄ where
  -- A key of the map.
  listed :
      (k j : K) (items : List (K × BoundedEntry K V)) (e : BoundedEntry K V)
      → lookup k items ≡ some e
      → is_some (lookup j items) ≡ (keys.eq k j || is_some (lookup j items))
  unfolding is_some
  listed k j items e h = elim (Bool-cases (keys.eq k j)) [
    | inr d ↦ rw d refl
    | inl d ↦ rw (d, sym ((keys.eq_iff k j).0 d), h) refl
  ]

  lookup-stored :
      (k j : K) (items : List (K × BoundedEntry K V)) (e : BoundedEntry K V)
      → is_some (lookup j (insert k e items)) ≡ (keys.eq k j || is_some (lookup j items))
  unfolding is_some
  lookup-stored k j items e = ground (arith, lookup-insert k j e items)

  get_entry-IsValid :
      (now : ℕ) (k : K) (m : BoundedMap K V) (o : Option (BoundedEntry K V))
      → lookup k m.items ≡ o
      → IsValid m
      → IsValid (get_entry K V now k m o).0.0
  unfolding get_entry
  get_entry-IsValid now k m none h v = maybe_sweep_locked-IsValid now m v
  get_entry-IsValid now k m (some e) h v = elim (Bool-cases (is_expired_at K V m e now)) [
    | inl x ↦
        rw (get_entry, x)
          (and_then-IsValid _ _ (evict_locked-IsValid k e by_ttl m v)
            (maybe_sweep_locked-IsValid now))
    | inr x ↦
        rw (get_entry, x)
          (maybe_sweep_locked-IsValid now _ record {
            positive = v.positive;
            same = λ j.
                listed k j m.items e h
                ∙ ap (λ (b : Bool). keys.eq k j || b) (v.same j)
                ∙ sym (lookup-move_to_front k j m.lru);
            once = move_to_front-Distinct k m.lru v.once;
            bounded = v.bounded;
          })
  ]

  get-IsValid : (now : ℕ) (k : K) (m : BoundedMap K V) → IsValid m → IsValid (get K V now k m).0.0
  unfolding get count_op
  get-IsValid now k m v =
      get_entry-IsValid now k (count_op K V m) (lookup k m.items) refl (counted-IsValid m v)

  no_items :
      (items : List (K × BoundedEntry K V))
      → ((j : K) → is_some (lookup j items) ≡ false)
      → length items ≡ 0
  unfolding lookup is_some
  no_items [] h = refl
  no_items ((k, e) ∷ items) h = absurd (ground (arith, h k, (keys.eq_iff k k).1 refl))

  -- Room for the key `k`, which is not there.
  record HasRoom (k : K) (m : BoundedMap K V) : Type (ℓ ⊔ κ) where
    valid : IsValid m
    room : length m.items < m.max_size
    absent : lookup k m.items ≡ none

  evict_tail-HasRoom :
      (k : K) (m : BoundedMap K V)
      → leb m.max_size (length m.items) ≡ true
      → lookup k m.items ≡ none
      → IsValid m
      → HasRoom k (evict_tail K V m).0
  unfolding evict_tail is_some lookup
  evict_tail-HasRoom k m full h v = elim (Option-cases (back m.lru)) [
    | inl e ↦
        let nothing = no_items m.items (λ j.
          v.same j
          ∙ ap (λ (ks : List (K × Unit {0})). is_some (lookup j ks)) (back-none m.lru e)) in
        absurd (ground (arith, full, v.positive, nothing))
    | inr (l, e) ↦ elim (Option-cases (lookup l m.items)) [
      | inl gone ↦ absurd (unfold is_some in ground (arith, v.same l, back-lookup m.lru l e, gone))
      | inr (x, there) ↦
          rw (evict_tail, e, there)
            record {
              valid = evict_locked-IsValid l x by_size m v;
              room =
                  unfold evict_locked in
                  omega (arith, length-remove-lt l x m.items there, v.bounded);
              absent = unfold evict_locked in ground (arith, lookup-remove l k m.items, h);
            }
    ]
  ]

  make_room-HasRoom :
      (k : K) (m : BoundedMap K V)
      → lookup k m.items ≡ none
      → IsValid m
      → HasRoom k (make_room K V m).0
  unfolding make_room
  make_room-HasRoom k m h v = elim (Bool-cases (leb m.max_size (length m.items))) [
    | inl e ↦ rw (make_room, e) (evict_tail-HasRoom k m e h v)
    | inr e ↦ rw (make_room, e) record { valid = v; room = ground (arith, e); absent = h }
  ]

  stored_front :
      (k j : K) (m : BoundedMap K V)
      → is_some (lookup j m.items) ≡ is_some (lookup j m.lru)
      → (keys.eq k j || is_some (lookup j m.items)) ≡ is_some (lookup j ((k, tt) ∷ m.lru))
  unfolding lookup is_some
  stored_front k j m h = ground (arith, h)

  push_new-IsValid :
      (now : ℕ) (k : K) (x : V) (m : BoundedMap K V)
      → HasRoom k m
      → IsValid (push_new K V now k x m).0
  unfolding push_new store
  push_new-IsValid now k x m r = maybe_sweep_locked-IsValid now _ record {
    positive = r.valid.positive;
    same = λ j. lookup-stored k j m.items _ ∙ (stored_front k j m (r.valid.same j));
    once = ((unfold is_some in ground (arith, r.valid.same k, r.absent)), r.valid.once);
    bounded = rw (length-insert k _ m.items, r.absent) (omega (arith, r.room));
  }

  put_entry-IsValid :
      (now : ℕ) (k : K) (x : V) (m : BoundedMap K V) (o : Option (BoundedEntry K V))
      → lookup k m.items ≡ o
      → IsValid m
      → IsValid (put_entry K V now k x m o).0
  unfolding put_entry store and_then push_new
  put_entry-IsValid now k x m none h v =
      push_new-IsValid now k x (make_room K V m).0 (make_room-HasRoom k m h v)
  put_entry-IsValid now k x m (some e) h v = maybe_sweep_locked-IsValid now _ record {
    positive = v.positive;
    same = λ j.
        lookup-stored k j m.items _
        ∙ ap (λ (b : Bool). keys.eq k j || b) (v.same j)
        ∙ sym (lookup-move_to_front k j m.lru);
    once = move_to_front-Distinct k m.lru v.once;
    bounded = rw (length-insert k _ m.items, h) v.bounded;
  }

  delete_entry-IsValid :
      (now : ℕ) (k : K) (m : BoundedMap K V) (o : Option (BoundedEntry K V))
      → IsValid m
      → IsValid (delete_entry K V now k m o).0
  unfolding delete_entry
  delete_entry-IsValid now k m none v = maybe_sweep_locked-IsValid now m v
  delete_entry-IsValid now k m (some e) v =
      and_then-IsValid _ _ (evict_locked-IsValid k e by_delete m v) (maybe_sweep_locked-IsValid now)

module _ {ℓ κ} (K : Type ℓ) (V : Type κ) ⦃keys : Key K⦄ where
  -- A method call, with the reading of the clock.
  pub data Call : Type (ℓ ⊔ κ) where
    gets deletes : ℕ → K → Call
    puts : ℕ → K → V → Call
    sweeps : ℕ → Call
    sets_on_evict : Bool → Call
    sets_sweep_every_ops : ℕ → Call
    sets_sweep_min_interval : ℤ → Call

  unfoldable pub call : BoundedMap K V → Call → BoundedMap K V
  call m (gets now k) = (get K V now k m).0.0
  call m (deletes now k) = (delete K V now k m).0
  call m (puts now k x) = (put K V now k x m).0
  call m (sweeps now) = (sweep K V now m).0
  call m (sets_on_evict is_set) = set_on_evict K V is_set m
  call m (sets_sweep_every_ops n) = set_sweep_every_ops K V n m
  call m (sets_sweep_min_interval d) = set_sweep_min_interval K V d m

  unfoldable pub calls : BoundedMap K V → List Call → BoundedMap K V
  calls m [] = m
  calls m (c ∷ cs) = calls (call m c) cs

  call-IsValid : (m : BoundedMap K V) (c : Call) → IsValid m → IsValid (call m c)
  unfolding call put delete sweep count_op set_on_evict set_sweep_every_ops set_sweep_min_interval
  call-IsValid m (gets now k) v = get-IsValid now k m v
  call-IsValid m (deletes now k) v =
      delete_entry-IsValid now k (count_op K V m) (lookup k m.items) (counted-IsValid m v)
  call-IsValid m (puts now k x) v =
      put_entry-IsValid now k x (count_op K V m) (lookup k m.items) refl (counted-IsValid m v)
  call-IsValid m (sweeps now) v =
      marked-IsValid now (sweep_locked K V now m) (sweep_locked-IsValid now m v)
  call-IsValid m (sets_on_evict _) v = record {
    positive = v.positive;
    same = v.same;
    once = v.once;
    bounded = v.bounded;
  }
  call-IsValid m (sets_sweep_every_ops _) v = record {
    positive = v.positive;
    same = v.same;
    once = v.once;
    bounded = v.bounded;
  }
  call-IsValid m (sets_sweep_min_interval _) v = record {
    positive = v.positive;
    same = v.same;
    once = v.once;
    bounded = v.bounded;
  }

  -- For a bounded map of which this holds at the start, whatever methods are called at whatever times,
  -- it goes on to hold: the map and the list of uses have the same keys, no key is twice in the list,
  -- and the map has no more entries than its maximal size, which is positive.
  pub calls-IsValid : (m : BoundedMap K V) (cs : List Call) → IsValid m → IsValid (calls m cs)
  unfolding calls
  calls-IsValid m [] v = v
  calls-IsValid m (c ∷ cs) v = calls-IsValid (call m c) cs (call-IsValid m c v)
