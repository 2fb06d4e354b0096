-- ===== src/Shared/BoundedMap/Valid.antt =====
-- What the methods of the bounded map keep, and the steps of which they are made: evictions and
-- sweeps.
use stream_analytics.Base.{
  ℕ, ◌≤◌, ◌<◌, ◌≡◌, refl, ap, ◌∙◌, Bool, true, false, ◌||◌, List, [], ◌∷◌, none, some, length,
  arith, if◌then◌else◌, Bool-cases, Option-cases, inl, inr,
}
use stream_analytics.Base.Int.{pos, leb_ℤ}
use stream_analytics.Base.Assoc.{
  Key, lookup, lookup-remove, Distinct, remove-Distinct, length-remove-le,
}
use stream_analytics.Base.Nested.{is_some, is_nil}
use stream_analytics.Shared.BoundedMap.{
  EvictReason, by_ttl, BoundedEntry, BoundedMap, Step, is_expired_at, evict_locked, and_then,
  sweep_entries, sweep_locked, is_due, mark_sweep, maybe_sweep_locked, count_op, move_to_front,
  back,
}

module _ {ℓ} {K : Type ℓ} ⦃keys : Key K⦄ where
  pub lookup-move_to_front :
      (k j : K) (lru : List (K × Unit {0}))
      → is_some (lookup j (move_to_front k lru)) ≡ (keys.eq k j || is_some (lookup j lru))
  unfolding move_to_front lookup is_some
  lookup-move_to_front k j lru = ground (arith, lookup-remove k j lru)

  pub move_to_front-Distinct :
      (k : K) (lru : List (K × Unit {0})) → Distinct lru → Distinct (move_to_front k lru)
  unfolding move_to_front
  move_to_front-Distinct k lru d =
      (rw (lookup-remove k k lru, (keys.eq_iff k k).1 refl) refl, remove-Distinct k lru d)

  pub back-lookup :
      (lru : List (K × Unit {0})) (l : K) → back lru ≡ some l → is_some (lookup l lru) ≡ true
  unfolding back lookup is_some
  back-lookup [] l h = absurd (cc h)
  back-lookup ((k, _) ∷ ks) l h = elim (Option-cases (back ks)) [
    | inl e ↦ let same_key : k ≡ l = ground (arith, h, e) in rw ((keys.eq_iff k l).1 same_key) refl
    | inr (j, e) ↦
        let same_key : j ≡ l = ground (arith, h, e) in
        ground (arith, back-lookup ks l (e ∙ ap some same_key))
  ]

  pub back-none : (lru : List (K × Unit {0})) → back lru ≡ none → lru ≡ []
  unfolding back
  back-none [] h = refl
  back-none ((k, _) ∷ ks) h = absurd (ground (arith, h))

module _ {ℓ κ} {K : Type ℓ} {V : Type κ} ⦃keys : Key K⦄ where
  pub record IsValid (m : BoundedMap K V) : Type ℓ where
    pub positive : 0 < m.max_size
    pub same : (k : K) → is_some (lookup k m.items) ≡ is_some (lookup k m.lru)
    pub once : Distinct m.lru
    pub bounded : length m.items ≤ m.max_size

  pub evict_locked-IsValid :
      (k : K) (e : BoundedEntry K V) (reason : EvictReason) (m : BoundedMap K V)
      → IsValid m
      → IsValid (evict_locked K V k e reason m).0
  unfolding evict_locked is_some
  evict_locked-IsValid k e reason m v = record {
    positive = v.positive;
    same = λ j. rw (lookup-remove k j m.items, lookup-remove k j m.lru) (ground (arith, v.same j));
    once = remove-Distinct k m.lru v.once;
    bounded = omega (arith, v.bounded, length-remove-le k m.items);
  }

  pub and_then-IsValid :
      (s : Step K V) (f : BoundedMap K V → Step K V)
      → IsValid s.0
      → ((m : BoundedMap K V) → IsValid m → IsValid (f m).0)
      → IsValid (and_then K V s f).0
  unfolding and_then
  and_then-IsValid s f v h = h s.0 v

  sweep_entries-IsValid :
      (now : ℕ) (es : List (K × BoundedEntry K V)) (m : BoundedMap K V)
      → IsValid m
      → IsValid (sweep_entries K V now es m).0
  unfolding sweep_entries
  sweep_entries-IsValid now [] m v = v
  sweep_entries-IsValid now ((k, e) ∷ es) m v =
      and_then-IsValid _ (sweep_entries K V now es) (first (is_expired_at K V m e now))
        (sweep_entries-IsValid now es)
    where
      first : (b : Bool) → IsValid (if b then evict_locked K V k e by_ttl m else (m, [])).0
      first true = evict_locked-IsValid k e by_ttl m v
      first false = v

  pub marked-IsValid : (now : ℕ) (s : Step K V) → IsValid s.0 → IsValid (mark_sweep K V now s).0
  unfolding mark_sweep
  marked-IsValid now s v = record {
    positive = v.positive;
    same = v.same;
    once = v.once;
    bounded = v.bounded;
  }

  pub sweep_locked-IsValid :
      (now : ℕ) (m : BoundedMap K V) → IsValid m → IsValid (sweep_locked K V now m).0
  unfolding sweep_locked
  sweep_locked-IsValid now m v = elim (Bool-cases (leb_ℤ m.ttl (pos 0) || is_nil m.items)) [
    | inl e ↦ rw (sweep_locked, e) v
    | inr e ↦ rw (sweep_locked, e) (sweep_entries-IsValid now m.items m v)
  ]

  pub maybe_sweep_locked-IsValid :
      (now : ℕ) (m : BoundedMap K V) → IsValid m → IsValid (maybe_sweep_locked K V now m).0
  unfolding maybe_sweep_locked
  maybe_sweep_locked-IsValid now m v = elim (Bool-cases (leb_ℤ m.ttl (pos 0))) [
    | inl e ↦ rw (maybe_sweep_locked, e) v
    | inr e ↦
        rw (maybe_sweep_locked, e)
          (elim (Bool-cases (is_due K V now m)) [
            | inl f ↦
                rw f (marked-IsValid now (sweep_locked K V now m) (sweep_locked-IsValid now m v))
            | inr f ↦ rw f v
          ])
  ]

  pub counted-IsValid : (m : BoundedMap K V) → IsValid m → IsValid (count_op K V m)
  unfolding count_op
  counted-IsValid m v = record {
    positive = v.positive;
    same = v.same;
    once = v.once;
    bounded = v.bounded;
  }
