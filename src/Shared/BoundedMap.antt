-- ===== src/Shared/BoundedMap.antt =====
-- internal/shared/ds/boundedmap.go: `BoundedMap`, a map with eviction by age and by last use. The
-- mutex makes every method one step. The readings of the clock are arguments, in nanoseconds. `lru`
-- holds the keys from the front, none twice, so that deleting a key from it is the removal of its
-- element. The callbacks are not called: a method gives the evictions it would report. The number that
-- `Sweep` gives, and its callback, are left out.
pub mod Valid
pub mod Bounded
pub mod Stored
mod Tests
use stream_analytics.Base.{
  ℕ, zero, suc, ◌+◌, ◌-◌, ◌%◌, ◌^◌, ◌≡◌, Bool, true, false, not, ◌&&◌, ◌||◌, List, [], ◌∷◌, ◌++◌,
  Option, none, some, length, ltb, leb, ◌==◌, if◌then◌else◌,
}
use stream_analytics.Base.Int.{ℤ, pos, pos_part, ltb_ℤ, leb_ℤ}
use stream_analytics.Base.Assoc.{Key, lookup, insert, remove}
use stream_analytics.Base.Nested.{is_nil}

-- The reasons given to `evictLocked`.
pub data EvictReason : Type 0 where
  by_size by_ttl by_delete : EvictReason

module _ {ℓ} {K : Type ℓ} ⦃keys : Key K⦄ where
  unfoldable pub move_to_front : K → List (K × Unit {0}) → List (K × Unit {0})
  move_to_front k lru = (k, tt) ∷ remove k lru

  -- `lru.Back()`.
  unfoldable pub back : List (K × Unit {0}) → Option K
  back [] = none
  back ((k, _) ∷ ks) = elim (back ks) [ none ↦ some k | some l ↦ some l ]

module _ {ℓ κ} (K : Type ℓ) (V : Type κ) ⦃keys : Key K⦄ where
  -- `none` is the zero time.
  pub record BoundedEntry : Type κ where
    pub value : V
    pub expires_at : Option ℕ

  pub record EvictionEvent : Type (ℓ ⊔ κ) where
    pub key : K
    pub value : V
    pub reason : EvictReason

  -- `has_on_evict` says whether `onEvict` is set.
  pub record BoundedMap : Type (ℓ ⊔ κ) where
    pub max_size : ℕ
    pub ttl : ℤ
    pub items : List (K × BoundedEntry)
    pub lru : List (K × Unit {0})
    pub has_on_evict : Bool
    pub op_count : ℕ
    pub sweep_every_ops : ℕ
    pub sweep_min_interval : ℤ
    pub last_sweep : ℕ

  pub new_bounded_map : ℤ → ℤ → ℕ → BoundedMap
  new_bounded_map max_size ttl now = record {
    max_size = if leb_ℤ max_size (pos 0) then 1 else pos_part max_size;
    ttl = ttl;
    items = [];
    lru = [];
    has_on_evict = false;
    op_count = 0;
    sweep_every_ops = 0;
    sweep_min_interval = pos 0;
    last_sweep = now;
  }

  abbrev pub Step : Type (ℓ ⊔ κ)
  Step = BoundedMap × List EvictionEvent

  unfoldable pub next_expiry_at : BoundedMap → ℕ → Option ℕ
  next_expiry_at m now = if leb_ℤ m.ttl (pos 0) then none else some (now + pos_part m.ttl)

  unfoldable pub is_expired_at : BoundedMap → BoundedEntry → ℕ → Bool
  is_expired_at m e now =
      if leb_ℤ m.ttl (pos 0) then false else elim e.expires_at [ none ↦ false | some t ↦ leb t now ]

  unfoldable pub evict_locked : K → BoundedEntry → EvictReason → BoundedMap → Step
  evict_locked k e reason m = (
    record m { items = remove k m.items; lru = remove k m.lru },
    if m.has_on_evict then record { key = k; value = e.value; reason = reason } ∷ [] else [],
  )

  unfoldable pub and_then : Step → (BoundedMap → Step) → Step
  and_then (m, evicted) f = let (m', more) = f m in (m', evicted ++ more)

  -- The loop of `sweepLocked` over the entries of the map.
  unfoldable pub sweep_entries : ℕ → List (K × BoundedEntry) → BoundedMap → Step
  sweep_entries now [] m = (m, [])
  sweep_entries now ((k, e) ∷ es) m =
      and_then (if is_expired_at m e now then evict_locked k e by_ttl m else (m, []))
        (sweep_entries now es)

  unfoldable pub sweep_locked : ℕ → BoundedMap → Step
  sweep_locked now m =
      if leb_ℤ m.ttl (pos 0) || is_nil m.items then (m, []) else sweep_entries now m.items m

  unfoldable pub is_due : ℕ → BoundedMap → Bool
  is_due now m =
      (ltb 0 m.sweep_every_ops && (m.op_count % m.sweep_every_ops) == 0)
      || (ltb_ℤ (pos 0) m.sweep_min_interval
          && leb_ℤ m.sweep_min_interval (pos (now - m.last_sweep)))

  unfoldable pub mark_sweep : ℕ → Step → Step
  mark_sweep now (m, evicted) = (record m { last_sweep = now }, evicted)

  unfoldable pub maybe_sweep_locked : ℕ → BoundedMap → Step
  maybe_sweep_locked now m =
      if leb_ℤ m.ttl (pos 0)
      then (m, [])
      else if is_due now m
      then mark_sweep now (sweep_locked now m)
      else (m, [])

  unfoldable pub count_op : BoundedMap → BoundedMap
  count_op m = record m { op_count = (m.op_count + 1) % 2 ^ 64 }

  -- What `Get` does with the entry that it finds.
  unfoldable pub get_entry : ℕ → K → BoundedMap → Option BoundedEntry → Step × Option V
  get_entry now k m none = (maybe_sweep_locked now m, none)
  get_entry now k m (some e) =
      if is_expired_at m e now
      then (and_then (evict_locked k e by_ttl m) (maybe_sweep_locked now), none)
      else (maybe_sweep_locked now (record m { lru = move_to_front k m.lru }), some e.value)

  unfoldable pub get : ℕ → K → BoundedMap → Step × Option V
  get now k m = get_entry now k (count_op m) (lookup k m.items)

  -- The eviction of the key at the back.
  unfoldable pub evict_tail : BoundedMap → Step
  evict_tail m = elim (back m.lru) [
    | none ↦ (m, [])
    | some k ↦ elim (lookup k m.items) [ none ↦ (m, []) | some e ↦ evict_locked k e by_size m ]
  ]

  unfoldable pub make_room : BoundedMap → Step
  make_room m = if leb m.max_size (length m.items) then evict_tail m else (m, [])

  unfoldable pub store : ℕ → K → V → List (K × Unit {0}) → BoundedMap → BoundedMap
  store now k v lru m = record m {
    items = insert k (record { value = v; expires_at = next_expiry_at m now }) m.items;
    lru = lru;
  }

  unfoldable pub push_new : ℕ → K → V → BoundedMap → Step
  push_new now k v m = maybe_sweep_locked now (store now k v ((k, tt) ∷ m.lru) m)

  unfoldable pub put_entry : ℕ → K → V → BoundedMap → Option BoundedEntry → Step
  put_entry now k v m (some _) = maybe_sweep_locked now (store now k v (move_to_front k m.lru) m)
  put_entry now k v m none = and_then (make_room m) (push_new now k v)

  unfoldable pub put : ℕ → K → V → BoundedMap → Step
  put now k v m = put_entry now k v (count_op m) (lookup k m.items)

  unfoldable pub delete_entry : ℕ → K → BoundedMap → Option BoundedEntry → Step
  delete_entry now k m none = maybe_sweep_locked now m
  delete_entry now k m (some e) = and_then (evict_locked k e by_delete m) (maybe_sweep_locked now)

  unfoldable pub delete : ℕ → K → BoundedMap → Step
  delete now k m = delete_entry now k (count_op m) (lookup k m.items)

  -- `Sweep`.
  unfoldable pub sweep : ℕ → BoundedMap → Step
  sweep now m = mark_sweep now (sweep_locked now m)

  unfoldable pub set_on_evict : Bool → BoundedMap → BoundedMap
  set_on_evict is_set m = record m { has_on_evict = is_set }

  unfoldable pub set_sweep_every_ops : ℕ → BoundedMap → BoundedMap
  set_sweep_every_ops n m = record m { sweep_every_ops = n }

  unfoldable pub set_sweep_min_interval : ℤ → BoundedMap → BoundedMap
  set_sweep_min_interval d m = record m { sweep_min_interval = d }
