-- ===== src/Delivery/Router/Entries.antt =====
-- How many stream states the router keeps, and the numbers that it gives to clients.
use stream_analytics.Base.{
  ℕ, ◌-◌, ◌^◌, ◌≤◌, ◌<◌, ◌≡◌, refl, sym, ◌∙◌, subst, ◌⊎◌, inl, inr, Bool, true, false, none, some,
  List, [], ◌∷◌, arith, length, ltb, ◌||◌, Bool-cases, Option-cases, if◌then◌else◌,
}
use stream_analytics.Base.Int.{ℤ, pos, negsuc, ◌≤ℤ◌, ◌<ℤ◌, ◌+ℤ◌, leb_ℤ, eq_ℤ}
use stream_analytics.Base.Text.{Text, text_eq, text_eq_iff, text_key, trim_space, is_empty}
use stream_analytics.Base.Assoc.{
  lookup, insert, remove, lookup-insert, length-insert, length-remove-lt,
}
use stream_analytics.Envelope.{Envelope}
use stream_analytics.Delivery.Router.{
  StreamState, Router, zero_state, sweep, oldest, evict_oldest, make_room, ensure, state_of,
  accept_stream_seq, next_seq, next_delivery_seq,
}

abbrev States : Type 0
States = List (Text × StreamState)

-- Stream identifiers are not empty.
abbrev pub Keyed : States → Type 0
Keyed [] = Unit {0}
Keyed ((id, s) ∷ m) = (is_empty id ≡ false) × Keyed m

insert-Keyed :
    (id : Text) (s : StreamState) (m : States)
    → is_empty id ≡ false
    → Keyed m
    → Keyed (insert id s m)
unfolding insert
insert-Keyed id s [] h k = (h, tt)
insert-Keyed id s ((j, t) ∷ m) h k = elim (Bool-cases (text_eq j id)) [
  | inl e ↦ rw e k
  | inr e ↦ rw e (k.0, insert-Keyed id s m h k.1)
]

remove-Keyed : (id : Text) (m : States) → Keyed m → Keyed (remove id m)
unfolding remove
remove-Keyed id [] k = tt
remove-Keyed id ((j, t) ∷ m) k = elim (Bool-cases (text_eq j id)) [
  | inl e ↦ rw e (remove-Keyed id m k.1)
  | inr e ↦ rw e (k.0, remove-Keyed id m k.1)
]

sweep-Keyed : (now ttl : ℕ) (m : States) → Keyed m → Keyed (sweep now ttl m)
unfolding sweep
sweep-Keyed now ttl [] k = tt
sweep-Keyed now ttl ((j, t) ∷ m) k = ground (arith, sweep-Keyed now ttl m k.1)

length-sweep-le : (now ttl : ℕ) (m : States) → length (sweep now ttl m) ≤ length m
unfolding sweep
length-sweep-le now ttl [] = omega arith
length-sweep-le now ttl ((j, t) ∷ m) = ground (arith, length-sweep-le now ttl m)

abbrev IsKey : Text → States → Type 0
IsKey id m = (s : StreamState) × (lookup id m ≡ some s)

IsKey-later : (id j : Text) (t : StreamState) (m : States) → IsKey id m → IsKey id ((j, t) ∷ m)
unfolding lookup
IsKey-later id j t m (s, e) = elim (Bool-cases (text_eq j id)) [
  | inl h ↦ (t, rw h)
  | inr h ↦ (s, rw h e)
]

IsKey-here : (j : Text) (t : StreamState) (m : States) → IsKey j ((j, t) ∷ m)
unfolding lookup
IsKey-here j t m = (t, rw (text_eq_iff j j).1 refl)

-- The loop ends at the name that it started from, or at an entry.
oldest-IsKey :
    (id : Text) (time : ℕ) (m : States) → (oldest id time m ≡ id) ⊎ IsKey (oldest id time m) m
unfolding oldest
oldest-IsKey id time [] = inl refl
oldest-IsKey id time ((j, t) ∷ m) =
    choose (is_empty id || ltb t.last_seen_at time) (oldest-IsKey j t.last_seen_at m)
      (oldest-IsKey id time m)
  where
    choose :
        (b : Bool)
        → (oldest j t.last_seen_at m ≡ j) ⊎ IsKey (oldest j t.last_seen_at m) m
        → (oldest id time m ≡ id) ⊎ IsKey (oldest id time m) m
        → ((if b then oldest j t.last_seen_at m else oldest id time m) ≡ id)
          ⊎ IsKey (if b then oldest j t.last_seen_at m else oldest id time m) ((j, t) ∷ m)
    choose true (inl e) q = inr (subst (λ k. IsKey k ((j, t) ∷ m)) (sym e) (IsKey-here j t m))
    choose true (inr k) q = inr (IsKey-later (oldest j t.last_seen_at m) j t m k)
    choose false p (inl e) = inl e
    choose false p (inr k) = inr (IsKey-later (oldest id time m) j t m k)

oldest_first :
    (j : Text) (t : StreamState) (m : States) → IsKey (oldest [] 0 ((j, t) ∷ m)) ((j, t) ∷ m)
unfolding oldest is_empty
oldest_first j t m = elim (oldest-IsKey j t.last_seen_at m) [
  | inl e ↦ subst (λ k. IsKey k ((j, t) ∷ m)) (sym e) (IsKey-here j t m)
  | inr k ↦ IsKey-later (oldest j t.last_seen_at m) j t m k
]

IsKey-not_empty : (id : Text) (m : States) → Keyed m → IsKey id m → is_empty id ≡ false
unfolding lookup
IsKey-not_empty id [] k (s, e) = absurd (ground arith)
IsKey-not_empty id ((j, t) ∷ m) k (s, e) = elim (Bool-cases (text_eq j id)) [
  | inl h ↦ subst (λ i. is_empty i ≡ false) ((text_eq_iff j id).0 h) k.0
  | inr h ↦ IsKey-not_empty id m k.1 (s, ground arith)
]

-- Where there is an entry, the eviction takes one away.
length-evict_oldest-lt : (m : States) → Keyed m → 0 < length m → length (evict_oldest m) < length m
unfolding evict_oldest
length-evict_oldest-lt [] k h = absurd (omega arith)
length-evict_oldest-lt ((j, t) ∷ m) k h =
    let found = oldest_first j t m in
    rw (IsKey-not_empty (oldest [] 0 ((j, t) ∷ m)) ((j, t) ∷ m) k found)
      (length-remove-lt (oldest [] 0 ((j, t) ∷ m)) found.0 ((j, t) ∷ m) found.1)

make_room-lt :
    (r : Router) (now : ℕ)
    → Keyed r.stream_state
    → 0 < r.max_stream_state_entries
    → length r.stream_state ≤ r.max_stream_state_entries
    → length (make_room r now) < r.max_stream_state_entries
unfolding make_room
make_room-lt r now k p h = ground (
  arith,
  length-sweep-le now r.stream_state_ttl r.stream_state,
  length-evict_oldest-lt (sweep now r.stream_state_ttl r.stream_state)
      (sweep-Keyed now r.stream_state_ttl r.stream_state k),
)

evict_oldest-Keyed : (m : States) → Keyed m → Keyed (evict_oldest m)
unfolding evict_oldest
evict_oldest-Keyed m k = ground (arith, remove-Keyed (oldest [] 0 m) m k)

make_room-Keyed : (r : Router) (now : ℕ) → Keyed r.stream_state → Keyed (make_room r now)
unfolding make_room
make_room-Keyed r now k =
    let swept = sweep-Keyed now r.stream_state_ttl r.stream_state k in
    ground (arith, swept, evict_oldest-Keyed (sweep now r.stream_state_ttl r.stream_state) swept)

-- The router's state is well formed: no stream without a name, and no more streams than the bound.
pub record IsValid (r : Router) : Type 0 where
  pub positive : 0 < r.max_stream_state_entries
  pub keyed : Keyed r.stream_state
  pub bounded : length r.stream_state ≤ r.max_stream_state_entries

-- What `ensure` leaves: within the bound, and the stream is there.
ensure_lem :
    (r : Router) (now : ℕ) (id : Text)
    → is_empty id ≡ false
    → IsValid r
    → Keyed (ensure r now id)
      × (length (ensure r now id) ≤ r.max_stream_state_entries)
      × IsKey id (ensure r now id)
unfolding ensure
ensure_lem r now id n v = elim (Option-cases (lookup id r.stream_state)) [
  | inr (s, e) ↦ rw (e, ensure) (v.keyed, v.bounded, (s, e))
  | inl e ↦
      rw (e, ensure)
        (
          insert-Keyed id zero_state (make_room r now) n (make_room-Keyed r now v.keyed),
          ground (
            arith,
            length-insert id zero_state (make_room r now),
            make_room-lt r now v.keyed v.positive v.bounded,
          ),
          (
            zero_state,
            lookup-insert id id zero_state (make_room r now) ∙ (rw (text_eq_iff id id).1 refl),
          ),
        )
]

stored-IsValid :
    (r : Router) (now : ℕ) (id : Text) (s : StreamState)
    → is_empty id ≡ false
    → IsValid r
    → IsValid (record r { stream_state = insert id s (ensure r now id) })
stored-IsValid r now id s n v =
    let (k, b, (t, e)) = ensure_lem r now id n v in
    record {
      positive = v.positive;
      keyed = insert-Keyed id s (ensure r now id) n k;
      bounded = ground (arith, length-insert id s (ensure r now id), b, e);
    }

-- `acceptStreamSeq` keeps the number of stream states within `maxStreamStateEntries`, whatever it
-- is given.
pub accept_stream_seq-IsValid :
    (token : Text → Text) (r : Router) (now sweep_now : ℕ) (raw_id : Text) (env : Envelope)
    → IsValid r
    → IsValid (accept_stream_seq token r now sweep_now raw_id env).0
unfolding accept_stream_seq
accept_stream_seq-IsValid token r now sweep_now raw_id env v =
    elim (Bool-cases (is_empty (trim_space raw_id))) [
      | inl blank ↦ rw blank v
      | inr named ↦ elim (Bool-cases (leb_ℤ env.seq (pos 0))) [
        | inl low ↦ rw (named, low) v
        | inr high ↦ rw (named, high) (stored-IsValid r sweep_now (trim_space raw_id) _ named v)
      ]
    ]

next_seq_lem :
    (last : ℤ)
    → pos 0 ≤ℤ last
    → last <ℤ pos (2 ^ 63)
    → next_seq last ≡ (if eq_ℤ last (pos (2 ^ 63 - 1)) then pos 1 else last +ℤ pos 1)
unfolding next_seq ◌+ℤ◌
next_seq_lem (pos k) low high = ground arith
next_seq_lem (negsuc k) low high = absurd (omega arith)

state_of-insert :
    (id j : Text) (s : StreamState) (m : States)
    → state_of j (insert id s m) ≡ (if text_eq id j then s else state_of j m)
unfolding state_of
state_of-insert id j s m = ground (arith, lookup-insert id j s m)

-- `nextDeliverySeq` gives the successor of the stream's last number (1 again after the largest
-- int64) and stores it as the last number with the time, in a state that is all zero where the stream
-- had none. The entry of every other stream, or that there is none, and the settings of the router
-- stay.
pub next_delivery_seq_follows :
    (r : Router) (now : ℕ) (raw_id j : Text)
    → is_empty (trim_space raw_id) ≡ false
    → pos 0 ≤ℤ (state_of (trim_space raw_id) r.stream_state).last_delivery_seq
    → (state_of (trim_space raw_id) r.stream_state).last_delivery_seq <ℤ pos (2 ^ 63)
    → let (r', n) = next_delivery_seq r now raw_id in
      let state = state_of (trim_space raw_id) r.stream_state in
      (n ≡ (
        if eq_ℤ state.last_delivery_seq (pos (2 ^ 63 - 1))
        then pos 1
        else state.last_delivery_seq +ℤ pos 1))
      × (lookup j r'.stream_state ≡ (
          if text_eq (trim_space raw_id) j
          then some (record state { last_delivery_seq = n; last_seen_at = now })
          else lookup j r.stream_state))
      × (record r' { stream_state = r.stream_state } ≡ r)
unfolding next_delivery_seq
next_delivery_seq_follows r now raw_id j n low high = rw n (
  next_seq_lem (state_of (trim_space raw_id) r.stream_state).last_delivery_seq low high,
  lookup-insert (trim_space raw_id) j _ r.stream_state,
  refl,
)

grown :
    (id : Text) (s : StreamState) (m : States) {k : ℕ}
    → lookup id m ≡ none
    → length m ≡ k
    → k < length (insert id s m)
grown id s m absent full = ground (arith, length-insert id s m, absent, full)

-- `nextDeliverySeq` does not look at the bound: the number given to a stream that has no state adds
-- one, so a router that is at `maxStreamStateEntries` passes it.
pub next_delivery_seq_unbounded :
    (r : Router) (now : ℕ) (raw_id : Text)
    → is_empty (trim_space raw_id) ≡ false
    → lookup (trim_space raw_id) r.stream_state ≡ none
    → length r.stream_state ≡ r.max_stream_state_entries
    → let r' = (next_delivery_seq r now raw_id).0 in
      r'.max_stream_state_entries < length r'.stream_state
unfolding next_delivery_seq
next_delivery_seq_unbounded r now raw_id n absent full =
    rw n (grown (trim_space raw_id) _ r.stream_state absent full)
