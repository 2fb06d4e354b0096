-- ===== src/Ingest/RetryBudget/NewKey.antt =====
-- A key that is not in the table takes the next slot.
use stream_analytics.Base.{
  ℕ, ◌+◌, ◌<◌, ◌≡◌, ◌≢◌, refl, sym, ap, ◌∙◌, subst, false, [], none, some, set, get_or, length,
  length-set, arith, if◌then◌else◌, ◌==◌, ==_iff, Bool-cases, inl, inr,
}
use native.Mathlib.Nat.{mod-lt}
use stream_analytics.Base.Slots.{get_or-set_self, get_or-set_ne}
use stream_analytics.Base.Text.{Text, text_eq, text_eq_iff, text_key, is_empty}
use stream_analytics.Base.Assoc.{
  lookup, insert, Distinct, lookup-insert, lookup-remove, insert-Distinct, remove-Distinct,
  length-insert,
}
use stream_analytics.Ingest.RetryBudget.{
  RetryBudgetEntry, Entries, RetryBudgetTracker, evict, take_slot,
}
use stream_analytics.Ingest.RetryBudget.Slots.{in_use, used-set, length-remove}
use stream_analytics.Ingest.RetryBudget.Table.{IsValid, slot_or_zero}

lookup-evict :
    (w k : Text) (m : Entries)
    → lookup k (evict w m)
      ≡ (if is_empty w then lookup k m else if text_eq w k then none else lookup k m)
unfolding evict
lookup-evict w k m = elim (Bool-cases (is_empty w)) [
  | inl e ↦ rw e refl
  | inr e ↦ rw e (lookup-remove w k m)
]

evict-Distinct : (w : Text) (m : Entries) → Distinct m → Distinct (evict w m)
unfolding evict
evict-Distinct w m d = elim (Bool-cases (is_empty w)) [
  | inl e ↦ rw e d
  | inr e ↦ rw e (remove-Distinct w m d)
]

length-evict :
    (t : RetryBudgetTracker)
    → IsValid t
    → length (evict (get_or t.ring t.next []) t.entries) + in_use (get_or t.ring t.next [])
      ≡ length t.entries
unfolding evict
length-evict t v = elim (Bool-cases (is_empty (get_or t.ring t.next []))) [
  | inl e ↦ rw e (omega arith)
  | inr e ↦
      let (entry, f, q) = v.owned t.next v.inside e in
      rw e (length-remove (get_or t.ring t.next []) entry t.entries v.distinct f)
]

-- What an entry other than the new one says after the victim is gone.
kept_entry :
    (t : RetryBudgetTracker) (k : Text) (e : RetryBudgetEntry)
    → IsValid t
    → lookup k (evict (get_or t.ring t.next []) t.entries) ≡ some e
    → (lookup k t.entries ≡ some e) × (t.next ≢ e.slot)
kept_entry t k e v h =
    let l = sym (lookup-evict (get_or t.ring t.next []) k t.entries) ∙ h in
    let f : lookup k t.entries ≡ some e = ground (arith, l) in
    let (b, p) = v.points k e f in
    (
      f,
      λ q.
          let l' =
            subst
              (λ w.
                (if is_empty w
                  then lookup k t.entries
                  else if text_eq w k
                  then none
                  else lookup k t.entries)
                ≡ some e)
              (ap (λ i. get_or t.ring i []) q ∙ p) l in
          ground (arith, l', v.named k e f, text_eq_iff k k),
    )

-- A key in another slot is not the victim's, and keeps its entry.
kept_owner :
    (t : RetryBudgetTracker) (i : ℕ)
    → IsValid t
    → i < t.max_size
    → t.next ≢ i
    → is_empty (get_or t.ring i []) ≡ false
    → (e : RetryBudgetEntry) × (lookup
          (get_or t.ring i [])
          (evict (get_or t.ring t.next []) t.entries)
        ≡ some e)
      × (e.slot ≡ i)
kept_owner t i v h n full =
    let (e, f, q) = v.owned i h full in
    (e, lookup-evict (get_or t.ring t.next []) (get_or t.ring i []) t.entries ∙ kept e f q, q)
  where
    kept :
        (e : RetryBudgetEntry)
        → lookup (get_or t.ring i []) t.entries ≡ some e
        → e.slot ≡ i
        → (if is_empty (get_or t.ring t.next [])
            then lookup (get_or t.ring i []) t.entries
            else if text_eq (get_or t.ring t.next []) (get_or t.ring i [])
            then none
            else lookup (get_or t.ring i []) t.entries)
          ≡ some e
    kept e f q = elim (Bool-cases (is_empty (get_or t.ring t.next []))) [
      | inl free ↦ rw free f
      | inr taken ↦ elim (Bool-cases (text_eq (get_or t.ring t.next []) (get_or t.ring i []))) [
        | inr other ↦ rw (taken, other) f
        | inl equal ↦
            let (e', f', q') = v.owned t.next v.inside taken in
            let g = subst (λ k. lookup k t.entries ≡ some e') ((text_eq_iff _ _).0 equal) f' in
            let z : some e' ≡ some e = sym g ∙ f in absurd (n (sym q' ∙ ap slot_or_zero z ∙ q))
      ]
    ]

pub take_slot-IsValid :
    (t : RetryBudgetTracker) (key : Text)
    → IsValid t
    → is_empty key ≡ false
    → lookup key t.entries ≡ none
    → IsValid (take_slot t key)
unfolding take_slot
take_slot-IsValid t key v n absent = record {
  positive = v.positive;
  sized = length-set t.ring t.next key ∙ v.sized;
  inside = mod-lt (t.next + 1) v.positive;
  distinct = insert-Distinct key entry rest (evict-Distinct victim t.entries v.distinct);
  named = λ k e h. elim (Bool-cases (text_eq key k)) [
    | inl q ↦ subst (λ j. is_empty j ≡ false) ((text_eq_iff key k).0 q) n
    | inr q ↦ v.named k e (kept_entry t k e v (later k e q h)).0
  ];
  points = new_points;
  owned = new_owned;
  counted = ground (
    arith,
    used-set t.ring t.next key next_in,
    length-insert key entry rest,
    absent_rest,
    length-evict t v,
    v.counted,
    n,
  );
}
  where
    victim : Text
    victim = get_or t.ring t.next []

    entry : RetryBudgetEntry
    entry = record { attempts = 1; slot = t.next }

    rest : Entries
    rest = evict victim t.entries

    absent_rest : lookup key rest ≡ none
    absent_rest = ground (arith, lookup-evict victim key t.entries, absent)

    later :
        (k : Text) (e : RetryBudgetEntry)
        → text_eq key k ≡ false
        → lookup k (insert key entry rest) ≡ some e
        → lookup k rest ≡ some e
    later k e q h = ground (arith, lookup-insert key k entry rest, q, h)

    next_in : t.next < length t.ring
    next_in = omega (arith, v.inside, v.sized)

    new_points :
        (k : Text) (e : RetryBudgetEntry)
        → lookup k (insert key entry rest) ≡ some e
        → (e.slot < t.max_size) × (get_or (set t.ring t.next key) e.slot [] ≡ k)
    new_points k e h = elim (Bool-cases (text_eq key k)) [
      | inl q ↦
          let z : some entry ≡ some e = ground (arith, lookup-insert key k entry rest, q, h) in
          let s : e.slot ≡ t.next = sym (ap slot_or_zero z) in
          (
            omega (arith, s, v.inside),
            ap (λ i. get_or (set t.ring t.next key) i []) s
                ∙ get_or-set_self t.ring t.next key [] next_in
                ∙ (text_eq_iff key k).0 q,
          )
      | inr q ↦
          let (f, ne) = kept_entry t k e v (later k e q h) in
          let (b, p) = v.points k e f in (b, get_or-set_ne t.ring t.next e.slot key [] ne ∙ p)
    ]

    new_owned :
        (i : ℕ)
        → i < t.max_size
        → is_empty (get_or (set t.ring t.next key) i []) ≡ false
        → (e : RetryBudgetEntry) × (lookup
              (get_or (set t.ring t.next key) i [])
              (insert key entry rest)
            ≡ some e)
          × (e.slot ≡ i)
    new_owned i h full = elim (Bool-cases (t.next == i)) [
      | inl q ↦
          let ii = (==_iff t.next i).0 q in
          let g =
            ap (λ j. get_or (set t.ring t.next key) j []) (sym ii)
            ∙ get_or-set_self t.ring t.next key [] next_in in
          (
            entry,
            ap (λ j. lookup j (insert key entry rest)) g
                ∙ ground (arith, lookup-insert key key entry rest, text_eq_iff key key),
            ii,
          )
      | inr q ↦
          let ne : t.next ≢ i = λ ii. ground (arith, ii, q) in
          let g = get_or-set_ne t.ring t.next i key [] ne in
          let (e, f, r) = kept_owner t i v h ne (subst (λ j. is_empty j ≡ false) g full) in
          (
            e,
            ap (λ j. lookup j (insert key entry rest)) g
                ∙ ground (
                  arith,
                  lookup-insert key (get_or t.ring i []) entry rest,
                  f,
                  absent_rest,
                  text_eq_iff key (get_or t.ring i []),
                ),
            r,
          )
    ]
