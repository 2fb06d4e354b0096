-- ===== src/Ingest/RetryBudget/Reset.antt =====
-- `reset` frees the slot and deletes the entry.
use stream_analytics.Base.{
  ℕ, ◌<◌, ◌≡◌, ◌≢◌, refl, sym, ap, ◌∙◌, subst, false, [], some, set, get_or, length, length-set,
  arith, lt→ltb, ◌==◌, ==_iff, Bool-cases, Option-cases, inl, inr,
}
use stream_analytics.Base.Slots.{get_or-set_self, get_or-set_ne}
use stream_analytics.Base.Text.{Text, text_eq, text_eq_iff, text_key, is_empty, trim_space}
use stream_analytics.Base.Assoc.{lookup, remove, lookup-remove, remove-Distinct}
use stream_analytics.Ingest.RetryBudget.{RetryBudgetEntry, RetryBudgetTracker, reset}
use stream_analytics.Ingest.RetryBudget.Slots.{in_use, used-set, length-remove}
use stream_analytics.Ingest.RetryBudget.Table.{IsValid, slot_or_zero}

reset_slot-IsValid :
    (t : RetryBudgetTracker) (key : Text) (entry : RetryBudgetEntry)
    → IsValid t
    → lookup key t.entries ≡ some entry
    → IsValid (record t { ring = set t.ring entry.slot []; entries = remove key t.entries })
reset_slot-IsValid t key entry v found = record {
  positive = v.positive;
  sized = length-set t.ring entry.slot [] ∙ v.sized;
  inside = v.inside;
  distinct = remove-Distinct key t.entries v.distinct;
  named = λ k e h. v.named k e (before k e h).0;
  points = λ k e h.
      let (f, n) = before k e h in
      let (b, p) = v.points k e f in
      (
        b,
        get_or-set_ne t.ring entry.slot e.slot [] []
              (λ q. n (sym (v.points key entry found).1 ∙ ap (λ i. get_or t.ring i []) q ∙ p))
            ∙ p,
      );
  owned = λ i h full. elim (Bool-cases (entry.slot == i)) [
    | inl q ↦ absurd (freed i ((==_iff entry.slot i).0 q) full)
    | inr q ↦
        let ne : entry.slot ≢ i = λ ii. ground (arith, ii, q) in
        let g = get_or-set_ne t.ring entry.slot i [] [] ne in
        let (e, f, r) = v.owned i h (subst (λ j. is_empty j ≡ false) g full) in
        (
          e,
          ap (λ j. lookup j (remove key t.entries)) g
              ∙ other (get_or t.ring i []) e f (λ s. ne (s ∙ r)),
          r,
        )
  ];
  counted = ground (
    arith,
    used-set t.ring entry.slot [] slot_in,
    length-remove key entry t.entries v.distinct found,
    v.counted,
    ap in_use (v.points key entry found).1,
    v.named key entry found,
    no_use,
  );
}
  where
    slot_in : entry.slot < length t.ring
    slot_in = omega (arith, (v.points key entry found).0, v.sized)

    no_use : in_use [] ≡ 0
    no_use = unfold is_empty in refl

    before :
        (k : Text) (e : RetryBudgetEntry)
        → lookup k (remove key t.entries) ≡ some e
        → (lookup k t.entries ≡ some e) × (key ≢ k)
    before k e h = elim (Bool-cases (text_eq key k)) [
      | inl q ↦ absurd (ground (arith, lookup-remove key k t.entries, q, h))
      | inr q ↦ (
        ground (arith, lookup-remove key k t.entries, q, h),
        λ kk. ground (arith, (text_eq_iff key k).1 kk, q),
      )
    ]

    other :
        (k : Text) (e : RetryBudgetEntry)
        → lookup k t.entries ≡ some e
        → entry.slot ≢ e.slot
        → lookup k (remove key t.entries) ≡ some e
    other k e h n = elim (Bool-cases (text_eq key k)) [
      | inl q ↦
          let f = subst (λ j. lookup j t.entries ≡ some entry) ((text_eq_iff key k).0 q) found in
          let z : some entry ≡ some e = sym f ∙ h in absurd (n (ap slot_or_zero z))
      | inr q ↦ ground (arith, lookup-remove key k t.entries, q, h)
    ]

    freed : (i : ℕ) → entry.slot ≡ i → ¬ (is_empty (get_or (set t.ring entry.slot []) i []) ≡ false)
    freed i q h =
        let g =
          ap (λ j. get_or (set t.ring entry.slot []) j []) (sym q)
          ∙ get_or-set_self t.ring entry.slot [] [] slot_in in
        let z : is_empty [] ≡ false = subst (λ j. is_empty j ≡ false) g h in
        unfold is_empty in ground (arith, z)

pub reset-IsValid : (t : RetryBudgetTracker) (key : Text) → IsValid t → IsValid (reset t key)
unfolding reset
reset-IsValid t key v = elim (Bool-cases (is_empty (trim_space key))) [
  | inl blank ↦ rw blank v
  | inr named ↦ elim (Option-cases (lookup key t.entries)) [
    | inl absent ↦ rw (named, absent) v
    | inr (e, found) ↦
        rw
          (
            named,
            found,
            lt→ltb e.slot (length t.ring) (omega (arith, (v.points key e found).0, v.sized)),
          )
          (reset_slot-IsValid t key e v found)
  ]
]
