-- ===== src/Ingest/RetryBudget/Attempt.antt =====
-- `increment` keeps the table.
use stream_analytics.Base.{
  ℕ, ◌+◌, ◌≡◌, refl, sym, ap, ◌∙◌, subst, false, [], ◌∷◌, some, get_or, arith, Bool-cases,
  Option-cases, inl, inr,
}
use stream_analytics.Base.Text.{
  Text, text_eq, text_eq_iff, text_key, is_empty, trim_space, trim_left,
}
use stream_analytics.Base.Assoc.{lookup, insert, lookup-insert, insert-Distinct, length-insert}
use stream_analytics.Ingest.RetryBudget.{RetryBudgetEntry, RetryBudgetTracker, increment}
use stream_analytics.Ingest.RetryBudget.Table.{IsValid, slot_or_zero}
use stream_analytics.Ingest.RetryBudget.NewKey.{take_slot-IsValid}

-- One more attempt for a key that is there.
again-IsValid :
    (t : RetryBudgetTracker) (key : Text) (entry : RetryBudgetEntry) (attempts : ℕ)
    → IsValid t
    → lookup key t.entries ≡ some entry
    → IsValid (record t { entries = insert key (record entry { attempts = attempts }) t.entries })
again-IsValid t key entry attempts v found = record {
  positive = v.positive;
  sized = v.sized;
  inside = v.inside;
  distinct = insert-Distinct key new t.entries v.distinct;
  named = λ k e h. v.named k (before k e h).0 (before k e h).1;
  points = λ k e h.
      let (e', f, q) = before k e h in
      let (b, p) = v.points k e' f in
      (omega (arith, b, q), ap (λ i. get_or t.ring i []) (sym q) ∙ p);
  owned = λ i h full.
      let (e, f, q) = v.owned i h full in
      let (e', f', q') = after (get_or t.ring i []) e f in (e', f', q' ∙ q);
  counted = ground (arith, v.counted, length-insert key new t.entries, found);
}
  where
    new : RetryBudgetEntry
    new = record entry { attempts = attempts }

    before :
        (k : Text) (e : RetryBudgetEntry)
        → lookup k (insert key new t.entries) ≡ some e
        → (e' : RetryBudgetEntry) × (lookup k t.entries ≡ some e') × (e'.slot ≡ e.slot)
    before k e h = elim (Bool-cases (text_eq key k)) [
      | inl q ↦
          let z : some new ≡ some e = ground (arith, lookup-insert key k new t.entries, q, h) in
          (
            entry,
            subst (λ j. lookup j t.entries ≡ some entry) ((text_eq_iff key k).0 q) found,
            ap slot_or_zero z,
          )
      | inr q ↦ (e, ground (arith, lookup-insert key k new t.entries, q, h), refl)
    ]

    after :
        (k : Text) (e : RetryBudgetEntry)
        → lookup k t.entries ≡ some e
        → (e' : RetryBudgetEntry) × (lookup k (insert key new t.entries) ≡ some e')
          × (e'.slot ≡ e.slot)
    after k e h = elim (Bool-cases (text_eq key k)) [
      | inl q ↦
          let f = subst (λ j. lookup j t.entries ≡ some entry) ((text_eq_iff key k).0 q) found in
          let z : some entry ≡ some e = sym f ∙ h in
          (new, ground (arith, lookup-insert key k new t.entries, q), ap slot_or_zero z)
      | inr q ↦ (e, ground (arith, lookup-insert key k new t.entries, q, h), refl)
    ]

not_empty : (key : Text) → is_empty (trim_space key) ≡ false → is_empty key ≡ false
unfolding is_empty trim_space trim_left
not_empty [] h = absurd (ground arith)
not_empty (c ∷ s) h = refl

pub increment-IsValid :
    (t : RetryBudgetTracker) (key : Text) → IsValid t → IsValid (increment t key).0
unfolding increment
increment-IsValid t key v = elim (Bool-cases (is_empty (trim_space key))) [
  | inl blank ↦ rw blank v
  | inr named ↦ elim (Option-cases (lookup key t.entries)) [
    | inl absent ↦ rw (named, absent) (take_slot-IsValid t key v (not_empty key named) absent)
    | inr (e, found) ↦ rw (named, found) (again-IsValid t key e (e.attempts + 1) v found)
  ]
]
