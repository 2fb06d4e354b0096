-- ===== src/Aggregation/OrderBook/Levels.antt =====
-- Updates and pruning of a side, on the tree and on the list of its levels.
use stream_analytics.Base.{
  ℕ, zero, suc, ◌≤◌, ◌≡◌, refl, sym, subst, ap, Bool, true, List, [], ◌∷◌, ◌++◌, arith, length,
  take, leb, if◌then◌else◌, Bool-cases, inl, inr,
}
use mathlib.Core.List.{append_assoc, append-nil}
use stream_analytics.Base.Float.{
  Float, nan, pos_inf, neg_inf, finite, zero_float, ltb_float, eq_float, is_nan, is_inf,
}
use stream_analytics.Envelope.{Result, ok, err, ◌>>◌}
use stream_analytics.Aggregation.OrderBook.{
  Level, level_key, BTree, place, discard, validate_level, validate_levels, apply_update,
  apply_side_updates, insert_all, prune_tree,
}
use stream_analytics.Aggregation.OrderBook.Sides.{
  IsPriced, IsOrder, IsWeakOrder-IsOrder, AllPriced, Before, Sorted, place-AllPriced, place-Sorted,
  discard-AllPriced, discard-Sorted,
}

priced :
    (p q : Float)
    → validate_level (record { price = p; quantity = q }) ≡ ok tt
    → IsPriced (record { price = p; quantity = q })
unfolding validate_level is_nan is_inf ltb_float eq_float
priced nan q h = absurd (cc h)
priced pos_inf q h = absurd (cc h)
priced neg_inf q h = absurd (cc h)
priced (finite n) q h = record { ticks = n; is_finite = refl; positive = ground (arith, h) }

pub both_ok : (m k : Result (Unit {0})) → (m >> k) ≡ ok tt → (m ≡ ok tt) × (k ≡ ok tt)
both_ok (ok tt) k h = (refl, h)
both_ok (err p) k h = absurd (cc h)

pub validate_levels-AllPriced : (ls : List Level) → validate_levels ls ≡ ok tt → AllPriced ls
unfolding validate_levels
validate_levels-AllPriced [] h = tt
validate_levels-AllPriced (l ∷ ls) h =
    let (a, b) = both_ok (validate_level l) (validate_levels ls) h in
    (priced l.price l.quantity a, validate_levels-AllPriced ls b)

take_whole : {A : Type 0} (n : ℕ) (xs : List A) → length xs ≤ n → take n xs ≡ xs
take_whole zero [] h = refl
take_whole zero (x ∷ xs) h = absurd (omega (arith, h))
take_whole (suc n) [] h = refl
take_whole (suc n) (x ∷ xs) h = ap (λ (ys : List _). x ∷ ys) (take_whole n xs (omega (arith, h)))

snoc-AllPriced :
    (xs : List Level) (n : Level) → AllPriced xs → IsPriced n → AllPriced (xs ++ n ∷ [])
snoc-AllPriced [] n ps p = (p, tt)
snoc-AllPriced (x ∷ xs) n ps p = (ps.0, snoc-AllPriced xs n ps.1 p)

-- The updates on the list.
unfoldable pub apply_levels : (Level → Level → Bool) → List Level → List Level → List Level
apply_levels less xs [] = xs
apply_levels less xs (u ∷ us) =
    apply_levels less
      (if eq_float u.quantity zero_float then discard less (level_key u) xs else place less u xs) us

-- The limit on the list, none being 0.
unfoldable pub limit_levels : ℕ → List Level → List Level
limit_levels max_levels xs = if leb max_levels 0 then xs else take max_levels xs

module _ (less : Level → Level → Bool) (o : IsOrder less) where
  pub apply_levels-Sorted :
      (us xs : List Level)
      → AllPriced us
      → AllPriced xs
      → Sorted less xs
      → AllPriced (apply_levels less xs us) × Sorted less (apply_levels less xs us)
  unfolding apply_levels
  apply_levels-Sorted [] xs ps qs s = (qs, s)
  apply_levels-Sorted (u ∷ us) xs ps qs s =
      let gone = level_key u in
      elim (Bool-cases (eq_float u.quantity zero_float)) [
        | inl e ↦
            rw (apply_levels, e)
              (apply_levels-Sorted us (discard less gone xs) ps.1
                (discard-AllPriced less o gone xs qs) (discard-Sorted less o gone xs s))
        | inr e ↦
            rw (apply_levels, e)
              (apply_levels-Sorted us (place less u xs) ps.1 (place-AllPriced less o u xs ps.0 qs)
                (place-Sorted less o u xs ps.0 qs s))
      ]

  take-AllPriced : (n : ℕ) (xs : List Level) → AllPriced xs → AllPriced (take n xs)
  take-AllPriced zero xs ps = tt
  take-AllPriced (suc n) [] ps = tt
  take-AllPriced (suc n) (x ∷ xs) ps = (ps.0, take-AllPriced n xs ps.1)

  take-Before : (n : ℕ) (m : Level) (xs : List Level) → Before less m xs → Before less m (take n xs)
  take-Before zero m xs h = tt
  take-Before (suc n) m [] h = tt
  take-Before (suc n) m (x ∷ xs) h = (h.0, take-Before n m xs h.1)

  take-Sorted : (n : ℕ) (xs : List Level) → Sorted less xs → Sorted less (take n xs)
  take-Sorted zero xs s = tt
  take-Sorted (suc n) [] s = tt
  take-Sorted (suc n) (x ∷ xs) s = (take-Before n x xs s.0, take-Sorted n xs s.1)

  Before-last : (m n : Level) (xs ys : List Level) → Before less m (xs ++ n ∷ ys) → less m n ≡ true
  Before-last m n [] ys h = h.0
  Before-last m n (x ∷ xs) ys h = Before-last m n xs ys h.1

  -- Items that come in order are put at the end.
  place-last :
      (xs ys : List Level) (n : Level)
      → AllPriced xs
      → IsPriced n
      → Sorted less (xs ++ n ∷ ys)
      → place less n xs ≡ xs ++ n ∷ []
  unfolding place
  place-last [] ys n ps p s = refl
  place-last (x ∷ xs) ys n ps p s =
      let e = Before-last x n xs ys s.0 in
      rw (place, o.asym x n ps.0 p e, e, place-last xs ys n ps.1 p s.1) refl

  -- What is left by the limit.
  pub limit_levels-Sorted :
      (n : ℕ) (xs : List Level)
      → AllPriced xs
      → Sorted less xs
      → AllPriced (limit_levels n xs) × Sorted less (limit_levels n xs)
  unfolding limit_levels
  limit_levels-Sorted n xs ps s = elim (Bool-cases (leb n 0)) [
    | inl e ↦ rw (limit_levels, e) (ps, s)
    | inr e ↦ rw (limit_levels, e) (take-AllPriced n xs ps, take-Sorted n xs s)
  ]

  module _ (B : BTree) where
    pub apply_side_updates-Holds :
        (us : List Level) (t : B.T) (xs : List Level)
        → AllPriced us
        → AllPriced xs
        → B.Holds less t xs
        → B.Holds less (apply_side_updates B t us) (apply_levels less xs us)
    unfolding apply_side_updates apply_levels apply_update
    apply_side_updates-Holds [] t xs ps qs h = h
    apply_side_updates-Holds (u ∷ us) t xs ps qs h =
        let gone = level_key u in
        let key : IsPriced gone = record {
          ticks = ps.0.ticks;
          is_finite = ps.0.is_finite;
          positive = ps.0.positive;
        } in
        elim (Bool-cases (eq_float u.quantity zero_float)) [
          | inl e ↦
              rw (apply_side_updates, apply_levels, apply_update, e)
                (apply_side_updates-Holds us (B.delete gone t) (discard less gone xs) ps.1
                  (discard-AllPriced less o gone xs qs)
                  (B.delete-Holds IsPriced less t xs gone (IsWeakOrder-IsOrder less o) qs key h))
          | inr e ↦
              rw (apply_side_updates, apply_levels, apply_update, e)
                (apply_side_updates-Holds us (B.replace_or_insert u t) (place less u xs) ps.1
                  (place-AllPriced less o u xs ps.0 qs)
                  (B.replace_or_insert-Holds IsPriced less t xs u (IsWeakOrder-IsOrder less o) qs
                    ps.0 h))
        ]

    insert_all-Holds :
        (ns : List Level) (t : B.T) (xs : List Level)
        → AllPriced xs
        → AllPriced ns
        → Sorted less (xs ++ ns)
        → B.Holds less t xs
        → B.Holds less (insert_all B t ns) (xs ++ ns)
    unfolding insert_all
    insert_all-Holds [] t xs ps qs s h = subst (B.Holds less t) (sym (append-nil xs)) h
    insert_all-Holds (n ∷ ns) t xs ps qs s h =
        let e = append_assoc xs (n ∷ []) ns in
        subst (B.Holds less (insert_all B (B.replace_or_insert n t) ns)) e (
          insert_all-Holds ns (B.replace_or_insert n t) (xs ++ n ∷ []) (snoc-AllPriced xs n ps qs.0)
            qs.1 (subst (Sorted less) (sym e) s)
            (subst (B.Holds less (B.replace_or_insert n t)) (place-last xs ns n ps qs.0 s) (
              B.replace_or_insert-Holds IsPriced less t xs n (IsWeakOrder-IsOrder less o) ps qs.0
                h)))

    pub prune_tree-Holds :
        (max_levels : ℕ) (t : B.T) (xs : List Level)
        → AllPriced xs
        → Sorted less xs
        → B.Holds less t xs
        → B.Holds less (prune_tree B less max_levels t).0 (take max_levels xs)
    unfolding prune_tree
    prune_tree-Holds max_levels t xs ps s h = elim (Bool-cases (leb (B.len t) max_levels)) [
      | inl e ↦
          rw (prune_tree, e)
            (subst (B.Holds less t)
              (sym (take_whole max_levels xs (ground (arith, e, B.len-Holds less t xs h)))) h)
      | inr e ↦
          rw (prune_tree, e, B.ascend-Holds less t xs h)
            (insert_all-Holds (take max_levels xs) (B.new_tree less) [] tt
              (take-AllPriced max_levels xs ps) (take-Sorted max_levels xs s) (B.new-Holds less))
    ]
