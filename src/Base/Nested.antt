-- ===== src/Base/Nested.antt =====
-- Maps of maps: adding an entry, and deleting one together with an inner map that it leaves empty.
use stream_analytics.Base.{
  ◌≡◌, refl, sym, ap, Bool, true, false, ◌&&◌, List, [], ◌∷◌, Option, none, some, arith,
  if◌then◌else◌, Bool-cases, Option-cases, inl, inr,
}
use stream_analytics.Base.Assoc.{Key, lookup, insert, remove, lookup-insert, lookup-remove}

unfoldable pub is_some {ℓ} : {A : Type ℓ} → Option A → Bool
is_some none = false
is_some (some a) = true

unfoldable pub is_nil {ℓ} : {A : Type ℓ} → List A → Bool
is_nil [] = true
is_nil (x ∷ xs) = false

module _ {ℓ κ ν} {K : Type ℓ} {J : Type κ} {V : Type ν} ⦃outer : Key K⦄ ⦃inner : Key J⦄ where
  -- `m[k]`, nil where it is missing.
  unfoldable pub inner_of : K → List (K × List (J × V)) → List (J × V)
  inner_of k m = elim (lookup k m) [ none ↦ [] | some i ↦ i ]

  -- `m[k][j]`, with its second result.
  unfoldable pub lookup2 : K → J → List (K × List (J × V)) → Option V
  lookup2 k j m = lookup j (inner_of k m)

  -- `m[k]` is made if it is not there; then `m[k][j] = v`.
  unfoldable pub insert2 : K → J → V → List (K × List (J × V)) → List (K × List (J × V))
  insert2 k j v m = insert k (insert j v (inner_of k m)) m

  -- The entry with key `k` becomes `i`, or is deleted where `i` is empty.
  unfoldable pub put_or_delete :
      K → List (J × V) → List (K × List (J × V)) → List (K × List (J × V))
  put_or_delete k i m = if is_nil i then remove k m else insert k i m

  -- `if i, ok := m[k]; ok { delete(i, j); if len(i) == 0 { delete(m, k) } }`.
  unfoldable pub remove2 : K → J → List (K × List (J × V)) → List (K × List (J × V))
  remove2 k j m = elim (lookup k m) [ none ↦ m | some i ↦ put_or_delete k (remove j i) m ]

  abbrev pub NoEmpty : List (K × List (J × V)) → Type (ℓ ⊔ κ ⊔ ν)
  NoEmpty m = (k : K) (i : List (J × V)) → lookup k m ≡ some i → is_nil i ≡ false

  inner_of-insert :
      (k k' : K) (i : List (J × V)) (m : List (K × List (J × V)))
      → inner_of k' (insert k i m) ≡ (if outer.eq k k' then i else inner_of k' m)
  unfolding inner_of
  inner_of-insert k k' i m = rw (inner_of, lookup-insert k k' i m) (ground arith)

  inner_of-remove :
      (k k' : K) (m : List (K × List (J × V)))
      → inner_of k' (remove k m) ≡ (if outer.eq k k' then [] else inner_of k' m)
  unfolding inner_of
  inner_of-remove k k' m = rw (inner_of, lookup-remove k k' m) (ground arith)

  pub lookup2-remove :
      (k k' : K) (j : J) (m : List (K × List (J × V)))
      → lookup2 k' j (remove k m) ≡ (if outer.eq k k' then none else lookup2 k' j m)
  unfolding lookup2 lookup
  lookup2-remove k k' j m = elim (Bool-cases (outer.eq k k')) [
    | inl e ↦ rw (lookup2, inner_of-remove k k' m, e) refl
    | inr e ↦ rw (lookup2, inner_of-remove k k' m, e) refl
  ]

  inner_of-put_or_delete :
      (k k' : K) (i : List (J × V)) (m : List (K × List (J × V)))
      → inner_of k' (put_or_delete k i m) ≡ (if outer.eq k k' then i else inner_of k' m)
  unfolding put_or_delete is_nil
  inner_of-put_or_delete k k' [] m = inner_of-remove k k' m
  inner_of-put_or_delete k k' (x ∷ i) m = inner_of-insert k k' (x ∷ i) m

  pub inner_of-insert2 :
      (k k' : K) (j : J) (v : V) (m : List (K × List (J × V)))
      → inner_of k' (insert2 k j v m)
        ≡ (if outer.eq k k' then insert j v (inner_of k' m) else inner_of k' m)
  unfolding insert2
  inner_of-insert2 k k' j v m = elim (Bool-cases (outer.eq k k')) [
    | inl e ↦
        rw (inner_of-insert k k' (insert j v (inner_of k m)) m, e)
          (ap (λ (l : K). insert j v (inner_of l m)) ((outer.eq_iff k k').0 e))
    | inr e ↦ rw (inner_of-insert k k' (insert j v (inner_of k m)) m, e) refl
  ]

  pub inner_of_missing :
      (k : K) (m : List (K × List (J × V))) → lookup k m ≡ none → inner_of k m ≡ []
  unfolding inner_of
  inner_of_missing k m h = rw (inner_of, h) refl

  pub inner_of_there :
      (k : K) (m : List (K × List (J × V))) (i : List (J × V))
      → lookup k m ≡ some i
      → inner_of k m ≡ i
  unfolding inner_of
  inner_of_there k m i h = rw (inner_of, h) refl

  pub remove2_missing :
      (k : K) (j : J) (m : List (K × List (J × V))) → lookup k m ≡ none → remove2 k j m ≡ m
  unfolding remove2
  remove2_missing k j m h = rw (remove2, h) refl

  pub inner_of-remove2 :
      (k k' : K) (j : J) (m : List (K × List (J × V)))
      → inner_of k' (remove2 k j m)
        ≡ (if outer.eq k k' then remove j (inner_of k' m) else inner_of k' m)
  unfolding remove2 remove
  inner_of-remove2 k k' j m = elim (Bool-cases (outer.eq k k')) [
    | inr e ↦ rw e (elim (Option-cases (lookup k m)) [
      | inl absent ↦ rw (remove2, absent) refl
      | inr (i, there) ↦ rw (remove2, there, inner_of-put_or_delete k k' (remove j i) m, e) refl
    ])
    | inl e ↦
        rw (e, sym ((outer.eq_iff k k').0 e))
          (elim (Option-cases (lookup k m)) [
            | inl absent ↦ rw (remove2, absent, inner_of_missing k m absent) refl
            | inr (i, there) ↦
                rw
                  (
                    remove2,
                    there,
                    inner_of-put_or_delete k k (remove j i) m,
                    (outer.eq_iff k k).1 refl,
                    inner_of_there k m i there,
                  )
                  refl
          ])
  ]

  NoEmpty-insert :
      (k : K) (i : List (J × V)) (m : List (K × List (J × V)))
      → is_nil i ≡ false
      → NoEmpty m
      → NoEmpty (insert k i m)
  NoEmpty-insert k i m n h k' i' e = ground (arith, lookup-insert k k' i m, e, n, h k' i')

  NoEmpty-put_or_delete :
      (k : K) (i : List (J × V)) (m : List (K × List (J × V)))
      → NoEmpty m
      → NoEmpty (put_or_delete k i m)
  unfolding put_or_delete is_nil
  NoEmpty-put_or_delete k [] m h k' i' e = h k' i' (ground (arith, lookup-remove k k' m, e))
  NoEmpty-put_or_delete k (x ∷ i) m h k' i' e = NoEmpty-insert k (x ∷ i) m refl h k' i' e

  pub NoEmpty-remove2 :
      (k : K) (j : J) (m : List (K × List (J × V))) → NoEmpty m → NoEmpty (remove2 k j m)
  unfolding remove2
  NoEmpty-remove2 k j m h = elim (Option-cases (lookup k m)) [
    | inl absent ↦ rw (remove2, absent) h
    | inr (i, there) ↦ rw (remove2, there) (NoEmpty-put_or_delete k (remove j i) m h)
  ]

  pub NoEmpty-insert2 :
      (k : K) (j : J) (v : V) (m : List (K × List (J × V))) → NoEmpty m → NoEmpty (insert2 k j v m)
  unfolding insert2 is_nil insert
  NoEmpty-insert2 k j v m h k' i' e =
      NoEmpty-insert k (insert j v (inner_of k m)) m (filled (inner_of k m)) h k' i' e
    where
      filled : (i : List (J × V)) → is_nil (insert j v i) ≡ false
      filled [] = refl
      filled ((l, w) ∷ i) = ground arith

  pub lookup2-insert2 :
      (k k' : K) (j j' : J) (v : V) (m : List (K × List (J × V)))
      → lookup2 k' j' (insert2 k j v m)
        ≡ (if outer.eq k k' && inner.eq j j' then some v else lookup2 k' j' m)
  unfolding lookup2
  lookup2-insert2 k k' j j' v m = elim (Bool-cases (outer.eq k k')) [
    | inl e ↦
        rw (lookup2, inner_of-insert2 k k' j v m, e, lookup-insert j j' v (inner_of k' m)) refl
    | inr e ↦ rw (lookup2, inner_of-insert2 k k' j v m, e) refl
  ]

  pub lookup2-remove2 :
      (k k' : K) (j j' : J) (m : List (K × List (J × V)))
      → lookup2 k' j' (remove2 k j m)
        ≡ (if outer.eq k k' && inner.eq j j' then none else lookup2 k' j' m)
  unfolding lookup2
  lookup2-remove2 k k' j j' m = elim (Bool-cases (outer.eq k k')) [
    | inl e ↦ rw (lookup2, inner_of-remove2 k k' j m, e, lookup-remove j j' (inner_of k' m)) refl
    | inr e ↦ rw (lookup2, inner_of-remove2 k k' j m, e) refl
  ]
