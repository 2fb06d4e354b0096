-- ===== src/Storage/Federation/Merge.antt =====
-- The merge of two ascending results.
use stream_analytics.Base.{
  ℕ, Bool, ◌||◌, zero, suc, ◌+◌, ◌<◌, ◌≡◌, refl, sym, ap, ◌∙◌, true, false, List, [], ◌∷◌, Option,
  none, some, length, arith, if◌then◌else◌, Bool-cases, inl, inr,
}
use stream_analytics.Base.Int.{ℤ, ltb_ℤ, leb_ℤ, eq_ℤ}
use stream_analytics.Base.Assoc.{lookup, insert, lookup-insert}
use stream_analytics.Base.Nested.{is_some, is_nil}
use stream_analytics.Storage.Federation.{
  int_key, eq_ℤ_iff, Seen, unless_seen, append_rest, merge_loop, merge_by_window_start,
}

above_below : (a b : ℤ) → leb_ℤ a b ≡ false → leb_ℤ b a ≡ true
above_below a b h = ground arith

from_trans : (a b c : ℤ) → leb_ℤ a b ≡ true → leb_ℤ b c ≡ true → leb_ℤ a c ≡ true
from_trans a b c h k = ground arith

from_apart : (a b : ℤ) → leb_ℤ a b ≡ true → eq_ℤ b a ≡ false → ltb_ℤ a b ≡ true
from_apart a b h k = ground arith

below_apart : (a b : ℤ) → ltb_ℤ a b ≡ true → eq_ℤ b a ≡ false
below_apart a b h = ground arith

eq_agree : (a b w : ℤ) → eq_ℤ a b ≡ true → eq_ℤ b w ≡ eq_ℤ a w
eq_agree a b w h = ground arith

from_eq : (a b : ℤ) → eq_ℤ a b ≡ true → leb_ℤ a b ≡ true
from_eq a b h = ground arith

below_at : (a b w : ℤ) → leb_ℤ a b ≡ false → eq_ℤ b w ≡ true → ltb_ℤ w a ≡ true
below_at a b w h k = ground arith

below_from : (w a b : ℤ) → ltb_ℤ w a ≡ true → leb_ℤ a b ≡ true → eq_ℤ b w ≡ false
below_from w a b h k = ground arith

pub or_else {ℓ} : {A : Type ℓ} → Option A → Option A → Option A
or_else none o = o
or_else (some a) o = some a

or_else-none {ℓ} : {A : Type ℓ} (o : Option A) → o ≡ or_else o none
unfolding or_else
or_else-none none = refl
or_else-none (some a) = refl

module _ {ℓ} {A : Type ℓ} (ws : A → ℤ) where
  -- Every window of `xs` starts after `b`.
  abbrev pub After : ℤ → List A → Type 0
  After b [] = Unit
  After b (x ∷ xs) = (ltb_ℤ b (ws x) ≡ true) × After b xs

  -- Every window start once, in order.
  abbrev pub Ascending : List A → Type 0
  Ascending [] = Unit
  Ascending (x ∷ xs) = After (ws x) xs × Ascending xs

  -- Every window of `xs` starts at `b` or after it.
  abbrev pub From : ℤ → List A → Type 0
  From b [] = Unit
  From b (x ∷ xs) = (leb_ℤ b (ws x) ≡ true) × From b xs

  -- In order, window starts perhaps several times.
  abbrev pub IsSorted : List A → Type 0
  IsSorted [] = Unit
  IsSorted (x ∷ xs) = From (ws x) xs × IsSorted xs

  -- The first item whose window starts at `w`.
  unfoldable pub find : ℤ → List A → Option A
  find w [] = none
  find w (x ∷ xs) = let rest = find w xs in if eq_ℤ (ws x) w then some x else rest

  is_seen : ℤ → Seen ws → Bool
  is_seen w seen = is_some (lookup w seen)

  From-trans : (a b : ℤ) (xs : List A) → leb_ℤ a b ≡ true → From b xs → From a xs
  From-trans a b [] h k = tt
  From-trans a b (x ∷ xs) h k = (from_trans a b (ws x) h k.0, From-trans a b xs h k.1)

  -- Nothing is found before the first window.
  find-none : (w b : ℤ) (xs : List A) → ltb_ℤ w b ≡ true → From b xs → find w xs ≡ none
  unfolding find
  find-none w b [] l h = refl
  find-none w b (x ∷ xs) l h = rw (find, below_from w b (ws x) l h.0) (find-none w b xs l h.1)

  -- What is left to merge when the window starts in `seen` are done: `out` has every other window of
  -- both once and in order, with the first item of `hot` or else the first of `cold`.
  record MergesRest (seen : Seen ws) (hot cold out : List A) : Type ℓ where
    ascending : Ascending out
    after : (b : ℤ) → is_seen b seen ≡ true → From b hot → From b cold → After b out
    found :
        (w : ℤ) → find w out ≡ (if is_seen w seen then none else or_else (find w hot) (find w cold))

  MergesRest-empty : (seen : Seen ws) → MergesRest seen [] [] []
  unfolding find or_else
  MergesRest-empty seen = record {
    ascending = tt;
    after = λ b s h k. tt;
    found = λ w. ground arith;
  }

  seen_insert :
      (b w : ℤ) (seen : Seen ws) → is_seen w (insert b tt seen) ≡ (eq_ℤ b w || is_seen w seen)
  unfolding is_seen is_some
  seen_insert b w seen = ground (arith, lookup-insert b w tt seen)

  -- A round that looks at `x` first and leaves `hot'` and `cold'`.
  round :
      (seen : Seen ws) (x : A) (hot cold hot' cold' out : List A)
      → From (ws x) hot'
      → From (ws x) cold'
      → ((b : ℤ) → From b hot → From b cold → (leb_ℤ b (ws x) ≡ true) × From b hot' × From b cold')
      → ((w : ℤ)
          → or_else (find w hot) (find w cold)
            ≡ (if eq_ℤ (ws x) w then some x else or_else (find w hot') (find w cold')))
      → MergesRest (insert (ws x) tt seen) hot' cold' out
      → MergesRest seen hot cold (unless_seen ws seen x out)
  unfolding unless_seen find is_seen
  round seen x hot cold hot' cold' out f g down first m = elim (Bool-cases (is_seen (ws x) seen)) [
    | inl old ↦
        rw (unless_seen, old)
          record { ascending = m.ascending; after = after_rest; found = λ w. found_old w old }
    | inr new ↦
        rw (unless_seen, new)
          record {
            ascending = (m.after (ws x) (seen_here (ws x)) f g, m.ascending);
            after =
                λ b s h k. (from_apart b (ws x) (down b h k).0 (apart b s new), after_rest b s h k);
            found = λ w. found_new w new;
          }
  ]
    where
      seen_here : (w : ℤ) → is_seen (ws x) (insert (ws x) tt seen) ≡ true
      seen_here w = ground (arith, seen_insert (ws x) (ws x) seen)

      after_rest : (b : ℤ) → is_seen b seen ≡ true → From b hot → From b cold → After b out
      after_rest b s h k =
          let (l, h', k') = down b h k in
          m.after b (ground (arith, seen_insert (ws x) b seen, s)) h' k'

      apart : (b : ℤ) → is_seen b seen ≡ true → is_seen (ws x) seen ≡ false → eq_ℤ (ws x) b ≡ false
      apart b s n = elim (Bool-cases (eq_ℤ (ws x) b)) [
        | inr e ↦ e
        | inl e ↦ absurd (cc (s, n, ap (λ (w : ℤ). is_seen w seen) ((eq_ℤ_iff (ws x) b).0 e)))
      ]

      found_old :
          (w : ℤ)
          → is_seen (ws x) seen ≡ true
          → find w out ≡ (if is_seen w seen then none else or_else (find w hot) (find w cold))
      found_old w old = elim (Bool-cases (eq_ℤ (ws x) w)) [
        | inl e ↦
            let here : is_seen w seen ≡ true =
              sym (ap (λ (v : ℤ). is_seen v seen) ((eq_ℤ_iff (ws x) w).0 e)) ∙ old in
            rw (m.found w, seen_insert (ws x) w seen, here, e) refl
        | inr e ↦ rw (m.found w, seen_insert (ws x) w seen, first w, e) refl
      ]

      found_new :
          (w : ℤ)
          → is_seen (ws x) seen ≡ false
          → find w (x ∷ out) ≡ (if is_seen w seen then none else or_else (find w hot) (find w cold))
      found_new w new = elim (Bool-cases (eq_ℤ (ws x) w)) [
        | inl e ↦
            let here : is_seen w seen ≡ false =
              sym (ap (λ (v : ℤ). is_seen v seen) ((eq_ℤ_iff (ws x) w).0 e)) ∙ new in
            rw (here, first w, e) refl
        | inr e ↦ rw (m.found w, seen_insert (ws x) w seen, first w, e) refl
      ]

  take_cold :
      (seen : Seen ws) (c : A) (hot cold out : List A)
      → From (ws c) hot
      → From (ws c) cold
      → ((w : ℤ) → eq_ℤ (ws c) w ≡ true → find w hot ≡ none)
      → MergesRest (insert (ws c) tt seen) hot cold out
      → MergesRest seen hot (c ∷ cold) (unless_seen ws seen c out)
  unfolding find or_else
  take_cold seen c hot cold out f g missing m =
      round seen c hot (c ∷ cold) hot cold out f g (λ b h k. (k.0, h, k.1))
        (λ w. elim (Bool-cases (eq_ℤ (ws c) w)) [
          | inl e ↦ rw (e, missing w e) refl
          | inr e ↦ rw e refl
        ])
        m

  append_cold :
      (seen : Seen ws) (xs : List A) → IsSorted xs → MergesRest seen [] xs (append_rest ws seen xs)
  unfolding append_rest find
  append_cold seen [] a = MergesRest-empty seen
  append_cold seen (x ∷ xs) a =
      take_cold seen x [] xs _ tt a.0 (λ w e. refl) (append_cold (insert (ws x) tt seen) xs a.1)

  append_hot :
      (seen : Seen ws) (xs : List A) → IsSorted xs → MergesRest seen xs [] (append_rest ws seen xs)
  unfolding append_rest find or_else
  append_hot seen [] a = MergesRest-empty seen
  append_hot seen (x ∷ xs) a =
      round seen x (x ∷ xs) [] xs [] _ a.0 tt (λ b h k. (h.0, h.1, tt)) (λ w. ground arith)
        (append_hot (insert (ws x) tt seen) xs a.1)

  take_hot :
      (seen : Seen ws) (h : A) (hot cold out : List A)
      → From (ws h) hot
      → From (ws h) cold
      → MergesRest (insert (ws h) tt seen) hot cold out
      → MergesRest seen (h ∷ hot) cold (unless_seen ws seen h out)
  unfolding find or_else
  take_hot seen h hot cold out f g m =
      round seen h (h ∷ hot) cold hot cold out f g (λ b p q. (p.0, p.1, q)) (λ w. ground arith) m

  take_both :
      (seen : Seen ws) (h c : A) (hot cold out : List A)
      → eq_ℤ (ws h) (ws c) ≡ true
      → From (ws h) hot
      → From (ws h) cold
      → MergesRest (insert (ws h) tt seen) hot cold out
      → MergesRest seen (h ∷ hot) (c ∷ cold) (unless_seen ws seen h out)
  unfolding find or_else
  take_both seen h c hot cold out e f g m =
      round seen h (h ∷ hot) (c ∷ cold) hot cold out f g (λ b p q. (p.0, p.1, q.1))
        (λ w. elim (Bool-cases (eq_ℤ (ws h) w)) [
          | inl d ↦ rw d refl
          | inr d ↦ rw (d, eq_agree (ws h) (ws c) w e ∙ d) refl
        ])
        m

  merge_loop-MergesRest :
      (rounds : ℕ) (seen : Seen ws) (hot cold : List A)
      → length hot + length cold < rounds
      → IsSorted hot
      → IsSorted cold
      → MergesRest seen hot cold (merge_loop ws rounds seen hot cold)
  unfolding merge_loop
  merge_loop-MergesRest zero seen hot cold n a b = absurd (omega (arith, n))
  merge_loop-MergesRest (suc rounds) seen [] cold n a b = append_cold seen cold b
  merge_loop-MergesRest (suc rounds) seen (h ∷ hot) [] n a b = append_hot seen (h ∷ hot) a
  merge_loop-MergesRest (suc rounds) seen (h ∷ hot) (c ∷ cold) n a b =
      elim (Bool-cases (leb_ℤ (ws h) (ws c))) [
        | inr l ↦
            let down = above_below (ws h) (ws c) l in
            rw (merge_loop, l)
              (take_cold seen c (h ∷ hot) cold _ (down, From-trans (ws c) (ws h) hot down a.0) b.0
                (λ w e.
                  find-none w (ws h) (h ∷ hot) (below_at (ws h) (ws c) w l e)
                    (from_eq (ws h) (ws h) (ground arith), a.0))
                (merge_loop-MergesRest rounds (insert (ws c) tt seen) (h ∷ hot) cold
                  (omega (arith, n)) a b.1))
        | inl l ↦ elim (Bool-cases (eq_ℤ (ws h) (ws c))) [
          | inl e ↦
              rw (merge_loop, l, e)
                (take_both seen h c hot cold _ e a.0 (From-trans (ws h) (ws c) cold l b.0) (
                  merge_loop-MergesRest rounds (insert (ws h) tt seen) hot cold (omega (arith, n))
                    a.1 b.1))
          | inr e ↦
              rw (merge_loop, l, e)
                (take_hot seen h hot (c ∷ cold) _ a.0 (l, From-trans (ws h) (ws c) cold l b.0)
                  (merge_loop-MergesRest rounds (insert (ws h) tt seen) hot (c ∷ cold)
                    (omega (arith, n)) a.1 b))
        ]
      ]

  -- `out` has the windows of both, each once and in order, and of each the first item of `hot`, or
  -- where it has none the first of `cold`.
  pub record Merges (hot cold out : List A) : Type ℓ where
    pub ascending : Ascending out
    pub found : (w : ℤ) → find w out ≡ or_else (find w hot) (find w cold)

  -- The results of the three cases.
  pub data Merged (hot cold out : List A) : Type ℓ where
    no_hot : hot ≡ [] → out ≡ cold → Merged hot cold out
    no_cold : cold ≡ [] → out ≡ hot → Merged hot cold out
    both_merged : Merges hot cold out → Merged hot cold out

  -- Two results in ascending order, in which window starts may be repeated, are merged into one that
  -- is strictly ascending, has every window of both and no other, and has at a window the first item
  -- of `hot`, or where it has none the first of `cold`; but if one of them is empty, the other is the
  -- result as it is.
  pub merge_by_window_start-Merges :
      (hot cold : List A)
      → IsSorted hot
      → IsSorted cold
      → Merged hot cold (merge_by_window_start ws hot cold)
  unfolding merge_by_window_start is_nil
  merge_by_window_start-Merges [] cold a b = no_hot refl refl
  merge_by_window_start-Merges (h ∷ hot) [] a b = no_cold refl refl
  merge_by_window_start-Merges (h ∷ hot) (c ∷ cold) a b =
      let m =
        merge_loop-MergesRest (suc (length (h ∷ hot) + length (c ∷ cold))) [] (h ∷ hot) (c ∷ cold)
          (omega arith) a b in
      both_merged (record {
        ascending = m.ascending;
        found = λ w. m.found w ∙ (unfold is_seen lookup is_some in refl);
      })
