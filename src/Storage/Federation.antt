-- ===== src/Storage/Federation.antt =====
-- internal/adapters/storage/federation: the choice of the tiers of a query and the merge of their
-- results (merge.go and range_helpers.go). The readers' results are arguments; `none` is a reader
-- that is not there. Indices into the two slices are what is left of them.
pub mod Merge
mod Tests
use stream_analytics.Base.{
  ℕ, zero, suc, ◌+◌, ◌≡◌, ◌↔◌, refl, subst, Bool, true, false, List, [], ◌∷◌, ◌++◌, Option, none,
  some, length, take, arith, if◌then◌else◌,
}
use stream_analytics.Base.Int.{ℤ, pos, pos_part, ◌-ℤ◌, ltb_ℤ, leb_ℤ, eq_ℤ, wrap_int64, eq_of_parts}
use stream_analytics.Base.Assoc.{Key, lookup, insert}
use stream_analytics.Base.Nested.{is_some, is_nil}
use stream_analytics.Envelope.{Problem, unavailable, Result, ok, err, ◌>>=◌}

pub eq_ℤ_iff : (a b : ℤ) → (eq_ℤ a b ≡ true) ↔ (a ≡ b)
eq_ℤ_iff a b =
    (λ h. eq_of_parts a b (ground (arith, h)), λ e. subst (λ (c : ℤ). eq_ℤ a c ≡ true) e (same a))
  where
    same : (c : ℤ) → eq_ℤ c c ≡ true
    same c = ground arith

instance abbrev pub int_key : Key ℤ
int_key = record { eq = eq_ℤ; eq_iff = eq_ℤ_iff }

pub data Routing : Type 0 where
  cold_only hot_only both : Routing

-- `route`, given the clock's reading.
unfoldable pub route : ℤ → ℤ → ℤ → ℤ → Routing
route from_ms to_ms hot_window_ms now_ms =
    let difference = wrap_int64 (now_ms -ℤ hot_window_ms) in
    let hot_boundary = if ltb_ℤ difference (pos 0) then pos 0 else difference in
    if leb_ℤ to_ms hot_boundary
    then cold_only
    else if leb_ℤ hot_boundary from_ms
    then hot_only
    else both

-- `capSlice`.
unfoldable pub cap_slice {ℓ} : {A : Type ℓ} → List A → ℤ → List A
cap_slice s limit =
    if ltb_ℤ (pos 0) limit
    then (if ltb_ℤ limit (pos (length s)) then take (pos_part limit) s else s)
    else s

module _ {ℓ} {A : Type ℓ} (ws : A → ℤ) where
  abbrev pub Seen : Type 0
  Seen = List (ℤ × Unit {0})

  -- The item, if its window start is new.
  unfoldable pub unless_seen : Seen → A → List A → List A
  unless_seen seen x rest = if is_some (lookup (ws x) seen) then rest else x ∷ rest

  -- The two loops after the merge.
  unfoldable pub append_rest : Seen → List A → List A
  append_rest seen [] = []
  append_rest seen (x ∷ xs) = unless_seen seen x (append_rest (insert (ws x) tt seen) xs)

  -- The loop of `mergeByWindowStart`, with `rounds` left, on what is left of the slices. A round ends
  -- with one item less at least.
  unfoldable pub merge_loop : ℕ → Seen → List A → List A → List A
  merge_loop zero seen hot cold = []
  merge_loop (suc rounds) seen [] cold = append_rest seen cold
  merge_loop (suc rounds) seen (h ∷ hot) [] = append_rest seen (h ∷ hot)
  merge_loop (suc rounds) seen (h ∷ hot) (c ∷ cold) =
      let after_hot =
        merge_loop rounds (insert (ws h) tt seen) hot
          (if eq_ℤ (ws h) (ws c) then cold else c ∷ cold) in
      let after_cold = merge_loop rounds (insert (ws c) tt seen) (h ∷ hot) cold in
      if leb_ℤ (ws h) (ws c) then unless_seen seen h after_hot else unless_seen seen c after_cold

  unfoldable pub merge_by_window_start : List A → List A → List A
  merge_by_window_start hot cold =
      if is_nil hot
      then cold
      else if is_nil cold
      then hot
      else merge_loop (suc (length hot + length cold)) [] hot cold

  -- What a reader gives, nothing where it is missing.
  unfoldable pub read : Option (Result (List A)) → Result (List A)
  read none = ok []
  read (some r) = r

  -- `mergeRange`.
  unfoldable pub merge_range :
      Option (Result (List A)) → Option (Result (List A)) → ℤ → Result (List A)
  merge_range hot cold limit = do
    hot_res ← read hot
    cold_res ← read cold
    ok (cap_slice (merge_by_window_start hot_res cold_res) limit)

-- `queryOrFallback`.
pub query_or_fallback {ℓ} : {A : Type ℓ} → Option (Result A) → Option (Result A) → Result A
query_or_fallback (some r) fallback = r
query_or_fallback none (some r) = r
query_or_fallback none none = err unavailable

-- The loop of `mergeTimestamps`, as `merge_loop`.
unfoldable pub merge_timestamps_loop : ℕ → List ℤ → List ℤ → List ℤ
merge_timestamps_loop zero hot cold = []
merge_timestamps_loop (suc rounds) [] cold = cold
merge_timestamps_loop (suc rounds) (h ∷ hot) [] = h ∷ hot
merge_timestamps_loop (suc rounds) (h ∷ hot) (c ∷ cold) =
    let after_hot = merge_timestamps_loop rounds hot (c ∷ cold) in
    let after_cold = merge_timestamps_loop rounds (h ∷ hot) cold in
    let after_both = merge_timestamps_loop rounds hot cold in
    if ltb_ℤ h c then h ∷ after_hot else if ltb_ℤ c h then c ∷ after_cold else h ∷ after_both

pub merge_timestamps : List ℤ → List ℤ → List ℤ
merge_timestamps hot cold =
    if is_nil hot
    then cold
    else if is_nil cold
    then hot
    else merge_timestamps_loop (suc (length hot + length cold)) hot cold
