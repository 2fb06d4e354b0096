-- ===== src/Delivery/Router.antt =====
-- The per-stream sequence state of internal/actors/delivery/runtime/router.go (`RouterActor`):
-- admission of an envelope to a stream (`acceptStreamSeq`), the sequence numbers given to clients
-- (`nextDeliverySeq`), and the two evictions. The actor handles one message at a time. The clock's
-- readings are arguments, 0 being the zero `time.Time`; metrics and coherence samples are left out.
-- `token` is `deliveryOwnershipToken`, whose hash comes from a library outside the repository.

pub mod Admission
pub mod Entries
mod Tests
use stream_analytics.Base.{
  ℕ, ◌+◌, ◌-◌, Bool, true, false, ◌||◌, ◌&&◌, Option, none, some, List, [], ◌∷◌, length, ltb, leb,
  ◌==◌, if◌then◌else◌,
}
use stream_analytics.Base.Int.{ℤ, pos, ◌+ℤ◌, ltb_ℤ, leb_ℤ, wrap_int64}
use stream_analytics.Base.Text.{Text, text, text_key, trim_space, is_empty}
use stream_analytics.Base.Assoc.{lookup, insert, remove}
use stream_analytics.Envelope.{Envelope}
use stream_analytics.Ownership.{
  MonotonicAction, accept, drop, convert_to_resync, Reason, no_reason, seq_invalid,
  seq_non_monotonic,
}
use stream_analytics.Delivery.SeqPolicy.{
  SeqPolicyInput, SeqPolicyDecision, decide, default_stale_gap_window, Meta, meta_value,
  handoff_watermark_from_meta,
}

pub record StreamState : Type 0 where
  pub last_origin_seq : ℤ
  pub last_origin_ts_ingest : ℤ
  pub last_processor_instance_id : Text
  pub pending_resync_watermark : ℤ
  pub last_delivery_seq : ℤ
  pub last_seen_at : ℕ

-- `&streamState{}`.
abbrev pub zero_state : StreamState
zero_state = record {
  last_origin_seq = pos 0;
  last_origin_ts_ingest = pos 0;
  last_processor_instance_id = [];
  pending_resync_watermark = pos 0;
  last_delivery_seq = pos 0;
  last_seen_at = 0;
}

-- The fields of `RouterActor` that hold stream state, after its defaults are filled in. The map's
-- pointers are never nil.
pub record Router : Type 0 where
  pub stream_state : List (Text × StreamState)
  pub stream_state_ttl : ℕ
  pub max_stream_state_entries : ℕ

-- `processorInstanceIDFromMeta`.
unfoldable pub processor_instance_id : Meta → Text
processor_instance_id meta = trim_space (meta_value meta (text "processor_instance_id"))

unfoldable pub candidate_owner : (Text → Text) → Text → Envelope → Text
candidate_owner token stream_id env =
    let id = processor_instance_id env.meta in if is_empty id then token stream_id else id

unfoldable pub policy_input : Text → Text → StreamState → Envelope → SeqPolicyInput
policy_input owner stream_id state env = record {
  stream_key = stream_id;
  event_type = env.event_type;
  candidate_seq = env.seq;
  candidate_ts_ingest = env.ts_ingest;
  last_seq = state.last_origin_seq;
  last_ts_ingest = state.last_origin_ts_ingest;
  candidate_processor_id = owner;
  last_processor_id = state.last_processor_instance_id;
  handoff_watermark_seq = handoff_watermark_from_meta env.meta;
  pending_resync_watermark = state.pending_resync_watermark;
}

-- The updates after an acceptance.
unfoldable pub accepted_state : Text → StreamState → Envelope → StreamState
accepted_state owner state env = record state {
  last_origin_seq = env.seq;
  last_origin_ts_ingest =
      if ltb_ℤ (pos 0) env.ts_ingest then env.ts_ingest else state.last_origin_ts_ingest;
  last_processor_instance_id = if is_empty owner then state.last_processor_instance_id else owner;
  pending_resync_watermark =
      if ltb_ℤ (pos 0) state.pending_resync_watermark
        && ltb_ℤ state.pending_resync_watermark env.seq
      then pos 0
      else state.pending_resync_watermark;
}

or_non_monotonic : Reason → Reason
or_non_monotonic no_reason = seq_non_monotonic
or_non_monotonic r = r

pub raise_resync : StreamState → ℤ → StreamState
raise_resync state watermark =
    if ltb_ℤ state.pending_resync_watermark watermark
    then record state { pending_resync_watermark = watermark }
    else state

-- What follows the policy's decision: the new state, whether the envelope goes on, and the reason
-- if it does not.
unfoldable pub settle :
    Text
    → StreamState
    → Envelope
    → MonotonicAction
    → SeqPolicyDecision
    → StreamState × Bool × Reason
unfolding or_non_monotonic
settle owner state env accept d = (accepted_state owner state env, true, no_reason)
settle owner state env convert_to_resync d =
    (raise_resync state d.resync_watermark, false, or_non_monotonic d.reject_reason)
settle owner state env drop d = (state, false, or_non_monotonic d.reject_reason)

-- `acceptStreamSeq` on the state of its stream.
unfoldable pub observe :
    (Text → Text) → Text → ℕ → StreamState → Envelope → StreamState × Bool × Reason
observe token stream_id now state env =
    let seen = record state { last_seen_at = now } in
    let owner = candidate_owner token stream_id env in
    let d = decide default_stale_gap_window (policy_input owner stream_id seen env) in
    settle owner seen env d.action d

is_stale : ℕ → ℕ → StreamState → Bool
is_stale now ttl state = state.last_seen_at == 0 || ltb ttl (now - state.last_seen_at)

-- `sweepStreamState`: the loop over the map.
pub sweep : ℕ → ℕ → List (Text × StreamState) → List (Text × StreamState)
unfolding is_stale
sweep now ttl [] = []
sweep now ttl ((id, state) ∷ m) =
    let rest = sweep now ttl m in if is_stale now ttl state then rest else (id, state) ∷ rest

-- The loop of `evictOldestStreamState`, with `oldestID` and `oldestTime` so far.
pub oldest : Text → ℕ → List (Text × StreamState) → Text
oldest id time [] = id
oldest id time ((j, state) ∷ m) =
    let rest = oldest j state.last_seen_at m in
    let keep = oldest id time m in if is_empty id || ltb state.last_seen_at time then rest else keep

pub evict_oldest : List (Text × StreamState) → List (Text × StreamState)
evict_oldest m = let id = oldest [] 0 m in if is_empty id then m else remove id m

unfoldable pub make_room : Router → ℕ → List (Text × StreamState)
make_room r now =
    if leb r.max_stream_state_entries (length r.stream_state)
    then (let swept = sweep now r.stream_state_ttl r.stream_state in
        if leb r.max_stream_state_entries (length swept) then evict_oldest swept else swept)
    else r.stream_state

-- The state of the stream, created if it is not there.
unfoldable pub ensure : Router → ℕ → Text → List (Text × StreamState)
ensure r now id = elim (lookup id r.stream_state) [
  | some state ↦ r.stream_state
  | none ↦ insert id zero_state (make_room r now)
]

unfoldable pub state_of : Text → List (Text × StreamState) → StreamState
state_of id m = elim (lookup id m) [ some state ↦ state | none ↦ zero_state ]

-- `sweep_now` is the clock's reading inside the sweep.
unfoldable pub accept_stream_seq :
    (Text → Text) → Router → ℕ → ℕ → Text → Envelope → Router × Bool × Reason
accept_stream_seq token r now sweep_now raw_id env =
    let id = trim_space raw_id in
    let m = ensure r sweep_now id in
    let (state, passed, reason) = observe token id now (state_of id m) env in
    if is_empty id
    then (r, false, seq_invalid)
    else if leb_ℤ env.seq (pos 0)
    then (r, false, seq_invalid)
    else (record r { stream_state = insert id state m }, passed, reason)

-- The next number, starting again from 1 when the addition wraps around.
pub next_seq : ℤ → ℤ
next_seq last = let next = wrap_int64 (last +ℤ pos 1) in if leb_ℤ next (pos 0) then pos 1 else next

-- It creates the state of a stream that is not there, and does not look at the bound.
unfoldable pub next_delivery_seq : Router → ℕ → Text → Router × ℤ
next_delivery_seq r now raw_id =
    let id = trim_space raw_id in
    let state = state_of id r.stream_state in
    let next = next_seq state.last_delivery_seq in
    let state' = record state { last_delivery_seq = next; last_seen_at = now } in
    if is_empty id
    then (r, pos 0)
    else (record r { stream_state = insert id state' r.stream_state }, next)
