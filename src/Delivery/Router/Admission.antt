-- ===== src/Delivery/Router/Admission.antt =====
-- What the router admits to one stream, as long as the stream's state is kept.
use stream_analytics.Base.{
  ℕ, ◌≡◌, refl, sym, ◌∙◌, subst, ◌⊎◌, inl, inr, true, false, List, [], ◌∷◌, arith, Bool-cases,
  if◌then◌else◌,
}
use stream_analytics.Base.Int.{ℤ, pos, ◌≤ℤ◌, ◌<ℤ◌, ltb_ℤ}
use stream_analytics.Base.Text.{Text}
use stream_analytics.Envelope.{Envelope}
use stream_analytics.Ownership.{MonotonicAction, MonotonicInput, accept, drop, convert_to_resync}
use stream_analytics.Ownership.Decide.{Acceptable, accept_iff}
use stream_analytics.Delivery.SeqPolicy.{
  SeqPolicyInput, SeqPolicyDecision, decide, default_stale_gap_window, monotonic_input,
  is_snapshot_event_type,
}
use stream_analytics.Delivery.SeqPolicy.Contract.{decide-action}
use stream_analytics.Delivery.Router.{
  StreamState, observe, settle, candidate_owner, policy_input, accepted_state, raise_resync,
}

-- Every number is above the one before it, the first above `low`.
abbrev pub Rises : ℤ → List ℤ → Type 0
Rises low [] = Unit {0}
Rises low (x ∷ xs) = (low <ℤ x) × Rises x xs

newer_of :
    (last seq : ℤ) → pos 0 ≤ℤ last → pos 0 <ℤ seq → (last ≤ℤ pos 0) ⊎ (last <ℤ seq) → last <ℤ seq
newer_of last seq n p h = omega arith

settle_seq :
    (owner : Text) (s : StreamState) (env : Envelope) (a : MonotonicAction) (d : SeqPolicyDecision)
    → (settle owner s env a d).0.last_origin_seq
      ≡ (if (settle owner s env a d).1 then env.seq else s.last_origin_seq)
unfolding settle accepted_state raise_resync
settle_seq owner s env accept d = refl
settle_seq owner s env convert_to_resync d = ground arith
settle_seq owner s env drop d = refl

settle_pending :
    (owner : Text) (s : StreamState) (env : Envelope) (a : MonotonicAction) (d : SeqPolicyDecision)
    → (settle owner s env a d).1 ≡ false
    → s.pending_resync_watermark ≤ℤ (settle owner s env a d).0.pending_resync_watermark
unfolding settle accepted_state raise_resync
settle_pending owner s env accept d h = cc
settle_pending owner s env convert_to_resync d h = ground arith
settle_pending owner s env drop d h = omega arith

settle_clears :
    (owner : Text) (s : StreamState) (env : Envelope) (a : MonotonicAction) (d : SeqPolicyDecision)
    → pos 0 <ℤ s.pending_resync_watermark
    → (settle owner s env a d).1 ≡ true
    → (settle owner s env a d).0.pending_resync_watermark
      ≡ (if ltb_ℤ s.pending_resync_watermark env.seq then pos 0 else s.pending_resync_watermark)
unfolding settle accepted_state
settle_clears owner s env accept d p h = ground arith
settle_clears owner s env convert_to_resync d p h = cc
settle_clears owner s env drop d p h = cc

module _ (token : Text → Text) (id : Text) where
  -- The question that the router asks the policy.
  abbrev question : ℕ → StreamState → Envelope → SeqPolicyInput
  question now s env =
      policy_input (candidate_owner token id env) id (record s { last_seen_at = now }) env

  abbrev asked : ℕ → StreamState → Envelope → MonotonicInput
  asked now s env = monotonic_input default_stale_gap_window (question now s env)

  settle_passed :
      (owner : Text) (s : StreamState) (env : Envelope) (a : MonotonicAction)
      (d : SeqPolicyDecision)
      → (settle owner s env a d).1 ≡ true
      → (a ≡ accept) × ((settle owner s env a d).0 ≡ accepted_state owner s env)
  unfolding settle
  settle_passed owner s env accept d h = (refl, refl)
  settle_passed owner s env convert_to_resync d h = cc
  settle_passed owner s env drop d h = cc

  -- An envelope that goes on satisfies the monotonic policy, against the stream's state.
  passed-Acceptable :
      (now : ℕ) (s : StreamState) (env : Envelope)
      → (observe token id now s env).1 ≡ true
      → Acceptable (asked now s env)
  unfolding observe
  passed-Acceptable now s env h = (accept_iff (asked now s env)).0 (
      sym (decide-action default_stale_gap_window (question now s env))
      ∙ (settle_passed (candidate_owner token id env) (record s { last_seen_at = now }) env
          (decide default_stale_gap_window (question now s env)).action
          (decide default_stale_gap_window (question now s env)) h).0)

  -- Going on moves the stream's number to the envelope's; staying back leaves it.
  last_origin_seq-observe :
      (now : ℕ) (s : StreamState) (env : Envelope)
      → (observe token id now s env).0.last_origin_seq
        ≡ (if (observe token id now s env).1 then env.seq else s.last_origin_seq)
  unfolding observe
  last_origin_seq-observe now s env =
      settle_seq (candidate_owner token id env) (record s { last_seen_at = now }) env
        (decide default_stale_gap_window (question now s env)).action
        (decide default_stale_gap_window (question now s env))

  -- The numbers of the envelopes that go on, out of a list of envelopes with their arrival times.
  pub passed_seqs : StreamState → List (ℕ × Envelope) → List ℤ
  passed_seqs s [] = []
  passed_seqs s ((now, env) ∷ rest) =
      let (s', passed, reason) = observe token id now s env in
      let later = passed_seqs s' rest in if passed then env.seq ∷ later else later

  passed-newer :
      (now : ℕ) (s : StreamState) (env : Envelope)
      → pos 0 ≤ℤ s.last_origin_seq
      → (observe token id now s env).1 ≡ true
      → s.last_origin_seq <ℤ env.seq
  passed-newer now s env n h =
      let a = passed-Acceptable now s env h in
      unfold monotonic_input policy_input in newer_of s.last_origin_seq env.seq n a.positive a.newer

  -- While the router keeps a stream's state, the origin sequence numbers of the envelopes that it
  -- lets through on that stream rise strictly, from the number that it starts from, whatever
  -- arrives and in whatever order.
  pub passed_seqs-Rises :
      (s : StreamState) (envs : List (ℕ × Envelope))
      → pos 0 ≤ℤ s.last_origin_seq
      → Rises s.last_origin_seq (passed_seqs s envs)
  unfolding passed_seqs
  passed_seqs-Rises s [] n = tt
  passed_seqs-Rises s ((now, env) ∷ rest) n = elim (Bool-cases (observe token id now s env).1) [
    | inl e ↦
        let moved : (observe token id now s env).0.last_origin_seq ≡ env.seq =
          last_origin_seq-observe now s env ∙ rw e in
        let newer = passed-newer now s env n e in
        rw e (
          newer,
          subst (λ l. Rises l (passed_seqs (observe token id now s env).0 rest)) moved
              (passed_seqs-Rises (observe token id now s env).0 rest (rw moved (omega arith))),
        )
    | inr e ↦
        let kept : (observe token id now s env).0.last_origin_seq ≡ s.last_origin_seq =
          last_origin_seq-observe now s env ∙ rw e in
        rw e (
          subst (λ l. Rises l (passed_seqs (observe token id now s env).0 rest)) kept
            (passed_seqs-Rises (observe token id now s env).0 rest (rw kept n)))
  ]

  -- While a resync is pending, only a snapshot or an envelope above its watermark goes on.
  passed-past_resync :
      (now : ℕ) (s : StreamState) (env : Envelope)
      → (observe token id now s env).1 ≡ true
      → (s.pending_resync_watermark ≤ℤ pos 0)
        ⊎ (is_snapshot_event_type env.event_type ≡ true)
        ⊎ (s.pending_resync_watermark <ℤ env.seq)
  unfolding monotonic_input policy_input
  passed-past_resync now s env h = (passed-Acceptable now s env h).past_resync

  refused_raises_resync :
      (now : ℕ) (s : StreamState) (env : Envelope)
      → (observe token id now s env).1 ≡ false
      → s.pending_resync_watermark ≤ℤ (observe token id now s env).0.pending_resync_watermark
  unfolding observe
  refused_raises_resync now s env =
      settle_pending (candidate_owner token id env) (record s { last_seen_at = now }) env
        (decide default_stale_gap_window (question now s env)).action
        (decide default_stale_gap_window (question now s env))

  -- How a pending resync ends: an envelope that goes on while a watermark is pending is a snapshot
  -- or lies above the watermark; it clears the watermark exactly if it lies above. One that stays
  -- back leaves the watermark where it is or raises it.
  pub resync_gate :
      (now : ℕ) (s : StreamState) (env : Envelope)
      → pos 0 <ℤ s.pending_resync_watermark
      → let (s', passed, reason) = observe token id now s env in
        if passed
        then ((is_snapshot_event_type env.event_type ≡ true)
            ⊎ (s.pending_resync_watermark <ℤ env.seq))
          × (s'.pending_resync_watermark ≡ (
              if ltb_ℤ s.pending_resync_watermark env.seq
              then pos 0
              else s.pending_resync_watermark))
        else (s.pending_resync_watermark ≤ℤ s'.pending_resync_watermark)
  resync_gate now s env h = elim (Bool-cases (observe token id now s env).1) [
    | inl e ↦ rw e (
      ground (arith, passed-past_resync now s env e),
      unfold observe in
          settle_clears (candidate_owner token id env) (record s { last_seen_at = now }) env
            (decide default_stale_gap_window (question now s env)).action
            (decide default_stale_gap_window (question now s env)) h e,
    )
    | inr e ↦ rw e (refused_raises_resync now s env e)
  ]
