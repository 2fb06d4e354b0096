-- ===== src/Market/Stream/Refine.antt =====
-- What `BuildEnvelope` answers and stores, with the set and the queue of seen hashes as one list.
use stream_analytics.Base.{
  ℕ, ◌<◌, ◌≡◌, refl, ap, sym, ◌∙◌, Bool, true, false, ◌&&◌, List, [], ◌∷◌, ◌++◌, if◌then◌else◌,
  Bool-cases, inl, inr,
}
use stream_analytics.Base.Int.{ℤ, pos, leb_ℤ, ltb_ℤ}
use stream_analytics.Envelope.{out_of_order, duplicate, Result, ok, err, Envelope, validate}
use stream_analytics.Market.Stream.{
  StreamId, InstrumentStream, Event, ikey_hash, envelope_of, has, is_out_of_order, commit, finish,
  build_envelope,
}
use stream_analytics.Market.Stream.Seen.{elem, last, Agrees, record_seen-last, record_seen-Agrees}

-- The window is positive, and the set of seen hashes holds what the queue holds.
pub record IsValid (s : InstrumentStream) : Type 0 where
  pub positive : 0 < s.dedup_window
  pub agrees : Agrees s.dedup_window s.seen s.seen_ord

-- The answer to an event, from the last accepted number and the remembered hashes.
unfoldable pub answer : StreamId → ℤ → List ℕ → Event → Result Envelope
answer id last_seq recent e =
    if leb_ℤ e.seq last_seq && ltb_ℤ (pos 0) last_seq
    then err out_of_order
    else if elem (ikey_hash id e) recent
    then err duplicate
    else validate (envelope_of id e)

abbrev pub is_ok : Result Envelope → Bool
is_ok (ok env) = true
is_ok (err p) = false

pub answer-finish : (s : InstrumentStream) (e : Event) (r : Result Envelope) → (finish s e r).1 ≡ r
unfolding finish
answer-finish s e (ok env) = refl
answer-finish s e (err p) = refl

finish_state :
    (s : InstrumentStream) (e : Event) (r : Result Envelope)
    → (finish s e r).0 ≡ (if is_ok r then commit s e else s)
unfolding finish
finish_state s e (ok env) = refl
finish_state s e (err p) = refl

pub build_envelope-answer :
    (s : InstrumentStream) (e : Event)
    → IsValid s
    → (build_envelope s e).1 ≡ answer s.id s.last_seq s.seen_ord e
unfolding build_envelope answer is_out_of_order
build_envelope-answer s e v =
    elim (Bool-cases (leb_ℤ e.seq s.last_seq && ltb_ℤ (pos 0) s.last_seq)) [
      | inl late ↦ rw late refl
      | inr fresh ↦
          rw (fresh, v.agrees.same (ikey_hash s.id e))
            (elim (Bool-cases (elem (ikey_hash s.id e) s.seen_ord)) [
              | inl dup ↦ rw dup refl
              | inr new ↦ rw new (answer-finish s e (validate (envelope_of s.id e)))
            ])
    ]

-- The parts of the state that decide the next answers.
abbrev pub memory : InstrumentStream → StreamId × ℕ × ℤ × List ℕ
memory s = (s.id, s.dedup_window, s.last_seq, s.seen_ord)

-- They change for an accepted event only.
abbrev pub remembered : InstrumentStream → Event → StreamId × ℕ × ℤ × List ℕ
remembered s e =
    if is_ok (build_envelope s e).1
    then (s.id, s.dedup_window, e.seq, last s.dedup_window (s.seen_ord ++ ikey_hash s.id e ∷ []))
    else memory s

memory-commit :
    (s : InstrumentStream) (e : Event)
    → IsValid s
    → memory (commit s e)
      ≡ (s.id, s.dedup_window, e.seq, last s.dedup_window (s.seen_ord ++ ikey_hash s.id e ∷ []))
unfolding commit
memory-commit s e v =
    ap (λ (l : List ℕ). (s.id, s.dedup_window, e.seq, l))
      (record_seen-last s.dedup_window s.seen s.seen_ord (ikey_hash s.id e) v.positive v.agrees)

memory-finish :
    (s : InstrumentStream) (e : Event) (r : Result Envelope)
    → IsValid s
    → memory (finish s e r).0 ≡ (
        if is_ok r
        then (
          s.id,
          s.dedup_window,
          e.seq,
          last s.dedup_window (s.seen_ord ++ ikey_hash s.id e ∷ []),
        )
        else memory s)
unfolding finish
memory-finish s e (ok env) v = memory-commit s e v
memory-finish s e (err p) v = refl

pub memory-build_envelope :
    (s : InstrumentStream) (e : Event) → IsValid s → memory (build_envelope s e).0 ≡ remembered s e
unfolding build_envelope
memory-build_envelope s e v = elim (Bool-cases (is_out_of_order s e)) [
  | inl late ↦ rw late refl
  | inr fresh ↦ elim (Bool-cases (has (ikey_hash s.id e) s.seen)) [
    | inl dup ↦ rw (fresh, dup) refl
    | inr new ↦
        rw (fresh, new, answer-finish s e (validate (envelope_of s.id e)))
          (memory-finish s e (validate (envelope_of s.id e)) v)
  ]
]

commit-IsValid :
    (s : InstrumentStream) (e : Event)
    → IsValid s
    → has (ikey_hash s.id e) s.seen ≡ false
    → IsValid (commit s e)
unfolding commit
commit-IsValid s e v new = record {
  positive = v.positive;
  agrees =
      record_seen-Agrees s.dedup_window s.seen s.seen_ord (ikey_hash s.id e) v.positive v.agrees
        (sym (v.agrees.same (ikey_hash s.id e)) ∙ new);
}

finish-IsValid :
    (s : InstrumentStream) (e : Event) (r : Result Envelope)
    → IsValid s
    → has (ikey_hash s.id e) s.seen ≡ false
    → IsValid (finish s e r).0
unfolding finish
finish-IsValid s e (ok env) v new = commit-IsValid s e v new
finish-IsValid s e (err p) v new = v

-- `BuildEnvelope` keeps the set of seen hashes equal to the queue, the queue free of duplicates and
-- within the window, on every answer.
pub build_envelope-IsValid :
    (s : InstrumentStream) (e : Event) → IsValid s → IsValid (build_envelope s e).0
unfolding build_envelope
build_envelope-IsValid s e v = elim (Bool-cases (is_out_of_order s e)) [
  | inl late ↦ rw late (record { positive = v.positive; agrees = v.agrees })
  | inr fresh ↦ elim (Bool-cases (has (ikey_hash s.id e) s.seen)) [
    | inl dup ↦ rw (fresh, dup) (record { positive = v.positive; agrees = v.agrees })
    | inr new ↦ rw (fresh, new) (finish-IsValid s e (validate (envelope_of s.id e)) v new)
  ]
]
