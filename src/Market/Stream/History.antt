-- ===== src/Market/Stream/History.antt =====
-- What `BuildEnvelope` answers after any sequence of events, from the accepted ones alone.
use stream_analytics.Base.{
  ℕ, zero, suc, ◌+◌, ◌-◌, ◌<◌, ◌≤◌, ◌≡◌, refl, ap, sym, ◌∙◌, ◌⊎◌, true, false, ◌&&◌, List, [], ◌∷◌,
  ◌++◌, map, length, drop, if◌then◌else◌, arith, Bool-cases, inl, inr, length-append, length-drop,
  subst,
}
use stream_analytics.Base.Int.{ℤ, pos, negsuc, leb_ℤ, ltb_ℤ, ◌<ℤ◌, ◌≤ℤ◌}
use stream_analytics.Base.Text.{Text}
use stream_analytics.Envelope.{Result, ok, err, Envelope, validate}
use stream_analytics.Market.Stream.{
  StreamId, InstrumentStream, Event, new_instrument_stream, ikey_hash, envelope_of, build_envelope,
}
use stream_analytics.Market.Stream.Seen.{last, Agrees, empty-Agrees}
use stream_analytics.Market.Stream.Refine.{
  IsValid, answer, is_ok, memory, remembered, build_envelope-answer, memory-build_envelope,
  build_envelope-IsValid,
}

-- The events one after the other.
unfoldable pub run : InstrumentStream → List Event → InstrumentStream
run s [] = s
run s (e ∷ es) = run (build_envelope s e).0 es

-- Those that are accepted.
unfoldable pub accepted : InstrumentStream → List Event → List Event
accepted s [] = []
accepted s (e ∷ es) =
    let rest = accepted (build_envelope s e).0 es in
    if is_ok (build_envelope s e).1 then e ∷ rest else rest

-- The number of the last of the events, or the one given.
abbrev pub last_seq_of : ℤ → List Event → ℤ
last_seq_of n [] = n
last_seq_of n (e ∷ es) = last_seq_of e.seq es

drop-drop-append :
    (n k : ℕ) (xs ys : List ℕ) → k ≤ length xs → drop n (drop k xs ++ ys) ≡ drop (k + n) (xs ++ ys)
drop-drop-append n zero xs ys h =
    ap (λ k. drop k (xs ++ ys)) (let e : n ≡ zero + n = omega arith in e)
drop-drop-append n (suc k) [] ys h = absurd (omega arith)
drop-drop-append n (suc k) (x ∷ xs) ys h =
    drop-drop-append n k xs ys (omega arith)
    ∙ ap (λ j. drop j (x ∷ xs ++ ys)) (let e : suc (k + n) ≡ suc k + n = omega arith in e)

-- Keeping the last elements twice is keeping them once.
last-last : (n : ℕ) (xs ys : List ℕ) → last n (last n xs ++ ys) ≡ last n (xs ++ ys)
unfolding last
last-last n xs ys =
    drop-drop-append (length (drop (length xs - n) xs ++ ys) - n) (length xs - n) xs ys
      (omega arith)
    ∙ ap (λ k. drop k (xs ++ ys))
        (let e : (length xs - n) + (length (drop (length xs - n) xs ++ ys) - n)
              ≡ length (xs ++ ys) - n =
            omega (
              arith,
              length-append xs ys,
              length-append (drop (length xs - n) xs) ys,
              length-drop (length xs - n) xs,
            ) in
          e)

run-IsValid : (s : InstrumentStream) (es : List Event) → IsValid s → IsValid (run s es)
unfolding run
run-IsValid s [] v = v
run-IsValid s (e ∷ es) v = run-IsValid (build_envelope s e).0 es (build_envelope-IsValid s e v)

abbrev Memory : Type 0
Memory = StreamId × ℕ × ℤ × List ℕ

-- The memory of a stream after the accepted events `hist`.
abbrev memory_after : Memory → List Event → Memory
memory_after (id, n, last_seq, recent) hist =
    (id, n, last_seq_of last_seq hist, last n (recent ++ map (ikey_hash id) hist))

append-snoc : (xs : List ℕ) (h : ℕ) (ys : List ℕ) → (xs ++ h ∷ []) ++ ys ≡ xs ++ h ∷ ys
append-snoc [] h ys = refl
append-snoc (x ∷ xs) h ys = ap (λ l. x ∷ l) (append-snoc xs h ys)

append_nil : (xs : List ℕ) → xs ++ [] ≡ xs
append_nil [] = refl
append_nil (x ∷ xs) = ap (λ l. x ∷ l) (append_nil xs)

last_all : (n : ℕ) (xs : List ℕ) → length xs ≤ n → last n (xs ++ []) ≡ xs
unfolding last
last_all n xs h =
    ap (λ l. drop (length l - n) l) (append_nil xs)
    ∙ ap (λ k. drop k xs) (let e : length xs - n ≡ 0 = omega arith in e)

memory_after-remembered :
    (s : InstrumentStream) (e : Event) (hist : List Event)
    → memory_after (remembered s e) hist
      ≡ memory_after (memory s) (if is_ok (build_envelope s e).1 then e ∷ hist else hist)
memory_after-remembered s e hist = elim (Bool-cases (is_ok (build_envelope s e).1)) [
  | inr refused ↦ rw refused refl
  | inl passed ↦ rw passed (
      ap (λ (l : List ℕ). (s.id, s.dedup_window, last_seq_of e.seq hist, l))
        (last-last s.dedup_window (s.seen_ord ++ ikey_hash s.id e ∷ []) (map (ikey_hash s.id) hist)
          ∙ ap (last s.dedup_window)
              (append-snoc s.seen_ord (ikey_hash s.id e) (map (ikey_hash s.id) hist))))
]

memory-run :
    (s : InstrumentStream) (es : List Event)
    → IsValid s
    → memory (run s es) ≡ memory_after (memory s) (accepted s es)
unfolding run accepted
memory-run s [] v =
    ap (λ (l : List ℕ). (s.id, s.dedup_window, s.last_seq, l))
      (sym (last_all s.dedup_window s.seen_ord v.agrees.bounded))
memory-run s (e ∷ es) v =
    memory-run (build_envelope s e).0 es (build_envelope-IsValid s e v)
    ∙ ap (λ (m : Memory). memory_after m (accepted (build_envelope s e).0 es))
        (memory-build_envelope s e v)
    ∙ memory_after-remembered s e (accepted (build_envelope s e).0 es)

-- The answer to an event, from the events accepted before it: out of order if the number is not
-- above the last accepted one, unless that is 0; a duplicate if its hash is among those of the last
-- `n` accepted ones; what the validation of the envelope says otherwise.
unfoldable pub answer_after : StreamId → ℕ → List Event → Event → Result Envelope
answer_after id n hist e = answer id (last_seq_of (pos 0) hist) (last n (map (ikey_hash id) hist)) e

-- A stream as it is created, with a positive window.
unfoldable pub IsNew : InstrumentStream → Type 0
IsNew s = (0 < s.dedup_window) × (s.last_seq ≡ pos 0) × (s.seen ≡ []) × (s.seen_ord ≡ [])

pub new-IsValid : (s : InstrumentStream) → IsNew s → IsValid s
unfolding IsNew
new-IsValid s (p, q, m, o) = record {
  positive = p;
  agrees =
      subst (λ ord. Agrees s.dedup_window s.seen ord) (sym o)
        (subst (λ seen. Agrees s.dedup_window seen []) (sym m) (empty-Agrees s.dedup_window));
}

pub new_instrument_stream-IsNew :
    (raw_venue raw_instrument raw_market_type : Text) (dedup_window : ℤ) (s : InstrumentStream)
    → new_instrument_stream raw_venue raw_instrument raw_market_type dedup_window ≡ ok s
    → IsNew s
unfolding new_instrument_stream IsNew
new_instrument_stream-IsNew raw_venue raw_instrument raw_market_type dedup_window s h = grind arith

-- After any events, `BuildEnvelope` on a stream that was new answers what `answer_after` says of
-- the events accepted so far.
pub build_envelope-answers :
    (s : InstrumentStream) (es : List Event) (e : Event)
    → IsNew s
    → (build_envelope (run s es) e).1 ≡ answer_after s.id s.dedup_window (accepted s es) e
unfolding answer_after IsNew
build_envelope-answers s es e n =
    build_envelope-answer (run s es) e (run-IsValid s es (new-IsValid s n))
    ∙ ap (λ (m : Memory). answer m.0 m.2 m.3 e) (memory-run s es (new-IsValid s n))
    ∙ cc (n.1, n.3)

validate_seq : (env env' : Envelope) → validate env ≡ ok env' → pos 0 ≤ℤ env.seq
unfolding validate
validate_seq env env' h = grind arith

-- Never falling from `n`, and rising except from 0 to 0.
unfoldable pub Rises : ℤ → List Event → Type 0
Rises n [] = Unit {0}
Rises n (e ∷ es) = ((n <ℤ e.seq) ⊎ ((n ≡ pos 0) × (e.seq ≡ pos 0))) × Rises e.seq es

ok_of : (r : Result Envelope) → is_ok r ≡ true → (env : Envelope) × (r ≡ ok env)
ok_of (ok env) h = (env, refl)
ok_of (err p) h = absurd (ground arith)

answer_ok :
    (id : StreamId) (n : ℤ) (recent : List ℕ) (e : Event)
    → is_ok (answer id n recent e) ≡ true
    → ((leb_ℤ e.seq n && ltb_ℤ (pos 0) n) ≡ false) × (is_ok (validate (envelope_of id e)) ≡ true)
unfolding answer
answer_ok id n recent e h = ground arith

test_rises :
    (n seq : ℤ)
    → pos 0 ≤ℤ n
    → pos 0 ≤ℤ seq
    → (leb_ℤ seq n && ltb_ℤ (pos 0) n) ≡ false
    → (n <ℤ seq) ⊎ ((n ≡ pos 0) × (seq ≡ pos 0))
test_rises (negsuc n) seq l m h = absurd (omega arith)
test_rises (pos n) (negsuc k) l m h = absurd (omega arith)
test_rises (pos zero) (pos zero) l m h = inr (refl, refl)
test_rises (pos zero) (pos (suc k)) l m h = inl (omega arith)
test_rises (pos (suc n)) (pos k) l m h = inl (ground arith)

-- The step for an accepted event.
passed_lem :
    (s : InstrumentStream) (e : Event)
    → IsValid s
    → pos 0 ≤ℤ s.last_seq
    → is_ok (build_envelope s e).1 ≡ true
    → ((s.last_seq <ℤ e.seq) ⊎ ((s.last_seq ≡ pos 0) × (e.seq ≡ pos 0))) × (pos 0 ≤ℤ e.seq)
passed_lem s e v low passed =
    let (fresh, valid) =
      answer_ok s.id s.last_seq s.seen_ord e
        (ap is_ok (sym (build_envelope-answer s e v)) ∙ passed) in
    let (env, h) = ok_of (validate (envelope_of s.id e)) valid in
    let high : pos 0 ≤ℤ e.seq = unfold envelope_of in validate_seq (envelope_of s.id e) env h in
    (test_rises s.last_seq e.seq low high fresh, high)

remembered_seq :
    (s : InstrumentStream) (e : Event)
    → (remembered s e).2 ≡ (if is_ok (build_envelope s e).1 then e.seq else s.last_seq)
remembered_seq s e = elim (Bool-cases (is_ok (build_envelope s e).1)) [
  | inl passed ↦ rw passed refl
  | inr refused ↦ rw refused refl
]

last_seq-build_envelope :
    (s : InstrumentStream) (e : Event)
    → IsValid s
    → (build_envelope s e).0.last_seq ≡ (if is_ok (build_envelope s e).1 then e.seq else s.last_seq)
last_seq-build_envelope s e v =
    ap (λ (m : Memory). m.2) (memory-build_envelope s e v) ∙ remembered_seq s e

-- From a state whose last number is not negative, the numbers of the accepted events rise strictly,
-- but for events numbered 0 while no positive number has been accepted.
pub accepted-Rises :
    (s : InstrumentStream) (es : List Event)
    → IsValid s
    → pos 0 ≤ℤ s.last_seq
    → Rises s.last_seq (accepted s es)
unfolding Rises accepted
accepted-Rises s [] v low = tt
accepted-Rises s (e ∷ es) v low = elim (Bool-cases (is_ok (build_envelope s e).1)) [
  | inl passed ↦
      let (rises, high) = passed_lem s e v low passed in
      let q : (build_envelope s e).0.last_seq ≡ e.seq =
        last_seq-build_envelope s e v ∙ (rw passed refl) in
      rw passed (
        rises,
        subst (λ k. Rises k (accepted (build_envelope s e).0 es)) q
            (accepted-Rises (build_envelope s e).0 es (build_envelope-IsValid s e v)
              (subst (λ k. pos 0 ≤ℤ k) (sym q) high)),
      )
  | inr refused ↦
      let q : (build_envelope s e).0.last_seq ≡ s.last_seq =
        last_seq-build_envelope s e v ∙ (rw refused refl) in
      rw refused (
        subst (λ k. Rises k (accepted (build_envelope s e).0 es)) q
          (accepted-Rises (build_envelope s e).0 es (build_envelope-IsValid s e v)
            (subst (λ k. pos 0 ≤ℤ k) (sym q) low)))
]
