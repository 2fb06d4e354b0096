-- ===== src/Delivery/FanOut/Once.antt =====
-- Who receives an envelope: every PID in a fan-out list of its subjects, once.
use mathlib.Core.List.{append-nil, append_assoc}
use stream_analytics.Base.{
  ℕ, ◌+◌, ◌≤◌, ◌≡◌, refl, sym, ap, subst, ◌∙◌, Bool, true, false, ◌||◌, List, [], ◌∷◌, ◌++◌, Option,
  none, arith, length, length-append, ltb, Bool-cases, inl, inr,
}
use stream_analytics.Base.Int.{ℤ}
use stream_analytics.Base.Text.{Text, text_key, text_eq, text_eq_iff}
use stream_analytics.Base.Assoc.{lookup, insert, lookup-insert}
use stream_analytics.Base.Nested.{is_some}
use stream_analytics.Base.Members.{mem, NoDup, mem-append, NoDup-snoc, single-NoDup}
use stream_analytics.Envelope.{Envelope, ok}
use stream_analytics.Delivery.Router.{Router}
use stream_analytics.Delivery.Subject.{Subject, subject_from_envelope}
use stream_analytics.Delivery.Subscriptions.{Tables, Pid, subject_key}
use stream_analytics.Delivery.Routing.{
  validate_envelope_for_delivery, routing_timeframe_for_envelope,
}
use stream_analytics.Delivery.FanOut.{
  Sent, Sending, send_all, send_rest, send_to, is_served, number, targets_of, targets_at,
  subject_or_none, Route, route, admit_all, dispatch, deliver, no_targets, handle_subject,
  handle_valid, handle_envelope,
}

-- The PIDs that events were sent to.
abbrev pub pids : List Sent → List Pid
pids [] = []
pids (s ∷ ss) = s.pid ∷ pids ss

pids-append : (ss ts : List Sent) → pids (ss ++ ts) ≡ pids ss ++ pids ts
pids-append [] ts = refl
pids-append (s ∷ ss) ts = ap (λ (ps : List Pid). s.pid ∷ ps) (pids-append ss ts)

-- The set of served PIDs is what was sent.
record Tracks (f : Sending) : Type 0 where
  served : (p : Pid) → is_some (lookup p f.seen) ≡ mem p (pids f.sent)
  once : NoDup (pids f.sent)

send_all-pids :
    (track : Bool) (subject : Subject) (env : Envelope) (ps : List Pid) (f : Sending)
    → pids (send_all track subject env ps f).sent ≡ pids f.sent ++ ps
unfolding send_all
send_all-pids track subject env [] f = sym (append-nil (pids f.sent))
send_all-pids track subject env (p ∷ ps) f =
    send_all-pids track subject env ps _
    ∙ ap (λ (qs : List Pid). qs ++ ps) (pids-append f.sent (_ ∷ []))
    ∙ append_assoc (pids f.sent) (p ∷ []) ps

served-snoc :
    (seen : List (Pid × Unit {0})) (sent : List Sent) (s : Sent)
    → ((p : Pid) → is_some (lookup p seen) ≡ mem p (pids sent))
    → (p : Pid) → is_some (lookup p (insert s.pid tt seen)) ≡ mem p (pids (sent ++ s ∷ []))
unfolding is_some mem
served-snoc seen sent s h p =
    rw
      (
        pids-append sent (s ∷ []),
        mem-append p (pids sent) (s.pid ∷ []),
        lookup-insert s.pid p tt seen,
      )
      (ground (arith, h p))

send_all-served :
    (subject : Subject) (env : Envelope) (ps : List Pid) (f : Sending)
    → ((p : Pid) → is_some (lookup p f.seen) ≡ mem p (pids f.sent))
    → (p : Pid)
    → is_some (lookup p (send_all true subject env ps f).seen)
      ≡ mem p (pids (send_all true subject env ps f).sent)
unfolding send_all
send_all-served subject env [] f h p = h p
send_all-served subject env (q ∷ ps) f h p =
    send_all-served subject env ps _ (served-snoc f.seen f.sent _ h) p

-- One more event, to a PID that has none.
send_to-Tracks :
    (subject : Subject) (env : Envelope) (p : Pid) (numbered : Router × ℤ) (f : Sending)
    → is_served true p f.seen ≡ false
    → Tracks f
    → Tracks (send_to true subject env p numbered f)
unfolding send_to is_served
send_to-Tracks subject env p numbered f h t = record {
  served = served-snoc f.seen f.sent _ t.served;
  once =
      subst NoDup (sym (pids-append f.sent (_ ∷ [])))
        (NoDup-snoc (pids f.sent) p (sym (t.served p) ∙ h) t.once);
}

send_rest-Tracks :
    (now : ℕ) (subject : Subject) (env : Envelope) (ps : List Pid) (assigned : Option ℤ)
    (f : Sending)
    → Tracks f
    → Tracks (send_rest true now subject env ps assigned f)
unfolding send_rest
send_rest-Tracks now subject env [] assigned f t = t
send_rest-Tracks now subject env (p ∷ ps) assigned f t =
    elim (Bool-cases (is_served true p f.seen)) [
      | inl old ↦ rw old (send_rest-Tracks now subject env ps assigned f t)
      | inr new ↦
          rw new (send_rest-Tracks now subject env ps _ _ (send_to-Tracks subject env p _ f new t))
    ]

served_mem :
    (f : Sending) (p r : Pid)
    → Tracks f
    → is_served true p f.seen ≡ true
    → text_eq p r ≡ true
    → mem r (pids f.sent) ≡ true
unfolding is_served
served_mem f p r t old e =
    subst (λ (q : Pid). mem q (pids f.sent) ≡ true) ((text_eq_iff p r).0 e) (sym (t.served p) ∙ old)

send_to-mem :
    (subject : Subject) (env : Envelope) (p r : Pid) (numbered : Router × ℤ) (f : Sending)
    → mem r (pids (send_to true subject env p numbered f).sent)
      ≡ (mem r (pids f.sent) || text_eq p r)
unfolding send_to mem
send_to-mem subject env p r numbered f =
    ap (mem r) (pids-append f.sent (_ ∷ [])) ∙ mem-append r (pids f.sent) (p ∷ []) ∙ (ground arith)

or_assoc : (a b c : Bool) → ((a || b) || c) ≡ (a || (b || c))
or_assoc a b c = ground arith

-- After the loop every target has its event, and nobody else has a new one.
send_rest-mem :
    (now : ℕ) (subject : Subject) (env : Envelope) (ps : List Pid) (assigned : Option ℤ)
    (f : Sending)
    → Tracks f
    → (r : Pid)
    → mem r (pids (send_rest true now subject env ps assigned f).sent)
      ≡ (mem r (pids f.sent) || mem r ps)
unfolding send_rest mem
send_rest-mem now subject env [] assigned f t r = ground arith
send_rest-mem now subject env (p ∷ ps) assigned f t r =
    elim (Bool-cases (is_served true p f.seen)) [
      | inl old ↦
          rw (send_rest, old)
            (ground
              (arith, send_rest-mem now subject env ps assigned f t r, served_mem f p r t old))
      | inr new ↦
          rw (send_rest, new)
            (send_rest-mem now subject env ps _ _ (send_to-Tracks subject env p _ f new t) r
              ∙ ap (λ (b : Bool). b || mem r ps)
                  (send_to-mem subject env p r (number now subject assigned f.router) f)
              ∙ or_assoc (mem r (pids f.sent)) (text_eq p r) (mem r ps))
    ]

send_rest-pids :
    (now : ℕ) (subject : Subject) (env : Envelope) (ps : List Pid) (assigned : Option ℤ)
    (f : Sending)
    → pids (send_rest false now subject env ps assigned f).sent ≡ pids f.sent ++ ps
unfolding send_rest send_to is_served
send_rest-pids now subject env [] assigned f = sym (append-nil (pids f.sent))
send_rest-pids now subject env (p ∷ ps) assigned f =
    send_rest-pids now subject env ps _ _
    ∙ ap (λ (qs : List Pid). qs ++ ps) (pids-append f.sent (_ ∷ []))
    ∙ append_assoc (pids f.sent) (p ∷ []) ps

-- Every target of the three lists.
abbrev pub all_targets : Tables → Route → List Pid
all_targets t w = targets_of t w.subject ++ (targets_at t w.alias ++ targets_at t w.wildcard)

abbrev start : Router → Sending
start r = record { router = r; seen = []; sent = [] }

send_all-Tracks :
    (subject : Subject) (env : Envelope) (ps : List Pid) (r : Router)
    → NoDup ps
    → Tracks (send_all true subject env ps (start r))
unfolding is_some lookup mem
send_all-Tracks subject env ps r d = record {
  served = send_all-served subject env ps (start r) (λ p. refl);
  once = subst NoDup (sym (send_all-pids true subject env ps (start r))) d;
}

few :
    (xs ys zs : List Pid)
    → ltb 1 (length xs + length ys + length zs) ≡ false
    → length (xs ++ (ys ++ zs)) ≤ 1
few xs ys zs h = ground (arith, h, length-append xs (ys ++ zs), length-append ys zs)

module _ (clock : ℕ → ℕ) (t : Tables) (w : Route) (env : Envelope) (r : Router) where
  abbrev many : Bool
  many = ltb 1 (
      length (targets_of t w.subject)
      + length (targets_at t w.alias)
      + length (targets_at t w.wildcard))

  tracked :
      many ≡ true
      → NoDup (targets_of t w.subject)
      → NoDup (pids (dispatch clock t w env r).sent)
        × ((p : Pid) → mem p (pids (dispatch clock t w env r).sent) ≡ mem p (all_targets t w))
  unfolding dispatch
  tracked h d =
      let first = send_all-Tracks w.subject _ (targets_of t w.subject) _ d in
      let second =
        send_rest-Tracks (clock 7) (subject_or_none w.alias) env (targets_at t w.alias) none _
          first in
      let third =
        send_rest-Tracks (clock 8) (subject_or_none w.wildcard) env (targets_at t w.wildcard) none _
          second in
      rw (dispatch, h)
        (
          third.once,
          λ p.
              send_rest-mem (clock 8) (subject_or_none w.wildcard) env (targets_at t w.wildcard)
                none _ second p
              ∙ ap (λ (b : Bool). b || mem p (targets_at t w.wildcard))
                  (send_rest-mem (clock 7) (subject_or_none w.alias) env (targets_at t w.alias) none
                      _ first p
                    ∙ ap (λ (qs : List Pid). mem p qs || mem p (targets_at t w.alias))
                        (send_all-pids true w.subject _ (targets_of t w.subject) (start _)))
              ∙ or_assoc (mem p (targets_of t w.subject)) (mem p (targets_at t w.alias))
                  (mem p (targets_at t w.wildcard))
              ∙ ap (λ (b : Bool). mem p (targets_of t w.subject) || b)
                  (sym (mem-append p (targets_at t w.alias) (targets_at t w.wildcard)))
              ∙ sym (
                  mem-append p (targets_of t w.subject)
                    (targets_at t w.alias ++ targets_at t w.wildcard)),
        )

  untracked : many ≡ false → pids (dispatch clock t w env r).sent ≡ all_targets t w
  unfolding dispatch
  untracked h =
      rw (dispatch, h)
        (send_rest-pids (clock 8) (subject_or_none w.wildcard) env (targets_at t w.wildcard) none _
          ∙ ap (λ (qs : List Pid). qs ++ targets_at t w.wildcard)
              (send_rest-pids (clock 7) (subject_or_none w.alias) env (targets_at t w.alias) none _
                ∙ ap (λ (qs : List Pid). qs ++ targets_at t w.alias)
                    (send_all-pids false w.subject _ (targets_of t w.subject) (start _)))
          ∙ append_assoc (targets_of t w.subject) (targets_at t w.alias) (targets_at t w.wildcard))

  dispatch_once :
      NoDup (targets_of t w.subject)
      → NoDup (pids (dispatch clock t w env r).sent)
        × ((p : Pid) → mem p (pids (dispatch clock t w env r).sent) ≡ mem p (all_targets t w))
  dispatch_once d = elim (Bool-cases many) [
    | inl h ↦ tracked h d
    | inr h ↦ rw (untracked h) (
      single-NoDup (all_targets t w)
          (few (targets_of t w.subject) (targets_at t w.alias) (targets_at t w.wildcard) h),
      λ p. refl,
    )
  ]

-- An envelope that passes the contract check, has a subject with targets and is admitted to all its
-- streams is sent to every PID in a fan-out list of its subject, its alias or its wildcard, to no
-- other, and to each once if no PID is twice in the fan-out list of its subject.
pub handle_envelope-delivers :
    (token : Text → Text) (clock : ℕ → ℕ) (timeframe : Text) (has_store : Bool) (t : Tables)
    (env : Envelope) (subject : Subject)
    → validate_envelope_for_delivery env ≡ ok tt
    → subject_from_envelope env (routing_timeframe_for_envelope timeframe env) ≡ ok subject
    → no_targets t (route subject env) ≡ false
    → (admit_all token clock t (route subject env) env).1 ≡ true
    → NoDup (targets_of t subject)
    → NoDup (pids (handle_envelope token clock timeframe has_store false t env).sent)
      × ((p : Pid)
          → mem p (pids (handle_envelope token clock timeframe has_store false t env).sent)
            ≡ mem p (all_targets t (route subject env)))
unfolding handle_envelope handle_valid handle_subject deliver route
handle_envelope-delivers token clock timeframe has_store t env subject valid named some_targets
      admitted d =
    rw (handle_envelope, valid, named, some_targets, admitted)
      (dispatch_once clock t (route subject env) env _ d)
