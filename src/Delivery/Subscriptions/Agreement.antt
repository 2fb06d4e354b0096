-- ===== src/Delivery/Subscriptions/Agreement.antt =====
-- The tables agree with each other after every message.
use stream_analytics.Base.{
  ℕ, ◌+◌, ◌≡◌, refl, sym, ap, subst, ◌∙◌, true, false, not, ◌&&◌, List, [], ◌∷◌, Option, none, some,
  arith, length, Bool-cases, Option-cases, inl, inr,
}
use stream_analytics.Base.Int.{ℤ, pos, ltb_ℤ, leb_ℤ, ◌<ℤ◌, ◌≤ℤ◌}
use stream_analytics.Base.Text.{Text, text_key, text_eq, text_eq_iff, is_empty}
use stream_analytics.Base.Assoc.{
  lookup, lookup-insert, lookup-remove, length-insert, length-remove-le,
}
use stream_analytics.Base.Nested.{
  lookup2-remove, is_some, is_nil, inner_of, lookup2, insert2, lookup2-insert2, inner_of-insert2,
  NoEmpty-insert2,
}
use stream_analytics.Delivery.Router.{Router}
use stream_analytics.Delivery.Subject.{Subject}
use stream_analytics.Delivery.Subscriptions.{
  no_tables, Message, registers, unregisters, subscribes, unsubscribes, stopped, receive, run,
  Tables, Pid, subject_key, rebuild_subject_pids, remove_all, register, unregister, subscribe,
  unsubscribe, on_actor_stopped, is_at_limit, make_entry, add_session, add_subscription,
}
use stream_analytics.Delivery.Subscriptions.Removal.{
  Agree, rebuild-Cached, remove_session_from_subject-Agree, remove_all-Agree, remove_all-sessions,
  cleared-none,
}

unregister-Agree : (t : Tables) (id : Text) → Agree t → Agree (unregister t id)
unfolding unregister is_some
unregister-Agree t id a =
    let subs = inner_of id t.session_subjects in
    let b = remove_all-Agree id subs t a in
    let (kept, limit) = remove_all-sessions id subs t a.cached in
    let cleared = remove_all id subs t in
    record {
      same = λ i s.
          rw (lookup2-remove id i s cleared.session_subjects) (elim (Bool-cases (text_eq id i)) [
            | inl e ↦
                rw (e, sym (b.same i s), sym ((text_eq_iff id i).0 e), cleared-none id s t a) refl
            | inr e ↦ rw e (b.same i s)
          ]);
      cached = b.cached;
      tidy = b.tidy;
      registered = λ i s h. ground (
        arith,
        h,
        b.registered i s,
        lookup2-remove id i s cleared.session_subjects,
        lookup-remove id i cleared.sessions,
      );
      bounded = λ p. omega (arith, b.bounded p, length-remove-le id cleared.sessions);
    }

add_subscription-Agree :
    (t : Tables) (id : Text) (subject : Subject) (pid : Pid)
    → lookup id t.sessions ≡ some pid
    → Agree t
    → Agree (add_subscription t id subject pid)
unfolding add_subscription rebuild_subject_pids is_some
add_subscription-Agree t id subject pid h a = record {
  same = λ i s. ground (
    arith,
    a.same i s,
    lookup2-insert2 id i subject s tt t.session_subjects,
    lookup2-insert2 subject s id i pid t.subject_sessions,
  );
  cached =
      rebuild-Cached subject t.subject_sessions (insert2 subject id pid t.subject_sessions)
        t.subject_pids (λ s d. rw (inner_of-insert2 subject s id pid t.subject_sessions, d) refl)
        a.cached;
  tidy = NoEmpty-insert2 subject id pid t.subject_sessions a.tidy;
  registered = λ i s q. elim (Bool-cases (text_eq id i)) [
    | inl e ↦
        subst (λ (j : Text). is_some (lookup j t.sessions) ≡ true) ((text_eq_iff id i).0 e)
          (rw h refl)
    | inr e ↦
        a.registered i s
          (ground (arith, q, e, lookup2-insert2 id i subject s tt t.session_subjects))
  ];
  bounded = a.bounded;
}

pub make_entry-view :
    (id i : Text) (s : Subject) (m : List (Text × List (Subject × Unit {0})))
    → lookup2 i s (make_entry id m) ≡ lookup2 i s m
unfolding make_entry lookup2 inner_of lookup
make_entry-view id i s m = elim (Option-cases (lookup id m)) [
  | inr (subs, there) ↦ rw (make_entry, there) refl
  | inl absent ↦
      rw (make_entry, absent) (ground (arith, lookup-insert id i [] m, text_eq_iff id i, absent))
]

subscribe-Agree :
    (t : Tables) (id : Text) (subject : Subject) → Agree t → Agree (subscribe t id subject)
unfolding subscribe
subscribe-Agree t id subject a = elim (Option-cases (lookup id t.sessions)) [
  | inl absent ↦ rw (subscribe, absent) a
  | inr (pid, there) ↦
      rw (subscribe, there)
        (elim (Bool-cases (is_some (lookup2 id subject t.session_subjects))) [
          | inr new ↦ rw new (add_subscription-Agree t id subject pid there a)
          | inl already ↦ rw already record {
            same = λ i s. rw (make_entry-view id i s t.session_subjects) (a.same i s);
            cached = a.cached;
            tidy = a.tidy;
            registered = λ i s q.
                a.registered i s (sym (ap is_some (make_entry-view id i s t.session_subjects)) ∙ q);
            bounded = a.bounded;
          }
        ])
]

below_limit :
    (n : ℕ) (limit : ℤ)
    → (ltb_ℤ (pos 0) limit && leb_ℤ limit (pos n)) ≡ false
    → pos 0 <ℤ limit
    → pos (n + 1) ≤ℤ limit
below_limit n limit h p = ground arith

add_session-Agree :
    (t : Tables) (id : Text) (pid : Pid)
    → (not (is_some (lookup id t.sessions)) && is_at_limit t) ≡ false
    → Agree t
    → Agree (add_session t id pid)
unfolding add_session is_some is_at_limit
add_session-Agree t id pid h a = record {
  same = λ i s. rw (make_entry-view id i s t.session_subjects) (a.same i s);
  cached = a.cached;
  tidy = a.tidy;
  registered = λ i s q. ground (
    arith,
    lookup-insert id i pid t.sessions,
    a.registered i s (sym (ap is_some (make_entry-view id i s t.session_subjects)) ∙ q),
  );
  bounded = λ p. elim (Option-cases (lookup id t.sessions)) [
    | inr (old, there) ↦ rw (length-insert id pid t.sessions, there) (a.bounded p)
    | inl absent ↦
        rw (length-insert id pid t.sessions, absent)
          (below_limit (length t.sessions) t.max_active_sessions (ground (arith, absent, h)) p)
  ];
}

register-Agree : (t : Tables) (id : Text) (pid : Option Pid) → Agree t → Agree (register t id pid)
unfolding register
register-Agree t id none a = a
register-Agree t id (some pid) a = elim (Bool-cases (is_empty id)) [
  | inl e ↦ rw e a
  | inr e ↦ rw e (elim (Bool-cases (not (is_some (lookup id t.sessions)) && is_at_limit t)) [
    | inl full ↦ rw full a
    | inr room ↦ rw room (add_session-Agree t id pid room a)
  ])
]

on_actor_stopped-Agree :
    (self : Option Pid) (t : Tables) (pid : Option Pid)
    → Agree t
    → Agree (on_actor_stopped self t pid)
unfolding on_actor_stopped
on_actor_stopped-Agree none t none a = a
on_actor_stopped-Agree (some self) t none a = a
on_actor_stopped-Agree none t (some pid) a = a
on_actor_stopped-Agree (some self) t (some pid) a = elim (Bool-cases (text_eq pid self)) [
  | inl e ↦ rw e a
  | inr e ↦ rw e (elim (Option-cases (lookup pid t.session_by_pid)) [
    | inl absent ↦ rw absent a
    | inr (id, there) ↦ rw there (unregister-Agree t id a)
  ])
]

pub receive-Agree : (t : Tables) (m : Message) → Agree t → Agree (receive t m)
unfolding receive unsubscribe
receive-Agree t (registers id pid) a = register-Agree t id pid a
receive-Agree t (unregisters id) a = unregister-Agree t id a
receive-Agree t (subscribes id subject) a = subscribe-Agree t id subject a
receive-Agree t (unsubscribes id subject) a = remove_session_from_subject-Agree id subject t a
receive-Agree t (stopped self pid) a = on_actor_stopped-Agree self t pid a

-- The tables at the start agree.
pub no_tables-Agree : (r : Router) (limit : ℤ) → Agree (no_tables r limit)
unfolding no_tables lookup lookup2 inner_of is_nil is_some
no_tables-Agree r limit = record {
  same = λ i s. refl;
  cached = λ s. refl;
  tidy = λ k i e. absurd (cc e);
  registered = λ i s e. absurd (cc e);
  bounded = λ p. omega (arith, p);
}

-- For tables of which this holds at the start, whatever messages the router receives, it goes on to
-- hold: a session is in the entry of a subject exactly if the subject is in the entry of the session;
-- the fan-out list of a subject lists the PIDs of its entry, and there is none without an entry; no
-- subject has an empty entry; every session with a subscription is registered; and with a positive
-- limit no more sessions are registered than it allows.
pub run-Agree : (t : Tables) (ms : List Message) → Agree t → Agree (run t ms)
unfolding run
run-Agree t [] a = a
run-Agree t (m ∷ ms) a = run-Agree (receive t m) ms (receive-Agree t m a)
