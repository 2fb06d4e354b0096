-- ===== src/Delivery/Subscriptions/View.antt =====
-- What the tables mean: who is registered, and who is subscribed to what with which PID.
use stream_analytics.Base.{
  ◌≡◌, refl, sym, ap, ◌∙◌, not, ◌&&◌, List, [], ◌∷◌, Option, none, some, arith, if◌then◌else◌,
  Bool-cases, inl, inr,
}
use stream_analytics.Base.Text.{Text, text_key, text_eq, text_eq_iff}
use stream_analytics.Base.Assoc.{lookup, lookup-remove}
use stream_analytics.Base.Nested.{is_some, inner_of, lookup2, lookup2-insert2, lookup2-remove2}
use stream_analytics.Delivery.Subject.{Subject, subject_eq}
use stream_analytics.Delivery.Subscriptions.{
  Tables, Pid, subject_key, rebuild_subject_pids, remove_session_from_subject, remove_all,
  unregister, subscribe, unsubscribe, add_subscription,
}
use stream_analytics.Delivery.Subscriptions.Removal.{
  Agree, removal_form, remove_session_from_subject-Agree, remove_all-Agree, remove_all-sessions,
  cleared-none,
}

-- The PID that a session is registered with.
abbrev pub registered_pid : Tables → Text → Option Pid
registered_pid t id = lookup id t.sessions

-- The PID that a session's events of a subject go to.
abbrev pub subscribed_pid : Tables → Text → Subject → Option Pid
subscribed_pid t id subject = lookup2 subject id t.subject_sessions

-- The abstract state: two functions.
pub record Views (t : Tables) (r : Text → Option Pid) (s : Text → Subject → Option Pid)
    : Type 0 where
  pub sessions : (i : Text) → registered_pid t i ≡ r i
  pub subscriptions : (i : Text) (subject : Subject) → subscribed_pid t i subject ≡ s i subject

remove_session_from_subject-subscribed :
    (id i : Text) (subject s : Subject) (t : Tables)
    → Agree t
    → subscribed_pid (remove_session_from_subject id subject t) i s
      ≡ (if subject_eq subject s && text_eq id i then none else subscribed_pid t i s)
remove_session_from_subject-subscribed id i subject s t a =
    let (pids, r, made, e) = removal_form id subject t a.cached in
    ap (λ (u : Tables). lookup2 s i u.subject_sessions) e
    ∙ lookup2-remove2 subject s id i t.subject_sessions

remove_all-subscribed :
    (id i : Text) (s : Subject) (subs : List (Subject × Unit {0})) (t : Tables)
    → Agree t
    → subscribed_pid (remove_all id subs t) i s
      ≡ (if text_eq id i && is_some (lookup s subs) then none else subscribed_pid t i s)
unfolding remove_all lookup is_some
remove_all-subscribed id i s [] t a = ground arith
remove_all-subscribed id i s ((subject, _) ∷ subs) t a =
    let a' = remove_session_from_subject-Agree id subject t a in
    ground (
      arith,
      remove_all-subscribed id i s subs (remove_session_from_subject id subject t) a',
      remove_session_from_subject-subscribed id i subject s t a,
    )

cleared-subscribed :
    (id : Text) (s : Subject) (t : Tables)
    → Agree t
    → subscribed_pid (remove_all id (inner_of id t.session_subjects) t) id s ≡ none
unfolding is_some
cleared-subscribed id s t a = ground (
  arith,
  (remove_all-Agree id (inner_of id t.session_subjects) t a).same id s,
  cleared-none id s t a,
)

unregister-Views :
    (t : Tables) (id : Text)
    → Agree t
    → Views
        (unregister t id)
        (λ i. if text_eq id i then none else registered_pid t i)
        (λ i s. if text_eq id i then none else subscribed_pid t i s)
unfolding unregister is_some lookup2
unregister-Views t id a =
    let subs = inner_of id t.session_subjects in
    let (kept, limit) = remove_all-sessions id subs t a.cached in
    record {
      sessions = λ i. rw (lookup-remove id i (remove_all id subs t).sessions, kept) refl;
      subscriptions = λ i s. elim (Bool-cases (text_eq id i)) [
        | inr e ↦ rw e (ground (arith, remove_all-subscribed id i s subs t a, e))
        | inl e ↦ rw (e, sym ((text_eq_iff id i).0 e)) (cleared-subscribed id s t a)
      ];
    }

subscribe-Views :
    (t : Tables) (id : Text) (subject : Subject) (pid : Pid)
    → Agree t
    → registered_pid t id ≡ some pid
    → Views (subscribe t id subject) (registered_pid t) (λ i s.
      if (subject_eq subject s && text_eq id i) && not (is_some (subscribed_pid t id subject))
      then some pid
      else subscribed_pid t i s)
unfolding subscribe add_subscription rebuild_subject_pids
subscribe-Views t id subject pid a h =
    elim (Bool-cases (is_some (lookup2 id subject t.session_subjects))) [
      | inl old ↦
          rw (subscribe, h, old)
            record {
              sessions = λ i. refl;
              subscriptions = λ i s. ground (arith, a.same id subject, old);
            }
      | inr new ↦
          rw (subscribe, h, new)
            record {
              sessions = λ i. refl;
              subscriptions = λ i s. ground (
                arith,
                a.same id subject,
                new,
                lookup2-insert2 subject s id i pid t.subject_sessions,
              );
            }
    ]

unsubscribe-Views :
    (t : Tables) (id : Text) (subject : Subject)
    → Agree t
    → Views
        (unsubscribe t id subject)
        (registered_pid t)
        (λ i s. if subject_eq subject s && text_eq id i then none else subscribed_pid t i s)
unfolding unsubscribe
unsubscribe-Views t id subject a =
    let (pids, r, made, e) = removal_form id subject t a.cached in
    record {
      sessions = λ i. ap (λ (u : Tables). lookup i u.sessions) e;
      subscriptions = λ i s. remove_session_from_subject-subscribed id i subject s t a;
    }

-- For tables that agree: an unregistered session has neither a registration nor a subscription left,
-- a registered session that subscribes goes on to receive the subject at its PID unless it was
-- subscribed already, one that unsubscribes stops to receive that subject, and in each case no other
-- registration and no other subscription changes.
pub subscriptions_refine :
    (t : Tables) (id : Text) (subject : Subject) (pid : Pid)
    → Agree t
    → registered_pid t id ≡ some pid
    → Views
        (unregister t id)
        (λ i. if text_eq id i then none else registered_pid t i)
        (λ i s. if text_eq id i then none else subscribed_pid t i s)
      × Views (subscribe t id subject) (registered_pid t) (λ i s.
        if (subject_eq subject s && text_eq id i) && not (is_some (subscribed_pid t id subject))
        then some pid
        else subscribed_pid t i s)
      × Views
          (unsubscribe t id subject)
          (registered_pid t)
          (λ i s. if subject_eq subject s && text_eq id i then none else subscribed_pid t i s)
subscriptions_refine t id subject pid a h = (
  unregister-Views t id a,
  subscribe-Views t id subject pid a h,
  unsubscribe-Views t id subject a,
)
