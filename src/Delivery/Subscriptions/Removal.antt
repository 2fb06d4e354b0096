-- ===== src/Delivery/Subscriptions/Removal.antt =====
-- What the tables agree on, and the removal of subscriptions.
use stream_analytics.Base.{
  ◌≡◌, refl, sym, ap, subst, ◌∙◌, Bool, true, false, ◌&&◌, List, [], ◌∷◌, none, some, arith, length,
  if◌then◌else◌, Bool-cases, Option-cases, inl, inr,
}
use stream_analytics.Base.Int.{pos, ◌<ℤ◌, ◌≤ℤ◌}
use stream_analytics.Base.Text.{Text, text_key, text_eq, text_eq_iff}
use stream_analytics.Base.Assoc.{lookup, insert, remove, lookup-insert, lookup-remove}
use stream_analytics.Base.Nested.{
  is_some, is_nil, inner_of, lookup2, remove2, lookup2-remove2, inner_of-remove2, inner_of_there,
  remove2_missing, NoEmpty, NoEmpty-remove2,
}
use stream_analytics.Delivery.Router.{Router}
use stream_analytics.Delivery.Subject.{Subject, subject_eq}
use stream_analytics.Delivery.Subscriptions.{
  Tables, Pid, subject_key, subject_eq_iff, pids_of, rebuild_subject_pids,
  remove_session_from_subject, remove_all, after_removal, forget_stream,
}

-- The fan-out lists are what `rebuildSubjectPIDs` makes.
abbrev pub Cached : List (Subject × List (Text × Pid)) → List (Subject × List Pid) → Type 0
Cached m pids =
    (subject : Subject)
    → lookup subject pids
      ≡ (if is_nil (inner_of subject m) then none else some (pids_of (inner_of subject m)))

pub record Agree (t : Tables) : Type 0 where
  -- The two subscription indices hold the same subscriptions.
  pub same :
      (id : Text) (subject : Subject)
      → is_some (lookup2 id subject t.session_subjects)
        ≡ is_some (lookup2 subject id t.subject_sessions)
  pub cached : Cached t.subject_sessions t.subject_pids
  -- A subject without sessions has no entry.
  pub tidy : NoEmpty t.subject_sessions
  -- Only registered sessions are subscribed.
  pub registered :
      (id : Text) (subject : Subject)
      → is_some (lookup2 id subject t.session_subjects) ≡ true
      → is_some (lookup id t.sessions) ≡ true
  pub bounded : pos 0 <ℤ t.max_active_sessions → pos (length t.sessions) ≤ℤ t.max_active_sessions

pub rebuild-Cached :
    (subject : Subject) (m m' : List (Subject × List (Text × Pid)))
    (pids : List (Subject × List Pid))
    → ((s : Subject) → subject_eq subject s ≡ false → inner_of s m' ≡ inner_of s m)
    → Cached m pids
    → Cached m' (
        if is_nil (inner_of subject m')
        then remove subject pids
        else insert subject (pids_of (inner_of subject m')) pids)
rebuild-Cached subject m m' pids other c s = elim (Bool-cases (subject_eq subject s)) [
  | inr e ↦ rw (other s e) (elim (Bool-cases (is_nil (inner_of subject m'))) [
    | inl n ↦ rw (n, lookup-remove subject s pids, e) (c s)
    | inr n ↦ rw (n, lookup-insert subject s (pids_of (inner_of subject m')) pids, e) (c s)
  ])
  | inl e ↦
      rw (sym ((subject_eq_iff subject s).0 e)) (elim (Bool-cases (is_nil (inner_of subject m'))) [
        | inl n ↦
            rw (n, lookup-remove subject subject pids, (subject_eq_iff subject subject).1 refl) refl
        | inr n ↦
            rw
              (
                n,
                lookup-insert subject subject (pids_of (inner_of subject m')) pids,
                (subject_eq_iff subject subject).1 refl,
              )
              refl
      ])
]

-- The tables after the removal of a subscription.
abbrev pub removed : Text → Subject → Tables → List (Subject × List Pid) → Router → Tables
removed id subject t pids r = record t {
  session_subjects = remove2 id subject t.session_subjects;
  subject_sessions = remove2 subject id t.subject_sessions;
  subject_pids = pids;
  router = r;
}

removal-Cached :
    (id : Text) (subject : Subject) (t : Tables)
    → Cached t.subject_sessions t.subject_pids
    → Cached
        (remove2 subject id t.subject_sessions)
        (rebuild_subject_pids subject (removed id subject t t.subject_pids t.router)).subject_pids
unfolding rebuild_subject_pids
removal-Cached id subject t c =
    rebuild-Cached subject t.subject_sessions (remove2 subject id t.subject_sessions) t.subject_pids
      (λ s d. rw (inner_of-remove2 subject s id t.subject_sessions, d) refl) c

after_removal_form :
    (id : Text) (subject : Subject) (t : Tables) (b : Bool)
    → is_nil (inner_of subject (remove2 subject id t.subject_sessions)) ≡ b
    → Cached t.subject_sessions t.subject_pids
    → (pids : List (Subject × List Pid)) × (r : Router) × Cached
        (remove2 subject id t.subject_sessions)
        pids
      × (after_removal subject b (removed id subject t t.subject_pids t.router)
          ≡ removed id subject t pids r)
unfolding after_removal rebuild_subject_pids
after_removal_form id subject t true e c = (
  remove subject t.subject_pids,
  forget_stream subject t.router,
  subst (Cached (remove2 subject id t.subject_sessions)) (rw e refl)
      (removal-Cached id subject t c),
  refl,
)
after_removal_form id subject t false e c = (_, t.router, removal-Cached id subject t c, refl)

pub removal_form :
    (id : Text) (subject : Subject) (t : Tables)
    → Cached t.subject_sessions t.subject_pids
    → (pids : List (Subject × List Pid)) × (r : Router) × Cached
        (remove2 subject id t.subject_sessions)
        pids
      × (remove_session_from_subject id subject t ≡ removed id subject t pids r)
unfolding remove_session_from_subject
removal_form id subject t c = elim (Option-cases (lookup subject t.subject_sessions)) [
  | inl absent ↦ (
    t.subject_pids,
    t.router,
    subst (λ (m : List (Subject × List (Text × Pid))). Cached m t.subject_pids)
        (sym (remove2_missing subject id t.subject_sessions absent)) c,
    rw (remove_session_from_subject, absent) refl,
  )
  | inr (inner, there) ↦
      let left : inner_of subject (remove2 subject id t.subject_sessions) ≡ remove id inner =
        rw
          (
            inner_of-remove2 subject subject id t.subject_sessions,
            (subject_eq_iff subject subject).1 refl,
            inner_of_there subject t.subject_sessions inner there,
          )
          refl in
      let (pids, r, made, e) =
        after_removal_form id subject t (is_nil (remove id inner)) (ap is_nil left) c in
      (pids, r, made, rw (remove_session_from_subject, there) e)
]

removed-Agree :
    (id : Text) (subject : Subject) (t : Tables) (pids : List (Subject × List Pid)) (r : Router)
    → Cached (remove2 subject id t.subject_sessions) pids
    → Agree t
    → Agree (removed id subject t pids r)
removed-Agree id subject t pids r c a = record {
  same = λ i s.
      rw
        (
          lookup2-remove2 id i subject s t.session_subjects,
          lookup2-remove2 subject s id i t.subject_sessions,
        )
        (unfold is_some in ground (arith, a.same i s));
  cached = c;
  tidy = NoEmpty-remove2 subject id t.subject_sessions a.tidy;
  registered = λ i s h.
      a.registered i s
        (unfold is_some in ground (arith, h, lookup2-remove2 id i subject s t.session_subjects));
  bounded = a.bounded;
}

pub remove_session_from_subject-Agree :
    (id : Text) (subject : Subject) (t : Tables)
    → Agree t
    → Agree (remove_session_from_subject id subject t)
remove_session_from_subject-Agree id subject t a =
    let (pids, r, c, e) = removal_form id subject t a.cached in
    subst Agree (sym e) (removed-Agree id subject t pids r c a)

pub remove_all-Agree :
    (id : Text) (subs : List (Subject × Unit {0})) (t : Tables)
    → Agree t
    → Agree (remove_all id subs t)
unfolding remove_all
remove_all-Agree id [] t a = a
remove_all-Agree id ((subject, _) ∷ subs) t a =
    remove_all-Agree id subs _ (remove_session_from_subject-Agree id subject t a)

pub remove_session_from_subject-view :
    (id i : Text) (subject s : Subject) (t : Tables)
    → Cached t.subject_sessions t.subject_pids
    → lookup2 i s (remove_session_from_subject id subject t).session_subjects
      ≡ (if text_eq id i && subject_eq subject s then none else lookup2 i s t.session_subjects)
remove_session_from_subject-view id i subject s t c =
    let (pids, r, made, e) = removal_form id subject t c in
    ap (λ (u : Tables). lookup2 i s u.session_subjects) e
    ∙ lookup2-remove2 id i subject s t.session_subjects

pub remove_all-sessions :
    (id : Text) (subs : List (Subject × Unit {0})) (t : Tables)
    → Cached t.subject_sessions t.subject_pids
    → ((remove_all id subs t).sessions ≡ t.sessions)
      × ((remove_all id subs t).max_active_sessions ≡ t.max_active_sessions)
unfolding remove_all
remove_all-sessions id [] t c = (refl, refl)
remove_all-sessions id ((subject, _) ∷ subs) t c =
    let (pids, r, made, e) = removal_form id subject t c in
    rw (remove_all, e) (remove_all-sessions id subs (removed id subject t pids r) made)

-- The loop over the subjects of a session leaves it without any.
pub remove_all-view :
    (id i : Text) (s : Subject) (subs : List (Subject × Unit {0})) (t : Tables)
    → Agree t
    → lookup2 i s (remove_all id subs t).session_subjects
      ≡ (if text_eq id i && is_some (lookup s subs) then none else lookup2 i s t.session_subjects)
unfolding remove_all lookup is_some
remove_all-view id i s [] t a = ground arith
remove_all-view id i s ((subject, _) ∷ subs) t a =
    let a' = remove_session_from_subject-Agree id subject t a in
    ground (
      arith,
      remove_all-view id i s subs (remove_session_from_subject id subject t) a',
      remove_session_from_subject-view id i subject s t a.cached,
    )

pub cleared-none :
    (id : Text) (s : Subject) (t : Tables)
    → Agree t
    → lookup2 id s (remove_all id (inner_of id t.session_subjects) t).session_subjects ≡ none
unfolding lookup2 is_some
cleared-none id s t a = ground (
  arith,
  remove_all-view id id s (inner_of id t.session_subjects) t a,
  (text_eq_iff id id).1 refl,
)
