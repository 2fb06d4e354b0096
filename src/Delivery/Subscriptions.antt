-- ===== src/Delivery/Subscriptions.antt =====
-- The subscription tables of internal/actors/delivery/runtime/router.go (`RouterActor`) and their
-- handlers: registration, subscription, and the cleanup after a session. Maps are association
-- lists. A PID is its string, by which the actor engine compares PIDs; `none` is the nil PID. The PIDs
-- in the maps are never nil, since `register` refuses nil. Metrics and logs are left out.
pub mod Removal
pub mod Agreement
pub mod View
mod Tests
use stream_analytics.Base.{
  ℕ, Bool, true, false, not, ◌&&◌, ◌||◌, ◌≡◌, ◌↔◌, refl, subst, arith, List, [], ◌∷◌, Option, none,
  some, length, map, if◌then◌else◌,
}
use stream_analytics.Base.Int.{ℤ, pos, ltb_ℤ, leb_ℤ}
use stream_analytics.Base.Text.{Text, text, text_eq, text_eq_iff, text_key, is_empty}
use stream_analytics.Base.Assoc.{Key, lookup, insert, remove}
use stream_analytics.Base.Nested.{is_some, is_nil, inner_of, lookup2, insert2, remove2}
use stream_analytics.Delivery.Router.{Router}
use stream_analytics.Delivery.Subject.{Subject, subject_eq, string}

pub subject_eq_iff : (s t : Subject) → (subject_eq s t ≡ true) ↔ (s ≡ t)
unfolding subject_eq
subject_eq_iff s t = (
  λ h.
      let a = (text_eq_iff s.stream_type t.stream_type).0 (ground (arith, h)) in
      let b = (text_eq_iff s.kind t.kind).0 (ground (arith, h)) in
      let c = (text_eq_iff s.venue t.venue).0 (ground (arith, h)) in
      let d = (text_eq_iff s.symbol t.symbol).0 (ground (arith, h)) in
      let e = (text_eq_iff s.timeframe t.timeframe).0 (ground (arith, h)) in cc (a, b, c, d, e),
  λ e.
      subst (λ (u : Subject). subject_eq s u ≡ true) e
        (rw
          (
            (text_eq_iff s.stream_type s.stream_type).1 refl,
            (text_eq_iff s.kind s.kind).1 refl,
            (text_eq_iff s.venue s.venue).1 refl,
            (text_eq_iff s.symbol s.symbol).1 refl,
            (text_eq_iff s.timeframe s.timeframe).1 refl,
          )
          refl),
)

instance abbrev pub subject_key : Key Subject
subject_key = record { eq = subject_eq; eq_iff = subject_eq_iff }

abbrev pub Pid : Type 0
Pid = Text

-- The fields of `RouterActor` that its handlers use; `Router` holds the stream states.
pub record Tables : Type 0 where
  pub sessions : List (Text × Pid)
  pub session_by_pid : List (Pid × Text)
  pub session_subjects : List (Text × List (Subject × Unit {0}))
  pub subject_sessions : List (Subject × List (Text × Pid))
  pub subject_pids : List (Subject × List Pid)
  pub router : Router
  pub max_active_sessions : ℤ

-- The maps that `ensureDefaults` makes.
pub no_tables : Router → ℤ → Tables
no_tables r max_active_sessions = record {
  sessions = [];
  session_by_pid = [];
  session_subjects = [];
  subject_sessions = [];
  subject_pids = [];
  router = r;
  max_active_sessions = max_active_sessions;
}

-- Whether a new session is refused.
unfoldable pub is_at_limit : Tables → Bool
is_at_limit t =
    ltb_ℤ (pos 0) t.max_active_sessions && leb_ℤ t.max_active_sessions (pos (length t.sessions))

forget_pid : Text → Tables → List (Pid × Text)
forget_pid id t = elim (lookup id t.sessions) [
  | none ↦ t.session_by_pid
  | some previous ↦ remove previous t.session_by_pid
]

-- `m[id]` is made if it is not there.
pub make_entry :
    Text → List (Text × List (Subject × Unit {0})) → List (Text × List (Subject × Unit {0}))
make_entry id m = elim (lookup id m) [ none ↦ insert id [] m | some _ ↦ m ]

add_session : Tables → Text → Pid → Tables
unfolding forget_pid make_entry
add_session t id pid = record t {
  sessions = insert id pid t.sessions;
  session_by_pid = insert pid id (forget_pid id t);
  session_subjects = make_entry id t.session_subjects;
}

unfoldable pub register : Tables → Text → Option Pid → Tables
unfolding add_session
register t id none = t
register t id (some pid) =
    if is_empty id
    then t
    else if not (is_some (lookup id t.sessions)) && is_at_limit t
    then t
    else add_session t id pid

pub pids_of : List (Text × Pid) → List Pid
pids_of [] = []
pids_of ((id, pid) ∷ m) = pid ∷ pids_of m

unfoldable pub rebuild_subject_pids : Subject → Tables → Tables
unfolding pids_of
rebuild_subject_pids subject t =
    let inner = inner_of subject t.subject_sessions in
    record t {
      subject_pids =
          if is_nil inner
          then remove subject t.subject_pids
          else insert subject (pids_of inner) t.subject_pids;
    }

-- `delete(r.streamState, subject.String())`.
unfoldable pub forget_stream : Subject → Router → Router
forget_stream subject r = record r { stream_state = remove (string subject) r.stream_state }

-- What follows the deletion of a session from the sessions of a subject.
after_removal : Subject → Bool → Tables → Tables
after_removal subject true t = record t {
  subject_pids = remove subject t.subject_pids;
  router = forget_stream subject t.router;
}
after_removal subject false t = rebuild_subject_pids subject t

unfoldable pub remove_session_from_subject : Text → Subject → Tables → Tables
unfolding after_removal
remove_session_from_subject id subject t =
    let t' = record t {
      session_subjects = remove2 id subject t.session_subjects;
      subject_sessions = remove2 subject id t.subject_sessions;
    } in
    elim (lookup subject t.subject_sessions) [
      | none ↦ t'
      | some pids ↦ after_removal subject (is_nil (remove id pids)) t'
    ]

-- The loop over the subjects of a session.
unfoldable pub remove_all : Text → List (Subject × Unit {0}) → Tables → Tables
remove_all id [] t = t
remove_all id ((subject, _) ∷ subs) t =
    remove_all id subs (remove_session_from_subject id subject t)

unfoldable pub unregister : Tables → Text → Tables
unfolding forget_pid
unregister t id =
    let cleared = remove_all id (inner_of id t.session_subjects) t in
    record cleared {
      session_subjects = remove id cleared.session_subjects;
      session_by_pid = forget_pid id cleared;
      sessions = remove id cleared.sessions;
    }

add_subscription : Tables → Text → Subject → Pid → Tables
add_subscription t id subject pid = rebuild_subject_pids subject (record t {
  session_subjects = insert2 id subject tt t.session_subjects;
  subject_sessions = insert2 subject id pid t.subject_sessions;
})

unfoldable pub subscribe : Tables → Text → Subject → Tables
unfolding add_subscription make_entry
subscribe t id subject = elim (lookup id t.sessions) [
  | none ↦ t
  | some pid ↦
      if is_some (lookup2 id subject t.session_subjects)
      then record t { session_subjects = make_entry id t.session_subjects }
      else add_subscription t id subject pid
]

unfoldable pub unsubscribe : Tables → Text → Subject → Tables
unsubscribe t id subject = remove_session_from_subject id subject t

-- `onActorStopped`, given the router's own PID.
unfoldable pub on_actor_stopped : Option Pid → Tables → Option Pid → Tables
on_actor_stopped _ t none = t
on_actor_stopped none t (some pid) = t
on_actor_stopped (some self) t (some pid) =
    if text_eq pid self
    then t
    else elim (lookup pid t.session_by_pid) [ none ↦ t | some id ↦ unregister t id ]

-- The messages that these handlers take, and what the actor engine reports.
pub data Message : Type 0 where
  registers : Text → Option Pid → Message
  unregisters : Text → Message
  subscribes : Text → Subject → Message
  unsubscribes : Text → Subject → Message
  stopped : Option Pid → Option Pid → Message

-- The cases of `Receive` for them.
unfoldable pub receive : Tables → Message → Tables
receive t (registers id pid) = register t id pid
receive t (unregisters id) = unregister t id
receive t (subscribes id subject) = subscribe t id subject
receive t (unsubscribes id subject) = unsubscribe t id subject
receive t (stopped self pid) = on_actor_stopped self t pid

unfoldable pub run : Tables → List Message → Tables
run t [] = t
run t (m ∷ ms) = run (receive t m) ms
