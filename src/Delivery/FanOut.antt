-- ===== src/Delivery/FanOut.antt =====
-- `handleEnvelope` of internal/actors/delivery/runtime/router.go. The readings of the clock are
-- arguments, tracing, metrics and logs are left out. `token` is as in Delivery/Router.
pub mod Once
mod Tests
use stream_analytics.Base.{
  ℕ, zero, suc, ◌+◌, Bool, true, false, not, ◌&&◌, ◌||◌, List, [], ◌∷◌, ◌++◌, Option, none, some,
  length, ltb, if◌then◌else◌,
}
use stream_analytics.Base.Int.{ℤ, pos, eq_ℤ}
use stream_analytics.Base.Text.{
  Text, text, text_eq, text_key, trim_space, to_lower, to_upper, is_empty, has_prefix, contains,
}
use stream_analytics.Base.Assoc.{Key, lookup, insert}
use stream_analytics.Base.Nested.{is_some, is_nil}
use stream_analytics.Envelope.{
  Result, ok, err, Problem, validation_failed, refuse_if, ◌>>=◌, ◌>>◌, Envelope,
}
use stream_analytics.Delivery.Router.{Router, accept_stream_seq, next_delivery_seq}
use stream_analytics.Delivery.Subject.{
  Subject, subject_eq, string, is_signal, new_subject, new_signal_subject, subject_from_envelope,
  meta_at, lower_trim, default_timeframe,
}
use stream_analytics.Delivery.Subscriptions.{Tables, Pid, subject_key}
use stream_analytics.Delivery.Routing.{
  validate_envelope_for_delivery, routing_timeframe_for_envelope, routing_market_type_alias_subject,
  wildcard_subject,
}

-- A `DeliveryEvent` handed to the engine for a session.
pub record Sent : Type 0 where
  pub pid : Pid
  pub subject : Subject
  pub env : Envelope

-- The variables of the three loops: `seen` is the set `sent`.
pub record Sending : Type 0 where
  pub router : Router
  pub seen : List (Pid × Unit {0})
  pub sent : List Sent

pub mark : Bool → Pid → List (Pid × Unit {0}) → List (Pid × Unit {0})
mark track pid seen = if track then insert pid tt seen else seen

-- The loop over `targets`.
unfoldable pub send_all : Bool → Subject → Envelope → List Pid → Sending → Sending
unfolding mark
send_all track subject env [] f = f
send_all track subject env (pid ∷ pids) f = send_all track subject env pids (record f {
  seen = mark track pid f.seen;
  sent = f.sent ++ record { pid = pid; subject = subject; env = env } ∷ [];
})

-- The number of the subject, which the first send of a loop takes from the stream.
unfoldable pub number : ℕ → Subject → Option ℤ → Router → Router × ℤ
number now subject (some seq) r = (r, seq)
number now subject none r = next_delivery_seq r now (string subject)

-- A PID that has its event already.
unfoldable pub is_served : Bool → Pid → List (Pid × Unit {0}) → Bool
is_served track pid seen = track && is_some (lookup pid seen)

unfoldable pub send_to : Bool → Subject → Envelope → Pid → Router × ℤ → Sending → Sending
unfolding mark
send_to track subject env pid (r, seq) f = record {
  router = r;
  seen = mark track pid f.seen;
  sent = f.sent ++ record { pid = pid; subject = subject; env = record env { seq = seq } } ∷ [];
}

-- The loop over `aliasTargets`, and the one over `wildcardTargets`.
unfoldable pub send_rest : Bool → ℕ → Subject → Envelope → List Pid → Option ℤ → Sending → Sending
send_rest track now subject env [] assigned f = f
send_rest track now subject env (pid ∷ pids) assigned f =
    let numbered = number now subject assigned f.router in
    let skip = is_served track pid f.seen in
    send_rest track now subject env pids (if skip then assigned else some numbered.1)
      (if skip then f else send_to track subject env pid numbered f)

-- `r.subjectPIDs[subject]`, nil where it is missing.
unfoldable pub targets_of : Tables → Subject → List Pid
targets_of t subject = elim (lookup subject t.subject_pids) [ none ↦ [] | some pids ↦ pids ]

-- The targets of a subject that may not be there.
unfoldable pub targets_at : Tables → Option Subject → List Pid
targets_at t none = []
targets_at t (some subject) = targets_of t subject

-- `Subject{}`.
abbrev pub no_subject : Subject
no_subject = record { stream_type = []; kind = []; venue = []; symbol = []; timeframe = [] }

unfoldable pub subject_or_none : Option Subject → Subject
subject_or_none none = no_subject
subject_or_none (some subject) = subject

-- `acceptStreamSeq`, where the subject has targets.
unfoldable pub admit :
    (Text → Text) → ℕ → ℕ → Envelope → Subject → List Pid → Router → Router × Bool
admit token now sweep_now env subject pids r =
    let (r', passed, reason) = accept_stream_seq token r now sweep_now (string subject) env in
    if is_nil pids then (r, true) else (r', passed)

-- The three admissions, which stop at the first that is refused.
unfoldable pub admit_next :
    (Text → Text) → ℕ → ℕ → Envelope → Subject → List Pid → Router × Bool → Router × Bool
admit_next token now sweep_now env subject pids (r, false) = (r, false)
admit_next token now sweep_now env subject pids (r, true) =
    admit token now sweep_now env subject pids r

-- Where an envelope goes.
pub record Route : Type 0 where
  pub subject : Subject
  pub alias : Option Subject
  pub wildcard : Option Subject

unfoldable pub route : Subject → Envelope → Route
route subject env = record {
  subject = subject;
  alias = routing_market_type_alias_subject subject env;
  wildcard = wildcard_subject subject;
}

unfoldable pub admit_all : (Text → Text) → (ℕ → ℕ) → Tables → Route → Envelope → Router × Bool
admit_all token clock t w env =
    admit_next token (clock 4) (clock 5) env (subject_or_none w.wildcard) (targets_at t w.wildcard)
      (admit_next token (clock 2) (clock 3) env (subject_or_none w.alias) (targets_at t w.alias)
        (admit token (clock 0) (clock 1) env w.subject (targets_of t w.subject) t.router))

-- The three loops.
unfoldable pub dispatch : (ℕ → ℕ) → Tables → Route → Envelope → Router → Sending
dispatch clock t w env r =
    let targets = targets_of t w.subject in
    let alias_targets = targets_at t w.alias in
    let wildcard_targets = targets_at t w.wildcard in
    let track = ltb 1 (length targets + length alias_targets + length wildcard_targets) in
    let (r', seq) = next_delivery_seq r (clock 6) (string w.subject) in
    let first =
      send_all track w.subject (record env { seq = seq }) targets
        (record { router = r'; seen = []; sent = [] }) in
    let second = send_rest track (clock 7) (subject_or_none w.alias) env alias_targets none first in
    send_rest track (clock 8) (subject_or_none w.wildcard) env wildcard_targets none second

-- The handler's effects: the tables, the events sent, and the envelopes given to the store.
pub record Outcome : Type 0 where
  pub tables : Tables
  pub sent : List Sent
  pub stored : List Envelope

unfoldable pub deliver :
    (ℕ → ℕ) → Tables → Route → Envelope → List Envelope → Router × Bool → Outcome
deliver clock t w env stored (r, false) = record {
  tables = record t { router = r };
  sent = [];
  stored = stored;
}
deliver clock t w env stored (r, true) =
    let f = dispatch clock t w env r in
    record { tables = record t { router = f.router }; sent = f.sent; stored = stored }

unfoldable pub no_targets : Tables → Route → Bool
no_targets t w =
    is_nil (targets_of t w.subject)
    && (is_nil (targets_at t w.alias) && is_nil (targets_at t w.wildcard))

-- What follows the subject of the envelope.
unfoldable pub handle_subject :
    (Text → Text) → (ℕ → ℕ) → Tables → Envelope → List Envelope → Result Subject → Outcome
handle_subject token clock t env stored (err p) = record { tables = t; sent = []; stored = stored }
handle_subject token clock t env stored (ok subject) =
    let w = route subject env in
    if no_targets t w
    then record { tables = t; sent = []; stored = stored }
    else deliver clock t w env stored (admit_all token clock t w env)

-- What follows the contract check, with whether there is an envelope store.
unfoldable pub handle_valid :
    (Text → Text) → (ℕ → ℕ) → Text → Bool → Tables → Envelope → Result (Unit {0}) → Outcome
handle_valid token clock timeframe has_store t env (err p) = record {
  tables = t;
  sent = [];
  stored = [];
}
handle_valid token clock timeframe has_store t env (ok _) =
    handle_subject token clock t env (if has_store then env ∷ [] else [])
      (subject_from_envelope env (routing_timeframe_for_envelope timeframe env))

unfoldable pub handle_envelope :
    (Text → Text) → (ℕ → ℕ) → Text → Bool → Bool → Tables → Envelope → Outcome
handle_envelope token clock timeframe has_store stopped t env =
    if stopped
    then record { tables = t; sent = []; stored = [] }
    else handle_valid token clock timeframe has_store t env (validate_envelope_for_delivery env)
