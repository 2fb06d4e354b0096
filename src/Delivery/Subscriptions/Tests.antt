-- ===== src/Delivery/Subscriptions/Tests.antt =====
-- The subscription tables with two sessions, and a session that registers again.
use stream_analytics.Base.{◌≡◌, refl, none, some, List, [], ◌∷◌, not, if◌then◌else◌, ◌&&◌}
use stream_analytics.Base.Int.{pos}
use stream_analytics.Base.Text.{Text, text, text_eq, text_key, is_empty}
use stream_analytics.Base.Assoc.{lookup, insert, remove}
use stream_analytics.Base.Nested.{
  is_some, is_nil, inner_of, lookup2, insert2, remove2, put_or_delete,
}
use stream_analytics.Delivery.Router.{Router}
use stream_analytics.Delivery.Subject.{Subject, subject_eq}
use stream_analytics.Delivery.Subscriptions.{
  Tables, Message, registers, subscribes, stopped, no_tables, receive, run, register, unregister,
  subscribe, unsubscribe, on_actor_stopped, is_at_limit, subject_key, rebuild_subject_pids,
  remove_session_from_subject, remove_all, forget_stream,
}
use stream_analytics.Delivery.Subscriptions.Removal.{Agree}
use stream_analytics.Delivery.Subscriptions.Agreement.{no_tables-Agree, run-Agree}
use stream_analytics.Delivery.Subscriptions.View.{
  Views, registered_pid, subscribed_pid, subscriptions_refine,
}

abbrev trades : Subject
trades = record {
  stream_type = text "marketdata.trade";
  kind = [];
  venue = text "binance";
  symbol = text "BTCUSDT";
  timeframe = text "raw";
}

abbrev no_streams : Router
no_streams = record { stream_state = []; stream_state_ttl = 60; max_stream_state_entries = 10 }

abbrev messages : List Message
messages =
    registers (text "a") (some (text "p"))
    ∷ registers (text "b") (some (text "q"))
    ∷ subscribes (text "a") trades
    ∷ subscribes (text "b") trades
    ∷ stopped (some (text "router")) (some (text "p"))
    ∷ []

run-Agree_example : Agree (run (no_tables no_streams (pos 2)) messages)
run-Agree_example =
    run-Agree (no_tables no_streams (pos 2)) messages (no_tables-Agree no_streams (pos 2))

targets_left :
    (run (no_tables no_streams (pos 2)) messages).subject_pids ≡ (trades, text "q" ∷ []) ∷ []
unfolding run receive no_tables register subscribe on_actor_stopped unregister remove_all text_eq
    is_empty remove_session_from_subject rebuild_subject_pids is_at_limit lookup insert remove
    lookup2 inner_of insert2 remove2 put_or_delete subject_eq is_some is_nil forget_stream
targets_left = refl

abbrev one_left : Tables
one_left = run (no_tables no_streams (pos 2)) messages

abbrev b : Text
b = text "b"

b_registered : registered_pid one_left b ≡ some (text "q")
unfolding run receive no_tables register subscribe on_actor_stopped unregister remove_all text_eq
    is_empty remove_session_from_subject rebuild_subject_pids is_at_limit lookup insert remove
    lookup2 inner_of insert2 remove2 put_or_delete subject_eq is_some is_nil forget_stream
b_registered = refl

subscriptions_refine_example :
    Views
      (unregister one_left b)
      (λ i. if text_eq b i then none else registered_pid one_left i)
      (λ i s. if text_eq b i then none else subscribed_pid one_left i s)
    × Views (subscribe one_left b trades) (registered_pid one_left) (λ i s.
      if (subject_eq trades s && text_eq b i) && not (is_some (subscribed_pid one_left b trades))
      then some (text "q")
      else subscribed_pid one_left i s)
    × Views
        (unsubscribe one_left b trades)
        (registered_pid one_left)
        (λ i s. if subject_eq trades s && text_eq b i then none else subscribed_pid one_left i s)
subscriptions_refine_example =
    subscriptions_refine one_left b trades (text "q")
      (run-Agree (no_tables no_streams (pos 2)) messages (no_tables-Agree no_streams (pos 2)))
      b_registered

-- A session that registers again with another PID stays in the fan-out list with the first.
targets_stale :
    (run (no_tables no_streams (pos 2)) (
      registers (text "a") (some (text "p"))
      ∷ subscribes (text "a") trades
      ∷ registers (text "a") (some (text "p2"))
      ∷ subscribes (text "a") trades
      ∷ [])).subject_pids
    ≡ (trades, text "p" ∷ []) ∷ []
unfolding run receive no_tables register subscribe text_eq is_empty rebuild_subject_pids is_at_limit
    lookup insert remove lookup2 inner_of insert2 put_or_delete subject_eq is_some is_nil
targets_stale = refl
