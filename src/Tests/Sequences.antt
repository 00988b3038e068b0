-- ===== src/Tests/Sequences.antt =====
-- Sequences of calls.
use ngh.Base.{ℕ, true, false, List, [], ◌∷◌, ◌≡◌, refl, inr, is_some}
use ngh.Values.{none_value, bytes, sequence, list_kind, nil}
use ngh.Config.{client, natural}
use ngh.Connection.{Connection, created, require_active}
use ngh.Setup.{initialize, initiate_connection, given, missing}
use ngh.Calls.{Call, perform}
use ngh.Calls.Failed.{Refuses}
use ngh.Calls.Failure.{failed-Refuses}
use ngh.Calls.Session.{Passes, performs, performs-session}
use ngh.Tests.{counting_engine, outcome}
use ngh.Engine.{Engine, Callback, calls, finished}
use ngh.Bodies.Ledger.{Accounted}
use ngh.Bodies.Sequences.{FreshRequests, performs-Accounted}
use ngh.Streams.{send_request, send_data}
use ngh.Transport.{data_to_send}
use ngh.Output.{read_body}

abbrev failed : Connection ℕ
failed = record (created ℕ) { initialized = true; failed = true }

failed-Refuses_example :
    Refuses failed
      (perform counting_engine (Call.send_data (natural 1) (bytes true []) true) failed)
failed-Refuses_example =
    failed-Refuses counting_engine (Call.send_data (natural 1) (bytes true []) true) failed
      (refl, refl) refl

abbrev start : List Call
start = Call.initialize (given client) missing ∷ Call.initiate_connection none_value ∷ []

started : Passes require_active (performs counting_engine start (created ℕ))
unfolding perform initialize initiate_connection require_active
started = refl

performs-session_example : is_some (performs counting_engine start (created ℕ)).session ≡ true
performs-session_example = performs-session counting_engine start (inr (inr started))

-- The engine asks for one byte of the body of stream 1 whenever it sends.
abbrev reading_engine : Engine ℕ
reading_engine = record counting_engine {
  send = λ s. calls (Callback.read_body 1 1) s λ r t. finished (outcome r.status) t;
}

abbrev uploads : List Call
uploads =
    Call.initiate_connection none_value
    ∷ Call.send_request (sequence list_kind nil) false
    ∷ Call.send_data (natural 1) (bytes true (7 ∷ 8 ∷ [])) false
    ∷ Call.data_to_send (natural 5)
    ∷ []

uploading : Connection ℕ
uploading = (initialize reading_engine (given client) missing (created ℕ)).1

uploading-initialized : uploading.initialized ≡ true
unfolding uploading initialize
uploading-initialized = refl

uploads-Fresh : FreshRequests reading_engine uploads uploading
unfolding uploading initialize perform initiate_connection
uploads-Fresh = (tt, ((λ n e. refl), (tt, (tt, tt))))

performs-Accounted_example : Accounted (performs reading_engine uploads uploading)
unfolding uploading
performs-Accounted_example =
    performs-Accounted reading_engine (given client) missing uploads uploading-initialized
      uploads-Fresh

-- The first byte was copied, since the limit has no room for a whole frame; the second is queued.
queued_after : (performs reading_engine uploads uploading).queued_body_size ≡ 1
unfolding uploading initialize perform initiate_connection send_request send_data data_to_send
    read_body
queued_after = refl
