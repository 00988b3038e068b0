-- ===== src/Bodies/Sequences.antt =====
-- The bodies after any sequence of calls.
use ngh.Base.{refl, true, List, [], ◌∷◌, ◌≡◌, sym, subst, arith}
use ngh.Values.{Value, bytes}
use ngh.Errors.{Result, ok, err}
use ngh.Config.{Role, Configuration}
use ngh.Engine.{Engine}
use ngh.Connection.{Connection, created}
use ngh.Setup.{Argument, initialize}
use ngh.Transport.{data_to_send, take_events}
use ngh.Streams.{send_request, end_stream}
use ngh.Controls.{queued_body_size}
use ngh.Calls.{Call, perform}
use ngh.Calls.Session.{performs}
use ngh.Calls.Cases.{dropped, perform-Calm}
use ngh.Bodies.Ledger.{Accounted}
use ngh.Bodies.Steady.{Steady, Steady-self, Steady-Accounted, Calm-Accounted}
use ngh.Bodies.Transfers.{receive_data-Tracks, data_to_send-Tracks, initiate_upgrade-Tracks}
use ngh.Bodies.Sends.{send_data-Accounted, send_trailers-Accounted}
use ngh.Bodies.Opens.{
  Fresh, send_request-Accounted, send_response-Accounted, initialize-done, initialize-Accounted,
}

module _ {S : Type 0} where
  dropped-Accounted :
      {A : Type 0} (r : Result A × Connection S) → Accounted r.1 → Accounted (dropped r).1
  dropped-Accounted (ok a, d) h = h
  dropped-Accounted (err e, d) h = h

  queued_body_size-Steady :
      (stream : Value) (c : Connection S) → Steady c (queued_body_size stream c).1
  unfolding queued_body_size
  queued_body_size-Steady stream c = ground arith

  queued_body_size-Accounted :
      (stream : Value) (c : Connection S) → Accounted c → Accounted (queued_body_size stream c).1
  queued_body_size-Accounted stream c a =
      Steady-Accounted c (queued_body_size stream c).1 a (queued_body_size-Steady stream c)

module _ {S : Type 0} (g : Engine S) where
  abbrev FreshCall : Call → Connection S → Type 0
  FreshCall (Call.send_request headers ends) c = Fresh g headers ends c
  FreshCall _ c = Unit

  -- Every request of the sequence gets a stream that has no body yet: libnghttp2 never hands out an
  -- identifier twice.
  abbrev pub FreshRequests : List Call → Connection S → Type 0
  FreshRequests [] c = Unit
  FreshRequests (call ∷ rest) c = FreshCall call c × FreshRequests rest (perform g call c).1

  perform-Accounted :
      (call : Call) (c : Connection S)
      → Accounted c
      → FreshCall call c
      → Accounted (perform g call c).1
  unfolding perform take_events end_stream
  perform-Accounted (Call.initialize role config) c a h =
      subst Accounted (sym (initialize-done g role config c a.ready)) a
  perform-Accounted (Call.initiate_upgrade payload settings head) c a h =
      (initiate_upgrade-Tracks g payload settings head).keeps c a
  perform-Accounted (Call.receive_data received) c a h = (receive_data-Tracks g received).keeps c a
  perform-Accounted (Call.data_to_send amount) c a h =
      dropped-Accounted (data_to_send g amount c) ((data_to_send-Tracks g amount).keeps c a)
  perform-Accounted (Call.send_request headers ends) c a h =
      dropped-Accounted (send_request g headers ends c)
        (send_request-Accounted g headers ends c a h)
  perform-Accounted (Call.send_response stream headers ends) c a h =
      send_response-Accounted g stream headers ends c a
  perform-Accounted (Call.send_trailers stream headers) c a h =
      send_trailers-Accounted g stream headers c a
  perform-Accounted (Call.send_data stream body ends) c a h =
      send_data-Accounted g stream body ends c a
  perform-Accounted (Call.end_stream stream) c a h =
      send_data-Accounted g stream (bytes true []) true c a
  perform-Accounted Call.events c a h =
      Steady-Accounted c (record c { events = [] }) a (Steady-self c)
  perform-Accounted (Call.queued_body_size stream) c a h =
      dropped-Accounted (queued_body_size stream c) (queued_body_size-Accounted stream c a)
  perform-Accounted call c a h =
      Calm-Accounted c (perform g call c).1 a (perform-Calm g call refl c)

  sequence-Accounted :
      (sequence : List Call) (c : Connection S)
      → Accounted c
      → FreshRequests sequence c
      → Accounted (performs g sequence c)
  sequence-Accounted [] c a h = a
  sequence-Accounted (call ∷ rest) c a h =
      sequence-Accounted rest (perform g call c).1 (perform-Accounted call c a h.0) h.1

-- After an `__init__` that completes and any sequence of calls, failed calls included, whatever the engine calls back,
-- provided it never hands a request a stream identifier that a body still has: each stream has at
-- most one body, each body's queue is in order with its `queued_size` right, `_queued_body_size` is
-- the number of bytes pending on all streams, in a word, and on a server every body belongs to a
-- pending response.
pub performs-Accounted :
    {S : Type 0} (g : Engine S) (role : Argument Role) (config : Argument Configuration)
    (sequence : List Call)
    → (initialize g role config (created S)).1.initialized ≡ true
    → FreshRequests g sequence (initialize g role config (created S)).1
    → Accounted (performs g sequence (initialize g role config (created S)).1)
performs-Accounted {S = S} g role config sequence h f =
    sequence-Accounted g sequence (initialize g role config (created S)).1
      (initialize-Accounted g role config h) f
