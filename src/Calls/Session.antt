-- ===== src/Calls/Session.antt =====
-- The session pointer is never NULL where a method goes through it.
use ngh.Calls.Safety.Streams.{
  initiate_connection-IsSafe, send_request-IsSafe, send_response-IsSafe,
  send_informational_response-IsSafe, send_trailers-IsSafe, send_push_promise-IsSafe,
  send_data-IsSafe, end_stream-IsSafe, reset_stream-IsSafe,
}
use ngh.Calls.Safety.Controls.{
  update_settings-IsSafe, send_ping-IsSafe, send_goaway-IsSafe, send_shutdown_notice-IsSafe,
  terminate_connection-IsSafe, consume_received_data-IsSafe, set_local_window_size-IsSafe,
  send_priority_update-IsSafe, set_stream_priority-IsSafe, get_stream_priority-IsSafe,
  send_alt_svc-IsSafe, want_read-IsSafe, want_write-IsSafe, next_stream_id-IsSafe,
  can_send_request-IsSafe, remote_window_size-IsSafe, local_window_size-IsSafe,
  local_settings-IsSafe, remote_settings-IsSafe,
}
use ngh.Base.{true, is_some, List, [], ◌∷◌, ◌⊎◌, inl, inr, ◌≡◌, refl, arith}
use ngh.Values.{Value}
use ngh.Errors.{Result, ok, err}
use ngh.Engine.{Engine}
use ngh.Connection.{
  Connection, Action, created, Action, require_created, require_drivable, require_active,
}
use ngh.Calls.{Call, perform}
use ngh.Calls.Safety.{IsSafe, initialize-Safe, send_origins-Safe}
use ngh.Calls.Runs.{receive_data-Safe, data_to_send-Safe, initiate_upgrade-Safe}
use ngh.Transport.{take_events, data_to_send}
use ngh.Streams.{send_request, send_push_promise}
use ngh.Controls.{
  queued_body_size, send_priority_update, set_stream_priority, get_stream_priority, want_read,
  want_write, next_stream_id, can_send_request, remote_window_size, local_window_size,
  local_settings, remote_settings,
}

module _ {S : Type 0} where
  -- What a method returned is dropped.
  abbrev dropped : {A : Type 0} → Result A × Connection S → Result (Unit {0}) × Connection S
  dropped (r, d) = elim r [ ok a ↦ (ok tt, d) | err e ↦ (err e, d) ]

  done_with-IsSafe : {A : Type 0} (r : Result A × Connection S) → IsSafe r.1 → IsSafe (dropped r).1
  done_with-IsSafe (ok a, d) h = h
  done_with-IsSafe (err e, d) h = h

  queued_body_size-IsSafe :
      (stream : Value) (c : Connection S) → IsSafe c → IsSafe (queued_body_size stream c).1
  unfolding queued_body_size
  queued_body_size-IsSafe stream c h = ground arith

module _ {S : Type 0} (g : Engine S) where
  perform-IsSafe : (call : Call) (c : Connection S) → IsSafe c → IsSafe (perform g call c).1
  unfolding perform take_events
  perform-IsSafe (Call.initialize role config) c h = (initialize-Safe g role config).keeps c h
  perform-IsSafe (Call.initiate_connection settings) c h = initiate_connection-IsSafe g settings c h
  perform-IsSafe (Call.initiate_upgrade payload settings head) c h =
      (initiate_upgrade-Safe g payload settings head).keeps c h
  perform-IsSafe (Call.receive_data received) c h = (receive_data-Safe g received).keeps c h
  perform-IsSafe (Call.data_to_send amount) c h =
      done_with-IsSafe (data_to_send g amount c) ((data_to_send-Safe g amount).keeps c h)
  perform-IsSafe (Call.send_request headers ends) c h =
      done_with-IsSafe (send_request g headers ends c) (send_request-IsSafe g headers ends c h)
  perform-IsSafe (Call.send_response stream headers ends) c h =
      send_response-IsSafe g stream headers ends c h
  perform-IsSafe (Call.send_informational_response stream headers) c h =
      send_informational_response-IsSafe g stream headers c h
  perform-IsSafe (Call.send_trailers stream headers) c h = send_trailers-IsSafe g stream headers c h
  perform-IsSafe (Call.send_push_promise stream headers) c h =
      done_with-IsSafe (send_push_promise g stream headers c)
        (send_push_promise-IsSafe g stream headers c h)
  perform-IsSafe (Call.send_data stream body ends) c h = send_data-IsSafe g stream body ends c h
  perform-IsSafe (Call.end_stream stream) c h = end_stream-IsSafe g stream c h
  perform-IsSafe (Call.reset_stream stream code after) c h =
      reset_stream-IsSafe g stream code after c h
  perform-IsSafe (Call.update_settings settings) c h = update_settings-IsSafe g settings c h
  perform-IsSafe (Call.send_ping opaque_data) c h = send_ping-IsSafe g opaque_data c h
  perform-IsSafe (Call.send_goaway code last debug_data) c h =
      send_goaway-IsSafe g code last debug_data c h
  perform-IsSafe Call.send_shutdown_notice c h = send_shutdown_notice-IsSafe g c h
  perform-IsSafe (Call.terminate_connection code last) c h =
      terminate_connection-IsSafe g code last c h
  perform-IsSafe (Call.consume_received_data stream amount) c h =
      consume_received_data-IsSafe g stream amount c h
  perform-IsSafe (Call.set_local_window_size size stream) c h =
      set_local_window_size-IsSafe g size stream c h
  perform-IsSafe (Call.send_priority_update stream field) c h =
      done_with-IsSafe (send_priority_update g stream field c)
        (send_priority_update-IsSafe g stream field c h)
  perform-IsSafe (Call.set_stream_priority stream urgency ignore) c h =
      done_with-IsSafe (set_stream_priority g stream urgency ignore c)
        (set_stream_priority-IsSafe g stream urgency ignore c h)
  perform-IsSafe (Call.get_stream_priority stream) c h =
      done_with-IsSafe (get_stream_priority g stream c) (get_stream_priority-IsSafe g stream c h)
  perform-IsSafe (Call.send_alt_svc field stream origin) c h =
      send_alt_svc-IsSafe g field stream origin c h
  perform-IsSafe (Call.send_origins origins) c h = (send_origins-Safe g origins).keeps c h
  perform-IsSafe Call.want_read c h = done_with-IsSafe (want_read g c) (want_read-IsSafe g c h)
  perform-IsSafe Call.want_write c h = done_with-IsSafe (want_write g c) (want_write-IsSafe g c h)
  perform-IsSafe Call.next_stream_id c h =
      done_with-IsSafe (next_stream_id g c) (next_stream_id-IsSafe g c h)
  perform-IsSafe Call.can_send_request c h =
      done_with-IsSafe (can_send_request g c) (can_send_request-IsSafe g c h)
  perform-IsSafe (Call.remote_window_size stream) c h =
      done_with-IsSafe (remote_window_size g stream c) (remote_window_size-IsSafe g stream c h)
  perform-IsSafe (Call.local_window_size stream) c h =
      done_with-IsSafe (local_window_size g stream c) (local_window_size-IsSafe g stream c h)
  perform-IsSafe Call.local_settings c h =
      done_with-IsSafe (local_settings g c) (local_settings-IsSafe g c h)
  perform-IsSafe Call.remote_settings c h =
      done_with-IsSafe (remote_settings g c) (remote_settings-IsSafe g c h)
  perform-IsSafe Call.events c h = h
  perform-IsSafe (Call.queued_body_size stream) c h =
      done_with-IsSafe (queued_body_size stream c) (queued_body_size-IsSafe stream c h)

-- What a sequence of calls makes of a new connection.
abbrev pub performs : {S : Type 0} → Engine S → List Call → Connection S → Connection S
performs g [] c = c
performs g (call ∷ rest) c = performs g rest (perform g call c).1

performs-IsSafe :
    {S : Type 0} (g : Engine S) (sequence : List Call) (c : Connection S)
    → IsSafe c
    → IsSafe (performs g sequence c)
performs-IsSafe g [] c h = h
performs-IsSafe g (call ∷ rest) c h =
    performs-IsSafe g rest (perform g call c).1 (perform-IsSafe g call c h)

-- A guard lets a method through.
abbrev pub Passes : {S : Type 0} → Action S (Unit {0}) → Connection S → Type 0
Passes m c = m c ≡ (ok tt, c)

guards-IsSafe :
    {S : Type 0} (c : Connection S)
    → IsSafe c
    → Passes require_created c ⊎ (Passes require_drivable c ⊎ Passes require_active c)
    → is_some c.session ≡ true
unfolding require_created require_drivable require_active
guards-IsSafe c h (inl e) = ground arith
guards-IsSafe c h (inr (inl e)) = ground arith
guards-IsSafe c h (inr (inr e)) = ground arith

-- After any sequence of calls on a new connection, with any arguments and any engine, failed calls
-- included, the session pointer is not NULL whenever `_require_created`, `_require_drivable` or
-- `_require_active` lets a method through.
pub performs-session :
    {S : Type 0} (g : Engine S) (sequence : List Call)
    → let c = performs g sequence (created S) in
      Passes require_created c ⊎ (Passes require_drivable c ⊎ Passes require_active c)
      → is_some c.session ≡ true
performs-session {S = S} g sequence =
    guards-IsSafe (performs g sequence (created S))
      (performs-IsSafe g sequence (created S) (refl, refl))
