-- ===== src/Calls/Cases.antt =====
-- The calls that neither open nor fill a body, nor publish an event.
use ngh.Base.{false≢true, Bool, true, false, ◌≡◌}
use ngh.Errors.{Result, ok, err}
use ngh.Engine.{Engine}
use ngh.Connection.{Connection}
use ngh.Streams.{send_push_promise}
use ngh.Controls.{
  send_priority_update, set_stream_priority, get_stream_priority, want_read, want_write,
  next_stream_id, can_send_request, remote_window_size, local_window_size, local_settings,
  remote_settings,
}
use ngh.Calls.{Call, perform}
use ngh.Calls.Calm.{
  Calm, initiate_connection-Calm, send_informational_response-Calm, send_push_promise-Calm,
  reset_stream-Calm, update_settings-Calm, send_ping-Calm, send_goaway-Calm,
  send_shutdown_notice-Calm, terminate_connection-Calm, consume_received_data-Calm,
  send_priority_update-Calm, set_stream_priority-Calm, get_stream_priority-Calm, send_alt_svc-Calm,
  want_read-Calm, want_write-Calm, next_stream_id-Calm, can_send_request-Calm,
  remote_window_size-Calm, local_window_size-Calm, local_settings-Calm, remote_settings-Calm,
  set_local_window_size-Calm, send_origins-Calm,
}

abbrev pub is_calm : Call → Bool
is_calm (Call.initialize role config) = false
is_calm (Call.initiate_upgrade payload settings head) = false
is_calm (Call.receive_data received) = false
is_calm (Call.data_to_send amount) = false
is_calm (Call.send_request headers ends) = false
is_calm (Call.send_response stream headers ends) = false
is_calm (Call.send_trailers stream headers) = false
is_calm (Call.send_data stream body ends) = false
is_calm (Call.end_stream stream) = false
is_calm Call.events = false
is_calm (Call.queued_body_size stream) = false
is_calm _ = true

module _ {S : Type 0} where
  -- What a method returned is dropped.
  abbrev pub dropped : {A : Type 0} → Result A × Connection S → Result (Unit {0}) × Connection S
  dropped (r, d) = elim r [ ok a ↦ (ok tt, d) | err e ↦ (err e, d) ]

  dropped-Calm :
      {A : Type 0} (c : Connection S) (r : Result A × Connection S)
      → Calm c r.1
      → Calm c (dropped r).1
  dropped-Calm c (ok a, d) h = h
  dropped-Calm c (err e, d) h = h

module _ {S : Type 0} (g : Engine S) where
  pub perform-Calm :
      (call : Call) → is_calm call ≡ true → (c : Connection S) → Calm c (perform g call c).1
  unfolding perform
  perform-Calm (Call.initiate_connection settings) e c = initiate_connection-Calm g settings c
  perform-Calm (Call.send_informational_response stream headers) e c =
      send_informational_response-Calm g stream headers c
  perform-Calm (Call.send_push_promise stream headers) e c =
      dropped-Calm c (send_push_promise g stream headers c)
        (send_push_promise-Calm g stream headers c)
  perform-Calm (Call.reset_stream stream code after) e c = reset_stream-Calm g stream code after c
  perform-Calm (Call.update_settings settings) e c = update_settings-Calm g settings c
  perform-Calm (Call.send_ping opaque_data) e c = send_ping-Calm g opaque_data c
  perform-Calm (Call.send_goaway code last debug_data) e c =
      send_goaway-Calm g code last debug_data c
  perform-Calm Call.send_shutdown_notice e c = send_shutdown_notice-Calm g c
  perform-Calm (Call.terminate_connection code last) e c = terminate_connection-Calm g code last c
  perform-Calm (Call.consume_received_data stream amount) e c =
      consume_received_data-Calm g stream amount c
  perform-Calm (Call.set_local_window_size size stream) e c =
      set_local_window_size-Calm g size stream c
  perform-Calm (Call.send_priority_update stream field) e c =
      dropped-Calm c (send_priority_update g stream field c)
        (send_priority_update-Calm g stream field c)
  perform-Calm (Call.set_stream_priority stream urgency ignore) e c =
      dropped-Calm c (set_stream_priority g stream urgency ignore c)
        (set_stream_priority-Calm g stream urgency ignore c)
  perform-Calm (Call.get_stream_priority stream) e c =
      dropped-Calm c (get_stream_priority g stream c) (get_stream_priority-Calm g stream c)
  perform-Calm (Call.send_alt_svc field stream origin) e c =
      send_alt_svc-Calm g field stream origin c
  perform-Calm (Call.send_origins origins) e c = send_origins-Calm g origins c
  perform-Calm Call.want_read e c = dropped-Calm c (want_read g c) (want_read-Calm g c)
  perform-Calm Call.want_write e c = dropped-Calm c (want_write g c) (want_write-Calm g c)
  perform-Calm Call.next_stream_id e c =
      dropped-Calm c (next_stream_id g c) (next_stream_id-Calm g c)
  perform-Calm Call.can_send_request e c =
      dropped-Calm c (can_send_request g c) (can_send_request-Calm g c)
  perform-Calm (Call.remote_window_size stream) e c =
      dropped-Calm c (remote_window_size g stream c) (remote_window_size-Calm g stream c)
  perform-Calm (Call.local_window_size stream) e c =
      dropped-Calm c (local_window_size g stream c) (local_window_size-Calm g stream c)
  perform-Calm Call.local_settings e c =
      dropped-Calm c (local_settings g c) (local_settings-Calm g c)
  perform-Calm Call.remote_settings e c =
      dropped-Calm c (remote_settings g c) (remote_settings-Calm g c)
  perform-Calm _ e c = absurd (false≢true e)
