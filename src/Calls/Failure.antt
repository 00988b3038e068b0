-- ===== src/Calls/Failure.antt =====
-- A connection that has failed.
use ngh.Calls.Failed.Streams.{
  initialize-Refuses, initiate_connection-Refuses, initiate_upgrade-Refuses, receive_data-Refuses,
  data_to_send-Refuses, send_request-Refuses, send_response-Refuses,
  send_informational_response-Refuses, send_trailers-Refuses, send_push_promise-Refuses,
  send_data-Refuses, end_stream-Refuses, reset_stream-Refuses,
}
use ngh.Calls.Failed.Controls.{
  update_settings-Refuses, send_ping-Refuses, send_goaway-Refuses, send_shutdown_notice-Refuses,
  terminate_connection-Refuses, consume_received_data-Refuses, set_local_window_size-Refuses,
  send_priority_update-Refuses, set_stream_priority-Refuses, get_stream_priority-Refuses,
  send_alt_svc-Refuses, send_origins-Refuses, want_read-Refuses, want_write-Refuses,
  next_stream_id-Refuses, can_send_request-Refuses, remote_window_size-Refuses,
  local_window_size-Refuses, local_settings-Refuses, remote_settings-Refuses,
}
use ngh.Calls.Failed.{Refuses, HasFailed}
use ngh.Base.{false, ◌≡◌, arith}
use ngh.Errors.{Result, ok, err}
use ngh.Engine.{Engine}
use ngh.Connection.{Connection}
use ngh.Calls.{Call, is_query, perform}
use ngh.Transport.{data_to_send}
use ngh.Streams.{send_request, send_push_promise}
use ngh.Controls.{
  send_priority_update, set_stream_priority, get_stream_priority, want_read, want_write,
  next_stream_id, can_send_request, remote_window_size, local_window_size, local_settings,
  remote_settings,
}

module _ {S : Type 0} where
  -- What a method returned is dropped.
  abbrev dropped : {A : Type 0} → Result A × Connection S → Result (Unit {0}) × Connection S
  dropped (r, d) = elim r [ ok a ↦ (ok tt, d) | err e ↦ (err e, d) ]

  done_with-Refuses :
      {A : Type 0} (c : Connection S) (r : Result A × Connection S)
      → Refuses c r
      → Refuses c (dropped r)
  done_with-Refuses c (ok a, d) h = ground arith
  done_with-Refuses c (err e, d) h = h

module _ {S : Type 0} (g : Engine S) where
  -- On a connection that has failed, every method and property but `events` and `queued_body_size`
  -- raises, whatever its arguments, and changes nothing.
  pub failed-Refuses :
      (call : Call) (c : Connection S)
      → HasFailed c
      → is_query call ≡ false
      → Refuses c (perform g call c)
  unfolding perform
  failed-Refuses (Call.initialize role config) c h q = initialize-Refuses g role config c h
  failed-Refuses (Call.initiate_connection settings) c h q =
      initiate_connection-Refuses g settings c h
  failed-Refuses (Call.initiate_upgrade payload settings head) c h q =
      initiate_upgrade-Refuses g payload settings head c h
  failed-Refuses (Call.receive_data received) c h q = receive_data-Refuses g received c h
  failed-Refuses (Call.data_to_send amount) c h q =
      done_with-Refuses c (data_to_send g amount c) (data_to_send-Refuses g amount c h)
  failed-Refuses (Call.send_request headers ends) c h q =
      done_with-Refuses c (send_request g headers ends c) (send_request-Refuses g headers ends c h)
  failed-Refuses (Call.send_response stream headers ends) c h q =
      send_response-Refuses g stream headers ends c h
  failed-Refuses (Call.send_informational_response stream headers) c h q =
      send_informational_response-Refuses g stream headers c h
  failed-Refuses (Call.send_trailers stream headers) c h q =
      send_trailers-Refuses g stream headers c h
  failed-Refuses (Call.send_push_promise stream headers) c h q =
      done_with-Refuses c (send_push_promise g stream headers c)
        (send_push_promise-Refuses g stream headers c h)
  failed-Refuses (Call.send_data stream body ends) c h q = send_data-Refuses g stream body ends c h
  failed-Refuses (Call.end_stream stream) c h q = end_stream-Refuses g stream c h
  failed-Refuses (Call.reset_stream stream code after) c h q =
      reset_stream-Refuses g stream code after c h
  failed-Refuses (Call.update_settings settings) c h q = update_settings-Refuses g settings c h
  failed-Refuses (Call.send_ping opaque_data) c h q = send_ping-Refuses g opaque_data c h
  failed-Refuses (Call.send_goaway code last debug_data) c h q =
      send_goaway-Refuses g code last debug_data c h
  failed-Refuses Call.send_shutdown_notice c h q = send_shutdown_notice-Refuses g c h
  failed-Refuses (Call.terminate_connection code last) c h q =
      terminate_connection-Refuses g code last c h
  failed-Refuses (Call.consume_received_data stream amount) c h q =
      consume_received_data-Refuses g stream amount c h
  failed-Refuses (Call.set_local_window_size size stream) c h q =
      set_local_window_size-Refuses g size stream c h
  failed-Refuses (Call.send_priority_update stream field) c h q =
      done_with-Refuses c (send_priority_update g stream field c)
        (send_priority_update-Refuses g stream field c h)
  failed-Refuses (Call.set_stream_priority stream urgency ignore) c h q =
      done_with-Refuses c (set_stream_priority g stream urgency ignore c)
        (set_stream_priority-Refuses g stream urgency ignore c h)
  failed-Refuses (Call.get_stream_priority stream) c h q =
      done_with-Refuses c (get_stream_priority g stream c)
        (get_stream_priority-Refuses g stream c h)
  failed-Refuses (Call.send_alt_svc field stream origin) c h q =
      send_alt_svc-Refuses g field stream origin c h
  failed-Refuses (Call.send_origins origins) c h q = send_origins-Refuses g origins c h
  failed-Refuses Call.want_read c h q =
      done_with-Refuses c (want_read g c) (want_read-Refuses g c h)
  failed-Refuses Call.want_write c h q =
      done_with-Refuses c (want_write g c) (want_write-Refuses g c h)
  failed-Refuses Call.next_stream_id c h q =
      done_with-Refuses c (next_stream_id g c) (next_stream_id-Refuses g c h)
  failed-Refuses Call.can_send_request c h q =
      done_with-Refuses c (can_send_request g c) (can_send_request-Refuses g c h)
  failed-Refuses (Call.remote_window_size stream) c h q =
      done_with-Refuses c (remote_window_size g stream c) (remote_window_size-Refuses g stream c h)
  failed-Refuses (Call.local_window_size stream) c h q =
      done_with-Refuses c (local_window_size g stream c) (local_window_size-Refuses g stream c h)
  failed-Refuses Call.local_settings c h q =
      done_with-Refuses c (local_settings g c) (local_settings-Refuses g c h)
  failed-Refuses Call.remote_settings c h q =
      done_with-Refuses c (remote_settings g c) (remote_settings-Refuses g c h)
  failed-Refuses Call.events c h q = ground arith
  failed-Refuses (Call.queued_body_size stream) c h q = ground arith
