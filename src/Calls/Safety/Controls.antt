-- ===== src/Calls/Safety/Controls.antt =====
-- No method on the connection lets the session pointer get lost.
use ngh.Base.{Bool, arith}
use ngh.Values.{Value}
use ngh.Engine.{Engine}
use ngh.Connection.{Connection}
use ngh.Calls.Safety.{IsSafe}
use ngh.Controls.{
  update_settings, send_ping, send_goaway, send_shutdown_notice, terminate_connection,
  consume_received_data, set_local_window_size, send_priority_update, set_stream_priority,
  get_stream_priority, send_alt_svc, want_read, want_write, next_stream_id, can_send_request,
  remote_window_size, local_window_size, local_settings, remote_settings,
}

module _ {S : Type 0} (g : Engine S) where
  pub update_settings-IsSafe :
      (settings : Value) (c : Connection S) → IsSafe c → IsSafe (update_settings g settings c).1
  unfolding update_settings
  update_settings-IsSafe settings c h = ground arith

  pub send_ping-IsSafe :
      (opaque_data : Value) (c : Connection S) → IsSafe c → IsSafe (send_ping g opaque_data c).1
  unfolding send_ping
  send_ping-IsSafe opaque_data c h = ground arith

  pub send_goaway-IsSafe :
      (code last debug_data : Value) (c : Connection S)
      → IsSafe c
      → IsSafe (send_goaway g code last debug_data c).1
  unfolding send_goaway
  send_goaway-IsSafe code last debug_data c h = ground arith

  pub send_shutdown_notice-IsSafe :
      (c : Connection S) → IsSafe c → IsSafe (send_shutdown_notice g c).1
  unfolding send_shutdown_notice
  send_shutdown_notice-IsSafe c h = ground arith

  pub terminate_connection-IsSafe :
      (code last : Value) (c : Connection S)
      → IsSafe c
      → IsSafe (terminate_connection g code last c).1
  unfolding terminate_connection
  terminate_connection-IsSafe code last c h = ground arith

  pub consume_received_data-IsSafe :
      (stream amount : Value) (c : Connection S)
      → IsSafe c
      → IsSafe (consume_received_data g stream amount c).1
  unfolding consume_received_data
  consume_received_data-IsSafe stream amount c h = ground arith

  pub set_local_window_size-IsSafe :
      (size stream : Value) (c : Connection S)
      → IsSafe c
      → IsSafe (set_local_window_size g size stream c).1
  unfolding set_local_window_size
  set_local_window_size-IsSafe size stream c h = ground arith

  pub send_priority_update-IsSafe :
      (stream field : Value) (c : Connection S)
      → IsSafe c
      → IsSafe (send_priority_update g stream field c).1
  unfolding send_priority_update
  send_priority_update-IsSafe stream field c h = ground arith

  pub set_stream_priority-IsSafe :
      (stream urgency : Value) (ignore : Bool) (c : Connection S)
      → IsSafe c
      → IsSafe (set_stream_priority g stream urgency ignore c).1
  unfolding set_stream_priority
  set_stream_priority-IsSafe stream urgency ignore c h = ground arith

  pub get_stream_priority-IsSafe :
      (stream : Value) (c : Connection S) → IsSafe c → IsSafe (get_stream_priority g stream c).1
  unfolding get_stream_priority
  get_stream_priority-IsSafe stream c h = ground arith

  pub send_alt_svc-IsSafe :
      (field stream origin : Value) (c : Connection S)
      → IsSafe c
      → IsSafe (send_alt_svc g field stream origin c).1
  unfolding send_alt_svc
  send_alt_svc-IsSafe field stream origin c h = ground arith

  pub want_read-IsSafe : (c : Connection S) → IsSafe c → IsSafe (want_read g c).1
  unfolding want_read
  want_read-IsSafe c h = ground arith

  pub want_write-IsSafe : (c : Connection S) → IsSafe c → IsSafe (want_write g c).1
  unfolding want_write
  want_write-IsSafe c h = ground arith

  pub next_stream_id-IsSafe : (c : Connection S) → IsSafe c → IsSafe (next_stream_id g c).1
  unfolding next_stream_id
  next_stream_id-IsSafe c h = ground arith

  pub can_send_request-IsSafe : (c : Connection S) → IsSafe c → IsSafe (can_send_request g c).1
  unfolding can_send_request
  can_send_request-IsSafe c h = ground arith

  pub remote_window_size-IsSafe :
      (stream : Value) (c : Connection S) → IsSafe c → IsSafe (remote_window_size g stream c).1
  unfolding remote_window_size
  remote_window_size-IsSafe stream c h = ground arith

  pub local_window_size-IsSafe :
      (stream : Value) (c : Connection S) → IsSafe c → IsSafe (local_window_size g stream c).1
  unfolding local_window_size
  local_window_size-IsSafe stream c h = ground arith

  pub local_settings-IsSafe : (c : Connection S) → IsSafe c → IsSafe (local_settings g c).1
  unfolding local_settings
  local_settings-IsSafe c h = ground arith

  pub remote_settings-IsSafe : (c : Connection S) → IsSafe c → IsSafe (remote_settings g c).1
  unfolding remote_settings
  remote_settings-IsSafe c h = ground arith
