-- ===== src/Tests.antt =====
-- A small engine and connections on it, with an instance of each theorem that has conditions.
mod Bodies
mod Ends
mod Inbound
mod Sequences
mod Arguments
use ngh.Base.{ℕ, ◌+◌, Bool, true, false, Option, none, some, List, [], ◌∷◌}
use ngh.Base.Int.{pos}
use ngh.Values.{Bytes}
use ngh.Errors.{Status, done, failure}
use ngh.Engine.{Engine, finished, calls, Callback}
use ngh.Connection.{Connection, created, BodySource, new_body}

-- How a send ends after a callback.
abbrev pub outcome : Status → Status
outcome (done n) = done 0
outcome (failure code) = failure code

-- An engine whose sessions count the calls, and which takes all that it is given.
abbrev pub counting_engine : Engine ℕ
counting_engine = record {
  allocates = λ n. true;
  urandom = λ n. none;
  is_fatal = λ e. false;
  callbacks_new = done 0;
  option_new = done 0;
  client_new = λ o. (done 0, 0);
  server_new = λ o. (done 0, 0);
  pack_settings = λ n es. (done 0, []);
  submit_settings = λ es s. (done 0, s + 1);
  upgrade = λ p h s. finished (done 0) s;
  mem_recv = λ p s. finished (done 0) s;
  send = λ s. calls (Callback.collect_output (1 ∷ 2 ∷ [])) s λ r t. finished (outcome r.status) t;
  check_request_allowed = λ s. true;
  submit_request = λ h b s. (done 1, s + 1);
  submit_response = λ i h b s. (done 0, s + 1);
  submit_headers = λ i h s. (done 0, s + 1);
  submit_trailer = λ i h s. (done 0, s + 1);
  submit_push_promise = λ i h s. (done 2, s + 1);
  resume_data = λ i s. (done 0, s + 1);
  stream_local_close = λ i s. some false;
  stream_remote_close = λ i s. some false;
  submit_rst_stream = λ i e s. (done 0, s + 1);
  submit_ping = λ p s. (done 0, s + 1);
  submit_goaway = λ l e p s. (done 0, s + 1);
  last_proc_stream_id = λ s. 0;
  submit_shutdown_notice = λ s. (done 0, s + 1);
  terminate = λ e s. (done 0, s + 1);
  terminate_at = λ l e s. (done 0, s + 1);
  consume = λ i n s. (done 0, s + 1);
  consume_connection = λ n s. (done 0, s + 1);
  set_local_window_size = λ i w s. (done 0, s + 1);
  remote_settings = λ i s. 0;
  local_settings = λ i s. 0;
  submit_priority_update = λ i p s. (done 0, s + 1);
  change_priority = λ i u n k s. (done 0, s + 1);
  get_priority = λ i s. (3, false);
  submit_altsvc = λ i o f s. (done 0, s + 1);
  submit_origin = λ os s. (done 0, s + 1);
  want_read = λ s. true;
  want_write = λ s. true;
  next_stream_id = λ s. 1;
  remote_window_size = λ s. pos 65_535;
  stream_remote_window_size = λ i s. pos 65_535;
  local_window_size = λ s. pos 65_535;
  stream_local_window_size = λ i s. pos 65_535;
}

-- Two chunks, of which the first byte has been sent.
abbrev pub two_chunks : BodySource
two_chunks = record new_body {
  chunks = some (1 ∷ 2 ∷ []) ∷ some (3 ∷ []) ∷ [];
  offset = 1;
  queued_size = 2;
}

-- An active connection with that body on stream 1, and with all output wanted.
abbrev pub sending : Connection ℕ
sending = record (created ℕ) {
  session = some 0;
  initialized = true;
  active = true;
  bodies = (1, two_chunks) ∷ [];
  queued_body_size = 2;
  output_remaining = pos 100;
  max_send_data_frame_size = 16_384;
}

-- An active connection that receives under small limits and with manual flow control.
abbrev pub receiving : Connection ℕ
receiving = record (created ℕ) {
  session = some 0;
  initialized = true;
  active = true;
  max_inbound_header_list_size = 100;
  max_inbound_header_count = 2;
  unconsumed = (1, 5) ∷ [];
}
