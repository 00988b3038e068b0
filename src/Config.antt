-- ===== src/Config.antt =====
-- `Role` and `Configuration` of src/ngh2/config.py. The fields hold whatever the caller gave; they
-- are validated when a connection is made.
use ngh.Base.{ℕ, true}
use ngh.Base.Int.{pos}
use ngh.Values.{Value, int, bool, sequence, tuple_kind, nil, cons}

-- `class Role`
pub data Role : Type 0 where
  client server : Role

pub record Configuration : Type 0 where
  pub auto_window_update : Value
  pub initial_peer_max_concurrent_streams : Value
  pub max_reserved_remote_streams : Value
  pub max_send_header_block_length : Value
  pub max_send_data_frame_size : Value
  pub max_deflate_dynamic_table_size : Value
  pub max_outbound_ack : Value
  pub max_settings : Value
  pub stream_reset_rate_limit : Value
  pub max_continuations : Value
  pub glitch_rate_limit : Value
  pub max_inbound_header_list_size : Value
  pub max_inbound_header_count : Value

abbrev pub natural : ℕ → Value
natural n = int (pos n)

abbrev pub rate_limit : ℕ → ℕ → Value
rate_limit burst rate = sequence tuple_kind (cons (natural burst) (cons (natural rate) nil))

-- `_DEFAULT_CONFIGURATION`
abbrev pub default_configuration : Configuration
default_configuration = record {
  auto_window_update = bool true;
  initial_peer_max_concurrent_streams = natural 100;
  max_reserved_remote_streams = natural 200;
  max_send_header_block_length = natural 65_536;
  max_send_data_frame_size = natural 65_536;
  max_deflate_dynamic_table_size = natural 4_096;
  max_outbound_ack = natural 1_000;
  max_settings = natural 32;
  stream_reset_rate_limit = rate_limit 1_000 33;
  max_continuations = natural 8;
  glitch_rate_limit = rate_limit 10_000 330;
  max_inbound_header_list_size = natural 65_536;
  max_inbound_header_count = natural 1_024;
}
