-- ===== src/Setup/Keeps.antt =====
-- `__init__` keeps every property that its last steps keep.
use ngh.Base.{ℕ, Bool, not, ◌&&◌, leb}
use ngh.Values.{unpack_pair}
use ngh.Integers.{uint32, uint64, size, positive_size}
use ngh.Errors.{or_raise, type_error, value_error, connection_state, Status, done, failure}
use ngh.Config.{Role, Configuration}
use ngh.Engine.{Engine}
use ngh.Connection.{Connection, modify}
use ngh.Connection.Keeps.{
  Keeps, bind-Keeps, then-Keeps, get-Keeps, lift-Keeps, raise_if-Keeps, pure-Keeps,
}
use ngh.Setup.{
  Argument, apply_configuration, initialize, raise_status, strict_bool, keep_limits, installed,
  role_of, configuration_of, new_session,
}

module _ {S : Type 0} (P : Connection S → Type 0)
    (limits : (auto : Bool) (frame_size settings : ℕ) (config : Configuration)
      → Keeps P (keep_limits auto frame_size settings config)) where
  raise_status-Keeps : (status : Status) → Keeps P (raise_status status)
  unfolding raise_status
  raise_status-Keeps (done n) = record { keeps = λ c h. h }
  raise_status-Keeps (failure code) = record { keeps = λ c h. h }

  apply_configuration-Keeps : (config : Configuration) → Keeps P (apply_configuration config)
  unfolding apply_configuration
  apply_configuration-Keeps config =
      bind-Keeps (lift-Keeps (uint32 config.initial_peer_max_concurrent_streams)) λ peer_max.
        bind-Keeps (lift-Keeps (uint32 config.max_reserved_remote_streams)) λ reserved.
          bind-Keeps (lift-Keeps (size config.max_send_header_block_length)) λ block_length.
            bind-Keeps (lift-Keeps (size config.max_deflate_dynamic_table_size)) λ table_size.
              bind-Keeps (lift-Keeps (size config.max_outbound_ack)) λ ack.
                bind-Keeps (lift-Keeps (positive_size config.max_settings)) λ settings.
                  bind-Keeps (lift-Keeps (size config.max_continuations)) λ continuations.
                    bind-Keeps (lift-Keeps (uint32 config.max_send_data_frame_size)) λ frame_size.
                      bind-Keeps (lift-Keeps (strict_bool config.auto_window_update)) λ auto.
                        bind-Keeps
                          (lift-Keeps
                            (or_raise (unpack_pair config.stream_reset_rate_limit) type_error))
                          λ reset.
                            bind-Keeps
                              (lift-Keeps
                                (or_raise (unpack_pair config.glitch_rate_limit) type_error))
                              λ glitch. bind-Keeps (lift-Keeps (uint64 reset.0)) λ reset_burst.
                                bind-Keeps (lift-Keeps (uint64 reset.1)) λ reset_rate.
                                  bind-Keeps (lift-Keeps (uint64 glitch.0)) λ glitch_burst.
                                    bind-Keeps (lift-Keeps (uint64 glitch.1)) λ glitch_rate.
                                      then-Keeps
                                        (raise_if-Keeps
                                          (not (leb 1 frame_size && leb frame_size 0xFFFFFF))
                                          value_error)
                                        (then-Keeps (limits auto frame_size settings config)
                                          (pure-Keeps _))

  pub initialize-Keeps :
      (g : Engine S) (role : Argument Role) (config : Argument Configuration)
      → ((r : Role) (o : Configuration) (s : S) → Keeps P (modify (installed g r o s)))
      → Keeps P (initialize g role config)
  unfolding initialize
  initialize-Keeps g role config at_end = get-Keeps λ c.
      then-Keeps (raise_if-Keeps c.initialized connection_state) (
        bind-Keeps (lift-Keeps (role_of role)) λ r.
          bind-Keeps (lift-Keeps (configuration_of config)) λ o.
            then-Keeps (raise_status-Keeps g.callbacks_new) (
              then-Keeps (raise_status-Keeps g.option_new) (
                bind-Keeps (apply_configuration-Keeps o) λ options.
                  then-Keeps (raise_status-Keeps (new_session g r options).0)
                    (at_end r o (new_session g r options).1))))
