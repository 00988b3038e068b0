-- ===== src/Setup/Limits.antt =====
-- The limit on DATA frames that `__init__` accepts, and the frames that it allows.
use ngh.Base.{
  ℕ, ◌≤◌, ◌≡◌, refl, Bool, false, not, ◌&&◌, leb, min, max, Option-cases, inl, inr, arith,
}
use ngh.Base.Dict.{lookup}
use ngh.Integers.{uint32, uint64, size, positive_size}
use ngh.Errors.{ok, done, Status, failure, value_error, connection_state}
use ngh.Config.{Role, Configuration}
use ngh.Engine.{Engine}
use ngh.Connection.{Connection, modify, raise_if, lift}
use ngh.Connection.Keeps.{Keeps, then-Keeps, pure-Keeps}
use ngh.Connection.Ensures.{Ensures, skip-Ensures, first-Ensures, guard-Ensures, get-Ensures}
use ngh.Output.{data_frame_length}
use ngh.Setup.{
  Argument, strict_bool, unpack_limit, role_of, configuration_of, apply_configuration, initialize,
  raise_status, keep_limits, installed, new_session,
}

-- The payload of a DATA frame has at least one byte and fits the frame's 24 bits.
abbrev pub IsInRange : {S : Type 0} → Connection S → Type 0
IsInRange c = (1 ≤ c.max_send_data_frame_size) × (c.max_send_data_frame_size ≤ 0xFFFFFF)

module _ {S : Type 0} where
  keep_limits-Ensures :
      (auto : Bool) (frame_size settings : ℕ) (config : Configuration)
      → not (leb 1 frame_size && leb frame_size 0xFFFFFF) ≡ false
      → Ensures {S = S} IsInRange (keep_limits auto frame_size settings config)
  unfolding keep_limits
  keep_limits-Ensures auto frame_size settings config h = record { ensures = λ c b e. ground arith }

  apply_configuration-Ensures :
      (config : Configuration) → Ensures {S = S} IsInRange (apply_configuration config)
  unfolding apply_configuration
  apply_configuration-Ensures config =
      skip-Ensures (lift (uint32 config.initial_peer_max_concurrent_streams)) λ peer_max.
        skip-Ensures (lift (uint32 config.max_reserved_remote_streams)) λ reserved.
          skip-Ensures (lift (size config.max_send_header_block_length)) λ block_length.
            skip-Ensures (lift (size config.max_deflate_dynamic_table_size)) λ table_size.
              skip-Ensures (lift (size config.max_outbound_ack)) λ ack.
                skip-Ensures (lift (positive_size config.max_settings)) λ settings.
                  skip-Ensures (lift (size config.max_continuations)) λ continuations.
                    skip-Ensures (lift (uint32 config.max_send_data_frame_size)) λ frame_size.
                      skip-Ensures (lift (strict_bool config.auto_window_update)) λ auto.
                        skip-Ensures (unpack_limit config.stream_reset_rate_limit) λ reset.
                          skip-Ensures (unpack_limit config.glitch_rate_limit) λ glitch.
                            skip-Ensures (lift (uint64 reset.0)) λ reset_burst.
                              skip-Ensures (lift (uint64 reset.1)) λ reset_rate.
                                skip-Ensures (lift (uint64 glitch.0)) λ glitch_burst.
                                  skip-Ensures (lift (uint64 glitch.1)) λ glitch_rate.
                                    guard-Ensures
                                      (not (leb 1 frame_size && leb frame_size 0xFFFFFF))
                                      value_error
                                      λ h.
                                        first-Ensures
                                          (keep_limits-Ensures auto frame_size settings config h)
                                          λ _. pure-Keeps (record {
                                            no_auto_window_update = not auto;
                                            peer_max_concurrent_streams = peer_max;
                                            max_reserved_remote_streams = reserved;
                                            max_send_header_block_length = block_length;
                                            max_deflate_dynamic_table_size = table_size;
                                            max_outbound_ack = ack;
                                            max_settings = settings;
                                            stream_reset_rate_limit = (reset_burst, reset_rate);
                                            max_continuations = continuations;
                                            glitch_rate_limit = (glitch_burst, glitch_rate);
                                          })

  raise_status-Keeps : (status : Status) → Keeps {S = S} IsInRange (raise_status status)
  unfolding raise_status
  raise_status-Keeps (done n) = record { keeps = λ c h. h }
  raise_status-Keeps (failure code) = record { keeps = λ c h. h }

module _ {S : Type 0} (g : Engine S) where
  installed-Keeps :
      (role : Role) (config : Configuration) (s : S)
      → Keeps IsInRange (modify (installed g role config s))
  unfolding installed
  installed-Keeps role config s = record { keeps = λ c h. h }

  initialize-Ensures :
      (role : Argument Role) (config : Argument Configuration)
      → Ensures IsInRange (initialize g role config)
  unfolding initialize
  initialize-Ensures role config = get-Ensures λ c.
      skip-Ensures (raise_if c.initialized connection_state) λ _.
        skip-Ensures (lift (role_of role)) λ r. skip-Ensures (lift (configuration_of config)) λ o.
          skip-Ensures (raise_status g.callbacks_new) λ _.
            skip-Ensures (raise_status g.option_new) λ _.
              first-Ensures (apply_configuration-Ensures o) λ options.
                then-Keeps (raise_status-Keeps (new_session g r options).0)
                  (installed-Keeps r o (new_session g r options).1)

  data_frame_length-range :
      (n remote : ℕ) (c : Connection S)
      → IsInRange c
      → 1 ≤ remote
      → (size : ℕ) × ((data_frame_length n remote c).status ≡ done size)
        × (1 ≤ size)
        × (size ≤ remote)
        × (size ≤ 0xFFFFFF)
  unfolding data_frame_length
  data_frame_length-range n remote c h r = elim (Option-cases (lookup n c.bodies)) [
    | inl e ↦ rw e (
      min c.max_send_data_frame_size remote,
      refl,
      omega (arith, h.0, r),
      omega arith,
      omega (arith, h.1),
    )
    | inr (b, e) ↦ rw e (
      max 1 (min (min c.max_send_data_frame_size remote) b.queued_size),
      refl,
      omega arith,
      omega (arith, r),
      omega (arith, h.1),
    )
  ]

  -- An `__init__` that returns leaves a limit on DATA frames within the 24 bits of a frame's length
  -- and above zero. With that limit, whatever is queued, `_data_frame_length` lets the engine build
  -- frames of at least one byte, and of no more than the peer or a frame allows.
  pub frame_lengths_in_range :
      (role : Argument Role) (config : Argument Configuration) (start c : Connection S)
      (n remote : ℕ)
      → (initialize g role config start).0 ≡ ok tt
      → c.max_send_data_frame_size ≡ (initialize g role config start).1.max_send_data_frame_size
      → 1 ≤ remote
      → (size : ℕ) × ((data_frame_length n remote c).status ≡ done size)
        × (1 ≤ size)
        × (size ≤ remote)
        × (size ≤ 0xFFFFFF)
  frame_lengths_in_range role config start c n remote h e r =
      let range = (initialize-Ensures role config).ensures start tt h in
      data_frame_length-range n remote c (omega (arith, range.0, e), omega (arith, range.1, e)) r
