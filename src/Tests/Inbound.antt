-- ===== src/Tests/Inbound.antt =====
-- Header blocks and DATA frames that are received.
use mathlib.Core.List.{flatten}
use ngh.Receive.Settings.{settings_frame_lem}
use ngh.Receive.Blocks.{Describes, header_block_event}
use ngh.Events.{Event, new_settings_received}
use ngh.Base.{ℕ, ◌+◌, ◌≤◌, ◌<◌, ◌≡◌, ◌⊎◌, refl, true, false, some, List, [], ◌∷◌, arith}
use ngh.Base.Lists.{length}
use ngh.Base.Dict.{Dict, IsDict, get_or, lookup}
use ngh.Base.Word.{ssize_max}
use ngh.Values.{Bytes}
use ngh.Config.{natural}
use ngh.Integers.{stream_id, nonnegative_size}
use ngh.Errors.{ok, err, done, internal, value_error}
use ngh.Headers.{Header}
use ngh.Engine.{headers_frame, settings_frame, other_category, FrameHead}
use ngh.Callbacks.{replies}
use ngh.Receive.{status_name, frame_received, begin_headers, begin_frame, data_frame_received}
use ngh.Receive.Fields.{Ends, receive_fields, header_block_lem}
use ngh.Receive.Payload.{receive_fragments, HandsOver, data_frame_lem}
use ngh.Streams.Order.{IsActive}
use ngh.Controls.{consume_received_data}
use ngh.Controls.Consumption.{consume_received_data_lem}
use ngh.Tests.{counting_engine, receiving}

abbrev field : Header
field = record { name = b'a' ∷ []; value = b'b' ∷ []; no_index = false }

header_block_lem_example :
    Ends 100 2
      (field ∷ field ∷ [])
      (receive_fields (field ∷ field ∷ []) (begin_headers receiving).1)
header_block_lem_example =
    header_block_lem (field ∷ field ∷ []) receiving (omega arith) (omega arith, (omega arith, tt))

abbrev data_head : FrameHead
data_head = record { stream_id = 1; end_stream = true; ack = false }

abbrev two_fragments : List Bytes
two_fragments = (1 ∷ []) ∷ (2 ∷ 3 ∷ []) ∷ []

flat : length (flatten two_fragments) ≤ ssize_max
unfolding flatten
flat = omega arith

data_frame_lem_example :
    let (reply, opening) = begin_frame counting_engine true 4 1 receiving in
    let (all, d) = receive_fragments 1 two_fragments opening in
    (reply ≡ replies (done 0))
    × (((length (flatten two_fragments) ≤ 4)
          × (all ≡ true)
          × HandsOver receiving data_head (flatten two_fragments) (data_frame_received data_head d))
        ⊎ ((4 < length (flatten two_fragments))
            × (all ≡ false)
            × (d.callback_error ≡ some internal)))
data_frame_lem_example =
    data_frame_lem counting_engine 4 two_fragments data_head receiving refl refl (omega arith) flat

one : stream_id (natural 1) ≡ ok 1
unfolding stream_id
one = refl

three_bytes : nonnegative_size (natural 3) ≡ ok 3
unfolding nonnegative_size
three_bytes = refl

receiving-IsActive : IsActive receiving
receiving-IsActive = record { usable = refl; initiated = refl; open_ended = refl }

consume_received_data_lem_example :
    let (r, d) = consume_received_data counting_engine (natural 1) (natural 3) receiving in
    ((5 < 3) × (r ≡ err value_error) × (d ≡ receiving))
    ⊎ ((3 ≤ 5)
        × (r ≡ ok tt)
        × (d.session ≡ some 1)
        × IsDict d.unconsumed
        × (get_or 1 0 d.unconsumed + 3 ≡ 5)
        × ((other : ℕ)
            → ¬ (other ≡ 1)
            → lookup other d.unconsumed ≡ lookup other receiving.unconsumed))
consume_received_data_lem_example =
    consume_received_data_lem counting_engine 1 3 (natural 1) (natural 3) 0 receiving
      receiving-IsActive (refl, tt) refl refl one three_bytes (omega arith) 0 1 refl

abbrev plain_head : FrameHead
plain_head = record { stream_id = 0; end_stream = false; ack = false }

settings_frame_lem_example :
    (settings : Dict ℕ) × ((frame_received
        (settings_frame plain_head ((3, 1) ∷ (4, 9) ∷ (3, 2) ∷ []))
        receiving).1.events
      ≡ new_settings_received settings ∷ [])
    × IsDict settings
    × (lookup 3 settings ≡ some 2)
settings_frame_lem_example =
    settings_frame_lem 3 plain_head ((3, 1) ∷ (4, 9) ∷ (3, 2) ∷ []) receiving refl

-- An interim response.
abbrev early_hints : List Header
early_hints = record { name = status_name; value = b'1' ∷ b'0' ∷ b'3' ∷ []; no_index = false } ∷ []

header_block_event_example :
    let (all, d) = receive_fields early_hints (begin_headers receiving).1 in
    let e = (frame_received (headers_frame plain_head other_category) d).1 in
    (all ≡ true)
    × (event : Event) × (e.events ≡ event ∷ [])
    × Describes plain_head other_category early_hints event
    × (e.current_headers ≡ [])
header_block_event_example =
    header_block_event plain_head other_category early_hints receiving (omega arith)
      (omega arith, tt) (omega arith, omega arith)
