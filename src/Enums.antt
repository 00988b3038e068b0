-- ===== src/Enums.antt =====
-- The wire enumerations of src/ngh2/enums.py and the coercions of src/ngh2/events.pyx that turn a
-- wire value into a member.
pub mod Codes
use ngh.Base.{ℕ, Option, none, some, List, [], ◌∷◌, ltb, if◌then◌else◌}
use ngh.Base.Lists.{length, get_elem?}
use ngh.Base.Dict.{Dict, lookup}

pub data Setting : Type 0 where
  header_table_size enable_push max_concurrent_streams initial_window_size : Setting
  max_frame_size max_header_list_size enable_connect_protocol : Setting
  no_rfc7540_priorities : Setting

unfoldable pub setting_id : Setting → ℕ
setting_id header_table_size = 0x01
setting_id enable_push = 0x02
setting_id max_concurrent_streams = 0x03
setting_id initial_window_size = 0x04
setting_id max_frame_size = 0x05
setting_id max_header_list_size = 0x06
setting_id enable_connect_protocol = 0x08
setting_id no_rfc7540_priorities = 0x09

-- Iteration over the class, in the order of its members.
abbrev pub all_settings : List Setting
all_settings =
    header_table_size ∷ enable_push ∷ max_concurrent_streams ∷ initial_window_size ∷ max_frame_size
    ∷ max_header_list_size ∷ enable_connect_protocol ∷ no_rfc7540_priorities ∷ []

pub data ErrorCode : Type 0 where
  no_error protocol_error internal_error flow_control_error settings_timeout : ErrorCode
  stream_closed frame_size_error refused_stream cancel compression_error : ErrorCode
  connect_error enhance_your_calm inadequate_security http_1_1_required : ErrorCode

unfoldable pub code_value : ErrorCode → ℕ
code_value no_error = 0x00
code_value protocol_error = 0x01
code_value internal_error = 0x02
code_value flow_control_error = 0x03
code_value settings_timeout = 0x04
code_value stream_closed = 0x05
code_value frame_size_error = 0x06
code_value refused_stream = 0x07
code_value cancel = 0x08
code_value compression_error = 0x09
code_value connect_error = 0x0A
code_value enhance_your_calm = 0x0B
code_value inadequate_security = 0x0C
code_value http_1_1_required = 0x0D

-- `_ERROR_CODES`: the members in the order of their values.
abbrev pub error_codes : List ErrorCode
error_codes =
    no_error ∷ protocol_error ∷ internal_error ∷ flow_control_error ∷ settings_timeout
    ∷ stream_closed ∷ frame_size_error ∷ refused_stream ∷ cancel ∷ compression_error ∷ connect_error
    ∷ enhance_your_calm ∷ inadequate_security ∷ http_1_1_required ∷ []

-- An attribute that is a member where one is known, and the plain number otherwise.
pub data Coded (A : Type 0) : Type 0 where
  known : A → Coded A
  unknown : ℕ → Coded A

or_unknown : {A : Type 0} → ℕ → Option A → Coded A
or_unknown value none = unknown value
or_unknown value (some member) = known member

-- `_error_code`; the index is in range under the test.
unfoldable pub error_code : ℕ → Coded ErrorCode
unfolding or_unknown
error_code value =
    if ltb value (length error_codes)
    then or_unknown value (get_elem? error_codes value)
    else unknown value

-- `_SETTINGS`
setting_table : List Setting → Dict Setting
unfolding setting_id
setting_table [] = []
setting_table (s ∷ rest) = (setting_id s, s) ∷ setting_table rest

-- `_SETTINGS.get(key, key)`
unfoldable pub setting_key : ℕ → Coded Setting
unfolding setting_table or_unknown
setting_key key = or_unknown key (lookup key (setting_table all_settings))

-- A member is an integer.
unfoldable pub wire_code : Coded ErrorCode → ℕ
unfolding code_value
wire_code (known c) = code_value c
wire_code (unknown n) = n

unfoldable pub wire_setting : Coded Setting → ℕ
unfolding setting_id
wire_setting (known s) = setting_id s
wire_setting (unknown n) = n
