-- ===== src/Enums/Codes.antt =====
-- The coercions of wire values lose nothing and know every member.
use ngh.Base.{ℕ, ◌≡◌, arith}
use ngh.Enums.{
  Setting, setting_id, ErrorCode, code_value, known, error_code, setting_key, wire_code,
  wire_setting,
}

wire_code-error_code : (n : ℕ) → wire_code (error_code n) ≡ n
unfolding wire_code error_code
wire_code-error_code n = ground arith

error_code-code_value : (c : ErrorCode) → error_code (code_value c) ≡ known c
unfolding error_code code_value
error_code-code_value c = ground arith

wire_setting-setting_key : (n : ℕ) → wire_setting (setting_key n) ≡ n
unfolding wire_setting setting_key
wire_setting-setting_key n = ground arith

setting_key-setting_id : (s : Setting) → setting_key (setting_id s) ≡ known s
unfolding setting_key setting_id
setting_key-setting_id s = ground arith

-- Both coercions keep the wire value, of a known member or not, and give every member back from its
-- own wire value.
pub wire_round_trip :
    ((n : ℕ) → (wire_code (error_code n) ≡ n) × (wire_setting (setting_key n) ≡ n))
    × ((c : ErrorCode) → error_code (code_value c) ≡ known c)
    × ((s : Setting) → setting_key (setting_id s) ≡ known s)
wire_round_trip = (
  λ n. (wire_code-error_code n, wire_setting-setting_key n),
  error_code-code_value,
  setting_key-setting_id,
)
