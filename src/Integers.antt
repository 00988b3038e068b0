-- ===== src/Integers.antt =====
-- The integer validators of src/ngh2/_core.pyx: `_integer`, `_stream_id`, `_uint32`, `_uint64`,
-- `_size`, `_positive_size`, `_uint31`, `_nonnegative_size`.
pub mod Ranges
use ngh.Base.{ℕ, ◌^◌, ◌-◌, Bool, true, false, ◌||◌, ◌&&◌, not, ltb, leb, if◌then◌else◌, ◌==◌}
use ngh.Base.Int.{ℤ, pos, negsuc, pos_part, is_neg, leb_ℤ, ltb_ℤ}
use ngh.Base.Word.{size_mod, ssize_max}
use ngh.Values.{Value, integer_index}
use ngh.Errors.{Result, ok, err, ◌>>=◌, ◌>>◌, raise_if, or_raise, type_error, value_error}

-- `PyLong_AsLongLongAndOverflow`: the value and 0, or -1 and the sign of the overflow.
unfoldable pub as_long_long : ℤ → ℤ × ℤ
as_long_long (pos n) = if ltb n (2 ^ 63) then (pos n, pos 0) else (negsuc 0, pos 1)
as_long_long (negsuc n) = if ltb n (2 ^ 63) then (negsuc n, pos 0) else (negsuc 0, negsuc 0)

abbrev overflows : ℤ → Bool
overflows (pos n) = not (n == 0)
overflows (negsuc _) = true

unfoldable pub integer : Value → Result (ℤ × ℤ)
unfolding integer_index as_long_long
integer v = do n ← or_raise (integer_index v) type_error; ok (as_long_long n)

-- The common shape of `_stream_id`, `_uint32` and `_uint31`.
bounded : ℤ → ℤ → ℤ × ℤ → Result ℕ
bounded lo hi (result, overflow) = do
  raise_if (overflows overflow || ltb_ℤ result lo || ltb_ℤ hi result) value_error
  ok (pos_part result)

unfoldable pub stream_id : Value → Result ℕ
unfolding integer bounded
stream_id v = integer v >>= bounded (pos 1) (pos 0x7FFFFFFF)

unfoldable pub uint32 : Value → Result ℕ
unfolding integer bounded
uint32 v = integer v >>= bounded (pos 0) (pos 0xFFFFFFFF)

unfoldable pub uint31 : Value → Result ℕ
unfolding integer bounded
uint31 v = integer v >>= bounded (pos 0) (pos 0x7FFFFFFF)

unfoldable pub uint64 : Value → Result ℕ
unfolding integer_index
uint64 v = do
  n ← or_raise (integer_index v) type_error
  raise_if (not (leb_ℤ (pos 0) n && leb_ℤ n (pos 0xFFFFFFFFFFFFFFFF))) value_error
  ok (pos_part n)

unfoldable pub size : Value → Result ℕ
unfolding integer_index
size v = do
  n ← or_raise (integer_index v) type_error
  raise_if (ltb_ℤ n (pos 0)) value_error
  raise_if (ltb_ℤ (pos (size_mod - 1)) n) value_error
  ok (pos_part n)

unfoldable pub positive_size : Value → Result ℕ
unfolding size
positive_size v = do n ← size v; raise_if (n == 0) value_error; ok n

nonnegative : ℤ × ℤ → Result ℕ
nonnegative (result, overflow) = do
  raise_if (is_neg overflow || (not (overflows overflow) && ltb_ℤ result (pos 0))) value_error
  raise_if (overflows overflow || ltb ssize_max (pos_part result)) value_error
  ok (pos_part result)

unfoldable pub nonnegative_size : Value → Result ℕ
unfolding integer nonnegative
nonnegative_size v = integer v >>= nonnegative
