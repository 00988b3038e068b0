-- ===== src/Integers/Ranges.antt =====
-- Every integer validator against one description: a range test on the unbounded integer.
use ngh.Base.{ℕ, ◌-◌, ◌≡◌, none, some, arith, leb, ◌&&◌, if◌then◌else◌}
use ngh.Base.Int.{pos, negsuc}
use ngh.Base.Word.{size_mod, ssize_max}
use ngh.Values.{Value, integer_index}
use ngh.Errors.{Result, ok, err, type_error, value_error}
use ngh.Integers.{stream_id, uint32, uint31, uint64, size, positive_size, nonnegative_size}

-- What an argument of a given range should give, with no machine word in sight.
abbrev pub in_range : ℕ → ℕ → Value → Result ℕ
in_range lo hi v = elim (integer_index v) [
  | none ↦ err type_error
  | some (negsuc n) ↦ err value_error
  | some (pos n) ↦ if leb lo n && leb n hi then ok n else err value_error
]

stream_id-range : (v : Value) → stream_id v ≡ in_range 1 0x7FFFFFFF v
unfolding stream_id
stream_id-range v = ground arith

uint32-range : (v : Value) → uint32 v ≡ in_range 0 0xFFFFFFFF v
unfolding uint32
uint32-range v = ground arith

uint31-range : (v : Value) → uint31 v ≡ in_range 0 0x7FFFFFFF v
unfolding uint31
uint31-range v = ground arith

uint64-range : (v : Value) → uint64 v ≡ in_range 0 (size_mod - 1) v
unfolding uint64
uint64-range v = ground arith

size-range : (v : Value) → size v ≡ in_range 0 (size_mod - 1) v
unfolding size
size-range v = ground arith

positive_size-range : (v : Value) → positive_size v ≡ in_range 1 (size_mod - 1) v
unfolding positive_size
positive_size-range v = ground arith

nonnegative_size-range : (v : Value) → nonnegative_size v ≡ in_range 0 ssize_max v
unfolding nonnegative_size
nonnegative_size-range v = ground arith

-- Each validator accepts exactly the integers of its range, unchanged; it refuses an object that is
-- no integer by a TypeError and an integer out of range, of any size, by a ValueError.
pub validators_in_range :
    (v : Value)
    → (stream_id v ≡ in_range 1 0x7FFFFFFF v)
      × (uint31 v ≡ in_range 0 0x7FFFFFFF v)
      × (uint32 v ≡ in_range 0 0xFFFFFFFF v)
      × (uint64 v ≡ in_range 0 (size_mod - 1) v)
      × (size v ≡ in_range 0 (size_mod - 1) v)
      × (positive_size v ≡ in_range 1 (size_mod - 1) v)
      × (nonnegative_size v ≡ in_range 0 ssize_max v)
validators_in_range v = (
  stream_id-range v,
  uint31-range v,
  uint32-range v,
  uint64-range v,
  size-range v,
  positive_size-range v,
  nonnegative_size-range v,
)
