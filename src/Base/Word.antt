-- ===== src/Base/Word.antt =====
-- `size_t` and `Py_ssize_t` of a 64-bit platform, and `size_t` arithmetic with its wrap-around.
use Prim.Native.Nat.{ℕ, ◌+◌, ◌-◌, ◌%◌, ◌^◌, ◌≤◌}
use mathlib.Core.Path.{◌≡◌}
use native.Mathlib.Omega.{arith}

abbrev pub size_mod : ℕ
size_mod = 2 ^ 64

-- `(<size_t>-1) >> 1`, which is also the largest `Py_ssize_t`.
abbrev pub ssize_max : ℕ
ssize_max = 2 ^ 63 - 1

unfoldable pub add_size : ℕ → ℕ → ℕ
add_size a b = (a + b) % size_mod

unfoldable pub sub_size : ℕ → ℕ → ℕ
sub_size a b = (a + (size_mod - b % size_mod)) % size_mod

-- A count that is kept modulo the word size stays so under both operations.
pub add_size-mod : (a b : ℕ) → add_size (a % size_mod) b ≡ (a + b) % size_mod
unfolding add_size
add_size-mod a b = omega arith

pub sub_size-mod : (a b : ℕ) → b ≤ a → sub_size (a % size_mod) b ≡ (a - b) % size_mod
unfolding sub_size
sub_size-mod a b h = omega arith
