-- ===== src/Prelude/Words.antt =====
-- Machine words: `usize` and `u64` wrap at 64 bits.
use Prim.Native.Nat.{ℕ, ◌+◌, ◌-◌, ◌%◌, ◌^◌, ◌≤◌, ◌<◌}
use mathlib.Core.Path.{◌≡◌}
use native.Mathlib.Omega.{arith}

abbrev pub usize_mod : ℕ
usize_mod = 2 ^ 64

-- No object is larger than this, in bytes: the language guarantees it of every allocation.
abbrev pub isize_limit : ℕ
isize_limit = 2 ^ 63

unfoldable pub add_usize : ℕ → ℕ → ℕ
add_usize a b = (a + b) % usize_mod

unfoldable pub sub_usize : ℕ → ℕ → ℕ
sub_usize a b = (a + usize_mod - b) % usize_mod

pub add_usize-eq-add : (a b : ℕ) → a + b < usize_mod → add_usize a b ≡ a + b
unfolding add_usize
add_usize-eq-add a b h = omega arith

pub sub_usize-eq-sub : (a b : ℕ) → a < usize_mod → b ≤ a → sub_usize a b ≡ a - b
unfolding sub_usize
sub_usize-eq-sub a b h k = omega arith
