-- ===== src/Word.antt =====
-- The 64-bit unsigned arithmetic of the sources (`uint_t`, `uint64_t`): results wrap, and a shift
-- by the width or more, or by a negative count, is undefined (`none`).
use Prim.Native.Nat.{bit_and}
use libswift.Base.{ℕ, ◌+◌, ◌-◌, ◌*◌, ◌/◌, ◌%◌, ◌^◌, Option, none, some, ltb, if◌then◌else◌}
use libswift.Base.Int.{ℤ, pos, negsuc}

abbrev pub u64 : ℕ → ℕ
u64 n = n % 2 ^ 64

abbrev pub add64 : ℕ → ℕ → ℕ
add64 a b = (a + b) % 2 ^ 64

abbrev pub sub64 : ℕ → ℕ → ℕ
sub64 a b = (a + 2 ^ 64 - b) % 2 ^ 64

abbrev pub neg64 : ℕ → ℕ
neg64 a = (2 ^ 64 - a) % 2 ^ 64

-- `~a`
abbrev pub compl64 : ℕ → ℕ
compl64 a = 2 ^ 64 - 1 - a

-- `a << k` and `a >> k` for a count that is known to be below the width.
abbrev pub shl64 : ℕ → ℕ → ℕ
shl64 a k = a * 2 ^ k % 2 ^ 64

abbrev pub shr64 : ℕ → ℕ → ℕ
shr64 a k = a / 2 ^ k

-- `a >> k` for any `int` count.
abbrev pub shift_right : ℕ → ℤ → Option ℕ
shift_right a (pos k) = if ltb k 64 then some (shr64 a k) else none
shift_right a (negsuc k) = none

-- `t & -t`, the lowest digit that is set.
abbrev pub low_bit : ℕ → ℕ
low_bit t = bit_and t (neg64 t)
