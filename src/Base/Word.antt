-- ===== src/Base/Word.antt =====
-- The C integers of the program. An `int` is its 32-bit pattern, a number below 2 ^ 32.
use Prim.Native.Nat.{ℕ, ◌+◌, ◌-◌, ◌*◌, ◌/◌, ◌%◌, ◌^◌}
use mathlib.Core.Path.{◌≡◌}
use mathlib.Core.Bool.{Bool}
use mathlib.Core.List.{List, [], ◌∷◌}
use native.Mathlib.Omega.{arith}
use net_module.Base.Tests.{ltb, leb, if◌then◌else◌}

abbrev pub int_mod : ℕ
int_mod = 2 ^ 32

-- `x < 0`: the sign bit.
abbrev pub is_negative : ℕ → Bool
is_negative w = leb (2 ^ 31) w

-- The value -1, which system calls return on failure.
abbrev pub minus_one : ℕ
minus_one = 2 ^ 32 - 1

-- Addition of two `int`s. An overflow wraps around, as in the repository's unoptimised Debug build.
abbrev pub add_int : ℕ → ℕ → ℕ
add_int a b = (a + b) % 2 ^ 32

-- The conversion of an `int` to the 64-bit `size_t`: the sign is extended.
abbrev pub size_of_int : ℕ → ℕ
size_of_int w = if is_negative w then w + (2 ^ 64 - 2 ^ 32) else w

-- The order of two `int`s.
abbrev pub int_ltb : ℕ → ℕ → Bool
int_ltb a b = ltb ((a + 2 ^ 31) % 2 ^ 32) ((b + 2 ^ 31) % 2 ^ 32)

-- The first four bytes of an integer in memory, on a little-endian machine.
abbrev pub le_bytes : ℕ → List ℕ
le_bytes n = n % 256 ∷ n / 256 % 256 ∷ n / 65536 % 256 ∷ n / 16777216 % 256 ∷ []

-- Four bytes of memory read as an `int`.
abbrev pub int_of_bytes : ℕ → ℕ → ℕ → ℕ → ℕ
int_of_bytes a b c d = a + 256 * b + 65536 * c + 16777216 * d

pub int_of_bytes-le_bytes :
    (n : ℕ)
    → int_of_bytes (n % 256) (n / 256 % 256) (n / 65536 % 256) (n / 16777216 % 256) ≡ n % 2 ^ 32
int_of_bytes-le_bytes n = omega arith
