-- ===== src/Common/Casts.antt =====
-- Conversions between the fixed-width integers of C++, and its division, which rounds towards zero.
use Prim.Native.Nat.{ℕ, suc, ◌-◌, ◌/◌, ◌%◌}
use xb.Common.Tests.{ltb, if◌then◌else◌}
use xb.Common.Int.{ℤ, pos, negsuc, neg_ℤ}

-- `static_cast<uint8_t>`
abbrev pub u8 : ℤ → ℕ
u8 (pos n) = n % 256
u8 (negsuc n) = 255 - n % 256

-- A 32-bit pattern as an `int32_t`, and `static_cast<int32_t>`.
abbrev pub i32_of_bits : ℕ → ℤ
i32_of_bits n = if ltb n 2147483648 then pos n else negsuc (4294967295 - n)

abbrev pub i32 : ℤ → ℤ
i32 (pos n) = i32_of_bits (n % 4294967296)
i32 (negsuc n) = i32_of_bits (4294967295 - n % 4294967296)

-- A 16-bit pattern as an `int16_t`, and `static_cast<int16_t>`.
abbrev pub i16_of_bits : ℕ → ℤ
i16_of_bits n = if ltb n 32768 then pos n else negsuc (65535 - n)

abbrev pub i16 : ℤ → ℤ
i16 (pos n) = i16_of_bits (n % 65536)
i16 (negsuc n) = i16_of_bits (65535 - n % 65536)

-- A byte as a `char`, where `char` is signed.
abbrev pub char_value : ℕ → ℤ
char_value c = if ltb c 128 then pos c else negsuc (255 - c)

-- `z / n` and `z % n` for a positive `n`.
unfoldable pub tdiv : ℤ → ℕ → ℤ
unfolding neg_ℤ
tdiv (pos a) n = pos (a / n)
tdiv (negsuc a) n = neg_ℤ (pos (suc a / n))

unfoldable pub tmod : ℤ → ℕ → ℤ
unfolding neg_ℤ
tmod (pos a) n = pos (a % n)
tmod (negsuc a) n = neg_ℤ (pos (suc a % n))
