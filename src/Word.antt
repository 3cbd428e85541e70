-- ===== src/Word.antt =====
-- Machine words. An `int64` is its bit pattern, a number below 2 ^ 64: a conversion between `int64`
-- and `uint64` leaves it alone, `+` wraps, and the signed order flips the top bit.
-- A non-negative `int64` is its own pattern.
use gasworks.Prelude.{ℕ, ◌+◌, ◌-◌, ◌%◌, ◌^◌, ◌≤◌, ◌<◌, ◌≡◌, Bool, arith, ltb, leb}

abbrev pub max_int64 : ℕ
max_int64 = 9223372036854775807

abbrev pub IsInt64 : ℕ → Type 0
IsInt64 x = x < 2 ^ 64

-- The non-negative values: those of a sequence that was range-checked.
abbrev pub IsNat63 : ℕ → Type 0
IsNat63 x = x ≤ 9223372036854775807

-- a + b and a - b on int64 or uint64.
abbrev pub add64 : ℕ → ℕ → ℕ
add64 a b = (a + b) % 18446744073709551616

abbrev pub sub64 : ℕ → ℕ → ℕ
sub64 a b = (a + 18446744073709551616 - b) % 18446744073709551616

abbrev pub flip_sign : ℕ → ℕ
flip_sign a = (a + 9223372036854775808) % 18446744073709551616

-- a < b and a <= b on int64.
abbrev pub slt : ℕ → ℕ → Bool
slt a b = ltb (flip_sign a) (flip_sign b)

abbrev pub sle : ℕ → ℕ → Bool
sle a b = leb (flip_sign a) (flip_sign b)

-- On non-negative values the signed order is that of the naturals.
pub slt-eq-ltb : (a b : ℕ) → IsNat63 a → IsNat63 b → slt a b ≡ ltb a b
slt-eq-ltb a b ha hb = ground arith

pub sle-eq-leb : (a b : ℕ) → IsNat63 a → IsNat63 b → sle a b ≡ leb a b
sle-eq-leb a b ha hb = ground arith

-- A negative value is below every non-negative one.
pub slt_negative : (a b : ℕ) → IsInt64 a → max_int64 < a → IsNat63 b → slt a b ≡ Bool.true
slt_negative a b ha hn hb = ground arith
