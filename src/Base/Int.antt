-- ===== src/Base/Int.antt =====
-- Signed integers over the native numbers, and Go's int64 arithmetic, which wraps.
use Prim.Native.Nat.{◌/◌, ◌*◌, ℕ, suc, ◌+◌, ◌-◌, ◌%◌, ◌≤◌, ◌<◌}
use mathlib.Core.Path.{◌≡◌}
use mathlib.Core.Logic.{◌↔◌, inl, inr}
use mathlib.Core.Bool.{Bool, true, ◌&&◌}
use native.Mathlib.Omega.{arith}
use go_invoicing.Base.Tests.{ltb, leb, ◌==◌, if◌then◌else◌, Bool-cases}

-- `negsuc n` is -(n + 1).
pub data ℤ : Type 0 where
  pos : ℕ → ℤ
  negsuc : ℕ → ℤ

abbrev pub pos_part : ℤ → ℕ
pos_part (pos n) = n
pos_part (negsuc n) = 0

abbrev pub neg_part : ℤ → ℕ
neg_part (pos n) = 0
neg_part (negsuc n) = suc n

abbrev pub sub_ℕ : ℕ → ℕ → ℤ
sub_ℕ a b = if leb b a then pos (a - b) else negsuc (b - a - 1)

infixl 65 ◌+ℤ◌ ◌-ℤ◌
infix 50 ◌≤ℤ◌ ◌<ℤ◌ ◌==ℤ◌
unfoldable pub ◌+ℤ◌ : ℤ → ℤ → ℤ
a +ℤ b = sub_ℕ (pos_part a + pos_part b) (neg_part a + neg_part b)

unfoldable pub ◌-ℤ◌ : ℤ → ℤ → ℤ
a -ℤ b = sub_ℕ (pos_part a + neg_part b) (neg_part a + pos_part b)

abbrev pub ◌≤ℤ◌ : ℤ → ℤ → Type 0
a ≤ℤ b = pos_part a + neg_part b ≤ pos_part b + neg_part a

abbrev pub ◌<ℤ◌ : ℤ → ℤ → Type 0
a <ℤ b = pos_part a + neg_part b < pos_part b + neg_part a

abbrev pub ltb_ℤ : ℤ → ℤ → Bool
ltb_ℤ a b = ltb (pos_part a + neg_part b) (pos_part b + neg_part a)

abbrev pub leb_ℤ : ℤ → ℤ → Bool
leb_ℤ a b = leb (pos_part a + neg_part b) (pos_part b + neg_part a)

abbrev pub ◌==ℤ◌ : ℤ → ℤ → Bool
a ==ℤ b = pos_part a + neg_part b == pos_part b + neg_part a

pub +ℤ_parts :
    (a b : ℤ)
    → pos_part (a +ℤ b) + neg_part a + neg_part b ≡ neg_part (a +ℤ b) + pos_part a + pos_part b
unfolding ◌+ℤ◌
+ℤ_parts a b = ground arith

pub -ℤ_parts :
    (a b : ℤ)
    → pos_part (a -ℤ b) + neg_part a + pos_part b ≡ neg_part (a -ℤ b) + pos_part a + neg_part b
unfolding ◌-ℤ◌
-ℤ_parts a b = ground arith

pub eq_of_parts : (a b : ℤ) → pos_part a + neg_part b ≡ pos_part b + neg_part a → a ≡ b
eq_of_parts a b h = ground arith

pub ruleset int_laws = (arith, +ℤ_parts, -ℤ_parts, eq_of_parts)

pub ==ℤ_iff : (a b : ℤ) → ((a ==ℤ b) ≡ true) ↔ (a ≡ b)
==ℤ_iff a b = ground arith

-- The residue of an integer modulo 2 ^ 64: its 64-bit two's complement pattern.
unfoldable pub bits64 : ℤ → ℕ
bits64 (pos n) = n % 18446744073709551616
bits64 (negsuc n) = 18446744073709551615 - n % 18446744073709551616

-- The int64 that a 64-bit pattern stands for.
unfoldable pub of_bits64 : ℕ → ℤ
of_bits64 b = if ltb b 9223372036854775808 then pos b else negsuc (18446744073709551615 - b)

-- What an int64 holds after an operation whose exact result is `z`.
unfoldable pub wrap64 : ℤ → ℤ
unfolding bits64 of_bits64
wrap64 z = of_bits64 (bits64 z)

abbrev pub InInt64 : ℤ → Type 0
InInt64 z = (pos_part z < 9223372036854775808) × (neg_part z ≤ 9223372036854775808)

abbrev pub in_int64 : ℤ → Bool
in_int64 z = ltb (pos_part z) 9223372036854775808 && leb (neg_part z) 9223372036854775808

-- `a + b` and `a - b` on int64.
unfoldable pub add64 : ℤ → ℤ → ℤ
add64 a b = wrap64 (a +ℤ b)

unfoldable pub sub64 : ℤ → ℤ → ℤ
sub64 a b = wrap64 (a -ℤ b)

pub wrap64-InInt64 : (z : ℤ) → InInt64 (wrap64 z)
unfolding wrap64
wrap64-InInt64 (pos n) = ground arith
wrap64-InInt64 (negsuc n) = ground arith

pub wrap64_id : (z : ℤ) → InInt64 z → wrap64 z ≡ z
unfolding wrap64
wrap64_id (pos n) h = ground arith
wrap64_id (negsuc n) h = ground arith

-- The result of an int64 operation differs from the exact one by a multiple of 2 ^ 64.
pub wrap64_parts :
    (z : ℤ)
    → (m : ℕ) × (n : ℕ) × (pos_part (wrap64 z) + neg_part z + m * 18446744073709551616
        ≡ neg_part (wrap64 z) + pos_part z + n * 18446744073709551616)
unfolding wrap64
wrap64_parts (pos k) = elim (Bool-cases (ltb (k % 18446744073709551616) 9223372036854775808)) [
  | inl low ↦ (k / 18446744073709551616, 0, ground arith)
  | inr high ↦ (k / 18446744073709551616 + 1, 0, ground arith)
]
wrap64_parts (negsuc k) =
    elim (Bool-cases (ltb (18446744073709551615 - k % 18446744073709551616) 9223372036854775808)) [
      | inl low ↦ (0, k / 18446744073709551616 + 1, ground arith)
      | inr high ↦ (0, k / 18446744073709551616, ground arith)
    ]

-- Exact results that differ by a multiple of 2 ^ 64 wrap to the same int64.
pub wrap64_eq :
    (a b : ℤ) (m n : ℕ)
    → pos_part a + neg_part b + m * 18446744073709551616
      ≡ neg_part a + pos_part b + n * 18446744073709551616
    → wrap64 a ≡ wrap64 b
unfolding wrap64
wrap64_eq a b m n h = ground arith
