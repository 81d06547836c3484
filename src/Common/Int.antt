-- ===== src/Common/Int.antt =====
-- Go's int and int64: integers over the native numbers with the wrap-around of 64 bits.
use memberclass_backend_gola.Common.{
  ℕ, suc, ◌+◌, ◌-◌, ◌*◌, ◌%◌, ◌≤◌, ◌<◌, ◌≡◌, Bool, arith, ltb, leb, if◌then◌else◌,
}

-- `negsuc n` is -(n + 1).
pub data ℤ : Type 0 where
  pos : ℕ → ℤ
  negsuc : ℕ → ℤ

abbrev pub pos_part : ℤ → ℕ
pos_part (pos n) = n
pos_part (negsuc n) = 0

abbrev pub neg_part : ℤ → ℕ
neg_part (pos n) = 0
neg_part (negsuc n) = suc n

-- a - b, as an integer.
abbrev pub sub_ℕ : ℕ → ℕ → ℤ
sub_ℕ a b = if leb b a then pos (a - b) else negsuc (b - a - 1)

abbrev pub ltb_ℤ : ℤ → ℤ → Bool
ltb_ℤ a b = ltb (pos_part a + neg_part b) (pos_part b + neg_part a)

infix 50 ◌≤ℤ◌
abbrev pub ◌≤ℤ◌ : ℤ → ℤ → Type 0
a ≤ℤ b = pos_part a + neg_part b ≤ pos_part b + neg_part a

-- 2 ^ 63 and 2 ^ 64.
abbrev pub half_64 : ℕ
half_64 = 9223372036854775808

abbrev pub mod_64 : ℕ
mod_64 = 18446744073709551616

-- The signed 64-bit value of p - n: the residue in [-2^63, 2^63).
unfoldable pub wrap_sub : ℕ → ℕ → ℤ
wrap_sub p n = sub_ℕ ((p + half_64 + (mod_64 - n % mod_64)) % mod_64) half_64

infixl 65 ◌+64◌ ◌-64◌
infixl 70 ◌*64◌
unfoldable pub ◌+64◌ : ℤ → ℤ → ℤ
a +64 b = wrap_sub (pos_part a + pos_part b) (neg_part a + neg_part b)

unfoldable pub ◌-64◌ : ℤ → ℤ → ℤ
a -64 b = wrap_sub (pos_part a + neg_part b) (neg_part a + pos_part b)

unfoldable pub ◌*64◌ : ℤ → ℤ → ℤ
a *64 b =
    wrap_sub (pos_part a * pos_part b + neg_part a * neg_part b)
      (pos_part a * neg_part b + neg_part a * pos_part b)

-- An int64 holds the value.
abbrev pub Fits : ℤ → Type 0
Fits a = (pos_part a < half_64) × (neg_part a ≤ half_64)

-- Where the exact result fits, there is no wrap-around.
pub wrap_sub-pos : (p n : ℕ) → n ≤ p → p - n < half_64 → wrap_sub p n ≡ pos (p - n)
unfolding wrap_sub
wrap_sub-pos p n h k = ground arith

pub wrap_sub-negsuc : (p n : ℕ) → p < n → n - p ≤ half_64 → wrap_sub p n ≡ negsuc (n - p - 1)
unfolding wrap_sub
wrap_sub-negsuc p n h k = ground arith

pub +64_pos : (a b : ℕ) → a + b < half_64 → pos a +64 pos b ≡ pos (a + b)
unfolding ◌+64◌ wrap_sub
+64_pos a b h = ground arith

pub -64_pos : (a b : ℕ) → b ≤ a → a < half_64 → pos a -64 pos b ≡ pos (a - b)
unfolding ◌-64◌ wrap_sub
-64_pos a b h k = ground arith

pub -64_negsuc : (a b : ℕ) → a < b → b ≤ half_64 → pos a -64 pos b ≡ negsuc (b - a - 1)
unfolding ◌-64◌ wrap_sub
-64_negsuc a b h k = ground arith
