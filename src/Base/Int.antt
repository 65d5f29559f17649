-- ===== src/Base/Int.antt =====
-- Signed 64-bit integers: the library's ℤ over the native numbers, with Go's wrap-around.
use Prim.Native.Nat.{ℕ, suc, ◌+◌, ◌-◌, ◌*◌, ◌%◌, ◌^◌, ◌≤◌, ◌<◌}
use mathlib.Core.Path.{◌≡◌, refl}
use mathlib.Core.Bool.{Bool}
use native.Mathlib.Omega.{arith}
use go_httpbin.Base.Tests.{ltb, leb, if◌then◌else◌}

-- `negsuc n` is -(n + 1).
pub data ℤ : Type 0 where
  pos : ℕ → ℤ
  negsuc : ℕ → ℤ

abbrev pub pos_part : ℤ → ℕ
pos_part (pos n) = n
pos_part (negsuc n) = 0

abbrev pub neg_part : ℤ → ℕ
neg_part (pos n) = 0
neg_part (negsuc n) = suc n

abbrev pub sub_ℕ : ℕ → ℕ → ℤ
sub_ℕ a b = if leb b a then pos (a - b) else negsuc (b - a - 1)

infixl 65 ◌+ℤ◌ ◌-ℤ◌
infix 50 ◌≤ℤ◌ ◌<ℤ◌
unfoldable pub ◌+ℤ◌ : ℤ → ℤ → ℤ
a +ℤ b = sub_ℕ (pos_part a + pos_part b) (neg_part a + neg_part b)

unfoldable pub ◌-ℤ◌ : ℤ → ℤ → ℤ
a -ℤ b = sub_ℕ (pos_part a + neg_part b) (neg_part a + pos_part b)

abbrev pub ◌≤ℤ◌ : ℤ → ℤ → Type 0
a ≤ℤ b = pos_part a + neg_part b ≤ pos_part b + neg_part a

abbrev pub ◌<ℤ◌ : ℤ → ℤ → Type 0
a <ℤ b = pos_part a + neg_part b < pos_part b + neg_part a

abbrev pub ltb_ℤ : ℤ → ℤ → Bool
ltb_ℤ a b = ltb (pos_part a + neg_part b) (pos_part b + neg_part a)

-- The number that a 64-bit pattern stands for in two's complement.
abbrev pub signed64 : ℕ → ℤ
signed64 w = if ltb w (2 ^ 63) then pos w else negsuc (2 ^ 64 - w - 1)

-- The 64-bit pattern of an integer.
abbrev pub pattern64 : ℤ → ℕ
pattern64 (pos n) = n % 2 ^ 64
pattern64 (negsuc n) = 2 ^ 64 - 1 - n % 2 ^ 64

-- Go's `a + b` and `a - b` on int64.
unfoldable pub add64 : ℤ → ℤ → ℤ
add64 a b = signed64 ((pattern64 a + pattern64 b) % 2 ^ 64)

unfoldable pub sub64 : ℤ → ℤ → ℤ
sub64 a b = signed64 ((pattern64 a + 2 ^ 64 - pattern64 b) % 2 ^ 64)

unfoldable pub mul64 : ℤ → ℤ → ℤ
mul64 a b = signed64 (pattern64 a * pattern64 b % 2 ^ 64)

-- Where the sum of two naturals fits, it does not wrap.
pub add64-pos : (a b : ℕ) → a + b < 2 ^ 63 → add64 (pos a) (pos b) ≡ pos (a + b)
unfolding add64
add64-pos a b h = ground arith

pub add64_minus : add64 (pos 3) (negsuc 4) ≡ negsuc 1
unfolding add64
add64_minus = refl
