-- ===== src/Prelude/Int.antt =====
-- Signed machine integers (Rust's i32 and i64) as integers over the native numbers, under the
-- library's names (its ℤ stands on the unary ℕ).
use Prim.Native.Nat.{ℕ, suc, ◌+◌, ◌-◌, ◌≤◌}
use mathlib.Core.Bool.{Bool}
use hrm_grag.Prelude.Tests.{if◌then◌else◌, leb, ltb}

-- `negsuc n` is -(n + 1).
pub data ℤ : Type 0 where
  pos : ℕ → ℤ
  negsuc : ℕ → ℤ

abbrev pub pos_part : ℤ → ℕ
pos_part (pos n) = n
pos_part (negsuc n) = 0

abbrev pub neg_part : ℤ → ℕ
neg_part (pos n) = 0
neg_part (negsuc n) = suc n

infix 50 ◌≤ℤ◌
abbrev pub ◌≤ℤ◌ : ℤ → ℤ → Type 0
a ≤ℤ b = pos_part a + neg_part b ≤ pos_part b + neg_part a

abbrev pub leb_ℤ : ℤ → ℤ → Bool
leb_ℤ a b = leb (pos_part a + neg_part b) (pos_part b + neg_part a)

-- `i32::MAX` and `i64::MAX`.
abbrev pub i32_max : ℕ
i32_max = 2147483647

abbrev pub i64_max : ℕ
i64_max = 9223372036854775807

-- `max(0)`: an integer below 0 becomes 0.
abbrev pub max_zero : ℤ → ℕ
max_zero = pos_part

-- `i32::saturating_add(1)`.
abbrev pub saturating_inc_i32 : ℤ → ℤ
saturating_inc_i32 (pos n) = if ltb n i32_max then pos (suc n) else pos i32_max
saturating_inc_i32 (negsuc n) = elim n [ ℕ.zero ↦ pos 0 | suc m ↦ negsuc m ]

-- `saturating_sub(1).clamp(0, 30)` on an i32.
abbrev pub pred_clamp_30 : ℤ → ℕ
pred_clamp_30 (pos n) = if leb (n - 1) 30 then n - 1 else 30
pred_clamp_30 (negsuc n) = 0
