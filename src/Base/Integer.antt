-- ===== src/Base/Integer.antt =====
-- Python's integers, over the native numbers.
use Prim.Native.Nat.{ℕ, zero, suc, ◌+◌}

pub data ℤ : Type 0 where
  pos negsuc : ℕ → ℤ

-- `a - b` of two natural numbers.
infixl 60 ◌⊖◌
abbrev pub ◌⊖◌ : ℕ → ℕ → ℤ
a ⊖ zero = pos a
zero ⊖ suc b = negsuc b
suc a ⊖ suc b = a ⊖ b

infixl 60 ◌+ℤ◌
abbrev pub ◌+ℤ◌ : ℤ → ℤ → ℤ
pos a +ℤ pos b = pos (a + b)
pos a +ℤ negsuc b = a ⊖ suc b
negsuc a +ℤ pos b = b ⊖ suc a
negsuc a +ℤ negsuc b = negsuc (suc (a + b))

abbrev pub neg : ℤ → ℤ
neg (pos zero) = pos zero
neg (pos (suc a)) = negsuc a
neg (negsuc a) = pos (suc a)
