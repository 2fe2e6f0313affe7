-- ===== src/Prelude/Int.antt =====
-- The `int` and `ssize_t` results of C functions, and file descriptors.
use Prim.Native.Nat.{ℕ}
use mathlib.Core.Path.{◌≡◌}
use mathlib.Core.Bool.{Bool, true, false}
use mathlib.Core.Logic.{◌≢◌, inl, inr}
use c_chat.Prelude.Tests.{◌==◌, Bool-cases}
use native.Mathlib.Omega.{arith}

-- `negsuc n` is -(n + 1).
pub data ℤ : Type 0 where
  pos : ℕ → ℤ
  negsuc : ℕ → ℤ

-- `x < 0`
abbrev pub is_neg : ℤ → Bool
is_neg (pos n) = false
is_neg (negsuc n) = true

-- `x == y`
abbrev pub int_eq : ℤ → ℤ → Bool
int_eq (pos m) (pos n) = m == n
int_eq (pos m) (negsuc n) = false
int_eq (negsuc m) (pos n) = false
int_eq (negsuc m) (negsuc n) = m == n

pub int_eq→eq : (x y : ℤ) → int_eq x y ≡ true → x ≡ y
int_eq→eq (pos m) (pos n) h = ground arith
int_eq→eq (pos m) (negsuc n) h = cc
int_eq→eq (negsuc m) (pos n) h = cc
int_eq→eq (negsuc m) (negsuc n) h = ground arith

pub int_eq_refl : (x : ℤ) → int_eq x x ≡ true
int_eq_refl (pos m) = ground arith
int_eq_refl (negsuc m) = ground arith

pub int_eq_ne : (a b : ℤ) → a ≢ b → int_eq a b ≡ false
int_eq_ne a b ne = elim (Bool-cases (int_eq a b)) [
  | inl e ↦ absurd (ne (int_eq→eq a b e))
  | inr e ↦ e
]
