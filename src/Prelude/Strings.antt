-- ===== src/Prelude/Strings.antt =====
-- C strings and byte buffers as lists of byte values: strcmp, strlen, strncpy and memcpy.
use Prim.Native.Nat.{ℕ, zero, suc, ◌≤◌}
use mathlib.Core.Path.{◌≡◌, refl, ap}
use mathlib.Core.Logic.{inl, inr, ◌≢◌}
use mathlib.Core.Bool.{Bool, true, false, ◌&&◌}
use mathlib.Core.List.{List, [], ◌∷◌}
use native.Mathlib.Omega.{arith}
use Prim.Native.Char.{code}
use Prim.Native.String.{String}
use c_chat.Prelude.Tests.{Bool-cases, ◌==◌}
use c_chat.Prelude.Lists.{length, take, drop, All}

-- The bytes of a string literal.
abbrev pub bytes_of : String → List ℕ
bytes_of String.[] = []
bytes_of (String.◌∷◌ c s) = code c ∷ bytes_of s

-- `strcmp(a, b) == 0`, on the bytes before the terminators.
unfoldable pub str_eq : List ℕ → List ℕ → Bool
str_eq [] [] = true
str_eq [] (y ∷ ys) = false
str_eq (x ∷ xs) [] = false
str_eq (x ∷ xs) (y ∷ ys) = x == y && str_eq xs ys

pub str_eq_refl : (xs : List ℕ) → str_eq xs xs ≡ true
unfolding str_eq
str_eq_refl [] = refl
str_eq_refl (x ∷ xs) = ground (arith, str_eq_refl xs)

pub str_eq→eq : (xs ys : List ℕ) → str_eq xs ys ≡ true → xs ≡ ys
unfolding str_eq
str_eq→eq [] [] h = refl
str_eq→eq [] (y ∷ ys) h = cc
str_eq→eq (x ∷ xs) [] h = cc
str_eq→eq (x ∷ xs) (y ∷ ys) h = ground (arith, str_eq→eq xs ys)

pub str_eq_ne : (xs ys : List ℕ) → xs ≢ ys → str_eq xs ys ≡ false
str_eq_ne xs ys h = elim (Bool-cases (str_eq xs ys)) [
  | inl e ↦ absurd (h (str_eq→eq xs ys e))
  | inr e ↦ e
]

-- The string that a buffer with a terminator behind these bytes holds.
unfoldable pub c_str : List ℕ → List ℕ
c_str [] = []
c_str (zero ∷ xs) = []
c_str (suc x ∷ xs) = suc x ∷ c_str xs

-- `len` bytes of a buffer from offset `off`, the source of a memcpy.
abbrev pub slice : List ℕ → ℕ → ℕ → List ℕ
slice buf off len = take len (drop off buf)

abbrev pub NonZero : ℕ → Type 0
NonZero b = b ≢ 0

pub length-c_str : (xs : List ℕ) → length (c_str xs) ≤ length xs
unfolding c_str
length-c_str [] = omega arith
length-c_str (zero ∷ xs) = omega arith
length-c_str (suc x ∷ xs) = omega (arith, length-c_str xs)

pub c_str-NonZero : (xs : List ℕ) → All NonZero (c_str xs)
unfolding c_str
c_str-NonZero [] = tt
c_str-NonZero (zero ∷ xs) = tt
c_str-NonZero (suc x ∷ xs) = ((λ e. omega arith), c_str-NonZero xs)

-- A string with no NUL inside is read back whole.
pub c_str-id : (xs : List ℕ) → All NonZero xs → c_str xs ≡ xs
unfolding c_str
c_str-id [] h = refl
c_str-id (zero ∷ xs) h = absurd (h.0 refl)
c_str-id (suc x ∷ xs) h = ap (◌∷◌ (suc x)) (c_str-id xs h.1)
