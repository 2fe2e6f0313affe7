-- ===== src/Server/Words.antt =====
-- Big-endian words in byte buffers, as server/src writes and reads them: `(x >> k) & 0xFF` for each
-- byte, and `b << k` joined by `|`. The shifted bytes share no bit, so `|` is written as a sum.
use c_chat.Prelude.{ℕ, ◌+◌, ◌*◌, ◌/◌, ◌%◌, ◌^◌, ◌<◌, ◌≡◌, List, [], ◌∷◌, ◌++◌, get_or, All, arith}

abbrev pub IsByte : ℕ → Type 0
IsByte b = b < 256

abbrev pub be32 : ℕ → List ℕ
be32 x = (x / 2 ^ 24 % 2 ^ 8) ∷ (x / 2 ^ 16 % 2 ^ 8) ∷ (x / 2 ^ 8 % 2 ^ 8) ∷ (x % 2 ^ 8) ∷ []

abbrev pub be16 : ℕ → List ℕ
be16 x = (x / 2 ^ 8 % 2 ^ 8) ∷ (x % 2 ^ 8) ∷ []

unfoldable pub read_be32 : List ℕ → ℕ
read_be32 b = get_or b 0 0 * 2 ^ 24 + get_or b 1 0 * 2 ^ 16 + get_or b 2 0 * 2 ^ 8 + get_or b 3 0

unfoldable pub join16 : ℕ → ℕ → ℕ
join16 hi lo = hi * 2 ^ 8 + lo

pub read_be32-be32 : (x : ℕ) (rest : List ℕ) → x < 2 ^ 32 → read_be32 (be32 x ++ rest) ≡ x
unfolding read_be32
read_be32-be32 x rest h = omega arith

pub join16-be16 : (x : ℕ) → x < 2 ^ 16 → join16 (x / 2 ^ 8 % 2 ^ 8) (x % 2 ^ 8) ≡ x
unfolding join16
join16-be16 x h = omega arith

pub be32-IsByte : (x : ℕ) → All IsByte (be32 x)
be32-IsByte x = omega arith
