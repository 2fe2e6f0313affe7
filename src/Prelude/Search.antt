-- ===== src/Prelude/Search.antt =====
-- A `for` loop over an array that returns at the first entry with a property, as the entry's index.
use Prim.Native.Nat.{ℕ, zero, suc, ◌<◌}
use mathlib.Core.Path.{◌≡◌, refl}
use mathlib.Core.Logic.{◌≢◌}
use mathlib.Core.Bool.{Bool, true, false}
use mathlib.Core.Option.{Option, none, some}
use mathlib.Core.List.{List, [], ◌∷◌, ◌++◌}
use native.Mathlib.Omega.{arith}
use c_chat.Prelude.Tests.{if◌then◌else◌}
use c_chat.Prelude.Lists.{length, get_or, set, replicate, All}

module _ {ℓ} {A : Type ℓ} (p : A → Bool) where
  abbrev pub next_index : Option ℕ → Option ℕ
  next_index none = none
  next_index (some i) = some (suc i)

  unfoldable pub find_index : List A → Option ℕ
  find_index [] = none
  find_index (x ∷ xs) = if p x then some 0 else next_index (find_index xs)

  -- The index is in the array, and the entry there has the property.
  pub find_index-get :
      (xs : List A) (i : ℕ) (d : A)
      → find_index xs ≡ some i
      → (i < length xs) × (p (get_or xs i d) ≡ true)
  unfolding find_index
  find_index-get [] i d h = cc
  find_index-get (x ∷ xs) zero d h = ground (arith, find_index-get xs zero d)
  find_index-get (x ∷ xs) (suc i) d h = ground (arith, find_index-get xs i d)

  -- If nothing is found, no entry has it.
  pub find_index-none : (xs : List A) → find_index xs ≡ none → All (λ x. p x ≡ false) xs
  unfolding find_index
  find_index-none [] h = tt
  find_index-none (x ∷ xs) h = ground (arith, find_index-none xs)

  pub find_index-append_found :
      (xs ys : List A) → find_index xs ≢ none → find_index (xs ++ ys) ≡ find_index xs
  unfolding find_index
  find_index-append_found [] ys h = absurd (h refl)
  find_index-append_found (x ∷ xs) ys h = ground (arith, find_index-append_found xs ys)

  -- An entry behind those that lack the property is found at the end.
  pub find_index-append_new :
      (xs : List A) (y : A)
      → find_index xs ≡ none
      → p y ≡ true
      → find_index (xs ++ y ∷ []) ≡ some (length xs)
  unfolding find_index
  find_index-append_new [] y h k = rw k
  find_index-append_new (x ∷ xs) y h k = ground (arith, find_index-append_new xs y)

  -- An entry that lacks the property adds nothing.
  pub find_index-append_miss :
      (xs : List A) (y : A) → p y ≡ false → find_index (xs ++ y ∷ []) ≡ find_index xs
  unfolding find_index
  find_index-append_miss [] y h = rw h
  find_index-append_miss (x ∷ xs) y h = ground (arith, find_index-append_miss xs y h)

  -- A write that keeps the property's value is not seen.
  pub find_index-set :
      (xs : List A) (j : ℕ) (v d : A)
      → p v ≡ p (get_or xs j d)
      → find_index (set xs j v) ≡ find_index xs
  unfolding find_index
  find_index-set [] j v d h = refl
  find_index-set (x ∷ xs) zero v d h = rw h
  find_index-set (x ∷ xs) (suc j) v d h = ground (arith, find_index-set xs j v d h)

module _ {ℓ κ} {A : Type ℓ} (P : A → Type κ) where
  -- After a write an entry is the old one, or the one written.
  pub get_or-set_cases :
      (xs : List A) (i j : ℕ) (v d : A) → P (get_or xs j d) → P v → P (get_or (set xs i v) j d)
  get_or-set_cases [] i j v d old new = old
  get_or-set_cases (x ∷ xs) zero zero v d old new = new
  get_or-set_cases (x ∷ xs) zero (suc j) v d old new = old
  get_or-set_cases (x ∷ xs) (suc i) zero v d old new = old
  get_or-set_cases (x ∷ xs) (suc i) (suc j) v d old new = get_or-set_cases xs i j v d old new

  pub get_or-replicate : (n i : ℕ) (x d : A) → P x → P d → P (get_or (replicate n x) i d)
  get_or-replicate zero i x d p q = q
  get_or-replicate (suc n) zero x d p q = p
  get_or-replicate (suc n) (suc i) x d p q = get_or-replicate n i x d p q

module _ {ℓ κ} {A : Type ℓ} {B : Type κ} (f : A → B) where
  -- A write that keeps a value of its entry keeps that of all.
  pub get_or-set_same :
      (xs : List A) (i j : ℕ) (v d : A)
      → f v ≡ f (get_or xs i d)
      → f (get_or (set xs i v) j d) ≡ f (get_or xs j d)
  get_or-set_same [] i j v d h = refl
  get_or-set_same (x ∷ xs) zero zero v d h = h
  get_or-set_same (x ∷ xs) zero (suc j) v d h = refl
  get_or-set_same (x ∷ xs) (suc i) zero v d h = refl
  get_or-set_same (x ∷ xs) (suc i) (suc j) v d h = get_or-set_same xs i j v d h
