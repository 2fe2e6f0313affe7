-- ===== src/Client/Terminal/Input.antt =====
-- src/utils.c and the loops that read lines: what of the input is read, and what is left.
use c_chat.Prelude.{
  ℕ, zero, suc, ◌-◌, ◌≤◌, ◌<◌, ◌≡◌, refl, sym, ap, ◌∙◌, List, [], ◌∷◌, ◌++◌, length, length-append,
  ◌==◌, arith, Bool-cases, inl, inr,
}
use mathlib.Core.List.{append_assoc}
use c_chat.Client.Terminal.{fgets, get_password_input}

-- `rest` is what is left of `stdin` when the first of it was read.
pub record Reads (stdin rest : List ℕ) : Type 0 where
  pub used : List ℕ
  pub split : stdin ≡ used ++ rest

pub none_read : (s : List ℕ) → Reads s s
none_read s = record { used = []; split = refl }

pub and_then : (s t u : List ℕ) → Reads s t → Reads t u → Reads s u
and_then s t u a b = record {
  used = a.used ++ b.used;
  split = a.split ∙ ap (λ x. a.used ++ x) b.split ∙ sym (append_assoc a.used b.used u);
}

pub length-Reads : (s t : List ℕ) → Reads s t → length t ≤ length s
length-Reads s t r = omega (arith, ap length r.split, length-append r.used t)

fgets-split : (n : ℕ) (s : List ℕ) → s ≡ (fgets n s).0 ++ (fgets n s).1
unfolding fgets
fgets-split zero [] = refl
fgets-split (suc n) [] = refl
fgets-split zero (c ∷ cs) = refl
fgets-split (suc n) (c ∷ cs) = elim (Bool-cases (c == 10)) [
  | inl end ↦ rw end refl
  | inr inside ↦ rw inside (ap (λ x. c ∷ x) (fgets-split n cs))
]

pub fgets-Reads : (n : ℕ) (s : List ℕ) → Reads s (fgets n s).1
fgets-Reads n s = record { used = (fgets n s).0; split = fgets-split n s }

pub get_password_input-Reads :
    (held : List ℕ) (n : ℕ) (s : List ℕ) → Reads s (get_password_input held n s).1
unfolding get_password_input
get_password_input-Reads held n s = fgets-Reads (n - 1) s

-- A buffer with room gets nothing at the end of the input only, and leaves less than there was.
pub data Got (s : List ℕ) : List ℕ × List ℕ → Type 0 where
  at_end : s ≡ [] → Got s ([], [])
  a_line : (c : ℕ) (line rest : List ℕ) → length rest < length s → Got s (c ∷ line, rest)

pub fgets-Got : (n : ℕ) (s : List ℕ) → Got s (fgets (suc n) s)
unfolding fgets
fgets-Got n [] = at_end refl
fgets-Got n (c ∷ cs) = elim (Bool-cases (c == 10)) [
  | inl end ↦ rw end (a_line c [] cs (omega arith))
  | inr inside ↦ rw inside (
      a_line c (fgets n cs).0 (fgets n cs).1
        (omega (arith, length-Reads cs (fgets n cs).1 (fgets-Reads n cs))))
]
