-- ===== src/Client/Users/Password.antt =====
-- src/user.c, register_user: the loop that asks for a password and its confirmation.
use c_chat.Prelude.{
  ℕ, suc, ◌≡◌, refl, List, [], str_eq, str_eq_refl, if◌then◌else◌, Bool-cases, inl, inr,
}
use c_chat.Client.Terminal.{get_password_input, max_password_len}
use c_chat.Client.Users.{choose_password}

module _ (password confirm_password stdin : List ℕ) where
  -- The two entries of the first round, and what is left of the input.
  abbrev pub entered : List ℕ
  entered = (get_password_input password max_password_len stdin).0

  abbrev pub confirmed : List ℕ
  confirmed =
      (get_password_input confirm_password max_password_len
        (get_password_input password max_password_len stdin).1).0

  abbrev pub left_over : List ℕ
  left_over =
      (get_password_input confirm_password max_password_len
        (get_password_input password max_password_len stdin).1).1

  -- The loop ends after its first round, whatever is typed: with the password if the confirmation
  -- repeats it, and with the empty password if it does not.
  pub choose_password-once :
      (fuel : ℕ)
      → choose_password (suc fuel) password confirm_password stdin
        ≡ (if str_eq entered confirmed then entered else [], left_over)
  unfolding choose_password
  choose_password-once fuel = elim (Bool-cases (str_eq entered confirmed)) [
    | inl same ↦ rw (same, same) refl
    | inr other ↦ rw (other, str_eq_refl []) refl
  ]
