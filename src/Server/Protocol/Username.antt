-- ===== src/Server/Protocol/Username.antt =====
-- server/src/protocol.c, validate_username_server: which names it accepts.
use c_chat.Prelude.{
  ℕ, ◌≤◌, ◌≡◌, refl, ◌⊎◌, inl, inr, true, List, [], ◌∷◌, pos, negsuc, length, All, arith,
  Bool-cases, NonZero, leb, ◌==◌, ◌||◌,
}
use c_chat.Server.Types.{max_username_len}
use c_chat.Server.Protocol.{is_name_char, all_name_chars, validate_username_server}

-- A letter, a digit or an underscore of ASCII.
abbrev pub IsNameChar : ℕ → Type 0
IsNameChar c = ((97 ≤ c) × (c ≤ 122)) ⊎ ((65 ≤ c) × (c ≤ 90)) ⊎ ((48 ≤ c) × (c ≤ 57)) ⊎ (c ≡ 95)

pub record IsUsername (name : List ℕ) : Type 0 where
  pub nonempty : 1 ≤ length name
  pub short : length name ≤ 31
  pub chars : All IsNameChar name

is_name_char→ : (c : ℕ) → is_name_char c ≡ true → IsNameChar c
unfolding is_name_char
is_name_char→ c h = ground arith

→is_name_char : (c : ℕ) → IsNameChar c → is_name_char c ≡ true
unfolding is_name_char
→is_name_char c h = ground arith

All-name_chars→ : (cs : List ℕ) → all_name_chars cs ≡ true → All IsNameChar cs
unfolding all_name_chars
All-name_chars→ [] h = tt
All-name_chars→ (c ∷ cs) h = ground (arith, is_name_char→ c, All-name_chars→ cs)

→All-name_chars : (cs : List ℕ) → All IsNameChar cs → all_name_chars cs ≡ true
unfolding all_name_chars
→All-name_chars [] h = refl
→All-name_chars (c ∷ cs) h = ground (arith, →is_name_char c h.0, →All-name_chars cs h.1)

-- `validate_username_server` returns 0 for the usernames, 1 to 31 letters, digits or underscores,
-- and -1 for every other string.
pub validate_username_server-IsUsername :
    (name : List ℕ)
    → ((validate_username_server name ≡ pos 0) × IsUsername name)
      ⊎ ((validate_username_server name ≡ negsuc 0) × ¬ IsUsername name)
unfolding validate_username_server
validate_username_server-IsUsername name =
    elim (Bool-cases (length name == 0 || leb max_username_len (length name))) [
      | inl bad ↦ inr (rw bad refl, λ u. ground (arith, u.nonempty, u.short, bad))
      | inr good ↦ elim (Bool-cases (all_name_chars name)) [
        | inl ok ↦ inl (
          rw (good, ok) refl,
          record {
            nonempty = ground (arith, good);
            short = ground (arith, good);
            chars = All-name_chars→ name ok;
          },
        )
        | inr wrong ↦ inr (rw (good, wrong) refl, λ u. ground (arith, →All-name_chars name u.chars))
      ]
    ]

pub IsUsername-NonZero : (name : List ℕ) → All IsNameChar name → All NonZero name
IsUsername-NonZero [] h = tt
IsUsername-NonZero (c ∷ cs) h = ((λ e. ground (arith, h.0)), IsUsername-NonZero cs h.1)

pub accepts : (name : List ℕ) → validate_username_server name ≡ pos 0 → IsUsername name
accepts name h = elim (validate_username_server-IsUsername name) [
  | inl (_, u) ↦ u
  | inr (e, _) ↦ cc
]
