-- ===== src/Server/Handlers/Account/Register.antt =====
-- server/src/message_handlers.c: registrations and requests for keys that are laid out as the protocol says.
use c_chat.Prelude.{
  ℕ, suc, ◌+◌, ◌≤◌, ◌<◌, ◌≡◌, refl, ap, ◌∙◌, inl, inr, false, none, List, [], ◌∷◌, ◌++◌, ℤ, pos,
  is_neg, length, length-append, take, drop, take-all, take-append, drop-append, get_or, c_str,
  c_str-id, ltb, arith,
}
use c_chat.Server.Types.{max_clients, register_response, public_key_response}
use c_chat.Server.Io.{Env}
use c_chat.Server.Protocol.{validate_username_server}
use c_chat.Server.Protocol.Username.{
  IsUsername, IsUsername-NonZero, validate_username_server-IsUsername,
}
use c_chat.Server.State.{Server, lift}
use c_chat.Server.Users.{find_user, zero_user, add_user}
use c_chat.Server.Users.Registry.{Added, add_user-AddUser}
use c_chat.Server.Handlers.{respond}
use c_chat.Server.Handlers.Account.{
  bad_name, read_name, behind_name, register_reply, handle_register_user, public_key_reply,
  handle_get_public_key,
}

-- A payload that starts with a name, as the protocol lays it out.
abbrev pub name_payload : List ℕ → List ℕ → List ℕ
name_payload name rest = length name ∷ (name ++ rest)

module _ (name rest : List ℕ) (u : IsUsername name) where
  -- The handlers read back the name and what stands behind it.
  pub read_name-name_payload : read_name (name_payload name rest) ≡ name
  unfolding read_name
  read_name-name_payload =
      ap c_str (take-append name rest (length name) refl)
      ∙ c_str-id name (IsUsername-NonZero name u.chars)

  pub behind_name-name_payload : behind_name (name_payload name rest) ≡ rest
  unfolding behind_name
  behind_name-name_payload =
      let next : 1 + length name ≡ suc (length name) = omega arith in
      ap (λ k. drop k (name_payload name rest)) next ∙ drop-append name rest (length name) refl

  pub bad_name-name_payload :
      (more : ℕ) → more ≤ length rest → bad_name (name_payload name rest) more ≡ false
  unfolding bad_name
  bad_name-name_payload more h = ground (arith, u.nonempty, u.short, length-append name rest)

valid : (name : List ℕ) → IsUsername name → is_neg (validate_username_server name) ≡ false
valid name u = elim (validate_username_server-IsUsername name) [
  | inl (e, _) ↦ rw e refl
  | inr (_, bad) ↦ absurd (bad u)
]

module _ (env : Env) (name key : List ℕ) (s : Server) (u : IsUsername name) where
  -- A well formed registration reaches `add_user`, and is answered by its result.
  pub handle_register_user-add_user :
      (i : ℕ)
      → length key ≡ env.public_key_size
      → handle_register_user env i (name_payload name key) s ≡ (
          let (result, s₁) = add_user env name key s in
          respond env i register_response (register_reply result) s₁)
  unfolding handle_register_user
  handle_register_user-add_user i size =
      let long : ltb (length (name_payload name key)) (1 + env.public_key_size) ≡ false =
        ground (arith, length-append name key) in
      rw (
        long,
        bad_name-name_payload name key u env.public_key_size (omega arith),
        read_name-name_payload name key u,
        behind_name-name_payload name key u,
        valid name u,
      )

  -- A well formed request for a key is answered with that of the user that the name finds.
  pub handle_get_public_key-find_user :
      (j : ℕ) (t : Server)
      → handle_get_public_key env j (name_payload name []) t
        ≡ respond env j public_key_response (public_key_reply env j (find_user name t.users) t) t
  unfolding handle_get_public_key
  handle_get_public_key-find_user j t =
      let long : ltb (length (name_payload name [])) 1 ≡ false = ground arith in
      rw (long, bad_name-name_payload name [] u 0 (omega arith), read_name-name_payload name [] u)

  module _ (size : length key ≡ env.public_key_size) (new : find_user name s.users ≡ none)
      (room : length s.users < max_clients) where
    added : ((add_user env name key s).0 ≡ pos 0) × Added env name key s (add_user env name key s).1
    added = elim (add_user-AddUser env name key s) [
      | inl ok ↦ ok
      | inr (inl (_, _, _, old)) ↦ absurd (old new)
      | inr (inr (_, _, inl bad)) ↦ absurd (bad u)
      | inr (inr (_, _, inr full)) ↦ absurd (omega arith)
    ]

    -- A user with a valid and new name registers, while there is room, with a payload as the protocol
    -- lays it out. The answer is success, and whoever then asks for the name is answered with the
    -- key that was registered.
    pub handle_get_public_key-handle_register_user :
        (i j : ℕ)
        → let t = (handle_register_user env i (name_payload name key) s).1 in
          (handle_register_user env i (name_payload name key) s
            ≡ respond env i register_response (1 ∷ 0 ∷ []) (add_user env name key s).1)
          × (handle_get_public_key env j (name_payload name []) t
              ≡ respond env j public_key_response (1 ∷ key) t)
    unfolding register_reply respond lift public_key_reply
    handle_get_public_key-handle_register_user i j = (first, second)
      where
        first :
            handle_register_user env i (name_payload name key) s
            ≡ respond env i register_response (1 ∷ 0 ∷ []) (add_user env name key s).1
        first =
            handle_register_user-add_user i size
            ∙ ap
                (λ r.
                  respond env i register_response (register_reply r) (add_user env name key s).1)
                added.0

        users :
            (handle_register_user env i (name_payload name key) s).1.users
            ≡ (add_user env name key s).1.users
        users = ap (λ (r : ℤ × Server). r.1.users) first

        reply :
            public_key_reply env j
              (find_user name (handle_register_user env i (name_payload name key) s).1.users)
              (handle_register_user env i (name_payload name key) s).1
            ≡ 1 ∷ key
        reply =
            ap
              (λ o.
                public_key_reply env j o (handle_register_user env i (name_payload name key) s).1)
              (ap (find_user name) users ∙ added.1.found)
            ∙ ap
                (λ us.
                  1 ∷ take env.public_key_size (get_or us (length s.users) zero_user).public_key)
                users
            ∙ ap (λ k. 1 ∷ take env.public_key_size k) added.1.key
            ∙ ap (λ k. 1 ∷ k)
                (ap (take env.public_key_size) (take-all env.public_key_size key (omega arith))
                  ∙ take-all env.public_key_size key (omega arith))

        second :
            handle_get_public_key env j
              (name_payload name [])
              (handle_register_user env i (name_payload name key) s).1
            ≡ respond env j public_key_response
                (1 ∷ key)
                (handle_register_user env i (name_payload name key) s).1
        second =
            handle_get_public_key-find_user j
              (handle_register_user env i (name_payload name key) s).1
            ∙ ap
                (λ r.
                  respond env j public_key_response r
                    (handle_register_user env i (name_payload name key) s).1)
                reply
