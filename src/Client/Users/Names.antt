-- ===== src/Client/Users/Names.antt =====
-- src/user.c, validate_username, beside server/src/protocol.c, validate_username_server.
use c_chat.Prelude.{ℕ, ◌≡◌, refl, ap, ◌&&◌, List, [], ◌∷◌, ℤ, pos, negsuc, arith}
use c_chat.Server.Protocol.{is_name_char, all_name_chars, validate_username_server}
use c_chat.Client.{ClientResult, success, invalid_args}
use c_chat.Client.Users.{is_username_char, all_username_chars, validate_username}

-- What the client's answer is to a result of the server.
abbrev pub answer_of : ℤ → ClientResult
answer_of (pos n) = success
answer_of (negsuc n) = invalid_args

same_chars : (cs : List ℕ) → all_username_chars cs ≡ all_name_chars cs
unfolding all_username_chars all_name_chars is_username_char is_name_char
same_chars [] = refl
same_chars (c ∷ cs) = ap (λ b. is_name_char c && b) (same_chars cs)

-- For every string, `validate_username` of the client returns success where the server's
-- `validate_username_server` returns 0, and an invalid argument where it returns -1.
pub validate_username-validate_username_server :
    (name : List ℕ) → validate_username name ≡ answer_of (validate_username_server name)
unfolding validate_username validate_username_server
validate_username-validate_username_server name = ground (arith, same_chars name)
