-- ===== src/Server/Effects/Registry.antt =====
-- server/src/user_management.c: the registered names, and the changes of the registry.
use c_chat.Prelude.{
  ℕ, zero, suc, ◌<◌, ◌≡◌, ◌≢◌, refl, sym, ap, ◌∙◌, false, some, List, [], ◌∷◌, ◌++◌, length, get_or,
  set, All, All-append, str_eq, str_eq_refl, str_eq→eq, arith, find_index-get, take-all,
}
use c_chat.Server.Types.{UserRecord}
use c_chat.Server.Io.{Env}
use c_chat.Server.Users.{is_user, find_user, zero_user, copy_name}
use c_chat.Server.Valid.{IsGoodUser, names, Distinct}

-- The search for a user by name.
is_user-good :
    (env : Env) (name : List ℕ) (u : UserRecord)
    → IsGoodUser env u
    → is_user name u ≡ str_eq u.username name
unfolding is_user
is_user-good env name u g = rw g.registered refl

All-get_or :
    (P : UserRecord → Type 0) (us : List UserRecord) (i : ℕ) (d : UserRecord)
    → All P us
    → i < length us
    → P (get_or us i d)
All-get_or P [] i d h lt = absurd (omega arith)
All-get_or P (u ∷ us) zero d h lt = h.0
All-get_or P (u ∷ us) (suc i) d h lt = All-get_or P us i d h.1 (omega arith)

-- A write of what the entry there implies keeps a property of all.
pub All-set_get :
    (P : UserRecord → Type 0) (us : List UserRecord) (i : ℕ) (v d : UserRecord)
    → All P us
    → (P (get_or us i d) → P v)
    → All P (set us i v)
All-set_get P [] i v d h f = tt
All-set_get P (u ∷ us) zero v d h f = (f h.0, h.1)
All-set_get P (u ∷ us) (suc i) v d h f = (h.0, All-set_get P us i v d h.1 f)

pub names-set :
    (us : List UserRecord) (i : ℕ) (v d : UserRecord)
    → v.username ≡ (get_or us i d).username
    → names (set us i v) ≡ names us
names-set [] i v d h = refl
names-set (u ∷ us) zero v d h = ap (λ n. n ∷ names us) h
names-set (u ∷ us) (suc i) v d h = ap (◌∷◌ u.username) (names-set us i v d h)

pub Distinct-append :
    (ns : List (List ℕ)) (n : List ℕ) → Distinct ns → All (λ m. m ≢ n) ns → Distinct (ns ++ n ∷ [])
Distinct-append [] n d h = (tt, tt)
Distinct-append (m ∷ ns) n d h =
    (All-append (λ k. k ≢ m) ns (n ∷ []) d.0 ((λ e. h.0 (sym e)), tt), Distinct-append ns n d.1 h.1)

pub new_name :
    (env : Env) (name : List ℕ) (us : List UserRecord)
    → All (IsGoodUser env) us
    → All (λ u. is_user name u ≡ false) us
    → All (λ m. m ≢ name) (names us)
unfolding is_user
new_name env name [] g h = tt
new_name env name (u ∷ us) g h =
    ((λ e. ground (arith, g.0.registered, h.0, e, str_eq_refl name)), new_name env name us g.1 h.1)

-- The user that a name finds bears the name.
pub find_user-name :
    (env : Env) (name : List ℕ) (us : List UserRecord) (i : ℕ)
    → All (IsGoodUser env) us
    → find_user name us ≡ some i
    → (i < length us)
      × ((get_or us i zero_user).username ≡ name)
      × IsGoodUser env (get_or us i zero_user)
unfolding find_user
find_user-name env name us i good h =
    let (inside, hit) = find_index-get (is_user name) us i zero_user h in
    let g : IsGoodUser env (get_or us i zero_user) =
      All-get_or (IsGoodUser env) us i zero_user good inside in
    (inside, str_eq→eq _ _ (sym (is_user-good env name _ g) ∙ hit), g)

-- A name that is found fits its buffer.
pub found_copy :
    (env : Env) (name : List ℕ) (us : List UserRecord) (i : ℕ)
    → All (IsGoodUser env) us
    → find_user name us ≡ some i
    → copy_name name ≡ name
found_copy env name us i good h =
    let (inside, same, g) = find_user-name env name us i good h in
    take-all 31 name (rw same at g.name.short)
