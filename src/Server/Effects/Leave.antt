-- ===== src/Server/Effects/Leave.antt =====
-- Effects on `server_state_t`, and the bytes that wait on the sockets, and the socket of each slot.
use c_chat.Prelude.{ℕ, zero, suc, ◌≡◌, refl, ◌∙◌, List, [], ◌∷◌, get_or, set}
use c_chat.Server.Types.{ClientConnection}
use c_chat.Server.Io.{Env}
use c_chat.Server.State.{Server, zero_client, client_at}
use c_chat.Server.Users.{set_user_status}
use c_chat.Server.Effects.{
  Effect, world, number, enrol, mark, log_in, show, requeue, hang_up, meter, Effects, none_yet,
  and_then,
}

-- A write that keeps the entry's socket keeps every entry's.
fd-set :
    (cs : List ClientConnection) (i j : ℕ) (c : ClientConnection)
    → c.socket_fd ≡ (get_or cs i zero_client).socket_fd
    → (get_or (set cs i c) j zero_client).socket_fd ≡ (get_or cs j zero_client).socket_fd
fd-set [] i j c h = refl
fd-set (x ∷ xs) zero zero c h = h
fd-set (x ∷ xs) zero (suc j) c h = refl
fd-set (x ∷ xs) (suc i) zero c h = refl
fd-set (x ∷ xs) (suc i) (suc j) c h = fd-set xs i j c h

abbrev Same : ℕ → Server → Server → Type 0
Same j s t = (t.io.inbox ≡ s.io.inbox) × ((client_at j t).socket_fd ≡ (client_at j s).socket_fd)

Effect-Same : {env : Env} {s t : Server} (j : ℕ) → Effect env s t → Same j s t
unfolding set_user_status
Effect-Same j (world s io' e) = (e, refl)
Effect-Same j (number s) = (refl, refl)
Effect-Same j (enrol s u good new room) = (refl, refl)
Effect-Same j (mark s u status now) = (refl, refl)
Effect-Same j (log_in s i u name found) = (refl, fd-set s.clients i j _ refl)
Effect-Same j (show s i status) = (refl, fd-set s.clients i j _ refl)
Effect-Same j (requeue s i q fine) = (refl, fd-set s.clients i j _ refl)
Effect-Same j (hang_up s i) = (refl, fd-set s.clients i j _ refl)
Effect-Same j (meter s i r few) = (refl, fd-set s.clients i j _ refl)

pub Effects-Same :
    {env : Env} {s t : Server} (j : ℕ)
    → Effects env s t
    → (t.io.inbox ≡ s.io.inbox) × ((client_at j t).socket_fd ≡ (client_at j s).socket_fd)
Effects-Same j none_yet = (refl, refl)
Effects-Same j (and_then p e) =
    let (a, b) = Effects-Same j p in let (c, d) = Effect-Same j e in (c ∙ a, d ∙ b)
