-- ===== src/Server/Protocol/Limit.antt =====
-- server/src/protocol.c, check_rate_limit and update_rate_limit, used as client_handler uses them:
-- a request that passes the check is counted, and the first that fails ends the connection.
use c_chat.Prelude.{
  ℕ, suc, ◌+◌, ◌-◌, ◌≤◌, ◌<◌, ◌≡◌, List, [], ◌∷◌, length, All, arith, min, if◌then◌else◌,
}
use c_chat.Server.Types.{RateLimit, rate_limit_window, rate_limit_max_requests}
use c_chat.Server.Protocol.{check_at, update_rate_limit}

-- How many of the requests that come at these times are let through.
pub admitted : RateLimit → List ℕ → ℕ
unfolding check_at update_rate_limit
admitted r [] = 0
admitted r (now ∷ later) =
    let (passes, r') = check_at now r in
    let rest = admitted (update_rate_limit r') later in if passes then suc rest else 0

-- Of requests within the current window those are let through that are left of the hundred, and no
-- more.
pub admitted-eq-min :
    (r : RateLimit) (times : List ℕ)
    → All (λ t. t < r.window_start + rate_limit_window) times
    → admitted r times ≡ min (length times) (rate_limit_max_requests - r.request_count)
unfolding admitted
admitted-eq-min r [] h = omega arith
admitted-eq-min r (now ∷ later) h =
    ground (arith, admitted-eq-min (record r { request_count = suc r.request_count }) later h.1)

-- A request that comes a window's length or more after the last restart is let through whatever the
-- count, and of the later requests within a window's length of it the first ninety-nine are let
-- through, and no more.
admitted_restart :
    (r : RateLimit) (now : ℕ) (times : List ℕ)
    → r.window_start + rate_limit_window ≤ now
    → All (λ t. t < now + rate_limit_window) times
    → admitted r (now ∷ times) ≡ suc (min (length times) (rate_limit_max_requests - 1))
unfolding admitted
admitted_restart r now times h k =
    ground (arith, admitted-eq-min (record { window_start = now; request_count = 1 }) times k)
