-- ===== src/Middleware/RateLimiter.antt =====
-- `RateLimiter` of middleware.go. The lock is held while the entry is read and written, so a
-- request is one step of the limiter's state.
pub mod Window
pub mod Cleaning
use dift_backend_auth.Base.{
  ℕ, suc, ◌-◌, ◌*◌, [], Bool, true, false, Option, none, some, ltb, if◌then◌else◌, Text,
}
use dift_backend_auth.Store
use dift_backend_auth.Crypto.{second}

pub record RateLimitEntry : Type 0 where
  pub count : ℕ
  pub window_start : ℕ

pub record RateLimiter : Type 0 where
  pub clients : Store.Store RateLimitEntry
  pub limit : ℕ
  pub window : ℕ

abbrev pub new_rate_limiter : RateLimiter
new_rate_limiter = record { clients = []; limit = 100; window = 60 * second }

-- `now.Sub(windowStart) > d`; a clock that went back gives a negative difference.
abbrev pub is_older : ℕ → RateLimitEntry → ℕ → Bool
is_older d e t = ltb d (t - e.window_start)

abbrev pub write : RateLimiter → Text → ℕ → ℕ → RateLimiter
write rl ip count start = record rl {
  clients = Store.put ip (record { count = count; window_start = start }) rl.clients;
}

-- The entry of a client that has one.
abbrev pub count_request : RateLimiter → Text → ℕ → RateLimitEntry → RateLimiter × Bool
count_request rl ip t e = if is_older rl.window e t then (write rl ip 1 t, true) else (
  write rl ip (suc e.count) e.window_start,
  if ltb rl.limit (suc e.count) then false else true,
)

-- A request from an address at a time: the new state, and whether the request goes on.
unfoldable pub limit_request : RateLimiter → Text → ℕ → RateLimiter × Bool
limit_request rl ip t = elim (Store.get ip rl.clients) [
  | none ↦ (write rl ip 1 t, true)
  | some e ↦ count_request rl ip t e
]

unfoldable pub cleanup : RateLimiter → ℕ → RateLimiter
cleanup rl t = record rl {
  clients = Store.delete_where (λ e. is_older (rl.window * 2) e t) rl.clients;
}
