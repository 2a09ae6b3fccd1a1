-- ===== src/Middleware/RateLimiter/Cleaning.antt =====
-- The removal of old entries does not change what the limiter answers.
use dift_backend_auth.Base.{ℕ, ◌≤◌, ◌≡◌, Text, arith, Option-cases, Bool-cases, inl, inr, ◌*◌}
use dift_backend_auth.Store
use dift_backend_auth.Store.Unique.{IsUnique, get-delete_where, get-delete_where-none, put-IsUnique}
use dift_backend_auth.Middleware.RateLimiter.{RateLimiter, limit_request, cleanup, is_older}

-- A request after a removal of old entries is answered as it would be without it, where every
-- address has one entry.
pub cleanup-limit_request :
    (rl : RateLimiter) (ip : Text) (t₀ t : ℕ)
    → IsUnique rl.clients
    → t₀ ≤ t
    → (limit_request (cleanup rl t₀) ip t).1 ≡ (limit_request rl ip t).1
unfolding limit_request cleanup
cleanup-limit_request rl ip t₀ t unique later = elim (Option-cases (Store.get ip rl.clients)) [
  | inl absent ↦
      ground (arith, get-delete_where-none (λ e. is_older (rl.window * 2) e t₀) ip rl.clients)
  | inr (e, found) ↦
      let kept = get-delete_where (λ e. is_older (rl.window * 2) e t₀) ip rl.clients unique found in
      ground (arith, kept)
]

-- A request leaves every address with one entry.
pub limit_request-IsUnique :
    (rl : RateLimiter) (ip : Text) (t : ℕ)
    → IsUnique rl.clients
    → IsUnique (limit_request rl ip t).0.clients
unfolding limit_request
limit_request-IsUnique rl ip t u = elim (Option-cases (Store.get ip rl.clients)) [
  | inl absent ↦ rw (limit_request, absent) (put-IsUnique ip _ rl.clients u)
  | inr (e, found) ↦ elim (Bool-cases (is_older rl.window e t)) [
    | inl old ↦ rw (limit_request, found, old) (put-IsUnique ip _ rl.clients u)
    | inr young ↦ rw (limit_request, found, young) (put-IsUnique ip _ rl.clients u)
  ]
]
