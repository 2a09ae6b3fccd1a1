-- ===== src/Tests/Limits.antt =====
-- The rate limiter, the drift of a client's time, the pages of the audit log, and the trust score.
use dift_backend_auth.Base.{ℕ, ◌+◌, ◌*◌, ◌≤◌, ◌≡◌, ◌↔◌, refl, true, List, [], ◌∷◌, codes, arith}
use dift_backend_auth.Base.Int.{pos}
use dift_backend_auth.Crypto.{second}
use dift_backend_auth.Drift.{drift_ok, max_timestamp_drift}
use dift_backend_auth.Drift.Window.{drift_ok_iff, drift_ok_far}
use dift_backend_auth.Middleware.RateLimiter.{RateLimiter, limit_request, cleanup, new_rate_limiter}
use dift_backend_auth.Middleware.RateLimiter.Cleaning.{
  cleanup-limit_request, limit_request-IsUnique,
}
use dift_backend_auth.Middleware.RateLimiter.Window.{passed, passed-window}
use dift_backend_auth.Tests.Program.{program}

abbrev small : RateLimiter
small = record new_rate_limiter { limit = 2 }

passed-window_example : passed small (codes "1") (5 ∷ 6 ∷ 7 ∷ 8 ∷ []) ≡ 2
unfolding program
passed-window_example = passed-window small (codes "1") 5 (6 ∷ 7 ∷ 8 ∷ []) refl (omega arith)

drift_ok_iff_example : (drift_ok (100 * second) (pos 10) ≡ true) ↔ (
    (100 * second ≤ 10 * second + max_timestamp_drift)
    × (10 * second ≤ 100 * second + max_timestamp_drift))
drift_ok_iff_example = drift_ok_iff (100 * second) 10 (omega arith) (omega arith)

drift_ok_far_example : drift_ok (100 * second) (pos 100000000000) ≡ true
drift_ok_far_example =
    drift_ok_far (100 * second) 100000000000 (omega arith) (omega arith) (omega arith)

abbrev four : List ℕ
four = 1 ∷ 2 ∷ 3 ∷ 4 ∷ []

abbrev visited : RateLimiter
visited = (limit_request small (codes "1") 5).0

cleanup-limit_request_example :
    (limit_request (cleanup visited (200 * second)) (codes "1") (200 * second)).1
    ≡ (limit_request visited (codes "1") (200 * second)).1
unfolding program
cleanup-limit_request_example =
    cleanup-limit_request visited (codes "1") (200 * second) (200 * second)
      (limit_request-IsUnique small (codes "1") 5 tt) (omega arith)
