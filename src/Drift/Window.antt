-- ===== src/Drift/Window.antt =====
-- Which client times the drift check accepts.
use dift_backend_auth.Base.{
  ℕ, ◌+◌, ◌-◌, ◌*◌, ◌^◌, ◌≤◌, ◌<◌, ◌≡◌, ◌↔◌, true, refl, arith, Bool-cases, inl, inr, leb,
}
use dift_backend_auth.Base.Int.{pos, negsuc, ◌+ℤ◌, ◌-ℤ◌}
use dift_backend_auth.Base.Words.{wrap64, wrap64_of_InInt64}
use dift_backend_auth.Crypto.{second}
use dift_backend_auth.Drift.{
  drift_ok, since, saturate, magnitude, unix_time, unix_to_internal, max_timestamp_drift,
  min_duration,
}

-- In range, the time of a Unix second is that many nanoseconds after 1970.
pub unix_time-pos : (s : ℕ) → s < 2 ^ 62 → unix_time (pos s) ≡ pos (s * second)
unfolding unix_time
unix_time-pos s h =
    let e : pos s +ℤ pos unix_to_internal ≡ pos (s + unix_to_internal) = ground arith in
    rw (e, wrap64_of_InInt64 (pos (s + unix_to_internal)) (omega arith)) (ground arith)

since-past : (t s : ℕ) → t < 2 ^ 62 → s * second ≤ t → since t (pos s) ≡ pos (t - s * second)
unfolding since saturate ◌-ℤ◌
since-past t s h le = rw (unix_time-pos s (omega arith)) (ground arith)

since-future :
    (t s : ℕ) → s < 2 ^ 32 → t < s * second → since t (pos s) ≡ negsuc (s * second - t - 1)
unfolding since saturate ◌-ℤ◌
since-future t s h lt = rw (unix_time-pos s (omega arith)) (ground arith)

magnitude-past : (d : ℕ) → magnitude (pos d) ≡ pos d
unfolding magnitude
magnitude-past d = ground arith

magnitude-future : (d : ℕ) → d < 2 ^ 62 → magnitude (negsuc d) ≡ pos (d + 1)
unfolding magnitude
magnitude-future d h =
    let e : pos 0 -ℤ negsuc d ≡ pos (d + 1) = ground arith in
    rw (e, wrap64_of_InInt64 (pos (d + 1)) (omega arith)) (ground arith)

-- For a server time before the year 2116 and a client's second between 1970 and 2106, the check
-- accepts exactly the client times that are at most 90 seconds before or after the server's.
pub drift_ok_iff :
    (t s : ℕ)
    → t < 2 ^ 62
    → s < 2 ^ 32
    → (drift_ok t (pos s) ≡ true)
      ↔ ((t ≤ s * second + max_timestamp_drift) × (s * second ≤ t + max_timestamp_drift))
unfolding drift_ok
drift_ok_iff t s ht hs = elim (Bool-cases (leb (s * second) t)) [
  | inl past ↦ rw (since-past t s ht (ground arith), magnitude-past) (ground arith, ground arith)
  | inr future ↦
      rw (since-future t s hs (ground arith), magnitude-future (s * second - t - 1) (omega arith))
        (ground arith, ground arith)
]

saturate-far :
    (t s : ℕ) → t < 2 ^ 62 → 2 ^ 35 ≤ s → saturate (pos t -ℤ pos (s * second)) ≡ min_duration
unfolding saturate ◌-ℤ◌
saturate-far t s ht far = ground arith

magnitude-min_duration : magnitude min_duration ≡ min_duration
unfolding magnitude wrap64
magnitude-min_duration = refl

-- A client's second from 2 ^ 35 to 2 ^ 62, more than a thousand years ahead, is accepted: the
-- difference stops at the least duration, whose negation is itself and so is no drift.
pub drift_ok_far : (t s : ℕ) → t < 2 ^ 62 → 2 ^ 35 ≤ s → s < 2 ^ 62 → drift_ok t (pos s) ≡ true
unfolding drift_ok since
drift_ok_far t s ht far hs =
    rw (unix_time-pos s hs, saturate-far t s ht far, magnitude-min_duration)
