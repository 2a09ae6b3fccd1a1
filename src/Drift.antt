-- ===== src/Drift.antt =====
-- The arithmetic of `checkTimestampDrift` in
-- auth-service-main/biometric-auth/internal/service/biometric.go, with what `time.Unix`,
-- `time.Since` and the negation of a `time.Duration` do on 64-bit integers.
pub mod Window
use dift_backend_auth.Base.{ℕ, ◌+◌, ◌-◌, ◌*◌, ◌^◌, Bool, not, if◌then◌else◌}
use dift_backend_auth.Base.Int.{ℤ, pos, negsuc, ◌+ℤ◌, ◌-ℤ◌, ◌*ℤ◌, ltb_ℤ}
use dift_backend_auth.Base.Words.{wrap64}
use dift_backend_auth.Crypto.{second}

-- `MaxTimestampDrift`.
abbrev pub max_timestamp_drift : ℕ
max_timestamp_drift = 90 * second

-- The seconds from the year 1, by which Go's `Time` counts, to 1970.
abbrev pub unix_to_internal : ℕ
unix_to_internal = 62_135_596_800

-- `time.Unix(ts, 0)` as nanoseconds since 1970: the seconds since the year 1 wrap around.
unfoldable pub unix_time : ℤ → ℤ
unfolding ◌+ℤ◌ ◌-ℤ◌ ◌*ℤ◌
unix_time ts = (wrap64 (ts +ℤ pos unix_to_internal) -ℤ pos unix_to_internal) *ℤ pos second

-- The range of a `Duration`: a difference of two times stops at its ends.
abbrev pub max_duration : ℤ
max_duration = pos (2 ^ 63 - 1)

abbrev pub min_duration : ℤ
min_duration = negsuc (2 ^ 63 - 1)

unfoldable pub saturate : ℤ → ℤ
saturate d =
    if ltb_ℤ max_duration d then max_duration else if ltb_ℤ d min_duration then min_duration else d

-- `time.Since` of a client's time at the server's time `t`.
unfoldable pub since : ℕ → ℤ → ℤ
since t ts = saturate (pos t -ℤ unix_time ts)

-- `if drift < 0 { drift = -drift }`, where the least duration is its own negation.
unfoldable pub magnitude : ℤ → ℤ
unfolding ◌-ℤ◌
magnitude drift = if ltb_ℤ drift (pos 0) then wrap64 (pos 0 -ℤ drift) else drift

unfoldable pub drift_ok : ℕ → ℤ → Bool
drift_ok t ts = not (ltb_ℤ (pos max_timestamp_drift) (magnitude (since t ts)))
