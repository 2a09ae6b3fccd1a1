-- ===== src/Legacy/Engine/Policy.antt =====
-- `validatePasswordStrength` of the earlier engine, internal/auth/service.go.
use dift_backend_auth.Base.{
  ℕ, Bool, true, false, not, ◌&&◌, [], ◌∷◌, ltb, leb, length, if◌then◌else◌, Text,
}
use dift_backend_auth.Legacy.Engine.{
  Config, M, ◌>>◌, guard, weak, too_short, no_upper, no_lower, no_digit, no_special,
}

-- The kinds of characters seen so far.
pub record Seen : Type 0 where
  pub upper : Bool
  pub lower : Bool
  pub digit : Bool
  pub special : Bool

abbrev pub between : ℕ → ℕ → ℕ → Bool
between lo hi c = leb lo c && leb c hi

abbrev pub see : Seen → ℕ → Seen
see s c =
    if between 65 90 c
    then record s { upper = true }
    else if between 97 122 c
    then record s { lower = true }
    else if between 48 57 c
    then record s { digit = true }
    else record s { special = true }

unfoldable pub seen_in : Seen → Text → Seen
seen_in s [] = s
seen_in s (c ∷ cs) = seen_in (see s c) cs

abbrev pub nothing_seen : Seen
nothing_seen = record { upper = false; lower = false; digit = false; special = false }

unfoldable pub validate_password_strength : Config → Text → M (Unit {0})
validate_password_strength cfg password = do
  guard (not (ltb (length password) cfg.password_min_length)) (weak too_short)
  let s = seen_in nothing_seen password
  guard (not (cfg.password_require_upper && not s.upper)) (weak no_upper)
  guard (not (cfg.password_require_lower && not s.lower)) (weak no_lower)
  guard (not (cfg.password_require_digit && not s.digit)) (weak no_digit)
  guard (not (cfg.password_require_spec && not s.special)) (weak no_special)
