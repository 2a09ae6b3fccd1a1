-- ===== src/Legacy/Strengths.antt =====
-- What a password that a policy accepts is worth.
use dift_backend_auth.Base.{◌≤◌, ◌≡◌, false, not, ◌&&◌, ltb, [], length, Text, arith}
use dift_backend_auth.Legacy.Passwords.{
  PasswordPolicy, default_policy, enterprise_policy, kinds, validate_password, strength,
}

-- What no violation says of the lengths and of the kinds of characters.
record Sound (password : Text) (policy : PasswordPolicy) : Type 0 where
  long_enough : ltb (length password) policy.min_length ≡ false
  upper : (policy.require_upper && not (kinds password).upper) ≡ false
  lower : (policy.require_lower && not (kinds password).lower) ≡ false
  digit : (policy.require_digit && not (kinds password).digit) ≡ false
  special : (policy.require_special && not (kinds password).special) ≡ false

validate_password-Sound :
    (password : Text) (policy : PasswordPolicy)
    → validate_password password policy ≡ []
    → Sound password policy
unfolding validate_password
validate_password-Sound password policy h = record {
  long_enough = ground arith;
  upper = ground arith;
  lower = ground arith;
  digit = ground arith;
  special = ground arith;
}

-- The strength of a password is at most 4. One that the default policy accepts has a strength of at
-- least 2, and one that the enterprise policy accepts has the strength 4.
pub strength-accepted :
    (password other : Text)
    → validate_password password default_policy ≡ []
    → validate_password other enterprise_policy ≡ []
    → (strength password ≤ 4) × (2 ≤ strength password) × (strength other ≡ 4)
unfolding strength
strength-accepted password other h k =
    let s = validate_password-Sound password default_policy h in
    let t = validate_password-Sound other enterprise_policy k in
    (ground arith, ground arith, ground arith)
