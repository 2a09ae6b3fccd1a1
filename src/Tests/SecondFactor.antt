-- ===== src/Tests/SecondFactor.antt =====
-- Setting up and confirming a second factor of the earlier engine.
use dift_backend_auth.Base.{
  ℕ, zero, suc, ◌≡◌, refl, ap, true, some, List, [], ◌∷◌, Text, codes, length, text_eq, arith,
}
use dift_backend_auth.Store
use dift_backend_auth.Encoding.Base64.RoundTrip.{AreBytes}
use dift_backend_auth.Legacy.Engine.{Outside, User, ok}
use dift_backend_auth.Legacy.Engine.Access.{MfaSetup, enable_mfa, confirm_mfa}
use dift_backend_auth.Legacy.Engine.Confirmed.{Sealing, enable_mfa-confirm_mfa}
use dift_backend_auth.Tests.Engine.{outside, ann, start}
use dift_backend_auth.Tests.Opened.{engine}

sevens : ℕ → Text
sevens zero = []
sevens (suc n) = 7 ∷ sevens n

length-sevens : (n : ℕ) → length (sevens n) ≡ n
unfolding sevens
length-sevens zero = refl
length-sevens (suc n) = ap suc (length-sevens n)

sevens-AreBytes : (n : ℕ) → AreBytes (sevens n)
unfolding sevens
sevens-AreBytes zero = tt
sevens-AreBytes (suc n) = (omega arith, sevens-AreBytes n)

-- Random bytes that are all the same, and an authenticator whose code is its secret.
abbrev drawing : Outside
drawing = record outside {
  random = λ k n. some (sevens n);
  totp_validate = λ now code secret. text_eq code secret;
}

drawing-Sealing : Sealing drawing
drawing-Sealing = record {
  answers = λ k. refl;
  drawn = λ k n h. ground (arith, length-sevens n, sevens-AreBytes n);
  opens = λ key nonce t. refl;
  seals = λ key nonce t h. h;
  generated = λ k account h. ground arith;
}

abbrev backup : Text
backup = codes "070707-0707"

abbrev ten : List Text
ten = backup ∷ backup ∷ backup ∷ backup ∷ backup ∷ backup ∷ backup ∷ backup ∷ backup ∷ backup ∷ []

abbrev shown : MfaSetup
shown = record { secret = codes "s"; qr_url = codes "q"; backup_codes = ten }

enable_mfa-confirm_mfa_example :
    let v = (enable_mfa drawing (codes "u") (codes "opensesame") start).1 in
    let after = confirm_mfa drawing (codes "u") (codes "s") v in
    (after.0 ≡ ok tt)
    × (u : User) × (Store.get (codes "u") after.1.users ≡ some u)
    × (u.mfa_enabled ≡ true)
unfolding engine sevens
enable_mfa-confirm_mfa_example =
    enable_mfa-confirm_mfa drawing drawing-Sealing (codes "u") (codes "opensesame") (codes "s") ann
      shown start (enable_mfa drawing (codes "u") (codes "opensesame") start).1
      (enable_mfa drawing (codes "u") (codes "opensesame") start).1 refl refl refl refl
