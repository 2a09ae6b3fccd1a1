-- ===== src/Device/Trust.antt =====
-- Bounds of the trust score, and what the signals take from it.
use dift_backend_auth.Base.{ℕ, ◌≡◌, ◌+◌, refl, Bool, true, false, ◌||◌, is_empty, if◌then◌else◌}
use dift_backend_auth.Base.Int.{pos, ◌-ℤ◌, ltb_ℤ, pos_part}
use dift_backend_auth.Domain.{Device}
use dift_backend_auth.Device.{compute_trust_score, minus_if}

-- What a signal takes from the score.
abbrev pub penalty : Bool → ℕ → ℕ
penalty true n = n
penalty false n = 0

score_of : (a b c : Bool) → ℕ
score_of a b c =
    let s = minus_if c 5 (minus_if b 20 (minus_if a 60 (pos 100))) in
    if ltb_ℤ s (pos 0) then 0 else pos_part s

score_of-sum : (a b c : Bool) → score_of a b c + penalty a 60 + penalty b 20 + penalty c 5 ≡ 100
unfolding score_of ◌-ℤ◌
score_of-sum true true true = refl
score_of-sum true true false = refl
score_of-sum true false true = refl
score_of-sum true false false = refl
score_of-sum false true true = refl
score_of-sum false true false = refl
score_of-sum false false true = refl
score_of-sum false false false = refl

-- The score and the penalties of the signals make 100, whatever the device, so that the clamp at
-- zero never applies: 60 for a rooted or jailbroken device, 20 for a missing attestation and 5 for
-- a missing version of the app.
pub compute_trust_score-sum :
    (d : Device)
    → compute_trust_score d
        + penalty (d.is_rooted || d.is_jailbroken) 60
        + penalty (is_empty d.attestation_data) 20
        + penalty (is_empty d.app_version) 5
      ≡ 100
unfolding compute_trust_score score_of
compute_trust_score-sum d =
    score_of-sum (d.is_rooted || d.is_jailbroken) (is_empty d.attestation_data)
      (is_empty d.app_version)
