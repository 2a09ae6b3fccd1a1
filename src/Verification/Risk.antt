-- ===== src/Verification/Risk.antt =====
-- What the risk score says.
use dift_backend_auth.Base.{◌≤◌, ◌≡◌, ◌↔◌, ◌⊎◌, Bool, true, false, Text, codes, is_empty, arith}
use dift_backend_auth.Base.Ascii.{to_lower, contains}
use dift_backend_auth.Verification.{evaluate_risk, level_of, risk_of}

-- The score is at most 90. The risk is high exactly for an action that names an admin, in whatever
-- case, from no device, and low exactly for another action where the device or the address is known.
pub evaluate_risk-levels :
    (action ip device_id : Text)
    → ((evaluate_risk action ip device_id).0 ≤ 90)
      × (((evaluate_risk action ip device_id).1 ≡ codes "high")
          ↔ ((contains (codes "admin") (to_lower action) ≡ true) × (is_empty device_id ≡ true)))
      × (((evaluate_risk action ip device_id).1 ≡ codes "low") ↔ (
          (contains (codes "admin") (to_lower action) ≡ false)
          × ((is_empty device_id ≡ false) ⊎ (is_empty ip ≡ false))))
unfolding evaluate_risk
evaluate_risk-levels action ip device_id =
    go (is_empty device_id) (is_empty ip) (contains (codes "admin") (to_lower action))
  where
    go :
        (d a m : Bool)
        → (risk_of d a m ≤ 90)
          × ((level_of (risk_of d a m) ≡ codes "high") ↔ ((m ≡ true) × (d ≡ true)))
          × ((level_of (risk_of d a m) ≡ codes "low") ↔ ((m ≡ false) × ((d ≡ false) ⊎ (a ≡ false))))
    go true true true = ground arith
    go true true false = ground arith
    go true false true = ground arith
    go true false false = ground arith
    go false true true = ground arith
    go false true false = ground arith
    go false false true = ground arith
    go false false false = ground arith
