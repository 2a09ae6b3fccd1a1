-- ===== src/Verification/Trail.antt =====
-- What the trail shows of itself.
use dift_backend_auth.Base.{
  ℕ, zero, suc, ◌-◌, ◌≤◌, ◌≡◌, refl, ap, min, List, [], ◌∷◌, ◌++◌, length, length-drop, take, drop,
  arith, Bool-cases, inl, inr, leb, ltb, ◌<◌,
}
use dift_backend_auth.Base.Int.{ℤ, pos, negsuc}
use dift_backend_auth.Verification.{Audit, State, audit_limit, last, list_audit}

take-drop : {A : Type 0} (n : ℕ) (xs : List A) → take n xs ++ drop n xs ≡ xs
take-drop zero xs = refl
take-drop (suc n) [] = refl
take-drop (suc n) (x ∷ xs) = ap (λ l. x ∷ l) (take-drop n xs)

-- What is asked for applies where it is from 1 to 500, and 100 where it is not.
pub data Applies : ℤ → ℕ → Type 0 where
  asked : (n : ℕ) → 1 ≤ n → n ≤ 500 → Applies (pos n) n
  none_asked : Applies (pos 0) 100
  negative : (n : ℕ) → Applies (negsuc n) 100
  too_many : (n : ℕ) → 500 < n → Applies (pos n) 100

audit_limit-Applies : (limit : ℤ) → (n : ℕ) × (audit_limit limit ≡ pos n) × Applies limit n
audit_limit-Applies (negsuc n) = (100, ground arith, negative n)
audit_limit-Applies (pos zero) = (100, ground arith, none_asked)
audit_limit-Applies (pos (suc n)) = elim (Bool-cases (ltb 500 (suc n))) [
  | inl large ↦ (100, ground arith, too_many (suc n) (ground arith))
  | inr fits ↦ (suc n, ground arith, asked (suc n) (omega arith) (ground arith))
]

last-suffix :
    {A : Type 0} (n : ℕ) (xs : List A)
    → (older : List A) × (older ++ last (pos n) xs ≡ xs)
      × (length (last (pos n) xs) ≡ min n (length xs))
last-suffix n xs = elim (Bool-cases (leb (length xs) n)) [
  | inl all ↦ ([], rw all refl, rw all (ground arith))
  | inr some_ ↦ (
    take (length xs - n) xs,
    rw some_ (take-drop (length xs - n) xs),
    rw some_ (ground (arith, length-drop (length xs - n) xs)),
  )
]

-- The list of the trail is its newest part: as many records as the limit that applies says, or all
-- of a trail that has fewer. A limit from 1 to 500 applies as it is asked for, and 100 applies in
-- place of one that is not positive or is above 500.
pub list_audit-newest :
    {Score : Type 0} (limit : ℤ) (w : State Score)
    → (n : ℕ) × Applies limit n
      × (older : List (Audit Score)) × (older ++ list_audit limit w ≡ w.audits)
      × (length (list_audit limit w) ≡ min n (length w.audits))
unfolding list_audit
list_audit-newest {Score} limit w =
    let (n, same, applies) = audit_limit-Applies limit in
    let (older, suffix, size) = last-suffix n w.audits in
    (n, applies, older, rw same suffix, rw same size)
