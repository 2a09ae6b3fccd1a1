-- ===== src/Repository/Audits/Paging.antt =====
-- Which records a page of the audit log holds.
use dift_backend_auth.Base.{
  ℕ, ◌+◌, ◌-◌, ◌^◌, ◌≤◌, ◌<◌, ◌≡◌, refl, ap, ◌∙◌, List, [], ◌∷◌, leb, length, take, drop, arith,
  Bool-cases, inl, inr, zero, suc, ltb, if◌then◌else◌, length-drop,
}
use dift_backend_auth.Base.Int.{ℤ, pos, negsuc, ◌+ℤ◌, ltb_ℤ}
use dift_backend_auth.Base.Words.{wrap64, wrap64_of_InInt64}
use dift_backend_auth.Runtime.{ok, panic}
use dift_backend_auth.Repository.Audits.{paginate, slice}

take-past : {A : Type 0} (n : ℕ) (xs : List A) → length xs ≤ n → take n xs ≡ xs
take-past zero [] h = refl
take-past zero (x ∷ xs) h = absurd (omega arith)
take-past (suc n) [] h = refl
take-past (suc n) (x ∷ xs) h = ap (λ t. x ∷ t) (take-past n xs (omega arith))

drop-past : {A : Type 0} (n : ℕ) (xs : List A) → length xs ≤ n → drop n xs ≡ []
drop-past zero [] h = refl
drop-past zero (x ∷ xs) h = absurd (omega arith)
drop-past (suc n) [] h = refl
drop-past (suc n) (x ∷ xs) h = drop-past n xs (omega arith)

take-nil : {A : Type 0} (n : ℕ) → take {A = A} n [] ≡ []
take-nil zero = refl
take-nil (suc n) = refl

-- The slice up to the end of the page or of the records.
slice-page :
    {A : Type 0} (xs : List A) (limit offset : ℕ)
    → offset ≤ length xs
    → slice xs (pos offset) (
        if ltb_ℤ (pos (length xs)) (pos (offset + limit))
        then pos (length xs)
        else pos (offset + limit))
      ≡ ok (take limit (drop offset xs))
slice-page xs limit offset h =
    let rest = length-drop offset xs in
    elim (Bool-cases (ltb (length xs) (offset + limit))) [
      | inl past ↦
          ground (
            arith,
            take-past limit (drop offset xs),
            take-past (length xs - offset) (drop offset xs),
          )
      | inr within ↦ let e : offset + limit - offset ≡ limit = omega arith in ground (arith, e)
    ]

add_pos : (a b : ℕ) → pos a +ℤ pos b ≡ pos (a + b)
unfolding ◌+ℤ◌
add_pos a b = ground arith

-- A page with an offset and a limit that are not negative, and whose sum is an `int`, holds the
-- records from the offset on, at most as many as the limit says.
pub paginate-page :
    {A : Type 0} (xs : List A) (limit offset : ℕ)
    → offset + limit < 2 ^ 63
    → length xs < 2 ^ 63
    → paginate xs (pos limit) (pos offset) ≡ ok (take limit (drop offset xs))
unfolding paginate
paginate-page {A} xs limit offset h small =
    let sum : wrap64 (pos offset +ℤ pos limit) ≡ pos (offset + limit) =
      ap wrap64 (add_pos offset limit) ∙ wrap64_of_InInt64 (pos (offset + limit)) (ground arith) in
    elim (Bool-cases (leb (length xs) offset)) [
      | inl past ↦ ground (arith, drop-past offset xs, take-nil {A = A} limit)
      | inr within ↦ rw sum (ground (arith, slice-page xs limit offset))
    ]

-- A negative offset panics, whatever the records and the limit.
pub paginate-negative :
    {A : Type 0} (xs : List A) (limit : ℤ) (n : ℕ) → paginate xs limit (negsuc n) ≡ panic
unfolding paginate
paginate-negative xs limit n = ground arith
