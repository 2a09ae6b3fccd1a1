-- ===== src/Encoding/Parts.antt =====
-- Splitting at a separator undoes joining with it, for parts that do not hold it.
use dift_backend_auth.Base.{ℕ, ◌≡◌, ◌≢◌, refl, [], ◌∷◌, ◌++◌, Text, arith}
use dift_backend_auth.Encoding.Split.{split}

-- The separator does not occur.
abbrev pub IsFree : ℕ → Text → Type 0
IsFree sep [] = Unit {0}
IsFree sep (c ∷ cs) = (c ≢ sep) × IsFree sep cs

pub split_one : (sep : ℕ) (p : Text) → IsFree sep p → split sep p ≡ p ∷ []
unfolding split
split_one sep [] h = refl
split_one sep (c ∷ cs) h = rw (split_one sep cs h.1) (ground arith)

pub split_more :
    (sep : ℕ) (p rest : Text) → IsFree sep p → split sep (p ++ sep ∷ rest) ≡ p ∷ split sep rest
unfolding split
split_more sep [] rest h = ground arith
split_more sep (c ∷ cs) rest h = rw (split_more sep cs rest h.1) (ground arith)

pub append-IsFree : (sep : ℕ) (p q : Text) → IsFree sep p → IsFree sep q → IsFree sep (p ++ q)
append-IsFree sep [] q h k = k
append-IsFree sep (c ∷ cs) q h k = (h.0, append-IsFree sep cs q h.1 k)
