-- ===== src/Encoding/Split.antt =====
-- `strings.Split` on a separator of one byte.
use dift_backend_auth.Base.{ℕ, List, [], ◌∷◌, ◌==◌, if◌then◌else◌, Text}

-- Puts a byte in front of the first part.
abbrev pub cons_head : ℕ → List Text → List Text
cons_head x [] = (x ∷ []) ∷ []
cons_head x (p ∷ ps) = (x ∷ p) ∷ ps

-- `strings.Split(s, sep)`.
unfoldable pub split : ℕ → Text → List Text
split sep [] = [] ∷ []
split sep (x ∷ xs) = let rest = split sep xs in if x == sep then [] ∷ rest else cons_head x rest
