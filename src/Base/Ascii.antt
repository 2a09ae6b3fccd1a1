-- ===== src/Base/Ascii.antt =====
-- What the code uses of Go's `strings`, on texts of ASCII characters.
use Prim.Native.Nat.{ℕ, ◌+◌}
use mathlib.Core.Bool.{Bool, true, false, ◌&&◌, ◌||◌}
use mathlib.Core.List.{[], ◌∷◌, map}
use dift_backend_auth.Base.Tests.{leb, ◌==◌, if◌then◌else◌}
use dift_backend_auth.Base.Bytes.{Text, is_empty}

-- `strings.ToLower` and `strings.TrimSpace`, of ASCII texts.
abbrev pub lower : ℕ → ℕ
lower c = if leb 65 c && leb c 90 then c + 32 else c

abbrev pub to_lower : Text → Text
to_lower t = map lower t

abbrev pub is_space : ℕ → Bool
is_space c = c == 32 || (leb 9 c && leb c 13)

unfoldable pub trim_left : Text → Text
trim_left [] = []
trim_left (c ∷ cs) = let rest = trim_left cs in if is_space c then rest else c ∷ cs

unfoldable pub trim_right : Text → Text
trim_right [] = []
trim_right (c ∷ cs) =
    let rest = trim_right cs in if is_empty rest && is_space c then [] else c ∷ rest

abbrev pub trim_space : Text → Text
trim_space t = trim_right (trim_left t)

-- `strings.HasPrefix` and `strings.Contains`.
unfoldable pub starts_with : Text → Text → Bool
starts_with [] s = true
starts_with (p ∷ ps) [] = false
starts_with (p ∷ ps) (c ∷ cs) = p == c && starts_with ps cs

unfoldable pub contains : Text → Text → Bool
contains t [] = is_empty t
contains t (c ∷ cs) = let rest = contains t cs in starts_with t (c ∷ cs) || rest
