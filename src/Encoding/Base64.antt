-- ===== src/Encoding/Base64.antt =====
-- `base64.RawURLEncoding` and `base64.RawStdEncoding`: groups of three bytes as four digits of six
-- bits, the last group short. Decoding drops line ends and ignores the unused low bits of the last
-- digit, as Go's decoder does when it is not strict.
pub mod RoundTrip
use dift_backend_auth.Base.{
  ℕ, ◌+◌, ◌-◌, ◌*◌, ◌/◌, ◌%◌, ◌<◌, ◌≡◌, refl, Option, none, some, Bool, true, false, List, [], ◌∷◌,
  ltb, leb, ◌==◌, ◌&&◌, ◌||◌, if◌then◌else◌, Text, arith,
}

-- The digits for 62 and 63.
pub data Alphabet : Type 0 where
  url std : Alphabet

abbrev char62 : Alphabet → ℕ
char62 url = b'-'
char62 std = b'+'

abbrev char63 : Alphabet → ℕ
char63 url = b'_'
char63 std = b'/'

digit : Alphabet → ℕ → ℕ
digit t v =
    if ltb v 26
    then v + b'A'
    else if ltb v 52
    then v - 26 + b'a'
    else if ltb v 62
    then v - 52 + b'0'
    else if v == 62
    then char62 t
    else char63 t

value : Alphabet → ℕ → Option ℕ
value t c =
    if leb b'A' c && leb c b'Z'
    then some (c - b'A')
    else if leb b'a' c && leb c b'z'
    then some (c - b'a' + 26)
    else if leb b'0' c && leb c b'9'
    then some (c - b'0' + 52)
    else if c == char62 t
    then some 62
    else if c == char63 t
    then some 63
    else none

unfoldable pub encode : Alphabet → Text → Text
unfolding digit
encode t [] = []
encode t (a ∷ []) = digit t (a / 4) ∷ digit t (a % 4 * 16) ∷ []
encode t (a ∷ b ∷ []) = digit t (a / 4) ∷ digit t (a % 4 * 16 + b / 16) ∷ digit t (b % 16 * 4) ∷ []
encode t (a ∷ b ∷ c ∷ r) =
    digit t (a / 4)
    ∷ digit t (a % 4 * 16 + b / 16)
    ∷ digit t (b % 16 * 4 + c / 64)
    ∷ digit t (c % 64)
    ∷ encode t r

-- The bytes of two, three and four digits.
abbrev bytes₂ : ℕ → ℕ → Text
bytes₂ v w = (v * 4 + w / 16) ∷ []

abbrev bytes₃ : ℕ → ℕ → ℕ → Text
bytes₃ v w x = (v * 4 + w / 16) ∷ (w % 16 * 16 + x / 4) ∷ []

abbrev bytes₄ : ℕ → ℕ → ℕ → ℕ → Text → Text
bytes₄ v w x y r = (v * 4 + w / 16) ∷ (w % 16 * 16 + x / 4) ∷ (x % 4 * 64 + y) ∷ r

infixl 5 ◌>>=◌
abbrev ◌>>=◌ : {A B : Type 0} → Option A → (A → Option B) → Option B
none >>= f = none
some a >>= f = f a

decode_groups : Alphabet → Text → Option Text
unfolding value
decode_groups t [] = some []
decode_groups t (a ∷ []) = none
decode_groups t (a ∷ b ∷ []) = do v ← value t a; w ← value t b; some (bytes₂ v w)
decode_groups t (a ∷ b ∷ c ∷ []) = do
  v ← value t a
  w ← value t b
  x ← value t c
  some (bytes₃ v w x)
decode_groups t (a ∷ b ∷ c ∷ d ∷ r) =
    let rest = decode_groups t r in
    do v ← value t a; w ← value t b; x ← value t c; y ← value t d; s ← rest; some (bytes₄ v w x y s)

abbrev is_line_end : ℕ → Bool
is_line_end c = c == 10 || c == 13

drop_line_ends : Text → Text
drop_line_ends [] = []
drop_line_ends (c ∷ cs) = let rest = drop_line_ends cs in if is_line_end c then rest else c ∷ rest

unfoldable pub decode : Alphabet → Text → Option Text
unfolding decode_groups drop_line_ends
decode t s = decode_groups t (drop_line_ends s)
