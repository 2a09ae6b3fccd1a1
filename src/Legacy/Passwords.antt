-- ===== src/Legacy/Passwords.antt =====
-- pkg/validator/password.go of the earlier engine, on ASCII texts: the lengths and limits of a policy
-- are not negative.
use dift_backend_auth.Base.{
  ℕ, suc, ◌+◌, Bool, true, false, not, ◌&&◌, ◌||◌, ◌==◌, leb, ltb, List, [], ◌∷◌, ◌++◌, length,
  if◌then◌else◌, Text, codes, text_eq,
}
use dift_backend_auth.Base.Ascii.{to_lower, contains}

pub record PasswordPolicy : Type 0 where
  pub min_length : ℕ
  pub max_length : ℕ
  pub require_upper : Bool
  pub require_lower : Bool
  pub require_digit : Bool
  pub require_special : Bool
  pub forbid_common : Bool
  pub forbid_repeat : ℕ
  pub forbid_sequential : Bool

abbrev pub default_policy : PasswordPolicy
default_policy = record {
  min_length = 8;
  max_length = 128;
  require_upper = true;
  require_lower = true;
  require_digit = true;
  require_special = false;
  forbid_common = true;
  forbid_repeat = 3;
  forbid_sequential = true;
}

abbrev pub enterprise_policy : PasswordPolicy
enterprise_policy = record default_policy { min_length = 12; require_special = true }

-- What is wrong with a password, for the sentences of the source.
pub data Violation : Type 0 where
  too_short too_long : ℕ → Violation
  no_upper no_lower no_digit no_special : Violation
  common : Violation
  repeats : ℕ → Violation
  sequential : Violation

abbrev pub common_passwords : List Text
common_passwords =
    codes "password"
    ∷ codes "123456"
    ∷ codes "password1"
    ∷ codes "qwerty"
    ∷ codes "abc123"
    ∷ codes "letmein"
    ∷ codes "monkey"
    ∷ codes "1234567890"
    ∷ codes "iloveyou"
    ∷ []

unfoldable pub is_one_of : List Text → Text → Bool
is_one_of [] t = false
is_one_of (w ∷ ws) t = let rest = is_one_of ws t in text_eq w t || rest

abbrev pub is_upper : ℕ → Bool
is_upper c = leb 65 c && leb c 90

abbrev pub is_lower : ℕ → Bool
is_lower c = leb 97 c && leb c 122

abbrev pub is_digit : ℕ → Bool
is_digit c = leb 48 c && leb c 57

-- The kinds of characters, as the loop with its switch collects them.
pub record Kinds : Type 0 where
  pub upper : Bool
  pub lower : Bool
  pub digit : Bool
  pub special : Bool

abbrev pub no_kinds : Kinds
no_kinds = record { upper = false; lower = false; digit = false; special = false }

abbrev pub see : ℕ → Kinds → Kinds
see c k =
    if is_upper c
    then record k { upper = true }
    else if is_lower c
    then record k { lower = true }
    else if is_digit c
    then record k { digit = true }
    else record k { special = true }

unfoldable pub kinds_from : Kinds → Text → Kinds
kinds_from k [] = k
kinds_from k (c ∷ cs) = kinds_from (see c k) cs

abbrev pub kinds : Text → Kinds
kinds t = kinds_from no_kinds t

-- The loop of `hasRepeatingChars`: the last character, and how often it came in a row.
unfoldable pub repeating_from : ℕ → ℕ → ℕ → Text → Bool
repeating_from max last count [] = false
repeating_from max last count (c ∷ cs) =
    let same = repeating_from max last (suc count) cs in
    let new = repeating_from max c 1 cs in
    if c == last then (if ltb max (suc count) then true else same) else new

unfoldable pub has_repeating_chars : Text → ℕ → Bool
has_repeating_chars [] max = false
has_repeating_chars (c ∷ cs) max = repeating_from max c 1 cs

unfoldable pub contains_any : List Text → Text → Bool
contains_any [] t = false
contains_any (w ∷ ws) t = let rest = contains_any ws t in contains w t || rest

-- The three patterns, each a choice of texts.
abbrev pub alphabet_runs : List Text
alphabet_runs =
    codes "abc"
    ∷ codes "bcd"
    ∷ codes "cde"
    ∷ codes "def"
    ∷ codes "efg"
    ∷ codes "fgh"
    ∷ codes "ghi"
    ∷ codes "hij"
    ∷ codes "ijk"
    ∷ codes "jkl"
    ∷ codes "klm"
    ∷ codes "lmn"
    ∷ codes "mno"
    ∷ codes "nop"
    ∷ codes "opq"
    ∷ codes "pqr"
    ∷ codes "qrs"
    ∷ codes "rst"
    ∷ codes "stu"
    ∷ codes "tuv"
    ∷ codes "uvw"
    ∷ codes "vwx"
    ∷ codes "wxy"
    ∷ codes "xyz"
    ∷ []

abbrev pub digit_runs : List Text
digit_runs =
    codes "012"
    ∷ codes "123"
    ∷ codes "234"
    ∷ codes "345"
    ∷ codes "456"
    ∷ codes "567"
    ∷ codes "678"
    ∷ codes "789"
    ∷ codes "890"
    ∷ []

abbrev pub keyboard_runs : List Text
keyboard_runs =
    codes "qwe"
    ∷ codes "wer"
    ∷ codes "ert"
    ∷ codes "rty"
    ∷ codes "tyu"
    ∷ codes "yui"
    ∷ codes "uio"
    ∷ codes "iop"
    ∷ codes "asd"
    ∷ codes "sdf"
    ∷ codes "dfg"
    ∷ codes "fgh"
    ∷ codes "ghj"
    ∷ codes "hjk"
    ∷ codes "jkl"
    ∷ codes "zxc"
    ∷ codes "xcv"
    ∷ codes "cvb"
    ∷ codes "vbn"
    ∷ codes "bnm"
    ∷ []

unfoldable pub has_sequential_chars : Text → Bool
has_sequential_chars s =
    let lower = to_lower s in
    contains_any alphabet_runs lower
    || contains_any digit_runs lower
    || contains_any keyboard_runs lower

abbrev pub note : Bool → Violation → List Violation
note true v = v ∷ []
note false v = []

-- No violation is no error.
unfoldable pub validate_password : Text → PasswordPolicy → List Violation
validate_password password policy =
    let n = length password in
    let k = kinds password in
    note (ltb n policy.min_length) (too_short policy.min_length)
    ++ note (ltb 0 policy.max_length && ltb policy.max_length n) (too_long policy.max_length)
    ++ note (policy.require_upper && not k.upper) no_upper
    ++ note (policy.require_lower && not k.lower) no_lower
    ++ note (policy.require_digit && not k.digit) no_digit
    ++ note (policy.require_special && not k.special) no_special
    ++ note (policy.forbid_common && is_one_of common_passwords (to_lower password)) common
    ++ note (ltb 0 policy.forbid_repeat && has_repeating_chars password policy.forbid_repeat)
        (repeats policy.forbid_repeat)
    ++ note (policy.forbid_sequential && has_sequential_chars password) sequential

abbrev pub one_if : Bool → ℕ
one_if b = if b then 1 else 0

abbrev pub variety : Kinds → ℕ
variety k = one_if k.upper + one_if k.lower + one_if k.digit + one_if k.special

abbrev pub clamp : ℕ → ℕ
clamp score = if ltb 4 score then 4 else score

unfoldable pub strength : Text → ℕ
strength password =
    let n = length password in
    let v = variety (kinds password) in
    clamp (one_if (leb 8 n) + one_if (leb 12 n) + one_if (leb 3 v) + one_if (v == 4 && leb 12 n))
