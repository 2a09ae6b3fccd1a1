-- ===== src/Account/Emails.antt =====
-- auth-service-main/pkg/authguard/authguard.go: the checks of a request's texts.
use dift_backend_auth.Base.{
  ℕ, ◌≡◌, ◌↔◌, refl, sym, ap, inl, inr, Bool, true, false, not, ◌&&◌, ◌||◌, ◌==◌, ==_iff, [], ◌∷◌,
  ◌++◌, leb, length, Text, is_empty, arith, Bool-cases,
}
use dift_backend_auth.Base.Ascii.{to_lower, trim_space}

abbrev pub clean_string : Text → Text
clean_string v = trim_space v

abbrev pub clean_email : Text → Text
clean_email v = to_lower (trim_space v)

abbrev pub is_given : Text → Bool
is_given v = not (is_empty (trim_space v))

abbrev pub fits : ℕ → Text → Bool
fits n v = leb (length v) n

-- `[^@\s]`: no at sign, tab, line feed, form feed, carriage return or space.
abbrev pub is_plain : ℕ → Bool
is_plain c = not (c == b'@' || c == 9 || c == 10 || c == 12 || c == 13 || c == 32)

unfoldable pub are_plain : Text → Bool
are_plain [] = true
are_plain (c ∷ cs) = is_plain c && are_plain cs

-- `[^@\s]+`
abbrev pub is_word : Text → Bool
is_word t = not (is_empty t) && are_plain t

-- `[^@\s]*\.[^@\s]+`, what is left after the first character of the domain.
unfoldable pub is_dotted : Text → Bool
is_dotted [] = false
is_dotted (c ∷ cs) = let rest = is_dotted cs in (c == b'.' && is_word cs) || (is_plain c && rest)

abbrev pub is_domain : Text → Bool
is_domain [] = false
is_domain (c ∷ cs) = is_plain c && is_dotted cs

-- `[^@\s]*@` and the domain, what is left after the first character.
unfoldable pub is_address_tail : Text → Bool
is_address_tail [] = false
is_address_tail (c ∷ cs) =
    let rest = is_address_tail cs in (c == b'@' && is_domain cs) || (is_plain c && rest)

-- `emailRE`
unfoldable pub matches_email : Text → Bool
matches_email [] = false
matches_email (c ∷ cs) = is_plain c && is_address_tail cs

abbrev pub validate_email : Text → Bool
validate_email email = matches_email (trim_space email)

-- The language of the pattern: a word, an at sign, a word, a dot and a word.
pub record IsAddress (t : Text) : Type 0 where
  pub user : Text
  pub host : Text
  pub domain : Text
  pub user_is_word : is_word user ≡ true
  pub host_is_word : is_word host ≡ true
  pub domain_is_word : is_word domain ≡ true
  pub parts : user ++ b'@' ∷ host ++ b'.' ∷ domain ≡ t

dotted-parts :
    (t : Text)
    → is_dotted t ≡ true
    → (a b : Text) × (are_plain a ≡ true) × (is_word b ≡ true) × (a ++ b'.' ∷ b ≡ t)
unfolding is_dotted are_plain
dotted-parts [] h = absurd (cc h)
dotted-parts (c ∷ cs) h = elim (Bool-cases (c == b'.' && is_word cs)) [
  | inl dot ↦
      ([], cs, refl, ground arith, ap (λ d. d ∷ cs) (sym ((==_iff c b'.').0 (ground arith))))
  | inr further ↦
      let (a, b, plain, word, parts) = dotted-parts cs (ground arith) in
      (c ∷ a, b, ground arith, word, ap (λ l. c ∷ l) parts)
]

dotted-of : (a b : Text) → are_plain a ≡ true → is_word b ≡ true → is_dotted (a ++ b'.' ∷ b) ≡ true
unfolding is_dotted are_plain
dotted-of [] b plain word = rw word refl
dotted-of (c ∷ a) b plain word = ground (arith, dotted-of a b)

domain-parts :
    (t : Text)
    → is_domain t ≡ true
    → (h d : Text) × (is_word h ≡ true) × (is_word d ≡ true) × (h ++ b'.' ∷ d ≡ t)
unfolding are_plain
domain-parts [] h = absurd (cc h)
domain-parts (c ∷ cs) h =
    let (a, b, plain, word, parts) = dotted-parts cs (ground arith) in
    (c ∷ a, b, ground arith, word, ap (λ l. c ∷ l) parts)

domain-of : (h d : Text) → is_word h ≡ true → is_word d ≡ true → is_domain (h ++ b'.' ∷ d) ≡ true
unfolding are_plain
domain-of [] d word k = absurd (cc word)
domain-of (c ∷ h) d word k = ground (arith, dotted-of h d)

either_true : (a b c : Bool) → (a || (b && c)) ≡ true → a ≡ false → (b ≡ true) × (c ≡ true)
either_true a b c h k = ground arith

both_true : (a b : Bool) → a ≡ true → b ≡ true → (a && b) ≡ true
both_true a b h k = ground arith

tail-parts :
    (t : Text)
    → is_address_tail t ≡ true
    → (a h d : Text) × (are_plain a ≡ true)
      × (is_word h ≡ true)
      × (is_word d ≡ true)
      × (a ++ b'@' ∷ h ++ b'.' ∷ d ≡ t)
unfolding is_address_tail are_plain
tail-parts [] h = absurd (cc h)
tail-parts (c ∷ cs) h = elim (Bool-cases (c == b'@' && is_domain cs)) [
  | inl at_sign ↦
      let (host, d, host_word, d_word, parts) = domain-parts cs (ground arith) in
      let e : c ≡ b'@' = (==_iff c b'@').0 (ground arith) in
      ([], host, d, refl, host_word, d_word, rw (e, parts) refl)
  | inr further ↦
      let (fit, rest) =
        either_true (c == b'@' && is_domain cs) (is_plain c) (is_address_tail cs) h further in
      let (a, host, d, plain, host_word, d_word, parts) = tail-parts cs rest in
      (
        c ∷ a,
        host,
        d,
        both_true (is_plain c) (are_plain a) fit plain,
        host_word,
        d_word,
        ap (λ l. c ∷ l) parts,
      )
]

tail-of :
    (a h d : Text)
    → are_plain a ≡ true
    → is_word h ≡ true
    → is_word d ≡ true
    → is_address_tail (a ++ b'@' ∷ h ++ b'.' ∷ d) ≡ true
unfolding is_address_tail are_plain
tail-of [] h d plain hw dw = rw (domain-of h d hw dw) refl
tail-of (c ∷ a) h d plain hw dw = ground (arith, tail-of a h d)

-- The check of an address, without the spaces around it, is the pattern: a word, an at sign, a word,
-- a dot and a word, where a word is a text that is not empty, with no at sign and no space in it.
pub validate_email_iff :
    (email : Text) → (validate_email email ≡ true) ↔ IsAddress (trim_space email)
unfolding matches_email are_plain
validate_email_iff email = (λ h. forward (trim_space email) h, λ a. backward (trim_space email) a)
  where
    forward : (t : Text) → matches_email t ≡ true → IsAddress t
    forward [] h = absurd (cc h)
    forward (c ∷ cs) h =
        let (a, host, d, plain, host_word, d_word, parts) = tail-parts cs (ground arith) in
        record {
          user = c ∷ a;
          host = host;
          domain = d;
          user_is_word = ground arith;
          host_is_word = host_word;
          domain_is_word = d_word;
          parts = ap (λ l. c ∷ l) parts;
        }

    built :
        (user host d : Text)
        → is_word user ≡ true
        → is_word host ≡ true
        → is_word d ≡ true
        → matches_email (user ++ b'@' ∷ host ++ b'.' ∷ d) ≡ true
    built [] host d uw hw dw = absurd (cc uw)
    built (c ∷ a) host d uw hw dw = ground (arith, tail-of a host d)

    backward : (t : Text) → IsAddress t → matches_email t ≡ true
    backward t a =
        rw (← a.parts) (built a.user a.host a.domain a.user_is_word a.host_is_word a.domain_is_word)
