-- ===== src/Tests/Codec.antt =====
-- A stand-in for `encoding/json` on token payloads, and for `fmt.Sscanf`, that behave as the
-- theorems assume.
use dift_backend_auth.Base.{
  ℕ, zero, suc, ◌≡◌, refl, ◌∙◌, ap, sym, true, false, Bool, Option, none, some, [], ◌∷◌, ◌++◌, ltb,
  ◌==◌, ◌&&◌, if◌then◌else◌, Text, arith, Bool-cases, inl, inr, drop,
}
use mathlib.Core.List.{append-nil}
use dift_backend_auth.Base.Int.{ℤ, pos, negsuc}
use dift_backend_auth.Domain.{TokenPayload}
use dift_backend_auth.Encoding.{decimal}
use dift_backend_auth.Encoding.Reading.{read_decimal, read_decimal-decimal}
use dift_backend_auth.Encoding.Base64.RoundTrip.{AreBytes}
use dift_backend_auth.Crypto.Assumed.{IsAscii, IsAsciiPayload}
use dift_backend_auth.Crypto.{print_params}

infixl 5 ◌>>=◌
abbrev pub ◌>>=◌ : {A B : Type 0} → Option A → (A → Option B) → Option B
none >>= f = none
some a >>= f = f a

abbrev pub Parser : Type 0 → Type 0
Parser A = Text → Option (A × Text)

-- A number as that many ones, then a zero.
unfoldable pub print_unary : ℕ → Text → Text
print_unary zero rest = 0 ∷ rest
print_unary (suc n) rest = 1 ∷ print_unary n rest

unfoldable pub read_unary : Parser ℕ
read_unary [] = none
read_unary (c ∷ cs) =
    let more = read_unary cs in
    if c == 0 then some (0, cs) else elim more [ none ↦ none | some (n, r) ↦ some (suc n, r) ]

read_unary-print_unary : (n : ℕ) (rest : Text) → read_unary (print_unary n rest) ≡ some (n, rest)
unfolding read_unary print_unary
read_unary-print_unary zero rest = refl
read_unary-print_unary (suc n) rest = rw (read_unary-print_unary n rest)

unfoldable pub print_int : ℤ → Text → Text
print_int (pos n) rest = 2 ∷ print_unary n rest
print_int (negsuc n) rest = 3 ∷ print_unary n rest

unfoldable pub read_int : Parser ℤ
read_int [] = none
read_int (c ∷ cs) = do (n, r) ← read_unary cs; some (if c == 2 then pos n else negsuc n, r)

read_int-print_int : (z : ℤ) (rest : Text) → read_int (print_int z rest) ≡ some (z, rest)
unfolding read_int print_int
read_int-print_int (pos n) rest = rw (read_unary-print_unary n rest)
read_int-print_int (negsuc n) rest = rw (read_unary-print_unary n rest)

unfoldable pub print_text : Text → Text → Text
print_text t rest = t ++ (200 ∷ rest)

unfoldable pub read_text : Parser Text
read_text [] = none
read_text (c ∷ cs) =
    let more = read_text cs in
    if c == 200 then some ([], cs) else elim more [ none ↦ none | some (t, r) ↦ some (c ∷ t, r) ]

read_text-print_text : (t rest : Text) → IsAscii t → read_text (print_text t rest) ≡ some (t, rest)
unfolding read_text print_text
read_text-print_text [] rest h = refl
read_text-print_text (c ∷ cs) rest h = ground (arith, read_text-print_text cs rest)

unfoldable pub print_flag : Bool → Text → Text
print_flag true rest = 1 ∷ rest
print_flag false rest = 0 ∷ rest

unfoldable pub read_flag : Parser Bool
read_flag [] = none
read_flag (c ∷ cs) = some (c == 1, cs)

unfoldable pub print_maybe : Option ℤ → Text → Text
print_maybe none rest = 0 ∷ rest
print_maybe (some z) rest = 1 ∷ print_int z rest

unfoldable pub read_maybe : Parser (Option ℤ)
read_maybe [] = none
read_maybe (c ∷ cs) =
    if c == 0 then some (none, cs) else (do (z, r) ← read_int cs; some (some z, r))

read_flag-print_flag : (b : Bool) (rest : Text) → read_flag (print_flag b rest) ≡ some (b, rest)
unfolding read_flag print_flag
read_flag-print_flag true rest = refl
read_flag-print_flag false rest = refl

read_maybe-print_maybe :
    (o : Option ℤ) (rest : Text) → read_maybe (print_maybe o rest) ≡ some (o, rest)
unfolding read_maybe print_maybe
read_maybe-print_maybe none rest = refl
read_maybe-print_maybe (some z) rest = rw (read_int-print_int z rest)

unfoldable pub print_payload : TokenPayload → Text
print_payload p = print_text p.sub (
    print_text p.device_id (
      print_text p.session_id (
        print_text p.typ (
          print_text p.family (
            print_text p.jti (
              print_flag p.step_up
                (print_maybe p.step_up_exp (print_int p.iat (print_int p.exp [])))))))))

unfoldable pub unmarshal : Text → Option TokenPayload
unmarshal t₀ = do
  (sub, t₁) ← read_text t₀
  (device_id, t₂) ← read_text t₁
  (session_id, t₃) ← read_text t₂
  (typ, t₄) ← read_text t₃
  (family, t₅) ← read_text t₄
  (jti, t₆) ← read_text t₅
  (step_up, t₇) ← read_flag t₆
  (step_up_exp, t₈) ← read_maybe t₇
  (iat, t₉) ← read_int t₈
  (exp, rest) ← read_int t₉
  some (record {
    sub = sub;
    device_id = device_id;
    session_id = session_id;
    typ = typ;
    family = family;
    step_up = step_up;
    step_up_exp = step_up_exp;
    iat = iat;
    exp = exp;
    jti = jti;
  })

unfoldable pub is_bytes : Text → Bool
is_bytes [] = true
is_bytes (c ∷ cs) = ltb c 256 && is_bytes cs

is_bytes-AreBytes : (t : Text) → is_bytes t ≡ true → AreBytes t
unfolding is_bytes
is_bytes-AreBytes [] h = tt
is_bytes-AreBytes (c ∷ cs) h = ground (arith, is_bytes-AreBytes cs)

-- A text that is not made of bytes has no form.
unfoldable pub marshal : TokenPayload → Option Text
marshal p = if is_bytes (print_payload p) then some (print_payload p) else none

pub marshal_bytes : (p : TokenPayload) (t : Text) → marshal p ≡ some t → AreBytes t
unfolding marshal
marshal_bytes p t h = elim (Bool-cases (is_bytes (print_payload p))) [
  | inl good ↦
      let formed : print_payload p ≡ t = ground arith in
      rw (← formed) (is_bytes-AreBytes (print_payload p) good)
  | inr bad ↦ absurd (ground arith)
]

unmarshal-print_payload :
    (p : TokenPayload) → IsAsciiPayload p → unmarshal (print_payload p) ≡ some p
unfolding unmarshal print_payload
unmarshal-print_payload p a = rw (
  read_text-print_text p.sub _ a.sub,
  read_text-print_text p.device_id _ a.device_id,
  read_text-print_text p.session_id _ a.session_id,
  read_text-print_text p.typ _ a.typ,
  read_text-print_text p.family _ a.family,
  read_text-print_text p.jti _ a.jti,
  read_flag-print_flag p.step_up,
  read_maybe-print_maybe p.step_up_exp,
  read_int-print_int p.iat,
  read_int-print_int p.exp,
)

pub unmarshal-marshal :
    (p : TokenPayload) (t : Text) → IsAsciiPayload p → marshal p ≡ some t → unmarshal t ≡ some p
unfolding marshal
unmarshal-marshal p t a h = elim (Bool-cases (is_bytes (print_payload p))) [
  | inl good ↦
      let formed : print_payload p ≡ t = ground arith in rw (← formed) (unmarshal-print_payload p a)
  | inr bad ↦ absurd (ground arith)
]

-- `m=%d,t=%d,p=%d`: three letters before each number, the first time two.
unfoldable pub scan_params : Text → Option (ℕ × ℕ × ℕ)
scan_params t =
    let (m, r) = read_decimal 0 (drop 2 t) in
    let (i, q) = read_decimal 0 (drop 3 r) in
    let (p, _) = read_decimal 0 (drop 3 q) in some (m, i, p)

pub scan_params-print_params : (m i p : ℕ) → scan_params (print_params m i p) ≡ some (m, i, p)
unfolding scan_params print_params read_decimal
scan_params-print_params m i p =
    let last : read_decimal 0 (decimal p) ≡ (p, []) =
      ap (read_decimal 0) (sym (append-nil (decimal p))) ∙ read_decimal-decimal p [] in
    rw (read_decimal-decimal m, read_decimal-decimal i, last)

-- What the tests unfold to run it.
unfoldable pub codec : Unit {0}
unfolding unmarshal marshal is_bytes print_payload print_text print_flag print_maybe print_int
    print_unary read_text read_flag read_maybe read_int read_unary scan_params read_decimal
codec = tt
