-- ===== src/Verification/Waiting.antt =====
-- A one-time code waits for its user.
use dift_backend_auth.Base.{
  ℕ, ◌+◌, ◌*◌, ◌≤◌, ◌≡◌, refl, sym, ap, ◌∙◌, true, some, List, [], ◌∷◌, Text, text_eq, text_eq_refl,
  arith,
}
use dift_backend_auth.Base.Int.{ℤ, pos, ◌+ℤ◌, ◌*ℤ◌}
use dift_backend_auth.Base.Words.{wrap64}
use dift_backend_auth.Base.Ascii.{to_lower, trim_space}
use dift_backend_auth.Store
use dift_backend_auth.Store.{get-put_self}
use dift_backend_auth.Crypto.{second}
use dift_backend_auth.Verification
use dift_backend_auth.Verification.{
  Status, OtpChallenge, Outside, State, Result, ok, err, challenge_id_of, code_hash_of,
  new_challenge, life, created, the_code, is_open, dispatch_otp,
}
use dift_backend_auth.Verification.Handlers.{Request, serve, serve_all}
use dift_backend_auth.Verification.Once.{
  dispatch_otp-otp, NeverAgain, NeverAgain-serve, IsAside, serve-others,
}

-- The greatest life in seconds whose nanoseconds are a 64-bit number.
abbrev pub longest_life : ℕ
longest_life = 9223372036

life-seconds : (n : ℕ) → 1 ≤ n → n ≤ longest_life → life (pos n) ≡ pos (n * second)
unfolding ◌*ℤ◌ wrap64
life-seconds n h k = ground arith

module _ {Score : Type 0} (out : Outside Score) where
  -- The challenge that a creation that goes through stores.
  create_otp-stored :
      (user channel target : Text) (ttl : ℤ) (w : State Score) {id code : Text}
      → (Verification.create_otp out user channel target ttl w).0 ≡ ok (id, code)
      → (code ≡ the_code)
        × (Store.get id (Verification.create_otp out user channel target ttl w).1.otp
            ≡ some (
                new_challenge out user
                  (to_lower (trim_space channel))
                  target
                  ttl
                  (out.clock w.reads)))
  unfolding Verification.create_otp
  create_otp-stored user channel target ttl w {id} {code} h =
      let channel' = to_lower (trim_space channel) in
      ground (
        arith,
        dispatch_otp-otp out channel' target the_code (created out user channel' target ttl w),
        get-put_self (challenge_id_of out w.draws)
            (new_challenge out user channel' target ttl (out.clock w.reads)) w.otp,
      )

  abbrev pub AreAside : Text → List Request → Type 0
  AreAside id [] = Unit {0}
  AreAside id (r ∷ rs) = IsAside out id r × AreAside id rs

  serve_all-others :
      (rs : List Request) (w : State Score) (id : Text)
      → NeverAgain out id w.draws
      → AreAside id rs
      → Store.get id (serve_all out rs w).otp ≡ Store.get id w.otp
  serve_all-others [] w id fresh aside = refl
  serve_all-others (r ∷ rs) w id fresh (aside, more) =
      serve_all-others rs (serve out r w).1 id (NeverAgain-serve out r w id fresh) more
      ∙ serve-others out r w id fresh aside

  -- A challenge that is open, with its code, is verified.
  verify_otp-accepted :
      (user id code : Text) (w : State Score) (ch : OtpChallenge)
      → Store.get id w.otp ≡ some ch
      → ch.user_id ≡ user
      → is_open (out.clock w.reads) ch ≡ true
      → ch.code_hash ≡ code_hash_of out user code
      → (Verification.verify_otp out user id code w).0 ≡ true
  unfolding Verification.verify_otp
  verify_otp-accepted user id code w ch found own waiting right =
      let own' : text_eq ch.user_id user ≡ true = rw own (text_eq_refl user) in
      let right' : text_eq ch.code_hash (code_hash_of out user code) ≡ true =
        rw right (text_eq_refl (code_hash_of out user code)) in
      rw (Verification.verify_otp, found, own', waiting, right') refl

  in_time :
      (user channel target : Text) (n now later : ℕ)
      → 1 ≤ n
      → n ≤ longest_life
      → later ≤ now + n * second
      → is_open later (new_challenge out user channel target (pos n) now) ≡ true
  unfolding ◌+ℤ◌
  in_time user channel target n now later h k before = ground (arith, life-seconds n h k)

  -- A code that was asked for, with a life of one to 9223372036 seconds, verifies with the code that
  -- the answer gave, at every time up to the end of its life and whatever requests come between, as
  -- long as none of them is a verification of that challenge and no later token makes its id again.
  pub create_otp-verify_otp :
      (user channel target : Text) (n : ℕ) (w : State Score) (id code : Text) (rs : List Request)
      → 1 ≤ n
      → n ≤ longest_life
      → (Verification.create_otp out user channel target (pos n) w).0 ≡ ok (id, code)
      → NeverAgain out id (Verification.create_otp out user channel target (pos n) w).1.draws
      → AreAside id rs
      → out.clock
          (serve_all out rs (Verification.create_otp out user channel target (pos n) w).1).reads
        ≤ out.clock w.reads + n * second
      → (Verification.verify_otp out user id code
          (serve_all out rs (Verification.create_otp out user channel target (pos n) w).1)).0
        ≡ true
  create_otp-verify_otp user channel target n w id code rs h k done fresh aside before =
      let w1 = (Verification.create_otp out user channel target (pos n) w).1 in
      let w2 = serve_all out rs w1 in
      let channel' = to_lower (trim_space channel) in
      let ch = new_challenge out user channel' target (pos n) (out.clock w.reads) in
      let (given, stored) = create_otp-stored user channel target (pos n) w done in
      verify_otp-accepted user id code w2 ch (serve_all-others rs w1 id fresh aside ∙ stored) refl
        (in_time user channel' target n (out.clock w.reads) (out.clock w2.reads) h k before)
        (ap (code_hash_of out user) (sym given))
