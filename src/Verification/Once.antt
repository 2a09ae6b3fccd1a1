-- ===== src/Verification/Once.antt =====
-- The life of a one-time code: pending, then verified once.
use dift_backend_auth.Base.{
  ℕ, ◌≤◌, ◌≡◌, refl, ap, ◌∙◌, ◌⊎◌, inl, inr, true, false, ◌&&◌, none, some, List, [], ◌∷◌, Text,
  text_eq, text_eq_iff, arith, Bool-cases, Option-cases,
}
use mathlib.Core.Path.{subst}
use dift_backend_auth.Base.Int.{ℤ}
use dift_backend_auth.Base.Ascii.{to_lower, trim_space}
use dift_backend_auth.Store
use dift_backend_auth.Store.{get-put, get-put_self, get-put_ne}
use dift_backend_auth.Verification
use dift_backend_auth.Verification.{
  Status, OtpChallenge, Outside, State, Result, challenge_id_of, code_hash_of, is_open, is_pending,
  try_challenge, asked, face_audited, created, dispatch_otp, the_code, new_challenge,
}
use dift_backend_auth.Verification.Handlers.{
  Request, CreateBody, VerifyBody, handle_create_otp, serve, serve_all,
}

module _ {Score : Type 0} (out : Outside Score) where
  pub dispatch_otp-otp :
      (channel target code : Text) (w : State Score)
      → (dispatch_otp out channel target code w).otp ≡ w.otp
  unfolding dispatch_otp
  dispatch_otp-otp channel target code w = ground arith

  dispatch_otp-draws :
      (channel target code : Text) (w : State Score)
      → (dispatch_otp out channel target code w).draws ≡ w.draws
  unfolding dispatch_otp
  dispatch_otp-draws channel target code w = ground arith

  create_otp-others :
      (user channel target : Text) (ttl : ℤ) (w : State Score) (id : Text)
      → text_eq (challenge_id_of out w.draws) id ≡ false
      → Store.get id (Verification.create_otp out user channel target ttl w).1.otp
        ≡ Store.get id w.otp
  unfolding Verification.create_otp
  create_otp-others user channel target ttl w id fresh =
      let channel' = to_lower (trim_space channel) in
      ground (
        arith,
        dispatch_otp-otp channel' target the_code (created out user channel' target ttl w),
        get-put_ne (challenge_id_of out w.draws) id
            (new_challenge out user channel' target ttl (out.clock w.reads)) w.otp fresh,
      )

  -- What a verification of a challenge does to it.
  pub record Verified (user id code : Text) (w w' : State Score) : Type 0 where
    pub challenge : OtpChallenge
    pub found : Store.get id w.otp ≡ some challenge
    pub of_user : challenge.user_id ≡ user
    pub in_time : is_open (out.clock w.reads) challenge ≡ true
    pub right_code : challenge.code_hash ≡ code_hash_of out user code
    pub spent : Store.get id w'.otp ≡ some (record challenge { status = Status.verified })
    pub others : (j : Text) → text_eq id j ≡ false → Store.get j w'.otp ≡ Store.get j w.otp

  -- A verification says no and leaves the challenges as they are, or says yes and spends the
  -- challenge.
  pub verify_otp-cases :
      (user id code : Text) (w : State Score)
      → (((Verification.verify_otp out user id code w).0 ≡ false)
          × ((Verification.verify_otp out user id code w).1.otp ≡ w.otp))
        ⊎ (((Verification.verify_otp out user id code w).0 ≡ true)
            × Verified user id code w (Verification.verify_otp out user id code w).1)
  unfolding Verification.verify_otp
  verify_otp-cases user id code w = elim (Option-cases (Store.get id w.otp)) [
    | inl missing ↦
        inl (rw (Verification.verify_otp, missing) refl, rw (Verification.verify_otp, missing) refl)
    | inr (ch, found) ↦ elim (Bool-cases (text_eq ch.user_id user)) [
      | inr other ↦ inl (
        rw (Verification.verify_otp, found, other) refl,
        rw (Verification.verify_otp, found, other) refl,
      )
      | inl own ↦
          elim (Bool-cases
            (is_open (out.clock w.reads) ch && text_eq ch.code_hash (code_hash_of out user code))) [
              | inr refused ↦ inl (
                rw (Verification.verify_otp, found, own, refused) refl,
                rw (Verification.verify_otp, found, own, refused) refl,
              )
              | inl accepted ↦ inr (
                rw (Verification.verify_otp, found, own, accepted) refl,
                record {
                  challenge = ch;
                  found = found;
                  of_user = (text_eq_iff ch.user_id user).0 own;
                  in_time = ground arith;
                  right_code =
                      (text_eq_iff ch.code_hash (code_hash_of out user code)).0 (ground arith);
                  spent =
                      rw (Verification.verify_otp, found, own, accepted)
                        (get-put_self id (record ch { status = Status.verified }) w.otp);
                  others = λ j ne.
                      rw (Verification.verify_otp, found, own, accepted)
                        (get-put_ne id j (record ch { status = Status.verified }) w.otp ne);
                },
              )
            ]
    ]
  ]

  verify_otp-draws :
      (user id code : Text) (w : State Score)
      → (Verification.verify_otp out user id code w).1.draws ≡ w.draws
  unfolding Verification.verify_otp
  verify_otp-draws user id code w = ground arith

  verify_face-otp :
      (user liveness selfie : Text) (w : State Score)
      → (Verification.verify_face out user liveness selfie w).1.otp ≡ w.otp
  unfolding Verification.verify_face
  verify_face-otp user liveness selfie w = ground arith

  verify_face-draws :
      (user liveness selfie : Text) (w : State Score)
      → (Verification.verify_face out user liveness selfie w).1.draws ≡ w.draws
  unfolding Verification.verify_face
  verify_face-draws user liveness selfie w = ground arith

  create_otp-draws :
      (user channel target : Text) (ttl : ℤ) (w : State Score)
      → w.draws ≤ (Verification.create_otp out user channel target ttl w).1.draws
  unfolding Verification.create_otp
  create_otp-draws user channel target ttl w =
      let channel' = to_lower (trim_space channel) in
      ground (
        arith,
        dispatch_otp-draws channel' target the_code (created out user channel' target ttl w),
      )

  serve-draws : (r : Request) (w : State Score) → w.draws ≤ (serve out r w).1.draws
  unfolding serve
  serve-draws (Request.create_otp none) w = omega arith
  serve-draws (Request.create_otp (some b)) w =
      ground (arith, create_otp-draws b.user_id b.channel b.target b.ttl w)
  serve-draws (Request.verify_otp none) w = omega arith
  serve-draws (Request.verify_otp (some b)) w =
      ground (arith, verify_otp-draws b.user_id b.challenge_id b.code w)
  serve-draws (Request.verify_face none) w = omega arith
  serve-draws (Request.verify_face (some b)) w =
      ground (arith, verify_face-draws b.user_id b.liveness_token b.selfie_ref w)
  serve-draws (Request.evaluate_risk none) w = omega arith
  serve-draws (Request.evaluate_risk (some b)) w = omega arith
  serve-draws (Request.list_audit limit) w = omega arith

  -- No token from the n-th on makes the id of a challenge again.
  abbrev pub NeverAgain : Text → ℕ → Type 0
  NeverAgain id n = (k : ℕ) → n ≤ k → text_eq (challenge_id_of out k) id ≡ false

  -- A request that is no verification of the challenge.
  abbrev pub IsAside : Text → Request → Type 0
  IsAside id (Request.verify_otp (some b)) = text_eq b.challenge_id id ≡ false
  IsAside id _ = Unit {0}

  settled-otp :
      (b : CreateBody) (w : State Score)
      → (handle_create_otp out b w).1.otp
        ≡ (Verification.create_otp out b.user_id b.channel b.target b.ttl w).1.otp
  settled-otp b w = ground arith

  pub serve-others :
      (r : Request) (w : State Score) (id : Text)
      → NeverAgain id w.draws
      → IsAside id r
      → Store.get id (serve out r w).1.otp ≡ Store.get id w.otp
  unfolding serve
  serve-others (Request.create_otp none) w id fresh aside = refl
  serve-others (Request.create_otp (some b)) w id fresh aside =
      ap (Store.get id) (settled-otp b w)
      ∙ create_otp-others b.user_id b.channel b.target b.ttl w id (fresh w.draws (omega arith))
  serve-others (Request.verify_otp none) w id fresh aside = refl
  serve-others (Request.verify_otp (some b)) w id fresh aside =
      elim (verify_otp-cases b.user_id b.challenge_id b.code w) [
        | inl (no_, same) ↦ ap (Store.get id) same
        | inr (yes_, v) ↦ v.others id aside
      ]
  serve-others (Request.verify_face none) w id fresh aside = refl
  serve-others (Request.verify_face (some b)) w id fresh aside =
      ground (arith, verify_face-otp b.user_id b.liveness_token b.selfie_ref w)
  serve-others (Request.evaluate_risk none) w id fresh aside = refl
  serve-others (Request.evaluate_risk (some b)) w id fresh aside = refl
  serve-others (Request.list_audit limit) w id fresh aside = refl

  pub record IsSpent (id : Text) (w : State Score) : Type 0 where
    pub challenge : OtpChallenge
    pub stored : Store.get id w.otp ≡ some challenge
    pub done : is_pending challenge.status ≡ false

  IsSpent-kept :
      (id : Text) (w w' : State Score)
      → Store.get id w'.otp ≡ Store.get id w.otp
      → IsSpent id w
      → IsSpent id w'
  IsSpent-kept id w w' same spent = record {
    challenge = spent.challenge;
    stored = same ∙ spent.stored;
    done = spent.done;
  }

  Verified-IsSpent :
      (user id code : Text) (w w' : State Score) → Verified user id code w w' → IsSpent id w'
  Verified-IsSpent user id code w w' v = record {
    challenge = record v.challenge { status = Status.verified };
    stored = v.spent;
    done = refl;
  }

  serve-IsSpent :
      (r : Request) (w : State Score) (id : Text)
      → NeverAgain id w.draws
      → IsSpent id w
      → IsSpent id (serve out r w).1
  unfolding serve
  serve-IsSpent (Request.verify_otp (some b)) w id fresh spent =
      elim (Bool-cases (text_eq b.challenge_id id)) [
        | inr other ↦
            IsSpent-kept id w (serve out (Request.verify_otp (some b)) w).1
              (serve-others (Request.verify_otp (some b)) w id fresh other) spent
        | inl same ↦ same_challenge b ((text_eq_iff b.challenge_id id).0 same)
      ]
    where
      same_challenge :
          (b : VerifyBody)
          → b.challenge_id ≡ id
          → IsSpent id (serve out (Request.verify_otp (some b)) w).1
      same_challenge b same = elim (verify_otp-cases b.user_id b.challenge_id b.code w) [
        | inl (refused, kept) ↦
            IsSpent-kept id w (Verification.verify_otp out b.user_id b.challenge_id b.code w).1
              (ap (Store.get id) kept) spent
        | inr (accepted, v) ↦
            subst (λ j. IsSpent j (Verification.verify_otp out b.user_id b.challenge_id b.code w).1)
              same (Verified-IsSpent b.user_id b.challenge_id b.code w _ v)
      ]
  serve-IsSpent (Request.verify_otp none) w id fresh spent = IsSpent-kept id w w refl spent
  serve-IsSpent (Request.create_otp b) w id fresh spent =
      IsSpent-kept id w (serve out (Request.create_otp b) w).1
        (serve-others (Request.create_otp b) w id fresh tt) spent
  serve-IsSpent (Request.verify_face b) w id fresh spent =
      IsSpent-kept id w (serve out (Request.verify_face b) w).1
        (serve-others (Request.verify_face b) w id fresh tt) spent
  serve-IsSpent (Request.evaluate_risk b) w id fresh spent =
      IsSpent-kept id w (serve out (Request.evaluate_risk b) w).1
        (serve-others (Request.evaluate_risk b) w id fresh tt) spent
  serve-IsSpent (Request.list_audit limit) w id fresh spent =
      IsSpent-kept id w (serve out (Request.list_audit limit) w).1
        (serve-others (Request.list_audit limit) w id fresh tt) spent

  pub NeverAgain-serve :
      (r : Request) (w : State Score) (id : Text)
      → NeverAgain id w.draws
      → NeverAgain id (serve out r w).1.draws
  NeverAgain-serve r w id fresh = λ k h. fresh k (omega (arith, serve-draws r w))

  serve_all-IsSpent :
      (rs : List Request) (w : State Score) (id : Text)
      → NeverAgain id w.draws
      → IsSpent id w
      → IsSpent id (serve_all out rs w)
  serve_all-IsSpent [] w id fresh spent = spent
  serve_all-IsSpent (r ∷ rs) w id fresh spent =
      serve_all-IsSpent rs (serve out r w).1 id (NeverAgain-serve r w id fresh)
        (serve-IsSpent r w id fresh spent)

  -- A challenge whose code was verified is never verified again, whatever requests come between,
  -- with whatever user and code, as long as no later token makes its id again.
  pub verify_otp_twice :
      (user id code : Text) (w : State Score) (rs : List Request) (user' code' : Text)
      → (Verification.verify_otp out user id code w).0 ≡ true
      → NeverAgain id w.draws
      → (Verification.verify_otp out user' id code'
          (serve_all out rs (Verification.verify_otp out user id code w).1)).0
        ≡ false
  verify_otp_twice user id code w rs user' code' accepted fresh =
      let w1 = (Verification.verify_otp out user id code w).1 in
      let w2 = serve_all out rs w1 in
      elim (verify_otp-cases user id code w) [
        | inl (refused, kept) ↦ absurd (cc (accepted, refused))
        | inr (_, v) ↦
            let spent : IsSpent id w2 =
              serve_all-IsSpent rs w1 id
                (λ k h. fresh k (omega (arith, verify_otp-draws user id code w)))
                (Verified-IsSpent user id code w w1 v) in
            elim (verify_otp-cases user' id code' w2) [
              | inl (refused, kept) ↦ refused
              | inr (again, v') ↦ absurd (not_open w2 spent v')
            ]
      ]
    where
      not_open :
          (w2 : State Score)
          → IsSpent id w2
          → Verified user' id code' w2 (Verification.verify_otp out user' id code' w2).1
          → ⊥
      not_open w2 spent v' =
          let same : spent.challenge ≡ v'.challenge = cc (spent.stored, v'.found) in
          let done : is_pending v'.challenge.status ≡ false = rw (← same) spent.done in ground arith
