-- ===== src/Verification/Handlers.antt =====
-- auth-service-main/internal/adapter/inbound/http/verification_handler.go and the routes of its
-- group in internal/route/auth.go, in front of which nothing is checked.
use dift_backend_auth.Base.{ℕ, Bool, Option, none, some, List, [], ◌∷◌, Text, codes}
use dift_backend_auth.Base.Int.{ℤ}
use dift_backend_auth.Verification
use dift_backend_auth.Verification.{Audit, Outside, State, Failure, Result, ok, err}

pub record CreateBody : Type 0 where
  pub user_id : Text
  pub channel : Text
  pub target : Text
  pub ttl : ℤ

pub record VerifyBody : Type 0 where
  pub user_id : Text
  pub challenge_id : Text
  pub code : Text

pub record FaceBody : Type 0 where
  pub user_id : Text
  pub liveness_token : Text
  pub selfie_ref : Text

pub record RiskBody : Type 0 where
  pub user_id : Text
  pub action : Text
  pub ip : Text
  pub device_id : Text

-- The route, with the body as far as it decodes. The limit is what `strconv.Atoi` gives.
pub data Request : Type 0 where
  create_otp : Option CreateBody → Request
  verify_otp : Option VerifyBody → Request
  verify_face : Option FaceBody → Request
  evaluate_risk : Option RiskBody → Request
  list_audit : ℤ → Request

pub data Body (Score : Type 0) : Type 0 where
  invalid_payload : Body Score
  failure : Text → Failure → Body Score
  challenge : (challenge_id dev_code : Text) → Body Score
  verified : Bool → Body Score
  face : Bool → Score → Body Score
  risk : ℕ → Text → Body Score
  items : List (Audit Score) → Body Score

pub record Response (Score : Type 0) : Type 0 where
  pub code : ℕ
  pub body : Body Score

abbrev pub responded : {Score : Type 0} → ℕ → Body Score → Response Score
responded code body = record { code = code; body = body }

module _ {Score : Type 0} (out : Outside Score) where
  abbrev pub Step : Type 0
  Step = State Score → Response Score × State Score

  -- A body that does not decode.
  abbrev pub bad_request : Step
  bad_request w = (responded 400 Body.invalid_payload, w)

  abbrev pub settled :
      {A : Type 0}
      → Text
      → ℕ
      → (A → Body Score)
      → Result A × State Score
      → Response Score × State Score
  settled kind done body (ok a, w) = (responded done (body a), w)
  settled kind done body (err e, w) = (responded 400 (Body.failure kind e), w)

  abbrev pub handle_create_otp : CreateBody → Step
  handle_create_otp b w =
      settled (codes "otp_create_failed") 201 (λ (p : Text × Text). Body.challenge p.0 p.1)
        (Verification.create_otp out b.user_id b.channel b.target b.ttl w)

  abbrev pub handle_verify_otp : VerifyBody → Step
  handle_verify_otp b w =
      let (passed, w') = Verification.verify_otp out b.user_id b.challenge_id b.code w in
      (responded 200 (Body.verified passed), w')

  abbrev pub handle_verify_face : FaceBody → Step
  handle_verify_face b w =
      settled (codes "face_verify_failed") 200 (λ (p : Bool × Score). Body.face p.0 p.1)
        (Verification.verify_face out b.user_id b.liveness_token b.selfie_ref w)

  abbrev pub handle_evaluate_risk : RiskBody → Step
  handle_evaluate_risk b w =
      let (score, level) = Verification.evaluate_risk b.action b.ip b.device_id in
      (responded 200 (Body.risk score level), w)

  unfoldable pub serve : Request → Step
  serve (create_otp none) w = bad_request w
  serve (create_otp (some b)) w = handle_create_otp b w
  serve (verify_otp none) w = bad_request w
  serve (verify_otp (some b)) w = handle_verify_otp b w
  serve (verify_face none) w = bad_request w
  serve (verify_face (some b)) w = handle_verify_face b w
  serve (evaluate_risk none) w = bad_request w
  serve (evaluate_risk (some b)) w = handle_evaluate_risk b w
  serve (list_audit limit) w = (responded 200 (Body.items (Verification.list_audit limit w)), w)

  -- The state after requests served in turn.
  abbrev pub serve_all : List Request → State Score → State Score
  serve_all [] w = w
  serve_all (r ∷ rs) w = serve_all rs (serve r w).1
