-- ===== src/Tests/Verifying.antt =====
-- Requests to the verification service. Scores are hundredths.
use dift_backend_auth.Base.{
  ℕ, ◌≡◌, refl, min, true, false, none, some, List, [], ◌∷◌, ◌++◌, length, Text, codes, arith,
}
use dift_backend_auth.Base.Int.{pos}
use dift_backend_auth.Verification
use dift_backend_auth.Verification.{
  Audit, Outside, State, Result, ok, err, the_code, challenge_id_of, new_verification_service,
  evaluate_risk, list_audit, audit_limit,
}
use dift_backend_auth.Verification.Handlers.{Request, serve_all}
use dift_backend_auth.Verification.Once.{NeverAgain, verify_otp_twice}
use dift_backend_auth.Verification.Waiting.{create_otp-verify_otp}
use dift_backend_auth.Verification.Trail.{Applies, list_audit-newest}
use dift_backend_auth.Tests.Program.{program}

abbrev outside : Outside ℕ
outside = record {
  clock = λ k. k;
  draw = λ k. k ∷ [];
  sha256 = λ t. t;
  face = λ k. none;
  usual_score = 90;
  zero_score = 0;
  sms_url = [];
  email_url = codes "m";
  face_url = [];
}

abbrev start : State ℕ
start = new_verification_service

abbrev created : Result (Text × Text) × State ℕ
created = Verification.create_otp outside (codes "u") (codes " Email ") (codes "t") (pos 60) start

abbrev first_id : Text
unfolding program
first_id = challenge_id_of outside 0

create-run : created.0 ≡ ok (first_id, the_code)
unfolding program
create-run = refl

first_id-NeverAgain : NeverAgain outside first_id created.1.draws
unfolding program
first_id-NeverAgain k h = ground arith

abbrev between : List Request
between =
    Request.create_otp (
      some (record { user_id = codes "v"; channel = codes "sms"; target = codes "t"; ttl = pos 0 }))
    ∷ Request.verify_otp
        (some (record { user_id = codes "v"; challenge_id = codes "other"; code = codes "1" }))
    ∷ Request.verify_face (
        some
          (record { user_id = codes "u"; liveness_token = codes "live_1"; selfie_ref = codes "s" }))
    ∷ Request.list_audit (pos 10)
    ∷ []

create_otp-verify_otp_example :
    (Verification.verify_otp outside
      (codes "u")
      first_id
      the_code
      (serve_all outside between created.1)).0
    ≡ true
unfolding program
create_otp-verify_otp_example =
    create_otp-verify_otp outside (codes "u") (codes " Email ") (codes "t") 60 start first_id
      the_code between (omega arith) (omega arith) refl first_id-NeverAgain
      (tt, (refl, (tt, (tt, tt)))) (omega arith)

verify_otp_twice_example :
    (Verification.verify_otp outside (codes "u") first_id the_code (
      serve_all outside between
        (Verification.verify_otp outside (codes "u") first_id the_code created.1).1)).0
    ≡ false
unfolding program
verify_otp_twice_example =
    verify_otp_twice outside (codes "u") first_id the_code created.1 between (codes "u") the_code
      refl first_id-NeverAgain

list_audit-newest_example :
    (n : ℕ) × Applies (pos 1) n
    × (older : List (Audit ℕ)) × (older ++ list_audit (pos 1) (serve_all outside between created.1)
        ≡ (serve_all outside between created.1).audits)
    × (length (list_audit (pos 1) (serve_all outside between created.1))
        ≡ min n (length (serve_all outside between created.1).audits))
list_audit-newest_example = list_audit-newest (pos 1) (serve_all outside between created.1)
