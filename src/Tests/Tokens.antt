-- ===== src/Tests/Tokens.antt =====
-- Passwords and tokens.
use dift_backend_auth.Base.{◌≡◌, refl, true, false, none, [], Text, codes, arith}
use dift_backend_auth.Domain.{token_type_access}
use dift_backend_auth.Runtime.{World, Outcome, ok}
use dift_backend_auth.Crypto.{hash_password, verify_password}
use dift_backend_auth.Crypto.Passwords.{verify_password-hash_password}
use dift_backend_auth.Token.{issue_token_pair, verify_access_token}
use dift_backend_auth.Token.Signing.{tick}
use dift_backend_auth.Token.Claims.{issue_token_pair-verify_access_token}
use dift_backend_auth.Tests.Program.{program}
use dift_backend_auth.Tests.Samples.{env, env-IsDocumented, empty}

abbrev text_of : Outcome Text → Text
text_of (ok t) = t
text_of _ = []

abbrev first_of : Outcome (Text × Text) → Text
first_of (ok (a, r)) = a
first_of _ = []

abbrev second_of : Outcome (Text × Text) → Text
second_of (ok (a, r)) = r
second_of _ = []

abbrev hashed : Outcome Text × World
hashed = hash_password (codes "pw12") env empty

hashed-run : hashed.0 ≡ ok (codes "$argon2id$v=19$m=8,t=1,p=1$AA$cHcxMg")
unfolding program
hashed-run = refl

verify_password-hash_password_example :
    verify_password (codes "pw12") (text_of hashed.0) env empty ≡ (ok true, empty)
unfolding program
verify_password-hash_password_example =
    verify_password-hash_password env (codes "pw12") empty env-IsDocumented (omega arith)
      (omega arith) (omega arith) (omega arith) refl empty

abbrev pair : Outcome (Text × Text) × World
pair = issue_token_pair (codes "u") (codes "d") (codes "s") (codes "f") env empty

issue_token_pair-verify_access_token_example : verify_access_token (first_of pair.0) env pair.1 ≡ (
  ok (record {
    user_id = codes "u";
    device_id = codes "d";
    session_id = codes "s";
    token_type = token_type_access;
    step_up = false;
    step_up_exp = none;
  }),
  tick pair.1,
)
unfolding program
issue_token_pair-verify_access_token_example =
    issue_token_pair-verify_access_token env (codes "u") (codes "d") (codes "s") (codes "f") empty
      env-IsDocumented (omega arith) (omega arith) (omega arith) (omega arith) refl pair.1
      (omega arith)
