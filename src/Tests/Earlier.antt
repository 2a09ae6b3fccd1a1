-- ===== src/Tests/Earlier.antt =====
-- The earlier engine's passwords, one-time codes and API keys.
use dift_backend_auth.Base.{
  zero, suc, ◌≡◌, refl, true, none, some, List, [], ◌∷◌, Text, codes, arith,
}
use dift_backend_auth.Legacy.Passwords.{has_repeating_chars}
use dift_backend_auth.Legacy.Codes.{
  Outside, State, Otp, Result, ok, Channel, SendOtpRequest, send, verify,
}
use dift_backend_auth.Legacy.Unlimited.{verify_all, verify_all-verify}
use dift_backend_auth.Base.Int.{pos}
use dift_backend_auth.Legacy.Keys
use dift_backend_auth.Legacy.Keys.{
  CreateApiKeyRequest, create_key, list_keys, revoke_key, with_key, passed, revoked,
  invalid_api_key, plaintext_of, hash_api_key, authenticate, serve, serve_all,
}
use dift_backend_auth.Legacy.Revoked.{AreOther, revoke_key-authenticate}
use dift_backend_auth.Tests.Program.{program}

has_repeating_chars-run : has_repeating_chars (codes "baaaab") 3 ≡ true
unfolding program
has_repeating_chars-run = refl

abbrev outside : Outside
outside = record {
  clock = λ k. k;
  number = λ k. some 42;
  uuid = λ k. k ∷ [];
  reached = λ k. true;
  delivered = λ channel to code. true;
  code_length = 6;
  expiry = 100;
  max_attempts = 3;
}

abbrev start : State
start = record { keys = []; reads = 0; draws = 0; commands = 0 }

abbrev request : SendOtpRequest
request = record { channel = Channel.sms; recipient = codes "p"; purpose = codes "login" }

abbrev sent : Result (Unit {0}) × State
sent = send outside (codes "u") request start

abbrev sent_otp : Otp
sent_otp = record {
  id = 1 ∷ [];
  user_id = codes "u";
  code = codes "000042";
  purpose = codes "login";
  channel = Channel.sms;
  recipient = codes "p";
  expires_at = 100;
  attempts = 0;
}

abbrev tries : List Text
tries = codes "1" ∷ codes "2" ∷ codes "3" ∷ codes "4" ∷ codes "000042" ∷ []

verify_all-verify_example :
    (verify outside
      (codes "p")
      (codes "login")
      (codes "000042")
      (verify_all outside (codes "p") (codes "login") tries sent.1)).0
    ≡ ok tt
unfolding program
verify_all-verify_example =
    verify_all-verify outside (codes "p") (codes "login") tries sent_otp 100 sent.1 (λ k. refl) refl
      refl refl (omega arith) (omega arith) (omega arith)

abbrev bytes : Text
bytes = codes "random bytes"

abbrev database : Keys.Outside
database = record {
  clock = λ k. k;
  random = λ k. elim k [ zero ↦ some bytes | suc n ↦ none ];
  sha256 = λ t. t;
  reached = λ k. true;
  row_id = λ k. k ∷ [];
  row_time = λ k. k;
  precedes = λ s t. true;
}

abbrev no_keys : Keys.State
no_keys = record { rows = []; reads = 0; draws = 0; commands = 0 }

abbrev wanted : CreateApiKeyRequest
wanted = record {
  name = codes "ci";
  permissions = [];
  scopes = [];
  rate_limit = pos 0;
  expires_at = some 50;
}

abbrev ann : Text
ann = codes "ann"

-- The key is made and used.
abbrev in_use : Keys.State
in_use =
    serve_all database (create_key ann (some wanted) ∷ with_key (plaintext_of bytes) ∷ []) no_keys

authenticate-in_use :
    (serve database (with_key (plaintext_of bytes)) in_use).0 ≡ (200, passed (0 ∷ []) ann [] [])
unfolding program
authenticate-in_use = refl

drawn_once : AreOther database (hash_api_key database (plaintext_of bytes)) 1
drawn_once zero b late drawn = absurd (omega (arith, late))
drawn_once (suc k) b late drawn = absurd (cc drawn)

revoke_key-authenticate_example :
    ((serve database (revoke_key ann (some (0 ∷ []))) in_use).0 ≡ (200, revoked))
    × ((authenticate database (plaintext_of bytes) (
          serve_all database
            (with_key (plaintext_of bytes) ∷ create_key ann (some wanted) ∷ list_keys ann ∷ [])
            (serve database (revoke_key ann (some (0 ∷ []))) in_use).1)).0
        ≡ Keys.err invalid_api_key)
unfolding program
revoke_key-authenticate_example =
    revoke_key-authenticate database (plaintext_of bytes) (0 ∷ []) ann
      (with_key (plaintext_of bytes) ∷ create_key ann (some wanted) ∷ list_keys ann ∷ []) in_use
      refl ((λ active. refl), tt) drawn_once
