-- ===== src/Tests/Sessions.antt =====
-- Sessions, their tokens, and the lock of an account.
use dift_backend_auth.Base.{
  ◌≡◌, ◌≢◌, refl, false, Option, none, some, [], Text, codes, text_eq, text_ne, arith,
}
use dift_backend_auth.Base.Int
use dift_backend_auth.Store
use dift_backend_auth.Domain.{User, Session, SessionStatus, TokenPayload, TokenClaims}
use dift_backend_auth.Runtime.{World, Outcome, ok, err, family_compromised, account_locked}
use dift_backend_auth.Token.{rotate_refresh_token, revoke_session}
use dift_backend_auth.Token.Signing.{payload_of, tick}
use dift_backend_auth.Token.Replay.{IsDead, rotate_twice-IsDead}
use dift_backend_auth.Token.Revocation.{revoke_session-found}
use dift_backend_auth.Auth.{login_as}
use dift_backend_auth.Auth.Access.{logout}
use dift_backend_auth.Auth.Lockout.{login_as-lockout}
use dift_backend_auth.Auth.Soundness.{LoggedIn, login_as-LoggedIn}
use dift_backend_auth.Token.Acceptance.{rotate_refresh_token-current}
use dift_backend_auth.Token.{used, issue_token_pair}
use dift_backend_auth.Crypto.{hash_refresh_token}
use dift_backend_auth.Auth.Logout.{logout-rotate}
use dift_backend_auth.Invariant.Keyed.{AreKeyed, Reaches-AreKeyed}
use dift_backend_auth.Tests.Program.{program}
use dift_backend_auth.Tests.Samples.{env}
use dift_backend_auth.Tests.Journey.{
  or_else, user, town, town-AreKeyed, logged_in, login_with, tokens, logged_in-Reaches,
}

logged_in-AreKeyed : AreKeyed logged_in.1.db
logged_in-AreKeyed = Reaches-AreKeyed env town logged_in.1 logged_in-Reaches town-AreKeyed

abbrev rotated : Outcome (Text × Text) × World
rotated = rotate_refresh_token tokens.refresh_token (codes "d") env logged_in.1

abbrev no_pair : Text × Text
no_pair = ([], [])

abbrev no_payload : TokenPayload
no_payload = record {
  sub = [];
  device_id = [];
  session_id = [];
  typ = [];
  family = [];
  step_up = false;
  step_up_exp = none;
  iat = Int.pos 0;
  exp = Int.pos 0;
  jti = [];
}

abbrev or_no_payload : Option TokenPayload → TokenPayload
or_no_payload none = no_payload
or_no_payload (some p) = p

-- What the refresh token of the login says.
abbrev said : TokenPayload
said = or_no_payload (payload_of env tokens.refresh_token env.cfg.refresh_token_secret)

abbrev replayed : Outcome (Text × Text) × World
replayed = rotate_refresh_token tokens.refresh_token (codes "d") env rotated.1

rotate_twice-IsDead_example :
    (replayed.0 ≡ err family_compromised) × IsDead said.family replayed.1.db
unfolding program
rotate_twice-IsDead_example =
    rotate_twice-IsDead env tokens.refresh_token (codes "d") logged_in.1
      {a = (or_else no_pair rotated.0).0} {r = (or_else no_pair rotated.0).1} {w' = rotated.1}
      rotated.1 said logged_in-AreKeyed.sessions refl (text_ne _ _ refl) refl refl refl

abbrev or_no_session : Option Session → Session
or_no_session none = record {
  id = [];
  user_id = [];
  device_id = [];
  refresh_token = [];
  token_family = [];
  last_used_at = 0;
  use_count = 0;
  step_up_token = [];
  step_up_expiry = none;
  status = SessionStatus.revoked;
  expires_at = 0;
  created_at = 0;
  ip_address = [];
  user_agent = [];
}
or_no_session (some s) = s

abbrev session_in : World → Session
session_in w = or_no_session (Store.get said.session_id w.db.sessions)

revoke_session-found_example :
    ((revoke_session said.session_id env logged_in.1).0 ≡ ok tt)
    × (Store.get said.session_id (revoke_session said.session_id env logged_in.1).1.db.sessions
        ≡ some (record (session_in logged_in.1) { status = SessionStatus.revoked }))
    × ((j : Text)
        → text_eq said.session_id j ≡ false
        → Store.get j (revoke_session said.session_id env logged_in.1).1.db.sessions
          ≡ Store.get j logged_in.1.db.sessions)
unfolding program
revoke_session-found_example =
    revoke_session-found env said.session_id logged_in.1 (session_in logged_in.1)
      logged_in-AreKeyed.sessions refl

abbrev claims : TokenClaims
claims = record {
  user_id = codes "u";
  device_id = codes "d";
  session_id = said.session_id;
  token_type = [];
  step_up = false;
  step_up_exp = none;
}

logout-rotate_example :
    (rotate_refresh_token tokens.refresh_token (codes "d") env (logout claims env logged_in.1).1).0
    ≢ ok (codes "a", codes "r")
unfolding program
logout-rotate_example =
    logout-rotate env logged_in.1 (logout claims env logged_in.1).1 claims (session_in logged_in.1)
      tokens.refresh_token (codes "d") (codes "a") (codes "r") said logged_in-AreKeyed.sessions refl
      refl refl refl

abbrev mistaken : World
mistaken = (login_as (login_with (codes "no")) (some user) env town).1

abbrev or_user : Option User → User
or_user none = user
or_user (some u) = u

login_as-lockout_example :
    login_as
      (login_with (codes "pw12"))
      (some (or_user (Store.get (codes "u") mistaken.db.users)))
      env
      mistaken
    ≡ (err account_locked, tick mistaken)
unfolding program
login_as-lockout_example =
    login_as-lockout env town town mistaken (login_with (codes "no")) (login_with (codes "pw12"))
      user (or_user (Store.get (codes "u") mistaken.db.users)) refl refl refl (omega arith) refl
      refl (omega arith)

login_as-LoggedIn_example :
    LoggedIn
      (login_with (codes "pw12"))
      user
      env
      town
      tokens
      (login_as (login_with (codes "pw12")) (some user) env town).1
unfolding program
login_as-LoggedIn_example =
    login_as-LoggedIn (login_with (codes "pw12")) user env town {r = tokens}
      {w' = (login_as (login_with (codes "pw12")) (some user) env town).1} refl

abbrev reissued : Outcome (Text × Text) × World
reissued =
    issue_token_pair said.sub said.device_id said.session_id said.family env (tick logged_in.1)

rotate_refresh_token-current_example :
    (rotated.0 ≡ ok (or_else no_pair reissued.0))
    × (Store.get said.session_id rotated.1.db.sessions
        ≡ some (
            used
              (session_in logged_in.1)
              (hash_refresh_token env (or_else no_pair reissued.0).1)
              (env.clock reissued.1.reads)))
unfolding program
rotate_refresh_token-current_example =
    rotate_refresh_token-current env tokens.refresh_token (codes "d") logged_in.1 said
      (session_in logged_in.1) {a = (or_else no_pair reissued.0).0}
      {r = (or_else no_pair reissued.0).1} {w' = reissued.1} logged_in-AreKeyed.sessions refl refl
      refl refl refl refl refl refl
