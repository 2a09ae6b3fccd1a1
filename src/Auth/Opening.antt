-- ===== src/Auth/Opening.antt =====
-- The session that a login opens.
use dift_backend_auth.Base.{ℕ, suc, ◌+◌, ◌≡◌, sym, ap, ◌∙◌, some, Text, arith}
use dift_backend_auth.Store
use dift_backend_auth.Runtime.{Env, World, ok, M, ◌>>=◌, ◌>>◌, pure, now}
use dift_backend_auth.Runtime.Inversion.{bind_ok}
use dift_backend_auth.Repository.Sessions
use dift_backend_auth.Repository.Sessions.{set_sessions}
use dift_backend_auth.Crypto.{secure_hex, hash_refresh_token}
use dift_backend_auth.Token.{issue_token_pair}
use dift_backend_auth.Auth.{SessionResult, create_session, new_session}

-- The session behind a result, stored under its id.
pub record Opened (user_id device_id ip ua : Text) (env : Env) (w : World) (r : SessionResult)
    (w' : World) : Type 0 where
  pub expires : ℕ
  pub created : ℕ
  pub last_used : ℕ
  pub before_tokens : World
  pub after_tokens : World
  pub issued :
      issue_token_pair user_id device_id r.id r.token_family env before_tokens
      ≡ (ok (r.access_token, r.refresh_token), after_tokens)
  pub stored :
      Store.get r.id w'.db.sessions
      ≡ some (
          new_session r.id user_id device_id
            (hash_refresh_token env r.refresh_token)
            r.token_family
            ip
            ua
            expires
            created
            last_used)

-- What follows the tokens.
abbrev storing : (user_id device_id ip ua id family : Text) → Env → Text × Text → M SessionResult
storing user_id device_id ip ua id family env pair = do
  expiring ← now
  created ← now
  last_used ← now
  Sessions.store (
      new_session id user_id device_id (hash_refresh_token env pair.1) family ip ua
        (expiring + env.cfg.refresh_token_ttl) created last_used)
  pure (record { id = id; access_token = pair.0; refresh_token = pair.1; token_family = family })

storing-Opened :
    (user_id device_id ip ua id family : Text) (env : Env) (w wt v : World) (pair : Text × Text)
    {r : SessionResult} {w' : World}
    → issue_token_pair user_id device_id id family env wt ≡ (ok pair, v)
    → storing user_id device_id ip ua id family env pair env v ≡ (ok r, w')
    → Opened user_id device_id ip ua env w r w'
unfolding Sessions.store
storing-Opened user_id device_id ip ua id family env w wt v pair {r} {w'} issued h =
    let r' : SessionResult = record {
      id = id;
      access_token = pair.0;
      refresh_token = pair.1;
      token_family = family;
    } in
    let e = env.clock v.reads + env.cfg.refresh_token_ttl in
    let created = env.clock (suc v.reads) in
    let last_used = env.clock (suc (suc v.reads)) in
    let s =
      new_session id user_id device_id (hash_refresh_token env pair.1) family ip ua e created
        last_used in
    let result : r' ≡ r = ground (arith, h) in
    record {
      expires = e;
      created = created;
      last_used = last_used;
      before_tokens = wt;
      after_tokens = v;
      issued = rw (← result) issued;
      stored =
          rw (← result) (
            ap (λ p. Store.get id p.1.db.sessions) (sym h) ∙ Store.get-put_self id s v.db.sessions);
    }

-- A session that was opened is stored under its id, active, with the hash of the refresh token that
-- was issued for it, in the family that the tokens carry.
pub create_session-Opened :
    (user_id device_id ip ua : Text) (env : Env) (w : World) {r : SessionResult} {w' : World}
    → create_session user_id device_id ip ua env w ≡ (ok r, w')
    → Opened user_id device_id ip ua env w r w'
unfolding create_session
create_session-Opened user_id device_id ip ua env w {r} {w'} h =
    let i =
      bind_ok (secure_hex 16)
        (λ id. secure_hex 16 >>= λ family.
          issue_token_pair user_id device_id id family
          >>= storing user_id device_id ip ua id family env)
        env w h in
    let f =
      bind_ok (secure_hex 16)
        (λ family.
          issue_token_pair user_id device_id i.value family
          >>= storing user_id device_id ip ua i.value family env)
        env i.between i.second in
    let t =
      bind_ok (issue_token_pair user_id device_id i.value f.value)
        (storing user_id device_id ip ua i.value f.value env) env f.between f.second in
    storing-Opened user_id device_id ip ua i.value f.value env w f.between t.between t.value t.first
      t.second
