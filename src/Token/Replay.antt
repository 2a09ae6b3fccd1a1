-- ===== src/Token/Replay.antt =====
-- A refresh token that comes back after its rotation costs the whole family its sessions.
use dift_backend_auth.Base.{◌≡◌, ◌≢◌, false, some, Text, text_eq_iff, arith, ap, ◌∙◌, sym}
use dift_backend_auth.Store
use dift_backend_auth.Store.Keyed.{IsKeyed}
use dift_backend_auth.Domain.{TokenPayload, Session, SessionStatus, token_type_refresh}
use dift_backend_auth.Runtime.{Env, World, Db, ok, err, family_compromised}
use dift_backend_auth.Repository.Sessions.{mark_family, set_sessions}
use dift_backend_auth.Crypto.{hash_refresh_token}
use dift_backend_auth.Token.{rotate_in, rotate_refresh_token, used}
use dift_backend_auth.Token.Signing.{payload_of, verify-timed, tick, is_expired}
use dift_backend_auth.Token.Rotation.{rotate_refresh_token-Rotated}

-- Every session lies under its own id, as `Store` and `Update` put it.
abbrev pub AreKeyed : Db → Type 0
AreKeyed db = IsKeyed (λ s. s.id) db.sessions

-- No session of the family is active.
abbrev pub IsDead : Text → Db → Type 0
IsDead family db =
    (id : Text) (s : Session)
    → Store.get id db.sessions ≡ some s
    → s.token_family ≡ family
    → s.status ≡ SessionStatus.replayed

mark_family-replayed :
    (family : Text) (s s' : Session)
    → mark_family family SessionStatus.replayed s ≡ s'
    → s'.token_family ≡ family
    → s'.status ≡ SessionStatus.replayed
mark_family-replayed family s s' e h = ground (arith, text_eq_iff s.token_family family)

-- The state in which a replay leaves the sessions.
abbrev pub condemned : Text → World → World
condemned family v =
    set_sessions (Store.update_all (mark_family family SessionStatus.replayed)) (tick v)

module _ (env : Env) (raw device_id : Text) (v : World) (p : TokenPayload) (s : Session)
    (signed : payload_of env raw env.cfg.refresh_token_secret ≡ some p)
    (fresh : is_expired env v p ≡ false) (typ : p.typ ≡ token_type_refresh)
    (device : p.device_id ≡ device_id) (found : Store.get p.session_id v.db.sessions ≡ some s)
    (active : s.status ≡ SessionStatus.active)
    (stale : hash_refresh_token env raw ≢ s.refresh_token) where
  pub rotate-condemned :
      rotate_refresh_token raw device_id env v ≡ (err family_compromised, condemned p.family v)
  unfolding rotate_refresh_token rotate_in
  rotate-condemned = ground (
    arith,
    verify-timed env raw env.cfg.refresh_token_secret v,
    text_eq_iff p.typ token_type_refresh,
    text_eq_iff p.device_id device_id,
    text_eq_iff (hash_refresh_token env raw) s.refresh_token,
  )

pub condemned-IsDead : (family : Text) (v : World) → IsDead family (condemned family v).db
condemned-IsDead family v = λ id s found same.
    let (u, _, e) =
      Store.get-update_all-some id (mark_family family SessionStatus.replayed) v.db.sessions
        found in
    mark_family-replayed family u s e same

-- A refresh token that was rotated and is presented again before it expires, from the same device,
-- is refused as a compromise of its family, and afterwards every session of the family has the
-- status replayed. The later state has the sessions that the rotation left; the new and the old
-- token have different hashes.
pub rotate_twice-IsDead :
    (env : Env) (raw device_id : Text) (w : World) {a r : Text} {w' : World} (v : World)
    (p : TokenPayload)
    → AreKeyed w.db
    → rotate_refresh_token raw device_id env w ≡ (ok (a, r), w')
    → hash_refresh_token env r ≢ hash_refresh_token env raw
    → v.db ≡ w'.db
    → payload_of env raw env.cfg.refresh_token_secret ≡ some p
    → is_expired env v p ≡ false
    → ((rotate_refresh_token raw device_id env v).0 ≡ err family_compromised)
      × IsDead p.family (rotate_refresh_token raw device_id env v).1.db
rotate_twice-IsDead env raw device_id w {a} {r} v p keyed rotated differ later signed fresh =
    let done = rotate_refresh_token-Rotated env raw device_id w rotated in
    let same : done.payload ≡ p = cc (done.signed, signed) in
    let key : done.session.id ≡ p.session_id = keyed _ _ done.found ∙ ap (λ q. q.session_id) same in
    let s = used done.session (hash_refresh_token env r) done.time in
    let there : Store.get p.session_id v.db.sessions ≡ some s =
      rw (later, done.stored, ← key) (Store.get-put_self done.session.id s w.db.sessions) in
    let e =
      rotate-condemned env raw device_id v p s signed fresh (rw (← same) done.is_refresh)
        (rw (← same) done.same_device) there done.is_active (λ h. differ (sym h)) in
    (ap (λ o. o.0) e, rw e (condemned-IsDead p.family v))
