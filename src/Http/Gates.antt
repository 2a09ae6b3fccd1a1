-- ===== src/Http/Gates.antt =====
-- What stands in front of the handlers of the authenticated group.
use dift_backend_auth.Base.{
  ℕ, ◌≡◌, refl, ◌⊎◌, inl, inr, false, ◌||◌, some, Text, text_eq, text_eq_iff, is_empty, arith,
  Option-cases, Bool-cases,
}
use dift_backend_auth.Store
use dift_backend_auth.Domain.{Device, DeviceStatus, TokenClaims, token_type_access}
use dift_backend_auth.Runtime.{Env, World, ok, err, Error, token_invalid, token_expired}
use dift_backend_auth.Device.{validate_device}
use dift_backend_auth.Middleware
use dift_backend_auth.Middleware.{
  Gate, pass, stop, extract_bearer_token, validate_device_gate, or_stop, uncompromised,
}
use dift_backend_auth.Biometric.{is_active}
use dift_backend_auth.Middleware.Gates.{authenticate-Accepted}
use dift_backend_auth.Token.{verify_access_token}
use dift_backend_auth.Token.Acceptance.{Accepted}
use dift_backend_auth.Token.Signing.{payload_of, verify-timed, tick, is_expired}
use dift_backend_auth.Token.Claims.{claims_of}
use dift_backend_auth.Http.Server.{HttpRequest, Protected, guarded, refused, serve_protected}

-- The stores and the audit log stay as they are.
pub record SameStored (w w' : World) : Type 0 where
  pub db : w'.db ≡ w.db
  pub audits : w'.audits ≡ w.audits

pub SameStored-refl : (w : World) → SameStored w w
SameStored-refl w = record { db = refl; audits = refl }

-- An access token is refused, or gives claims; nothing is stored.
verify_access_token-cases :
    (t : Text) (env : Env) (w : World)
    → ((e : Error) × (v : World) × (verify_access_token t env w ≡ (err e, v)) × SameStored w v)
      ⊎ ((c : TokenClaims) × (verify_access_token t env w ≡ (ok c, tick w)))
unfolding verify_access_token
verify_access_token-cases t env w =
    let timed = verify-timed env t env.cfg.access_token_secret w in
    elim (Option-cases (payload_of env t env.cfg.access_token_secret)) [
      | inl unsigned ↦ inl (token_invalid, w, ground (arith, timed), SameStored-refl w)
      | inr (p, signed) ↦ elim (Bool-cases (is_expired env w p)) [
        | inl late ↦
            inl (token_expired, tick w, ground (arith, timed), record { db = refl; audits = refl })
        | inr fresh ↦ elim (Bool-cases (text_eq p.typ token_type_access)) [
          | inl access ↦ inr (claims_of p, ground (arith, timed))
          | inr other ↦
              inl
                (token_invalid, tick w, ground (arith, timed), record { db = refl; audits = refl })
        ]
      ]
    ]

authenticate-cases :
    (r : Middleware.Request) (env : Env) (w : World)
    → ((v : World) × (Middleware.authenticate r env w ≡ (ok (stop 401), v)) × SameStored w v)
      ⊎ ((c : TokenClaims) × (Middleware.authenticate r env w ≡ (ok (pass c), tick w)))
unfolding Middleware.authenticate
authenticate-cases r env w = elim (Bool-cases (is_empty (extract_bearer_token r))) [
  | inl empty ↦ inl (w, rw empty refl, SameStored-refl w)
  | inr full ↦ elim (verify_access_token-cases (extract_bearer_token r) env w) [
    | inl (e, v, refusal, same) ↦ inl (v, rw (full, refusal) refl, same)
    | inr (c, accepted) ↦ inr (c, rw (full, accepted) refl)
  ]
]

-- A device that is fit for use.
pub record Usable (device_id user_id : Text) (w : World) : Type 0 where
  pub device : Device
  pub found : Store.get device_id w.db.devices ≡ some device
  pub own_device : device.user_id ≡ user_id
  pub active : device.status ≡ DeviceStatus.active
  pub intact : (device.is_rooted || device.is_jailbroken) ≡ false

validate_device_gate-cases :
    (c : TokenClaims) (env : Env) (w : World)
    → (validate_device_gate (some c) env w ≡ (ok (stop 403), w))
      ⊎ ((validate_device_gate (some c) env w ≡ (ok (pass tt), w)) × Usable c.device_id c.user_id w)
unfolding validate_device_gate validate_device
validate_device_gate-cases c env w = elim (Option-cases (Store.get c.device_id w.db.devices)) [
  | inl missing ↦ inl (ground arith)
  | inr (d, found) ↦ elim (Bool-cases (text_eq d.user_id c.user_id)) [
    | inr other ↦ inl (ground arith)
    | inl own ↦ elim (Bool-cases (is_active d.status)) [
      | inr inactive ↦ inl (ground arith)
      | inl active ↦ elim (Bool-cases (d.is_rooted || d.is_jailbroken)) [
        | inl compromised ↦ inl (ground arith)
        | inr intact ↦ inr (
          ground arith,
          record {
            device = d;
            found = found;
            own_device = (text_eq_iff d.user_id c.user_id).0 own;
            active = ground arith;
            intact = intact;
          },
        )
      ]
    ]
  ]
]

-- A request that was let in to its handler.
pub record LetIn (r : HttpRequest) (e : Protected) (env : Env) (w : World) : Type 0 where
  pub claims : TokenClaims
  pub accepted : Accepted env (extract_bearer_token r.headers) w claims
  pub usable : Usable claims.device_id claims.user_id w
  pub handled : guarded r e env w ≡ serve_protected (some claims) e env (tick w)

-- A request that was turned away: 401 or 403, and nothing is stored.
pub record TurnedAway (r : HttpRequest) (e : Protected) (env : Env) (w : World) : Type 0 where
  pub code : ℕ
  pub after : World
  pub answered : guarded r e env w ≡ (ok (refused code), after)
  pub denied : (code ≡ 401) ⊎ (code ≡ 403)
  pub same : SameStored w after

-- A request to a route of the authenticated group is either answered 401 or 403, with the stores
-- and the audit log as they were, or it reaches its handler with the claims of an accepted access
-- token, whose device is stored, the user's, active, and neither rooted nor jailbroken.
pub guarded-cases :
    (r : HttpRequest) (e : Protected) (env : Env) (w : World)
    → TurnedAway r e env w ⊎ LetIn r e env w
unfolding guarded
guarded-cases r e env w = elim (authenticate-cases r.headers env w) [
  | inl (v, refusal, same) ↦
      inl (record {
        code = 401;
        after = v;
        answered = rw refusal refl;
        denied = inl refl;
        same = same;
      })
  | inr (c, accepted) ↦ elim (validate_device_gate-cases c env (tick w)) [
    | inl refusal ↦ inl (record {
      code = 403;
      after = tick w;
      answered = rw (accepted, refusal) refl;
      denied = inr refl;
      same = record { db = refl; audits = refl };
    })
    | inr (passed, usable) ↦ inr (record {
      claims = c;
      accepted = authenticate-Accepted r.headers env w accepted;
      usable = record {
        device = usable.device;
        found = usable.found;
        own_device = usable.own_device;
        active = usable.active;
        intact = usable.intact;
      };
      handled = rw (accepted, passed) refl;
    })
  ]
]
