-- ===== src/Biometric/Replay.antt =====
-- A login cannot be replayed.
use dift_backend_auth.Base.{◌≡◌, ◌≢◌, ◌∙◌, arith}
use dift_backend_auth.Store.Keyed.{IsKeyed}
use dift_backend_auth.Domain.{action_authenticate}
use dift_backend_auth.Runtime.{Env, World, ok}
use dift_backend_auth.Biometric.{AuthenticateRequest, AuthenticateResult, authenticate}
use dift_backend_auth.Biometric.Consumption.{Consumed, Consumed_twice}
use dift_backend_auth.Biometric.Soundness.{authenticate-Authenticated}

-- After a login that succeeded, no login with the same challenge succeeds, for any user, device,
-- nonce, signature or time, as long as the challenges are as the first login left them.
pub authenticate_twice :
    (req again : AuthenticateRequest) (env : Env) (w : World) {r : AuthenticateResult} {w' : World}
    (v : World) (r' : AuthenticateResult)
    → IsKeyed (λ c. c.id) w.db.challenges
    → authenticate req env w ≡ (ok r, w')
    → v.db.challenges ≡ w'.db.challenges
    → again.challenge_id ≡ req.challenge_id
    → (authenticate again env v).0 ≢ ok r'
authenticate_twice req again env w v r' keyed h same id = λ e.
    let first = authenticate-Authenticated req env w h in
    let second =
      authenticate-Authenticated again env v {r = r'} {w' = (authenticate again env v).1}
        (ground arith) in
    Consumed_twice req.challenge_id req.device_id action_authenticate again.device_id
      action_authenticate env w first.after_challenge v second.after_challenge keyed first.consumed
      (same ∙ first.kept) (subst_id second.consumed)
  where
    subst_id :
        {v' : World}
        → Consumed again.challenge_id again.device_id action_authenticate env v v'
        → Consumed req.challenge_id again.device_id action_authenticate env v v'
    subst_id c = rw (← id) c
