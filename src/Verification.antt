-- ===== src/Verification.antt =====
-- `VerificationService` of auth-service-main/internal/service/verification_service.go: one-time
-- codes, face checks, risk scores and their audit trail. A call holds the lock while it looks at the
-- state and writes to it, so a call is one step.
pub mod Handlers
pub mod Once
pub mod Waiting
pub mod Trail
pub mod Risk
use dift_backend_auth.Base.{
  ℕ, suc, ◌+◌, ◌-◌, ◌*◌, ◌^◌, ◌≡◌, Bool, true, false, not, ◌&&◌, ◌||◌, Option, none, some, List, [],
  ◌∷◌, ◌++◌, leb, ltb, length, drop, if◌then◌else◌, Text, codes, text_eq, is_empty,
}
use dift_backend_auth.Base.Int.{ℤ, pos, negsuc, ◌+ℤ◌, ◌*ℤ◌, ltb_ℤ, leb_ℤ}
use dift_backend_auth.Base.Words.{wrap64}
use dift_backend_auth.Encoding.{hex_encode}
use dift_backend_auth.Store
use dift_backend_auth.Crypto.{second}
use dift_backend_auth.Base.Ascii.{to_lower, trim_space, starts_with, contains}

pub data Status : Type 0 where
  pending verified : Status

pub record OtpChallenge : Type 0 where
  pub user_id : Text
  pub channel : Text
  pub target : Text
  pub code_hash : Text
  -- nanoseconds since 1970; a life that overflows can end before
  pub expires_at : ℤ
  pub status : Status

-- What the service appends to its trail. The scores of faces are floats, of any type here.
pub record Audit (Score : Type 0) : Type 0 where
  pub time : ℕ
  pub user_id : Text
  pub kind : Text
  pub outcome : Text
  pub score : Option Score

-- A request to a provider.
pub record Post : Type 0 where
  pub url : Text
  pub fields : List (Text × Text)

-- `clock k` is the k-th reading of the clock, `draw k` the 8 bytes of the k-th token, and `face k`
-- what the face provider answers to the k-th request, `none` an error.
pub record Outside (Score : Type 0) : Type 0 where
  pub clock : ℕ → ℕ
  pub draw : ℕ → Text
  pub sha256 : Text → Text
  pub face : ℕ → Option (Bool × Score)
  -- 0.90 and 0
  pub usual_score : Score
  pub zero_score : Score
  pub sms_url : Text
  pub email_url : Text
  pub face_url : Text

pub record State (Score : Type 0) : Type 0 where
  pub otp : Store.Store OtpChallenge
  pub audits : List (Audit Score)
  pub posts : List Post
  pub reads : ℕ
  pub draws : ℕ

abbrev pub new_verification_service : {Score : Type 0} → State Score
new_verification_service = record { otp = []; audits = []; posts = []; reads = 0; draws = 0 }

-- The errors that the service names.
pub data Failure : Type 0 where
  user_and_target_required channel_unknown face_fields_required : Failure

pub data Result (A : Type 0) : Type 0 where
  ok : A → Result A
  err : Failure → Result A

abbrev pub the_code : Text
the_code = codes "123456"

-- `time.Duration(ttlSec) * time.Second`, for a life that is asked for; none means 300 seconds.
abbrev pub life : ℤ → ℤ
life ttl = wrap64 ((if leb_ℤ ttl (pos 0) then pos 300 else ttl) *ℤ pos second)

abbrev pub is_pending : Status → Bool
is_pending Status.pending = true
is_pending Status.verified = false

-- A challenge that has not expired and was not verified.
abbrev pub is_open : ℕ → OtpChallenge → Bool
is_open now ch = not (ltb_ℤ ch.expires_at (pos now)) && is_pending ch.status

-- At most 500 records, the newest.
abbrev pub audit_limit : ℤ → ℤ
audit_limit limit = if leb_ℤ limit (pos 0) || ltb_ℤ (pos 500) limit then pos 100 else limit

abbrev pub last : {A : Type 0} → ℤ → List A → List A
last (pos n) xs = if leb (length xs) n then xs else drop (length xs - n) xs
last (negsuc n) xs = xs

module _ {Score : Type 0} where
  abbrev pub token : Outside Score → ℕ → Text
  token out k = hex_encode (out.draw k)

  abbrev pub hash : Outside Score → Text → Text
  hash out v = hex_encode (out.sha256 v)

  abbrev pub challenge_id_of : Outside Score → ℕ → Text
  challenge_id_of out k = codes "otp_" ++ token out k

  abbrev pub code_hash_of : Outside Score → Text → Text → Text
  code_hash_of out user_id code = hash out (user_id ++ b':' ∷ code)

  abbrev pub new_challenge : Outside Score → Text → Text → Text → ℤ → ℕ → OtpChallenge
  new_challenge out user_id channel target ttl now = record {
    user_id = user_id;
    channel = channel;
    target = target;
    code_hash = code_hash_of out user_id the_code;
    expires_at = pos now +ℤ life ttl;
    status = Status.pending;
  }

  abbrev pub event : ℕ → Text → Text → Text → Audit Score
  event now user_id kind outcome = record {
    time = now;
    user_id = user_id;
    kind = kind;
    outcome = outcome;
    score = none;
  }

  abbrev pub post : Text → List (Text × Text) → State Score → State Score
  post url fields w = record w { posts = w.posts ++ record { url = url; fields = fields } ∷ [] }

  -- What the provider answers is dropped by the caller.
  unfoldable pub dispatch_otp : Outside Score → Text → Text → Text → State Score → State Score
  dispatch_otp out channel target code w =
      let url = if text_eq channel (codes "sms") then out.sms_url else out.email_url in
      if is_empty url
      then w
      else post (url ++ codes "/v1/otp/send")
          ((codes "target", target) ∷ (codes "code", code) ∷ (codes "channel", channel) ∷ []) w

  -- The clock is read for the expiry and for the record.
  abbrev pub created : Outside Score → Text → Text → Text → ℤ → State Score → State Score
  created out user_id channel target ttl w = record w {
    otp =
        Store.put (challenge_id_of out w.draws)
          (new_challenge out user_id channel target ttl (out.clock w.reads)) w.otp;
    audits =
        w.audits
        ++ event (out.clock (suc w.reads)) user_id (codes "otp.challenge") (codes "success") ∷ [];
    reads = suc (suc w.reads);
    draws = suc w.draws;
  }

  unfoldable pub create_otp :
      Outside Score → Text → Text → Text → ℤ → State Score → Result (Text × Text) × State Score
  create_otp out user_id channel target ttl w =
      let channel' = to_lower (trim_space channel) in
      if is_empty user_id || is_empty target
      then (err user_and_target_required, w)
      else if not (text_eq channel' (codes "sms")) && not (text_eq channel' (codes "email"))
      then (err channel_unknown, w)
      else (
        ok (challenge_id_of out w.draws, the_code),
        dispatch_otp out channel' target the_code (created out user_id channel' target ttl w),
      )

  abbrev pub verified_at : Text → OtpChallenge → ℕ → State Score → State Score
  verified_at id ch now w = record w {
    otp = Store.put id (record ch { status = Status.verified }) w.otp;
    audits = w.audits ++ event now ch.user_id (codes "otp.verify") (codes "success") ∷ [];
    reads = suc w.reads;
  }

  abbrev pub try_challenge :
      Outside Score → Text → Text → Text → OtpChallenge → State Score → Bool × State Score
  try_challenge out user_id id code ch w =
      if text_eq ch.user_id user_id
      then (let now = out.clock w.reads in
          let w' = record w { reads = suc w.reads } in
          if is_open now ch && text_eq ch.code_hash (code_hash_of out user_id code)
          then (true, verified_at id ch (out.clock w'.reads) w')
          else (false, w'))
      else (false, w)

  unfoldable pub verify_otp : Outside Score → Text → Text → Text → State Score → Bool × State Score
  verify_otp out user_id id code w = elim (Store.get id w.otp) [
    | none ↦ (false, w)
    | some ch ↦ try_challenge out user_id id code ch w
  ]

  abbrev pub approval : Outside Score → Text → Option (Bool × Score) → Bool × Score
  approval out liveness none = (starts_with (codes "live_") liveness, out.usual_score)
  approval out liveness (some answer) = answer

  -- The provider is asked where there is one; its errors are dropped.
  abbrev pub asked : Outside Score → Text → Text → Text → State Score → (Bool × Score) × State Score
  asked out user_id liveness selfie w =
      if is_empty out.face_url then (approval out liveness none, w) else (
        approval out liveness (out.face (length w.posts)),
        post (out.face_url ++ codes "/v1/face/verify")
            ((codes "user_id", user_id)
              ∷ (codes "liveness_token", liveness)
              ∷ (codes "selfie_ref", selfie)
              ∷ [])
            w,
      )

  abbrev pub face_audited : Outside Score → Text → Bool × Score → State Score → State Score
  face_audited out user_id (approved, score) w = record w {
    audits =
        w.audits
        ++ record (event (out.clock w.reads) user_id (codes "face.verify")
            (if approved then codes "approved" else codes "rejected")) { score = some score }
          ∷ [];
    reads = suc w.reads;
  }

  unfoldable pub verify_face :
      Outside Score → Text → Text → Text → State Score → Result (Bool × Score) × State Score
  verify_face out user_id liveness selfie w =
      if is_empty user_id || is_empty liveness || is_empty selfie
      then (err face_fields_required, w)
      else (let (answer, w') = asked out user_id liveness selfie w in
          (ok answer, face_audited out user_id answer w'))

  unfoldable pub list_audit : ℤ → State Score → List (Audit Score)
  list_audit limit w = last (audit_limit limit) w.audits

abbrev pub level_of : ℕ → Text
level_of score =
    if leb 70 score then codes "high" else if leb 40 score then codes "medium" else codes "low"

abbrev pub risk_of : (no_device no_address is_admin : Bool) → ℕ
risk_of no_device no_address is_admin =
    (if no_device then 30 else 0) + (if no_address then 20 else 0) + (if is_admin then 40 else 0)

unfoldable pub evaluate_risk : (action ip device_id : Text) → ℕ × Text
evaluate_risk action ip device_id =
    let score =
      risk_of (is_empty device_id) (is_empty ip) (contains (codes "admin") (to_lower action)) in
    (score, level_of score)
