-- ===== src/Legacy/Codes.antt =====
-- The one-time codes of the earlier engine: internal/otp/service.go on the store of
-- internal/repository/stores.go. Redis is a map from keys to values that last until a time.
use dift_backend_auth.Base.{
  ℕ, zero, suc, ◌+◌, ◌==◌, Bool, true, Option, none, some, [], ◌∷◌, ◌++◌, leb, ltb, length,
  if◌then◌else◌, Text, codes, text_eq,
}
use dift_backend_auth.Base.Ascii.{starts_with}
use dift_backend_auth.Encoding.{decimal}
use dift_backend_auth.Store

pub data Channel : Type 0 where
  email sms other : Channel

pub record Otp : Type 0 where
  pub id : Text
  pub user_id : Text
  pub code : Text
  pub purpose : Text
  pub channel : Channel
  pub recipient : Text
  pub expires_at : ℕ
  pub attempts : ℕ

-- What a key holds: a code's JSON as its record, a counter, or a mark.
pub data Value : Type 0 where
  otp : Otp → Value
  counter : ℕ → Value
  mark : Value

pub record Entry : Type 0 where
  pub value : Value
  pub until : Option ℕ

pub data Failure : Type 0 where
  generation redis_failed notification unsupported_channel : Failure
  otp_not_found otp_expired otp_invalid otp_max_attempts : Failure

pub data Result (A : Type 0) : Type 0 where
  ok : A → Result A
  err : Failure → Result A

-- `clock k` is the k-th reading of the clock, `number k` the k-th random number below a power of
-- ten, `reached k` whether Redis answers the k-th command, `delivered` what the notifier says.
pub record Outside : Type 0 where
  pub clock : ℕ → ℕ
  pub number : ℕ → Option ℕ
  pub uuid : ℕ → Text
  pub reached : ℕ → Bool
  pub delivered : Channel → Text → Text → Bool
  pub code_length : ℕ
  pub expiry : ℕ
  pub max_attempts : ℕ

pub record State : Type 0 where
  pub keys : Store.Store Entry
  pub reads : ℕ
  pub draws : ℕ
  pub commands : ℕ

abbrev pub Step : Type 0 → Type 0
Step A = State → Result A × State

-- A command that reads or writes the keys at the time of its call.
abbrev pub command : {A : Type 0} → Outside → (Store.Store Entry → A × Store.Store Entry) → Step A
command out f w =
    let w' = record w { commands = suc w.commands } in
    if out.reached w.commands
    then (let (a, keys) = f w.keys in (ok a, record w' { keys = keys }))
    else (err redis_failed, w')

abbrev pub otp_key : (recipient purpose : Text) → Text
otp_key recipient purpose = codes "otp:" ++ purpose ++ b':' ∷ recipient

abbrev pub attempts_key : Text → Text
attempts_key id = codes "otp:att:" ++ id

abbrev pub verified_key : Text → Text
verified_key id = codes "otp:ver:" ++ id

abbrev pub lasts : ℕ → Entry → Bool
lasts now e = elim e.until [ none ↦ true | some t ↦ ltb now t ]

-- `%0*d`
unfoldable pub padded : ℕ → Text → Text
padded zero t = t
padded (suc n) t = let rest = padded n t in if leb (suc n) (length t) then t else b'0' ∷ rest

abbrev pub digits_wanted : ℕ → ℕ
digits_wanted n = if n == 0 then 6 else n

abbrev pub stored_code : Otp → ℕ → Store.Store Entry → Unit {0} × Store.Store Entry
stored_code o until keys = (
  tt,
  Store.put (otp_key o.recipient o.purpose) (record { value = Value.otp o; until = some until })
      keys,
)

abbrev pub as_otp : Entry → Result Otp
as_otp e = elim e.value [ Value.otp o ↦ ok o | _ ↦ err otp_not_found ]

abbrev pub valid_at : ℕ → Option Entry → Result Otp
valid_at now none = err otp_not_found
valid_at now (some e) = if lasts now e then as_otp e else err otp_not_found

-- Any error of the store is answered as an absence.
unfoldable pub get_valid : Outside → (recipient purpose : Text) → Step Otp
get_valid out recipient purpose w =
    let w' = record w { commands = suc w.commands } in
    if out.reached w.commands
    then (valid_at (out.clock w.reads) (Store.get (otp_key recipient purpose) w.keys), w')
    else (err otp_not_found, w')

abbrev pub counted : Option Entry → Entry
counted none = record { value = Value.counter 1; until = none }
counted (some e) = elim e.value [
  | Value.counter n ↦ record e { value = Value.counter (suc n) }
  | _ ↦ e
]

unfoldable pub incr_attempts : Outside → Text → Step (Unit {0})
incr_attempts out id =
    command out
      (λ keys. (tt, Store.put (attempts_key id) (counted (Store.get (attempts_key id) keys)) keys))

-- Five minutes, in nanoseconds.
abbrev pub mark_life : ℕ
mark_life = 300000000000

unfoldable pub mark_verified : Outside → Text → Step (Unit {0})
mark_verified out id w =
    command out
      (λ keys. (
        tt,
        Store.put (verified_key id)
            (record { value = Value.mark; until = some (out.clock w.reads + mark_life) }) keys,
      ))
      w

-- `KEYS otp:<purpose>:*` and `DEL`, whoever the codes belong to.
unfoldable pub without_prefix : Text → Store.Store Entry → Store.Store Entry
without_prefix p [] = []
without_prefix p ((k, e) ∷ m) =
    let rest = without_prefix p m in if starts_with p k then rest else (k, e) ∷ rest

unfoldable pub invalidate_all : Outside → Text → Step (Unit {0})
invalidate_all out purpose =
    command out (λ keys. (tt, without_prefix (codes "otp:" ++ purpose ++ codes ":") keys))

abbrev pub delivery : Outside → Channel → Text → Text → Result (Unit {0})
delivery out Channel.other to code = err unsupported_channel
delivery out channel to code = if out.delivered channel to code then ok tt else err notification

pub record SendOtpRequest : Type 0 where
  pub channel : Channel
  pub recipient : Text
  pub purpose : Text

abbrev pub new_otp : Outside → Text → SendOtpRequest → (code id : Text) → ℕ → Otp
new_otp out user_id req code id now = record {
  id = id;
  user_id = user_id;
  code = code;
  purpose = req.purpose;
  channel = req.channel;
  recipient = req.recipient;
  expires_at = now + out.expiry;
  attempts = 0;
}

-- What follows the storing of a code.
abbrev pub notified :
    Outside → SendOtpRequest → Text → Result (Unit {0}) × State → Result (Unit {0}) × State
notified out req code (err e, w) = (err e, w)
notified out req code (ok u, w) = (delivery out req.channel req.recipient code, w)

abbrev pub send_code : Outside → Text → SendOtpRequest → Text → Step (Unit {0})
send_code out user_id req code w =
    let w1 = (invalidate_all out req.purpose w).1 in
    let o = new_otp out user_id req code (out.uuid w1.draws) (out.clock w1.reads) in
    notified out req code (
      command out (stored_code o o.expires_at)
        (record w1 { draws = suc w1.draws; reads = suc w1.reads }))

unfoldable pub send : Outside → Text → SendOtpRequest → Step (Unit {0})
send out user_id req w = elim (out.number w.draws) [
  | none ↦ (err generation, record w { draws = suc w.draws })
  | some n ↦
      send_code out user_id req (padded (digits_wanted out.code_length) (decimal n))
        (record w { draws = suc w.draws })
]

-- The attempt is counted, and what the counting says is dropped.
abbrev pub tried : Outside → (code : Text) → Otp → Step (Unit {0})
tried out code o w =
    let w1 = (incr_attempts out o.id w).1 in
    if text_eq o.code code then mark_verified out o.id w1 else (err otp_invalid, w1)

abbrev pub judged : Outside → (code : Text) → Result Otp × State → Result (Unit {0}) × State
judged out code (err e, w) = (err otp_not_found, w)
judged out code (ok o, w) =
    let w' = record w { reads = suc w.reads } in
    if ltb o.expires_at (out.clock w.reads)
    then (err otp_expired, w')
    else if leb out.max_attempts o.attempts
    then (err otp_max_attempts, w')
    else tried out code o w'

unfoldable pub verify : Outside → (recipient purpose code : Text) → Step (Unit {0})
verify out recipient purpose code w = judged out code (get_valid out recipient purpose w)
