-- ===== src/Biometric/Consumption.antt =====
-- Challenges: bound to a device and an action, valid for a time, and used once.
use dift_backend_auth.Base.{
  ℕ, suc, ◌≡◌, ◌≢◌, refl, sym, ap, ◌∙◌, true, false, none, some, Text, ltb, text_eq_iff, arith,
  Option-cases, inl, inr,
}
use dift_backend_auth.Store
use dift_backend_auth.Store.Keyed.{IsKeyed}
use dift_backend_auth.Domain.{Challenge}
use dift_backend_auth.Runtime.{Env, World, ok, err, challenge_used}
use dift_backend_auth.Repository.Challenges.{set_challenges}
use dift_backend_auth.Token.Signing.{tick}
use dift_backend_auth.Biometric.{consume_challenge, is_sealed}

-- The challenge as it is stored once it was used at a time.
abbrev pub used_at : Challenge → ℕ → Challenge
used_at c t = record c { used_at = some t }

-- What a challenge that was consumed was, and what was written.
pub record Consumed (id device_id action : Text) (env : Env) (w w' : World) : Type 0 where
  pub challenge : Challenge
  pub found : Store.get id w.db.challenges ≡ some challenge
  pub was_unused : challenge.used_at ≡ none
  pub in_time : ltb challenge.expires_at (env.clock w.reads) ≡ false
  pub same_device : challenge.device_id ≡ device_id
  pub same_action : challenge.action ≡ action
  pub sealed : is_sealed env challenge ≡ true
  pub written :
      w'
      ≡ set_challenges
          (Store.put challenge.id (used_at challenge (env.clock (suc w.reads))))
          (tick (tick w))

pub consume_challenge-Consumed :
    (id device_id action : Text) (env : Env) (w : World) {u : Unit {0}} {w' : World}
    → consume_challenge id device_id action env w ≡ (ok u, w')
    → Consumed id device_id action env w w'
unfolding consume_challenge
consume_challenge-Consumed id device_id action env w h =
    elim (Option-cases (Store.get id w.db.challenges)) [
      | inl missing ↦ absurd (ground arith)
      | inr (c, found) ↦ record {
        challenge = c;
        found = found;
        was_unused = ground arith;
        in_time = ground arith;
        same_device = (text_eq_iff c.device_id device_id).0 (ground arith);
        same_action = (text_eq_iff c.action action).0 (ground arith);
        sealed = ground arith;
        written = ground arith;
      }
    ]

-- A challenge that cannot be consumed is left as it was, and so is all else but the clock.
pub consume_challenge-failed :
    (id device_id action : Text) (env : Env) (w : World)
    → (consume_challenge id device_id action env w).0 ≢ ok tt
    → (consume_challenge id device_id action env w).1.db ≡ w.db
unfolding consume_challenge
consume_challenge-failed id device_id action env w h =
    elim (Option-cases (Store.get id w.db.challenges)) [
      | inl missing ↦ ground arith
      | inr (c, found) ↦ ground arith
    ]

-- A challenge that was used is refused for every device and action.
consume_challenge-used :
    (id device_id action : Text) (env : Env) (v : World) (c : Challenge) (t : ℕ)
    → Store.get id v.db.challenges ≡ some c
    → c.used_at ≡ some t
    → consume_challenge id device_id action env v ≡ (err challenge_used, v)
unfolding consume_challenge
consume_challenge-used id device_id action env v c t found was = ground arith

-- A consumed challenge is stored with the time of its use.
pub Consumed-stored :
    (id device_id action : Text) (env : Env) (w w' v : World)
    → IsKeyed (λ c. c.id) w.db.challenges
    → (done : Consumed id device_id action env w w') → v.db.challenges ≡ w'.db.challenges
    → Store.get id v.db.challenges ≡ some (used_at done.challenge (env.clock (suc w.reads)))
Consumed-stored id device_id action env w w' v keyed done same =
    let c = used_at done.challenge (env.clock (suc w.reads)) in
    let key : done.challenge.id ≡ id = keyed id done.challenge done.found in
    ap (Store.get id) (same ∙ ap (λ x. x.db.challenges) done.written)
    ∙ Store.get-put done.challenge.id id c w.db.challenges
    ∙ rw ((text_eq_iff done.challenge.id id).1 key)

-- A challenge that was consumed is refused from then on, for every device and action, wherever the
-- challenges are as its use left them.
pub consume_challenge_twice :
    (id device_id action : Text) (env : Env) (w : World) {u : Unit {0}} {w' : World}
    → IsKeyed (λ c. c.id) w.db.challenges
    → consume_challenge id device_id action env w ≡ (ok u, w')
    → (device_id' action' : Text) (v : World) → v.db.challenges ≡ w'.db.challenges
    → consume_challenge id device_id' action' env v ≡ (err challenge_used, v)
consume_challenge_twice id device_id action env w {w' = w'} keyed h device_id' action' v same =
    let done = consume_challenge-Consumed id device_id action env w h in
    let t = env.clock (suc w.reads) in
    consume_challenge-used id device_id' action' env v (used_at done.challenge t) t
      (Consumed-stored id device_id action env w w' v keyed done same) refl

-- A challenge is not consumed twice.
pub Consumed_twice :
    (id device_id action device_id' action' : Text) (env : Env) (w w' v v' : World)
    → IsKeyed (λ c. c.id) w.db.challenges
    → Consumed id device_id action env w w'
    → v.db.challenges ≡ w'.db.challenges
    → Consumed id device_id' action' env v v'
    → ⊥
Consumed_twice id device_id action device_id' action' env w w' v v' keyed first same second =
    let there = Consumed-stored id device_id action env w w' v keyed first same in
    let one : second.challenge ≡ used_at first.challenge (env.clock (suc w.reads)) =
      cc (second.found, there) in
    let no_use : none ≡ some (env.clock (suc w.reads)) =
      sym second.was_unused ∙ ap (λ c. c.used_at) one in
    absurd (cc no_use)
