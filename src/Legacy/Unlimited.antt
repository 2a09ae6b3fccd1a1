-- ===== src/Legacy/Unlimited.antt =====
-- What the store keeps of the attempts and of a use is never read.
use dift_backend_auth.Base.{
  ℕ, suc, ◌+◌, ◌≤◌, ◌<◌, ◌≡◌, refl, ◌∙◌, inl, inr, true, false, Option, some, List, [], ◌∷◌, ltb,
  leb, lt→ltb, Text, text_eq, text_eq_refl, arith, Bool-cases,
}
use dift_backend_auth.Store
use dift_backend_auth.Store.{get-put_ne}
use dift_backend_auth.Legacy.Codes.{
  Otp, Value, Entry, ok, Outside, State, otp_key, attempts_key, verified_key, command, counted,
  mark_life, get_valid, incr_attempts, mark_verified, tried, judged, verify,
}

module _ (out : Outside) where
  command-get :
      (key at_key : Text) (e : Store.Store Entry → Entry) (w : State)
      → text_eq at_key key ≡ false
      → Store.get key (command out (λ keys. (tt, Store.put at_key (e keys) keys)) w).1.keys
        ≡ Store.get key w.keys
  command-get key at_key e w apart = elim (Bool-cases (out.reached w.commands)) [
    | inl reached ↦ rw reached (get-put_ne at_key key (e w.keys) w.keys apart)
    | inr lost ↦ rw lost refl
  ]

  incr_attempts-get :
      (key id : Text) (w : State)
      → text_eq (attempts_key id) key ≡ false
      → Store.get key (incr_attempts out id w).1.keys ≡ Store.get key w.keys
  unfolding incr_attempts
  incr_attempts-get key id w apart =
      command-get key (attempts_key id) (λ keys. counted (Store.get (attempts_key id) keys)) w apart

  mark_verified-get :
      (key id : Text) (w : State)
      → text_eq (verified_key id) key ≡ false
      → Store.get key (mark_verified out id w).1.keys ≡ Store.get key w.keys
  unfolding mark_verified
  mark_verified-get key id w apart =
      command-get key (verified_key id)
        (λ keys. record { value = Value.mark; until = some (out.clock w.reads + mark_life) }) w
        apart

  tried-get :
      (key code : Text) (o : Otp) (w : State)
      → text_eq (attempts_key o.id) key ≡ false
      → text_eq (verified_key o.id) key ≡ false
      → Store.get key (tried out code o w).1.keys ≡ Store.get key w.keys
  tried-get key code o w a v = elim (Bool-cases (text_eq o.code code)) [
    | inl right ↦
        rw right (
          mark_verified-get key o.id (incr_attempts out o.id w).1 v
          ∙ incr_attempts-get key o.id w a)
    | inr wrong ↦ rw wrong (incr_attempts-get key o.id w a)
  ]

  judged-get :
      (key code : Text) (o : Otp) (w : State)
      → text_eq (attempts_key o.id) key ≡ false
      → text_eq (verified_key o.id) key ≡ false
      → Store.get key (judged out code (ok o, w)).1.keys ≡ Store.get key w.keys
  judged-get key code o w a v = elim (Bool-cases (ltb o.expires_at (out.clock w.reads))) [
    | inl late ↦ rw late refl
    | inr in_time ↦ elim (Bool-cases (leb out.max_attempts o.attempts)) [
      | inl over ↦ rw (in_time, over) refl
      | inr under ↦
          rw (in_time, under) (tried-get key code o (record w { reads = suc w.reads }) a v)
    ]
  ]

  -- A code that is stored, with the time until which Redis keeps it.
  abbrev pub stored : Otp → ℕ → Option Entry
  stored o t = some (record { value = Value.otp o; until = some t })

  verify-get :
      (recipient purpose code : Text) (o : Otp) (t : ℕ) (w : State)
      → Store.get (otp_key recipient purpose) w.keys ≡ stored o t
      → text_eq (attempts_key o.id) (otp_key recipient purpose) ≡ false
      → text_eq (verified_key o.id) (otp_key recipient purpose) ≡ false
      → Store.get (otp_key recipient purpose) (verify out recipient purpose code w).1.keys
        ≡ stored o t
  unfolding verify get_valid
  verify-get recipient purpose code o t w found a v = elim (Bool-cases (out.reached w.commands)) [
    | inr lost ↦ rw (verify, get_valid, lost) found
    | inl reached ↦ elim (Bool-cases (ltb (out.clock w.reads) t)) [
      | inr gone ↦ rw (verify, get_valid, reached, found, gone) found
      | inl there ↦
          rw (verify, get_valid, reached, found, there)
            (judged-get (otp_key recipient purpose) code o (record w { commands = suc w.commands })
                a v
              ∙ found)
    ]
  ]

  -- Tries in turn.
  abbrev pub verify_all : (recipient purpose : Text) → List Text → State → State
  verify_all recipient purpose [] w = w
  verify_all recipient purpose (c ∷ cs) w =
      verify_all recipient purpose cs (verify out recipient purpose c w).1

  verify_all-get :
      (recipient purpose : Text) (cs : List Text) (o : Otp) (t : ℕ) (w : State)
      → Store.get (otp_key recipient purpose) w.keys ≡ stored o t
      → text_eq (attempts_key o.id) (otp_key recipient purpose) ≡ false
      → text_eq (verified_key o.id) (otp_key recipient purpose) ≡ false
      → Store.get (otp_key recipient purpose) (verify_all recipient purpose cs w).keys ≡ stored o t
  verify_all-get recipient purpose [] o t w found a v = found
  verify_all-get recipient purpose (c ∷ cs) o t w found a v =
      verify_all-get recipient purpose cs o t (verify out recipient purpose c w).1
        (verify-get recipient purpose c o t w found a v) a v

  -- The right code, in time and under the limit, where Redis answers.
  verify-right :
      (recipient purpose : Text) (o : Otp) (t : ℕ) (w : State)
      → ((k : ℕ) → out.reached k ≡ true)
      → Store.get (otp_key recipient purpose) w.keys ≡ stored o t
      → o.attempts < out.max_attempts
      → out.clock w.reads < t
      → out.clock w.reads ≤ o.expires_at
      → (verify out recipient purpose o.code w).0 ≡ ok tt
  unfolding verify get_valid incr_attempts mark_verified
  verify-right recipient purpose o t w up found few there in_time =
      let there' : ltb (out.clock w.reads) t ≡ true = lt→ltb (out.clock w.reads) t there in
      let in_time' : ltb o.expires_at (out.clock w.reads) ≡ false = ground arith in
      let few' : leb out.max_attempts o.attempts ≡ false = ground arith in
      rw
        (
          verify,
          get_valid,
          up w.commands,
          found,
          there',
          in_time',
          few',
          incr_attempts,
          up (suc w.commands),
          text_eq_refl o.code,
          mark_verified,
          up (suc (suc w.commands)),
        )
        refl

  -- Neither the attempts nor the uses of a code are limited: a code that is stored with fewer
  -- attempts than the limit verifies until it expires, whatever codes were tried before, however
  -- many, and the right one among them, where Redis answers and the keys of its attempts and of its
  -- use are not its own key.
  pub verify_all-verify :
      (recipient purpose : Text) (tries : List Text) (o : Otp) (t : ℕ) (w : State)
      → ((k : ℕ) → out.reached k ≡ true)
      → Store.get (otp_key recipient purpose) w.keys ≡ stored o t
      → text_eq (attempts_key o.id) (otp_key recipient purpose) ≡ false
      → text_eq (verified_key o.id) (otp_key recipient purpose) ≡ false
      → o.attempts < out.max_attempts
      → out.clock (verify_all recipient purpose tries w).reads < t
      → out.clock (verify_all recipient purpose tries w).reads ≤ o.expires_at
      → (verify out recipient purpose o.code (verify_all recipient purpose tries w)).0 ≡ ok tt
  verify_all-verify recipient purpose tries o t w up found a v few there in_time =
      verify-right recipient purpose o t (verify_all recipient purpose tries w) up
        (verify_all-get recipient purpose tries o t w found a v) few there in_time
