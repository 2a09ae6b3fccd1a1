-- ===== src/Legacy/Engine/Confirmed.antt =====
-- A second factor that a user sets up, and the authenticator's code that confirms it.
use mathlib.Core.Path.{subst}
use dift_backend_auth.Base.{
  ℕ, suc, ◌≡◌, refl, sym, ap, ◌∙◌, Bool, true, false, ◌||◌, Option, none, some, List, [], ◌∷◌, ◌++◌,
  ltb, zero, Text, arith, length, take, drop, if◌then◌else◌, text_eq_refl, Bool-cases, inl, inr,
  Option-cases, length-append,
}
use dift_backend_auth.Store
use dift_backend_auth.Store.{get-put_self}
use dift_backend_auth.Encoding.Base64.RoundTrip.{AreBytes}
use dift_backend_auth.Legacy.Engine.{
  User, Outside, State, ok, err, M, ◌>>=◌, ◌>>◌, pure, guard, library, or_fail, invalid_credentials,
  invalid_mfa_code,
}
use dift_backend_auth.Legacy.Engine.Inversion.{bind_ok, query_ok}
use dift_backend_auth.Legacy.Engine.Tables.{query, write_users, found, only_if, is_kept}
use dift_backend_auth.Legacy.Engine.Users
use dift_backend_auth.Legacy.Engine.Users.{clashes, any_clash}
use dift_backend_auth.Legacy.Engine.Secrets.{
  backup_code, hash_backup_code, generate_backup_codes, encode_padded, encrypt, open_sealed,
  decrypt,
}
use dift_backend_auth.Legacy.Engine.Restored.{update-users}
use dift_backend_auth.Legacy.Engine.Padded.{decode_padded-encode_padded}
use dift_backend_auth.Legacy.Engine.Access.{
  MfaSetup, with_secret, password_or_none, store_secret, new_secret, with_secret_of, enable_mfa,
  confirm_mfa,
}

-- The database answers, the random source gives as many bytes as it is asked for, AES-GCM opens what
-- it sealed and seals bytes to bytes, and the secret of an authenticator is bytes.
pub record Sealing (out : Outside) : Type 0 where
  pub answers : (k : ℕ) → out.answers k ≡ true
  pub drawn : (k n : ℕ) {b : Text} → out.random k n ≡ some b → (length b ≡ n) × AreBytes b
  pub opens :
      (key nonce t : Text) → out.aes_gcm_open key nonce (out.aes_gcm_seal key nonce t) ≡ some t
  pub seals : (key nonce t : Text) → AreBytes t → AreBytes (out.aes_gcm_seal key nonce t)
  pub generated :
      (k : ℕ) (account : Text) {secret url : Text}
      → out.totp_generate k account ≡ some (secret, url)
      → AreBytes secret

append-AreBytes : (s t : Text) → AreBytes s → AreBytes t → AreBytes (s ++ t)
append-AreBytes [] t h k = k
append-AreBytes (c ∷ s) t h k = (h.0, append-AreBytes s t h.1 k)

take-append : (s t : Text) → take (length s) (s ++ t) ≡ s
take-append [] t = refl
take-append (c ∷ s) t = ap (λ l. c ∷ l) (take-append s t)

drop-append : (s t : Text) → drop (length s) (s ++ t) ≡ t
drop-append [] t = refl
drop-append (c ∷ s) t = drop-append s t

or_fail_ok :
    {A : Type 0} (o : Option A) (w : State) {a : A} {v : State}
    → or_fail o library w ≡ (ok a, v)
    → (o ≡ some a) × (v ≡ w)
or_fail_ok none w h = ground arith
or_fail_ok (some a) w h = (ground arith, ground arith)

find-put :
    {V : Type 0} (p : V → Bool) (k : Text) (v : V) (m : Store.Store V)
    → p v ≡ false
    → Store.find p m ≡ none
    → Store.find p (Store.put k v m) ≡ none
unfolding Store.find Store.put
find-put p k v [] fails h = rw fails refl
find-put p k v ((j, w) ∷ m) fails h = ground (arith, find-put p k v m fails)

module _ (out : Outside) (sealing : Sealing out) where
  open_sealed-seal :
      (key nonce t : Text) (w : State)
      → length nonce ≡ 12
      → open_sealed out key (nonce ++ out.aes_gcm_seal (out.sha256 key) nonce t) w ≡ (ok t, w)
  open_sealed-seal key nonce t w twelve =
      let sealed = out.aes_gcm_seal (out.sha256 key) nonce t in
      let long : ltb (length (nonce ++ sealed)) 12 ≡ false =
        ground (arith, length-append nonce sealed) in
      let front : take 12 (nonce ++ sealed) ≡ nonce =
        ap (λ n. take n (nonce ++ sealed)) (sym twelve) ∙ take-append nonce sealed in
      let back : drop 12 (nonce ++ sealed) ≡ sealed =
        ap (λ n. drop n (nonce ++ sealed)) (sym twelve) ∙ drop-append nonce sealed in
      rw (long, front, back, sealing.opens (out.sha256 key) nonce t) refl

  -- What encrypts decrypts with the same key, and the users are as they were.
  encrypt-decrypt :
      (t key c : Text) (w v : State)
      → AreBytes t
      → encrypt out t key w ≡ (ok c, v)
      → (v.users ≡ w.users) × ((w' : State) → decrypt out c key w' ≡ (ok t, w'))
  unfolding encrypt decrypt
  encrypt-decrypt t key c w v bytes h =
      let w1 = record w { draws = suc w.draws } in
      let s =
        bind_ok (or_fail (out.random w.draws 12) library)
          (λ nonce. pure (encode_padded (nonce ++ out.aes_gcm_seal (out.sha256 key) nonce t))) w1
          h in
      let (drawn, same) = or_fail_ok (out.random w.draws 12) w1 s.first in
      let (twelve, are) = sealing.drawn w.draws 12 drawn in
      let b = s.value ++ out.aes_gcm_seal (out.sha256 key) s.value t in
      let form : encode_padded b ≡ c = ground arith in
      let after : s.between ≡ v = ap (λ p. p.1) s.second in
      (
        ap (λ v. v.users) (sym after ∙ same),
        λ w'.
            rw
              (
                ← form,
                decode_padded-encode_padded b (
                    append-AreBytes s.value _ are (sealing.seals (out.sha256 key) s.value t bytes)),
              )
              (open_sealed-seal key s.value t w' twelve),
      )

  generate_backup_codes-users :
      (n : ℕ) (w v : State) {r : List Text × List Text}
      → generate_backup_codes out n w ≡ (ok r, v)
      → v.users ≡ w.users
  unfolding generate_backup_codes
  generate_backup_codes-users zero w v h = ap (λ p. p.1.users) (sym h)
  generate_backup_codes-users (suc n) w v h =
      let w1 = record w { draws = suc w.draws } in
      let more : Text → List Text × List Text → M (List Text × List Text) =
        λ b p. pure (backup_code b ∷ p.0, hash_backup_code out (backup_code b) ∷ p.1) in
      let s =
        bind_ok (or_fail (out.random w.draws 5) library)
          (λ b. generate_backup_codes out n >>= more b) w1 h in
      let t = bind_ok (generate_backup_codes out n) (more s.value) s.between s.second in
      ap (λ p. p.1.users) (sym t.second)
      ∙ generate_backup_codes-users n s.between t.between t.first
      ∙ ap (λ v. v.users) (or_fail_ok (out.random w.draws 5) w1 s.first).1

  update_ok :
      (u : User) (w v : State) {x : Unit {0}}
      → Users.update out u w ≡ (ok x, v)
      → (Store.find (clashes u) w.users ≡ none) × (v.users ≡ Store.put u.id u w.users)
  unfolding Users.update write_users
  update_ok u w v h = elim (Option-cases (Store.find (clashes u) w.users)) [
    | inl alone ↦ (alone, sym (ap (λ p. p.1.users) h) ∙ update-users out sealing.answers u w alone)
    | inr (z, clash) ↦ absurd (ground (arith, sealing.answers w.statements))
  ]

  -- The user is stored with the sealed secret, no other user has the address or the phone, and the
  -- secret that is shown is the one that was sealed.
  record SetUp (u : User) (secret : Text) (v : State) : Type 0 where
    sealed : Text
    hashes : List Text
    alone : Store.find (clashes u) v.users ≡ none
    stored : Store.get u.id v.users ≡ some (with_secret u sealed hashes)
    opens : (w' : State) → decrypt out sealed out.cfg.access_secret w' ≡ (ok secret, w')

  store_secret-SetUp :
      (u : User) (secret url : Text) (cs hs : List Text) (w v : State) {s : MfaSetup}
      → AreBytes secret
      → store_secret out u secret url cs hs w ≡ (ok s, v)
      → (s.secret ≡ secret) × SetUp u secret v
  store_secret-SetUp u secret url cs hs w v bytes h =
      let shown : MfaSetup = record { secret = secret; qr_url = url; backup_codes = cs } in
      let e =
        bind_ok (encrypt out secret out.cfg.access_secret)
          (λ sealed. Users.update out (with_secret u sealed hs) >> pure shown) w h in
      let t =
        bind_ok (Users.update out (with_secret u e.value hs)) (λ _. pure shown) e.between
          e.second in
      let (same, opens) =
        encrypt-decrypt secret out.cfg.access_secret e.value w e.between bytes e.first in
      let (alone, put) = update_ok (with_secret u e.value hs) e.between t.between t.first in
      let users : v.users ≡ Store.put u.id (with_secret u e.value hs) e.between.users =
        ap (λ p. p.1.users) (sym t.second) ∙ put in
      (
        ground arith,
        record {
          sealed = e.value;
          hashes = hs;
          alone =
              ap (Store.find (clashes u)) users
              ∙ find-put (clashes u) u.id (with_secret u e.value hs) e.between.users
                  (rw (text_eq_refl u.id) refl) alone;
          stored = ap (Store.get u.id) users ∙ get-put_self u.id _ e.between.users;
          opens = opens;
        },
      )

  with_secret_of-SetUp :
      (u : User) (p : Text × Text) (w v : State) {s : MfaSetup}
      → AreBytes p.0
      → with_secret_of out u p w ≡ (ok s, v)
      → SetUp u s.secret v
  with_secret_of-SetUp u (secret, url) w v {s} bytes h =
      let c =
        bind_ok (generate_backup_codes out 10) (λ p. store_secret out u secret url p.0 p.1) w h in
      let (shown, set) =
        store_secret-SetUp u secret url c.value.0 c.value.1 c.between v bytes c.second in
      subst (λ x. SetUp u x v) (sym shown) set

  found_ok :
      (u : User) {x : User} → found (only_if is_kept (some u)) ≡ ok x → (is_kept u ≡ true) × (x ≡ u)
  found_ok u h = elim (Bool-cases (is_kept u)) [
    | inl kept ↦ (kept, ground arith)
    | inr gone ↦ absurd (ground arith)
  ]

  enable_mfa-SetUp :
      (user password : Text) (u : User) (w v : State) {s : MfaSetup}
      → Store.get user w.users ≡ some u
      → enable_mfa out user password w ≡ (ok s, v)
      → (is_kept u ≡ true) × SetUp u s.secret v
  unfolding enable_mfa Users.get_by_id
  enable_mfa-SetUp user password u w v {s} there h =
      let g =
        bind_ok (Users.get_by_id out user)
          (λ x.
            guard (password_or_none out x password) invalid_credentials
            >> (new_secret out x >>= with_secret_of out x))
          w h in
      let read = query_ok out (λ w. found (only_if is_kept (Store.get user w.users))) w g.first in
      let (kept, is) = found_ok u (ap (λ o. found (only_if is_kept o)) (sym there) ∙ read.0) in
      let p =
        bind_ok (guard (password_or_none out g.value password) invalid_credentials)
          (λ _. new_secret out g.value >>= with_secret_of out g.value) g.between g.second in
      let n = bind_ok (new_secret out g.value) (with_secret_of out g.value) p.between p.second in
      let made = or_fail_ok (out.totp_generate p.between.draws _) _ n.first in
      let set =
        with_secret_of-SetUp g.value n.value n.between v (sealing.generated _ _ made.0) n.second in
      (kept, subst (λ x. SetUp x s.secret v) is set)

  get_by_id-found :
      (user : Text) (u : User) (w : State)
      → Store.get user w.users ≡ some u
      → is_kept u ≡ true
      → Users.get_by_id out user w ≡ (ok u, record w { statements = suc w.statements })
  unfolding Users.get_by_id query
  get_by_id-found user u w there kept = rw (sealing.answers w.statements, there, kept) refl

  update-fits :
      (u : User) (w : State)
      → Store.find (clashes u) w.users ≡ none
      → Users.update out u w
        ≡ (ok tt, record w { statements = suc w.statements; users = Store.put u.id u w.users })
  unfolding Users.update write_users
  update-fits u w alone = rw (sealing.answers w.statements) (ground (arith, alone))

  -- What a confirmation answers and does, on a user that was set up.
  confirm_mfa-SetUp :
      (user code secret : Text) (u : User) (v w : State)
      → u.id ≡ user
      → is_kept u ≡ true
      → SetUp u secret v
      → w.users ≡ v.users
      → let valid = out.totp_validate (out.codes.clock w.reads) code secret in
        let after = confirm_mfa out user code w in
        (after.0 ≡ (if valid then ok tt else err invalid_mfa_code))
        × (u' : User) × (Store.get user after.1.users ≡ some u')
        × (u'.mfa_enabled ≡ (valid || u.mfa_enabled))
  unfolding confirm_mfa
  confirm_mfa-SetUp user code secret u v w own kept set same =
      let u1 = with_secret u set.sealed set.hashes in
      let there : Store.get user w.users ≡ some u1 =
        ap (Store.get user) same ∙ ap (λ k. Store.get k v.users) (sym own) ∙ set.stored in
      let alone : Store.find (clashes u1) w.users ≡ none =
        ap (Store.find (clashes u)) same ∙ set.alone in
      let w1 = record w { statements = suc w.statements } in
      let w2 = record w1 { reads = suc w.reads } in
      let u2 = record u1 { mfa_enabled = true } in
      elim (Bool-cases (out.totp_validate (out.codes.clock w.reads) code secret)) [
        | inl valid ↦
            rw (get_by_id-found user u1 w there kept, set.opens w1, valid, update-fits u2 w2 alone)
              (
                refl,
                u2,
                ap (λ k. Store.get k (Store.put u.id u2 w.users)) (sym own)
                    ∙ get-put_self u.id u2 w.users,
                refl,
              )
        | inr invalid ↦
            rw (get_by_id-found user u1 w there kept, set.opens w1, invalid) (refl, u1, there, refl)
      ]

  -- A second factor that a user set up is confirmed by a code of the authenticator for the secret that
  -- was shown, and by no other, while the users are as the setup left them: the confirmation answers by
  -- what the library says of the code and the secret then, and the factor is on afterwards if it says
  -- yes, or was on. The database answers, the libraries do as documented, and the user's row has the
  -- id that it is read by.
  pub enable_mfa-confirm_mfa :
      (user password code : Text) (u : User) (s : MfaSetup) (w v w' : State)
      → Store.get user w.users ≡ some u
      → u.id ≡ user
      → enable_mfa out user password w ≡ (ok s, v)
      → w'.users ≡ v.users
      → let valid = out.totp_validate (out.codes.clock w'.reads) code s.secret in
        let after = confirm_mfa out user code w' in
        (after.0 ≡ (if valid then ok tt else err invalid_mfa_code))
        × (u' : User) × (Store.get user after.1.users ≡ some u')
        × (u'.mfa_enabled ≡ (valid || u.mfa_enabled))
  enable_mfa-confirm_mfa user password code u s w v w' there own h same =
      let (kept, set) = enable_mfa-SetUp user password u w v there h in
      confirm_mfa-SetUp user code s.secret u v w' own kept set same
