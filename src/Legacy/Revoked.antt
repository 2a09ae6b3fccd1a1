-- ===== src/Legacy/Revoked.antt =====
-- A revoked API key stays refused.
use dift_backend_auth.Base.{
  ℕ, suc, ◌≤◌, ◌≡◌, refl, inl, inr, true, false, ◌&&◌, Bool, Option, none, some, List, [], ◌∷◌,
  Text, text_eq, arith, ltb, Bool-cases, is_empty, if◌then◌else◌,
}
use dift_backend_auth.AccessControl.Tables.{any, where_, sort_by}
use dift_backend_auth.Base.Ascii.{starts_with}
use dift_backend_auth.Legacy.Keys.{
  ApiKey, Outside, State, Result, ok, err, Failure, Request, has_hash, is_of, update_where,
  statement, insert, revoke_row, touch, get_by_hash, list_by_user, create, authenticate, serve,
  new_key, generated, store_key, accept, in_time, answer, Response, deactivate, deactivated,
  first_with_hash, all_of_user, inserted, touched, used, show_stored, judge_key, serve_all,
  hash_api_key, plaintext_of, api_key_prefix, invalid_api_key, api_key_revoked, api_key_expired,
  create_key, list_keys, revoke_key, with_key, revoked, failed, missing_header, passed,
  CreateApiKeyRequest,
}

-- No active key has the hash.
abbrev IsGone : Text → List ApiKey → Type 0
IsGone h [] = Unit {0}
IsGone h (k ∷ ks) = (has_hash h k ≡ false) × IsGone h ks

-- Every active key with the hash is the user's key with the id.
abbrev pub AreOf : (h id user : Text) → List ApiKey → Type 0
AreOf h id user [] = Unit {0}
AreOf h id user (k ∷ ks) = (has_hash h k ≡ true → is_of id user k ≡ true) × AreOf h id user ks

where_-IsGone : (h : Text) (ks : List ApiKey) → IsGone h ks → where_ (has_hash h) ks ≡ []
unfolding where_
where_-IsGone h [] gone = refl
where_-IsGone h (k ∷ ks) (not_it, gone) = rw not_it (where_-IsGone h ks gone)

update_where-IsGone :
    (h : Text) (p : ApiKey → Bool) (f : ApiKey → ApiKey) (ks : List ApiKey)
    → ((k : ApiKey) → has_hash h k ≡ false → has_hash h (f k) ≡ false)
    → IsGone h ks
    → IsGone h (update_where p f ks)
unfolding update_where
update_where-IsGone h p f [] keeps gone = tt
update_where-IsGone h p f (k ∷ ks) keeps (not_it, gone) = (
  elim (Bool-cases (p k)) [ inl hit ↦ rw hit (keeps k not_it) | inr miss ↦ rw miss not_it ],
  update_where-IsGone h p f ks keeps gone,
)

and_false : (b : Bool) → (b && false) ≡ false
and_false true = refl
and_false false = refl

revoke-IsGone :
    (h id user : Text) (ks : List ApiKey)
    → AreOf h id user ks
    → IsGone h (update_where (is_of id user) deactivate ks)
unfolding update_where
revoke-IsGone h id user [] of = tt
revoke-IsGone h id user (k ∷ ks) (of, more) = (
  elim (Bool-cases (is_of id user k)) [
    | inl hit ↦ rw hit (and_false (text_eq k.key_hash h))
    | inr miss ↦
        rw miss
          (elim (Bool-cases (has_hash h k)) [ inl it ↦ absurd (cc (of it)) | inr other ↦ other ])
  ],
  revoke-IsGone h id user ks more,
)

-- The hash stays gone, and no random bytes are drawn twice.
abbrev Keeps : Text → State → State → Type 0
Keeps h w w' = (IsGone h w.rows → IsGone h w'.rows) × (w.draws ≤ w'.draws)

keep : (h : Text) (w : State) → Keeps h w w
keep h w = ((λ gone. gone), omega arith)

then_Keeps : (h : Text) (u v w : State) → Keeps h u v → Keeps h v w → Keeps h u w
then_Keeps h u v w (p, l) (q, m) = ((λ gone. q (p gone)), omega arith)

module _ (out : Outside) where
  statement-Keeps :
      {A : Type 0} (h : Text) (f : State → Result A × List ApiKey) (w : State)
      → (IsGone h w.rows → IsGone h (f w).1)
      → Keeps h w (statement out f w).1
  statement-Keeps h f w keeps = elim (Bool-cases (out.reached w.commands)) [
    | inl up ↦ rw up (keeps, omega arith)
    | inr down ↦ rw down (keep h w)
  ]

  get_by_hash-Keeps : (h j : Text) (w : State) → Keeps h w (get_by_hash out j w).1
  unfolding get_by_hash
  get_by_hash-Keeps h j w = statement-Keeps h (first_with_hash out j) w (λ gone. gone)

  list_by_user-Keeps : (h user : Text) (w : State) → Keeps h w (list_by_user out user w).1
  unfolding list_by_user
  list_by_user-Keeps h user w = statement-Keeps h (all_of_user user) w (λ gone. gone)

  revoke_row-Keeps : (h id user : Text) (w : State) → Keeps h w (revoke_row out id user w).1
  unfolding revoke_row
  revoke_row-Keeps h id user w = statement-Keeps h (deactivated id user) w (
      update_where-IsGone h (is_of id user) deactivate w.rows
        (λ k not_it. and_false (text_eq k.key_hash h)))

  touch-Keeps : (h id : Text) (w : State) → Keeps h w (touch out id w).1
  unfolding touch
  touch-Keeps h id w =
      statement-Keeps h (touched id (out.clock w.reads)) (record w { reads = suc w.reads })
        (update_where-IsGone h (λ k. text_eq k.id id) (used (out.clock w.reads)) w.rows
          (λ k not_it. not_it))

  insert-Keeps :
      (h : Text) (k : ApiKey) (w : State)
      → text_eq k.key_hash h ≡ false
      → Keeps h w (insert out k w).1
  unfolding insert
  insert-Keeps h k w other = statement-Keeps h (inserted out k) w (λ gone.
      elim (Bool-cases (any (λ r. text_eq r.key_hash k.key_hash) w.rows)) [
        | inl taken ↦ rw taken gone
        | inr free ↦ rw free (rw other refl, gone)
      ])

  show_stored-Keeps :
      (h plaintext : Text) (w : State) (p : Result ApiKey × State)
      → Keeps h w p.1
      → Keeps h w (show_stored plaintext p).1
  show_stored-Keeps h plaintext w (err e, v) keeps = keeps
  show_stored-Keeps h plaintext w (ok k, v) keeps = keeps

  store_key-Keeps :
      (h user : Text) (req : CreateApiKeyRequest) (w : State) (o : Option Text)
      → ((b : Text) → o ≡ some b → text_eq (hash_api_key out (plaintext_of b)) h ≡ false)
      → Keeps h w (store_key out user req (generated out o, record w { draws = suc w.draws })).1
  store_key-Keeps h user req w none fresh = ((λ gone. gone), omega arith)
  store_key-Keeps h user req w (some b) fresh =
      let w' = record w { draws = suc w.draws } in
      let hash = hash_api_key out (plaintext_of b) in
      let key = new_key user req (plaintext_of b) hash in
      show_stored-Keeps h (plaintext_of b) w (insert out key w') (
        then_Keeps h w w' (insert out key w').1 ((λ gone. gone), omega arith)
          (insert-Keeps h key w' (fresh b refl)))

  create-Keeps :
      (h user : Text) (req : CreateApiKeyRequest) (w : State)
      → ((b : Text)
          → out.random w.draws ≡ some b
          → text_eq (hash_api_key out (plaintext_of b)) h ≡ false)
      → Keeps h w (create out user req w).1
  unfolding create
  create-Keeps h user req w fresh = store_key-Keeps h user req w (out.random w.draws) fresh

  accept-Keeps : (h : Text) (k : ApiKey) (w : State) → Keeps h w (accept out k w).1
  accept-Keeps h k w = touch-Keeps h k.id w

  if_Keeps :
      {A : Type 0} (h : Text) (w : State) (b : Bool) (p q : A × State)
      → Keeps h w p.1
      → Keeps h w q.1
      → Keeps h w (if b then p else q).1
  if_Keeps h w true p q kept keeps = kept
  if_Keeps h w false p q kept keeps = keeps

  in_time-Keeps :
      (h : Text) (k : ApiKey) (o : Option ℕ) (w : State) → Keeps h w (in_time out k o w).1
  in_time-Keeps h k none w = accept-Keeps h k w
  in_time-Keeps h k (some t) w =
      let w' = record w { reads = suc w.reads } in
      if_Keeps h w (ltb t (out.clock w.reads)) (err api_key_expired, w') (accept out k w')
        (keep h w) (accept-Keeps h k w')

  judge_key-Keeps :
      (h : Text) (w : State) (p : Result ApiKey × State)
      → Keeps h w p.1
      → Keeps h w (judge_key out p).1
  judge_key-Keeps h w (err e, v) keeps = keeps
  judge_key-Keeps h w (ok k, v) keeps =
      if_Keeps h w k.is_active (in_time out k k.expires_at v) (err api_key_revoked, v)
        (then_Keeps h w v (in_time out k k.expires_at v).1 keeps (in_time-Keeps h k k.expires_at v))
        keeps

  authenticate-Keeps : (h raw : Text) (w : State) → Keeps h w (authenticate out raw w).1
  unfolding authenticate
  authenticate-Keeps h raw w = elim (Bool-cases (starts_with api_key_prefix raw)) [
    | inl has ↦ rw has (
        judge_key-Keeps h w (get_by_hash out (hash_api_key out raw) w)
          (get_by_hash-Keeps h (hash_api_key out raw) w))
    | inr lacks ↦ rw lacks (keep h w)
  ]

  answer-Keeps :
      {A : Type 0} (h : Text) (code : ℕ) (f : A → Response) (w : State) (p : Result A × State)
      → Keeps h w p.1
      → Keeps h w (answer code f p).1
  answer-Keeps h code f w (err e, v) keeps = keeps
  answer-Keeps h code f w (ok a, v) keeps = keeps

  -- From the k-th drawing on, no key is made that has the hash.
  abbrev pub AreOther : Text → ℕ → Type 0
  AreOther h n =
      (k : ℕ) (b : Text)
      → n ≤ k
      → out.random k ≡ some b
      → text_eq (hash_api_key out (plaintext_of b)) h ≡ false

  serve-Keeps :
      (h : Text) (r : Request) (w : State) → AreOther h w.draws → Keeps h w (serve out r w).1
  unfolding serve
  serve-Keeps h (create_key user none) w other = keep h w
  serve-Keeps h (create_key user (some req)) w other =
      answer-Keeps h 500 _ w (create out user req w)
        (create-Keeps h user req w (λ b drawn. other w.draws b (omega arith) drawn))
  serve-Keeps h (list_keys user) w other =
      answer-Keeps h 500 _ w (list_by_user out user w) (list_by_user-Keeps h user w)
  serve-Keeps h (revoke_key user none) w other = keep h w
  serve-Keeps h (revoke_key user (some id)) w other =
      answer-Keeps h 500 _ w (revoke_row out id user w) (revoke_row-Keeps h id user w)
  serve-Keeps h (with_key header) w other =
      if_Keeps h w (is_empty header) ((401, failed missing_header), w)
        (answer 401 (λ k. (200, passed k.id k.user_id k.permissions k.scopes))
          (authenticate out header w))
        (keep h w)
        (answer-Keeps h 401 (λ k. (200, passed k.id k.user_id k.permissions k.scopes)) w
          (authenticate out header w) (authenticate-Keeps h header w))

  serve_all-IsGone :
      (h : Text) (rs : List Request) (w : State)
      → AreOther h w.draws
      → IsGone h w.rows
      → IsGone h (serve_all out rs w).rows
  serve_all-IsGone h [] w other gone = gone
  serve_all-IsGone h (r ∷ rs) w other gone =
      let keeps = serve-Keeps h r w other in
      serve_all-IsGone h rs (serve out r w).1
        (λ k b late drawn. other k b (omega (arith, keeps.1, late)) drawn) (keeps.0 gone)

  judge_key-err :
      (p : Result ApiKey × State)
      → ((f : Failure) × (p.0 ≡ err f))
      → (judge_key out p).0 ≡ err invalid_api_key
  judge_key-err (err e, v) failure = refl
  judge_key-err (ok k, v) (f, failure) = absurd (cc failure)

  authenticate-gone :
      (raw : Text) (w : State)
      → IsGone (hash_api_key out raw) w.rows
      → (authenticate out raw w).0 ≡ err invalid_api_key
  unfolding authenticate get_by_hash sort_by
  authenticate-gone raw w gone = elim (Bool-cases (starts_with api_key_prefix raw)) [
    | inr lacks ↦ rw lacks refl
    | inl has ↦ rw has (elim (Bool-cases (out.reached w.commands)) [
      | inl up ↦ rw (up, where_-IsGone (hash_api_key out raw) w.rows gone) refl
      | inr down ↦ rw down refl
    ])
  ]

  -- After a user revoked a key, where the database answered and every active key with its hash was
  -- that one, no request with the key passes, whatever requests come between, as long as no key
  -- made later has its hash; and the refusal says that the key is invalid, never that it is revoked.
  pub revoke_key-authenticate :
      (raw id user : Text) (rs : List Request) (w : State)
      → out.reached w.commands ≡ true
      → AreOf (hash_api_key out raw) id user w.rows
      → AreOther (hash_api_key out raw) w.draws
      → ((serve out (revoke_key user (some id)) w).0 ≡ (200, revoked))
        × ((authenticate out raw (serve_all out rs (serve out (revoke_key user (some id)) w).1)).0
            ≡ err invalid_api_key)
  unfolding serve revoke_row
  revoke_key-authenticate raw id user rs w up of other =
      rw (serve, revoke_row, up)
        (
          refl,
          authenticate-gone raw _ (
              serve_all-IsGone (hash_api_key out raw) rs _ other
                (revoke-IsGone (hash_api_key out raw) id user w.rows of)),
        )
