-- ===== src/Legacy/Engine/Capped.antt =====
-- The limit on the sessions of a user.
use dift_backend_auth.Base.{
  ℕ, suc, ◌≤◌, ◌<◌, ◌≡◌, refl, ap, Bool, true, false, none, List, [], ◌∷◌, length, Text, text_eq,
  text_eq_iff, arith, Bool-cases, Option-cases, inl, inr,
}
use dift_backend_auth.Store
use dift_backend_auth.Legacy.Engine.{
  User, Session, Outside, State, Result, ok, err, M, ◌>>=◌, ◌>>◌, resume,
}
use dift_backend_auth.Legacy.Engine.Frame.{Property, Keeps, write_sessions-Keeps}
use dift_backend_auth.Legacy.Engine.Kept.{table_rules}
use dift_backend_auth.Legacy.Engine.Served.{IsKept}
use dift_backend_auth.Legacy.Engine.Requests.{serve_all-keeps}
use dift_backend_auth.Legacy.Engine.Tables.{query, write_sessions, answered}
use dift_backend_auth.Legacy.Engine.Sessions
use dift_backend_auth.Legacy.Engine.Sessions.{change_if, end, seen_at, live_of}
use dift_backend_auth.Legacy.Engine.Service.{Origin, issue_tokens, open_session, has_room}
use dift_backend_auth.Legacy.Engine.Handlers.{Request, serve_all}

-- How many values of a store pass a test.
abbrev pub count {ℓ} : {V : Type ℓ} → (V → Bool) → Store.Store V → ℕ
count p m = length (Store.select p m)

module _ {ℓ} {V : Type ℓ} where
  count_mono :
      (p q : V → Bool) (m : Store.Store V)
      → ((v : V) → p v ≡ true → q v ≡ true)
      → count p m ≤ count q m
  unfolding Store.select
  count_mono p q [] h = omega arith
  count_mono p q ((k, v) ∷ m) h = ground (arith, count_mono p q m h, h v)

  count-update_all :
      (p : V → Bool) (f : V → V) (m : Store.Store V)
      → ((v : V) → p (f v) ≡ true → p v ≡ true)
      → count p (Store.update_all f m) ≤ count p m
  unfolding Store.select Store.update_all
  count-update_all p f [] h = omega arith
  count-update_all p f ((k, v) ∷ m) h = ground (arith, count-update_all p f m h, h v)

  count-put :
      (p : V → Bool) (k : Text) (v : V) (m : Store.Store V)
      → Store.get k m ≡ none
      → count p (Store.put k v m) ≤ suc (count p m)
  unfolding Store.select Store.put Store.get
  count-put p k v [] free = ground arith
  count-put p k v ((j, u) ∷ m) free = ground (arith, count-put p k v m)

  count-put_miss :
      (p : V → Bool) (k : Text) (v : V) (m : Store.Store V)
      → Store.get k m ≡ none
      → p v ≡ false
      → count p (Store.put k v m) ≤ count p m
  unfolding Store.select Store.put Store.get
  count-put_miss p k v [] free miss = ground arith
  count-put_miss p k v ((j, u) ∷ m) free miss = ground (arith, count-put_miss p k v m)

-- From one property of the sessions to another.
record Leads {A : Type 0} (R P : Property) (m : M A) : Type 0 where
  apply : (w : State) → R w.sessions → P (m w).1.sessions

module _ {R P : Property} (weaker : (m : Store.Store Session) → R m → P m) where
  keep_then-Leads :
      {A B : Type 0} (m : M A) (f : A → M B)
      → Keeps R m
      → ((a : A) → Leads R P (f a))
      → Leads R P (m >>= f)
  keep_then-Leads {A} {B} m f hm hf = record { apply = λ w r. go (m w) (hm.apply w r) }
    where
      go : (a : Result A × State) → R a.1.sessions → P (resume f a).1.sessions
      go (ok x, v) r = (hf x).apply v r
      go (err e, v) r = weaker v.sessions r

  write_sessions-Leads :
      {A : Type 0} (out : Outside) (f : State → Result A × Store.Store Session)
      → ((w : State) → R w.sessions → P (f w).1)
      → Leads R P (write_sessions out f)
  unfolding write_sessions
  write_sessions-Leads out f leads = record { apply = λ w r. go (out.answers w.statements) w r }
    where
      go :
          (b : Bool) (w : State)
          → R w.sessions
          → P (answered b (λ v. let (r, ss) = f v in (r, record v { sessions = ss })) w).1.sessions
      go true w r = leads (record w { statements = suc w.statements }) r
      go false w r = weaker w.sessions r

then_keep-Leads :
    {R P : Property} {B : Type 0} (m : M (Unit {0})) (k : M B)
    → Leads R P m
    → Keeps P k
    → Leads R P (m >> k)
then_keep-Leads {R} {P} {B} m k hm hk = record { apply = λ w r. go (m w) (hm.apply w r) }
  where
    go : (a : Result (Unit {0}) × State) → P a.1.sessions → P (resume (λ _. k) a).1.sessions
    go (ok x, v) p = hk.apply v p
    go (err e, v) p = p

module _ (out : Outside) (user : Text) (late : ℕ) where
  abbrev pub Capped : Property
  Capped m = count (live_of user late) m ≤ out.cfg.session_max_devices

  -- There is room for one more.
  abbrev HasRoom : Property
  HasRoom m = count (live_of user late) m < out.cfg.session_max_devices

  -- A session of another user.
  create_other-Keeps :
      (s : Session) → text_eq s.user_id user ≡ false → Keeps Capped (Sessions.create out s)
  unfolding Sessions.create
  create_other-Keeps s other = write_sessions-Keeps out _ (λ w cap.
      elim (Option-cases (Store.get s.id w.sessions)) [
        | inl free ↦
            let more = count-put_miss (live_of user late) s.id s w.sessions free (rw other refl) in
            rw free (omega (arith, more, cap))
        | inr (u, taken) ↦ rw taken cap
      ])

  room-Capped : (m : Store.Store Session) → HasRoom m → Capped m
  room-Capped m room = omega (arith, room)

  create-Leads : (s : Session) → Leads HasRoom Capped (Sessions.create out s)
  unfolding Sessions.create
  create-Leads s = write_sessions-Leads room-Capped out _ (λ w room.
      elim (Option-cases (Store.get s.id w.sessions)) [
        | inl free ↦
            let more = count-put (live_of user late) s.id s w.sessions free in
            rw free (omega (arith, more, room))
        | inr (u, taken) ↦ rw taken (omega (arith, room))
      ])

  open_session-Leads :
      (u : User) (device : Text) (from : Origin) (mfa_done : Bool)
      → Leads HasRoom Capped (open_session out u device from mfa_done)
  open_session-Leads u device from mfa_done =
      search (table_rules, room-Capped, keep_then-Leads, then_keep-Leads, create-Leads) depth 30

  issue_other-Keeps :
      (u : User) (device : Text) (from : Origin) (mfa_done : Bool)
      → text_eq u.id user ≡ false
      → Keeps Capped (issue_tokens out u device from mfa_done)
  unfolding issue_tokens
  issue_other-Keeps u device from mfa_done other =
      search (table_rules, other, create_other-Keeps) depth 30

  ended-live :
      (p : Session → Bool) (s : Session)
      → live_of user late (change_if p end s) ≡ true
      → live_of user late s ≡ true
  ended-live p s live = ground arith

  touched-live :
      (p : Session → Bool) (t : ℕ) (s : Session)
      → live_of user late (change_if p (seen_at t) s) ≡ true
      → live_of user late s ≡ true
  touched-live p t s live = ground arith

  module _ (limited : 0 < out.cfg.session_max_devices) (up : (k : ℕ) → out.answers k ≡ true)
      (before : (k : ℕ) → out.codes.clock k ≤ late) where
    -- Sessions that live late live earlier.
    live-Capped :
        (t : ℕ) (m : Store.Store Session)
        → t ≤ late
        → count (live_of user late) m ≤ count (live_of user t) m
    live-Capped t m early =
        count_mono (live_of user late) (live_of user t) m (λ s live. ground arith)

    -- The count that is read before a session is opened leaves room.
    issue_own :
        (u : User) (device : Text) (from : Origin) (mfa_done : Bool) (w : State)
        → text_eq u.id user ≡ true
        → Capped w.sessions
        → Capped (issue_tokens out u device from mfa_done w).1.sessions
    unfolding issue_tokens Sessions.count_active query
    issue_own u device from mfa_done w own cap =
        let t = out.codes.clock w.reads in
        let same : u.id ≡ user = (text_eq_iff u.id user).0 own in
        let fewer = live-Capped t w.sessions (before w.reads) in
        let here : count (live_of u.id t) w.sessions ≡ count (live_of user t) w.sessions =
          ap (λ i. count (live_of i t) w.sessions) same in
        elim (Bool-cases (has_room out.cfg (count (live_of u.id t) w.sessions))) [
          | inl room ↦
              let less : count (live_of u.id t) w.sessions < out.cfg.session_max_devices =
                ground (arith, room) in
              rw (query, up w.statements, room)
                ((open_session-Leads u device from mfa_done).apply
                  (record w { reads = suc w.reads; statements = suc w.statements })
                  (omega (arith, less, here, fewer)))
          | inr full ↦ rw (query, up w.statements, full) cap
        ]

    Capped-IsKept : IsKept Capped out
    Capped-IsKept = record {
      issued = λ u device from mfa_done. elim (Bool-cases (text_eq u.id user)) [
        | inl own ↦ record { apply = λ w. issue_own u device from mfa_done w own }
        | inr other ↦ issue_other-Keeps u device from mfa_done other
      ];
      ended = λ p m cap.
          let less =
            count-update_all (live_of user late) (change_if p end) m (λ s. ended-live p s) in
          omega (arith, less, cap);
      touched = λ p t m cap.
          let less =
            count-update_all (live_of user late) (change_if p (seen_at t)) m
              (λ s. touched-live p t s) in
          omega (arith, less, cap);
    }

    -- The sessions of a user that live at a time are at most as many as the limit, if they were at
    -- the start, whatever requests are served up to that time, where a limit is set and the database
    -- answers.
    pub serve_all-Capped :
        (rs : List (Origin × Request)) (w : State)
        → Capped w.sessions
        → Capped (serve_all out rs w).sessions
    serve_all-Capped rs w cap = serve_all-keeps out Capped-IsKept rs w cap
