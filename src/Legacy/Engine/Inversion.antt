-- ===== src/Legacy/Engine/Inversion.antt =====
-- What a call of the earlier engine that went through says of its steps.
use dift_backend_auth.Base.{◌≡◌, refl, sym, ◌∙◌, Bool, true, false, arith, ap, suc}
use dift_backend_auth.Store
use dift_backend_auth.Legacy.Engine.{
  Session, Outside, State, Failure, Result, ok, err, M, resume, relabelled, ◌>>=◌, guard, or_else,
}
use dift_backend_auth.Legacy.Engine.Tables.{query, write_sessions, answered}

pub record Steps {A B : Type 0} (m : M A) (f : A → M B) (w : State) (b : B) (w'' : State)
    : Type 0 where
  pub value : A
  pub between : State
  pub first : m w ≡ (ok value, between)
  pub second : f value between ≡ (ok b, w'')

pub bind_ok :
    {A B : Type 0} (m : M A) (f : A → M B) (w : State) {b : B} {w'' : State}
    → (m >>= f) w ≡ (ok b, w'')
    → Steps m f w b w''
bind_ok {A} {B} m f w {b} {w''} h = go (m w) refl h
  where
    go : (r : Result A × State) → m w ≡ r → resume f r ≡ (ok b, w'') → Steps m f w b w''
    go (ok a, v) e h = record { value = a; between = v; first = e; second = h }
    go (err x, v) e h = ground arith

pub guard_ok :
    (b : Bool) (e : Failure) (w : State) {u : Unit {0}} {w' : State}
    → guard b e w ≡ (ok u, w')
    → (b ≡ true) × (w' ≡ w)
guard_ok true e w h = ground arith
guard_ok false e w h = ground arith

pub or_else_ok :
    {A : Type 0} (m : M A) (e : Failure) (w : State) {a : A} {w' : State}
    → or_else m e w ≡ (ok a, w')
    → m w ≡ (ok a, w')
or_else_ok {A} m e w {a} {w'} h = go (m w) refl h
  where
    go : (r : Result A × State) → m w ≡ r → relabelled e r ≡ (ok a, w') → m w ≡ (ok a, w')
    go (ok x, v) q h = q ∙ h
    go (err x, v) q h = ground arith

-- A reading that went through: the database answered it.
pub query_ok :
    {A : Type 0} (out : Outside) (f : State → Result A) (w : State) {a : A} {w' : State}
    → query out f w ≡ (ok a, w')
    → (f (record w { statements = suc w.statements }) ≡ ok a)
      × (w' ≡ record w { statements = suc w.statements })
unfolding query
query_ok {A} out f w {a} {w'} h = go (out.answers w.statements) h
  where
    go :
        (b : Bool)
        → answered b (λ v. (f v, v)) w ≡ (ok a, w')
        → (f (record w { statements = suc w.statements }) ≡ ok a)
          × (w' ≡ record w { statements = suc w.statements })
    go true h = (ap (λ p. p.0) h, sym (ap (λ p. p.1) h))
    go false h = ground arith

-- A write to the sessions that went through.
pub write_sessions_ok :
    {A : Type 0} (out : Outside) (f : State → Result A × Store.Store Session) (w : State) {a : A}
    {w' : State}
    → write_sessions out f w ≡ (ok a, w')
    → f (record w { statements = suc w.statements }) ≡ (ok a, w'.sessions)
unfolding write_sessions
write_sessions_ok {A} out f w {a} {w'} h = go (out.answers w.statements) h
  where
    go :
        (b : Bool)
        → answered b (λ v. let (r, ss) = f v in (r, record v { sessions = ss })) w ≡ (ok a, w')
        → f (record w { statements = suc w.statements }) ≡ (ok a, w'.sessions)
    go true h = ap (λ p. (p.0, p.1.sessions)) h
    go false h = ground arith
