-- ===== src/Runtime/Inversion.antt =====
-- What a call that went through says of its steps.
use dift_backend_auth.Base.{◌≡◌, refl, Bool, true, false, arith, ap}
use dift_backend_auth.Runtime.{
  Env, World, Outcome, ok, err, panic, Error, M, resume, handled, ◌>>=◌, guard, on_error,
}

-- A sequence went through: so did its first step, and the rest from there.
pub record Steps {A B : Type 0} (m : M A) (f : A → M B) (env : Env) (w : World) (b : B)
    (w'' : World) : Type 0 where
  pub value : A
  pub between : World
  pub first : m env w ≡ (ok value, between)
  pub second : f value env between ≡ (ok b, w'')

pub bind_ok :
    {A B : Type 0} (m : M A) (f : A → M B) (env : Env) (w : World) {b : B} {w'' : World}
    → (m >>= f) env w ≡ (ok b, w'')
    → Steps m f env w b w''
bind_ok {A} {B} m f env w {b} {w''} h = go (m env w).0 (m env w).1 refl h
  where
    go :
        (r : Outcome A) (w' : World)
        → m env w ≡ (r, w')
        → resume f env r w' ≡ (ok b, w'')
        → Steps m f env w b w''
    go (ok a) w' e h = record { value = a; between = w'; first = e; second = h }
    go (err x) w' e h = ground arith
    go panic w' e h = ground arith

pub guard_ok :
    (b : Bool) (e : Error) (env : Env) (w : World) {u : Unit {0}} {w' : World}
    → guard b e env w ≡ (ok u, w')
    → (b ≡ true) × (w' ≡ w)
guard_ok true e env w h = ground arith
guard_ok false e env w h = ground arith

pub on_error_ok :
    {A : Type 0} (m : M A) (f : Error → M A) (env : Env) (w : World) {a : A} {w' : World}
    → ((e : Error) (v : World) (x : A) → (f e env v).0 ≡ ok x → ⊥)
    → on_error m f env w ≡ (ok a, w')
    → m env w ≡ (ok a, w')
on_error_ok {A} m f env w {a} {w'} fails h = go (m env w).0 (m env w).1 refl h
  where
    go :
        (r : Outcome A) (v : World)
        → m env w ≡ (r, v)
        → handled f env r v ≡ (ok a, w')
        → m env w ≡ (ok a, w')
    go (ok x) v e h = ground arith
    go (err x) v e h = absurd (fails x v a (ap (λ p. p.0) h))
    go panic v e h = ground arith
