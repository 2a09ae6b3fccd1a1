-- ===== src/Legacy/Engine/Frame.antt =====
-- Calls of the earlier engine that keep a property of the sessions, by rules for the monad.
use dift_backend_auth.Base.{suc, Bool, true, false, Option, none, some, List, if◌then◌else◌}
use dift_backend_auth.Store
use dift_backend_auth.Legacy.Codes
use dift_backend_auth.Legacy.Engine.{
  User, Session, OAuthProvider, AuditLog, Outside, State, Failure, Result, ok, err, M, pure, fail,
  lift, resume, relabelled, ◌>>=◌, ◌>>◌, guard, or_fail, attempt, ignore, or_else, now, draw,
  new_uuid, coded,
}
use dift_backend_auth.Legacy.Engine.Tables.{
  answered, query, write_users, write_oauths, write_audits, write_sessions,
}

abbrev pub Property : Type 1
Property = Store.Store Session → Type 0

pub record Keeps {A : Type 0} (P : Property) (m : M A) : Type 0 where
  pub apply : (w : State) → P w.sessions → P (m w).1.sessions

module _ {A : Type 0} {P : Property} where
  pub pure-Keeps : (a : A) → Keeps P (pure a)
  pure-Keeps a = record { apply = λ w p. p }

  pub fail-Keeps : (e : Failure) → Keeps P (fail {A = A} e)
  fail-Keeps e = record { apply = λ w p. p }

  pub lift-Keeps : (r : Result A) → Keeps P (lift r)
  lift-Keeps r = record { apply = λ w p. p }

  pub or_fail-Keeps : (o : Option A) (e : Failure) → Keeps P (or_fail o e)
  or_fail-Keeps none e = record { apply = λ w p. p }
  or_fail-Keeps (some a) e = record { apply = λ w p. p }

  pub attempt-Keeps : (m : M A) → Keeps P m → Keeps P (attempt m)
  attempt-Keeps m h = record { apply = λ w p. h.apply w p }

  pub ignore-Keeps : (m : M A) → Keeps P m → Keeps P (ignore m)
  ignore-Keeps m h = record { apply = λ w p. h.apply w p }

  pub or_else-Keeps : (m : M A) (e : Failure) → Keeps P m → Keeps P (or_else m e)
  or_else-Keeps m e h = record { apply = λ w p. go (m w) (h.apply w p) }
    where
      go : (r : Result A × State) → P r.1.sessions → P (relabelled e r).1.sessions
      go (ok a, v) p = p
      go (err x, v) p = p

  pub if-Keeps : (b : Bool) (m k : M A) → Keeps P m → Keeps P k → Keeps P (if b then m else k)
  if-Keeps true m k hm hk = hm
  if-Keeps false m k hm hk = hk

  -- A statement that leaves the sessions, and one that writes them.
  pub query-Keeps : (out : Outside) (f : State → Result A) → Keeps P (query out f)
  unfolding query
  query-Keeps out f = record { apply = λ w p. go (out.answers w.statements) w p }
    where
      go : (b : Bool) (w : State) → P w.sessions → P (answered b (λ v. (f v, v)) w).1.sessions
      go true w p = p
      go false w p = p

  pub write_users-Keeps :
      (out : Outside) (f : State → Result A × Store.Store User) → Keeps P (write_users out f)
  unfolding write_users
  write_users-Keeps out f = record { apply = λ w p. go (out.answers w.statements) w p }
    where
      go :
          (b : Bool) (w : State)
          → P w.sessions
          → P (answered b (λ v. let (r, us) = f v in (r, record v { users = us })) w).1.sessions
      go true w p = p
      go false w p = p

  pub write_oauths-Keeps :
      (out : Outside) (f : State → Result A × List OAuthProvider) → Keeps P (write_oauths out f)
  unfolding write_oauths
  write_oauths-Keeps out f = record { apply = λ w p. go (out.answers w.statements) w p }
    where
      go :
          (b : Bool) (w : State)
          → P w.sessions
          → P (answered b (λ v. let (r, os) = f v in (r, record v { oauths = os })) w).1.sessions
      go true w p = p
      go false w p = p

  pub write_audits-Keeps :
      (out : Outside) (f : State → Result A × List AuditLog) → Keeps P (write_audits out f)
  unfolding write_audits
  write_audits-Keeps out f = record { apply = λ w p. go (out.answers w.statements) w p }
    where
      go :
          (b : Bool) (w : State)
          → P w.sessions
          → P (answered b (λ v. let (r, ls) = f v in (r, record v { audits = ls })) w).1.sessions
      go true w p = p
      go false w p = p

  pub write_sessions-Keeps :
      (out : Outside) (f : State → Result A × Store.Store Session)
      → ((w : State) → P w.sessions → P (f w).1)
      → Keeps P (write_sessions out f)
  unfolding write_sessions
  write_sessions-Keeps out f keeps = record { apply = λ w p. go (out.answers w.statements) w p }
    where
      go :
          (b : Bool) (w : State)
          → P w.sessions
          → P (answered b (λ v. let (r, ss) = f v in (r, record v { sessions = ss })) w).1.sessions
      go true w p = keeps (record w { statements = suc w.statements }) p
      go false w p = p

  pub coded-Keeps : (f : Codes.Step A) → Keeps P (coded f)
  coded-Keeps f = record { apply = λ w p. p }

  pub bind-Keeps :
      {B : Type 0} (m : M A) (f : A → M B)
      → Keeps P m
      → ((a : A) → Keeps P (f a))
      → Keeps P (m >>= f)
  bind-Keeps m f hm hf = record { apply = λ w p. go (m w) (hm.apply w p) }
    where
      go : (r : Result A × State) → P r.1.sessions → P (resume f r).1.sessions
      go (ok a, v) p = (hf a).apply v p
      go (err e, v) p = p

module _ {A B : Type 0} {P : Property} where
  pub option-Keeps :
      (o : Option B) (m : M A) (f : B → M A)
      → Keeps P m
      → ((b : B) → Keeps P (f b))
      → Keeps P (elim o [ none ↦ m | some b ↦ f b ])
  option-Keeps none m f hm hf = hm
  option-Keeps (some b) m f hm hf = hf b

module _ {P : Property} where
  pub guard-Keeps : (b : Bool) (e : Failure) → Keeps P (guard b e)
  guard-Keeps true e = record { apply = λ w p. p }
  guard-Keeps false e = record { apply = λ w p. p }

  pub then-Keeps :
      {B : Type 0} (m : M (Unit {0})) (k : M B) → Keeps P m → Keeps P k → Keeps P (m >> k)
  then-Keeps m k hm hk = bind-Keeps m (λ _. k) hm (λ _. hk)

  pub now-Keeps : (out : Outside) → Keeps P (now out)
  now-Keeps out = record { apply = λ w p. p }

  pub draw-Keeps : Keeps P draw
  draw-Keeps = record { apply = λ w p. p }

  pub new_uuid-Keeps : (out : Outside) → Keeps P (new_uuid out)
  new_uuid-Keeps out = record { apply = λ w p. p }

pub ruleset frame_rules = (
  pure-Keeps, fail-Keeps, lift-Keeps, or_fail-Keeps, attempt-Keeps, ignore-Keeps, or_else-Keeps,
  if-Keeps, option-Keeps, query-Keeps, write_users-Keeps, write_oauths-Keeps, write_audits-Keeps,
  coded-Keeps, bind-Keeps, guard-Keeps, then-Keeps, now-Keeps, draw-Keeps, new_uuid-Keeps,
)
