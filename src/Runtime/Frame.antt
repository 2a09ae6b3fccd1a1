-- ===== src/Runtime/Frame.antt =====
-- Calls whose effect on the state lies within a relation, by rules for the monad. A relation that
-- holds of no change, that composes, and that does not look at the clock and the random source
-- passes from the steps of a call to the call.
use dift_backend_auth.Base.{
  ℕ, ◌≡◌, refl, ap, ◌∙◌, Bool, true, false, Option, none, some, if◌then◌else◌,
}
use dift_backend_auth.Runtime.{
  Env, World, Outcome, ok, err, panic, Error, M, pure, resume, handled, fail, crash, ◌>>=◌, ◌>>◌,
  ask, gets, now, read_random, guard, or_fail, attempt, ignore, on_error,
}

pub record IsFrame (R : World → World → Type 0) : Type 0 where
  pub refl : (w : World) → R w w
  pub trans : (u v w : World) → R u v → R v w → R u w
  pub reads : (w : World) (n : ℕ) → R w (record w { reads = n })
  pub draws : (w : World) (n : ℕ) → R w (record w { draws = n })

pub record Within {A : Type 0} (R : World → World → Type 0) (m : M A) : Type 0 where
  pub apply : (env : Env) (w : World) → R w (m env w).1

module _ {A : Type 0} {R : World → World → Type 0} (frame : IsFrame R) where
  pub pure-Within : (a : A) → Within R (pure a)
  pure-Within a = record { apply = λ env w. frame.refl w }

  pub fail-Within : (e : Error) → Within R (fail {A = A} e)
  fail-Within e = record { apply = λ env w. frame.refl w }

  pub crash-Within : Within R (crash {A = A})
  crash-Within = record { apply = λ env w. frame.refl w }

  pub gets-Within : (f : World → A) → Within R (gets f)
  gets-Within f = record { apply = λ env w. frame.refl w }

  pub or_fail-Within : (o : Option A) (e : Error) → Within R (or_fail o e)
  or_fail-Within none e = record { apply = λ env w. frame.refl w }
  or_fail-Within (some a) e = record { apply = λ env w. frame.refl w }

  pub if-Within : (b : Bool) (m k : M A) → Within R m → Within R k → Within R (if b then m else k)
  if-Within true m k hm hk = hm
  if-Within false m k hm hk = hk

  pub ignore-Within : (m : M A) → Within R m → Within R (ignore m)
  ignore-Within m h = record { apply = λ env w. h.apply env w }

  pub attempt-Within : (m : M A) → Within R m → Within R (attempt m)
  attempt-Within m h = record { apply = λ env w. h.apply env w }

  pub on_error-Within :
      (m : M A) (h : Error → M A)
      → Within R m
      → ((e : Error) → Within R (h e))
      → Within R (on_error m h)
  on_error-Within m h hm hh = record {
    apply = λ env w. go env (m env w).0 (m env w).1 w (hm.apply env w);
  }
    where
      go : (env : Env) (r : Outcome A) (w' w : World) → R w w' → R w (handled h env r w').1
      go env (ok a) w' w k = k
      go env (err e) w' w k = frame.trans w w' _ k ((hh e).apply env w')
      go env panic w' w k = k

  pub bind-Within :
      {B : Type 0} (m : M A) (f : A → M B)
      → Within R m
      → ((a : A) → Within R (f a))
      → Within R (m >>= f)
  bind-Within m f hm hf = record {
    apply = λ env w. go env (m env w).0 (m env w).1 w (hm.apply env w);
  }
    where
      go : (env : Env) (r : Outcome A) (w' w : World) → R w w' → R w (resume f env r w').1
      go env (ok a) w' w k = frame.trans w w' _ k ((hf a).apply env w')
      go env (err e) w' w k = k
      go env panic w' w k = k

module _ {R : World → World → Type 0} (frame : IsFrame R) where
  pub ask-Within : Within R ask
  ask-Within = record { apply = λ env w. frame.refl w }

  pub now-Within : Within R now
  now-Within = record { apply = λ env w. frame.reads w _ }

  pub read_random-Within : (n : ℕ) → Within R (read_random n)
  read_random-Within n = record { apply = λ env w. frame.draws w _ }

  pub guard-Within : (b : Bool) (e : Error) → Within R (guard b e)
  guard-Within true e = record { apply = λ env w. frame.refl w }
  guard-Within false e = record { apply = λ env w. frame.refl w }

  pub then-Within :
      {B : Type 0} (m : M (Unit {0})) (k : M B) → Within R m → Within R k → Within R (m >> k)
  then-Within m k hm hk = bind-Within frame m (λ _. k) hm (λ _. hk)

pub ruleset frame_rules = (
  pure-Within, fail-Within, crash-Within, gets-Within, or_fail-Within, if-Within, ignore-Within,
  attempt-Within, on_error-Within, bind-Within, ask-Within, now-Within, read_random-Within,
  guard-Within, then-Within,
)

-- The repositories other than the audit log stay as they are.
abbrev pub SameDb : World → World → Type 0
SameDb w w' = w'.db ≡ w.db

pub SameDb-IsFrame : IsFrame SameDb
SameDb-IsFrame = record {
  refl = λ w. refl;
  trans = λ u v w h k. k ∙ h;
  reads = λ w n. refl;
  draws = λ w n. refl;
}

abbrev pub KeepsDb : {A : Type 0} → M A → Type 0
KeepsDb m = Within SameDb m

pub ruleset db_rules = (frame_rules, SameDb-IsFrame)

-- The challenges stay as they are.
abbrev pub SameChallenges : World → World → Type 0
SameChallenges w w' = w'.db.challenges ≡ w.db.challenges

pub SameChallenges-IsFrame : IsFrame SameChallenges
SameChallenges-IsFrame = record {
  refl = λ w. refl;
  trans = λ u v w h k. k ∙ h;
  reads = λ w n. refl;
  draws = λ w n. refl;
}

pub KeepsDb-SameChallenges : {A : Type 0} (m : M A) → KeepsDb m → Within SameChallenges m
KeepsDb-SameChallenges m h = record { apply = λ env w. ap (λ db. db.challenges) (h.apply env w) }
