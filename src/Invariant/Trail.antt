-- ===== src/Invariant/Trail.antt =====
-- The audit log only grows.
use dift_backend_auth.Base.{◌≡◌, refl, sym, ap, ◌∙◌, List, [], ◌∷◌, ◌++◌}
use mathlib.Core.List.{append_assoc, append-nil}
use dift_backend_auth.Runtime.{Env, World}
use dift_backend_auth.Runtime.Frame.{IsFrame}
use dift_backend_auth.Invariant.{IsKept}
use dift_backend_auth.Invariant.Reachable.{Reaches, Reaches-kept}

-- One log begins like another.
pub data Extends {A : Type 0} : List A → List A → Type 0 where
  by : {old new : List A} → (added : List A) → old ++ added ≡ new → Extends old new

abbrev pub Grows : World → World → Type 0
Grows w w' = Extends w.audits w'.audits

Extends-trans : {A : Type 0} {a b c : List A} → Extends a b → Extends b c → Extends a c
Extends-trans {a = a} (by x e) (by y f) =
    by (x ++ y) (sym (append_assoc a x y) ∙ ap (λ l. l ++ y) e ∙ f)

Extends-refl : {A : Type 0} (a : List A) → Extends a a
Extends-refl a = by [] (append-nil a)

Grows-IsFrame : IsFrame Grows
Grows-IsFrame = record {
  refl = λ w. Extends-refl w.audits;
  trans = λ u v w h k. Extends-trans h k;
  reads = λ w n. Extends-refl w.audits;
  draws = λ w n. Extends-refl w.audits;
}

pub Grows-IsKept : IsKept Grows
Grows-IsKept = record {
  frame = Grows-IsFrame;
  user = λ u. record { apply = λ env w. Extends-refl w.audits };
  device = λ d. record { apply = λ env w. Extends-refl w.audits };
  session = λ s. record { apply = λ env w. Extends-refl w.audits };
  family = λ f status. record { apply = λ env w. Extends-refl w.audits };
  of_user = λ u. record { apply = λ env w. Extends-refl w.audits };
  challenge = λ c. record { apply = λ env w. Extends-refl w.audits };
  log = λ l. record { apply = λ env w. by (l ∷ []) refl };
}

-- No call changes or removes a record of the audit log: the log of a state that calls reach begins
-- with the log they started from.
pub Reaches-Extends : (env : Env) (u w : World) → Reaches env u w → Extends u.audits w.audits
Reaches-Extends env u w r = Reaches-kept Grows-IsKept env r
