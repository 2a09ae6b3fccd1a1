-- ===== src/AccessControl/Policy.antt =====
-- What the tables say of who may do what, as an access policy without rows: three relations.
use dift_backend_auth.Base.{
  ℕ, suc, ◌+◌, ◌≡◌, refl, Bool, true, false, ◌&&◌, ◌||◌, List, [], ◌∷◌, ◌++◌, Text, text_eq, ◌⊎◌,
  inl, inr, length, if◌then◌else◌, arith, Bool-cases,
}
use dift_backend_auth.AccessControl.{Permission, Event, Ambient}
use dift_backend_auth.AccessControl.Tables.{Tables, any, is_grant, is_assignment}
use dift_backend_auth.AccessControl.Service.{wildcard}

pub record Policy : Type 0 where
  pub holds : (user_id role_id tenant_id : Text) → Bool
  pub grants : (role_id permission_id : Text) → Bool
  pub names : (permission_id key : Text) → Bool

abbrev pub nothing : Policy
nothing = record { holds = λ u r t. false; grants = λ r p. false; names = λ p k. false }

abbrev pub is_named : Text → Text → Permission → Bool
is_named id key p = text_eq p.id id && text_eq p.key key

abbrev pub policy_of : Tables → Policy
policy_of t = record {
  holds = λ user role tenant. any (is_assignment user role tenant) t.user_roles;
  grants = λ role permission. any (is_grant role permission) t.role_permissions;
  names = λ permission key. any (is_named permission key) t.permissions;
}

-- What an event says happened to the policy.
abbrev pub apply_event : Event → Policy → Policy
apply_event (Event.permission_created p) policy = record policy {
  names = λ id key. policy.names id key || is_named id key p;
}
apply_event (Event.permission_granted role permission) policy = record policy {
  grants = λ r p. policy.grants r p || is_grant r p (role, permission);
}
apply_event (Event.role_assigned user role tenant) policy = record policy {
  holds = λ u r t. policy.holds u r t || (text_eq user u && text_eq role r && text_eq tenant t);
}
apply_event (Event.user_created u) policy = policy
apply_event (Event.user_activated id) policy = policy
apply_event (Event.user_locked id) policy = policy
apply_event (Event.role_created r) policy = policy

abbrev pub replay : List Event → Policy → Policy
replay [] policy = policy
replay (e ∷ es) policy = replay es (apply_event e policy)

-- A user may do what one of the user's roles in the tenant is granted, by name or by the wildcard.
pub record Allowed (policy : Policy) (user_id tenant_id key : Text) : Type 0 where
  pub role_id : Text
  pub permission_id : Text
  pub held : policy.holds user_id role_id tenant_id ≡ true
  pub granted : policy.grants role_id permission_id ≡ true
  pub named : (policy.names permission_id key ≡ true) ⊎ (policy.names permission_id wildcard ≡ true)

pub replay-append :
    (es : List Event) (e : Event) (policy : Policy)
    → replay (es ++ e ∷ []) policy ≡ apply_event e (replay es policy)
replay-append [] e policy = refl
replay-append (x ∷ es) e policy = replay-append es e (apply_event x policy)

-- One policy lets through no more than another.
pub record AtMost (p q : Policy) : Type 0 where
  pub holds : (u r t : Text) → p.holds u r t ≡ true → q.holds u r t ≡ true
  pub grants : (r i : Text) → p.grants r i ≡ true → q.grants r i ≡ true
  pub names : (i k : Text) → p.names i k ≡ true → q.names i k ≡ true

pub AtMost-refl : (p : Policy) → AtMost p p
AtMost-refl p = record { holds = λ u r t h. h; grants = λ r i h. h; names = λ i k h. h }

pub AtMost-Allowed :
    {p q : Policy} (user tenant key : Text)
    → AtMost p q
    → Allowed p user tenant key
    → Allowed q user tenant key
AtMost-Allowed user tenant key most a = record {
  role_id = a.role_id;
  permission_id = a.permission_id;
  held = most.holds _ _ _ a.held;
  granted = most.grants _ _ a.granted;
  named = elim a.named [
    | inl own ↦ inl (most.names _ _ own)
    | inr any_ ↦ inr (most.names _ _ any_)
  ];
}

or_mono : (a b c : Bool) → (a ≡ true → b ≡ true) → (a || c) ≡ true → (b || c) ≡ true
or_mono true b c h k = rw (h refl) refl
or_mono false true c h k = refl
or_mono false false c h k = k

-- An event only adds, whichever policy it meets.
pub apply_event_mono :
    (e : Event) (p q : Policy) → AtMost p q → AtMost (apply_event e p) (apply_event e q)
apply_event_mono (Event.permission_created x) p q m = record {
  holds = m.holds;
  grants = m.grants;
  names = λ i k. or_mono (p.names i k) (q.names i k) (is_named i k x) (m.names i k);
}
apply_event_mono (Event.permission_granted role permission) p q m = record {
  holds = m.holds;
  grants = λ r i. or_mono (p.grants r i) (q.grants r i) _ (m.grants r i);
  names = m.names;
}
apply_event_mono (Event.role_assigned user role tenant) p q m = record {
  holds = λ u r t. or_mono (p.holds u r t) (q.holds u r t) _ (m.holds u r t);
  grants = m.grants;
  names = m.names;
}
apply_event_mono (Event.user_created u) p q m = m
apply_event_mono (Event.user_activated id) p q m = m
apply_event_mono (Event.user_locked id) p q m = m
apply_event_mono (Event.role_created r) p q m = m

or_left : (a b : Bool) → a ≡ true → (a || b) ≡ true
or_left a b h = rw h refl

pub apply_event_adds : (e : Event) (p q : Policy) → AtMost p q → AtMost p (apply_event e q)
apply_event_adds (Event.permission_created x) p q m = record {
  holds = m.holds;
  grants = m.grants;
  names = λ i k h. or_left _ _ (m.names i k h);
}
apply_event_adds (Event.permission_granted role permission) p q m = record {
  holds = m.holds;
  grants = λ r i h. or_left _ _ (m.grants r i h);
  names = m.names;
}
apply_event_adds (Event.role_assigned user role tenant) p q m = record {
  holds = λ u r t h. or_left _ _ (m.holds u r t h);
  grants = m.grants;
  names = m.names;
}
apply_event_adds (Event.user_created u) p q m = m
apply_event_adds (Event.user_activated id) p q m = m
apply_event_adds (Event.user_locked id) p q m = m
apply_event_adds (Event.role_created r) p q m = m

-- The events of those calls of the publisher, from the k-th, that end without an error.
unfoldable pub told : Ambient → ℕ → List Event → List Event
told env k [] = []
told env k (e ∷ es) = let rest = told env (suc k) es in if env.publishes k then e ∷ rest else rest

pub told-append :
    (env : Ambient) (k : ℕ) (es : List Event) (e : Event)
    → told env k (es ++ e ∷ [])
      ≡ (if env.publishes (k + length es) then told env k es ++ e ∷ [] else told env k es)
unfolding told
told-append env k [] e = ground arith
told-append env k (x ∷ es) e = ground (arith, told-append env (suc k) es e)

-- Who hears only the published events lets through no more than who hears all.
pub replay-told :
    (env : Ambient) (k : ℕ) (es : List Event) (p q : Policy)
    → AtMost p q
    → AtMost (replay (told env k es) p) (replay es q)
unfolding told
replay-told env k [] p q m = m
replay-told env k (e ∷ es) p q m = elim (Bool-cases (env.publishes k)) [
  | inl heard ↦
      rw heard
        (replay-told env (suc k) es (apply_event e p) (apply_event e q) (apply_event_mono e p q m))
  | inr lost ↦ rw lost (replay-told env (suc k) es p (apply_event e q) (apply_event_adds e p q m))
]
