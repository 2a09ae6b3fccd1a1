-- ===== src/AccessControl/Checks.antt =====
-- `Check` decides the policy.
use dift_backend_auth.Base.{
  ◌≡◌, refl, ◌↔◌, ◌⊎◌, inl, inr, Bool, true, ◌&&◌, ◌||◌, List, [], ◌∷◌, ◌++◌, Text, text_eq,
  text_eq_iff, text_eq_refl, Bool-cases, arith,
}
use dift_backend_auth.AccessControl.{Permission, UserRole, Decision, ok, State}
use dift_backend_auth.AccessControl.Tables
use dift_backend_auth.AccessControl.Tables.{
  Tables, Database, any, is_grant, is_assignment, distinct, keys_of_permission, keys_of_role,
  keys_of_user, postgres,
}
use dift_backend_auth.AccessControl.Service
use dift_backend_auth.AccessControl.Service.{decide, tenant_or_default, wildcard}
use dift_backend_auth.AccessControl.Policy.{Policy, policy_of, is_named, Allowed}

any-append_or :
    {A : Type 0} (p : A → Bool) (xs ys : List A) → any p (xs ++ ys) ≡ (any p xs || any p ys)
any-append_or p [] ys = refl
any-append_or p (x ∷ xs) ys = ground (arith, any-append_or p xs ys)

-- A text that passes a test and is in a list.
any-text_eq :
    (p : Text → Bool) (k : Text) (ks : List Text)
    → any (text_eq k) ks ≡ true
    → p k ≡ true
    → any p ks ≡ true
any-text_eq p k [] h passes = absurd cc
any-text_eq p k (j ∷ ks) h passes = elim (Bool-cases (text_eq k j)) [
  | inl same ↦
      let e : k ≡ j = (text_eq_iff k j).0 same in
      let at_j : p j ≡ true = rw (← e) passes in rw at_j refl
  | inr other ↦ ground (arith, any-text_eq p k ks)
]

decide-any :
    (all ps : List Text) (key : Text)
    → (decide all ps key).allowed ≡ any (λ k. text_eq k key || text_eq k wildcard) ps
unfolding decide
decide-any all [] key = refl
decide-any all (p ∷ ps) key = ground (arith, decide-any all ps key)

any-distinct : (p : Text → Bool) (ks : List Text) → any p (distinct ks) ≡ any p ks
unfolding distinct
any-distinct p [] = refl
any-distinct p (k ∷ ks) = ground (arith, any-distinct p ks, any-text_eq p k (distinct ks))

-- The joins, row by row, from what they give and back.
module _ (p : Text → Bool) where
  permission-found :
      (ps : List Permission) (id : Text)
      → any p (keys_of_permission ps id) ≡ true
      → (key : Text) × (any (is_named id key) ps ≡ true) × (p key ≡ true)
  permission-found [] id h = absurd cc
  permission-found (q ∷ ps) id h = elim (Bool-cases (text_eq q.id id && p q.key)) [
    | inl row ↦ (q.key, ground (arith, text_eq_refl q.key), ground arith)
    | inr other ↦
        let (key, named, passes) = permission-found ps id (ground arith) in
        (key, ground arith, passes)
  ]

  permission-of :
      (ps : List Permission) (id key : Text)
      → any (is_named id key) ps ≡ true
      → p key ≡ true
      → any p (keys_of_permission ps id) ≡ true
  permission-of [] id key h passes = absurd cc
  permission-of (q ∷ ps) id key h passes = elim (Bool-cases (is_named id key q)) [
    | inl row ↦
        let e : q.key ≡ key = (text_eq_iff q.key key).0 (ground arith) in
        let at_q : p q.key ≡ true = rw e passes in ground arith
    | inr other ↦ ground (arith, permission-of ps id key)
  ]

  role-found :
      (ps : List Permission) (gs : List (Text × Text)) (role : Text)
      → any p (keys_of_role ps gs role) ≡ true
      → (id : Text) × (any (is_grant role id) gs ≡ true) × (any p (keys_of_permission ps id) ≡ true)
  role-found ps [] role h = absurd cc
  role-found ps ((r, i) ∷ gs) role h =
      elim (Bool-cases (text_eq r role && any p (keys_of_permission ps i))) [
        | inl row ↦ (i, ground (arith, text_eq_refl i), ground arith)
        | inr other ↦
            let (id, granted, passes) = role-found ps gs role (
              ground
                (arith, any-append_or p (keys_of_permission ps i) (keys_of_role ps gs role))) in
            (id, ground arith, passes)
      ]

  role-of :
      (ps : List Permission) (gs : List (Text × Text)) (role id : Text)
      → any (is_grant role id) gs ≡ true
      → any p (keys_of_permission ps id) ≡ true
      → any p (keys_of_role ps gs role) ≡ true
  role-of ps [] role id h passes = absurd cc
  role-of ps ((r, i) ∷ gs) role id h passes = elim (Bool-cases (is_grant role id (r, i))) [
    | inl row ↦
        let e : i ≡ id = (text_eq_iff i id).0 (ground arith) in
        let at_i : any p (keys_of_permission ps i) ≡ true = rw e passes in
        ground (arith, any-append_or p (keys_of_permission ps i) (keys_of_role ps gs role))
    | inr other ↦ ground (
      arith,
      role-of ps gs role id,
      any-append_or p (keys_of_permission ps i) (keys_of_role ps gs role),
    )
  ]

  user-found :
      (ps : List Permission) (gs : List (Text × Text)) (us : List UserRole) (user tenant : Text)
      → any p (keys_of_user ps gs us user tenant) ≡ true
      → (role : Text) × (any (is_assignment user role tenant) us ≡ true)
        × (any p (keys_of_role ps gs role) ≡ true)
  user-found ps gs [] user tenant h = absurd cc
  user-found ps gs (a ∷ us) user tenant h =
      elim (Bool-cases (
        text_eq a.user_id user
        && text_eq a.tenant_id tenant
        && any p (keys_of_role ps gs a.role_id))) [
          | inl row ↦ (a.role_id, ground (arith, text_eq_refl a.role_id), ground arith)
          | inr other ↦
              let (role, held, passes) = user-found ps gs us user tenant (
                ground (
                  arith,
                  any-append_or p (keys_of_role ps gs a.role_id)
                      (keys_of_user ps gs us user tenant),
                )) in
              (role, ground arith, passes)
        ]

  user-of :
      (ps : List Permission) (gs : List (Text × Text)) (us : List UserRole)
      (user role tenant : Text)
      → any (is_assignment user role tenant) us ≡ true
      → any p (keys_of_role ps gs role) ≡ true
      → any p (keys_of_user ps gs us user tenant) ≡ true
  user-of ps gs [] user role tenant h passes = absurd cc
  user-of ps gs (a ∷ us) user role tenant h passes =
      elim (Bool-cases (is_assignment user role tenant a)) [
        | inl row ↦
            let e : a.role_id ≡ role = (text_eq_iff a.role_id role).0 (ground arith) in
            let at_a : any p (keys_of_role ps gs a.role_id) ≡ true = rw e passes in
            ground (
              arith,
              any-append_or p (keys_of_role ps gs a.role_id) (keys_of_user ps gs us user tenant),
            )
        | inr other ↦ ground (
          arith,
          user-of ps gs us user role tenant,
          any-append_or p (keys_of_role ps gs a.role_id) (keys_of_user ps gs us user tenant),
        )
      ]

abbrev pub matches : Text → Text → Bool
matches key k = text_eq k key || text_eq k wildcard

matches_iff :
    (policy : Policy) (id key k : Text)
    → policy.names id k ≡ true
    → matches key k ≡ true
    → (policy.names id key ≡ true) ⊎ (policy.names id wildcard ≡ true)
matches_iff policy id key k named h = elim (Bool-cases (text_eq k key)) [
  | inl same ↦ inl (rw (← (text_eq_iff k key).0 same) named)
  | inr other ↦ inr (rw (← (text_eq_iff k wildcard).0 (ground arith)) named)
]

-- What the joins give, as the policy sees it.
joined_iff :
    (t : Tables) (user tenant key : Text)
    → (any (matches key) (keys_of_user t.permissions t.role_permissions t.user_roles user tenant)
        ≡ true)
      ↔ Allowed (policy_of t) user tenant key
joined_iff t user tenant key = (forward, backward)
  where
    forward :
        any (matches key) (keys_of_user t.permissions t.role_permissions t.user_roles user tenant)
          ≡ true
        → Allowed (policy_of t) user tenant key
    forward h =
        let (role, held, at_role) =
          user-found (matches key) t.permissions t.role_permissions t.user_roles user tenant h in
        let (id, granted, at_id) =
          role-found (matches key) t.permissions t.role_permissions role at_role in
        let (k, named, passes) = permission-found (matches key) t.permissions id at_id in
        record {
          role_id = role;
          permission_id = id;
          held = held;
          granted = granted;
          named = matches_iff (policy_of t) id key k named passes;
        }

    named_key :
        (id : Text)
        → (any (is_named id key) t.permissions ≡ true)
          ⊎ (any (is_named id wildcard) t.permissions ≡ true)
        → any (matches key) (keys_of_permission t.permissions id) ≡ true
    named_key id (inl by_name) =
        permission-of (matches key) t.permissions id key by_name (ground (arith, text_eq_refl key))
    named_key id (inr by_wildcard) =
        permission-of (matches key) t.permissions id wildcard by_wildcard
          (ground (arith, text_eq_refl wildcard))

    backward :
        Allowed (policy_of t) user tenant key
        → any (matches key) (keys_of_user t.permissions t.role_permissions t.user_roles user tenant)
          ≡ true
    backward a =
        user-of (matches key) t.permissions t.role_permissions t.user_roles user a.role_id tenant
          a.held
          (role-of (matches key) t.permissions t.role_permissions a.role_id a.permission_id
            a.granted (named_key a.permission_id a.named))

-- Where the database is reached, a check allows exactly what the policy of the tables allows: one of
-- the user's roles in the tenant, the default one where none is given, is granted a permission that
-- has the key or is the wildcard.
pub check-Allowed :
    (db : Database) (user tenant key : Text) (w : State Tables)
    → db.reached w.store.statements ≡ true
    → (d : Decision) × ((Service.check (postgres db) user tenant key w).0 ≡ ok d)
      × ((d.allowed ≡ true) ↔ Allowed (policy_of w.store) user (tenant_or_default tenant) key)
unfolding Service.check Tables.user_permissions
check-Allowed db user tenant key w up =
    let t = w.store in
    let joined =
      keys_of_user t.permissions t.role_permissions t.user_roles user (tenant_or_default tenant) in
    let all = distinct joined in
    (
      decide all all key,
      rw up refl,
      rw (decide-any all all key, any-distinct (matches key) joined)
          (joined_iff t user (tenant_or_default tenant) key),
    )
