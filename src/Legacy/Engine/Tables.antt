-- ===== src/Legacy/Engine/Tables.antt =====
-- What the repositories of the earlier engine share: a statement, and the first row that passes.
use dift_backend_auth.Base.{
  suc, Bool, true, false, ◌&&◌, Option, none, some, List, [], ◌∷◌, if◌then◌else◌, Text, text_eq,
}
use dift_backend_auth.Store
use dift_backend_auth.AccessControl.Tables.{sort_by}
use dift_backend_auth.Legacy.Engine.{
  User, Session, OAuthProvider, AuditLog, Outside, State, Result, ok, err, M, not_found,
  unavailable,
}

-- A statement that the database does not answer changes nothing.
abbrev pub answered : {A : Type 0} → Bool → M A → M A
answered true f w = f (record w { statements = suc w.statements })
answered false f w = (err unavailable, record w { statements = suc w.statements })

abbrev pub statement : {A : Type 0} → Outside → M A → M A
statement out f w = answered (out.answers w.statements) f w

-- A statement that reads, and statements that write one table.
unfoldable pub query : {A : Type 0} → Outside → (State → Result A) → M A
query out f = statement out (λ w. (f w, w))

unfoldable pub write_users : {A : Type 0} → Outside → (State → Result A × Store.Store User) → M A
write_users out f = statement out (λ w. let (r, us) = f w in (r, record w { users = us }))

unfoldable pub write_sessions :
    {A : Type 0} → Outside → (State → Result A × Store.Store Session) → M A
write_sessions out f = statement out (λ w. let (r, ss) = f w in (r, record w { sessions = ss }))

unfoldable pub write_oauths : {A : Type 0} → Outside → (State → Result A × List OAuthProvider) → M A
write_oauths out f = statement out (λ w. let (r, os) = f w in (r, record w { oauths = os }))

unfoldable pub write_audits : {A : Type 0} → Outside → (State → Result A × List AuditLog) → M A
write_audits out f = statement out (λ w. let (r, ls) = f w in (r, record w { audits = ls }))

abbrev pub is_at : Text → Option Text → Bool
is_at t none = false
is_at t (some s) = text_eq s t

abbrev pub is_kept : User → Bool
is_kept u = elim u.deleted_at [ none ↦ true | some t ↦ false ]

abbrev pub found : {A : Type 0} → Option A → Result A
found none = err not_found
found (some a) = ok a

abbrev pub first : {A : Type 0} → List A → Result A
first [] = err not_found
first (x ∷ xs) = ok x

abbrev pub only_if : {A : Type 0} → (A → Bool) → Option A → Option A
only_if p none = none
only_if p (some a) = if p a then some a else none

-- The first by its primary key of those that pass a test.
abbrev pub first_user : Outside → (User → Bool) → State → Result User
first_user out p w = first (
    sort_by (λ (u v : User). out.precedes u.id v.id) (Store.select (λ u. p u && is_kept u) w.users))
