-- ===== src/Legacy/Engine/Sessions.antt =====
-- internal/repository/session.go.
use dift_backend_auth.Base.{
  ℕ, ◌+◌, Bool, false, not, ◌&&◌, ◌||◌, none, some, List, ltb, leb, length, if◌then◌else◌, Text,
  text_eq,
}
use dift_backend_auth.Store
use dift_backend_auth.AccessControl.Tables.{sort_by}
use dift_backend_auth.Legacy.Engine.{Session, Outside, ok, err, M, ◌>>=◌, conflict, now}
use dift_backend_auth.Legacy.Engine.Tables.{query, write_sessions, found, first, only_if}

unfoldable pub create : Outside → Session → M (Unit {0})
create out s = write_sessions out λ w. elim (Store.get s.id w.sessions) [
  | some v ↦ (err conflict, w.sessions)
  | none ↦ (ok tt, Store.put s.id s w.sessions)
]

abbrev pub active : Session → Bool
active s = s.is_active

unfoldable pub get_by_id : Outside → Text → M Session
get_by_id out id = query out λ w. found (only_if active (Store.get id w.sessions))

unfoldable pub get_by_refresh_token : Outside → Text → M Session
get_by_refresh_token out token = query out λ w. first (
    sort_by (λ (s t : Session). out.precedes s.id t.id)
      (Store.select (λ s. text_eq s.refresh_token token && s.is_active) w.sessions))

abbrev pub live_of : Text → ℕ → Session → Bool
live_of user t s = text_eq s.user_id user && (s.is_active && ltb t s.expires_at)

unfoldable pub list_by_user : Outside → Text → M (List Session)
list_by_user out user = do
  t ← now out
  query out λ w. ok (
      sort_by (λ (r s : Session). leb s.last_seen_at r.last_seen_at)
        (Store.select (live_of user t) w.sessions))

abbrev pub end : Session → Session
end s = record s { is_active = false }

abbrev pub seen_at : ℕ → Session → Session
seen_at t s = record s { last_seen_at = t }

abbrev pub change_if : (Session → Bool) → (Session → Session) → Session → Session
change_if p f s = if p s then f s else s

abbrev pub change : Outside → (Session → Bool) → (Session → Session) → M (Unit {0})
change out p f = write_sessions out λ w. (ok tt, Store.update_all (change_if p f) w.sessions)

unfoldable pub revoke : Outside → Text → M (Unit {0})
revoke out id = change out (λ s. text_eq s.id id) end

unfoldable pub revoke_all : Outside → Text → M (Unit {0})
revoke_all out user = change out (λ s. text_eq s.user_id user) end

unfoldable pub touch : Outside → Text → M (Unit {0})
touch out id = do t ← now out; change out (λ s. text_eq s.id id) (seen_at t)

unfoldable pub count_active : Outside → Text → M ℕ
count_active out user = do
  t ← now out
  query out λ w. ok (length (Store.select (live_of user t) w.sessions))

-- A day, in nanoseconds.
abbrev pub day : ℕ
day = 86400000000000

abbrev pub is_over : ℕ → Session → Bool
is_over t s = ltb (s.expires_at + day) t || not s.is_active

unfoldable pub cleanup_expired : Outside → M ℕ
cleanup_expired out = do
  t ← now out
  write_sessions out λ w.
      (ok (length (Store.select (is_over t) w.sessions)), Store.delete_where (is_over t) w.sessions)
