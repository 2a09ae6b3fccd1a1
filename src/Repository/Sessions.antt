-- ===== src/Repository/Sessions.antt =====
-- `inMemorySessionRepo`. An absent session is a nil pointer and no error.
use dift_backend_auth.Base.{Option, Text, text_eq, if◌then◌else◌}
use dift_backend_auth.Store
use dift_backend_auth.Domain.{Session, SessionStatus}
use dift_backend_auth.Runtime.{World, M, gets, modify}

abbrev pub set_sessions : (Store.Store Session → Store.Store Session) → World → World
set_sessions f w = record w { db = record w.db { sessions = f w.db.sessions } }

unfoldable pub get_by_id : Text → M (Option Session)
get_by_id id = gets (λ w. Store.get id w.db.sessions)

unfoldable pub store : Session → M (Unit {0})
store session = modify (set_sessions (Store.put session.id session))

unfoldable pub update : Session → M (Unit {0})
update session = modify (set_sessions (Store.put session.id session))

-- What the two loops do to each session.
abbrev pub mark_family : Text → SessionStatus → Session → Session
mark_family family status s =
    if text_eq s.token_family family then record s { status = status } else s

abbrev pub mark_user : Text → Session → Session
mark_user user_id s =
    if text_eq s.user_id user_id then record s { status = SessionStatus.revoked } else s

unfoldable pub revoke_family : Text → SessionStatus → M (Unit {0})
revoke_family family status = modify (set_sessions (Store.update_all (mark_family family status)))

unfoldable pub revoke_all_by_user : Text → M (Unit {0})
revoke_all_by_user user_id = modify (set_sessions (Store.update_all (mark_user user_id)))
