-- ===== src/Audit.antt =====
-- `AuditService` of auth-service-main/biometric-auth/internal/service/audit.go.
use dift_backend_auth.Base.{◌≡◌, List, [], Text, is_empty, if◌then◌else◌, arith}
use dift_backend_auth.Base.Int.{ℤ}
use dift_backend_auth.Domain.{AuditLog, AuditAction, AuditResult}
use dift_backend_auth.Runtime.{Env, World, ok, M, ◌>>=◌, pure, now, ignore}
use dift_backend_auth.Runtime.Frame.{KeepsDb}
use dift_backend_auth.Repository.Audits
use dift_backend_auth.Crypto.{secure_hex}

-- A record with the fields that every caller gives; the others are empty.
abbrev pub entry : Text → Text → AuditAction → AuditResult → AuditLog
entry user_id device_id action result = record {
  id = [];
  user_id = user_id;
  device_id = device_id;
  session_id = [];
  action = action;
  result = result;
  ip_address = [];
  user_agent = [];
  risk_score = 0;
  created_at = 0;
}

unfoldable pub log : AuditLog → M (Unit {0})
unfolding secure_hex Audits.store
log l = do
  id ← if is_empty l.id then secure_hex 8 else pure l.id
  t ← now
  Audits.store (record l { id = id; created_at = t })

-- `_ = s.auditSvc.Log(…)`, as every caller has it.
unfoldable pub audit : AuditLog → M (Unit {0})
unfolding log
audit l = ignore (log l)

unfoldable pub get_logs : Text → ℤ → ℤ → M (List AuditLog)
get_logs user_id limit offset = Audits.get_by_user user_id limit offset

unfoldable pub get_all_logs : ℤ → ℤ → M (List AuditLog)
get_all_logs limit offset = Audits.get_all limit offset

-- Logging neither fails a caller nor touches what the other repositories hold.
pub audit-ok : (l : AuditLog) (env : Env) (w : World) → (audit l env w).0 ≡ ok tt
unfolding audit
audit-ok l env w = ground arith

pub audit-db : (l : AuditLog) (env : Env) (w : World) → (audit l env w).1.db ≡ w.db
unfolding audit
audit-db l env w = ground arith

pub audit-KeepsDb : (l : AuditLog) → KeepsDb (audit l)
audit-KeepsDb l = record { apply = audit-db l }
