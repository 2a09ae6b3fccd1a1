-- ===== src/Legacy/Engine/Trail.antt =====
-- `AuditRepository.Log` of internal/repository/stores.go.
use dift_backend_auth.Base.{[], ◌∷◌, ◌++◌}
use dift_backend_auth.Legacy.Engine.{AuditLog, Outside, ok, M}
use dift_backend_auth.Legacy.Engine.Tables.{write_audits}

unfoldable pub log : Outside → AuditLog → M (Unit {0})
log out l = write_audits out λ w. (ok tt, w.audits ++ l ∷ [])
