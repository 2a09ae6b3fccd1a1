-- ===== src/Repository/Audits.antt =====
-- `inMemoryAuditRepo` and `paginate`, on Go's `int`.
pub mod Paging
use dift_backend_auth.Base.{
  ℕ, ◌-◌, List, [], ◌∷◌, ◌++◌, leb, ◌&&◌, if◌then◌else◌, length, take, drop, Text, text_eq,
}
use dift_backend_auth.Base.Int.{ℤ, pos, negsuc, ◌+ℤ◌, ltb_ℤ, leb_ℤ}
use dift_backend_auth.Base.Words.{wrap64}
use dift_backend_auth.Domain.{AuditLog}
use dift_backend_auth.Runtime.{World, Outcome, ok, panic, M, ◌>>=◌, gets, modify}

-- `xs[a:b]` on a slice whose capacity is its length.
abbrev pub slice : {A : Type 0} → List A → ℤ → ℤ → Outcome (List A)
slice xs (pos a) (pos b) =
    if leb a b && leb b (length xs) then ok (take (b - a) (drop a xs)) else panic
slice xs (pos a) (negsuc b) = panic
slice xs (negsuc a) b = panic

unfoldable pub paginate : {A : Type 0} → List A → ℤ → ℤ → Outcome (List A)
paginate logs limit offset =
    let n = pos (length logs) in
    let end = wrap64 (offset +ℤ limit) in
    if leb_ℤ n offset then ok [] else slice logs offset (if ltb_ℤ n end then n else end)

abbrev pub lift : {A : Type 0} → Outcome A → M A
lift r env w = (r, w)

-- The filter in `GetByUser`.
unfoldable pub of_user : Text → List AuditLog → List AuditLog
of_user user_id [] = []
of_user user_id (l ∷ ls) =
    let rest = of_user user_id ls in if text_eq l.user_id user_id then l ∷ rest else rest

unfoldable pub store : AuditLog → M (Unit {0})
store log = modify (λ w. record w { audits = w.audits ++ log ∷ [] })

unfoldable pub get_by_user : Text → ℤ → ℤ → M (List AuditLog)
unfolding paginate of_user
get_by_user user_id limit offset = do
  logs ← gets (λ w. of_user user_id w.audits)
  lift (paginate logs limit offset)

unfoldable pub get_all : ℤ → ℤ → M (List AuditLog)
unfolding paginate
get_all limit offset = do logs ← gets (λ w. w.audits); lift (paginate logs limit offset)
