-- ===== src/Legacy/Engine/Links.antt =====
-- `OAuthRepository` of internal/repository/stores.go.
use dift_backend_auth.Base.{
  Bool, ◌&&◌, Option, none, some, List, [], ◌∷◌, if◌then◌else◌, Text, text_eq,
}
use dift_backend_auth.Legacy.Engine.{OAuthProvider, Outside, ok, err, M, conflict}
use dift_backend_auth.Legacy.Engine.Tables.{query, write_oauths, found}

abbrev pub is_link : (provider uid : Text) → OAuthProvider → Bool
is_link provider uid o = text_eq o.provider provider && text_eq o.provider_uid uid

unfoldable pub find_link : (provider uid : Text) → List OAuthProvider → Option OAuthProvider
find_link provider uid [] = none
find_link provider uid (o ∷ os) =
    let rest = find_link provider uid os in if is_link provider uid o then some o else rest

unfoldable pub create : Outside → OAuthProvider → M (Unit {0})
create out o = write_oauths out λ w. elim (find_link o.provider o.provider_uid w.oauths) [
  | some p ↦ (err conflict, w.oauths)
  | none ↦ (ok tt, o ∷ w.oauths)
]

unfoldable pub get_by_provider : Outside → (provider uid : Text) → M OAuthProvider
get_by_provider out provider uid = query out λ w. found (find_link provider uid w.oauths)
