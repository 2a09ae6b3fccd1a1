-- ===== src/Tests/Access.antt =====
-- Requests to the access-control service, from an empty database.
use dift_backend_auth.Base.{
  ◌≡◌, ◌↔◌, refl, true, false, Bool, not, ◌==◌, length, List, [], ◌∷◌, codes,
}
use dift_backend_auth.AccessControl.{Ambient, State, Decision, Result, ok, err}
use dift_backend_auth.AccessControl.Tables.{Tables, Database, postgres}
use dift_backend_auth.AccessControl.Service
use dift_backend_auth.AccessControl.Service.{tenant_or_default}
use dift_backend_auth.AccessControl.Policy.{Allowed, nothing, policy_of, replay, told}
use dift_backend_auth.AccessControl.Checks.{check-Allowed}
use dift_backend_auth.AccessControl.Refinement.{Tracked, served-Allowed}
use dift_backend_auth.AccessControl.Router.{Endpoint, Request, serve, serve_all}
use dift_backend_auth.AccessControl.Events.{IsTold, serve-IsTold}
use dift_backend_auth.Tests.Program.{program}

abbrev database : Database
database = record { reached = λ k. true; now = λ k. k; precedes = λ a b. true }

-- The publisher loses the third event.
abbrev ambient : Ambient
ambient = record { uuid = λ k. k ∷ []; clock = λ k. k; publishes = λ k. not (k == 2) }

abbrev empty : State Tables
empty = record {
  store = record {
    users = [];
    roles = [];
    permissions = [];
    role_permissions = [];
    user_roles = [];
    statements = 0;
  };
  offered = [];
  events = [];
  ids = 0;
  reads = 0;
}

abbrev request : Endpoint → Request
request e = record { request_id = codes "x"; endpoint = e }

-- A role with a permission, for a user in the default tenant.
abbrev requests : List Request
requests =
    request (Endpoint.create_role (codes " admin ") [])
    ∷ request (Endpoint.create_permission (codes "read") (codes "r") (codes "a") [])
    ∷ request (Endpoint.grant (0 ∷ []) (1 ∷ []))
    ∷ request (Endpoint.assign (codes "u") (0 ∷ []) [])
    ∷ []

abbrev served : State Tables
served = serve_all (postgres database) [] requests ambient empty

abbrev is_allowed : Result Decision → Bool
is_allowed (ok d) = d.allowed
is_allowed (err e) = false

check-run :
    is_allowed (Service.check (postgres database) (codes "u") [] (codes "read") served).0 ≡ true
unfolding program
check-run = refl

check-run_other :
    is_allowed (Service.check (postgres database) (codes "u") (codes "t") (codes "read") served).0
    ≡ false
unfolding program
check-run_other = refl

check-Allowed_example :
    (d : Decision) × ((Service.check (postgres database) (codes "u") [] (codes "read") served).0
      ≡ ok d)
    × ((d.allowed ≡ true)
        ↔ Allowed (policy_of served.store) (codes "u") (tenant_or_default []) (codes "read"))
check-Allowed_example = check-Allowed database (codes "u") [] (codes "read") served refl

empty-Tracked : Tracked ambient empty
unfolding told
empty-Tracked = record { policy = refl; heard = refl }

-- The grant of the permission is not heard of.
served-heard : length served.events ≡ 3
unfolding program
served-heard = refl

served-Allowed_example :
    (d : Decision) × ((Service.check (postgres database) (codes "u") [] (codes "read") served).0
      ≡ ok d)
    × ((d.allowed ≡ true)
        ↔ Allowed (replay served.offered nothing) (codes "u") (tenant_or_default []) (codes "read"))
    × (served.events ≡ told ambient 0 served.offered)
    × (Allowed (replay served.events nothing) (codes "u") (tenant_or_default []) (codes "read")
        → d.allowed ≡ true)
served-Allowed_example =
    served-Allowed database [] ambient requests empty (codes "u") [] (codes "read") empty-Tracked
      refl

serve-IsTold_example :
    IsTold
      (serve
        (postgres database)
        []
        (request (Endpoint.lock_user (codes "u")))
        ambient
        served).0.code
      served.events
      (serve
        (postgres database)
        []
        (request (Endpoint.lock_user (codes "u")))
        ambient
        served).1.events
serve-IsTold_example =
    serve-IsTold (postgres database) [] ambient (request (Endpoint.lock_user (codes "u"))) served
