-- ===== src/AccessControl/Router.antt =====
-- internal/adapter/http of access-control-service: the handlers and routes, and the middlewares
-- that set headers. The handler's time limit and the decoding of JSON are the libraries'.
use dift_backend_auth.Base.{
  ℕ, suc, not, ◌&&◌, Option, none, some, List, [], ◌∷◌, Text, codes, text_eq, is_empty,
  if◌then◌else◌,
}
use dift_backend_auth.Base.Int.{ℤ}
use dift_backend_auth.AccessControl.{
  User, Role, Permission, Decision, Failure, Result, ok, err, Repository, Ambient, State,
}
use dift_backend_auth.Base.Ascii.{trim_space}
use dift_backend_auth.AccessControl.Service
use dift_backend_auth.AccessControl.Service.{CreateUserCommand}

-- The route that a request matches, with the parts of the path, the query and the body that its
-- handler reads. A body that does not decode is `none` where the handler looks at the error.
pub data Endpoint : Type 0 where
  healthz : Endpoint
  create_user : Option CreateUserCommand → Endpoint
  list_users : (limit offset : ℤ) → Endpoint
  get_user activate_user lock_user : Text → Endpoint
  create_role : (name description : Text) → Endpoint
  list_roles : Endpoint
  create_permission : (key resource action description : Text) → Endpoint
  grant : (role_id permission_id : Text) → Endpoint
  assign : (user_id role_id tenant_id : Text) → Endpoint
  check : (user_id tenant_id key : Text) → Endpoint
  -- the header X-Admin-Secret, and the action, empty where it is no string
  admin_control : Text → Option Text → Endpoint

pub record Request : Type 0 where
  pub request_id : Text
  pub endpoint : Endpoint

pub data Body : Type 0 where
  error : Text → Body
  failure : Failure → Body
  status : Text → Body
  user : User → Body
  users : List User → Body
  role : Role → Body
  roles : List Role → Body
  permission : Permission → Body
  decision : Decision → Body
  accepted : Text → Body

pub record Response : Type 0 where
  pub code : ℕ
  pub body : Body
  pub headers : List (Text × Text)

-- The code and the body of an answer.
abbrev pub Reply : Type 0
Reply = ℕ × Body

-- `if err != nil { platform.Error(w, failed, err.Error()); return }; platform.JSON(w, done, …)`
abbrev pub replied : {A : Type 0} → ℕ → ℕ → (A → Body) → Result A → Reply
replied done failed body (ok a) = (done, body a)
replied done failed body (err e) = (failed, Body.failure e)

-- `secret` is ADMIN_CONTROL_SHARED_SECRET, trimmed.
unfoldable pub handle_admin_control : Text → Text → Option Text → Reply
handle_admin_control secret header body =
    if not (is_empty secret) && not (text_eq header secret)
    then (401, Body.error (codes "unauthorized"))
    else elim body [
      | none ↦ (400, Body.error (codes "invalid json"))
      | some action ↦
          if is_empty (trim_space action)
          then (400, Body.error (codes "action required"))
          else (202, Body.accepted action)
    ]

module _ {S : Type 0} (repo : Repository S) (secret : Text) where
  -- The reply to a call of the service.
  abbrev pub with_reply : {A : Type 0} → ℕ → ℕ → (A → Body) → Result A × State S → Reply × State S
  with_reply done failed body (r, w) = (replied done failed body r, w)

  abbrev pub handle_create_user : Option CreateUserCommand → Ambient → State S → Reply × State S
  handle_create_user none env w = ((400, Body.error (codes "invalid json")), w)
  handle_create_user (some cmd) env w =
      with_reply 201 500 Body.user (Service.create_user repo cmd env w)

  unfoldable pub handle : Endpoint → Ambient → State S → Reply × State S
  handle healthz env w = ((200, Body.status (codes "ok")), w)
  handle (create_user body) env w = handle_create_user body env w
  handle (list_users limit offset) env w =
      with_reply 200 500 Body.users (Service.list_users repo limit offset w)
  handle (get_user id) env w = with_reply 200 404 Body.user (Service.get_user repo id w)
  handle (activate_user id) env w =
      with_reply 200 500 (λ _. Body.status (codes "activated"))
        (Service.activate_user repo id env w)
  handle (lock_user id) env w =
      with_reply 200 500 (λ _. Body.status (codes "locked")) (Service.lock_user repo id env w)
  handle (create_role name description) env w =
      with_reply 201 500 Body.role (Service.create_role repo name description env w)
  handle list_roles env w = with_reply 200 500 Body.roles (Service.list_roles repo w)
  handle (create_permission key resource action description) env w =
      with_reply 201 500 Body.permission
        (Service.create_permission repo key resource action description env w)
  handle (grant role_id permission_id) env w =
      with_reply 200 500 (λ _. Body.status (codes "granted"))
        (Service.grant repo role_id permission_id env w)
  handle (assign user_id role_id tenant_id) env w =
      with_reply 200 500 (λ _. Body.status (codes "assigned"))
        (Service.assign_role repo user_id role_id tenant_id env w)
  handle (check user_id tenant_id key) env w =
      with_reply 200 500 Body.decision (Service.check repo user_id tenant_id key w)
  handle (admin_control header body) env w = (handle_admin_control secret header body, w)

  -- `RequestID`: the request's own, or a new one.
  abbrev pub request_id : Text → Ambient → State S → Text × State S
  request_id id env w =
      if is_empty id then (env.uuid w.ids, record w { ids = suc w.ids }) else (id, w)

  -- With the headers of `Security`.
  abbrev pub responded : Text → Reply × State S → Response × State S
  responded id ((code, body), w) = (
    record {
      code = code;
      body = body;
      headers =
          (codes "X-Request-Id", id)
          ∷ (codes "X-Content-Type-Options", codes "nosniff")
          ∷ (codes "X-Frame-Options", codes "DENY")
          ∷ [];
    },
    w,
  )

  unfoldable pub serve : Request → Ambient → State S → Response × State S
  serve r env w =
      let (id, w') = request_id r.request_id env w in responded id (handle r.endpoint env w')

  -- The state after requests served in turn.
  abbrev pub serve_all : List Request → Ambient → State S → State S
  serve_all [] env w = w
  serve_all (r ∷ rs) env w = serve_all rs env (serve r env w).1
