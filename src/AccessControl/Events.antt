-- ===== src/AccessControl/Events.antt =====
-- What is published, over any repository.
use dift_backend_auth.Base.{
  ℕ, suc, ◌≡◌, refl, ◌⊎◌, inl, inr, true, false, Option, none, some, List, [], ◌∷◌, ◌++◌, Text,
  arith, Bool-cases, is_empty, text_eq, ◌↔◌, length,
}
use dift_backend_auth.AccessControl.{Result, ok, err, Repository, Event, Ambient, State}
use dift_backend_auth.Base.Ascii.{trim_space}
use dift_backend_auth.AccessControl.Service
use dift_backend_auth.AccessControl.Service.{announce, draw_id, publish}
use dift_backend_auth.AccessControl.Router.{
  Endpoint, Request, Body, replied, handle, serve, handle_admin_control,
}

-- A request publishes nothing, or one event and is then answered 200 or 201.
abbrev pub IsTold : ℕ → List Event → List Event → Type 0
IsTold code es es' =
    (es' ≡ es) ⊎ ((e : Event) × (es' ≡ es ++ e ∷ []) × ((code ≡ 200) ⊎ (code ≡ 201)))

module _ {S : Type 0} where
  announce-IsTold :
      {A : Type 0} (f : A → Event) (env : Ambient) (w : State S) (x : Result A × S)
      (done failed : ℕ) (body : A → Body)
      → (done ≡ 200) ⊎ (done ≡ 201)
      → IsTold
          (replied done failed body (announce f env w x).0).0
          w.events
          (announce f env w x).1.events
  unfolding publish
  announce-IsTold f env w (ok a, s) done failed body h =
      elim (Bool-cases (env.publishes (length w.offered))) [
        | inl told ↦ inr (f a, rw told refl, h)
        | inr lost ↦ inl (rw lost refl)
      ]
  announce-IsTold f env w (err e, s) done failed body h = inl refl

module _ {S : Type 0} (repo : Repository S) (secret : Text) (env : Ambient) where
  handle-IsTold :
      (e : Endpoint) (w : State S)
      → IsTold (handle repo secret e env w).0.0 w.events (handle repo secret e env w).1.events
  unfolding handle Service.create_user Service.list_users Service.get_user Service.activate_user
      Service.lock_user Service.create_role Service.list_roles Service.create_permission
      Service.grant Service.assign_role Service.check
  handle-IsTold Endpoint.healthz w = inl refl
  handle-IsTold (Endpoint.create_user none) w = inl refl
  handle-IsTold (Endpoint.create_user (some cmd)) w =
      announce-IsTold Event.user_created env (record w { ids = suc w.ids; reads = suc w.reads }) _
        201 500 Body.user (inr refl)
  handle-IsTold (Endpoint.list_users limit offset) w = inl refl
  handle-IsTold (Endpoint.get_user id) w = inl refl
  handle-IsTold (Endpoint.activate_user id) w = announce-IsTold _ env w _ 200 500 _ (inl refl)
  handle-IsTold (Endpoint.lock_user id) w = announce-IsTold _ env w _ 200 500 _ (inl refl)
  handle-IsTold (Endpoint.create_role name description) w =
      announce-IsTold Event.role_created env (draw_id w) _ 201 500 Body.role (inr refl)
  handle-IsTold Endpoint.list_roles w = inl refl
  handle-IsTold (Endpoint.create_permission key resource action description) w =
      announce-IsTold Event.permission_created env (draw_id w) _ 201 500 Body.permission (inr refl)
  handle-IsTold (Endpoint.grant role permission) w = announce-IsTold _ env w _ 200 500 _ (inl refl)
  handle-IsTold (Endpoint.assign user role tenant) w =
      announce-IsTold _ env w _ 200 500 _ (inl refl)
  handle-IsTold (Endpoint.check user tenant permission) w = inl refl
  handle-IsTold (Endpoint.admin_control header body) w = inl refl

  -- Over any repository, a request publishes nothing, or it publishes one event and is answered 200
  -- or 201: what a failed request says is never published.
  pub serve-IsTold :
      (r : Request) (w : State S)
      → IsTold (serve repo secret r env w).0.code w.events (serve repo secret r env w).1.events
  unfolding serve
  serve-IsTold r w = elim (Bool-cases (is_empty r.request_id)) [
    | inl empty ↦ rw empty (handle-IsTold r.endpoint (draw_id w))
    | inr given ↦ rw given (handle-IsTold r.endpoint w)
  ]

-- The administration endpoint accepts a body with an action that is not blank, from a request that
-- carries the shared secret, and from every request where no secret is configured.
pub handle_admin_control-accepted :
    (secret header : Text) (body : Option Text)
    → ((handle_admin_control secret header body).0 ≡ 202) ↔ (
        ((is_empty secret ≡ true) ⊎ (text_eq header secret ≡ true))
        × (action : Text) × (body ≡ some action)
        × (is_empty (trim_space action) ≡ false))
unfolding handle_admin_control
handle_admin_control-accepted secret header none = ground arith
handle_admin_control-accepted secret header (some action) = (
  (λ h. (allowed h, action, refl, ground arith)),
  (λ ((who, a, e, full) : _). accepted who (named a e full)),
)
  where
    named :
        (a : Text)
        → some action ≡ some a
        → is_empty (trim_space a) ≡ false
        → is_empty (trim_space action) ≡ false
    named a e full = let e' : action ≡ a = cc in rw e' full

    allowed :
        (handle_admin_control secret header (some action)).0 ≡ 202
        → (is_empty secret ≡ true) ⊎ (text_eq header secret ≡ true)
    allowed h = ground arith

    accepted :
        (is_empty secret ≡ true) ⊎ (text_eq header secret ≡ true)
        → is_empty (trim_space action) ≡ false
        → (handle_admin_control secret header (some action)).0 ≡ 202
    accepted who full = ground arith
