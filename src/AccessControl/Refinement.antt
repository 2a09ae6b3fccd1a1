-- ===== src/AccessControl/Refinement.antt =====
-- The tables implement the policy: it is at every moment what the events given to the publisher say.
use dift_backend_auth.Base.{
  suc, ◌≡◌, ◌↔◌, refl, sym, ap, ◌∙◌, true, List, [], ◌∷◌, Text, arith, none, some,
}
use dift_backend_auth.AccessControl.{Decision, Result, ok, err, Event, Ambient, State}
use dift_backend_auth.AccessControl.Tables.{Tables, Database, postgres}
use dift_backend_auth.AccessControl.Service
use dift_backend_auth.AccessControl.Service.{
  announce, publish, CreateUserCommand, tenant_or_default, page_limit, draw_id,
}
use dift_backend_auth.AccessControl.Router.{Endpoint, Request, handle, serve, serve_all, request_id}
use dift_backend_auth.AccessControl.Checks.{check-Allowed}
use dift_backend_auth.AccessControl.Policy.{
  Allowed, nothing, policy_of, apply_event, replay, replay-append, AtMost, AtMost-refl,
  AtMost-Allowed, told, told-append, replay-told,
}
use dift_backend_auth.AccessControl.Statements.{
  Refines, create_user-Refines, set_user_status-Refines, create_role-Refines,
  create_permission-Refines, grant-Refines, assign-Refines, list_users-same, get_user-same,
  list_roles-same, user_permissions-same,
}

-- The policy is what the events of all calls of the publisher say, and the published ones are those
-- of the calls that ended without an error.
pub record Tracked (env : Ambient) (w : State Tables) : Type 0 where
  pub policy : policy_of w.store ≡ replay w.offered nothing
  pub heard : w.events ≡ told env 0 w.offered

-- A call of the repository that changes no relation.
unpublished-Tracked :
    (env : Ambient) (w w' : State Tables)
    → policy_of w'.store ≡ policy_of w.store
    → w'.offered ≡ w.offered
    → w'.events ≡ w.events
    → Tracked env w
    → Tracked env w'
unpublished-Tracked env w w' same o e k = record {
  policy = same ∙ k.policy ∙ ap (λ es. replay es nothing) (sym o);
  heard = e ∙ k.heard ∙ ap (told env 0) (sym o);
}

announce-Tracked :
    {A : Type 0} (f : A → Event) (env : Ambient) (w : State Tables) (x : Result A × Tables)
    → Refines f w.store x
    → Tracked env w
    → Tracked env (announce f env w x).1
unfolding publish
announce-Tracked f env w (ok a, s) h k = record {
  policy = h ∙ ap (apply_event (f a)) k.policy ∙ sym (replay-append w.offered (f a) nothing);
  heard = ground (arith, told-append env 0 w.offered (f a), k.heard);
}
announce-Tracked f env w (err e, s) h k = unpublished-Tracked env w _ h refl refl k

module _ (db : Database) (secret : Text) (env : Ambient) where
  handle-Tracked :
      (e : Endpoint) (w : State Tables)
      → Tracked env w
      → Tracked env (handle (postgres db) secret e env w).1
  unfolding handle Service.create_user Service.list_users Service.get_user Service.activate_user
      Service.lock_user Service.create_role Service.list_roles Service.create_permission
      Service.grant Service.assign_role Service.check
  handle-Tracked Endpoint.healthz w k = k
  handle-Tracked (Endpoint.create_user none) w k = k
  handle-Tracked (Endpoint.create_user (some cmd)) w k =
      announce-Tracked Event.user_created env (record w { ids = suc w.ids; reads = suc w.reads }) _
        (create_user-Refines db _ w.store) (unpublished-Tracked env w _ refl refl refl k)
  handle-Tracked (Endpoint.list_users limit offset) w k =
      unpublished-Tracked env w _ (list_users-same db (page_limit limit) offset w.store) refl refl k
  handle-Tracked (Endpoint.get_user id) w k =
      unpublished-Tracked env w _ (get_user-same db id w.store) refl refl k
  handle-Tracked (Endpoint.activate_user id) w k =
      announce-Tracked _ env w _
        (set_user_status-Refines (Event.user_activated id) db id _ w.store refl) k
  handle-Tracked (Endpoint.lock_user id) w k =
      announce-Tracked _ env w _
        (set_user_status-Refines (Event.user_locked id) db id _ w.store refl) k
  handle-Tracked (Endpoint.create_role name description) w k =
      announce-Tracked Event.role_created env (draw_id w) _ (create_role-Refines db _ w.store)
        (unpublished-Tracked env w _ refl refl refl k)
  handle-Tracked Endpoint.list_roles w k =
      unpublished-Tracked env w _ (list_roles-same db w.store) refl refl k
  handle-Tracked (Endpoint.create_permission key resource action description) w k =
      announce-Tracked Event.permission_created env (draw_id w) _
        (create_permission-Refines db _ w.store) (unpublished-Tracked env w _ refl refl refl k)
  handle-Tracked (Endpoint.grant role permission) w k =
      announce-Tracked _ env w _ (grant-Refines db role permission w.store) k
  handle-Tracked (Endpoint.assign user role tenant) w k =
      announce-Tracked _ env w _ (assign-Refines db user role (tenant_or_default tenant) w.store) k
  handle-Tracked (Endpoint.check user tenant permission) w k =
      unpublished-Tracked env w _ (user_permissions-same db user (tenant_or_default tenant) w.store)
        refl refl k
  handle-Tracked (Endpoint.admin_control header body) w k = k

  request_id-Tracked :
      (id : Text) (w : State Tables)
      → Tracked env w
      → Tracked env (request_id (postgres db) secret id env w).1
  request_id-Tracked id w k =
      unpublished-Tracked env w _ (ground arith) (ground arith) (ground arith) k

  serve-Tracked :
      (r : Request) (w : State Tables)
      → Tracked env w
      → Tracked env (serve (postgres db) secret r env w).1
  unfolding serve
  serve-Tracked r w k =
      handle-Tracked r.endpoint (request_id (postgres db) secret r.request_id env w).1
        (request_id-Tracked r.request_id w k)

  serve_all-Tracked :
      (rs : List Request) (w : State Tables)
      → Tracked env w
      → Tracked env (serve_all (postgres db) secret rs env w)
  serve_all-Tracked [] w k = k
  serve_all-Tracked (r ∷ rs) w k = serve_all-Tracked rs _ (serve-Tracked r w k)

-- From a state whose policy is what the events given to the publisher so far say, whatever requests
-- are served, whether or not the database is reached for them and whichever events the publisher
-- loses: a permission check that reaches the database then allows exactly what the policy allows
-- that all events given to the publisher by then say. The published events are those of the calls of
-- the publisher that ended without an error, and the check allows all that they alone say.
pub served-Allowed :
    (db : Database) (secret : Text) (env : Ambient) (rs : List Request) (w : State Tables)
    (user tenant key : Text)
    → Tracked env w
    → db.reached (serve_all (postgres db) secret rs env w).store.statements ≡ true
    → let w' = serve_all (postgres db) secret rs env w in
      (d : Decision) × ((Service.check (postgres db) user tenant key w').0 ≡ ok d)
      × ((d.allowed ≡ true)
          ↔ Allowed (replay w'.offered nothing) user (tenant_or_default tenant) key)
      × (w'.events ≡ told env 0 w'.offered)
      × (Allowed (replay w'.events nothing) user (tenant_or_default tenant) key → d.allowed ≡ true)
served-Allowed db secret env rs w user tenant key tracked up =
    let w' = serve_all (postgres db) secret rs env w in
    let after = serve_all-Tracked db secret env rs w tracked in
    let (d, answer, exactly) = check-Allowed db user tenant key w' up in
    let exactly' : (d.allowed ≡ true)
        ↔ Allowed (replay w'.offered nothing) user (tenant_or_default tenant) key =
      rw (← after.policy) exactly in
    let most : AtMost (replay w'.events nothing) (replay w'.offered nothing) =
      rw after.heard (replay-told env 0 w'.offered nothing nothing (AtMost-refl nothing)) in
    (
      d,
      answer,
      exactly',
      after.heard,
      λ a. exactly'.1 (AtMost-Allowed user (tenant_or_default tenant) key most a),
    )
