-- ===== src/Invariant/Keyed.antt =====
-- Every user, device, session and challenge lies under its own id.
use dift_backend_auth.Base.{◌≡◌, Text, arith}
use dift_backend_auth.Store.Keyed.{IsKeyed, put-IsKeyed, update_all-IsKeyed}
use dift_backend_auth.Domain.{Session, SessionStatus}
use dift_backend_auth.Runtime.{Env, World, Db}
use dift_backend_auth.Runtime.Frame.{IsFrame}
use dift_backend_auth.Repository.Sessions.{mark_family, mark_user}
use dift_backend_auth.Invariant.{IsKept}
use dift_backend_auth.Invariant.Reachable.{Reaches, Reaches-kept}

pub record AreKeyed (db : Db) : Type 0 where
  pub users : IsKeyed (λ u. u.id) db.users
  pub devices : IsKeyed (λ d. d.id) db.devices
  pub sessions : IsKeyed (λ s. s.id) db.sessions
  pub challenges : IsKeyed (λ c. c.id) db.challenges

abbrev pub StaysKeyed : World → World → Type 0
StaysKeyed w w' = AreKeyed w.db → AreKeyed w'.db

mark_family-id :
    (f : Text) (status : SessionStatus) (s : Session) → (mark_family f status s).id ≡ s.id
mark_family-id f status s = ground arith

mark_user-id : (u : Text) (s : Session) → (mark_user u s).id ≡ s.id
mark_user-id u s = ground arith

StaysKeyed-IsFrame : IsFrame StaysKeyed
StaysKeyed-IsFrame = record {
  refl = λ w k. k;
  trans = λ u v w h k x. k (h x);
  reads = λ w n k. k;
  draws = λ w n k. k;
}

pub StaysKeyed-IsKept : IsKept StaysKeyed
StaysKeyed-IsKept = record {
  frame = StaysKeyed-IsFrame;
  user = λ u. record {
    apply = λ env w k. record {
      users = put-IsKeyed (λ u. u.id) w.db.users u k.users;
      devices = k.devices;
      sessions = k.sessions;
      challenges = k.challenges;
    };
  };
  device = λ d. record {
    apply = λ env w k. record {
      users = k.users;
      devices = put-IsKeyed (λ d. d.id) w.db.devices d k.devices;
      sessions = k.sessions;
      challenges = k.challenges;
    };
  };
  session = λ s. record {
    apply = λ env w k. record {
      users = k.users;
      devices = k.devices;
      sessions = put-IsKeyed (λ s. s.id) w.db.sessions s k.sessions;
      challenges = k.challenges;
    };
  };
  family = λ f status. record {
    apply = λ env w k. record {
      users = k.users;
      devices = k.devices;
      sessions =
          update_all-IsKeyed (λ s. s.id) (mark_family f status) w.db.sessions
            (mark_family-id f status) k.sessions;
      challenges = k.challenges;
    };
  };
  of_user = λ u. record {
    apply = λ env w k. record {
      users = k.users;
      devices = k.devices;
      sessions =
          update_all-IsKeyed (λ s. s.id) (mark_user u) w.db.sessions (mark_user-id u) k.sessions;
      challenges = k.challenges;
    };
  };
  challenge = λ c. record {
    apply = λ env w k. record {
      users = k.users;
      devices = k.devices;
      sessions = k.sessions;
      challenges = put-IsKeyed (λ c. c.id) w.db.challenges c k.challenges;
    };
  };
  log = λ l. record { apply = λ env w k. k };
}

-- Whatever calls are made from a state in which every user, device, session and challenge lies
-- under its own id, they all still do.
pub Reaches-AreKeyed : (env : Env) (u w : World) → Reaches env u w → AreKeyed u.db → AreKeyed w.db
Reaches-AreKeyed env u w r = Reaches-kept StaysKeyed-IsKept env r
