-- ===== src/Repository/Challenges.antt =====
-- `inMemoryChallengeRepo`. An absent challenge is a nil pointer and no error.
use dift_backend_auth.Base.{Option, Text, ltb}
use dift_backend_auth.Store
use dift_backend_auth.Domain.{Challenge}
use dift_backend_auth.Runtime.{World, M, ◌>>=◌, gets, modify, now}

abbrev pub set_challenges : (Store.Store Challenge → Store.Store Challenge) → World → World
set_challenges f w = record w { db = record w.db { challenges = f w.db.challenges } }

unfoldable pub store : Challenge → M (Unit {0})
store c = modify (set_challenges (Store.put c.id c))

unfoldable pub get : Text → M (Option Challenge)
get id = gets (λ w. Store.get id w.db.challenges)

unfoldable pub update : Challenge → M (Unit {0})
update c = modify (set_challenges (Store.put c.id c))

unfoldable pub delete_expired : M (Unit {0})
delete_expired = do t ← now; modify (set_challenges (Store.delete_where (λ c. ltb c.expires_at t)))
