-- ===== src/Legacy/Keys.antt =====
-- The API keys of the earlier engine: internal/apikey/service.go, on the APIKeyRepository of
-- internal/repository/stores.go and the keys of internal/crypto/crypto.go.
use dift_backend_auth.Base.{
  ℕ, suc, ◌==◌, ◌&&◌, ◌%◌, Bool, true, false, Option, none, some, List, [], ◌∷◌, ◌++◌, leb, ltb,
  length, take, drop, if◌then◌else◌, Text, codes, text_eq, is_empty,
}
use dift_backend_auth.Base.Int.{ℤ, pos}
use dift_backend_auth.Base.Ascii.{starts_with}
use dift_backend_auth.Encoding.{hex_encode}
use dift_backend_auth.Encoding.Base64.{Alphabet, encode}
use dift_backend_auth.AccessControl.Tables.{any, where_, sort_by}

-- The fields that the code reads or writes; the model's file is not in the repository.
pub record ApiKey : Type 0 where
  pub id : Text
  pub user_id : Text
  pub name : Text
  pub key_hash : Text
  pub prefix : Text
  pub permissions : List Text
  pub scopes : List Text
  pub rate_limit : ℤ
  pub expires_at : Option ℕ
  pub is_active : Bool
  pub created_at : ℕ
  pub last_used_at : Option ℕ

pub record CreateApiKeyRequest : Type 0 where
  pub name : Text
  pub permissions : List Text
  pub scopes : List Text
  pub rate_limit : ℤ
  pub expires_at : Option ℕ

pub record CreateApiKeyResponse : Type 0 where
  pub id : Text
  pub name : Text
  pub key : Text
  pub prefix : Text
  pub expires_at : Option ℕ
  pub created_at : ℕ

pub data Failure : Type 0 where
  generation not_stored unavailable conflict not_found : Failure
  invalid_api_key api_key_revoked api_key_expired : Failure
  bad_body invalid_id missing_header : Failure

pub data Result (A : Type 0) : Type 0 where
  ok : A → Result A
  err : Failure → Result A

-- What leaves the repository: the clock, 32 random bytes, SHA-256, and the database: whether it
-- answers the k-th command, what it fills in for a new row, and the order of its primary keys.
pub record Outside : Type 0 where
  pub clock : ℕ → ℕ
  pub random : ℕ → Option Text
  pub sha256 : Text → Text
  pub reached : ℕ → Bool
  pub row_id : ℕ → Text
  pub row_time : ℕ → ℕ
  pub precedes : Text → Text → Bool

pub record State : Type 0 where
  pub rows : List ApiKey
  pub reads : ℕ
  pub draws : ℕ
  pub commands : ℕ

abbrev pub Step : Type 0 → Type 0
Step A = State → Result A × State

abbrev pub api_key_prefix : Text
api_key_prefix = codes "aek_"

-- `base64.URLEncoding` pads to a multiple of four.
abbrev pub padding : ℕ → Text
padding n = if n % 3 == 1 then b'=' ∷ b'=' ∷ [] else if n % 3 == 2 then b'=' ∷ [] else []

abbrev pub plaintext_of : Text → Text
plaintext_of b = api_key_prefix ++ encode Alphabet.url b ++ padding (length b)

unfoldable pub hash_api_key : Outside → Text → Text
hash_api_key out key = hex_encode (out.sha256 key)

-- The plaintext and its hash, of the random bytes.
abbrev pub generated : Outside → Option Text → Result (Text × Text)
generated out none = err generation
generated out (some b) = ok (plaintext_of b, hash_api_key out (plaintext_of b))

abbrev pub generate_api_key : Outside → Step (Text × Text)
generate_api_key out w = (generated out (out.random w.draws), record w { draws = suc w.draws })

unfoldable pub extract_api_key_prefix : Text → Text
extract_api_key_prefix key =
    let raw = drop (length api_key_prefix) key in
    if starts_with api_key_prefix key
    then (if ltb (length raw) 8 then [] else api_key_prefix ++ take 8 raw)
    else []

-- A statement that the database does not answer changes nothing.
abbrev pub statement : {A : Type 0} → Outside → (State → Result A × List ApiKey) → Step A
statement out f w =
    let w' = record w { commands = suc w.commands } in
    if out.reached w.commands
    then (let (a, rows) = f w in (a, record w' { rows = rows }))
    else (err unavailable, w')

-- `UPDATE … WHERE`
unfoldable pub update_where : (ApiKey → Bool) → (ApiKey → ApiKey) → List ApiKey → List ApiKey
update_where p f [] = []
update_where p f (k ∷ ks) = let rest = update_where p f ks in (if p k then f k else k) ∷ rest

-- What a statement answers, and the rows that it leaves.
abbrev pub Statement : Type 0 → Type 0
Statement A = State → Result A × List ApiKey

-- The hash is a unique column of deployments/migrations.sql, where also an inactive key counts.
abbrev pub inserted : Outside → ApiKey → Statement ApiKey
inserted out key w =
    let stored = record key { id = out.row_id w.commands; created_at = out.row_time w.commands } in
    if any (λ k. text_eq k.key_hash key.key_hash) w.rows
    then (err conflict, w.rows)
    else (ok stored, stored ∷ w.rows)

unfoldable pub insert : Outside → ApiKey → Step ApiKey
insert out key = statement out (inserted out key)

abbrev pub has_hash : Text → ApiKey → Bool
has_hash h k = text_eq k.key_hash h && k.is_active

abbrev pub first : List ApiKey → Result ApiKey
first [] = err not_found
first (k ∷ ks) = ok k

abbrev pub first_with_hash : Outside → Text → Statement ApiKey
first_with_hash out h w =
    (first (sort_by (λ j k. out.precedes j.id k.id) (where_ (has_hash h) w.rows)), w.rows)

unfoldable pub get_by_hash : Outside → Text → Step ApiKey
get_by_hash out h = statement out (first_with_hash out h)

abbrev pub all_of_user : Text → Statement (List ApiKey)
all_of_user user w = (
  ok (
      sort_by (λ j k. leb k.created_at j.created_at)
        (where_ (λ k. text_eq k.user_id user && k.is_active) w.rows)),
  w.rows,
)

unfoldable pub list_by_user : Outside → Text → Step (List ApiKey)
list_by_user out user = statement out (all_of_user user)

abbrev pub is_of : (id user : Text) → ApiKey → Bool
is_of id user k = text_eq k.id id && text_eq k.user_id user

abbrev pub deactivate : ApiKey → ApiKey
deactivate k = record k { is_active = false }

-- That no row was found is not an error of the update.
abbrev pub deactivated : (id user : Text) → Statement (Unit {0})
deactivated id user w = (ok tt, update_where (is_of id user) deactivate w.rows)

unfoldable pub revoke_row : Outside → (id user : Text) → Step (Unit {0})
revoke_row out id user = statement out (deactivated id user)

abbrev pub used : ℕ → ApiKey → ApiKey
used now k = record k { last_used_at = some now }

abbrev pub touched : (id : Text) → ℕ → Statement (Unit {0})
touched id now w = (ok tt, update_where (λ k. text_eq k.id id) (used now) w.rows)

unfoldable pub touch : Outside → Text → Step (Unit {0})
touch out id w = statement out (touched id (out.clock w.reads)) (record w { reads = suc w.reads })

abbrev pub default_limit : ℤ → ℤ
default_limit (pos n) = if n == 0 then pos 1000 else pos n
default_limit i = i

-- The row to insert, before the database fills in its id and its time.
abbrev pub new_key : Text → CreateApiKeyRequest → (plaintext hash : Text) → ApiKey
new_key user req plaintext hash = record {
  id = [];
  user_id = user;
  name = req.name;
  key_hash = hash;
  prefix = extract_api_key_prefix plaintext;
  permissions = req.permissions;
  scopes = req.scopes;
  rate_limit = default_limit req.rate_limit;
  expires_at = req.expires_at;
  is_active = true;
  created_at = 0;
  last_used_at = none;
}

abbrev pub shown : Text → ApiKey → CreateApiKeyResponse
shown plaintext k = record {
  id = k.id;
  name = k.name;
  key = plaintext;
  prefix = k.prefix;
  expires_at = k.expires_at;
  created_at = k.created_at;
}

abbrev pub show_stored : Text → Result ApiKey × State → Result CreateApiKeyResponse × State
show_stored plaintext (err e, w) = (err not_stored, w)
show_stored plaintext (ok k, w) = (ok (shown plaintext k), w)

abbrev pub store_key :
    Outside
    → Text
    → CreateApiKeyRequest
    → Result (Text × Text) × State
    → Result CreateApiKeyResponse × State
store_key out user req (err e, w) = (err e, w)
store_key out user req (ok (plaintext, hash), w) =
    show_stored plaintext (insert out (new_key user req plaintext hash) w)

unfoldable pub create : Outside → Text → CreateApiKeyRequest → Step CreateApiKeyResponse
create out user req w = store_key out user req (generate_api_key out w)

-- What follows the lookup: the clock is read where the key expires at all.
abbrev pub accept : Outside → ApiKey → Step ApiKey
accept out k w = (ok k, (touch out k.id w).1)

abbrev pub in_time : Outside → ApiKey → Option ℕ → Step ApiKey
in_time out k none w = accept out k w
in_time out k (some t) w =
    let w' = record w { reads = suc w.reads } in
    if ltb t (out.clock w.reads) then (err api_key_expired, w') else accept out k w'

abbrev pub judge_key : Outside → Result ApiKey × State → Result ApiKey × State
judge_key out (err e, w) = (err invalid_api_key, w)
judge_key out (ok k, w) =
    if k.is_active then in_time out k k.expires_at w else (err api_key_revoked, w)

unfoldable pub authenticate : Outside → Text → Step ApiKey
authenticate out raw w =
    if starts_with api_key_prefix raw
    then judge_key out (get_by_hash out (hash_api_key out raw) w)
    else (err invalid_api_key, w)

-- The requests behind the user's login, with the id in the context, the body that the JSON library
-- decodes and the id that the UUID library parses; and one to a route behind AuthMiddleware, with
-- its header.
pub data Request : Type 0 where
  create_key : Text → Option CreateApiKeyRequest → Request
  list_keys : Text → Request
  revoke_key : Text → Option Text → Request
  with_key : Text → Request

pub data Body : Type 0 where
  failed : Failure → Body
  created : CreateApiKeyResponse → Body
  keys : List ApiKey → Body
  revoked : Body
  -- the handler behind the middleware, with what the context then says of the key
  passed : (id user_id : Text) → (permissions scopes : List Text) → Body

abbrev pub Response : Type 0
Response = ℕ × Body

abbrev pub answer : {A : Type 0} → ℕ → (A → Response) → Result A × State → Response × State
answer code f (err e, w) = ((code, failed e), w)
answer code f (ok a, w) = (f a, w)

abbrev pub auth_middleware : Outside → Text → State → Response × State
auth_middleware out header w =
    if is_empty header
    then ((401, failed missing_header), w)
    else answer 401 (λ k. (200, passed k.id k.user_id k.permissions k.scopes))
        (authenticate out header w)

abbrev pub handle_create : Outside → Text → Option CreateApiKeyRequest → State → Response × State
handle_create out user none w = ((400, failed bad_body), w)
handle_create out user (some req) w = answer 500 (λ r. (201, created r)) (create out user req w)

abbrev pub handle_list : Outside → Text → State → Response × State
handle_list out user w = answer 500 (λ ks. (200, keys ks)) (list_by_user out user w)

abbrev pub handle_revoke : Outside → Text → Option Text → State → Response × State
handle_revoke out user none w = ((400, failed invalid_id), w)
handle_revoke out user (some id) w = answer 500 (λ u. (200, revoked)) (revoke_row out id user w)

unfoldable pub serve : Outside → Request → State → Response × State
serve out (create_key user body) w = handle_create out user body w
serve out (list_keys user) w = handle_list out user w
serve out (revoke_key user id) w = handle_revoke out user id w
serve out (with_key header) w = auth_middleware out header w

abbrev pub serve_all : Outside → List Request → State → State
serve_all out [] w = w
serve_all out (r ∷ rs) w = serve_all out rs (serve out r w).1
