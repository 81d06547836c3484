-- ===== src/Auth/ApiKey.antt =====
-- The keys of external clients: internal/domain/usecases/auth/api_token_usecase.go, the statements on
-- token_api_auth of internal/infrastructure/adapters/repository/tenant/tenant_repository.go, and the
-- middleware of internal/application/middlewares/auth/auth_external_middleware.go. The hash in
-- hexadecimal is a parameter, and the UUID that a call draws.
use memberclass_backend_gola.Common.{
  Bool, false, ◌||◌, Option, none, some, List, [], ◌∷◌, map, if◌then◌else◌, GoString, str, ◌===◌,
  is_empty,
}
use memberclass_backend_gola.Auth.Replies.{
  AuthError, member_class_error, other_error, AuthReply, granted, denied, Entry, admitted,
  turned_away, tenant_not_found,
}

-- The columns that are read here.
pub record Tenant : Type 0 where
  pub id : GoString
  pub name : GoString
  pub token_api_auth : Option GoString

-- The three statements; `down` tells which ones the database refuses.
pub data TokenStatement : Type 0 where
  find_id update_token find_token : TokenStatement

unfoldable pub stores_token : GoString → Tenant → Bool
unfolding ◌===◌
stores_token token t = elim t.token_api_auth [ none ↦ false | some held ↦ held === token ]

unfoldable pub has_tenant : GoString → List Tenant → Bool
unfolding ◌===◌
has_tenant id [] = false
has_tenant id (t ∷ ts) = (t.id === id) || has_tenant id ts

-- The first row with the token, where the query has LIMIT 1.
unfoldable pub first_holder : GoString → List Tenant → Option Tenant
unfolding stores_token
first_holder token [] = none
first_holder token (t ∷ ts) = if stores_token token t then some t else first_holder token ts

abbrev pub find_message : GoString
find_message = str "error finding tenant"

abbrev pub token_message : GoString
token_message = str "error finding tenant with token"

abbrev pub update_message : GoString
update_message = str "error updating token api auth"

abbrev pub empty_message : GoString
empty_message = str "error: tenantID or tokenHash is empty"

-- The query selects id and name only.
abbrev pub id_and_name : Tenant → Tenant
id_and_name t = record t { token_api_auth = none }

unfoldable pub reply_of : Option Tenant → AuthReply Tenant
reply_of none = denied tenant_not_found
reply_of (some t) = granted (id_and_name t)

module _ (sha256_hex : GoString → GoString) (down : TokenStatement → Bool) where
  -- FindByID, of which the use case reads the error only.
  unfoldable pub find_by_id_error : GoString → List Tenant → Option AuthError
  unfolding has_tenant
  find_by_id_error id ts =
      if down find_id
      then some (member_class_error 500 find_message)
      else (if has_tenant id ts then none else some tenant_not_found)

  unfoldable pub find_tenant_by_token : GoString → List Tenant → AuthReply Tenant
  unfolding first_holder reply_of
  find_tenant_by_token token ts =
      if down find_token
      then denied (member_class_error 500 token_message)
      else reply_of (first_holder token ts)

  unfoldable pub token_set : GoString → GoString → Tenant → Tenant
  unfolding ◌===◌
  token_set id hash t = if t.id === id then record t { token_api_auth = some hash } else t

  unfoldable pub update_token_api_auth : GoString → GoString → List Tenant → AuthReply (List Tenant)
  unfolding token_set
  update_token_api_auth id hash ts =
      if is_empty id || is_empty hash
      then denied (other_error empty_message)
      else (if down update_token
          then denied (member_class_error 500 update_message)
          else granted (map (token_set id hash) ts))

  unfoldable pub generate_hash : GoString → GoString
  generate_hash uuid = sha256_hex uuid

  unfoldable pub token_saved :
      GoString → AuthReply (List Tenant) → List Tenant → AuthReply GoString × List Tenant
  token_saved token (granted ts') ts = (granted token, ts')
  token_saved token (denied e) ts = (denied e, ts)

  unfoldable pub token_for :
      GoString → GoString → Option AuthError → List Tenant → AuthReply GoString × List Tenant
  unfolding token_saved update_token_api_auth
  token_for id token (some e) ts = (denied e, ts)
  token_for id token none ts =
      if is_empty token
      then (granted token, ts)
      else token_saved token (update_token_api_auth id token ts) ts

  -- GenerateToken, with the UUID that it draws.
  unfoldable pub generate_token :
      GoString → GoString → List Tenant → AuthReply GoString × List Tenant
  unfolding token_for find_by_id_error generate_hash
  generate_token uuid id ts =
      if is_empty id
      then (denied (other_error (str "tenantID is required")), ts)
      else token_for id (generate_hash uuid) (find_by_id_error id ts) ts

  unfoldable pub validate_token : GoString → List Tenant → AuthReply Tenant
  unfolding find_tenant_by_token
  validate_token token ts =
      if is_empty token
      then denied (other_error (str "token is required"))
      else find_tenant_by_token token ts

  unfoldable pub tenant_entry : AuthReply Tenant → Entry Tenant
  tenant_entry (granted t) = admitted t
  tenant_entry (denied e) = turned_away 401 (str "API key invalid")

  -- Authenticate, on the value of the header mc-api-key.
  unfoldable pub authenticate_key : GoString → List Tenant → Entry Tenant
  unfolding tenant_entry validate_token
  authenticate_key key ts =
      if is_empty key
      then turned_away 401 (str "API key invalid")
      else (if is_empty (sha256_hex key)
          then turned_away 401 (str "API key invalid")
          else tenant_entry (validate_token (sha256_hex key) ts))
