-- ===== src/Auth/Session.antt =====
-- Sessions of the front end: internal/application/middlewares/auth/auth_front_middleware.go and
-- internal/domain/usecases/user/validate_session.go, with ExistsByID and BelongsToTenant of
-- internal/infrastructure/adapters/repository/user/user_repository.go. Key derivation, decryption of the
-- cookie and json.Unmarshal are the parameter `decrypt`.
use memberclass_backend_gola.Common.{
  Bool, false, ◌&&◌, ◌||◌, Option, none, some, List, [], ◌∷◌, if◌then◌else◌, GoString, str, ◌===◌,
  has_text, is_empty,
}
use memberclass_backend_gola.Common.Int.{ℤ, pos, ltb_ℤ}
use memberclass_backend_gola.Auth.Replies.{
  AuthError, member_class_error, other_error, Entry, admitted, turned_away, user_not_found,
  user_not_in_tenant,
}

-- dto.SessionPayload; the middleware reads the id of the user and the expiry.
pub record SessionPayload : Type 0 where
  pub user_id : GoString
  pub email : GoString
  pub role : GoString
  pub exp : ℤ

-- NewAuthMiddleware, on the value of NEXTAUTH_SECRET.
unfoldable pub session_secret : GoString → GoString
session_secret env = if is_empty env then str "WLcglAhaob5u0K8heuOSK7rONH7bdF" else env

-- What the two queries on users see: the ids of "User", the pairs of "UsersOnTenants", and whether the
-- database refuses a query.
pub record Users : Type 0 where
  pub ids : List GoString
  pub members : List (GoString × GoString)
  pub exists_fails : Bool
  pub belongs_fails : Bool

unfoldable pub has_pair : GoString → GoString → List (GoString × GoString) → Bool
unfolding ◌===◌
has_pair user tenant [] = false
has_pair user tenant (m ∷ ms) = ((m.0 === user) && (m.1 === tenant)) || has_pair user tenant ms

-- The error of ValidateUserExists, if any.
unfoldable pub validate_user_exists : GoString → Users → Option AuthError
unfolding has_text
validate_user_exists user db =
    if is_empty user
    then some user_not_found
    else (if db.exists_fails
        then some (member_class_error 500 (str "error checking user existence"))
        else (if has_text user db.ids then none else some user_not_found))

unfoldable pub validate_user_belongs_to_tenant : GoString → GoString → Users → Option AuthError
unfolding has_pair
validate_user_belongs_to_tenant user tenant db =
    if is_empty user || is_empty tenant
    then some user_not_in_tenant
    else (if db.belongs_fails
        then some (member_class_error 500 (str "error checking user tenant membership"))
        else (if has_pair user tenant db.members then none else some user_not_in_tenant))

unfoldable pub handle_validation_error : AuthError → Entry SessionPayload
handle_validation_error (member_class_error code text) = turned_away code text
handle_validation_error (other_error text) = turned_away 500 (str "Failed to validate user")

unfoldable pub is_expired : ℤ → SessionPayload → Bool
is_expired now payload = ltb_ℤ (pos 0) payload.exp && ltb_ℤ payload.exp now

unfoldable pub user_validated : SessionPayload → Option AuthError → Entry SessionPayload
unfolding handle_validation_error
user_validated payload none = admitted payload
user_validated payload (some e) = handle_validation_error e

unfoldable pub session_decrypted : ℤ → Users → Option SessionPayload → Entry SessionPayload
unfolding is_expired user_validated validate_user_exists
session_decrypted now db none = turned_away 401 (str "Invalid session token")
session_decrypted now db (some payload) =
    if is_expired now payload
    then turned_away 401 (str "Session expired")
    else user_validated payload (validate_user_exists payload.user_id db)

-- Authenticate, on the cookie next-auth.session-token.
unfoldable pub authenticate_session :
    (GoString → GoString → Option SessionPayload)
    → GoString
    → ℤ
    → Users
    → Option GoString
    → Entry SessionPayload
unfolding session_decrypted session_secret
authenticate_session decrypt env now db none = turned_away 401 (str "Session token not found")
authenticate_session decrypt env now db (some cookie) =
    session_decrypted now db (decrypt (session_secret env) cookie)
