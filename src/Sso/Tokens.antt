-- ===== src/Sso/Tokens.antt =====
-- The use case and the repository, over the table "UsersOnTenants". Errors of the connection are left
-- out, and log lines. The random token, the hash, the URL builder and the rest of the database are
-- parameters; times are in seconds, and the two readings of the clock in one call are one. Messages are
-- in UTF-8.
use memberclass_backend_gola.Common.{
  ℕ, ◌+◌, Bool, false, not, ◌&&◌, Option, none, some, List, [], ◌∷◌, map, ltb, if◌then◌else◌,
  is_some, length, filter_by, GoString, str, ◌===◌, is_empty, ◌++◌,
}

pub record SsoMember : Type 0 where
  pub user_id : GoString
  pub tenant_id : GoString
  pub name : Option GoString
  pub document : Option GoString
  pub sso_token : Option GoString
  pub sso_token_valid_until : Option ℕ
  pub sso_token_used_at : Option ℕ
  pub sso_token_ip : Option GoString

-- The messages with letters beyond ASCII.
abbrev pub used_message : GoString
used_message = str "token j" ++ (195 ∷ 161 ∷ str " foi utilizado")

abbrev pub invalid_message : GoString
invalid_message = str "token inv" ++ (195 ∷ 161 ∷ str "lido")

abbrev pub missing_message : GoString
missing_message = str "token " ++ (195 ∷ 169 ∷ (str " obrigat" ++ (195 ∷ 179 ∷ str "rio")))

abbrev pub url_message : GoString
url_message = str "URL externa inv" ++ (195 ∷ 161 ∷ str "lida")

abbrev pub unknown_message : GoString
unknown_message = str "usu" ++ (195 ∷ 161 ∷ (str "rio n" ++ (195 ∷ 163 ∷ str "o encontrado")))

abbrev pub stranger_message : GoString
stranger_message =
    str "usu" ++ (195 ∷ 161 ∷ (str "rio n" ++ (195 ∷ 163 ∷ str "o pertence ao tenant")))

-- memberclasserrors.MemberClassError, or another error by its text.
pub data SsoError : Type 0 where
  member_class_error : ℕ → GoString → SsoError
  other_error : GoString → SsoError

pub data SsoReply (A : Type 0) : Type 0 where
  granted : A → SsoReply A
  denied : SsoError → SsoReply A

-- What the two calls read of "User" and "Tenant": e-mail, phone, and the name of the tenant.
pub record Directory : Type 0 where
  pub exists_by_id : GoString → Bool
  pub email : GoString → GoString
  pub phone : GoString → Option GoString
  pub tenant_name : GoString → GoString

pub record SsoUser : Type 0 where
  pub id : GoString
  pub email : GoString
  pub name : Option GoString
  pub phone : Option GoString
  pub document : Option GoString
  pub tenant_id : GoString
  pub tenant_name : GoString

pub record GeneratedToken : Type 0 where
  pub token : GoString
  pub redirect_url : GoString
  pub expires_in_secs : ℕ

unfoldable pub is_member : GoString → GoString → SsoMember → Bool
unfolding ◌===◌
is_member user_id tenant_id m = (m.user_id === user_id) && (m.tenant_id === tenant_id)

-- `UPDATE "UsersOnTenants" SET … WHERE "userId" = … AND "tenantId" = …`
unfoldable pub update_member :
    GoString → GoString → (SsoMember → SsoMember) → List SsoMember → List SsoMember
unfolding is_member
update_member user_id tenant_id f ms =
    map (λ m. if is_member user_id tenant_id m then f m else m) ms

abbrev pub issued : GoString → ℕ → SsoMember → SsoMember
issued token_hash valid_until m = record m {
  sso_token = some token_hash;
  sso_token_valid_until = some valid_until;
  sso_token_used_at = none;
  sso_token_ip = none;
}

-- UpdateSSOToken; true where a row was affected.
unfoldable pub update_sso_token :
    GoString → GoString → GoString → ℕ → List SsoMember → Bool × List SsoMember
unfolding update_member is_member
update_sso_token user_id tenant_id token_hash valid_until ms = (
  ltb 0 (length (filter_by (is_member user_id tenant_id) ms)),
  update_member user_id tenant_id (issued token_hash valid_until) ms,
)

abbrev pub holds_token : GoString → Option GoString → Bool
holds_token token_hash none = false
holds_token token_hash (some stored) = stored === token_hash

-- The row that the SELECT returns first, in the order of the list; the JOINs with "User" and "Tenant"
-- are taken to drop no row.
unfoldable pub find_token : GoString → List SsoMember → Option SsoMember
find_token token_hash [] = none
find_token token_hash (m ∷ ms) =
    let rest = find_token token_hash ms in
    if holds_token token_hash m.sso_token then some m else rest

unfoldable pub get_user_document : GoString → List SsoMember → Option GoString
unfolding ◌===◌
get_user_document user_id [] = none
get_user_document user_id (m ∷ ms) =
    let rest = get_user_document user_id ms in
    if (m.user_id === user_id) && is_some m.document then m.document else rest

abbrev pub consumed : ℕ → GoString → SsoMember → SsoMember
consumed now ip m = record m { sso_token_used_at = some now; sso_token_ip = some ip }

module _ (dir : Directory) (hash : GoString → GoString) where
  unfoldable pub user_data : SsoMember → List SsoMember → SsoUser
  unfolding get_user_document
  user_data m ms = record {
    id = m.user_id;
    email = dir.email m.user_id;
    name = m.name;
    phone = dir.phone m.user_id;
    document = get_user_document m.user_id ms;
    tenant_id = m.tenant_id;
    tenant_name = dir.tenant_name m.tenant_id;
  }

  -- A validUntil that is NULL cannot be scanned into a time.Time.
  unfoldable pub consume_until :
      Option ℕ → SsoMember → ℕ → GoString → List SsoMember → SsoReply SsoUser × List SsoMember
  unfolding user_data update_member
  consume_until none m now ip ms =
      (denied (member_class_error 500 (str "error validating SSO token")), ms)
  consume_until (some valid_until) m now ip ms =
      let ms' = update_member m.user_id m.tenant_id (consumed now ip) ms in
      if is_some m.sso_token_used_at
      then (denied (member_class_error 401 used_message), ms)
      else if ltb valid_until now
      then (denied (member_class_error 401 (str "token expirado")), ms)
      else (granted (user_data m ms'), ms')

  unfoldable pub consume_found :
      Option SsoMember → ℕ → GoString → List SsoMember → SsoReply SsoUser × List SsoMember
  unfolding consume_until
  consume_found none now ip ms = (denied (member_class_error 401 invalid_message), ms)
  consume_found (some m) now ip ms = consume_until m.sso_token_valid_until m now ip ms

  unfoldable pub validate_and_consume_sso_token :
      GoString → ℕ → GoString → List SsoMember → SsoReply SsoUser × List SsoMember
  unfolding consume_found find_token
  validate_and_consume_sso_token token_hash now ip ms =
      consume_found (find_token token_hash ms) now ip ms

  unfoldable pub validate_sso_token :
      GoString → ℕ → GoString → List SsoMember → SsoReply SsoUser × List SsoMember
  unfolding validate_and_consume_sso_token
  validate_sso_token token now ip ms =
      if is_empty token
      then (denied (member_class_error 400 missing_message), ms)
      else validate_and_consume_sso_token (hash token) now ip ms

  redirected :
      GoString → Option GoString → List SsoMember → SsoReply GeneratedToken × List SsoMember
  redirected token none ms = (denied (member_class_error 400 url_message), ms)
  redirected token (some url) ms =
      (granted (record { token = token; redirect_url = url; expires_in_secs = 300 }), ms)

  -- `token` is the token that generateRandomToken makes, none where the source of randomness fails;
  -- `redirect_url` is buildRedirectURL of it.
  with_token :
      Option GoString
      → (GoString → Option GoString)
      → GoString
      → GoString
      → ℕ
      → List SsoMember
      → SsoReply GeneratedToken × List SsoMember
  unfolding redirected update_sso_token
  with_token none redirect_url user_id tenant_id now ms =
      (denied (member_class_error 500 (str "erro ao gerar token")), ms)
  with_token (some token) redirect_url user_id tenant_id now ms =
      let (found, ms') = update_sso_token user_id tenant_id (hash token) (now + 300) ms in
      if not found
      then (denied (member_class_error 404 (str "user not found in tenant")), ms')
      else redirected token (redirect_url token) ms'

  unfoldable pub generate_sso_token :
      Option GoString
      → (GoString → Option GoString)
      → GoString
      → GoString
      → ℕ
      → List SsoMember
      → SsoReply GeneratedToken × List SsoMember
  unfolding with_token is_member
  generate_sso_token token redirect_url user_id tenant_id now ms =
      let done = with_token token redirect_url user_id tenant_id now ms in
      if not (dir.exists_by_id user_id)
      then (denied (member_class_error 404 unknown_message), ms)
      else if not (ltb 0 (length (filter_by (is_member user_id tenant_id) ms)))
      then (denied (member_class_error 403 stranger_message), ms)
      else done
