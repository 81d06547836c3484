-- ===== src/Auth/Examples.antt =====
-- Runs of the authentication middlewares.
use memberclass_backend_gola.Auth.Soundness.{IsGenuine, require_auth-IsGenuine}
use memberclass_backend_gola.Auth.Bearer.{
  require_auth, Crypto, AuthUser, extract_bearer_token, token_checked, pass, verify, verify_hs256,
  parts_checked, header_decoded, header_checked, signature_checked, payload_of, payload_checked,
  user_checked, passage_of, reject,
}
use memberclass_backend_gola.Auth.Replies.{granted, admitted, turned_away}
use memberclass_backend_gola.Auth.ApiKey.{
  id_and_name, Tenant, TokenStatement, generate_token, generate_hash, token_for, token_saved,
  update_token_api_auth, token_set, find_by_id_error, has_tenant, authenticate_key, validate_token,
  find_tenant_by_token, first_holder, stores_token, tenant_entry, reply_of,
}
use memberclass_backend_gola.Auth.Keys.{
  Holder, authenticate_key-Holder, generate_token-authenticate_key,
}
use memberclass_backend_gola.Auth.Session.{
  SessionPayload, Users, authenticate_session, session_secret,
}
use memberclass_backend_gola.Auth.Sessions.{IsSession, authenticate_session-IsSession}
use memberclass_backend_gola.Common.{
  Bool, false, [], ◌∷◌, Option, ◌↔◌, is_empty, text_differs, none, ◌≡◌, refl, some, if◌then◌else◌,
  GoString, str, ◌===◌, split, trim_space,
}
use memberclass_backend_gola.Common.Int.{pos}

abbrev ana : AuthUser
ana = record {
  user_id = str "u";
  email = str "a@b";
  role = str "admin";
  exp = pos 100;
  iat = pos 1;
}

abbrev toy : Crypto
toy = record {
  hmac = λ secret text. text;
  decode_base64 = λ s. if s === str "sig" then some (str "h.p") else some s;
  header_alg = λ s. some (str "HS256");
  claims = λ s. some ana;
}

abbrev authorization : GoString
authorization = str " BEARER h.p.sig "

gets_token : extract_bearer_token authorization ≡ some (str "h.p.sig")
unfolding extract_bearer_token ◌===◌ trim_space
gets_token = refl

passes : require_auth toy (str "key") (pos 9) authorization ≡ pass ana
unfolding require_auth token_checked verify verify_hs256 parts_checked header_decoded header_checked
    signature_checked payload_of payload_checked user_checked passage_of extract_bearer_token ◌===◌
    trim_space split
passes = refl

expires :
    require_auth toy (str "key") (pos 100) authorization ≡ reject (str "invalid or expired token")
unfolding require_auth token_checked verify verify_hs256 parts_checked header_decoded header_checked
    signature_checked payload_of payload_checked user_checked passage_of extract_bearer_token ◌===◌
    trim_space split
expires = refl

require_auth-IsGenuine_example :
    (token : GoString) × (extract_bearer_token authorization ≡ some token)
    × IsGenuine toy (str "key") (pos 9) token ana
require_auth-IsGenuine_example =
    require_auth-IsGenuine toy (str "key") (pos 9) authorization ana passes

-- A hash that puts an `x` before its argument, and a database that answers.
abbrev hashed : GoString → GoString
hashed s = b'x' ∷ s

abbrev always_up : TokenStatement → Bool
always_up _ = false

abbrev bea : Tenant
bea = record { id = str "t"; name = str "Bea"; token_api_auth = none }

abbrev bea_issued : Tenant
bea_issued = record { id = str "t"; name = str "Bea"; token_api_auth = some (str "xu") }

issues :
    generate_token hashed always_up (str "u") (str "t") (bea ∷ [])
    ≡ (granted (str "xu"), bea_issued ∷ [])
unfolding generate_token generate_hash token_for token_saved update_token_api_auth token_set
    find_by_id_error has_tenant ◌===◌
issues = refl

generate_token-authenticate_key_example :
    authenticate_key hashed always_up (str "xu") (bea_issued ∷ [])
    ≡ turned_away 401 (str "API key invalid")
unfolding ◌===◌
generate_token-authenticate_key_example =
    generate_token-authenticate_key hashed always_up (str "u") (str "t") (str "xu") (bea ∷ [])
      (bea_issued ∷ []) refl (text_differs (str "xxu") (str "xu") refl) (λ e. cc e, tt) issues

enters : authenticate_key hashed always_up (str "u") (bea_issued ∷ []) ≡ admitted bea
unfolding authenticate_key validate_token find_tenant_by_token first_holder stores_token
    tenant_entry reply_of ◌===◌
enters = refl

authenticate_key-Holder_example :
    (is_empty (str "u") ≡ false)
    × (u : Tenant) × Holder (hashed (str "u")) (bea_issued ∷ []) u
    × (bea ≡ id_and_name u)
authenticate_key-Holder_example =
    authenticate_key-Holder hashed always_up (str "u") (bea_issued ∷ []) bea enters

abbrev session : SessionPayload
session = record { user_id = str "u"; email = str "a@b"; role = str "user"; exp = pos 9 }

abbrev one_user : Users
one_user = record { ids = str "u" ∷ []; members = []; exists_fails = false; belongs_fails = false }

abbrev opened_cookie : GoString → GoString → Option SessionPayload
opened_cookie secret cookie = if cookie === secret then some session else none

authenticate_session-IsSession_example :
    (authenticate_session opened_cookie (str "k") (pos 3) one_user (some (str "k"))
      ≡ admitted session)
    ↔ IsSession opened_cookie (session_secret (str "k")) (pos 3) one_user (some (str "k")) session
authenticate_session-IsSession_example =
    authenticate_session-IsSession opened_cookie (str "k") (pos 3) one_user (some (str "k")) session
