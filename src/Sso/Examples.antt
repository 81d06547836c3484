-- ===== src/Sso/Examples.antt =====
-- Runs of the single sign-on on one member.
use memberclass_backend_gola.Sso.Roundtrip.{generate_sso_token_roundtrip}
use memberclass_backend_gola.Sso.OneTime.{validate_sso_token_once}
use memberclass_backend_gola.Sso.Tokens.{
  validate_sso_token, SsoMember, SsoUser, Directory, generate_sso_token, denied, issued, consumed,
  validate_and_consume_sso_token, update_sso_token, member_class_error, update_member,
  consume_found, is_member, granted, consume_until, user_data, find_token, member_class_error,
  member_class_error, member_class_error, used_message,
}
use memberclass_backend_gola.Common.{
  ◌+◌, ◌≡◌, refl, true, Option, none, some, List, [], ◌∷◌, ◌++◌, ltb, if◌then◌else◌, GoString, str,
  ◌===◌,
}

abbrev member : SsoMember
member = record {
  user_id = str "u";
  tenant_id = str "t";
  name = none;
  document = some (str "1");
  sso_token = none;
  sso_token_valid_until = none;
  sso_token_used_at = none;
  sso_token_ip = none;
}

abbrev people : Directory
people = record {
  exists_by_id = λ id. true;
  email = λ id. str "u@x";
  phone = λ id. none;
  tenant_name = λ id. str "T";
}

-- A stand-in for SHA-256.
abbrev toy_hash : GoString → GoString
toy_hash s = b'#' ∷ s

abbrev to_site : GoString → Option GoString
to_site token = some (str "https://x?token-mc=" ++ token)

abbrev with_issued : List SsoMember
with_issued = issued (str "#abc") 310 member ∷ []

abbrev with_consumed : List SsoMember
with_consumed = consumed 20 (str "ip") (issued (str "#abc") 310 member) ∷ []

generates :
    generate_sso_token people toy_hash
      (some (str "abc"))
      to_site
      (str "u")
      (str "t")
      10
      (member ∷ [])
    ≡ (
      granted (record {
        token = str "abc";
        redirect_url = str "https://x?token-mc=abc";
        expires_in_secs = 300;
      }),
      with_issued,
    )
unfolding generate_sso_token update_sso_token update_member is_member ◌===◌
generates = refl

accepts : validate_sso_token people toy_hash (str "abc") 20 (str "ip") with_issued ≡ (
  granted (user_data people toy_hash (issued (str "#abc") 310 member) with_consumed),
  with_consumed,
)
unfolding validate_sso_token validate_and_consume_sso_token consume_found consume_until
    update_member is_member find_token ◌===◌
accepts = refl

validate_sso_token_once_example :
    validate_sso_token people toy_hash (str "abc") 25 (str "ip2") with_consumed
    ≡ (denied (member_class_error 401 used_message), with_consumed)
validate_sso_token_once_example =
    validate_sso_token_once people toy_hash (str "abc") 20 (str "ip") with_issued with_consumed
      (user_data people toy_hash (issued (str "#abc") 310 member) with_consumed) 25 (str "ip2")
      accepts

generate_sso_token_roundtrip_example :
    (user : SsoUser) × (user.id ≡ str "u")
    × (user.tenant_id ≡ str "t")
    × ((validate_sso_token people toy_hash (str "abc") 20 (str "ip") with_issued).0 ≡ (
        if ltb (10 + 300) 20
        then denied (member_class_error 401 (str "token expirado"))
        else granted user))
generate_sso_token_roundtrip_example =
    generate_sso_token_roundtrip people toy_hash (str "abc") to_site (str "u") (str "t") 10 20
      (str "ip") (member ∷ []) with_issued _ refl (refl, tt) generates
