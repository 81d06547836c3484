-- ===== src/Auth/Keys.antt =====
-- Which keys open the interface for external clients.
use memberclass_backend_gola.Common.{
  refl, ◌≡◌, refl, sym, ap, ◌≢◌, ◌↔◌, inl, inr, Bool, true, false, Option, none, some, List, [],
  ◌∷◌, map, arith, Bool-cases, Option-cases, All, GoString, str, ◌===◌, text_eq_iff, is_empty,
}
use memberclass_backend_gola.Auth.Replies.{
  AuthError, member_class_error, other_error, AuthReply, granted, denied, admitted, turned_away,
}
use memberclass_backend_gola.Auth.ApiKey.{
  Tenant, TokenStatement, update_token, find_token, stores_token, first_holder, reply_of,
  find_by_id_error, find_tenant_by_token, token_set, update_token_api_auth, generate_hash,
  token_saved, token_for, generate_token, validate_token, tenant_entry, authenticate_key,
  id_and_name, update_message,
}

granted_value : {A : Type 0} → A → AuthReply A → A
granted_value a (granted b) = b
granted_value a (denied e) = a

granted_same : {A : Type 0} → (a b : A) → granted a ≡ granted b → a ≡ b
unfolding granted_value
granted_same a b e = ap (granted_value a) e

stores_token_iff :
    (token : GoString) (t : Tenant)
    → (stores_token token t ≡ true) ↔ (t.token_api_auth ≡ some token)
unfolding stores_token
stores_token_iff token t = elim (Option-cases t.token_api_auth) [
  | inl without ↦ rw without (ground arith)
  | inr (held, with) ↦ rw with (ground (arith, text_eq_iff held token))
]

-- A tenant of the table with this id whose token is this one.
pub data Holder (token : GoString) : List Tenant → Tenant → Type 0 where
  here : {t : Tenant} {ts : List Tenant} → t.token_api_auth ≡ some token → Holder token (t ∷ ts) t
  there : {t u : Tenant} {ts : List Tenant} → Holder token ts t → Holder token (u ∷ ts) t

first_holder-Holder :
    (token : GoString) (ts : List Tenant) (t : Tenant)
    → first_holder token ts ≡ some t
    → Holder token ts t
unfolding first_holder
first_holder-Holder token [] t e = cc e
first_holder-Holder token (u ∷ ts) t e = elim (Bool-cases (stores_token token u)) [
  | inl holds ↦
      let same : some u ≡ some t = rw holds at e in
      let it : u ≡ t = some_injective u t same in
      rw (sym it) (here ((stores_token_iff token u).0 holds))
  | inr other ↦ there (first_holder-Holder token ts t (rw other at e))
]
  where
    some_injective : (a b : Tenant) → some a ≡ some b → a ≡ b
    some_injective a b h = cc h

first_holder-none :
    (token : GoString) (ts : List Tenant)
    → All (λ t. t.token_api_auth ≢ some token) ts
    → first_holder token ts ≡ none
unfolding first_holder
first_holder-none token [] h = refl
first_holder-none token (t ∷ ts) h = elim (Bool-cases (stores_token token t)) [
  | inl holds ↦ absurd (h.0 ((stores_token_iff token t).0 holds))
  | inr other ↦ rw other (first_holder-none token ts h.1)
]

reply_of_admitted :
    (sha256_hex : GoString → GoString) (down : TokenStatement → Bool) (o : Option Tenant)
    (t : Tenant)
    → tenant_entry sha256_hex down (reply_of o) ≡ admitted t
    → (u : Tenant) × (o ≡ some u) × (t ≡ id_and_name u)
unfolding tenant_entry reply_of
reply_of_admitted sha256_hex down none t h = cc h
reply_of_admitted sha256_hex down (some u) t h = (u, refl, cc h)

find_tenant_by_token_admitted :
    (sha256_hex : GoString → GoString) (down : TokenStatement → Bool) (hash : GoString)
    (ts : List Tenant) (t : Tenant)
    → tenant_entry sha256_hex down (find_tenant_by_token sha256_hex down hash ts) ≡ admitted t
    → (u : Tenant) × (first_holder hash ts ≡ some u) × (t ≡ id_and_name u)
unfolding find_tenant_by_token tenant_entry
find_tenant_by_token_admitted sha256_hex down hash ts t h = elim (Bool-cases (down find_token)) [
  | inl fails ↦ cc (rw fails at h)
  | inr answers ↦ reply_of_admitted sha256_hex down (first_holder hash ts) t (rw answers at h)
]

-- The middleware lets a request through with the id and the name of a tenant of the table whose stored
-- token is the hash of the key in its header, and the key is not empty.
pub authenticate_key-Holder :
    (sha256_hex : GoString → GoString) (down : TokenStatement → Bool) (key : GoString)
    (ts : List Tenant) (t : Tenant)
    → authenticate_key sha256_hex down key ts ≡ admitted t
    → (is_empty key ≡ false) × (u : Tenant) × Holder (sha256_hex key) ts u × (t ≡ id_and_name u)
unfolding authenticate_key
authenticate_key-Holder sha256_hex down key ts t e = elim (Bool-cases (is_empty key)) [
  | inl empty ↦ cc (rw empty at e)
  | inr text ↦ elim (Bool-cases (is_empty (sha256_hex key))) [
    | inl no_hash ↦ cc (rw (text, no_hash) at e)
    | inr hash ↦
        let (u, found, is_u) =
          find_tenant_by_token_admitted sha256_hex down (sha256_hex key) ts t
            (rw (text, hash) at e) in
        (text, u, first_holder-Holder (sha256_hex key) ts u found, is_u)
  ]
]

token_set-lacks :
    (sha256_hex : GoString → GoString) (down : TokenStatement → Bool) (id token hash : GoString)
    (ts : List Tenant)
    → hash ≢ token
    → All (λ t. t.token_api_auth ≢ some hash) ts
    → All (λ t. t.token_api_auth ≢ some hash) (map (token_set sha256_hex down id token) ts)
unfolding token_set
token_set-lacks sha256_hex down id token hash [] differs h = tt
token_set-lacks sha256_hex down id token hash (t ∷ ts) differs h =
    let later = token_set-lacks sha256_hex down id token hash ts differs h.1 in
    elim (Bool-cases (t.id === id)) [
      | inl it ↦ rw it (λ e. differs (some_text hash token (sym e)), later)
      | inr other ↦ rw other (h.0, later)
    ]
  where
    some_text : (a b : GoString) → some a ≡ some b → a ≡ b
    some_text a b e = cc e

token_for_granted :
    (sha256_hex : GoString → GoString) (down : TokenStatement → Bool) (id hash token : GoString)
    (error : Option AuthError) (ts ts' : List Tenant)
    → is_empty id ≡ false
    → is_empty hash ≡ false
    → token_for sha256_hex down id hash error ts ≡ (granted token, ts')
    → (token ≡ hash) × (ts' ≡ map (token_set sha256_hex down id hash) ts)
unfolding token_for token_saved update_token_api_auth
token_for_granted sha256_hex down id hash token (some x) ts ts' named full e =
    let differs : denied x ≡ granted token = ap (λ r. r.0) e in cc differs
token_for_granted sha256_hex down id hash token none ts ts' named full e =
    elim (Bool-cases (down update_token)) [
      | inl fails ↦
          let stopped : (denied (member_class_error 500 update_message), ts)
              ≡ (granted token, ts') =
            rw (named, full, fails) at e in
          let differs : denied (member_class_error 500 update_message) ≡ granted token =
            ap (λ r. r.0) stopped in
          cc differs
      | inr answers ↦
          let same : (granted hash, map (token_set sha256_hex down id hash) ts)
              ≡ (granted token, ts') =
            rw (named, full, answers) at e in
          (sym (granted_same hash token (ap (λ r. r.0) same)), sym (ap (λ r. r.1) same))
    ]

generate_token_granted :
    (sha256_hex : GoString → GoString) (down : TokenStatement → Bool) (uuid id token : GoString)
    (ts ts' : List Tenant)
    → is_empty (sha256_hex uuid) ≡ false
    → generate_token sha256_hex down uuid id ts ≡ (granted token, ts')
    → (token ≡ sha256_hex uuid) × (ts' ≡ map (token_set sha256_hex down id (sha256_hex uuid)) ts)
unfolding generate_token generate_hash
generate_token_granted sha256_hex down uuid id token ts ts' full e =
    elim (Bool-cases (is_empty id)) [
      | inl no_id ↦
          let stopped : (denied (other_error (str "tenantID is required")), ts)
              ≡ (granted token, ts') =
            rw no_id at e in
          let differs : denied (other_error (str "tenantID is required")) ≡ granted token =
            ap (λ r. r.0) stopped in
          cc differs
      | inr named ↦
          token_for_granted sha256_hex down id (sha256_hex uuid) token
            (find_by_id_error sha256_hex down id ts) ts ts' named full (rw named at e)
    ]

-- Where no stored token is the hash of the key, the middleware turns the request away.
authenticate_key-lacks :
    (sha256_hex : GoString → GoString) (down : TokenStatement → Bool) (key : GoString)
    (ts : List Tenant)
    → All (λ t. t.token_api_auth ≢ some (sha256_hex key)) ts
    → authenticate_key sha256_hex down key ts ≡ turned_away 401 (str "API key invalid")
unfolding authenticate_key validate_token find_tenant_by_token tenant_entry reply_of
authenticate_key-lacks sha256_hex down key ts h =
    let nobody = first_holder-none (sha256_hex key) ts h in
    elim (Bool-cases (is_empty key)) [
      | inl empty ↦ rw empty refl
      | inr text ↦ rw text elim (Bool-cases (is_empty (sha256_hex key))) [
        | inl no_hash ↦ rw no_hash refl
        | inr hash ↦ rw hash elim (Bool-cases (down find_token)) [
          | inl fails ↦ rw fails refl
          | inr answers ↦ rw (answers, nobody) refl
        ]
      ]
    ]

-- The token that GenerateToken returns does not open the interface: it is the stored hash itself, and
-- the middleware hashes what it is sent once more. The hash of the token must not be the token, nor be
-- stored for another tenant.
pub generate_token-authenticate_key :
    (sha256_hex : GoString → GoString) (down : TokenStatement → Bool) (uuid id token : GoString)
    (ts ts' : List Tenant)
    → is_empty (sha256_hex uuid) ≡ false
    → sha256_hex (sha256_hex uuid) ≢ sha256_hex uuid
    → All (λ t. t.token_api_auth ≢ some (sha256_hex (sha256_hex uuid))) ts
    → generate_token sha256_hex down uuid id ts ≡ (granted token, ts')
    → authenticate_key sha256_hex down token ts' ≡ turned_away 401 (str "API key invalid")
generate_token-authenticate_key sha256_hex down uuid id token ts ts' full differs fresh e =
    let (same, table) = generate_token_granted sha256_hex down uuid id token ts ts' full e in
    rw (same, table)
      (authenticate_key-lacks sha256_hex down (sha256_hex uuid) _ (
        token_set-lacks sha256_hex down id (sha256_hex uuid) (sha256_hex (sha256_hex uuid)) ts
          differs fresh))
