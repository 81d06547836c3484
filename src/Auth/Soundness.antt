-- ===== src/Auth/Soundness.antt =====
-- Who gets through the bearer middleware.
use memberclass_backend_gola.Auth.Bearer.{
  Crypto, AuthUser, user_checked, signature_checked, valid, payload_of, token_checked, require_auth,
  header_checked, payload_checked, Checked, verify, parts_checked, passage_of, is_zero,
  verify_hs256, pass, invalid, header_decoded, extract_bearer_token,
}
use memberclass_backend_gola.Common.{
  refl, sym, ap, ◌∙◌, [], Bool-cases, Option-cases, text_eq_iff, ◌===◌, inl, inr, ◌≡◌, refl, sym,
  ap, ◌∙◌, inl, inr, true, false, Option, none, some, List, [], ◌∷◌, ◌++◌, Bool-cases, Option-cases,
  GoString, str, ◌===◌, text_eq_iff, is_empty, split,
}
use memberclass_backend_gola.Common.Int.{ℤ, ltb_ℤ}

-- A token whose three parts decode, signed under the secret with HS256, whose claims are the user's,
-- with a subject, and which has not expired.
pub record IsGenuine (c : Crypto) (secret : GoString) (now : ℤ) (token : GoString) (user : AuthUser)
    : Type 0 where
  pub header : GoString
  pub payload : GoString
  pub header_part : GoString
  pub payload_part : GoString
  pub signature_part : GoString
  pub three_parts : split b'.' token ≡ header_part ∷ payload_part ∷ signature_part ∷ []
  pub header_decodes : c.decode_base64 header_part ≡ some header
  pub algorithm : c.header_alg header ≡ some (str "HS256")
  pub signed :
      c.decode_base64 signature_part
      ≡ some (c.hmac secret (header_part ++ (str "." ++ payload_part)))
  pub payload_decodes : c.decode_base64 payload_part ≡ some payload
  pub claims_of_user : c.claims payload ≡ some user
  pub has_secret : is_empty secret ≡ false
  pub has_subject : is_empty user.user_id ≡ false
  pub has_expiry : is_zero c user.exp ≡ false
  pub in_time : ltb_ℤ now user.exp ≡ true

module _ (c : Crypto) where
  value_or : {A : Type 0} → A → Checked A → A
  value_or u (valid v) = v
  value_or u (invalid e) = u

  value_same : {A : Type 0} → (u v : A) → valid u ≡ valid v → u ≡ v
  unfolding value_or
  value_same u v e = ap (value_or u) e

  user_checked_valid :
      (now : ℤ) (o : Option AuthUser) (user : AuthUser)
      → user_checked c now o ≡ valid user
      → (o ≡ some user)
        × (is_empty user.user_id ≡ false)
        × (is_zero c user.exp ≡ false)
        × (ltb_ℤ now user.exp ≡ true)
  unfolding user_checked
  user_checked_valid now none user e = cc e
  user_checked_valid now (some u) user e = elim (Bool-cases (is_empty u.user_id)) [
    | inl h ↦ cc (rw h at e)
    | inr h ↦ elim (Bool-cases (is_zero c u.exp)) [
      | inl k ↦ cc (rw (h, k) at e)
      | inr k ↦ elim (Bool-cases (ltb_ℤ now u.exp)) [
        | inl l ↦
            let same : u ≡ user = value_same u user (rw (h, k, l) at e) in
            (
              ap some same,
              ap (λ v. is_empty v.user_id) (sym same) ∙ h,
              ap (λ v. is_zero c v.exp) (sym same) ∙ k,
              ap (λ v. ltb_ℤ now v.exp) (sym same) ∙ l,
            )
        | inr l ↦ cc (rw (h, k, l) at e)
      ]
    ]
  ]

  payload_of_valid :
      (o : Option GoString) (payload : GoString) → payload_of c o ≡ valid payload → o ≡ some payload
  unfolding payload_of
  payload_of_valid none payload e = cc e
  payload_of_valid (some p) payload e = ap some (value_same p payload e)

  signature_checked_valid :
      (expected : GoString) (o : Option GoString) (p payload : GoString)
      → signature_checked c expected o p ≡ valid payload
      → (o ≡ some expected) × (c.decode_base64 p ≡ some payload)
  unfolding signature_checked
  signature_checked_valid expected none p payload e = cc e
  signature_checked_valid expected (some actual) p payload e =
      elim (Bool-cases (expected === actual)) [
        | inl same ↦ (
          ap some (sym ((text_eq_iff expected actual).0 same)),
          payload_of_valid (c.decode_base64 p) payload (rw same at e),
        )
        | inr other ↦ cc (rw other at e)
      ]

  header_checked_valid :
      (o : Option GoString) (secret h p s payload : GoString)
      → header_checked c o secret h p s ≡ valid payload
      → (o ≡ some (str "HS256"))
        × (c.decode_base64 s ≡ some (c.hmac secret (h ++ (str "." ++ p))))
        × (c.decode_base64 p ≡ some payload)
  unfolding header_checked
  header_checked_valid none secret h p s payload e = cc e
  header_checked_valid (some alg) secret h p s payload e = elim (Bool-cases (alg === str "HS256")) [
    | inl same ↦
        let (signed, decoded) =
          signature_checked_valid (c.hmac secret (h ++ (str "." ++ p))) (c.decode_base64 s) p
            payload (rw same at e) in
        (ap some ((text_eq_iff alg (str "HS256")).0 same), signed, decoded)
    | inr other ↦ cc (rw other at e)
  ]

  -- The parts of an accepted token.
  record Accepted (secret : GoString) (parts : List GoString) (payload : GoString) : Type 0 where
    header : GoString
    h : GoString
    p : GoString
    s : GoString
    shape : parts ≡ h ∷ p ∷ s ∷ []
    header_decodes : c.decode_base64 h ≡ some header
    algorithm : c.header_alg header ≡ some (str "HS256")
    signed : c.decode_base64 s ≡ some (c.hmac secret (h ++ (str "." ++ p)))
    payload_decodes : c.decode_base64 p ≡ some payload

  parts_checked_valid :
      (parts : List GoString) (secret payload : GoString)
      → parts_checked c parts secret ≡ valid payload
      → Accepted secret parts payload
  unfolding parts_checked header_decoded
  parts_checked_valid [] secret payload e = cc e
  parts_checked_valid (h ∷ []) secret payload e = cc e
  parts_checked_valid (h ∷ p ∷ []) secret payload e = cc e
  parts_checked_valid (h ∷ p ∷ s ∷ t ∷ rest) secret payload e = cc e
  parts_checked_valid (h ∷ p ∷ s ∷ []) secret payload e = elim (Option-cases (c.decode_base64 h)) [
    | inl bad ↦ cc (rw bad at e)
    | inr (header, good) ↦
        let (algorithm, signed, decoded) =
          header_checked_valid (c.header_alg header) secret h p s payload (rw good at e) in
        record {
          header = header;
          h = h;
          p = p;
          s = s;
          shape = refl;
          header_decodes = good;
          algorithm = algorithm;
          signed = signed;
          payload_decodes = decoded;
        }
  ]

  payload_checked_valid :
      (now : ℤ) (r : Checked GoString) (user : AuthUser)
      → payload_checked c now r ≡ valid user
      → (payload : GoString) × (r ≡ valid payload)
        × (user_checked c now (c.claims payload) ≡ valid user)
  unfolding payload_checked
  payload_checked_valid now (invalid t) user e = cc e
  payload_checked_valid now (valid payload) user e = (payload, refl, e)

  verify_valid :
      (secret : GoString) (now : ℤ) (raw : GoString) (user : AuthUser)
      → verify c secret now raw ≡ valid user
      → IsGenuine c secret now raw user
  unfolding verify verify_hs256
  verify_valid secret now raw user e = elim (Bool-cases (is_empty secret)) [
    | inl nothing ↦ cc (rw nothing at e)
    | inr has ↦
        let (payload, checked, claimed) =
          payload_checked_valid now (verify_hs256 c raw secret) user (rw has at e) in
        let a = parts_checked_valid (split b'.' raw) secret payload checked in
        let (claims, subject, expiry, in_time) =
          user_checked_valid now (c.claims payload) user claimed in
        record {
          header = a.header;
          payload = payload;
          header_part = a.h;
          payload_part = a.p;
          signature_part = a.s;
          three_parts = a.shape;
          header_decodes = a.header_decodes;
          algorithm = a.algorithm;
          signed = a.signed;
          payload_decodes = a.payload_decodes;
          claims_of_user = claims;
          has_secret = has;
          has_subject = subject;
          has_expiry = expiry;
          in_time = in_time;
        }
  ]

  passage_of_pass :
      (r : Checked AuthUser) (user : AuthUser) → passage_of c r ≡ pass user → r ≡ valid user
  unfolding passage_of
  passage_of_pass (invalid t) user e = cc e
  passage_of_pass (valid u) user e = cc e

  token_checked_pass :
      (secret : GoString) (now : ℤ) (o : Option GoString) (user : AuthUser)
      → token_checked c secret now o ≡ pass user
      → (token : GoString) × (o ≡ some token) × IsGenuine c secret now token user
  unfolding token_checked
  token_checked_pass secret now none user e = cc e
  token_checked_pass secret now (some token) user e = (
    token,
    refl,
    verify_valid secret now token user (passage_of_pass (verify c secret now token) user e),
  )

  -- Who gets through RequireAuth carries a bearer token that is signed with HS256 under the server's
  -- secret, which is not empty, whose claims are the user that the handler sees, with a subject, and
  -- whose expiry lies ahead.
  pub require_auth-IsGenuine :
      (secret : GoString) (now : ℤ) (authorization : GoString) (user : AuthUser)
      → require_auth c secret now authorization ≡ pass user
      → (token : GoString) × (extract_bearer_token authorization ≡ some token)
        × IsGenuine c secret now token user
  unfolding require_auth
  require_auth-IsGenuine secret now authorization user e =
      token_checked_pass secret now (extract_bearer_token authorization) user e
