-- ===== src/Auth/Bearer.antt =====
-- internal/application/middlewares/auth/auth_bearer_middleware.go. What the file calls of the standard
-- library is a parameter: HMAC with SHA-256, base64, and the decoding of the two JSON objects. The
-- time is in seconds. Log lines are left out.
use memberclass_backend_gola.Common.{
  Bool, false, not, ◌||◌, Option, none, some, List, [], ◌∷◌, ◌++◌, leb, ◌==◌, if◌then◌else◌, length,
  take, drop, GoString, str, ◌===◌, is_empty, split, trim_space, to_lower,
}
use memberclass_backend_gola.Common.Int.{ℤ, pos, negsuc, ltb_ℤ}

pub record AuthUser : Type 0 where
  pub user_id : GoString
  pub email : GoString
  pub role : GoString
  pub exp : ℤ
  pub iat : ℤ

pub record Crypto : Type 0 where
  pub hmac : GoString → GoString → GoString  -- the secret, and the message
  pub decode_base64 : GoString → Option GoString
  pub header_alg : GoString → Option GoString
  pub claims : GoString → Option AuthUser

-- A value or the text of an error.
pub data Checked (A : Type 0) : Type 0 where
  valid : A → Checked A
  invalid : GoString → Checked A

-- What the middleware does with a request: 401 with a message, or the next handler with the user.
pub data Passage : Type 0 where
  reject : GoString → Passage
  pass : AuthUser → Passage

-- strings.EqualFold on the letters of "bearer" is a comparison in lower case.
unfoldable pub extract_bearer_token : GoString → Option GoString
unfolding ◌===◌
extract_bearer_token authorization =
    let header = trim_space authorization in
    let token = trim_space (drop 7 header) in
    if is_empty header || leb (length header) 7
    then none
    else if not (to_lower (take 7 header) === str "bearer ")
    then none
    else if is_empty token
    then none
    else some token

module _ (c : Crypto) where
  unfoldable pub payload_of : Option GoString → Checked GoString
  payload_of none = invalid (str "invalid payload encoding")
  payload_of (some payload) = valid payload

  unfoldable pub signature_checked : GoString → Option GoString → GoString → Checked GoString
  unfolding payload_of
  signature_checked expected none encoded = invalid (str "invalid signature encoding")
  signature_checked expected (some actual) encoded =
      if expected === actual
      then payload_of (c.decode_base64 encoded)
      else invalid (str "invalid signature")

  unfoldable pub header_checked :
      Option GoString → GoString → GoString → GoString → GoString → Checked GoString
  unfolding signature_checked
  header_checked none secret h p s = invalid (str "invalid header json")
  header_checked (some alg) secret h p s =
      if alg === str "HS256"
      then signature_checked (c.hmac secret (h ++ (str "." ++ p))) (c.decode_base64 s) p
      else invalid (str "unsupported algorithm: " ++ alg)

  unfoldable pub header_decoded :
      Option GoString → GoString → GoString → GoString → GoString → Checked GoString
  unfolding header_checked
  header_decoded none secret h p s = invalid (str "invalid header encoding")
  header_decoded (some header) secret h p s = header_checked (c.header_alg header) secret h p s

  unfoldable pub parts_checked : List GoString → GoString → Checked GoString
  unfolding header_decoded
  parts_checked (h ∷ p ∷ s ∷ []) secret = header_decoded (c.decode_base64 h) secret h p s
  parts_checked _ secret = invalid (str "malformed token")

  unfoldable pub verify_hs256 : GoString → GoString → Checked GoString
  unfolding parts_checked
  verify_hs256 token secret = parts_checked (split b'.' token) secret

  abbrev pub is_zero : ℤ → Bool
  is_zero (pos n) = n == 0
  is_zero (negsuc n) = false

  unfoldable pub user_checked : ℤ → Option AuthUser → Checked AuthUser
  user_checked now none = invalid (str "json")
  user_checked now (some user) =
      if is_empty user.user_id
      then invalid (str "token payload missing sub claim")
      else if is_zero user.exp
      then invalid (str "token payload missing exp claim")
      else if not (ltb_ℤ now user.exp)
      then invalid (str "token expired")
      else valid user

  unfoldable pub payload_checked : ℤ → Checked GoString → Checked AuthUser
  unfolding user_checked
  payload_checked now (invalid e) = invalid e
  payload_checked now (valid payload) = user_checked now (c.claims payload)

  unfoldable pub verify : GoString → ℤ → GoString → Checked AuthUser
  unfolding payload_checked verify_hs256
  verify secret now raw =
      if is_empty secret
      then invalid (str "server is not configured with NEXTAUTH_SECRET")
      else payload_checked now (verify_hs256 raw secret)

  unfoldable pub passage_of : Checked AuthUser → Passage
  passage_of (invalid e) = reject (str "invalid or expired token")
  passage_of (valid user) = pass user

  unfoldable pub token_checked : GoString → ℤ → Option GoString → Passage
  unfolding verify passage_of
  token_checked secret now none = reject (str "missing or malformed Authorization header")
  token_checked secret now (some raw) = passage_of (verify secret now raw)

  unfoldable pub require_auth : GoString → ℤ → GoString → Passage
  unfolding token_checked extract_bearer_token
  require_auth secret now authorization =
      token_checked secret now (extract_bearer_token authorization)
