-- ===== src/RateLimit/Middleware/Answers.antt =====
-- The answers of the rate limiting middlewares, and the address of the client.
use memberclass_backend_gola.Common.{
  ℕ, ◌/◌, String, Bool, false, not, List, [], ◌∷◌, ◌++◌, ltb, ◌==◌, if◌then◌else◌, GoString, str,
  is_empty, until, trim_space,
}
use memberclass_backend_gola.Common.Decimal.{format_nat, format_int}
use memberclass_backend_gola.RateLimit.Tenant.{RateLimitInfo}
use text.Mathlib.Text.{◌==◌ as same_name}

-- net/http Header, with one value for each name; Set replaces it.
abbrev pub Headers : Type 0
Headers = List (String × GoString)

unfoldable pub set_header : String → GoString → Headers → Headers
set_header name value [] = (name, value) ∷ []
set_header name value ((n, v) ∷ rest) =
    if same_name n name then (name, value) ∷ rest else (n, v) ∷ set_header name value rest

unfoldable pub set_rate_limit_headers : Headers → RateLimitInfo → Headers
unfolding set_header
set_rate_limit_headers headers info =
    let limited = set_header "X-RateLimit-Limit" (format_nat info.limit) headers in
    let counted = set_header "X-RateLimit-Remaining" (format_int info.remaining) limited in
    let dated = set_header "X-RateLimit-Reset" (format_nat (info.reset / 1000000000)) counted in
    if ltb 0 info.retry_after
    then set_header "Retry-After" (format_nat info.retry_after) dated
    else dated

unfoldable pub format_retry_after : ℕ → GoString
format_retry_after seconds =
    let minutes = seconds / 60 in
    if ltb 0 minutes
    then (if minutes == 1 then str "1 minuto" else format_nat minutes ++ str " minutos")
    else if seconds == 1
    then str "1 segundo"
    else format_nat seconds ++ str " segundos"

-- The JSON body; the text of its field error is a constant around `wait`.
pub record RateLimitBody : Type 0 where
  pub ok : Bool
  pub wait : GoString
  pub error_code : String
  pub retry_after : ℕ

pub record Response : Type 0 where
  pub status : ℕ
  pub headers : Headers
  pub body : RateLimitBody

pub data Outcome : Type 0 where
  next : Headers → Outcome
  respond : Response → Outcome

unfoldable pub rate_limit_error : Headers → RateLimitInfo → Response
unfolding set_header format_retry_after
rate_limit_error headers info =
    let typed = set_header "Content-Type" (str "application/json") headers in
    let limited = set_header "X-RateLimit-Limit" (format_nat info.limit) typed in
    let counted = set_header "X-RateLimit-Remaining" (format_int info.remaining) limited in
    let dated = set_header "X-RateLimit-Reset" (format_nat (info.reset / 1000000000)) counted in
    record {
      status = 429;
      headers = set_header "Retry-After" (format_nat info.retry_after) dated;
      body = record {
        ok = false;
        wait = format_retry_after info.retry_after;
        error_code = "RATE_LIMIT_EXCEEDED";
        retry_after = info.retry_after;
      };
    }

-- The parts of a request that name the client: two headers and the remote address.
pub record IpRequest : Type 0 where
  pub x_forwarded_for : GoString
  pub x_real_ip : GoString
  pub remote_addr : GoString

unfoldable pub get_client_ip : IpRequest → GoString
get_client_ip q =
    if not (is_empty q.x_forwarded_for)
    then trim_space (until b',' q.x_forwarded_for)
    else if not (is_empty q.x_real_ip)
    then trim_space q.x_real_ip
    else until b':' q.remote_addr
