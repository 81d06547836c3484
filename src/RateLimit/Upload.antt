-- ===== src/RateLimit/Upload.antt =====
-- internal/infrastructure/adapters/rate_limiter/rate_limiter_upload.go and
-- internal/application/middlewares/rate_limit/rate_limit_middleware.go, as the route POST
-- /api/v1/videos/upload of internal/application/router/router.go stacks them.
pub mod Daily
use memberclass_backend_gola.Common.{
  ℕ, zero, suc, ◌+◌, ◌-◌, ◌*◌, ◌/◌, ◌%◌, ◌^◌, ◌≤◌, ◌<◌, min, String, ◌≡◌, refl, sym, ap, ◌∙◌,
  ◌≡⟨◌⟩◌, ◌∎, ◌≢◌, ◌↔◌, ◌⊎◌, inl, inr, Bool, true, false, not, ◌&&◌, ◌||◌, Option, none, some, List,
  [], ◌∷◌, ◌++◌, map, append-nil, append_assoc, arith, ltb, leb, ◌==◌, if◌then◌else◌, Bool-cases,
  Option-cases, is_some, ==_iff, ltb→lt, lt→ltb, leb→le, le→leb, length, take, drop, replicate, All,
  length-append, length-take, length-drop, take-append-drop, GoString, str, ◌===◌, text_eq_refl,
  text_eq_iff, is_empty, until, split, is_space, trim_left, trim_right, trim_space, to_lower_byte,
  to_lower,
}
use memberclass_backend_gola.Common.Int.{
  ℤ, pos, negsuc, pos_part, neg_part, sub_ℕ, ltb_ℤ, ◌≤ℤ◌, half_64, mod_64, wrap_sub, ◌+64◌, ◌-64◌,
  Fits, wrap_sub-pos, wrap_sub-negsuc, +64_pos, -64_pos, -64_negsuc,
}
use memberclass_backend_gola.Common.Decimal.{
  format_nat, format_int, parse_int, parse_int-format_int,
}
use memberclass_backend_gola.RateLimit.Cache.{
  GoError, message, not_a_number, Result, ok, err, Redis, cache_get, cache_set, cache_increment,
  cache_delete, cache_exists, cache_ttl, IsRedis,
}
use memberclass_backend_gola.RateLimit.Tenant.{nil_error}

-- 10 GB.
abbrev pub max_upload_size_per_day : ℕ
max_upload_size_per_day = 10737418240

-- 24 hours, in nanoseconds.
abbrev pub upload_limit_expiration : ℕ
upload_limit_expiration = 86400000000000

abbrev pub upload_key : GoString → GoString
upload_key key = str "rate_limit_upload_" ++ key

-- dto.RateLimitResponseDTO; the reset time is in seconds.
pub record UploadInfo : Type 0 where
  pub allowed : Bool
  pub current_size : ℤ
  pub max_size : ℕ
  pub remaining_size : ℤ
  pub reset_time : ℕ

unfoldable pub upload_info : ℤ → ℤ → ℕ → UploadInfo
upload_info current_size file_size now =
    let would_exceed = ltb_ℤ (pos max_upload_size_per_day) (current_size +64 file_size) in
    let remaining_size = pos max_upload_size_per_day -64 current_size in
    record {
      allowed = not would_exceed;
      current_size = current_size;
      max_size = max_upload_size_per_day;
      remaining_size = if ltb_ℤ remaining_size (pos 0) then pos 0 else remaining_size;
      reset_time = (now + upload_limit_expiration) / 1000000000;
    }

-- What the middlewares read of a request: the user_id header and Content-Length, -1 if it is not known.
pub record UploadRequest : Type 0 where
  pub user_id : GoString
  pub content_length : ℤ

-- The values that CheckUploadLimit leaves in the context.
pub record UploadContext : Type 0 where
  pub user_id : Option GoString
  pub file_size : Option ℤ

pub data UploadAnswer : Type 0 where
  refused : ℕ → UploadAnswer  -- WriteError or WriteErrorWithData with this status
  served : ℕ → UploadAnswer  -- the handler ran and answered with this status

module _ (r : Redis) where
  open r use {State}

  parsed_size : GoString → Option ℤ → Result ℤ
  parsed_size text none = err (not_a_number text)
  parsed_size text (some size) = ok size

  size_of_reply : Result GoString → Result ℤ
  unfolding parsed_size
  size_of_reply (err e) = if nil_error e then ok (pos 0) else err e
  size_of_reply (ok text) = parsed_size text (parse_int text)

  unfoldable pub get_current_upload_size : GoString → State → Result ℤ × State
  unfolding size_of_reply
  get_current_upload_size key s =
      let (reply, s') = cache_get r (upload_key key) s in (size_of_reply reply, s')

  info_of_size : ℤ → ℕ → Result ℤ → Result UploadInfo
  info_of_size file_size now (err e) = err e
  info_of_size file_size now (ok current_size) = ok (upload_info current_size file_size now)

  unfoldable pub check_upload_limit : GoString → ℤ → ℕ → State → Result UploadInfo × State
  unfolding info_of_size
  check_upload_limit key file_size now s =
      let (size, s') = get_current_upload_size key s in (info_of_size file_size now size, s')

  store_size : GoString → Bool → Result ℤ → State → Result (Unit {0}) × State
  store_size key known (err e) s = (err e, s)
  store_size key true (ok current_size) s = (ok tt, s)
  store_size key false (ok current_size) s =
      cache_set r key (format_int current_size) upload_limit_expiration s

  add_size : GoString → ℤ → Result Bool → State → Result (Unit {0}) × State
  unfolding store_size
  add_size key file_size (err e) s = (err e, s)
  add_size key file_size (ok known) s =
      let (size, s') = cache_increment r key file_size s in store_size key known size s'

  unfoldable pub increment_upload_size : GoString → ℤ → State → Result (Unit {0}) × State
  unfolding add_size
  increment_upload_size key file_size s =
      let (known, s') = cache_exists r (upload_key key) s in
      add_size (upload_key key) file_size known s'

  add_after : Option GoString → Option ℤ → State → State
  add_after none file_size s = s
  add_after (some user_id) none s = s
  add_after (some user_id) (some file_size) s = (increment_upload_size user_id file_size s).1

  -- The handler, a parameter, answers with a status; a status of success is counted.
  unfoldable pub increment_after_upload :
      (UploadContext → ℕ) → UploadContext → State → UploadAnswer × State
  unfolding add_after
  increment_after_upload handler ctx s =
      let status = handler ctx in
      (
        served status,
        if leb 200 status && ltb status 300 then add_after ctx.user_id ctx.file_size s else s,
      )

  upload_decided :
      (UploadContext → ℕ) → GoString → ℤ → Result UploadInfo → State → UploadAnswer × State
  upload_decided handler user_id file_size (err e) s = (refused 500, s)
  upload_decided handler user_id file_size (ok info) s =
      if not info.allowed
      then (refused 429, s)
      else increment_after_upload handler
          (record { user_id = some user_id; file_size = some file_size }) s

  -- CheckUploadLimit around IncrementAfterUpload around the handler.
  unfoldable pub upload_route :
      (UploadContext → ℕ) → UploadRequest → ℕ → State → UploadAnswer × State
  unfolding upload_decided
  upload_route handler q now s =
      let (info, s') = check_upload_limit q.user_id q.content_length now s in
      if is_empty q.user_id
      then (refused 400, s)
      else (if not (ltb_ℤ (pos 0) q.content_length)
          then (refused 400, s)
          else upload_decided handler q.user_id q.content_length info s')
