-- ===== src/RateLimit/Upload/Daily.antt =====
-- The daily quota of one user, over a Redis that answers.
use memberclass_backend_gola.Common.{
  ◌∷◌, [], ℕ, ◌+◌, ◌≤◌, ◌<◌, ◌≡◌, refl, ◌⊎◌, inl, inr, Bool, true, false, ◌&&◌, Option, none, some,
  arith, ltb, leb, if◌then◌else◌, Bool-cases, GoString, ◌===◌, is_empty, List, All,
}
use memberclass_backend_gola.Common.Int.{ℤ, pos, ltb_ℤ, half_64, wrap_sub, ◌+64◌, +64_pos}
use memberclass_backend_gola.Common.Decimal.{format_int, parse_int-format_int}
use memberclass_backend_gola.RateLimit.Cache.{
  ok, Redis, cache_get, cache_set, cache_increment, cache_exists, IsRedis,
}
use memberclass_backend_gola.RateLimit.Upload.{
  max_upload_size_per_day, upload_key, upload_info, UploadRequest, UploadContext, refused, served,
  get_current_upload_size, check_upload_limit, increment_upload_size, increment_after_upload,
  upload_route, upload_limit_expiration, UploadAnswer,
}

-- The key holds the total n; it may be missing while n is 0.
abbrev pub Stored : Option GoString → ℕ → Type 0
Stored v n = (v ≡ some (format_int (pos n))) ⊎ ((v ≡ none) × (n ≡ 0))

abbrev pub is_success : ℕ → Bool
is_success status = leb 200 status && ltb status 300

upload_info_allowed :
    (n size now : ℕ)
    → n + size < half_64
    → (upload_info (pos n) (pos size) now).allowed ≡ leb (n + size) max_upload_size_per_day
unfolding upload_info
upload_info_allowed n size now h = rw (+64_pos n size h) (ground arith)

-- A sum past 2^63 turns negative, and passes the test.
upload_info_overflow :
    (n size now : ℕ)
    → n < half_64
    → size < half_64
    → half_64 ≤ n + size
    → (upload_info (pos n) (pos size) now).allowed ≡ true
unfolding upload_info ◌+64◌ wrap_sub
upload_info_overflow n size now h k o = ground arith

-- What the handler finds in the context.
abbrev pub context_of : UploadRequest → ℕ → UploadContext
context_of q size = record { user_id = some q.user_id; file_size = some (pos size) }

module _ (r : Redis) {value : GoString → r.State → Option GoString} (lawful : IsRedis r value) where
  open r use {State}

  check_upload_Stored :
      (user : GoString) (size : ℤ) (now n : ℕ) (s : State)
      → Stored (value (upload_key user) s) n
      → n < half_64
      → check_upload_limit r user size now s ≡ (ok (upload_info (pos n) size now), s)
  unfolding check_upload_limit get_current_upload_size cache_get ◌===◌
  check_upload_Stored user size now n s (inl present) h =
      rw (lawful.get_present (upload_key user) _ s present)
        (rw (parse_int-format_int (pos n) (omega arith)) refl)
  check_upload_Stored user size now n s (inr (missing, zero_n)) h =
      rw (lawful.get_missing (upload_key user) s missing) (rw zero_n refl)

  increment_upload_Stored :
      (user : GoString) (size n : ℕ) (s : State)
      → Stored (value (upload_key user) s) n
      → n + size < half_64
      → (s' : State) × (increment_upload_size r user (pos size) s ≡ (ok tt, s'))
        × (value (upload_key user) s' ≡ some (format_int (pos (n + size))))
  unfolding increment_upload_size cache_exists cache_increment cache_set
  increment_upload_Stored user size n s (inl present) h =
      let (s1, added, v1) = lawful.incr_present (upload_key user) n size s present h in
      (s1, rw (lawful.exists_lem (upload_key user) s, present, added) refl, v1)
  increment_upload_Stored user size n s (inr (missing, zero_n)) h =
      let (s1, added, v1) = lawful.incr_missing (upload_key user) (pos size) s missing in
      let (s2, stored, v2) =
        lawful.set_lem (upload_key user) (format_int (pos size)) upload_limit_expiration s1 in
      let total : n + size ≡ size = omega arith in
      (s2, rw (lawful.exists_lem (upload_key user) s, missing, added, stored) refl, rw total v2)

  -- One upload of `size` bytes, with no overflow of an int64: it is served exactly when the day's total
  -- with it stays within the maximum, is refused with 429 otherwise, and counts exactly when it is
  -- served with a status of success.
  pub upload_route-Stored :
      (handler : UploadContext → ℕ) (q : UploadRequest) (now n size : ℕ) (s : State)
      → is_empty q.user_id ≡ false
      → q.content_length ≡ pos size
      → 0 < size
      → n + size < half_64
      → Stored (value (upload_key q.user_id) s) n
      → let ctx = context_of q size in
        let fits = leb (n + size) max_upload_size_per_day in
        (s' : State) × (upload_route r handler q now s
          ≡ ((if fits then served (handler ctx) else refused 429), s'))
        × Stored
            (value (upload_key q.user_id) s')
            (if fits && is_success (handler ctx) then n + size else n)
  unfolding upload_route increment_after_upload
  upload_route-Stored handler q now n size s named sized some_size h c =
      let ctx = context_of q size in
      let checked = check_upload_Stored q.user_id (pos size) now n s c (omega arith) in
      let (s', added, v') = increment_upload_Stored q.user_id size n s c h in
      let large : ltb_ℤ (pos 0) (pos size) ≡ true = ground arith in
      let allowed = upload_info_allowed n size now h in
      elim (Bool-cases (leb (n + size) max_upload_size_per_day)) [
        | inl within ↦ elim (Bool-cases (is_success (handler ctx))) [
          | inl success ↦ (
            s',
            rw (sized, named, checked, large, allowed, within, success)
                (λ i. (served (handler ctx), (added i).1)),
            rw (within, success) (inl v'),
          )
          | inr failure ↦ (
            s,
            rw (sized, named, checked, large, allowed, within, failure) refl,
            rw (within, failure) c,
          )
        ]
        | inr beyond ↦ (s, rw (sized, named, checked, large, allowed, beyond) refl, rw beyond c)
      ]

  -- Defect: with something already counted, a Content-Length so large that the sum passes 2^63 turns
  -- the sum negative, and the upload is let through to the handler whatever the quota says.
  pub upload_route_overflow :
      (handler : UploadContext → ℕ) (q : UploadRequest) (now n size : ℕ) (s : State)
      → is_empty q.user_id ≡ false
      → q.content_length ≡ pos size
      → n < half_64
      → size < half_64
      → half_64 ≤ n + size
      → Stored (value (upload_key q.user_id) s) n
      → (upload_route r handler q now s).0 ≡ served (handler (context_of q size))
  unfolding upload_route increment_after_upload
  upload_route_overflow handler q now n size s named sized h k o c =
      let checked = check_upload_Stored q.user_id (pos size) now n s c h in
      let large : ltb_ℤ (pos 0) (pos size) ≡ true = ground arith in
      rw (sized, named, checked, large, upload_info_overflow n size now h k o) refl

-- The bytes that an answer counts.
abbrev pub counted : UploadAnswer → ℕ → ℕ
counted (refused _) size = 0
counted (served status) size = if is_success status then size else 0

-- Uploads of one user, one after the other: for each the time and the size. The sum that is counted.
unfoldable pub day_total :
    (r : Redis) → (UploadContext → ℕ) → GoString → List (ℕ × ℕ) → r.State → ℕ × r.State
day_total r handler user [] s = (0, s)
day_total r handler user ((now, size) ∷ rest) s =
    let (answer, s') =
      upload_route r handler (record { user_id = user; content_length = pos size }) now s in
    let (total, s'') = day_total r handler user rest s' in (counted answer size + total, s'')

abbrev pub IsUpload : ℕ × ℕ → Type 0
IsUpload (now, size) = (0 < size) × (size ≤ 1000000000000000000)

module _ (r : Redis) {value : GoString → r.State → Option GoString} (lawful : IsRedis r value) where
  open r use {State}

  -- While Redis answers and no key expires, and no upload is larger than 10^18 bytes, so that no sum
  -- overflows, the uploads of one user that are answered with success never add up to more than the
  -- daily maximum, whatever the handler answers. None is empty, the user is named, and what is counted
  -- before is within the maximum.
  pub day_total_bounded :
      (handler : UploadContext → ℕ) (user : GoString) (uploads : List (ℕ × ℕ)) (n : ℕ) (s : State)
      → is_empty user ≡ false
      → All IsUpload uploads
      → Stored (value (upload_key user) s) n
      → n ≤ max_upload_size_per_day
      → (day_total r handler user uploads s).0 + n ≤ max_upload_size_per_day
  unfolding day_total
  day_total_bounded handler user [] n s named all c h = omega arith
  day_total_bounded handler user ((now, size) ∷ rest) n s named ((some_size, small), all) c h =
      let q : UploadRequest = record { user_id = user; content_length = pos size } in
      let (s', step, c') =
        upload_route-Stored r lawful handler q now n size s named refl some_size (omega arith) c in
      elim (Bool-cases
        (leb (n + size) max_upload_size_per_day && is_success (handler (context_of q size)))) [
          | inl added ↦
              let ih =
                day_total_bounded handler user rest (n + size) s' named all (rw added at c')
                  (ground arith) in
              rw step (ground (arith, ih))
          | inr kept ↦
              let ih = day_total_bounded handler user rest n s' named all (rw kept at c') h in
              rw step (ground (arith, ih))
        ]
