-- ===== src/RateLimit/Examples.antt =====
-- A Redis in memory, in which no command fails and no key expires, and runs of the limiters over it.
use memberclass_backend_gola.Common.{
  ℕ, ◌+◌, ◌-◌, ◌≤◌, ◌<◌, min, ◌≡◌, refl, inl, Option, none, some, [], ◌∷◌, arith, if◌then◌else◌,
  is_some, GoString, str, ◌===◌, text_eq_refl,
}
use memberclass_backend_gola.Common.Int.{ℤ, pos, half_64, ◌+64◌, +64_pos}
use memberclass_backend_gola.Common.Decimal.{format_int, parse_int, parse_int-format_int}
use memberclass_backend_gola.RateLimit.Cache.{message, Result, ok, err, Redis, IsRedis}
use memberclass_backend_gola.RateLimit.Tenant.{tenant_key}
use memberclass_backend_gola.RateLimit.Middleware.{IpRequest, get_client_ip}
use memberclass_backend_gola.RateLimit.Middleware.IpQuota.{
  count_passed_ip, ip_key, count_passed_ip_quota,
}
use memberclass_backend_gola.Common.{trim_space}
use memberclass_backend_gola.RateLimit.Middleware.{TenantRequest}
use memberclass_backend_gola.RateLimit.Upload.{
  UploadContext, UploadRequest, served, upload_key, upload_route, max_upload_size_per_day,
}
use memberclass_backend_gola.RateLimit.Upload.Daily.{
  Stored, upload_route-Stored, upload_route_overflow, day_total, day_total_bounded,
}

abbrev Memory : Type 0
Memory = GoString → Option GoString

abbrev put : GoString → GoString → Memory → Memory
put k v s j = if k === j then some v else s j

put_self : (k v : GoString) (s : Memory) → put k v s k ≡ some v
put_self k v s = rw (text_eq_refl k)

abbrev read : Option GoString → Result GoString
read none = err (message (str "redis: nil"))
read (some v) = ok v

abbrev added : GoString → ℤ → Memory → Option ℤ → Result ℤ × Memory
added k d s none = (err (message (str "ERR value is not an integer or out of range")), s)
added k d s (some z) = (ok (z +64 d), put k (format_int (z +64 d)) s)

abbrev add_to : GoString → ℤ → Memory → Option GoString → Result ℤ × Memory
add_to k d s none = (ok d, put k (format_int d) s)
add_to k d s (some v) = added k d s (parse_int v)

abbrev memory : Redis
memory = record {
  State = Memory;
  get = λ k s. (read (s k), s);
  set = λ k v e s. (ok tt, put k v s);
  incr_by = λ k d s. add_to k d s (s k);
  exists = λ k s. (ok (if is_some (s k) then 1 else 0), s);
  ttl = λ k s. (ok (pos 30000000000), s);
  del = λ k s. (ok tt, λ j. if k === j then none else s j);
}

abbrev value : GoString → Memory → Option GoString
value k s = s k

memory_incr :
    (k : GoString) (n m : ℕ) (s : Memory)
    → s k ≡ some (format_int (pos n))
    → n + m < half_64
    → (s' : Memory) × (add_to k (pos m) s (s k) ≡ (ok (pos (n + m)), s'))
      × (s' k ≡ some (format_int (pos (n + m))))
memory_incr k n m s e h = (
  put k (format_int (pos (n + m))) s,
  rw e (rw (parse_int-format_int (pos n) (omega arith)) (rw (+64_pos n m h) refl)),
  put_self k (format_int (pos (n + m))) s,
)

memory-IsRedis : IsRedis memory value
memory-IsRedis = record {
  get_missing = λ k s e. rw e refl;
  get_present = λ k v s e. rw e refl;
  exists_lem = λ k s. refl;
  ttl_lem = λ k s. (pos 30000000000, refl);
  incr_missing = λ k d s e. (put k (format_int d) s, rw e refl, put_self k (format_int d) s);
  incr_present = memory_incr;
  set_lem = λ k v e s. (put k v s, refl, put_self k v s);
}

abbrev fresh : Memory
fresh k = none

abbrev lessons : TenantRequest
lessons = record { query_tenant = str "t1"; context_tenant = none; path = str "/api/v1/lessons" }

abbrev lessons_key : GoString
lessons_key = tenant_key (str "t1") (str "/api/v1/lessons")

-- 49 requests of the tenant are counted.
abbrev nearly_full : Memory
nearly_full = put lessons_key (str "49") fresh

abbrev full : Memory
full = put lessons_key (str "50") fresh

abbrev upload : UploadRequest
upload = record { user_id = str "u1"; content_length = pos 700 }

-- One byte is counted.
abbrev one_byte : Memory
one_byte = put (upload_key (str "u1")) (str "1") fresh

one_byte-Stored : Stored (value (upload_key (str "u1")) one_byte) 1
unfolding ◌===◌ format_int
one_byte-Stored = inl refl

abbrev created : UploadContext → ℕ
created ctx = 201

upload_route-Stored_example :
    (s' : Memory) × (upload_route memory created upload 0 one_byte ≡ (served 201, s'))
    × Stored (value (upload_key (str "u1")) s') 701
upload_route-Stored_example =
    upload_route-Stored memory memory-IsRedis created upload 0 1 700 one_byte refl refl
      (omega arith) (omega arith) one_byte-Stored

day_total_bounded_example :
    (day_total memory created (str "u1") ((0, 700) ∷ (5, 10737418000) ∷ []) one_byte).0 + 1
    ≤ max_upload_size_per_day
day_total_bounded_example =
    day_total_bounded memory memory-IsRedis created (str "u1") ((0, 700) ∷ (5, 10737418000) ∷ []) 1
      one_byte refl (omega arith) one_byte-Stored (omega arith)

upload_route_overflow_example :
    (upload_route memory created
      (record { user_id = str "u1"; content_length = pos 9223372036854775807 })
      0
      one_byte).0
    ≡ served 201
upload_route_overflow_example =
    upload_route_overflow memory memory-IsRedis created
      (record { user_id = str "u1"; content_length = pos 9223372036854775807 }) 0 1
      9223372036854775807 one_byte refl refl (omega arith) (omega arith) (omega arith)
      one_byte-Stored

-- 49 requests from an address are counted.
abbrev from_address : IpRequest
from_address = record { x_forwarded_for = []; x_real_ip = str "1.2"; remote_addr = [] }

abbrev address_nearly_full : Memory
address_nearly_full = put (ip_key (str "1.2")) (str "49") fresh

count_passed_ip_quota_example :
    (count_passed_ip memory from_address (1 ∷ 2 ∷ 3 ∷ []) address_nearly_full).0 ≡ min 3 (50 - 49)
unfolding get_client_ip trim_space ◌===◌ format_int
count_passed_ip_quota_example =
    count_passed_ip_quota memory memory-IsRedis from_address refl (1 ∷ 2 ∷ 3 ∷ []) 49
      address_nearly_full refl (omega arith)
