-- ===== src/RateLimit/Cache.antt =====
-- internal/infrastructure/adapters/cache/redis_cache.go. The go-redis client is a parameter: its
-- commands, over the state of the server. An error is known by its text, which is all that the
-- callers look at.
use memberclass_backend_gola.Common.Decimal.{format_int}
use memberclass_backend_gola.Common.{
  GoString, ℕ, Bool, Option, ltb, ◌≡◌, none, str, some, if◌then◌else◌, is_some, ◌+◌, ◌<◌,
}
use memberclass_backend_gola.Common.Int.{ℤ, pos, negsuc, half_64}

pub data GoError : Type 0 where
  message : GoString → GoError  -- an error of the client, with what Error() returns
  not_a_number : GoString → GoError  -- an error of strconv on this text

pub data Result {ℓ} (A : Type ℓ) : Type ℓ where
  ok : A → Result A
  err : GoError → Result A

-- go-redis: Get, Set, IncrBy, Exists, TTL and Del, each followed by Result() or Err(). Durations are
-- in nanoseconds; TTL is negative for a key that is missing or does not expire.
pub record Redis : Type 1 where
  pub State : Type 0
  pub get : GoString → State → Result GoString × State
  pub set : GoString → GoString → ℕ → State → Result (Unit {0}) × State
  pub incr_by : GoString → ℤ → State → Result ℤ × State
  pub exists : GoString → State → Result ℕ × State
  pub ttl : GoString → State → Result ℤ × State
  pub del : GoString → State → Result (Unit {0}) × State

-- `result > 0`
abbrev pub positive : Result ℕ → Result Bool
positive (ok n) = ok (ltb 0 n)
positive (err e) = err e

-- A negative time to live is reported as 0.
abbrev pub not_negative : Result ℤ → Result ℕ
not_negative (ok (pos n)) = ok n
not_negative (ok (negsuc n)) = ok 0
not_negative (err e) = err e

module _ (r : Redis) where
  open r use {State}

  unfoldable pub cache_get : GoString → State → Result GoString × State
  cache_get key s = r.get key s

  unfoldable pub cache_set : GoString → GoString → ℕ → State → Result (Unit {0}) × State
  cache_set key value expiration s = r.set key value expiration s

  unfoldable pub cache_increment : GoString → ℤ → State → Result ℤ × State
  cache_increment key value s = r.incr_by key value s

  unfoldable pub cache_delete : GoString → State → Result (Unit {0}) × State
  cache_delete key s = r.del key s

  unfoldable pub cache_exists : GoString → State → Result Bool × State
  cache_exists key s = let (n, s') = r.exists key s in (positive n, s')

  unfoldable pub cache_ttl : GoString → State → Result ℕ × State
  cache_ttl key s = let (t, s') = r.ttl key s in (not_negative t, s')

-- What the documentation of Redis says of its commands while no command fails and no key expires:
-- `value k s` is what key k holds in state s, and a counter holds a decimal number.
pub record IsRedis (r : Redis) (value : GoString → r.State → Option GoString) : Type 0 where
  pub get_missing :
      (k : GoString) (s : r.State)
      → value k s ≡ none
      → r.get k s ≡ (err (message (str "redis: nil")), s)
  pub get_present : (k v : GoString) (s : r.State) → value k s ≡ some v → r.get k s ≡ (ok v, s)
  pub exists_lem :
      (k : GoString) (s : r.State) → r.exists k s ≡ (ok (if is_some (value k s) then 1 else 0), s)
  pub ttl_lem : (k : GoString) (s : r.State) → (t : ℤ) × (r.ttl k s ≡ (ok t, s))
  pub incr_missing :
      (k : GoString) (d : ℤ) (s : r.State)
      → value k s ≡ none
      → (s' : r.State) × (r.incr_by k d s ≡ (ok d, s')) × (value k s' ≡ some (format_int d))
  pub incr_present :
      (k : GoString) (n m : ℕ) (s : r.State)
      → value k s ≡ some (format_int (pos n))
      → n + m < half_64
      → (s' : r.State) × (r.incr_by k (pos m) s ≡ (ok (pos (n + m)), s'))
        × (value k s' ≡ some (format_int (pos (n + m))))
  pub set_lem :
      (k v : GoString) (e : ℕ) (s : r.State)
      → (s' : r.State) × (r.set k v e s ≡ (ok tt, s')) × (value k s' ≡ some v)
