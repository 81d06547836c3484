-- ===== src/Pdf/Keys.antt =====
-- The keys of iLovePDF, internal/infrastructure/adapters/external_services/ilovepdf/ilovepdf_service.go:
-- loadApiKeys, getActiveKey, blacklistKey, isCreditsExhaustedError, GetToken and GetTokenAndCreateTask,
-- over the cache on Redis. The requests of tryAuthenticate and CreateTask are parameters, asked with
-- the number of the attempt. LastUsed, which nothing reads, is left out, and the key in the text of an
-- error is whole.
use memberclass_backend_gola.Common.{
  ℕ, zero, suc, ◌-◌, ◌*◌, Bool, true, false, Option, none, some, List, [], ◌∷◌, ◌++◌, if◌then◌else◌,
  length, GoString, str, is_empty, split, trim_space, to_lower,
}
use memberclass_backend_gola.RateLimit.Cache.{
  message, Result, ok, err, Redis, cache_set, cache_exists,
}
use memberclass_backend_gola.Pdf.Cleanup.{contains_any}

unfoldable pub trimmed_keys : List GoString → List GoString
unfolding trim_space
trimmed_keys [] = []
trimmed_keys (s ∷ ss) =
    let rest = trimmed_keys ss in if is_empty (trim_space s) then rest else trim_space s ∷ rest

unfoldable pub keys_or_error : List GoString → Result (List GoString)
keys_or_error [] = err (message (str "no valid API keys found"))
keys_or_error (k ∷ ks) = ok (k ∷ ks)

-- On the value of ILOVEPDF_API_KEYS.
unfoldable pub load_api_keys : GoString → Result (List GoString)
unfolding keys_or_error trimmed_keys split
load_api_keys env =
    if is_empty env
    then err (message (str "ILOVEPDF_API_KEYS environment variable not set"))
    else keys_or_error (trimmed_keys (split b',' env))

abbrev pub blacklist_entry : GoString → GoString
blacklist_entry key = str "ilovepdf_blacklist:" ++ key

-- 30 days in nanoseconds.
abbrev pub blacklist_ttl : ℕ
blacklist_ttl = 30 * 24 * 3600 * 1000000000

unfoldable pub is_credits_exhausted_error : GoString → Bool
unfolding contains_any
is_credits_exhausted_error text =
    contains_any (to_lower text)
      (str "credits" ∷ str "exhausted" ∷ str "quota" ∷ str "credit limit" ∷ str "rate limit" ∷ [])

-- How a request ends: with a value, or with an error by its text.
pub data Answered (A : Type 0) : Type 0 where
  response : A → Answered A
  failure : GoString → Answered A

-- How a key serves: it gives a value, its credits are gone, or the call gives up.
pub data Served (A : Type 0) : Type 0 where
  served : A → Served A
  spent : GoString → Served A
  gave_up : GoString → Served A

-- The errors: no key is active, with the error before if there is one; the key failed; every attempt is
-- used up, with the last error.
pub data KeyError : Type 0 where
  no_active_key : Option GoString → KeyError
  key_failed : GoString → GoString → KeyError
  all_exhausted : ℕ → Option GoString → KeyError

pub data Rotation (A : Type 0) : Type 0 where
  found : A → Rotation A
  stopped : KeyError → Rotation A

module _ {A : Type 0} where
  unfoldable pub by_its_error : GoString → Served A
  unfolding is_credits_exhausted_error
  by_its_error text = if is_credits_exhausted_error text then spent text else gave_up text

  unfoldable pub served_by : Answered A → Served A
  unfolding by_its_error
  served_by (response a) = served a
  served_by (failure text) = by_its_error text

module _ {Token Task : Type 0} (create_task : Token → ℕ → Answered Task) where
  unfoldable pub task_of : Token → Answered Task → Served (Token × Task)
  unfolding by_its_error
  task_of token (response task) = served (token, task)
  task_of token (failure text) = by_its_error text

  unfoldable pub token_and_task : ℕ → Answered Token → Served (Token × Task)
  unfolding task_of by_its_error
  token_and_task n (response token) = task_of token (create_task token n)
  token_and_task n (failure text) = by_its_error text

module _ (r : Redis) where
  open r use {State}

  unfoldable pub active_or_next :
      GoString → Result Bool × State → Option GoString × State → Option GoString × State
  active_or_next key (ok false, s) rest = (some key, s)
  active_or_next key (ok true, s) rest = rest
  active_or_next key (err e, s) rest = rest

  unfoldable pub get_active_key : List GoString → State → Option GoString × State
  unfolding active_or_next cache_exists
  get_active_key [] s = (none, s)
  get_active_key (key ∷ keys) s =
      let found = cache_exists r (blacklist_entry key) s in
      active_or_next key found (get_active_key keys found.1)

  unfoldable pub blacklist_key : GoString → State → Result (Unit {0}) × State
  unfolding cache_set
  blacklist_key key s = cache_set r (blacklist_entry key) (str "exhausted") blacklist_ttl s

  -- What an attempt does with the answer of its key; `again` is the loop from the next attempt on.
  unfoldable pub after_key :
      {A : Type 0}
      → (Option GoString → State → Rotation A × State)
      → GoString
      → Served A
      → State
      → Rotation A × State
  unfolding blacklist_key
  after_key again key (served a) s = (found a, s)
  after_key again key (spent text) s = again (some text) (blacklist_key key s).1
  after_key again key (gave_up text) s = (stopped (key_failed key text), s)

  unfoldable pub with_active_key :
      {A : Type 0}
      → (Option GoString → State → Rotation A × State)
      → (GoString → Served A)
      → Option GoString
      → Option GoString × State
      → Rotation A × State
  unfolding after_key
  with_active_key again use_key last (none, s) = (stopped (no_active_key last), s)
  with_active_key again use_key last (some key, s) = after_key again key (use_key key) s

  -- The loop that GetToken and GetTokenAndCreateTask share, with the attempts that are left of `total`.
  unfoldable pub rotate :
      {A : Type 0}
      → (GoString → ℕ → Served A)
      → List GoString
      → ℕ
      → ℕ
      → Option GoString
      → State
      → Rotation A × State
  unfolding with_active_key get_active_key
  rotate use_key keys total zero last s = (stopped (all_exhausted total last), s)
  rotate use_key keys total (suc left) last s =
      with_active_key (rotate use_key keys total left) (λ key. use_key key (total - suc left)) last
        (get_active_key keys s)

  module _ {Token : Type 0} (try_authenticate : GoString → ℕ → Answered Token) where
    unfoldable pub get_token : List GoString → State → Rotation Token × State
    unfolding rotate served_by
    get_token keys s =
        rotate (λ key n. served_by (try_authenticate key n)) keys (length keys) (length keys) none s

    unfoldable pub get_token_and_create_task :
        {Task : Type 0}
        → (Token → ℕ → Answered Task)
        → List GoString
        → State
        → Rotation (Token × Task) × State
    unfolding rotate token_and_task
    get_token_and_create_task create_task keys s =
        rotate (λ key n. token_and_task create_task n (try_authenticate key n)) keys (length keys)
          (length keys) none s
