-- ===== src/Store/Connect.antt =====
-- internal/ads/store.go: how the client of the registry is made. What the Redis library does with its
-- options is outside; a Duration is its nanoseconds.
use adserver.Common.Int.{ℤ}
use adserver.Common.Text.{Str, bytes}
use adserver.Common.{true, false, [], ◌∷◌, if◌then◌else◌, ℕ, Bool, List}

pub record RedisStoreOptions : Type 0 where
  pub addrs : List Str
  pub password : Str
  pub db : ℤ
  pub prefix : Str
  pub cluster : Bool

-- The options of the library that both kinds of client are given.
pub record RedisLimits : Type 0 where
  pub max_retries : ℕ
  pub min_retry_backoff : ℕ
  pub max_retry_backoff : ℕ
  pub dial_timeout : ℕ
  pub read_timeout : ℕ
  pub write_timeout : ℕ

abbrev redis_limits : RedisLimits
redis_limits = record {
  max_retries = 3;
  min_retry_backoff = 8000000;
  max_retry_backoff = 80000000;
  dial_timeout = 300000000;
  read_timeout = 500000000;
  write_timeout = 500000000;
}

-- A cluster's addresses, password, `ReadOnly` and `MaxRedirects`; a server's address, password, database,
-- `PoolSize` and `MinIdleConns`.
pub data RedisClient : Type 0 where
  cluster_client : List Str → Str → Bool → ℕ → RedisLimits → RedisClient
  single_client : Str → Str → ℤ → ℕ → ℕ → RedisLimits → RedisClient

pub record RedisStore : Type 0 where
  pub client : RedisClient
  pub has_cluster : Bool
  pub prefix : Str

abbrev default_addr : Str
default_addr = bytes "127.0.0.1:6379"

-- The first address, of one or more.
unfoldable pub first_addr : List Str → Str
first_addr [] = default_addr
first_addr (a ∷ rest) = a

unfoldable pub new_redis_store_with_options : RedisStoreOptions → RedisStore
unfolding first_addr
new_redis_store_with_options o =
    if o.cluster
    then record {
      client =
          cluster_client (elim o.addrs [ [] ↦ default_addr ∷ [] | a ∷ rest ↦ a ∷ rest ]) o.password
            false 8 redis_limits;
      has_cluster = true;
      prefix = o.prefix;
    }
    else record {
      client = single_client (first_addr o.addrs) o.password o.db 128 8 redis_limits;
      has_cluster = false;
      prefix = o.prefix;
    }

unfoldable pub new_redis_store : Str → Str → ℤ → Str → RedisStore
unfolding new_redis_store_with_options
new_redis_store addr password db prefix =
    new_redis_store_with_options
      (record { addrs = addr ∷ []; password = password; db = db; prefix = prefix; cluster = false })
