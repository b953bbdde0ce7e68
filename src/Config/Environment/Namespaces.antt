-- ===== src/Config/Environment/Namespaces.antt =====
-- The configurations that read `process.env`: src/config/database.config.ts, redis.config.ts,
-- mq.config.ts, areas.config.ts, app.config.ts and the last lines of worker.config.ts, with
-- `requireEnv` of env.util.ts.
use geofence_location.Prelude.{
  ℕ, zero, suc, Option, none, some, List, [], ◌∷◌, eqb, decimal, ℤ, pos, negsuc, if◌then◌else◌,
}
use geofence_location.Config.{Spec, trim_start, read_number, parse_partition_spec}
use geofence_location.Config.Environment.{
  EnvKey, node_env, port, postgres_host, postgres_port, postgres_user, postgres_password,
  postgres_db, postgres_pool_size, postgres_acquire_timeout_ms, postgres_statement_timeout_ms,
  postgres_idle_txn_timeout_ms, areas_poll_interval_ms, redis_host, redis_port, redis_password,
  presence_cache_ttl_empty_s, presence_cache_ttl_non_empty_s, rabbit_mq_host, rabbit_mq_port,
  rabbit_mq_user, rabbit_mq_password, worker_partitions, worker_prefetch, default_pool_size,
  default_areas_poll_interval_ms, default_presence_cache_ttl_empty_s,
  default_presence_cache_ttl_nonempty_s, default_acquire_timeout_ms, default_statement_timeout_ms,
  default_idle_txn_timeout_ms, Environment,
}

-- a factory's result; `missing` is the error that `requireEnv` throws
pub data Loaded (A : Type 0) : Type 0 where
  loaded : A → Loaded A
  missing : EnvKey → Loaded A

infixl 5 ◌>>=◌
abbrev pub ◌>>=◌ : {A B : Type 0} → Loaded A → (A → Loaded B) → Loaded B
loaded a >>= f = f a
missing key >>= f = missing key

-- requireEnv
unfoldable pub require_env : Environment → EnvKey → Loaded (List ℕ)
require_env env key = elim (env key) [
  | none ↦ missing key
  | some value ↦ elim value [ [] ↦ missing key | c ∷ cs ↦ loaded (c ∷ cs) ]
]

abbrev pub negate : ℕ → ℤ
negate zero = pos zero
negate (suc n) = negsuc n

-- `parseInt(text, 10)`: none for NaN
unfoldable pub signed : (ℕ → ℤ) → List ℕ → Option ℤ
signed sign cs = elim (read_number cs) [ none ↦ none | some read ↦ some (sign read.0) ]

unfoldable pub parse_int : List ℕ → Option ℤ
unfolding signed
parse_int text = elim (trim_start text) [
  | [] ↦ none
  | c ∷ cs ↦
      if eqb c b'-'
      then signed negate cs
      else if eqb c b'+'
      then signed pos cs
      else signed pos (c ∷ cs)
]

abbrev pub or_fallback : Option (List ℕ) → List ℕ → List ℕ
or_fallback none fallback = fallback
or_fallback (some value) fallback = value

-- intFromEnv
unfoldable pub int_from_env : Environment → EnvKey → ℕ → Option ℤ
int_from_env env key fallback = parse_int (or_fallback (env key) (decimal fallback))

pub record DatabaseConfig : Type 0 where
  pub host : List ℕ
  pub port_number : Option ℤ
  pub username : List ℕ
  pub password : List ℕ
  pub database : List ℕ
  pub pool_size : Option ℤ
  pub acquire_timeout_ms : Option ℤ
  pub statement_timeout_ms : Option ℤ
  pub idle_txn_timeout_ms : Option ℤ

unfoldable pub database_config : Environment → Loaded DatabaseConfig
database_config env = do
  host ← require_env env postgres_host
  port_text ← require_env env postgres_port
  username ← require_env env postgres_user
  password ← require_env env postgres_password
  database ← require_env env postgres_db
  loaded (record {
    host = host;
    port_number = parse_int port_text;
    username = username;
    password = password;
    database = database;
    pool_size = int_from_env env postgres_pool_size default_pool_size;
    acquire_timeout_ms = int_from_env env postgres_acquire_timeout_ms default_acquire_timeout_ms;
    statement_timeout_ms =
        int_from_env env postgres_statement_timeout_ms default_statement_timeout_ms;
    idle_txn_timeout_ms = int_from_env env postgres_idle_txn_timeout_ms default_idle_txn_timeout_ms;
  })

-- the configuration of the Redis client and of the cache's two lifetimes
pub record RedisSettings : Type 0 where
  pub host : List ℕ
  pub port_number : Option ℤ
  pub password : List ℕ
  pub presence_ttl_empty_s : Option ℤ
  pub presence_ttl_non_empty_s : Option ℤ

unfoldable pub redis_config : Environment → Loaded RedisSettings
redis_config env = do
  host ← require_env env redis_host
  port_text ← require_env env redis_port
  loaded (record {
    host = host;
    port_number = parse_int port_text;
    password = or_fallback (env redis_password) [];
    presence_ttl_empty_s =
        int_from_env env presence_cache_ttl_empty_s default_presence_cache_ttl_empty_s;
    presence_ttl_non_empty_s =
        int_from_env env presence_cache_ttl_non_empty_s default_presence_cache_ttl_nonempty_s;
  })

pub record MqConfig : Type 0 where
  pub host : List ℕ
  pub port_number : Option ℤ
  pub user : List ℕ
  pub password : List ℕ

unfoldable pub mq_config : Environment → Loaded MqConfig
mq_config env = do
  host ← require_env env rabbit_mq_host
  port_text ← require_env env rabbit_mq_port
  user ← require_env env rabbit_mq_user
  password ← require_env env rabbit_mq_password
  loaded
      (record { host = host; port_number = parse_int port_text; user = user; password = password })

-- `pollIntervalMs`
unfoldable pub poll_interval_ms : Environment → Option ℤ
poll_interval_ms env = int_from_env env areas_poll_interval_ms default_areas_poll_interval_ms

abbrev development_text : List ℕ
development_text = b'd' ∷ b'e' ∷ b'v' ∷ b'e' ∷ b'l' ∷ b'o' ∷ b'p' ∷ b'm' ∷ b'e' ∷ b'n' ∷ b't' ∷ []

pub record AppConfig : Type 0 where
  pub environment : List ℕ
  pub port_number : Option ℤ

unfoldable pub app_config : Environment → AppConfig
app_config env = record {
  environment = or_fallback (env node_env) development_text;
  port_number = int_from_env env port 3000;
}

-- WorkerConfig, before the parser's error is thrown
unfoldable pub worker_config : Environment → Spec × Option ℤ
worker_config env = (
  parse_partition_spec (or_fallback (env worker_partitions) (b'0' ∷ b'-' ∷ b'7' ∷ [])),
  int_from_env env worker_prefetch 16,
)
