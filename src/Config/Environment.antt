-- ===== src/Config/Environment.antt =====
-- src/config/env.validation.ts and config.constants.ts: the schema of the environment. A text is the
-- list of its characters. Joi is a parameter. The configurations that read the environment are in
-- Environment/Namespaces.
pub mod Namespaces
pub mod Settings
pub mod Checked
use geofence_location.Prelude.{ℕ, Option, none, some, List, [], ◌∷◌, leb, if◌then◌else◌}

pub data NodeEnvironment : Type 0 where
  development test production : NodeEnvironment

pub data EnvKey : Type 0 where
  node_env port postgres_host postgres_port postgres_user postgres_password postgres_db : EnvKey
  postgres_pool_size postgres_acquire_timeout_ms postgres_statement_timeout_ms : EnvKey
  postgres_idle_txn_timeout_ms areas_poll_interval_ms redis_host redis_port : EnvKey
  redis_password presence_cache_ttl_empty_s presence_cache_ttl_non_empty_s : EnvKey
  rabbit_mq_host rabbit_mq_port rabbit_mq_user rabbit_mq_password : EnvKey
  worker_partitions worker_prefetch : EnvKey

abbrev pub default_pool_size : ℕ
default_pool_size = 10

abbrev pub default_areas_poll_interval_ms : ℕ
default_areas_poll_interval_ms = 30000

abbrev pub default_presence_cache_ttl_empty_s : ℕ
default_presence_cache_ttl_empty_s = 300

abbrev pub default_presence_cache_ttl_nonempty_s : ℕ
default_presence_cache_ttl_nonempty_s = 15

abbrev pub default_acquire_timeout_ms : ℕ
default_acquire_timeout_ms = 2000

abbrev pub default_statement_timeout_ms : ℕ
default_statement_timeout_ms = 5000

abbrev pub default_idle_txn_timeout_ms : ℕ
default_idle_txn_timeout_ms = 10000

-- what the schema says of one key
pub data Rule : Type 0 where
  -- `Joi.string().valid(...).default(...)`
  one_of_environments : NodeEnvironment → Rule
  -- `Joi.number().port()`, with a default or required
  port_or : ℕ → Rule
  required_port : Rule
  -- `Joi.string().required()`
  required_text : Rule
  -- `Joi.string().allow('').default('')`
  text_or_empty : Rule
  -- `Joi.number().integer().min(..).max(..).default(..)`
  integer_between : ℕ → Option ℕ → ℕ → Rule
  -- `Joi.string().pattern(..).default('0-7')`
  partition_pattern : List ℕ → Rule

unfoldable pub rule_of : EnvKey → Rule
rule_of node_env = one_of_environments development
rule_of port = port_or 3000
rule_of postgres_host = required_text
rule_of postgres_port = required_port
rule_of postgres_user = required_text
rule_of postgres_password = required_text
rule_of postgres_db = required_text
rule_of postgres_pool_size = integer_between 1 (some 100) default_pool_size
rule_of postgres_acquire_timeout_ms = integer_between 100 none default_acquire_timeout_ms
rule_of postgres_statement_timeout_ms = integer_between 100 none default_statement_timeout_ms
rule_of postgres_idle_txn_timeout_ms = integer_between 100 none default_idle_txn_timeout_ms
rule_of areas_poll_interval_ms = integer_between 250 none default_areas_poll_interval_ms
rule_of redis_host = required_text
rule_of redis_port = required_port
rule_of redis_password = text_or_empty
rule_of presence_cache_ttl_empty_s = integer_between 1 none default_presence_cache_ttl_empty_s
rule_of presence_cache_ttl_non_empty_s =
    integer_between 1 none default_presence_cache_ttl_nonempty_s
rule_of rabbit_mq_host = required_text
rule_of rabbit_mq_port = required_port
rule_of rabbit_mq_user = required_text
rule_of rabbit_mq_password = required_text
rule_of worker_partitions = partition_pattern (b'0' ∷ b'-' ∷ b'7' ∷ [])
rule_of worker_prefetch = integer_between 1 (some 1000) 16

abbrev pub schema_keys : List EnvKey
schema_keys =
    node_env ∷ port ∷ postgres_host ∷ postgres_port ∷ postgres_user ∷ postgres_password
    ∷ postgres_db ∷ postgres_pool_size ∷ postgres_acquire_timeout_ms ∷ postgres_statement_timeout_ms
    ∷ postgres_idle_txn_timeout_ms ∷ areas_poll_interval_ms ∷ redis_host ∷ redis_port
    ∷ redis_password ∷ presence_cache_ttl_empty_s ∷ presence_cache_ttl_non_empty_s ∷ rabbit_mq_host
    ∷ rabbit_mq_port ∷ rabbit_mq_user ∷ rabbit_mq_password ∷ worker_partitions ∷ worker_prefetch
    ∷ []

-- a validated value
pub data Value : Type 0 where
  number : ℕ → Value
  characters : List ℕ → Value

abbrev pub Environment : Type 0
Environment = EnvKey → Option (List ℕ)

-- Joi: the value of a setting under a rule, none if it is refused
abbrev pub Joi : Type 0
Joi = Rule → Option (List ℕ) → Option Value

pub data Refusal : Type 0 where
  refused_key : EnvKey → Refusal
  acquire_not_below_statement : ℕ → ℕ → Refusal
  statement_not_below_idle : ℕ → ℕ → Refusal

-- `env[key] as number`
abbrev pub as_number : Option Value → ℕ
as_number (some (number n)) = n
as_number _ = 0

-- the keys in their order, up to the first that is refused (`abortEarly`)
unfoldable pub first_refused : Joi → Environment → List EnvKey → Option EnvKey
first_refused joi env [] = none
first_refused joi env (key ∷ keys) = elim (joi (rule_of key) (env key)) [
  | none ↦ some key
  | some _ ↦ first_refused joi env keys
]

-- the custom rule of the schema
unfoldable pub timeout_ordering : (EnvKey → Option Value) → Option Refusal
timeout_ordering env =
    let acquire = as_number (env postgres_acquire_timeout_ms) in
    let statement = as_number (env postgres_statement_timeout_ms) in
    let idle_txn = as_number (env postgres_idle_txn_timeout_ms) in
    if leb statement acquire
    then some (acquire_not_below_statement acquire statement)
    else if leb idle_txn statement
    then some (statement_not_below_idle statement idle_txn)
    else none

-- `envValidationSchema.validate`: none if the environment is accepted
unfoldable pub validate_env : Joi → Environment → Option Refusal
unfolding first_refused timeout_ordering
validate_env joi env = elim (first_refused joi env schema_keys) [
  | some key ↦ some (refused_key key)
  | none ↦ timeout_ordering (λ key. joi (rule_of key) (env key))
]
