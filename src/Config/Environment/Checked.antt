-- ===== src/Config/Environment/Checked.antt =====
-- What an environment that src/config/env.validation.ts accepts gives src/config/database.config.ts.
use geofence_location.Prelude.{
  ℕ, ◌≤◌, ◌<◌, ◌≡◌, refl, ap, ◌∙◌, ◌⊎◌, inl, inr, Option-cases, Option, none, some, List, ◌∷◌, pos,
  arith,
}
use geofence_location.Config.Environment.{
  EnvKey, postgres_host, postgres_port, postgres_user, postgres_password, postgres_db,
  postgres_pool_size, postgres_acquire_timeout_ms, postgres_statement_timeout_ms,
  postgres_idle_txn_timeout_ms, default_pool_size, default_acquire_timeout_ms,
  default_statement_timeout_ms, default_idle_txn_timeout_ms, rule_of, schema_keys, Value,
  Environment, Joi, as_number, first_refused, timeout_ordering, validate_env,
}
use geofence_location.Config.Environment.Namespaces.{
  loaded, require_env, parse_int, int_from_env, DatabaseConfig, database_config,
}
use geofence_location.Config.Environment.Settings.{
  IsJoi, IsAssigned, IsPlain, integer-IsRead, IsAccepted, first_refused-IsAccepted,
}

require_env-loaded :
    {X : Type 0} (env assigned : Environment) (key : EnvKey)
    → (c : ℕ) × ((cs : List ℕ) × (env key ≡ some (c ∷ cs)))
    → (assigned key ≡ env key) ⊎ ((env key ≡ none) × X)
    → (text : List ℕ) × (require_env assigned key ≡ loaded text)
unfolding require_env
require_env-loaded env assigned key (c, (cs, there)) (inl same) =
    (c ∷ cs, rw (require_env, same ∙ there) refl)
require_env-loaded env assigned key (c, (cs, there)) (inr (gone, _)) = cc

-- What the configuration of the database promises: bounded numbers, in the order of ADR 0009.
pub record IsBounded (c : DatabaseConfig) : Type 0 where
  pub pool : ℕ
  pub acquire : ℕ
  pub statement : ℕ
  pub idle_txn : ℕ
  pub pool_read : c.pool_size ≡ some (pos pool)
  pub acquire_read : c.acquire_timeout_ms ≡ some (pos acquire)
  pub statement_read : c.statement_timeout_ms ≡ some (pos statement)
  pub idle_txn_read : c.idle_txn_timeout_ms ≡ some (pos idle_txn)
  pub pool_bounds : (1 ≤ pool) × (pool ≤ 100)
  pub acquire_bound : 100 ≤ acquire
  pub acquire_below : acquire < statement
  pub statement_below : statement < idle_txn

timeout_ordering-ordered :
    (env : EnvKey → Option Value)
    → timeout_ordering env ≡ none
    → (as_number (env postgres_acquire_timeout_ms) < as_number (env postgres_statement_timeout_ms))
      × (as_number (env postgres_statement_timeout_ms)
          < as_number (env postgres_idle_txn_timeout_ms))
unfolding timeout_ordering
timeout_ordering-ordered env e = (ground arith, ground arith)

validate_env-passed :
    (joi : Joi) (env : Environment)
    → validate_env joi env ≡ none
    → IsAccepted joi env schema_keys
      × (timeout_ordering (λ key. joi (rule_of key) (env key)) ≡ none)
unfolding validate_env
validate_env-passed joi env e = elim (Option-cases (first_refused joi env schema_keys)) [
  | inl passed ↦ (first_refused-IsAccepted joi env schema_keys passed, ground arith)
  | inr (key, refused) ↦ ground arith
]

-- the configuration, once `requireEnv` has returned the five texts
abbrev config_of : Environment → List ℕ → List ℕ → List ℕ → List ℕ → List ℕ → DatabaseConfig
config_of env host port_text username password database = record {
  host = host;
  port_number = parse_int port_text;
  username = username;
  password = password;
  database = database;
  pool_size = int_from_env env postgres_pool_size default_pool_size;
  acquire_timeout_ms = int_from_env env postgres_acquire_timeout_ms default_acquire_timeout_ms;
  statement_timeout_ms =
      int_from_env env postgres_statement_timeout_ms default_statement_timeout_ms;
  idle_txn_timeout_ms = int_from_env env postgres_idle_txn_timeout_ms default_idle_txn_timeout_ms;
}

database_config-loaded :
    (env : Environment) {host port_text username password database : List ℕ}
    → require_env env postgres_host ≡ loaded host
    → require_env env postgres_port ≡ loaded port_text
    → require_env env postgres_user ≡ loaded username
    → require_env env postgres_password ≡ loaded password
    → require_env env postgres_db ≡ loaded database
    → database_config env ≡ loaded (config_of env host port_text username password database)
unfolding database_config
database_config-loaded env h p u w d = rw (h, p, u, w, d) refl

abbrev pub ArePlain : Environment → Type 0
ArePlain env =
    IsPlain (env postgres_pool_size)
    × (IsPlain (env postgres_acquire_timeout_ms)
        × (IsPlain (env postgres_statement_timeout_ms)
            × IsPlain (env postgres_idle_txn_timeout_ms)))

module _ (joi : Joi) (law : IsJoi joi) (env assigned : Environment)
    (given : IsAssigned joi env assigned) where
  -- the five settings that `requireEnv` reads are there
  database_config-texts :
      IsAccepted joi env schema_keys
      → (host : List ℕ) × ((port_text : List ℕ) × ((username : List ℕ) × ((password : List ℕ)
              × ((database : List ℕ) × (database_config assigned
                    ≡ loaded (config_of assigned host port_text username password database))))))
  unfolding rule_of IsAccepted
  database_config-texts (_, (_, (h, (p, (u, (w, (d, _))))))) =
      let host = there postgres_host (law.text (env postgres_host) h.0 h.1) in
      let port_read = there postgres_port (law.port_text (env postgres_port) p.0 p.1) in
      let user = there postgres_user (law.text (env postgres_user) u.0 u.1) in
      let password = there postgres_password (law.text (env postgres_password) w.0 w.1) in
      let database = there postgres_db (law.text (env postgres_db) d.0 d.1) in
      (
        host.0,
        (
          port_read.0,
          (
            user.0,
            (
              password.0,
              (
                database.0,
                database_config-loaded assigned host.1 port_read.1 user.1 password.1 database.1,
              ),
            ),
          ),
        ),
      )
    where
      there :
          (key : EnvKey)
          → (c : ℕ) × ((cs : List ℕ) × (env key ≡ some (c ∷ cs)))
          → (text : List ℕ) × (require_env assigned key ≡ loaded text)
      there key e = require_env-loaded env assigned key e (given key)

  config_of-IsBounded :
      (host port_text username password database : List ℕ)
      → IsAccepted joi env schema_keys
      → timeout_ordering (λ key. joi (rule_of key) (env key)) ≡ none
      → ArePlain env
      → IsBounded (config_of assigned host port_text username password database)
  unfolding rule_of IsAccepted int_from_env
  config_of-IsBounded host port_text username password database
        (_, (_, (_, (_, (_, (_, (_, (p, (a, (s, (i, _))))))))))) order
        (plain_p, (plain_a, (plain_s, plain_i))) =
      let pool =
        integer-IsRead joi law 1 default_pool_size (some 100) (omega arith) (omega arith)
          (env postgres_pool_size) (assigned postgres_pool_size) p.0 plain_p p.1
          (given postgres_pool_size) in
      let acquire =
        integer-IsRead joi law 100 default_acquire_timeout_ms none (omega arith) tt
          (env postgres_acquire_timeout_ms) (assigned postgres_acquire_timeout_ms) a.0 plain_a a.1
          (given postgres_acquire_timeout_ms) in
      let statement =
        integer-IsRead joi law 100 default_statement_timeout_ms none (omega arith) tt
          (env postgres_statement_timeout_ms) (assigned postgres_statement_timeout_ms) s.0 plain_s
          s.1 (given postgres_statement_timeout_ms) in
      let idle_txn =
        integer-IsRead joi law 100 default_idle_txn_timeout_ms none (omega arith) tt
          (env postgres_idle_txn_timeout_ms) (assigned postgres_idle_txn_timeout_ms) i.0 plain_i i.1
          (given postgres_idle_txn_timeout_ms) in
      let (below, above) = timeout_ordering-ordered (λ key. joi (rule_of key) (env key)) order in
      let na = ap as_number (a.1 ∙ ap some acquire.validated) in
      let ns = ap as_number (s.1 ∙ ap some statement.validated) in
      let ni = ap as_number (i.1 ∙ ap some idle_txn.validated) in
      record {
        pool = pool.value;
        acquire = acquire.value;
        statement = statement.value;
        idle_txn = idle_txn.value;
        pool_read = pool.parsed_as;
        acquire_read = acquire.parsed_as;
        statement_read = statement.parsed_as;
        idle_txn_read = idle_txn.parsed_as;
        pool_bounds = (pool.lower, pool.upper);
        acquire_bound = acquire.lower;
        acquire_below = omega (arith, below, na, ns);
        statement_below = omega (arith, above, ns, ni);
      }

-- If the schema accepts an environment whose pool size and time-outs are missing or written with
-- decimal digits only, then the configuration of the database loads from what is left in
-- `process.env`: none of its required settings is missing, the pool size lies between 1 and 100, and
-- the acquire time-out, at least 100, is below the statement time-out, which is below the idle one.
pub database_config-IsBounded :
    (joi : Joi)
    → IsJoi joi
    → (env assigned : Environment) → IsAssigned joi env assigned
    → validate_env joi env ≡ none
    → ArePlain env
    → (c : DatabaseConfig) × ((database_config assigned ≡ loaded c) × IsBounded c)
database_config-IsBounded joi law env assigned given passed plain =
    let (accepted, order) = validate_env-passed joi env passed in
    let (host, (port_text, (username, (password, (database, e))))) =
      database_config-texts joi law env assigned given accepted in
    (
      config_of assigned host port_text username password database,
      (
        e,
        config_of-IsBounded joi law env assigned given host port_text username password database
            accepted order plain,
      ),
    )
