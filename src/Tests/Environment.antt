-- ===== src/Tests/Environment.antt =====
-- An environment that is accepted, and one whose time-outs are out of order.
use geofence_location.Prelude.{
  ℕ, ◌≤◌, ◌≡◌, refl, sym, ap, ◌∙◌, inl, Bool, ◌&&◌, Option, none, some, List, [], ◌∷◌, leb,
  AllDigits, value_of, arith, if◌then◌else◌,
}
use geofence_location.Config.{read_digits, read_number}
use geofence_location.Config.Printed.{read_number-digits}
use geofence_location.Config.Environment.{
  postgres_host, postgres_port, postgres_user, postgres_password, postgres_db,
  postgres_statement_timeout_ms, redis_host, redis_port, rabbit_mq_host, rabbit_mq_port,
  rabbit_mq_user, rabbit_mq_password, one_of_environments, port_or, required_port, required_text,
  text_or_empty, integer_between, partition_pattern, rule_of, Value, number, characters,
  Environment, Joi, acquire_not_below_statement, first_refused, timeout_ordering, validate_env,
}
use geofence_location.Config.Environment.Namespaces.{DatabaseConfig, loaded, database_config}
use geofence_location.Config.Environment.Settings.{AtMost, IsJoi}
use geofence_location.Config.Environment.Checked.{IsBounded, database_config-IsBounded}

abbrev within : ℕ → Option ℕ → ℕ → Bool
within lo none n = leb lo n
within lo (some hi) n = leb lo n && leb n hi

abbrev read_integer : ℕ → Option ℕ → Option (ℕ × List ℕ) → Option Value
read_integer lo hi (some (n, [])) = if within lo hi n then some (number n) else none
read_integer lo hi _ = none

abbrev not_empty : List ℕ → Option Value → Option Value
not_empty [] value = none
not_empty (_ ∷ _) value = value

-- reads decimal digits only
abbrev decimal_joi : Joi
decimal_joi (one_of_environments _) none = some (characters [])
decimal_joi (port_or d) none = some (number d)
decimal_joi required_port none = none
decimal_joi required_text none = none
decimal_joi text_or_empty none = some (characters [])
decimal_joi (integer_between lo hi d) none = some (number d)
decimal_joi (partition_pattern d) none = some (characters d)
decimal_joi (one_of_environments _) (some cs) = some (characters cs)
decimal_joi (port_or d) (some cs) = read_integer 0 (some 65535) (read_number cs)
decimal_joi required_port (some cs) = not_empty cs (read_integer 0 (some 65535) (read_number cs))
decimal_joi required_text (some cs) = not_empty cs (some (characters cs))
decimal_joi text_or_empty (some cs) = some (characters cs)
decimal_joi (integer_between lo hi d) (some cs) = read_integer lo hi (read_number cs)
decimal_joi (partition_pattern d) (some cs) = some (characters cs)

read_integer-within :
    (lo n : ℕ) (hi : Option ℕ) (v : Value)
    → read_integer lo hi (some (n, [])) ≡ some v
    → (v ≡ number n) × ((lo ≤ n) × AtMost hi n)
read_integer-within lo n none v e = (ground arith, (ground arith, tt))
read_integer-within lo n (some hi) v e = (ground arith, (ground arith, ground arith))

decimal_joi-digits :
    (lo d : ℕ) (hi : Option ℕ) (ds : List ℕ) (v : Value)
    → AllDigits ds
    → decimal_joi (integer_between lo hi d) (some ds) ≡ some v
    → (v ≡ number (value_of 0 ds)) × ((lo ≤ value_of 0 ds) × AtMost hi (value_of 0 ds))
unfolding read_number
decimal_joi-digits lo d hi [] v h e = cc
decimal_joi-digits lo d hi (c ∷ cs) v h e =
    read_integer-within lo (value_of 0 (c ∷ cs)) hi v
      (sym (ap (read_integer lo hi) (read_number-digits c cs h)) ∙ e)

not_empty-cons :
    (cs : List ℕ) (value : Option Value) (v : Value)
    → not_empty cs value ≡ some v
    → (c : ℕ) × ((ds : List ℕ) × (some cs ≡ some (c ∷ ds)))
not_empty-cons [] value v e = cc
not_empty-cons (c ∷ cs) value v e = (c, (cs, refl))

decimal_joi-text :
    (setting : Option (List ℕ)) (v : Value)
    → decimal_joi required_text setting ≡ some v
    → (c : ℕ) × ((cs : List ℕ) × (setting ≡ some (c ∷ cs)))
decimal_joi-text none v e = cc
decimal_joi-text (some cs) v e = not_empty-cons cs (some (characters cs)) v e

decimal_joi-port_text :
    (setting : Option (List ℕ)) (v : Value)
    → decimal_joi required_port setting ≡ some v
    → (c : ℕ) × ((cs : List ℕ) × (setting ≡ some (c ∷ cs)))
decimal_joi-port_text none v e = cc
decimal_joi-port_text (some cs) v e =
    not_empty-cons cs (read_integer 0 (some 65535) (read_number cs)) v e

IsJoi-decimal_joi : IsJoi decimal_joi
IsJoi-decimal_joi = record {
  absent = λ lo d hi. refl;
  digits = decimal_joi-digits;
  text = decimal_joi-text;
  port_text = decimal_joi-port_text;
}

abbrev name : Option (List ℕ)
name = some (b'x' ∷ [])

abbrev some_port : Option (List ℕ)
some_port = some (b'5' ∷ b'4' ∷ [])

-- what is required, and a statement time-out
abbrev setup : List ℕ → Environment
setup statement postgres_host = name
setup statement postgres_port = some_port
setup statement postgres_user = name
setup statement postgres_password = name
setup statement postgres_db = name
setup statement postgres_statement_timeout_ms = some statement
setup statement redis_host = name
setup statement redis_port = some_port
setup statement rabbit_mq_host = name
setup statement rabbit_mq_port = some_port
setup statement rabbit_mq_user = name
setup statement rabbit_mq_password = name
setup statement _ = none

abbrev four_seconds : List ℕ
four_seconds = b'4' ∷ b'0' ∷ b'0' ∷ b'0' ∷ []

unfoldable validates : Unit {0}
unfolding read_number read_digits rule_of first_refused timeout_ordering validate_env
validates = tt

-- the acquire time-out of 2000 ms is not below one of 900 ms
out_of_order :
    validate_env decimal_joi (setup (b'9' ∷ b'0' ∷ b'0' ∷ []))
    ≡ some (acquire_not_below_statement 2000 900)
unfolding validates
out_of_order = refl

database_config-IsBounded_example :
    (c : DatabaseConfig) × ((database_config (setup four_seconds) ≡ loaded c) × IsBounded c)
unfolding validates
database_config-IsBounded_example =
    database_config-IsBounded decimal_joi IsJoi-decimal_joi (setup four_seconds)
      (setup four_seconds) (λ key. inl refl) refl (tt, (tt, (omega arith, tt)))
