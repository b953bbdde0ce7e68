-- ===== src/Config/Environment/Settings.antt =====
-- One setting that src/config/env.validation.ts accepts, and the documented behaviour of Joi and of
-- @nestjs/config.
use mathlib.Core.Option.{some_inj}
use geofence_location.Prelude.{
  ℕ, ◌≤◌, ◌≡◌, sym, ap, ◌∙◌, subst, ◌⊎◌, inl, inr, Option-cases, Option, none, some, List, [], ◌∷◌,
  pos, decimal, decimal-cons, decimal-AllDigits, value_of, value_of-decimal, AllDigits, All, arith,
}
use geofence_location.Config.{trim_start}
use geofence_location.Config.Printed.{read_number-digits, trim_start-digits}
use geofence_location.Config.Environment.{
  EnvKey, required_port, required_text, integer_between, rule_of, Value, number, characters,
  Environment, Joi, first_refused,
}
use geofence_location.Config.Environment.Namespaces.{signed, parse_int, or_fallback}

abbrev pub AtMost : Option ℕ → ℕ → Type 0
AtMost none n = Unit
AtMost (some hi) n = n ≤ hi

-- What is used of Joi: a missing setting takes its default, an integer that is accepted lies within
-- its bounds and is the number that its digits spell, and what is required is there and not empty.
pub record IsJoi (joi : Joi) : Type 0 where
  pub absent : (lo d : ℕ) (hi : Option ℕ) → joi (integer_between lo hi d) none ≡ some (number d)
  pub digits :
      (lo d : ℕ) (hi : Option ℕ) (ds : List ℕ) (v : Value)
      → AllDigits ds
      → joi (integer_between lo hi d) (some ds) ≡ some v
      → (v ≡ number (value_of 0 ds)) × ((lo ≤ value_of 0 ds) × AtMost hi (value_of 0 ds))
  pub text :
      (setting : Option (List ℕ)) (v : Value)
      → joi required_text setting ≡ some v
      → (c : ℕ) × ((cs : List ℕ) × (setting ≡ some (c ∷ cs)))
  pub port_text :
      (setting : Option (List ℕ)) (v : Value)
      → joi required_port setting ≡ some v
      → (c : ℕ) × ((cs : List ℕ) × (setting ≡ some (c ∷ cs)))

abbrev pub print_value : Value → List ℕ
print_value (number n) = decimal n
print_value (characters cs) = cs

-- What @nestjs/config leaves in `process.env`: a setting that is there as it is, and perhaps the
-- validated value of one that is missing.
abbrev pub IsAssigned : Joi → Environment → Environment → Type 0
IsAssigned joi env assigned =
    (key : EnvKey)
    → (assigned key ≡ env key)
      ⊎ ((env key ≡ none)
          × ((v : Value) × ((joi (rule_of key) none ≡ some v)
                × (assigned key ≡ some (print_value v)))))

-- the setting is missing, or written with decimal digits only
abbrev pub IsPlain : Option (List ℕ) → Type 0
IsPlain none = Unit
IsPlain (some []) = ⊥
IsPlain (some (d ∷ ds)) = AllDigits (d ∷ ds)

parse_int-digits :
    (d : ℕ) (ds : List ℕ)
    → AllDigits (d ∷ ds)
    → parse_int (d ∷ ds) ≡ some (pos (value_of 0 (d ∷ ds)))
unfolding parse_int signed trim_start
parse_int-digits d ds h = ground (arith, read_number-digits d ds h, trim_start-digits (d ∷ ds) h)

parse_int-decimal : (n : ℕ) → parse_int (decimal n) ≡ some (pos n)
parse_int-decimal n =
    let (d, (ds, e)) = decimal-cons n in
    let spelt = parse_int-digits d ds (subst AllDigits e (decimal-AllDigits n)) in
    ap parse_int e ∙ spelt ∙ ap (λ m. some (pos m)) (ap (value_of 0) (sym e) ∙ value_of-decimal n)

-- the number `n` is read, is the one that was validated, and lies within the bounds
pub record IsRead (lo : ℕ) (hi : Option ℕ) (text : List ℕ) (v : Value) : Type 0 where
  pub value : ℕ
  pub validated : v ≡ number value
  pub parsed_as : parse_int text ≡ some (pos value)
  pub lower : lo ≤ value
  pub upper : AtMost hi value

pub IsRead-decimal :
    (lo d : ℕ) (hi : Option ℕ) (v : Value)
    → v ≡ number d
    → lo ≤ d
    → AtMost hi d
    → IsRead lo hi (decimal d) v
IsRead-decimal lo d hi v e l u = record {
  value = d;
  validated = e;
  parsed_as = parse_int-decimal d;
  lower = l;
  upper = u;
}

module _ (joi : Joi) (law : IsJoi joi) (lo d : ℕ) (hi : Option ℕ) (low : lo ≤ d)
    (up : AtMost hi d) where
  -- a number that the schema has accepted, as `intFromEnv` reads it
  pub integer-IsRead :
      (setting assigned : Option (List ℕ)) (v : Value)
      → IsPlain setting
      → joi (integer_between lo hi d) setting ≡ some v
      → (assigned ≡ setting)
        ⊎ ((setting ≡ none)
            × ((w : Value) × ((joi (integer_between lo hi d) none ≡ some w)
                  × (assigned ≡ some (print_value w)))))
      → IsRead lo hi (or_fallback assigned (decimal d)) v
  integer-IsRead none assigned v plain ok (inl same) =
      let e : v ≡ number d = some_inj.0 (sym ok ∙ law.absent lo d hi) in
      subst (λ o. IsRead lo hi (or_fallback o (decimal d)) v) (sym same)
        (IsRead-decimal lo d hi v e low up)
  integer-IsRead none assigned v plain ok (inr (_, (w, (given, written)))) =
      let e : v ≡ number d = some_inj.0 (sym ok ∙ law.absent lo d hi) in
      let ew : w ≡ number d = some_inj.0 (sym given ∙ law.absent lo d hi) in
      subst (λ o. IsRead lo hi (or_fallback o (decimal d)) v)
        (sym (written ∙ ap (λ x. some (print_value x)) ew)) (IsRead-decimal lo d hi v e low up)
  integer-IsRead (some []) assigned v plain ok given = absurd plain
  integer-IsRead (some (c ∷ cs)) assigned v plain ok (inr (gone, _)) = cc
  integer-IsRead (some (c ∷ cs)) assigned v plain ok (inl same) =
      let (e, (l, u)) = law.digits lo d hi (c ∷ cs) v plain ok in
      subst (λ o. IsRead lo hi (or_fallback o (decimal d)) v) (sym same)
        (record {
          value = value_of 0 (c ∷ cs);
          validated = e;
          parsed_as = parse_int-digits c cs plain;
          lower = l;
          upper = u;
        })

unfoldable pub IsAccepted : Joi → Environment → List EnvKey → Type 0
IsAccepted joi env = All (λ key. (v : Value) × (joi (rule_of key) (env key) ≡ some v))

pub first_refused-IsAccepted :
    (joi : Joi) (env : Environment) (keys : List EnvKey)
    → first_refused joi env keys ≡ none
    → IsAccepted joi env keys
unfolding first_refused IsAccepted
first_refused-IsAccepted joi env [] e = tt
first_refused-IsAccepted joi env (key ∷ keys) e =
    elim (Option-cases (joi (rule_of key) (env key))) [
      | inl refused ↦ ground arith
      | inr (v, there) ↦ ((v, there), first_refused-IsAccepted joi env keys (ground arith))
    ]
