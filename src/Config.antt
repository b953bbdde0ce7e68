-- ===== src/Config.antt =====
-- src/config/worker.config.ts: the partitions that a worker owns, from the text of its setting. A
-- text is the list of its characters.
pub mod Owned
pub mod Printed
pub mod Environment
use geofence_location.Prelude.{
  ℕ, zero, suc, ◌+◌, ◌-◌, ◌*◌, Bool, true, false, not, ◌&&◌, ◌||◌, Option, none, some, List, [],
  ◌∷◌, ◌++◌, ltb, leb, eqb, contains, sort, any, decimal, if◌then◌else◌,
}

abbrev is_digit : ℕ → Bool
is_digit c = leb b'0' c && leb c b'9'

-- what `trim` removes
abbrev is_space : ℕ → Bool
is_space c =
    (leb 9 c && leb c 13)
    || eqb c 32
    || eqb c 160
    || eqb c 5760
    || (leb 8192 c && leb c 8202)
    || eqb c 8232
    || eqb c 8233
    || eqb c 8239
    || eqb c 8287
    || eqb c 12288
    || eqb c 65279

unfoldable pub split_commas : List ℕ → List (List ℕ)
split_commas [] = [] ∷ []
split_commas (c ∷ cs) =
    let rest = split_commas cs in
    if eqb c b','
    then [] ∷ rest
    else elim rest [ [] ↦ (c ∷ []) ∷ [] | part ∷ parts ↦ (c ∷ part) ∷ parts ]

unfoldable pub trim_start : List ℕ → List ℕ
trim_start [] = []
trim_start (c ∷ cs) = let rest = trim_start cs in if is_space c then rest else c ∷ cs

unfoldable pub trim_end : List ℕ → List ℕ
trim_end [] = []
trim_end (c ∷ cs) = elim (trim_end cs) [
  | [] ↦ if is_space c then [] else c ∷ []
  | d ∷ rest ↦ c ∷ d ∷ rest
]

-- the longest run of digits, as a number (`parseInt`) if there is one, and what follows
unfoldable pub read_digits : ℕ → List ℕ → ℕ × List ℕ
read_digits before [] = (before, [])
read_digits before (c ∷ cs) =
    let later = read_digits (before * 10 + (c - 48)) cs in
    if is_digit c then later else (before, c ∷ cs)

unfoldable pub read_number : List ℕ → Option (ℕ × List ℕ)
unfolding read_digits
read_number [] = none
read_number (c ∷ cs) = if is_digit c then some (read_digits 0 (c ∷ cs)) else none

-- what follows the first number of a segment: nothing, or `-` and a second number
unfoldable pub range_end : ℕ → List ℕ → Option ℕ
unfolding read_number
range_end from [] = some from
range_end from (c ∷ cs) = if not (eqb c b'-') then none else elim (read_number cs) [
  | none ↦ none
  | some read ↦ elim (read.1) [ [] ↦ some read.0 | _ ∷ _ ↦ none ]
]

-- `part.trim().match(...)`: the two ends
unfoldable pub parse_segment : List ℕ → Option (ℕ × ℕ)
unfolding trim_start trim_end read_number range_end
parse_segment part = elim (read_number (trim_end (trim_start part))) [
  | none ↦ none
  | some read ↦ elim (range_end read.0 read.1) [ none ↦ none | some to ↦ some (read.0, to) ]
]

-- `partitions.add(i)`
unfoldable pub add_to_set : ℕ → List ℕ → List ℕ
add_to_set i set = if contains set i then set else set ++ i ∷ []

-- the loop from `from`, of `rounds` rounds
unfoldable pub add_range : ℕ → ℕ → List ℕ → List ℕ
unfolding add_to_set
add_range from zero set = set
add_range from (suc rounds) set = add_range (from + 1) rounds (add_to_set from set)

pub data Spec : Type 0 where
  parsed : List ℕ → Spec
  invalid_segment : List ℕ → Spec
  end_before_start : List ℕ → Spec

unfoldable pub add_parts : List (List ℕ) → List ℕ → Spec
unfolding parse_segment add_range
add_parts [] set = parsed (sort set)
add_parts (part ∷ parts) set = elim (parse_segment part) [
  | none ↦ invalid_segment part
  | some ends ↦
      let rest = add_parts parts (add_range ends.0 (ends.1 + 1 - ends.0) set) in
      if ltb ends.1 ends.0 then end_before_start part else rest
]

-- parsePartitionSpec
unfoldable pub parse_partition_spec : List ℕ → Spec
unfolding split_commas add_parts
parse_partition_spec spec = add_parts (split_commas spec) []

-- `partitions.join(', ')`, which a worker logs once it consumes
unfoldable pub join_partitions : List ℕ → List ℕ
join_partitions [] = []
join_partitions (p ∷ []) = decimal p
join_partitions (p ∷ q ∷ ps) = decimal p ++ b',' ∷ b' ' ∷ join_partitions (q ∷ ps)
