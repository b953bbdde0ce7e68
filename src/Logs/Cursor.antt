-- ===== src/Logs/Cursor.antt =====
-- src/logs/logs-cursor.ts: the cursor, and the two patterns that a decoded one must match.
use Prim.Native.Char.{code}
use geofence_location.Prelude.{
  ℕ, zero, suc, String, Bool, true, false, ◌&&◌, ◌||◌, Option, none, some, List, [], ◌∷◌, leb, eqb,
  if◌then◌else◌,
}
use geofence_location.Areas.GeoJson.{Value, text, array, nil, cons}

pub record LogsCursor : Type 0 where
  pub recorded_at : String
  pub id : String

-- JSON in base64url: `write a b` of the pair, and what a text decodes and parses to, if it does
pub record Codec : Type 0 where
  pub write : String → String → String
  pub read : String → Option Value

abbrev code_points : String → List ℕ
code_points String.[] = []
code_points (String.◌∷◌ c s) = code c ∷ code_points s

abbrev pub is_digit : ℕ → Bool
is_digit c = leb b'0' c && leb c b'9'

abbrev pub is_hex : ℕ → Bool
is_hex c = is_digit c || (leb b'a' c && leb c b'f') || (leb b'A' c && leb c b'F')

-- `n` characters of a class
unfoldable pub eat : (ℕ → Bool) → ℕ → List ℕ → Option (List ℕ)
eat test zero cs = some cs
eat test (suc n) [] = none
eat test (suc n) (c ∷ cs) = let later = eat test n cs in if test c then later else none

pub data Piece : Type 0 where
  exactly : (ℕ → Bool) → ℕ → Piece

unfoldable pub eat_all : List Piece → List ℕ → Option (List ℕ)
unfolding eat
eat_all [] cs = some cs
eat_all (exactly test n ∷ pieces) cs = elim (eat test n cs) [
  | none ↦ none
  | some rest ↦ eat_all pieces rest
]

abbrev is_dash : ℕ → Bool
is_dash c = eqb c b'-'

abbrev is_colon : ℕ → Bool
is_colon c = eqb c b':'

abbrev uuid_pieces : List Piece
uuid_pieces =
    exactly is_hex 8
    ∷ exactly is_dash 1
    ∷ exactly is_hex 4
    ∷ exactly is_dash 1
    ∷ exactly is_hex 4
    ∷ exactly is_dash 1
    ∷ exactly is_hex 4
    ∷ exactly is_dash 1
    ∷ exactly is_hex 12
    ∷ []

-- `^...$`: nothing is left
abbrev is_end : Option (List ℕ) → Bool
is_end none = false
is_end (some []) = true
is_end (some (_ ∷ _)) = false

-- UUID
unfoldable pub is_uuid : String → Bool
unfolding eat_all
is_uuid s = is_end (eat_all uuid_pieces (code_points s))

abbrev moment_pieces : List Piece
moment_pieces =
    exactly is_digit 4
    ∷ exactly is_dash 1
    ∷ exactly is_digit 2
    ∷ exactly is_dash 1
    ∷ exactly is_digit 2
    ∷ exactly (λ c. eqb c b' ' || eqb c b'T') 1
    ∷ exactly is_digit 2
    ∷ exactly is_colon 1
    ∷ exactly is_digit 2
    ∷ exactly is_colon 1
    ∷ exactly is_digit 2
    ∷ []

unfoldable pub drop_digits : List ℕ → List ℕ
drop_digits [] = []
drop_digits (c ∷ cs) = let later = drop_digits cs in if is_digit c then later else c ∷ cs

-- `(\.\d+)?`; without a digit after it a point is not eaten, and then nothing can follow
abbrev skip_fraction : List ℕ → List ℕ
skip_fraction [] = []
skip_fraction (c ∷ []) = c ∷ []
skip_fraction (c ∷ d ∷ cs) = if eqb c b'.' && is_digit d then drop_digits cs else c ∷ d ∷ cs

-- `(:\d{2})?$`
abbrev is_zone_end : Option (List ℕ) → Bool
is_zone_end none = false
is_zone_end (some []) = true
is_zone_end (some (c ∷ cs)) = eqb c b':' && is_end (eat is_digit 2 cs)

-- `([+-]\d{2}(:\d{2})?)?$`
abbrev is_zone : List ℕ → Bool
is_zone [] = true
is_zone (c ∷ cs) = (eqb c b'+' || eqb c b'-') && is_zone_end (eat is_digit 2 cs)

-- PG_TIMESTAMPTZ_TEXT
unfoldable pub is_timestamptz_text : String → Bool
unfolding eat_all eat drop_digits
is_timestamptz_text s = elim (eat_all moment_pieces (code_points s)) [
  | none ↦ false
  | some rest ↦ is_zone (skip_fraction rest)
]

-- encodeLogsCursor
unfoldable pub encode_logs_cursor : Codec → LogsCursor → String
encode_logs_cursor codec cursor = codec.write cursor.recorded_at cursor.id

-- the test of what was parsed
unfoldable pub cursor_of_value : Option Value → Option LogsCursor
unfolding is_uuid is_timestamptz_text
cursor_of_value (some (array (cons (text a) (cons (text b) nil)))) =
    if is_timestamptz_text a && is_uuid b then some (record { recorded_at = a; id = b }) else none
cursor_of_value _ = none

-- decodeLogsCursor; `none` for its BadRequestException
unfoldable pub decode_logs_cursor : Codec → String → Option LogsCursor
unfolding cursor_of_value
decode_logs_cursor codec raw = cursor_of_value (codec.read raw)
