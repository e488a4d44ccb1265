-- ===== src/Data/Validate.antt =====
-- src/data/validate.ts: the checks of identifiers, paging and request bodies.
use micro_jbase.Base.{
  ℕ, Bool, true, false, not, ◌||◌, Option, none, some, List, [], ◌∷◌, ◌++◌, if◌then◌else◌, ◌==◌,
  replicate, Result, ok, err, ◌>>=◌, ◌>>◌, guard, Text, lit, includes, is_hex, matches_shape,
  Number, int, pos, is_integer, num_lt, num_gt,
}
use micro_jbase.Errors.{AppError, Details, Detail, validation_error, app_error_with}
use micro_jbase.Data.Values.{Value, Heap, undefined, num, is_plain_object, is_json_value}

abbrev pub Row : Type 0
Row = List (Text × Value)

-- CANONICAL_UUID: groups of 8, 4, 4, 4 and 12 lower-case hexadecimal digits, joined by dashes
abbrev is_dash : ℕ → Bool
is_dash c = c == b'-'

abbrev pub canonical_uuid : List (ℕ → Bool)
canonical_uuid =
    replicate 8 is_hex
    ++ (is_dash ∷ replicate 4 is_hex
        ++ (is_dash ∷ replicate 4 is_hex
            ++ (is_dash ∷ replicate 4 is_hex ++ (is_dash ∷ replicate 12 is_hex))))

unfoldable pub is_canonical_uuid : Text → Bool
is_canonical_uuid value = matches_shape canonical_uuid value

-- new DataError("VALIDATION_ERROR", "Request validation failed", 400, details)
abbrev pub validation_failed : Details → AppError
validation_failed details =
    app_error_with validation_error (lit "Request validation failed") 400 details

abbrev pub failed_at : Text → Text → AppError
failed_at field message = validation_failed ((field, Detail.text message) ∷ [])

unfoldable pub require_canonical_uuid : Text → Text → Result AppError Text
require_canonical_uuid value field =
    if not (is_canonical_uuid value)
    then err (failed_at field (lit "Must be a canonical UUID"))
    else ok value

-- `!isInteger(x) || x < low || x > high`, where x may be any value
abbrev pub outside : Value → ℕ → ℕ → Bool
outside (num n) low high = not (is_integer n) || num_lt n (pos low) || num_gt n (pos high)
outside _ low high = true

abbrev pub number_of : Value → Number
number_of (num n) = n
number_of _ = Number.nan

abbrev pub default_limit : ℕ
default_limit = 50

abbrev pub default_offset : ℕ
default_offset = 0

abbrev pub min_limit : ℕ
min_limit = 1

abbrev pub max_limit : ℕ
max_limit = 100

abbrev pub min_offset : ℕ
min_offset = 0

abbrev pub max_offset : ℕ
max_offset = 100_000

abbrev pub is_undefined : Value → Bool
is_undefined undefined = true
is_undefined _ = false

unfoldable pub resolve_limit : Value → Result AppError Number
resolve_limit limit =
    if is_undefined limit
    then ok (int (pos default_limit))
    else if outside limit min_limit max_limit
    then err (failed_at (lit "limit") (lit "Must be an integer between 1 and 100"))
    else ok (number_of limit)

unfoldable pub resolve_offset : Value → Result AppError Number
resolve_offset offset =
    if is_undefined offset
    then ok (int (pos default_offset))
    else if outside offset min_offset max_offset
    then err (failed_at (lit "offset") (lit "Must be an integer between 0 and 100000"))
    else ok (number_of offset)

-- throwBodyValidationError, throwJsonValidationError
abbrev pub body_validation_error : AppError
body_validation_error = failed_at (lit "body") (lit "Must be a non-empty JSON object")

abbrev pub json_validation_error : AppError
json_validation_error = failed_at (lit "body") (lit "Must contain JSON-compatible values only")

abbrev pub non_empty : Option Row → Result AppError Row
non_empty none = err body_validation_error
non_empty (some []) = err body_validation_error
non_empty (some (e ∷ m)) = ok (e ∷ m)

unfoldable pub require_non_empty_plain_object : Heap → Value → Result AppError Row
require_non_empty_plain_object h values = non_empty (is_plain_object h values)

unfoldable pub require_json_data_row : Heap → Value → Result AppError Row
unfolding require_non_empty_plain_object
require_json_data_row h values = do
  object ← require_non_empty_plain_object h values
  guard (is_json_value h values) json_validation_error
  ok object

pub data Kind : Type 0 where
  insertable updatable : Kind

abbrev pub kind_message : Kind → Text
kind_message insertable = lit "Column is not insertable"
kind_message updatable = lit "Column is not updatable"

-- the loop of assertKeysAllowed: an entry for each key that is not allowed
unfoldable pub invalid_entries : Row → List Text → Kind → Details
invalid_entries [] allowed kind = []
invalid_entries ((key, v) ∷ m) allowed kind =
    let rest = invalid_entries m allowed kind in
    if includes allowed key then rest else (key, Detail.text (kind_message kind)) ∷ rest

abbrev pub none_invalid : Details → Result AppError (Unit {0})
none_invalid [] = ok tt
none_invalid (e ∷ es) = err (validation_failed (e ∷ es))

unfoldable pub assert_keys_allowed : Row → List Text → Kind → Result AppError (Unit {0})
unfolding invalid_entries
assert_keys_allowed values allowed kind = none_invalid (invalid_entries values allowed kind)
