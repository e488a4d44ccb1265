-- ===== src/Ddl/Identifiers.antt =====
-- Identifiers and literals of src/database/schema-ddl.ts: validation, quoting, derived names.
use micro_jbase.Base.{
  ℕ, ◌+◌, ◌-◌, Bool, not, ◌||◌, List, [], ◌∷◌, ◌++◌, if◌then◌else◌, ◌==◌, leb, length, take, null,
  Result, ok, err, ◌>>=◌, ◌>>◌, guard, Text, lit, includes, is_letter, is_digit, matches_head_rest,
  double, has_unit, join, starts_with,
}
use micro_jbase.Errors.{AppError, validation_error, app_error}
use micro_jbase.Platform.{Platform}

-- SIMPLE_IDENTIFIER: a letter or `_`, then letters, digits and `_`
unfoldable pub is_simple_identifier : Text → Bool
is_simple_identifier name =
    matches_head_rest (λ c. is_letter c || c == b'_')
      (λ c. is_letter c || (is_digit c || c == b'_')) name

abbrev pub invalid_identifier : AppError
invalid_identifier = app_error validation_error (lit "Invalid SQL identifier") 400

abbrev pub invalid_input : Text → AppError
invalid_input message = app_error validation_error message 400

unfoldable pub assert_ddl_identifier : Text → Result AppError (Unit {0})
assert_ddl_identifier name = guard (is_simple_identifier name) invalid_identifier

unfoldable pub quote_identifier : Text → Result AppError Text
quote_identifier name =
    if is_simple_identifier name
    then ok (b'"' ∷ (double b'"' name ++ b'"' ∷ []))
    else err invalid_identifier

-- NUL and backslash are refused, quotes are doubled.
unfoldable pub quote_literal : Text → Result AppError Text
quote_literal value =
    if has_unit 0 value
    then err (invalid_input (lit "literal defaults must not contain NUL characters"))
    else if has_unit 92 value
    then err (invalid_input (lit "literal defaults must not contain backslash characters"))
    else ok (39 ∷ (double 39 value ++ 39 ∷ []))

abbrev pub internal_schema_names : List Text
internal_schema_names = lit "microjbase" ∷ lit "pg_catalog" ∷ lit "information_schema" ∷ []

abbrev pub is_internal : Platform → Text → Bool
is_internal platform schema =
    includes internal_schema_names (platform.to_lower schema)
    || starts_with (lit "pg_") (platform.to_lower schema)

unfoldable pub assert_manageable_schema : Platform → Text → Result AppError (Unit {0})
assert_manageable_schema platform schema =
    guard (not (is_internal platform schema))
      (app_error validation_error (lit "Internal schemas cannot be modified") 400)

abbrev pub max_identifier_length : ℕ
max_identifier_length = 63

abbrev pub max_key_columns : ℕ
max_key_columns = 16

unfoldable pub assert_ddl_name : Text → Text → Result AppError (Unit {0})
unfolding assert_ddl_identifier
assert_ddl_name name context = do
  assert_ddl_identifier name
  guard (leb (length name) max_identifier_length)
      (invalid_input (context ++ lit " must be at most 63 characters"))

abbrev pub hash_prefix_length : ℕ
hash_prefix_length = 8

-- deterministicObjectName, `kind` being "idx", "uniq", "fkey" or a policy template
unfoldable pub deterministic_object_name : Platform → Text → Text → List Text → Text
deterministic_object_name platform kind table columns =
    let digest =
      take hash_prefix_length
        (platform.sha256_hex (table ++ (0 ∷ (join (0 ∷ []) columns ++ (0 ∷ kind))))) in
    let readable =
      lit "mjb_" ++ (table ++ (lit "_" ++ (join (lit "_") columns ++ (lit "_" ++ kind)))) in
    if leb (length readable + length digest + 1) max_identifier_length
    then readable ++ (lit "_" ++ digest)
    else take (max_identifier_length - length digest - 1) readable ++ (lit "_" ++ digest)

-- the loop of assertKeyColumns over the columns that are left
unfoldable pub assert_distinct_columns : Text → List Text → List Text → Result AppError (Unit {0})
unfolding assert_ddl_identifier
assert_distinct_columns context seen [] = ok tt
assert_distinct_columns context seen (column ∷ columns) =
    let rest = assert_distinct_columns context (column ∷ seen) columns in
    assert_ddl_identifier column
    >> (if includes seen column
        then err (
            invalid_input
              (context ++ (lit " lists column \"" ++ (column ++ lit "\" more than once"))))
        else rest)

unfoldable pub assert_key_columns : Text → List Text → Result AppError (Unit {0})
unfolding assert_distinct_columns
assert_key_columns context columns = do
  guard (not (null columns)) (invalid_input (context ++ lit " needs at least one column"))
  guard (leb (length columns) max_key_columns)
      (invalid_input (context ++ lit " must have at most 16 columns"))
  assert_distinct_columns context [] columns

-- columns.map(quoteIdentifier)
unfoldable pub quote_each : List Text → Result AppError (List Text)
unfolding quote_identifier
quote_each [] = ok []
quote_each (column ∷ columns) = do
  quoted ← quote_identifier column
  rest ← quote_each columns
  ok (quoted ∷ rest)

unfoldable pub quote_column_list : List Text → Result AppError Text
unfolding quote_each
quote_column_list columns = do
  quoted ← quote_each columns
  ok (lit "(" ++ (join (lit ", ") quoted ++ lit ")"))
