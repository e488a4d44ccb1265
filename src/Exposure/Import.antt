-- ===== src/Exposure/Import.antt =====
-- The one import of the registry: microjbase.import_exposure_registry of
-- migrations/0006_exposure_registry.sql, and importInitialExposure of src/database/exposure-registry.ts.
use micro_jbase.Base.{
  ◌==◌, Bool, true, false, not, ◌&&◌, ◌||◌, Option, none, some, List, ◌++◌, map, length, all,
  if◌then◌else◌, Result, ok, err, Text, lit, includes, matches_head_rest, starts_with, is_lower,
  is_digit,
}
use micro_jbase.Errors.{AppError, app_error, conflict, Thrown, Field, DetailsField}
use micro_jbase.Platform.{Platform}
use micro_jbase.Tables.{ExposedTableMapping}
use micro_jbase.Exposure.{
  RegistryRow, StateRow, RegistryTables, World, ExposureRegistryState, is_alias, forbidden_schemas,
  mapping_target, distinct, exposed_sets_equal, build_import_payload, Run, and_then,
  query_translated, read_exposure_registry_state,
}

-- an error that the database reports
abbrev pub raised : Text → Text → Thrown
raised sqlstate message = Thrown.object (record {
  code = Field.string sqlstate;
  sql_state = Field.absent;
  message = Field.string message;
  status = Field.absent;
  details = DetailsField.absent;
  is_error = true;
  constraint = Field.absent;
  printed = message;
})

-- '^[a-z_][a-z0-9_]*$'
unfoldable pub is_sql_name : Text → Bool
is_sql_name t =
    matches_head_rest (λ c. is_lower c || c == b'_') (λ c. is_lower c || (is_digit c || c == b'_'))
      t

-- the checks of the loop, that raise one message here; a name in lower case is its own lower()
unfoldable pub is_importable : ExposedTableMapping → Bool
is_importable m =
    is_alias m.alias
    && (is_sql_name m.schema
        && (is_sql_name m.table
            && not (includes forbidden_schemas m.schema || starts_with (lit "pg_") m.schema)))

abbrev pub is_initialized : Option StateRow → Bool
is_initialized none = false
is_initialized (some state) = state.initialized

abbrev pub row_of : ExposedTableMapping → RegistryRow
row_of m = record { entry = m; exposed = true }

abbrev pub row_alias : RegistryRow → Text
row_alias row = row.entry.alias

abbrev pub row_target : RegistryRow → Text
row_target row = mapping_target row.entry

abbrev pub all_distinct : List Text → Bool
all_distinct texts = length (distinct texts) == length texts

abbrev pub initialized_at : RegistryTables → Option StateRow → Option StateRow
initialized_at t none = none
initialized_at t (some state) = some (record { initialized = true; imported_at = some t.clock })

abbrev pub imported : List ExposedTableMapping → RegistryTables → RegistryTables
imported payload t = record t {
  state = initialized_at t t.state;
  rows = map row_of payload ++ t.rows;
}

-- microjbase.import_exposure_registry; the last check is of the unique keys of the table
unfoldable pub import_function :
    List ExposedTableMapping → RegistryTables → Result Thrown (Unit × RegistryTables)
import_function payload t =
    let rows = map row_of payload ++ t.rows in
    if not (all is_importable payload)
    then err (raised (lit "P0001") (lit "invalid import payload"))
    else if not
        (all_distinct (map (λ m. m.alias) payload) && all_distinct (map mapping_target payload))
    then err (raised (lit "P0001") (lit "import payload contains duplicate aliases or targets"))
    else if is_initialized t.state
    then err (raised (lit "P0001") (lit "exposure registry is already initialized"))
    else if not (all_distinct (map row_alias rows) && all_distinct (map row_target rows))
    then err (raised (lit "23505") (lit "exposure_registry"))
    else ok (tt, imported payload t)

abbrev pub already_initialized : AppError
already_initialized = app_error conflict (lit "Exposure registry is already initialized") 409

abbrev pub other_winner : AppError
other_winner =
    app_error conflict
      (lit "Exposure registry was initialized concurrently with a different mapping set") 409

module _ (platform : Platform) (order : List ExposedTableMapping → List ExposedTableMapping) where
  abbrev pub decided :
      AppError
      → List ExposedTableMapping
      → ExposureRegistryState
      → Result AppError ExposureRegistryState
  decided e payload state =
      if state.initialized && exposed_sets_equal state.exposed payload
      then ok state
      else if state.initialized
      then err other_winner
      else err e

  -- once the import has been tried
  unfoldable pub conclude_import :
      List ExposedTableMapping
      → Result AppError Unit × World
      → Result AppError ExposureRegistryState × World
  conclude_import payload (ok done, w) = read_exposure_registry_state platform order w
  conclude_import payload (err e, w) =
      and_then platform (read_exposure_registry_state platform order w)
        λ state v. (decided e payload state, v)

  unfoldable pub import_payload :
      Result AppError (List ExposedTableMapping) → Run platform ExposureRegistryState
  import_payload (err e) w = (err e, w)
  import_payload (ok payload) w =
      conclude_import payload (query_translated platform (import_function payload) w)

  unfoldable pub import_unless :
      List ExposedTableMapping → ExposureRegistryState → Run platform ExposureRegistryState
  import_unless mappings before w =
      if before.initialized
      then (err already_initialized, w)
      else import_payload (build_import_payload platform mappings) w

  unfoldable pub import_initial_exposure :
      List ExposedTableMapping → Run platform ExposureRegistryState
  import_initial_exposure mappings w =
      and_then platform (read_exposure_registry_state platform order w) (import_unless mappings)
