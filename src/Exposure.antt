-- ===== src/Exposure.antt =====
-- src/database/exposure-registry.ts: the durable registry of exposed tables, and its one import. The tables of
-- the registry are explicit state; before each query the schedule lets other sessions change them, or the
-- query throw, or its answer be lost. The import is the function of migrations/0006_exposure_registry.sql.
use micro_jbase.Base.{
  ℕ, suc, ◌==◌, leb, Bool, true, false, not, ◌&&◌, ◌||◌, Option, none, some, List, [], ◌∷◌, ◌++◌,
  map, length, null, if◌then◌else◌, Result, ok, err, guard, ◌>>=◌, ◌>>◌, Text, lit, text_eq,
  includes, concat, matches_head_rest, starts_with, is_lower, is_letter, is_digit,
}
use micro_jbase.Errors.{
  AppError, app_error, app_error_with, validation_error, conflict, internal_error, Detail, Thrown,
  ErrorObject, Field, DetailsField,
}
use micro_jbase.Platform.{Platform}
use micro_jbase.Faults.{translate_pool_error}
use micro_jbase.Ddl.Identifiers.{is_simple_identifier}
use micro_jbase.Tables.{ExposedTableMapping}
pub mod Payload
pub mod Sets
pub mod Import
pub mod Imported
pub mod Adopted
pub mod Names
pub mod Agreed
mod Tests

pub record RegistryRow : Type 0 where
  pub entry : ExposedTableMapping
  pub exposed : Bool

-- microjbase.exposure_registry_state, if its row is there, and microjbase.exposure_registry
pub record StateRow : Type 0 where
  pub initialized : Bool
  pub imported_at : Option ℕ

pub record RegistryTables : Type 0 where
  pub state : Option StateRow
  pub rows : List RegistryRow
  pub clock : ℕ

pub data Event : Type 0 where
  others : (RegistryTables → RegistryTables) → Event
  fault : Thrown → Event
  lost : Thrown → Event  -- the statement is carried out, and its answer is lost

pub record World : Type 0 where
  pub tables : RegistryTables
  pub schedule : List Event

pub record ExposureRegistryState : Type 0 where
  pub initialized : Bool
  pub imported_at : Option ℕ
  pub exposed : List ExposedTableMapping

abbrev pub malformed : Text → AppError
malformed reason =
    app_error internal_error (concat (lit "Malformed exposure registry state: " ∷ reason ∷ [])) 500

-- requireNonEmptyString; the columns are of type text
unfoldable pub require_non_empty_string : Text → Text → Result AppError Text
require_non_empty_string value field =
    if null value
    then err (malformed (concat (field ∷ lit " must be a non-empty string" ∷ [])))
    else ok value

unfoldable pub map_entry_row : ExposedTableMapping → Result AppError ExposedTableMapping
map_entry_row row = do
  alias ← require_non_empty_string row.alias (lit "alias")
  schema ← require_non_empty_string row.schema (lit "schema_name")
  table ← require_non_empty_string row.table (lit "table_name")
  ok (record { alias = alias; schema = schema; table = table })

unfoldable pub map_entry_rows :
    List ExposedTableMapping → Result AppError (List ExposedTableMapping)
map_entry_rows [] = ok []
map_entry_rows (row ∷ rows) = do
  entry ← map_entry_row row
  entries ← map_entry_rows rows
  ok (entry ∷ entries)

-- WHERE exposed
unfoldable pub exposed_entries : List RegistryRow → List ExposedTableMapping
exposed_entries [] = []
exposed_entries (row ∷ rows) =
    let rest = exposed_entries rows in if row.exposed then row.entry ∷ rest else rest

-- the first row that a test finds
unfoldable pub find_row : (ExposedTableMapping → Bool) → List RegistryRow → Option RegistryRow
find_row test [] = none
find_row test (row ∷ rows) = if test row.entry then some row else find_row test rows

abbrev variable : AppError → AppError
variable e = record e {
  details = some ((lit "variable", Detail.text (lit "MICROJBASE_TABLES")) ∷ []);
}

abbrev pub invalid_mapping : List Text → AppError
invalid_mapping message = variable (app_error validation_error (concat message) 400)

-- ALIAS_PATTERN
unfoldable pub is_alias : Text → Bool
is_alias t =
    leb (length t) 63 && matches_head_rest is_lower (λ c. is_lower c || (is_digit c || c == b'_')) t

abbrev pub forbidden_schemas : List Text
forbidden_schemas = lit "microjbase" ∷ lit "pg_catalog" ∷ lit "information_schema" ∷ []

abbrev pub bad_alias : ExposedTableMapping → AppError
bad_alias m =
    invalid_mapping
      (lit "MICROJBASE_TABLES alias \"" ∷ m.alias ∷ lit "\" must match ^[a-z][a-z0-9_]{0,62}$" ∷ [])

abbrev pub bad_name : Text → Text → AppError
bad_name what name =
    invalid_mapping
      (lit "MICROJBASE_TABLES " ∷ what ∷ lit " \"" ∷ name ∷ lit "\" is not a valid identifier" ∷ [])

abbrev pub bad_schema : ExposedTableMapping → AppError
bad_schema m =
    invalid_mapping (lit "MICROJBASE_TABLES schema \"" ∷ m.schema ∷ lit "\" cannot be exposed" ∷ [])

abbrev pub duplicates : AppError
duplicates = invalid_mapping (lit "MICROJBASE_TABLES contains duplicate aliases or targets" ∷ [])

abbrev pub mapping_target : ExposedTableMapping → Text
mapping_target m = m.schema ++ (b'.' ∷ m.table)

-- the NUL-joined key
abbrev pub exposed_set_key : ExposedTableMapping → Text
exposed_set_key m = m.alias ++ (0 ∷ (m.schema ++ (0 ∷ m.table)))

-- new Set(...): each text once
unfoldable pub distinct : List Text → List Text
distinct [] = []
distinct (x ∷ xs) = let rest = distinct xs in if includes rest x then rest else x ∷ rest

unfoldable pub has_all : List Text → List ExposedTableMapping → Bool
has_all keys [] = true
has_all keys (m ∷ ms) = includes keys (exposed_set_key m) && has_all keys ms

unfoldable pub exposed_sets_equal : List ExposedTableMapping → List ExposedTableMapping → Bool
exposed_sets_equal exposed payload =
    let keys = distinct (map exposed_set_key exposed) in
    if not (length exposed == length payload)
    then false
    else if not (length keys == length exposed)
    then false
    else has_all keys payload

module _ (platform : Platform) where
  unfoldable pub validate_mapping : ExposedTableMapping → Result AppError Unit
  validate_mapping m =
      guard (is_alias m.alias) (bad_alias m)
      >> (guard (is_simple_identifier m.schema) (bad_name (lit "schema") m.schema)
          >> (guard (is_simple_identifier m.table) (bad_name (lit "table") m.table)
              >> guard (not (includes forbidden_schemas (platform.to_lower m.schema)))
                  (bad_schema m)))

  -- the loop of buildImportPayload, with the aliases and targets that it has seen
  unfoldable pub build_payload :
      List Text → List Text → List ExposedTableMapping → Result AppError (List ExposedTableMapping)
  build_payload aliases targets [] = ok []
  build_payload aliases targets (m ∷ ms) =
      validate_mapping m
      >> (guard (not (includes aliases m.alias || includes targets (mapping_target m))) duplicates
          >> (build_payload (m.alias ∷ aliases) (mapping_target m ∷ targets) ms >>= λ rest.
              ok (m ∷ rest)))

  unfoldable pub build_import_payload :
      List ExposedTableMapping → Result AppError (List ExposedTableMapping)
  build_import_payload mappings = build_payload [] [] mappings

  abbrev pub Run : Type 0 → Type 0
  Run A = World → Result AppError A × World

  abbrev pub and_then :
      {A B : Type 0} → Result AppError A × World → (A → Run B) → Result AppError B × World
  and_then (ok a, w) next = next a w
  and_then (err e, w) next = (err e, w)

  -- a statement reads the tables, changes them, or is refused by the database
  abbrev pub Statement : Type 0 → Type 0
  Statement A = RegistryTables → Result Thrown (A × RegistryTables)

  abbrev pub carried_out :
      {A : Type 0}
      → Option Thrown
      → List Event
      → RegistryTables
      → Result Thrown (A × RegistryTables)
      → Result AppError A × World
  carried_out _ rest t (err e) =
      (err (translate_pool_error platform e), record { tables = t; schedule = rest })
  carried_out none rest t (ok (a, u)) = (ok a, record { tables = u; schedule = rest })
  carried_out (some e) rest t (ok (a, u)) =
      (err (translate_pool_error platform e), record { tables = u; schedule = rest })

  unfoldable pub deliver :
      {A : Type 0} → Statement A → RegistryTables → List Event → Result AppError A × World
  deliver statement t [] = carried_out none [] t (statement t)
  deliver statement t (others change ∷ rest) =
      carried_out none rest (change t) (statement (change t))
  deliver statement t (fault e ∷ rest) =
      (err (translate_pool_error platform e), record { tables = t; schedule = rest })
  deliver statement t (lost e ∷ rest) = carried_out (some e) rest t (statement t)

  -- queryTranslated
  unfoldable pub query_translated : {A : Type 0} → Statement A → Run A
  query_translated statement w = deliver statement w.tables w.schedule

  -- `order` is ORDER BY alias
  module _ (order : List ExposedTableMapping → List ExposedTableMapping) where
    abbrev pub mapped_state : StateRow → List ExposedTableMapping → Run ExposureRegistryState
    mapped_state state rows w = (
      map_entry_rows rows >>= λ entries. ok (record {
        initialized = state.initialized;
        imported_at = state.imported_at;
        exposed = entries;
      }),
      w,
    )

    unfoldable pub read_exposed : Option StateRow → Run ExposureRegistryState
    read_exposed none w = (err (malformed (lit "singleton state row is missing")), w)
    read_exposed (some state) w =
        and_then (query_translated (λ t. ok (order (exposed_entries t.rows), t)) w)
          (mapped_state state)

    unfoldable pub read_exposure_registry_state : Run ExposureRegistryState
    read_exposure_registry_state w =
        and_then (query_translated (λ t. ok (t.state, t)) w) read_exposed

    abbrev pub mapped_row : Option RegistryRow → Run (Option RegistryRow)
    mapped_row none w = (ok none, w)
    mapped_row (some row) w = (
      map_entry_row row.entry >>= λ entry.
          ok (some (record { entry = entry; exposed = row.exposed })),
      w,
    )

    unfoldable pub find_exposure_by_target : Text → Text → Run (Option RegistryRow)
    find_exposure_by_target schema table w =
        and_then
          (query_translated
            (λ t. ok (find_row (λ m. text_eq m.schema schema && text_eq m.table table) t.rows, t))
            w)
          mapped_row

    unfoldable pub find_exposure_by_alias : Text → Run (Option RegistryRow)
    find_exposure_by_alias alias w =
        and_then (query_translated (λ t. ok (find_row (λ m. text_eq m.alias alias) t.rows, t)) w)
          mapped_row
