-- ===== src/Tables.antt =====
-- src/database/table-registry.ts and the type names of src/database/table-types.ts: the verification
-- of the exposed tables against the catalogue, and the registry that is built of them.
use micro_jbase.Base.{
  ℕ, Bool, true, false, not, ◌&&◌, ◌||◌, Option, none, some, List, [], ◌∷◌, ◌++◌, map, null,
  if◌then◌else◌, Result, ok, err, ◌>>=◌, ◌>>◌, guard, Text, lit, text_eq, includes, concat,
  matches_head_rest,
}
use micro_jbase.Errors.{AppError, app_error_with, database_unavailable, Detail, Thrown}
use micro_jbase.Platform.{Platform}
use micro_jbase.Data.Service.{ExposedTable}
use micro_jbase.Ddl.Identifiers.{is_simple_identifier}
pub mod Verified
mod Tests

pub record ExposedTableMapping : Type 0 where
  pub alias : Text
  pub schema : Text
  pub table : Text

-- A row of information_schema.columns, as far as it is read.
pub record ColumnRow : Type 0 where
  pub column_name : Text
  pub data_type : Text
  pub is_nullable : Text
  pub column_default : Option Text
  pub is_generated : Text
  pub is_identity : Text

pub record PrivilegeRow : Type 0 where
  pub column_name : Text
  pub has_select : Bool
  pub has_insert : Bool
  pub has_update : Bool

-- What the database answers to the queries of verifyTable: the first row of each, `none` where there
-- is no row, or all rows; or what the query throws.
pub record Catalogue : Type 0 where
  pub schema_usage : Text → Result Thrown (Option Bool)
  pub table_exists : Text → Text → Result Thrown (Option Bool)
  pub row_security : Text → Text → Result Thrown (Option (Bool × Bool))
  pub can_delete : Text → Result Thrown (Option Bool)
  pub applicable_policy : Text → Text → Result Thrown (Option Bool)
  pub primary_key : Text → Text → Result Thrown (List (Text × Text))
  pub columns : Text → Text → Result Thrown (List ColumnRow)
  pub column_privileges : Text → Text → Result Thrown (List PrivilegeRow)

pub record ColumnMetadata : Type 0 where
  pub name : Text
  pub data_type : Text
  pub is_nullable : Bool
  pub is_generated : Bool
  pub is_identity : Bool
  pub has_default : Bool
  pub has_select : Bool
  pub has_insert : Bool
  pub has_update : Bool

pub record TableVerification : Type 0 where
  pub has_rls : Bool
  pub has_force_rls : Bool
  pub applicable_policy : Bool
  pub primary_key : Option (Text × Text)
  pub columns : List ColumnMetadata
  pub has_delete : Bool

abbrev pub unusable : ExposedTableMapping → List Text → Thrown
unusable mapping message = Thrown.app (
    app_error_with database_unavailable (concat message) 503 (
      (lit "alias", Detail.text mapping.alias)
      ∷ (lit "schema", Detail.text mapping.schema)
      ∷ (lit "table", Detail.text mapping.table)
      ∷ []))

-- `${mapping.schema}.${mapping.table}`
abbrev pub target_of : ExposedTableMapping → Text
target_of mapping = concat (mapping.schema ∷ lit "." ∷ mapping.table ∷ [])

abbrev pub is_set : Option Bool → Bool
is_set none = false
is_set (some b) = b

-- the first row, or the error where there is none
abbrev pub required : {A : Type 0} → Option A → Thrown → Result Thrown A
required none e = err e
required (some a) e = ok a

abbrev pub missing_usage : ExposedTableMapping → Thrown
missing_usage mapping =
    unusable mapping
      (lit "Runtime role is missing USAGE privilege on schema " ∷ mapping.schema ∷ [])

abbrev pub missing_table : ExposedTableMapping → Thrown
missing_table mapping =
    unusable mapping (lit "Configured table " ∷ target_of mapping ∷ lit " does not exist" ∷ [])

abbrev pub unknown_delete : ExposedTableMapping → Thrown
unknown_delete mapping =
    unusable mapping (lit "Could not determine DELETE privilege on " ∷ target_of mapping ∷ [])

abbrev pub no_row_security : ExposedTableMapping → Thrown
no_row_security mapping =
    unusable mapping (lit "Row-level security is not enabled on " ∷ target_of mapping ∷ [])

abbrev pub no_forced_security : ExposedTableMapping → Thrown
no_forced_security mapping =
    unusable mapping (lit "Forced row-level security is not enabled on " ∷ target_of mapping ∷ [])

abbrev pub no_policy : ExposedTableMapping → Thrown
no_policy mapping = unusable mapping (
    lit "No row-level security policies on "
    ∷ target_of mapping
    ∷ lit " apply to the runtime role"
    ∷ [])

abbrev pub no_key : ExposedTableMapping → Thrown
no_key mapping =
    unusable mapping
      (lit "Table " ∷ target_of mapping ∷ lit " has no single-column primary key" ∷ [])

abbrev pub key_not_id : ExposedTableMapping → Thrown
key_not_id mapping =
    unusable mapping (lit "Primary key on " ∷ target_of mapping ∷ lit " must be named \"id\"" ∷ [])

abbrev pub key_not_uuid : ExposedTableMapping → Thrown
key_not_uuid mapping =
    unusable mapping
      (lit "Primary key \"id\" on " ∷ target_of mapping ∷ lit " must be type uuid" ∷ [])

abbrev pub no_delete : ExposedTableMapping → Thrown
no_delete mapping =
    unusable mapping (lit "Runtime role cannot delete from " ∷ target_of mapping ∷ [])

abbrev pub no_readable : ExposedTableMapping → Thrown
no_readable mapping =
    unusable mapping (lit "Table " ∷ target_of mapping ∷ lit " has no readable columns" ∷ [])

abbrev pub no_insertable : ExposedTableMapping → Thrown
no_insertable mapping =
    unusable mapping (lit "Table " ∷ target_of mapping ∷ lit " has no insertable columns" ∷ [])

abbrev pub no_updatable : ExposedTableMapping → Thrown
no_updatable mapping =
    unusable mapping (lit "Table " ∷ target_of mapping ∷ lit " has no updatable columns" ∷ [])

-- SUPPORTED_TYPES, by the keys of the map
abbrev pub supported_types : List Text
supported_types =
    lit "uuid"
    ∷ lit "text"
    ∷ lit "varchar"
    ∷ lit "character varying"
    ∷ lit "char"
    ∷ lit "character"
    ∷ lit "boolean"
    ∷ lit "bool"
    ∷ lit "smallint"
    ∷ lit "integer"
    ∷ lit "int"
    ∷ lit "int4"
    ∷ lit "real"
    ∷ lit "float4"
    ∷ lit "double precision"
    ∷ lit "float8"
    ∷ lit "bigint"
    ∷ lit "int8"
    ∷ lit "numeric"
    ∷ lit "decimal"
    ∷ lit "date"
    ∷ lit "timestamp without time zone"
    ∷ lit "timestamp"
    ∷ lit "timestamp with time zone"
    ∷ lit "timestamptz"
    ∷ lit "json"
    ∷ lit "jsonb"
    ∷ []

module _ (platform : Platform) where
  unfoldable pub normalize_type : Text → Text
  unfolding text_eq
  normalize_type name =
      let lower = platform.trim (platform.to_lower name) in
      if text_eq lower (lit "character varying")
      then lit "varchar"
      else if text_eq lower (lit "timestamp without time zone")
      then lit "timestamp"
      else if text_eq lower (lit "timestamp with time zone")
      then lit "timestamptz"
      else lower

  unfoldable pub is_supported_type : Text → Bool
  unfolding normalize_type includes
  is_supported_type name = includes supported_types (normalize_type name)

  abbrev no_privileges : Text → PrivilegeRow
  no_privileges name = record {
    column_name = name;
    has_select = false;
    has_insert = false;
    has_update = false;
  }

  -- privilegesByColumn.get: of two rows with one name the map keeps the later
  unfoldable pub privileges_of : Text → PrivilegeRow → List PrivilegeRow → PrivilegeRow
  privileges_of name found [] = found
  privileges_of name found (row ∷ rows) =
      privileges_of name (if text_eq row.column_name name then row else found) rows

  unfoldable pub column_metadata : List PrivilegeRow → ColumnRow → ColumnMetadata
  unfolding normalize_type privileges_of
  column_metadata privileges row =
      let granted = privileges_of row.column_name (no_privileges row.column_name) privileges in
      record {
        name = row.column_name;
        data_type = normalize_type row.data_type;
        is_nullable = text_eq row.is_nullable (lit "YES");
        is_generated = not (text_eq row.is_generated (lit "NEVER"));
        is_identity = text_eq row.is_identity (lit "YES");
        has_default = elim row.column_default [ none ↦ false | some d ↦ true ];
        has_select = granted.has_select;
        has_insert = granted.has_insert;
        has_update = granted.has_update;
      }

  -- columnsResult.rows.filter(...).map(...)
  unfoldable pub supported_columns : List PrivilegeRow → List ColumnRow → List ColumnMetadata
  unfolding is_supported_type column_metadata
  supported_columns privileges [] = []
  supported_columns privileges (row ∷ rows) =
      let rest = supported_columns privileges rows in
      if is_supported_type row.data_type then column_metadata privileges row ∷ rest else rest

  unfoldable pub single_key : List (Text × Text) → Option (Text × Text)
  unfolding normalize_type
  single_key ((column, type) ∷ []) = some (column, normalize_type type)
  single_key _ = none

  module _ (catalogue : Catalogue) where
    unfoldable pub verify_table : ExposedTableMapping → Result Thrown TableVerification
    unfolding single_key supported_columns
    verify_table mapping = do
      usage ← catalogue.schema_usage mapping.schema
      guard (is_set usage) (missing_usage mapping)
      exists ← catalogue.table_exists mapping.schema mapping.table
      guard (is_set exists) (missing_table mapping)
      security ← catalogue.row_security mapping.schema mapping.table
      flags ← required security (missing_table mapping)
      deletion ← catalogue.can_delete (target_of mapping)
      may_delete ← required deletion (unknown_delete mapping)
      policy ← catalogue.applicable_policy mapping.schema mapping.table
      keys ← catalogue.primary_key mapping.schema mapping.table
      rows ← catalogue.columns mapping.schema mapping.table
      privileges ← catalogue.column_privileges mapping.schema mapping.table
      ok (record {
        has_rls = flags.0;
        has_force_rls = flags.1;
        applicable_policy = is_set policy;
        primary_key = single_key keys;
        columns = supported_columns privileges rows;
        has_delete = may_delete;
      })

-- the names of the columns for which the test holds
unfoldable pub names_where : (ColumnMetadata → Bool) → List ColumnMetadata → List Text
names_where test [] = []
names_where test (column ∷ columns) =
    let rest = names_where test columns in if test column then column.name ∷ rest else rest

abbrev pub is_insertable : ColumnMetadata → Bool
is_insertable column = column.has_insert && (not column.is_generated && not column.is_identity)

abbrev pub is_updatable : ColumnMetadata → Bool
is_updatable column =
    column.has_update
    && (not (text_eq column.name (lit "id")) && (not column.is_generated && not column.is_identity))

-- assertIdentifier
unfoldable pub assert_identifier : Text → Text → Result Thrown (Unit {0})
assert_identifier name context = guard (is_simple_identifier name) (
    Thrown.app (
      app_error_with database_unavailable
        (concat (lit "Invalid " ∷ context ∷ lit " identifier: " ∷ name ∷ [])) 503
        ((context, Detail.text name) ∷ [])))

-- the body of the loop of buildTableRegistry, from the verified table on
unfoldable pub expose_verified :
    ExposedTableMapping → TableVerification → Result Thrown ExposedTable
unfolding names_where
expose_verified mapping verified = do
  guard verified.has_rls (no_row_security mapping)
  guard verified.has_force_rls (no_forced_security mapping)
  guard verified.applicable_policy (no_policy mapping)
  key ← required verified.primary_key (no_key mapping)
  guard (text_eq key.0 (lit "id")) (key_not_id mapping)
  guard (text_eq key.1 (lit "uuid")) (key_not_uuid mapping)
  guard verified.has_delete (no_delete mapping)
  let readable = names_where (λ column. column.has_select) verified.columns
  let insertable = names_where is_insertable verified.columns
  let updatable = names_where is_updatable verified.columns
  guard (not (null readable)) (no_readable mapping)
  guard (not (null insertable)) (no_insertable mapping)
  guard verified.has_delete (no_delete mapping)
  guard (not (null updatable)) (no_updatable mapping)
  ok (record {
    alias = mapping.alias;
    schema = mapping.schema;
    table = mapping.table;
    primary_key = lit "id";
    readable_columns = readable;
    insertable_columns = insertable;
    updatable_columns = updatable;
  })

module _ (platform : Platform) (catalogue : Catalogue) where
  -- one round of the loop of buildTableRegistry
  unfoldable pub expose_table : ExposedTableMapping → Result Thrown ExposedTable
  unfolding assert_identifier verify_table expose_verified
  expose_table mapping = do
    assert_identifier mapping.schema (lit "schema")
    assert_identifier mapping.table (lit "table")
    verified ← verify_table platform catalogue mapping
    expose_verified mapping verified

  -- buildTableRegistry: the tables that it hands to the registry
  unfoldable pub build_table_registry : List ExposedTableMapping → Result Thrown (List ExposedTable)
  unfolding expose_table
  build_table_registry [] = ok []
  build_table_registry (mapping ∷ mappings) = do
    table ← expose_table mapping
    rest ← build_table_registry mappings
    ok (table ∷ rest)

-- VerifiedTableRegistry.get: of two tables with one alias the map keeps the later
unfoldable pub registry_get : Text → List ExposedTable → Option ExposedTable
registry_get alias [] = none
registry_get alias (table ∷ tables) = elim (registry_get alias tables) [
  | none ↦ if text_eq table.alias alias then some table else none
  | some later ↦ some later
]
