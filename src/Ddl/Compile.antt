-- ===== src/Ddl/Compile.antt =====
-- The builders of src/database/schema-ddl.ts for tables, columns, indexes and constraints.
use micro_jbase.Base.{
  Bool, true, false, not, List, [], ◌∷◌, ◌++◌, if◌then◌else◌, length, Result, ok, err, ◌>>=◌, ◌>>◌,
  guard, Text, lit, includes, join, concat, null, int, pos,
}
use micro_jbase.Errors.{AppError}
use micro_jbase.Platform.{Platform}
use micro_jbase.Ddl.Identifiers.{invalid_input, quote_identifier, assert_manageable_schema}
use micro_jbase.Ddl.Defaults.{
  DdlColumnType, integer, bigint, timestamp, timestamptz, date, numeric, DdlColumnDefault,
  type_name, render_default_clause,
}
use micro_jbase.Ddl.Plans.{DdlPlan, seal_plan, quoted_target, qualified}

pub record DdlColumnSpec : Type 0 where
  pub name : Text
  pub type : DdlColumnType
  pub nullable : Bool
  pub default : DdlColumnDefault
  pub primary_key : Bool

abbrev pub nullability : Bool → Text
nullability true = []
nullability false = lit " NOT NULL"

abbrev pub primary_key_clause : Bool → Text
primary_key_clause true = lit " PRIMARY KEY"
primary_key_clause false = []

-- SAFE_TYPE_CONVERSIONS
unfoldable pub is_safe_conversion : DdlColumnType → DdlColumnType → Bool
is_safe_conversion integer bigint = true
is_safe_conversion integer numeric = true
is_safe_conversion bigint numeric = true
is_safe_conversion date timestamp = true
is_safe_conversion _ _ = false

-- CATALOGUE_TYPE_RENDERINGS
unfoldable pub catalogue_rendering : DdlColumnType → Text
unfolding type_name
catalogue_rendering timestamp = lit "timestamp without time zone"
catalogue_rendering timestamptz = lit "timestamp with time zone"
catalogue_rendering type = type_name type

module _ (platform : Platform) where
  -- `"name" type NOT NULL DEFAULT ... PRIMARY KEY`
  unfoldable pub render_column : DdlColumnSpec → Result AppError Text
  unfolding render_default_clause quote_identifier type_name
  render_column column = do
    default_clause ← render_default_clause platform column.type column.default
    name ← quote_identifier column.name
    ok (
        concat (
          name
          ∷ lit " "
          ∷ type_name column.type
          ∷ nullability column.nullable
          ∷ default_clause
          ∷ primary_key_clause column.primary_key
          ∷ []))

  -- the loop of compileCreateTable over the columns
  unfoldable pub render_columns : List Text → List DdlColumnSpec → Result AppError (List Text)
  unfolding render_column
  render_columns seen [] = ok []
  render_columns seen (column ∷ columns) =
      let rest = render_columns (column.name ∷ seen) columns in
      if includes seen column.name
      then err
          (invalid_input (concat (lit "duplicate column name \"" ∷ column.name ∷ lit "\"" ∷ [])))
      else (do rendered ← render_column column; others ← rest; ok (rendered ∷ others))

  unfoldable pub compile_create_table : Text → Text → List DdlColumnSpec → Result AppError DdlPlan
  unfolding assert_manageable_schema render_columns quoted_target
  compile_create_table schema table columns = do
    assert_manageable_schema platform schema
    guard (not (null columns)) (invalid_input (lit "a table needs at least one column"))
    rendered ← render_columns [] columns
    target ← quoted_target schema table
    ok (
        seal_plan
          (concat (
              lit "CREATE TABLE "
              ∷ target
              ∷ lit " (\n  "
              ∷ join (lit ",\n  ") rendered
              ∷ lit "\n)"
              ∷ [])
            ∷ [])
          (concat (
            lit "create table "
            ∷ qualified schema table
            ∷ lit " with "
            ∷ platform.print_number (int (pos (length columns)))
            ∷ lit " column(s)"
            ∷ [])))

  unfoldable pub compile_rename_table : Text → Text → Text → Result AppError DdlPlan
  unfolding assert_manageable_schema quoted_target
  compile_rename_table schema table new_name = do
    assert_manageable_schema platform schema
    target ← quoted_target schema table
    new ← quote_identifier new_name
    ok (
        seal_plan (concat (lit "ALTER TABLE " ∷ target ∷ lit " RENAME TO " ∷ new ∷ []) ∷ [])
          (concat (lit "rename table " ∷ qualified schema table ∷ lit " to " ∷ new_name ∷ [])))

  unfoldable pub compile_drop_table : Text → Text → Result AppError DdlPlan
  unfolding assert_manageable_schema quoted_target
  compile_drop_table schema table = do
    assert_manageable_schema platform schema
    target ← quoted_target schema table
    ok (
        seal_plan ((lit "DROP TABLE " ++ target) ∷ [])
          (lit "drop table " ++ qualified schema table))

  unfoldable pub compile_add_column : Text → Text → DdlColumnSpec → Result AppError DdlPlan
  unfolding assert_manageable_schema quoted_target render_default_clause type_name
  compile_add_column schema table column = do
    assert_manageable_schema platform schema
    default_clause ← render_default_clause platform column.type column.default
    target ← quoted_target schema table
    name ← quote_identifier column.name
    ok (
        seal_plan
          (concat (
              lit "ALTER TABLE "
              ∷ target
              ∷ lit " ADD COLUMN "
              ∷ name
              ∷ lit " "
              ∷ type_name column.type
              ∷ nullability column.nullable
              ∷ default_clause
              ∷ primary_key_clause column.primary_key
              ∷ [])
            ∷ [])
          (concat (lit "add column " ∷ column.name ∷ lit " to " ∷ qualified schema table ∷ [])))

  unfoldable pub compile_rename_column : Text → Text → Text → Text → Result AppError DdlPlan
  unfolding assert_manageable_schema quoted_target
  compile_rename_column schema table column new_name = do
    assert_manageable_schema platform schema
    target ← quoted_target schema table
    old ← quote_identifier column
    new ← quote_identifier new_name
    ok (
        seal_plan
          (concat
              (lit "ALTER TABLE " ∷ target ∷ lit " RENAME COLUMN " ∷ old ∷ lit " TO " ∷ new ∷ [])
            ∷ [])
          (concat (
            lit "rename column "
            ∷ column
            ∷ lit " on "
            ∷ qualified schema table
            ∷ lit " to "
            ∷ new_name
            ∷ [])))

  -- `ALTER TABLE target <before> "column" <behind>`, as the builders for one column render it
  unfoldable pub alter_column : Text → Text → Text → Text → Text → Text → Result AppError DdlPlan
  unfolding quoted_target
  alter_column schema table column before behind description = do
    target ← quoted_target schema table
    name ← quote_identifier column
    ok (
        seal_plan (concat (lit "ALTER TABLE " ∷ target ∷ before ∷ name ∷ behind ∷ []) ∷ [])
          description)

  unfoldable pub compile_drop_column : Text → Text → Text → Result AppError DdlPlan
  unfolding assert_manageable_schema alter_column
  compile_drop_column schema table column = do
    assert_manageable_schema platform schema
    alter_column schema table column (lit " DROP COLUMN ") []
        (concat (lit "drop column " ∷ column ∷ lit " from " ∷ qualified schema table ∷ []))

  unfoldable pub compile_set_column_default :
      Text → Text → Text → DdlColumnType → DdlColumnDefault → Result AppError DdlPlan
  unfolding assert_manageable_schema alter_column render_default_clause
  compile_set_column_default schema table column type default = do
    assert_manageable_schema platform schema
    default_clause ← render_default_clause platform type default
    guard (not (null default_clause))
        (invalid_input (lit "a default value is required to set a column default"))
    alter_column schema table column (lit " ALTER COLUMN ") (lit " SET" ++ default_clause) (
        concat
          (lit "set the default of column " ∷ column ∷ lit " on " ∷ qualified schema table ∷ []))

  unfoldable pub compile_drop_column_default : Text → Text → Text → Result AppError DdlPlan
  unfolding assert_manageable_schema alter_column
  compile_drop_column_default schema table column = do
    assert_manageable_schema platform schema
    alter_column schema table column (lit " ALTER COLUMN ") (lit " DROP DEFAULT") (
        concat
          (lit "drop the default of column " ∷ column ∷ lit " on " ∷ qualified schema table ∷ []))

  unfoldable pub compile_set_not_null : Text → Text → Text → Result AppError DdlPlan
  unfolding assert_manageable_schema alter_column
  compile_set_not_null schema table column = do
    assert_manageable_schema platform schema
    alter_column schema table column (lit " ALTER COLUMN ") (lit " SET NOT NULL") (
        concat
          (lit "set column " ∷ column ∷ lit " on " ∷ qualified schema table ∷ lit " NOT NULL" ∷ []))

  unfoldable pub compile_drop_not_null : Text → Text → Text → Result AppError DdlPlan
  unfolding assert_manageable_schema alter_column
  compile_drop_not_null schema table column = do
    assert_manageable_schema platform schema
    alter_column schema table column (lit " ALTER COLUMN ") (lit " DROP NOT NULL") (
        concat (
          lit "drop the NOT NULL constraint of column "
          ∷ column
          ∷ lit " on "
          ∷ qualified schema table
          ∷ []))
