-- ===== src/Ddl/Constraints.antt =====
-- The builders of src/database/schema-ddl.ts for type changes, indexes, unique constraints and
-- foreign keys.
use micro_jbase.Base.{
  Bool, true, false, ◌||◌, Option, none, some, List, [], ◌∷◌, ◌++◌, ◌==◌, length, Result, ok, ◌>>=◌,
  ◌>>◌, guard, Text, lit, concat,
}
use micro_jbase.Errors.{AppError}
use micro_jbase.Platform.{Platform}
use micro_jbase.Ddl.Identifiers.{
  invalid_input, assert_ddl_identifier, quote_identifier, quote_literal, assert_manageable_schema,
  assert_ddl_name, deterministic_object_name, assert_key_columns, quote_column_list,
}
use micro_jbase.Ddl.Defaults.{DdlColumnType, type_name}
use micro_jbase.Ddl.Plans.{DdlPlan, seal_plan, quoted_target, qualified, exposed_guard_statement}
use micro_jbase.Ddl.Compile.{is_safe_conversion, catalogue_rendering}

unfoldable pub compile_locked_source_type_assertion :
    Text → Text → Text → DdlColumnType → Result AppError Text
unfolding quote_literal catalogue_rendering
compile_locked_source_type_assertion schema table column from_type = do
  s ← quote_literal schema
  t ← quote_literal table
  c ← quote_literal column
  expected ← quote_literal (catalogue_rendering from_type)
  ok (
      concat (
        lit
          "DO $microjbase$\nDECLARE\n  microjbase_actual_type text;\nBEGIN\n  SELECT format_type(a.atttypid, a.atttypmod) INTO microjbase_actual_type\n  FROM pg_catalog.pg_attribute a\n  JOIN pg_catalog.pg_class c ON c.oid = a.attrelid\n  JOIN pg_catalog.pg_namespace n ON n.oid = c.relnamespace\n  WHERE n.nspname = "
        ∷ s
        ∷ lit "\n    AND c.relname = "
        ∷ t
        ∷ lit "\n    AND a.attname = "
        ∷ c
        ∷ lit
            "\n    AND a.attnum > 0\n    AND NOT a.attisdropped;\n  IF microjbase_actual_type IS DISTINCT FROM "
        ∷ expected
        ∷ lit
            " THEN\n    RAISE EXCEPTION 'compiled source type no longer matches the column'\n      USING ERRCODE = '9C001';\n  END IF;\nEND\n$microjbase$"
        ∷ []))

abbrev pub or_derived : Option Text → Text → Text
or_derived none derived = derived
or_derived (some name) derived = name

pub data ForeignKeyAction : Type 0 where
  no_action restrict cascade set_null : ForeignKeyAction

unfoldable pub action_sql : ForeignKeyAction → Text
action_sql no_action = lit "NO ACTION"
action_sql restrict = lit "RESTRICT"
action_sql cascade = lit "CASCADE"
action_sql set_null = lit "SET NULL"

-- the action rewrites rows of the referencing table
abbrev pub rewrites : ForeignKeyAction → Bool
rewrites cascade = true
rewrites set_null = true
rewrites _ = false

module _ (platform : Platform) where
  unfoldable pub compile_change_column_type :
      Text → Text → Text → DdlColumnType → DdlColumnType → Result AppError DdlPlan
  unfolding assert_manageable_schema compile_locked_source_type_assertion quoted_target type_name
      is_safe_conversion
  compile_change_column_type schema table column from_type to_type = do
    assert_manageable_schema platform schema
    guard (is_safe_conversion from_type to_type) (
        invalid_input (
          concat (
            lit "type conversion from "
            ∷ type_name from_type
            ∷ lit " to "
            ∷ type_name to_type
            ∷ lit " is not in the safe conversion matrix"
            ∷ [])))
    assertion ← compile_locked_source_type_assertion schema table column from_type
    target ← quoted_target schema table
    name ← quote_identifier column
    ok (
        seal_plan
          (assertion
            ∷ concat (
                lit "ALTER TABLE "
                ∷ target
                ∷ lit " ALTER COLUMN "
                ∷ name
                ∷ lit " TYPE "
                ∷ type_name to_type
                ∷ [])
            ∷ [])
          (concat (
            lit "change the type of column "
            ∷ column
            ∷ lit " on "
            ∷ qualified schema table
            ∷ lit " from "
            ∷ type_name from_type
            ∷ lit " to "
            ∷ type_name to_type
            ∷ [])))

  unfoldable pub compile_create_index :
      Text → Text → List Text → Option Text → Result AppError DdlPlan
  unfolding assert_manageable_schema assert_ddl_identifier assert_key_columns assert_ddl_name
      quoted_target quote_column_list
  compile_create_index schema table columns given = do
    assert_manageable_schema platform schema
    assert_ddl_identifier table
    assert_key_columns (lit "an index") columns
    let name = or_derived given (deterministic_object_name platform (lit "idx") table columns)
    assert_ddl_name name (lit "index name")
    index ← quote_identifier name
    target ← quoted_target schema table
    list ← quote_column_list columns
    ok (
        seal_plan
          (concat (lit "CREATE INDEX " ∷ index ∷ lit " ON " ∷ target ∷ lit " " ∷ list ∷ []) ∷ [])
          (concat (lit "create index " ∷ name ∷ lit " on " ∷ qualified schema table ∷ [])))

  unfoldable pub compile_drop_index : Text → Text → Result AppError DdlPlan
  unfolding assert_manageable_schema assert_ddl_name quoted_target
  compile_drop_index schema name = do
    assert_manageable_schema platform schema
    assert_ddl_name name (lit "index name")
    target ← quoted_target schema name
    ok (seal_plan ((lit "DROP INDEX " ++ target) ∷ []) (lit "drop index " ++ qualified schema name))

  unfoldable pub compile_add_unique_constraint :
      Text → Text → List Text → Option Text → Result AppError DdlPlan
  unfolding assert_manageable_schema assert_ddl_identifier assert_key_columns assert_ddl_name
      quoted_target quote_column_list
  compile_add_unique_constraint schema table columns given = do
    assert_manageable_schema platform schema
    assert_ddl_identifier table
    assert_key_columns (lit "a unique constraint") columns
    let name = or_derived given (deterministic_object_name platform (lit "uniq") table columns)
    assert_ddl_name name (lit "constraint name")
    target ← quoted_target schema table
    constraint ← quote_identifier name
    list ← quote_column_list columns
    ok (
        seal_plan
          (concat (
              lit "ALTER TABLE "
              ∷ target
              ∷ lit " ADD CONSTRAINT "
              ∷ constraint
              ∷ lit " UNIQUE "
              ∷ list
              ∷ [])
            ∷ [])
          (concat (lit "add unique constraint " ∷ name ∷ lit " on " ∷ qualified schema table ∷ [])))

  unfoldable pub compile_drop_constraint : Text → Text → Text → Result AppError DdlPlan
  unfolding assert_manageable_schema assert_ddl_identifier assert_ddl_name quoted_target
  compile_drop_constraint schema table name = do
    assert_manageable_schema platform schema
    assert_ddl_identifier table
    assert_ddl_name name (lit "constraint name")
    target ← quoted_target schema table
    constraint ← quote_identifier name
    ok (
        seal_plan
          (concat (lit "ALTER TABLE " ∷ target ∷ lit " DROP CONSTRAINT " ∷ constraint ∷ []) ∷ [])
          (concat (lit "drop constraint " ∷ name ∷ lit " on " ∷ qualified schema table ∷ [])))

  -- the locked guards that lead the plan of a key whose action rewrites rows
  unfoldable pub foreign_key_guards : Bool → Text → Text → Text → Text → Result AppError (List Text)
  unfolding exposed_guard_statement
  foreign_key_guards false schema table ref_schema ref_table = ok []
  foreign_key_guards true schema table ref_schema ref_table = do
    own ← exposed_guard_statement schema table
    other ← exposed_guard_statement ref_schema ref_table
    ok (own ∷ other ∷ [])

  unfoldable pub compile_add_foreign_key :
      Text
      → Text
      → List Text
      → Text
      → Text
      → List Text
      → ForeignKeyAction
      → ForeignKeyAction
      → Option Text
      → Result AppError DdlPlan
  unfolding assert_manageable_schema assert_ddl_identifier assert_key_columns assert_ddl_name
      quoted_target quote_column_list foreign_key_guards
  compile_add_foreign_key schema table columns ref_schema ref_table ref_columns on_update on_delete
        given =
      do
        assert_manageable_schema platform schema
        assert_manageable_schema platform ref_schema
        assert_ddl_identifier table
        assert_ddl_identifier ref_table
        assert_key_columns (lit "a foreign key") columns
        assert_key_columns (lit "a foreign key target") ref_columns
        guard (length columns == length ref_columns) (
            invalid_input
              (lit "a foreign key must reference the same number of columns it constrains"))
        let name = or_derived given (deterministic_object_name platform (lit "fkey") table columns)
        assert_ddl_name name (lit "constraint name")
        guards ←
            foreign_key_guards (rewrites on_update || rewrites on_delete) schema table ref_schema
              ref_table
        target ← quoted_target schema table
        constraint ← quote_identifier name
        list ← quote_column_list columns
        ref_target ← quoted_target ref_schema ref_table
        ref_list ← quote_column_list ref_columns
        ok (
            seal_plan
              (guards
                ++ (concat (
                      lit "ALTER TABLE "
                      ∷ target
                      ∷ lit " ADD CONSTRAINT "
                      ∷ constraint
                      ∷ lit " FOREIGN KEY "
                      ∷ list
                      ∷ lit " REFERENCES "
                      ∷ ref_target
                      ∷ lit " "
                      ∷ ref_list
                      ∷ lit " ON UPDATE "
                      ∷ action_sql on_update
                      ∷ lit " ON DELETE "
                      ∷ action_sql on_delete
                      ∷ [])
                    ∷ []))
              (concat (lit "add foreign key " ∷ name ∷ lit " on " ∷ qualified schema table ∷ [])))
