-- ===== src/Ddl/Refusals.antt =====
-- The builders of src/database/schema-ddl.ts and the schemas of the system.
use micro_jbase.Base.{
  arith, ◌≡◌, starts_with-append, refl, Bool, true, Bool-cases, ◌⊎◌, inl, inr, List, ◌++◌, Option,
  Result, err, ◌>>◌, Text, lit, includes, starts_with, text_eq, text_eq_refl,
}
use micro_jbase.Errors.{AppError, app_error, validation_error}
use micro_jbase.Platform.{Platform}
use micro_jbase.Ddl.Identifiers.{is_internal, assert_manageable_schema}
use micro_jbase.Ddl.Defaults.{DdlColumnType, DdlColumnDefault}
use micro_jbase.Ddl.Compile.{
  DdlColumnSpec, compile_create_table, compile_rename_table, compile_drop_table, compile_add_column,
  compile_rename_column, compile_drop_column, compile_set_column_default,
  compile_drop_column_default, compile_set_not_null, compile_drop_not_null,
}
use micro_jbase.Ddl.Constraints.{
  ForeignKeyAction, compile_change_column_type, compile_create_index, compile_drop_index,
  compile_add_unique_constraint, compile_drop_constraint, compile_add_foreign_key,
}
use micro_jbase.Ddl.Privileges.{
  ColumnPrivilegeGrant, OwnershipPolicyTemplate, assert_ownership_policy_spec,
  compile_grant_runtime_privileges, compile_revoke_runtime_privileges, compile_enable_row_security,
  compile_disable_row_security, compile_create_ownership_policy, compile_drop_ownership_policy,
}

abbrev pub internal_refused : AppError
internal_refused = app_error validation_error (lit "Internal schemas cannot be modified") 400

-- In lower case, the name is microjbase, pg_catalog or information_schema, or begins with pg_.
abbrev pub IsInternal : Platform → Text → Type 0
IsInternal platform schema =
    (platform.to_lower schema ≡ lit "microjbase")
    ⊎ (platform.to_lower schema ≡ lit "pg_catalog")
    ⊎ (platform.to_lower schema ≡ lit "information_schema")
    ⊎ ((rest : Text) × (platform.to_lower schema ≡ lit "pg_" ++ rest))

is_internal-IsInternal :
    (platform : Platform) (schema : Text)
    → IsInternal platform schema
    → is_internal platform schema ≡ true
unfolding includes
is_internal-IsInternal platform schema (inl own) = rw (own, text_eq_refl (lit "microjbase")) refl
is_internal-IsInternal platform schema (inr (inl catalogue)) =
    let same : text_eq (lit "pg_catalog") (platform.to_lower schema) ≡ true =
      rw catalogue (text_eq_refl (lit "pg_catalog")) in
    ground arith
is_internal-IsInternal platform schema (inr (inr (inl information))) =
    let same : text_eq (lit "information_schema") (platform.to_lower schema) ≡ true =
      rw information (text_eq_refl (lit "information_schema")) in
    ground arith
is_internal-IsInternal platform schema (inr (inr (inr (rest, prefixed)))) =
    let begins : starts_with (lit "pg_") (platform.to_lower schema) ≡ true =
      rw prefixed (starts_with-append (lit "pg_") rest) in
    ground arith

module _ (platform : Platform) (schema : Text) (known : IsInternal platform schema) where
  internal : is_internal platform schema ≡ true
  internal = is_internal-IsInternal platform schema known

  refused :
      {B : Type 0} (k : Result AppError B)
      → (assert_manageable_schema platform schema >> k) ≡ err internal_refused
  unfolding assert_manageable_schema
  refused k = rw internal refl

  -- Every builder that changes tables and columns refuses a schema whose name in lower case is microjbase,
  -- pg_catalog or information_schema, or begins with pg_, with one error, whatever else it is given.
  pub internal-table_refused :
      (table name new_name : Text) (columns : List DdlColumnSpec) (column : DdlColumnSpec)
      (type to : DdlColumnType) (default : DdlColumnDefault)
      → (compile_create_table platform schema table columns ≡ err internal_refused)
        × (compile_rename_table platform schema table new_name ≡ err internal_refused)
        × (compile_drop_table platform schema table ≡ err internal_refused)
        × (compile_add_column platform schema table column ≡ err internal_refused)
        × (compile_rename_column platform schema table name new_name ≡ err internal_refused)
        × (compile_drop_column platform schema table name ≡ err internal_refused)
        × (compile_set_column_default platform schema table name type default
            ≡ err internal_refused)
        × (compile_drop_column_default platform schema table name ≡ err internal_refused)
        × (compile_set_not_null platform schema table name ≡ err internal_refused)
        × (compile_drop_not_null platform schema table name ≡ err internal_refused)
        × (compile_change_column_type platform schema table name type to ≡ err internal_refused)
  unfolding compile_create_table compile_rename_table compile_drop_table compile_add_column
      compile_rename_column compile_drop_column compile_set_column_default
      compile_drop_column_default compile_set_not_null compile_drop_not_null
      compile_change_column_type
  internal-table_refused table name new_name columns column type to default = (
    refused _,
    refused _,
    refused _,
    refused _,
    refused _,
    refused _,
    refused _,
    refused _,
    refused _,
    refused _,
    refused _,
  )

  -- Every builder for indexes, constraints, privileges, row security and policies refuses a schema whose name
  -- in lower case is microjbase, pg_catalog or information_schema, or begins with pg_, with the same error,
  -- whatever else it is given; that of a foreign key also where the referenced schema is such a one.
  pub internal-access_refused :
      (table name role ref_schema ref_table : Text) (columns ref_columns : List Text)
      (given : Option Text) (on_update on_delete : ForeignKeyAction) (usage deletes : Bool)
      (grants : List ColumnPrivilegeGrant) (template : OwnershipPolicyTemplate)
      → (compile_create_index platform schema table columns given ≡ err internal_refused)
        × (compile_drop_index platform schema name ≡ err internal_refused)
        × (compile_add_unique_constraint platform schema table columns given ≡ err internal_refused)
        × (compile_drop_constraint platform schema table name ≡ err internal_refused)
        × (compile_add_foreign_key platform schema table columns ref_schema ref_table ref_columns
              on_update on_delete given
            ≡ err internal_refused)
        × (compile_add_foreign_key platform ref_schema table columns schema ref_table ref_columns
              on_update on_delete given
            ≡ err internal_refused)
        × (compile_grant_runtime_privileges platform schema table role usage deletes grants
            ≡ err internal_refused)
        × (compile_revoke_runtime_privileges platform schema table role ≡ err internal_refused)
        × (compile_enable_row_security platform schema table ≡ err internal_refused)
        × (compile_disable_row_security platform schema table ≡ err internal_refused)
        × (compile_create_ownership_policy platform schema table name template role
            ≡ err internal_refused)
        × (compile_drop_ownership_policy platform schema table name template ≡ err internal_refused)
  unfolding compile_create_index compile_drop_index compile_add_unique_constraint
      compile_drop_constraint compile_add_foreign_key compile_grant_runtime_privileges
      compile_revoke_runtime_privileges compile_enable_row_security compile_disable_row_security
      compile_create_ownership_policy compile_drop_ownership_policy assert_ownership_policy_spec
      assert_manageable_schema
  internal-access_refused table name role ref_schema ref_table columns ref_columns given on_update
        on_delete usage deletes grants template =
      (
        rw internal refl,
        rw internal refl,
        rw internal refl,
        rw internal refl,
        rw internal refl,
        referencing,
        rw internal refl,
        rw internal refl,
        rw internal refl,
        rw internal refl,
        rw internal refl,
        rw internal refl,
      )
    where
      referencing :
          compile_add_foreign_key platform ref_schema table columns schema ref_table ref_columns
            on_update on_delete given
          ≡ err internal_refused
      referencing = elim (Bool-cases (is_internal platform ref_schema)) [
        | inl both ↦ rw both refl
        | inr other ↦ rw (other, internal) refl
      ]
