-- ===== src/Ddl/Privileges.antt =====
-- The builders of src/database/schema-ddl.ts for runtime privileges, the exposure registry, row
-- security and ownership policies.
use micro_jbase.Base.{
  Bool, true, false, not, ◌&&◌, ◌||◌, List, [], ◌∷◌, ◌++◌, ◌==◌, leb, length, Result, ok, ◌>>=◌,
  ◌>>◌, guard, Text, lit, null, concat, is_lower, is_digit, matches_head_rest,
}
use micro_jbase.Errors.{AppError}
use micro_jbase.Platform.{Platform}
use micro_jbase.Ddl.Identifiers.{
  invalid_input, is_simple_identifier, assert_ddl_identifier, quote_identifier, quote_literal,
  assert_manageable_schema, assert_ddl_name, deterministic_object_name, assert_key_columns,
  quote_column_list, max_identifier_length,
}
use micro_jbase.Ddl.Plans.{DdlPlan, seal_plan, quoted_target, qualified, exposed_guard_statement}

pub data ColumnPrivilege : Type 0 where
  select insert update : ColumnPrivilege

abbrev pub privilege_sql : ColumnPrivilege → Text
privilege_sql select = lit "SELECT"
privilege_sql insert = lit "INSERT"
privilege_sql update = lit "UPDATE"

pub record ColumnPrivilegeGrant : Type 0 where
  pub privilege : ColumnPrivilege
  pub columns : List Text

-- the loop of compileGrantRuntimePrivileges over the column grants
unfoldable pub grant_columns :
    Text → Text → Text → List ColumnPrivilegeGrant → Result AppError (List Text)
unfolding assert_key_columns quote_column_list quoted_target
grant_columns schema table role [] = ok []
grant_columns schema table role (grant ∷ grants) = do
  assert_key_columns (concat (lit "a " ∷ privilege_sql grant.privilege ∷ lit " grant" ∷ []))
      grant.columns
  list ← quote_column_list grant.columns
  target ← quoted_target schema table
  to ← quote_identifier role
  rest ← grant_columns schema table role grants
  ok (
      concat (
        lit "GRANT "
        ∷ privilege_sql grant.privilege
        ∷ lit " "
        ∷ list
        ∷ lit " ON TABLE "
        ∷ target
        ∷ lit " TO "
        ∷ to
        ∷ [])
      ∷ rest)

-- a statement that a flag of the spec asks for
abbrev pub when : Bool → Result AppError Text → Result AppError (List Text)
when true statement = do s ← statement; ok (s ∷ [])
when false statement = ok []

-- `^[a-z][a-z0-9_]{0,62}$`
unfoldable pub is_alias : Text → Bool
is_alias alias =
    matches_head_rest is_lower (λ c. is_lower c || (is_digit c || c == b'_')) alias
    && leb (length alias) 63

unfoldable pub assert_registry_alias : Text → Result AppError (Unit {0})
unfolding is_alias
assert_registry_alias alias =
    guard (is_alias alias) (invalid_input (lit "registry alias is not a valid alias"))

unfoldable pub assert_registry_identifier : Text → Text → Result AppError (Unit {0})
assert_registry_identifier name context =
    guard (is_simple_identifier name && leb (length name) max_identifier_length)
      (invalid_input (context ++ lit " is not a valid identifier"))

unfoldable pub compile_mark_exposed : Text → Text → Text → Result AppError DdlPlan
unfolding assert_registry_alias assert_registry_identifier quote_literal
compile_mark_exposed alias schema table = do
  assert_registry_alias alias
  assert_registry_identifier schema (lit "registry schema")
  assert_registry_identifier table (lit "registry table")
  a ← quote_literal alias
  s ← quote_literal schema
  t ← quote_literal table
  ok (
      seal_plan
        (concat (
            lit
              "INSERT INTO microjbase.exposure_registry (alias, schema_name, table_name, exposed, exposed_at, unexposed_at, updated_at) VALUES ("
            ∷ a
            ∷ lit ", "
            ∷ s
            ∷ lit ", "
            ∷ t
            ∷ lit
                ", TRUE, now(), NULL, now()) ON CONFLICT (schema_name, table_name) DO UPDATE SET alias = EXCLUDED.alias, exposed = TRUE, exposed_at = now(), unexposed_at = NULL, updated_at = now()"
            ∷ [])
          ∷ [])
        (lit "mark a table exposed in the durable exposure registry"))

unfoldable pub compile_mark_unexposed : Text → Text → Result AppError DdlPlan
unfolding assert_registry_identifier quote_literal
compile_mark_unexposed schema table = do
  assert_registry_identifier schema (lit "registry schema")
  assert_registry_identifier table (lit "registry table")
  s ← quote_literal schema
  t ← quote_literal table
  ok (
      seal_plan
        (concat (
            lit
              "UPDATE microjbase.exposure_registry SET exposed = FALSE, unexposed_at = now(), updated_at = now() WHERE schema_name = "
            ∷ s
            ∷ lit " AND table_name = "
            ∷ t
            ∷ [])
          ∷ [])
        (lit "mark a table unexposed in the durable exposure registry"))

-- The four ownership templates, with the command and the clauses of each.
pub data OwnershipPolicyTemplate : Type 0 where
  read insert update delete : OwnershipPolicyTemplate

pub record OwnershipPolicyTemplateShape : Type 0 where
  pub command : Text
  pub using : Bool
  pub with_check : Bool

unfoldable pub ownership_policy_template_shape :
    OwnershipPolicyTemplate → OwnershipPolicyTemplateShape
ownership_policy_template_shape read = record {
  command = lit "SELECT";
  using = true;
  with_check = false;
}
ownership_policy_template_shape insert = record {
  command = lit "INSERT";
  using = false;
  with_check = true;
}
ownership_policy_template_shape update = record {
  command = lit "UPDATE";
  using = true;
  with_check = true;
}
ownership_policy_template_shape delete = record {
  command = lit "DELETE";
  using = true;
  with_check = false;
}

abbrev pub template_name : OwnershipPolicyTemplate → Text
template_name read = lit "read"
template_name insert = lit "insert"
template_name update = lit "update"
template_name delete = lit "delete"

unfoldable pub compile_ownership_comparison : Text → Result AppError Text
compile_ownership_comparison column = do
  name ← quote_identifier column
  ok (
      concat (
        name
        ∷ lit " = "
        ∷ lit "nullif(current_setting('microjbase.user_id', true), '')::uuid"
        ∷ []))

abbrev pub clause : Bool → Text → Text → Text
clause true keyword comparison = concat (keyword ∷ comparison ∷ lit ")" ∷ [])
clause false keyword comparison = []

module _ (platform : Platform) where
  unfoldable pub compile_grant_runtime_privileges :
      Text → Text → Text → Bool → Bool → List ColumnPrivilegeGrant → Result AppError DdlPlan
  unfolding assert_manageable_schema assert_ddl_identifier quoted_target grant_columns
  compile_grant_runtime_privileges schema table role grant_schema_usage grant_delete column_grants =
      do
        assert_manageable_schema platform schema
        assert_ddl_identifier table
        assert_ddl_identifier role
        usage ← when grant_schema_usage (do
          s ← quote_identifier schema
          to ← quote_identifier role
          ok (concat (lit "GRANT USAGE ON SCHEMA " ∷ s ∷ lit " TO " ∷ to ∷ [])))
        deletes ← when grant_delete (do
          target ← quoted_target schema table
          to ← quote_identifier role
          ok (concat (lit "GRANT DELETE ON TABLE " ∷ target ∷ lit " TO " ∷ to ∷ [])))
        columns ← grant_columns schema table role column_grants
        guard (not (null (usage ++ (deletes ++ columns))))
            (invalid_input (lit "a privilege grant plan needs at least one statement"))
        ok (
            seal_plan (usage ++ (deletes ++ columns))
              (lit "grant runtime privileges on " ++ qualified schema table))

  unfoldable pub compile_revoke_runtime_privileges : Text → Text → Text → Result AppError DdlPlan
  unfolding assert_manageable_schema assert_ddl_identifier quoted_target
  compile_revoke_runtime_privileges schema table role = do
    assert_manageable_schema platform schema
    assert_ddl_identifier table
    assert_ddl_identifier role
    target ← quoted_target schema table
    from ← quote_identifier role
    ok (
        seal_plan
          (concat (
              lit "REVOKE SELECT, INSERT, UPDATE, DELETE ON TABLE "
              ∷ target
              ∷ lit " FROM "
              ∷ from
              ∷ [])
            ∷ [])
          (lit "revoke runtime privileges on " ++ qualified schema table))

  unfoldable pub compile_enable_row_security : Text → Text → Result AppError DdlPlan
  unfolding assert_manageable_schema assert_ddl_identifier quoted_target
  compile_enable_row_security schema table = do
    assert_manageable_schema platform schema
    assert_ddl_identifier table
    target ← quoted_target schema table
    ok (
        seal_plan
          (concat (lit "ALTER TABLE " ∷ target ∷ lit " ENABLE ROW LEVEL SECURITY" ∷ [])
            ∷ concat (lit "ALTER TABLE " ∷ target ∷ lit " FORCE ROW LEVEL SECURITY" ∷ [])
            ∷ [])
          (lit "enable and force row-level security on " ++ qualified schema table))

  unfoldable pub compile_disable_row_security : Text → Text → Result AppError DdlPlan
  unfolding assert_manageable_schema assert_ddl_identifier quoted_target exposed_guard_statement
  compile_disable_row_security schema table = do
    assert_manageable_schema platform schema
    assert_ddl_identifier table
    target ← quoted_target schema table
    exposed ← exposed_guard_statement schema table
    ok (
        seal_plan
          (exposed
            ∷ concat (lit "ALTER TABLE " ∷ target ∷ lit " NO FORCE ROW LEVEL SECURITY" ∷ [])
            ∷ concat (lit "ALTER TABLE " ∷ target ∷ lit " DISABLE ROW LEVEL SECURITY" ∷ [])
            ∷ [])
          (lit "disable row-level security on " ++ qualified schema table))

  unfoldable pub compile_assert_not_exposed : Text → Text → Result AppError DdlPlan
  unfolding assert_manageable_schema assert_ddl_identifier exposed_guard_statement
  compile_assert_not_exposed schema table = do
    assert_manageable_schema platform schema
    assert_ddl_identifier table
    exposed ← exposed_guard_statement schema table
    ok (
        seal_plan (exposed ∷ [])
          (concat (lit "assert " ∷ qualified schema table ∷ lit " is not exposed" ∷ [])))

  unfoldable pub ownership_policy_name : Text → Text → OwnershipPolicyTemplate → Text
  ownership_policy_name table column template =
      deterministic_object_name platform (template_name template) table (column ∷ [])

  unfoldable pub assert_ownership_policy_spec : Text → Text → Text → Result AppError (Unit {0})
  unfolding assert_manageable_schema assert_ddl_identifier
  assert_ownership_policy_spec schema table column = do
    assert_manageable_schema platform schema
    assert_ddl_identifier table
    assert_ddl_identifier column

  unfoldable pub compile_create_ownership_policy :
      Text → Text → Text → OwnershipPolicyTemplate → Text → Result AppError DdlPlan
  unfolding assert_ownership_policy_spec ownership_policy_name assert_ddl_name quoted_target
      compile_ownership_comparison ownership_policy_template_shape
  compile_create_ownership_policy schema table column template role = do
    assert_ownership_policy_spec schema table column
    assert_ddl_identifier role
    let name = ownership_policy_name table column template
    assert_ddl_name name (lit "policy name")
    target ← quoted_target schema table
    comparison ← compile_ownership_comparison column
    policy ← quote_identifier name
    to ← quote_identifier role
    let shape = ownership_policy_template_shape template
    ok (
        seal_plan
          (concat (
              lit "CREATE POLICY "
              ∷ policy
              ∷ lit " ON "
              ∷ target
              ∷ lit " FOR "
              ∷ shape.command
              ∷ lit " TO "
              ∷ to
              ∷ clause shape.using (lit " USING (") comparison
              ∷ clause shape.with_check (lit " WITH CHECK (") comparison
              ∷ [])
            ∷ [])
          (concat (
            lit "create "
            ∷ template_name template
            ∷ lit " ownership policy on "
            ∷ qualified schema table
            ∷ [])))

  unfoldable pub compile_drop_ownership_policy :
      Text → Text → Text → OwnershipPolicyTemplate → Result AppError DdlPlan
  unfolding assert_ownership_policy_spec ownership_policy_name assert_ddl_name quoted_target
  compile_drop_ownership_policy schema table column template = do
    assert_ownership_policy_spec schema table column
    let name = ownership_policy_name table column template
    assert_ddl_name name (lit "policy name")
    target ← quoted_target schema table
    policy ← quote_identifier name
    ok (
        seal_plan (concat (lit "DROP POLICY " ∷ policy ∷ lit " ON " ∷ target ∷ []) ∷ []) (
          concat (
            lit "drop "
            ∷ template_name template
            ∷ lit " ownership policy on "
            ∷ qualified schema table
            ∷ [])))
