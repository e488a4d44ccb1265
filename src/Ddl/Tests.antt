-- ===== src/Ddl/Tests.antt =====
-- Tests of the DDL builders, and their theorems at concrete inputs.
use micro_jbase.Base.{
  inr, ◌≡◌, ◌≤◌, refl, true, false, none, [], ◌∷◌, length, int, pos, err, Returned, Text, lit,
  includes, text_eq, starts_with, is_ok, matches_head_rest, join, has_unit, double,
}
use micro_jbase.Fixtures.{plain_platform, notes, public_schema}
use micro_jbase.Ddl.Identifiers.{quote_literal, is_simple_identifier, deterministic_object_name}
use micro_jbase.Ddl.Defaults.{text, bigint, DdlColumnDefault, JsonPrimitive}
use micro_jbase.Ddl.Compile.{
  DdlColumnSpec, compile_create_table, compile_rename_table, compile_drop_table, compile_add_column,
  compile_rename_column, compile_drop_column, compile_set_column_default,
  compile_drop_column_default, compile_set_not_null, compile_drop_not_null,
}
use micro_jbase.Ddl.Constraints.{
  cascade, set_null, restrict, compile_change_column_type, compile_create_index, compile_drop_index,
  compile_add_unique_constraint, compile_drop_constraint, compile_add_foreign_key,
}
use micro_jbase.Ddl.Privileges.{
  OwnershipPolicyTemplate, compile_grant_runtime_privileges, compile_revoke_runtime_privileges,
  compile_enable_row_security, compile_disable_row_security, compile_create_ownership_policy,
  compile_drop_ownership_policy,
}
use micro_jbase.Ddl.Lexing.{IsClosed, quote_literal-IsClosed}
use micro_jbase.Ddl.Safety.{
  HasClosedStatements, compile_create_table-IsClosed, compile_add_column-IsClosed,
  compile_set_column_default-IsClosed,
}
use micro_jbase.Ddl.Names.{length-deterministic_object_name}
use micro_jbase.Ddl.Refusals.{
  internal_refused, IsInternal, internal-table_refused, internal-access_refused,
}

-- the text `x'; --`
abbrev attack : Text
attack = b'x' ∷ 39 ∷ b';' ∷ b' ' ∷ b'-' ∷ b'-' ∷ []

abbrev title : DdlColumnSpec
title = record {
  name = notes;
  type = text;
  nullable = false;
  default = DdlColumnDefault.literal (JsonPrimitive.str attack);
  primary_key = false;
}

abbrev pg : Text
pg = b'p' ∷ b'g' ∷ b'_' ∷ b'x' ∷ []

quote_literal-IsClosed_example : Returned IsClosed (quote_literal attack)
quote_literal-IsClosed_example = quote_literal-IsClosed attack

compile_create_table-IsClosed_example :
    Returned HasClosedStatements
      (compile_create_table plain_platform public_schema notes (title ∷ []))
compile_create_table-IsClosed_example =
    compile_create_table-IsClosed plain_platform (λ n h. refl) public_schema notes (title ∷ [])

compile_add_column-IsClosed_example :
    Returned HasClosedStatements (compile_add_column plain_platform public_schema notes title)
compile_add_column-IsClosed_example =
    compile_add_column-IsClosed plain_platform (λ n h. refl) public_schema notes title

compile_set_column_default-IsClosed_example : Returned HasClosedStatements (
    compile_set_column_default plain_platform public_schema notes notes bigint
      (DdlColumnDefault.literal (JsonPrimitive.num (int (pos 7)))))
compile_set_column_default-IsClosed_example =
    compile_set_column_default-IsClosed plain_platform (λ n h. refl) public_schema notes notes
      bigint (DdlColumnDefault.literal (JsonPrimitive.num (int (pos 7))))

length-deterministic_object_name_example :
    length (deterministic_object_name plain_platform notes notes (notes ∷ public_schema ∷ [])) ≤ 63
length-deterministic_object_name_example =
    length-deterministic_object_name plain_platform notes notes (notes ∷ public_schema ∷ [])

pg-IsInternal : IsInternal plain_platform pg
unfolding lit
pg-IsInternal = inr (inr (inr (_, refl)))

internal-table_refused_example :
    (compile_create_table plain_platform pg notes (title ∷ []) ≡ err internal_refused)
    × (compile_rename_table plain_platform pg notes notes ≡ err internal_refused)
    × (compile_drop_table plain_platform pg notes ≡ err internal_refused)
    × (compile_add_column plain_platform pg notes title ≡ err internal_refused)
    × (compile_rename_column plain_platform pg notes notes notes ≡ err internal_refused)
    × (compile_drop_column plain_platform pg notes notes ≡ err internal_refused)
    × (compile_set_column_default plain_platform pg notes notes text DdlColumnDefault.none
        ≡ err internal_refused)
    × (compile_drop_column_default plain_platform pg notes notes ≡ err internal_refused)
    × (compile_set_not_null plain_platform pg notes notes ≡ err internal_refused)
    × (compile_drop_not_null plain_platform pg notes notes ≡ err internal_refused)
    × (compile_change_column_type plain_platform pg notes notes text bigint ≡ err internal_refused)
unfolding includes text_eq starts_with lit
internal-table_refused_example =
    internal-table_refused plain_platform pg pg-IsInternal notes notes notes (title ∷ []) title text
      bigint DdlColumnDefault.none

internal-access_refused_example :
    (compile_create_index plain_platform pg notes (notes ∷ []) none ≡ err internal_refused)
    × (compile_drop_index plain_platform pg notes ≡ err internal_refused)
    × (compile_add_unique_constraint plain_platform pg notes (notes ∷ []) none
        ≡ err internal_refused)
    × (compile_drop_constraint plain_platform pg notes notes ≡ err internal_refused)
    × (compile_add_foreign_key plain_platform pg notes
          (notes ∷ [])
          public_schema
          notes
          (notes ∷ [])
          cascade
          restrict
          none
        ≡ err internal_refused)
    × (compile_add_foreign_key plain_platform public_schema notes
          (notes ∷ [])
          pg
          notes
          (notes ∷ [])
          cascade
          restrict
          none
        ≡ err internal_refused)
    × (compile_grant_runtime_privileges plain_platform pg notes notes true true []
        ≡ err internal_refused)
    × (compile_revoke_runtime_privileges plain_platform pg notes notes ≡ err internal_refused)
    × (compile_enable_row_security plain_platform pg notes ≡ err internal_refused)
    × (compile_disable_row_security plain_platform pg notes ≡ err internal_refused)
    × (compile_create_ownership_policy plain_platform pg notes notes OwnershipPolicyTemplate.read
          notes
        ≡ err internal_refused)
    × (compile_drop_ownership_policy plain_platform pg notes notes OwnershipPolicyTemplate.read
        ≡ err internal_refused)
unfolding includes text_eq starts_with lit
internal-access_refused_example =
    internal-access_refused plain_platform pg pg-IsInternal notes notes notes public_schema notes
      (notes ∷ []) (notes ∷ []) none cascade restrict true true [] OwnershipPolicyTemplate.read

-- the key of the example is compiled, so that its plan has the guards
guarded_key_is_compiled :
    is_ok (
      compile_add_foreign_key plain_platform public_schema notes
        (notes ∷ [])
        public_schema
        notes
        (notes ∷ [])
        set_null
        restrict
        none)
    ≡ true
unfolding compile_add_foreign_key includes text_eq starts_with lit matches_head_rest join has_unit
    double is_simple_identifier deterministic_object_name
guarded_key_is_compiled = refl

attacked_table_is_compiled :
    is_ok (compile_create_table plain_platform public_schema notes (title ∷ [])) ≡ true
unfolding compile_create_table includes text_eq starts_with lit matches_head_rest has_unit double
    quote_literal is_simple_identifier
attacked_table_is_compiled = refl
