-- ===== src/Tables/Tests.antt =====
-- The registry of one table that is fit to be exposed.
use micro_jbase.Base.{
  ◌≡◌, refl, true, none, some, List, [], ◌∷◌, All, ok, Returned, lit, is_ok, includes, text_eq,
  matches_head_rest,
}
use micro_jbase.Fixtures.{plain_platform, notes, public_schema}
use micro_jbase.Ddl.Identifiers.{is_simple_identifier}
use micro_jbase.Tables.{Catalogue, ExposedTableMapping, build_table_registry}
use micro_jbase.Tables.Verified.{IsExposable, build_table_registry-IsExposable}

-- app.notes, with the columns id and notes
abbrev fit : Catalogue
fit = record {
  schema_usage = λ s. ok (some true);
  table_exists = λ s t. ok (some true);
  row_security = λ s t. ok (some (true, true));
  can_delete = λ target. ok (some true);
  applicable_policy = λ s t. ok (some true);
  primary_key = λ s t. ok ((lit "id", lit "uuid") ∷ []);
  columns = λ s t. ok (
      record {
        column_name = lit "id";
        data_type = lit "uuid";
        is_nullable = lit "NO";
        column_default = none;
        is_generated = lit "NEVER";
        is_identity = lit "NO";
      }
      ∷ record {
        column_name = notes;
        data_type = lit "text";
        is_nullable = lit "YES";
        column_default = none;
        is_generated = lit "NEVER";
        is_identity = lit "NO";
      }
      ∷ []);
  column_privileges = λ s t. ok (
      record { column_name = lit "id"; has_select = true; has_insert = true; has_update = true }
      ∷ record { column_name = notes; has_select = true; has_insert = true; has_update = true }
      ∷ []);
}

abbrev mappings : List ExposedTableMapping
mappings = record { alias = notes; schema = public_schema; table = notes } ∷ []

fit_table_is_exposed : is_ok (build_table_registry plain_platform fit mappings) ≡ true
unfolding build_table_registry lit text_eq includes is_simple_identifier matches_head_rest
fit_table_is_exposed = refl

build_table_registry-IsExposable_example :
    Returned
      (All (IsExposable plain_platform fit))
      (build_table_registry plain_platform fit mappings)
build_table_registry-IsExposable_example =
    build_table_registry-IsExposable plain_platform fit mappings
