-- ===== src/Exposure/Tests.antt =====
-- The registry at work: the import of one mapping into empty tables.
use micro_jbase.Base.{
  ◌≡◌, ◌↔◌, refl, true, false, some, none, List, [], ◌∷◌, All, ok, matches_head_rest, includes,
  text_eq, lit, starts_with,
}
use micro_jbase.Fixtures.{plain_platform, notes, public_schema}
use micro_jbase.Ddl.Identifiers.{is_simple_identifier}
use micro_jbase.Tables.{ExposedTableMapping}
use micro_jbase.Exposure.{
  World, ExposureRegistryState, is_alias, validate_mapping, build_payload, build_import_payload,
  query_translated, deliver, read_exposed, read_exposure_registry_state, map_entry_rows,
  map_entry_row, require_non_empty_string, exposed_entries, exposed_sets_equal, has_all, distinct,
}
use micro_jbase.Exposure.Agreed.{IsImportedName, import_function-build_import_payload}
use micro_jbase.Exposure.Sets.{IsPlain, IsPlainMapping, AreSame, exposed_sets_equal_iff}
use micro_jbase.Exposure.Import.{
  imported, import_function, is_importable, is_sql_name, conclude_import, import_payload,
  import_unless, import_initial_exposure,
}
use micro_jbase.Exposure.Adopted.{IsJustified, import_initial_exposure-IsJustified}

abbrev mapping : ExposedTableMapping
mapping = record { alias = notes; schema = public_schema; table = notes }

abbrev mappings : List ExposedTableMapping
mappings = mapping ∷ []

abbrev same_order : List ExposedTableMapping → List ExposedTableMapping
same_order ms = ms

abbrev empty : World
empty = record {
  tables = record {
    state = some (record { initialized = false; imported_at = none });
    rows = [];
    clock = 5;
  };
  schedule = [];
}

abbrev filled : ExposureRegistryState
filled = record { initialized = true; imported_at = some 5; exposed = mappings }

notes-IsPlain : IsPlain notes
notes-IsPlain = (refl, (refl, (refl, (refl, (refl, tt)))))

mappings-IsPlainMapping : All IsPlainMapping mappings
mappings-IsPlainMapping = ((notes-IsPlain, (refl, (refl, (refl, tt))), notes-IsPlain), tt)

empty_import : (import_initial_exposure plain_platform same_order mappings empty).0 ≡ ok filled
unfolding import_initial_exposure import_unless import_payload conclude_import import_function
    is_importable is_sql_name is_alias is_simple_identifier validate_mapping build_payload
    build_import_payload query_translated deliver read_exposed read_exposure_registry_state
    map_entry_rows map_entry_row require_non_empty_string exposed_entries exposed_sets_equal has_all
    distinct matches_head_rest includes text_eq lit starts_with
empty_import = refl

import_initial_exposure-IsJustified_example :
    (build_import_payload plain_platform mappings ≡ ok mappings)
    × IsJustified plain_platform same_order filled
        (AreSame mappings)
        mappings
        (read_exposure_registry_state plain_platform same_order empty)
import_initial_exposure-IsJustified_example =
    import_initial_exposure-IsJustified plain_platform same_order filled mappings empty
      mappings-IsPlainMapping empty_import

exposed_sets_equal_iff_example :
    (exposed_sets_equal mappings mappings ≡ true) ↔ AreSame mappings mappings
exposed_sets_equal_iff_example =
    exposed_sets_equal_iff mappings mappings-IsPlainMapping mappings mappings-IsPlainMapping

mapping_is_imported :
    import_function mappings empty.tables ≡ ok (tt, imported mappings empty.tables)
unfolding import_function is_importable is_sql_name is_alias distinct matches_head_rest includes
    text_eq lit starts_with
mapping_is_imported = refl

import_function-build_import_payload_example :
    (import_function mappings empty.tables ≡ ok (tt, imported mappings empty.tables))
    ↔ ((build_import_payload plain_platform mappings ≡ ok mappings) × All IsImportedName mappings)
import_function-build_import_payload_example =
    import_function-build_import_payload plain_platform (λ t h. refl) mappings empty.tables refl
      refl
