-- ===== src/Data/Tests.antt =====
-- The theorems on request bodies and on the data service at concrete inputs.
use micro_jbase.Base.{
  refl, Number, text_eq, includes, lit, ℕ, ◌+◌, ◌≡◌, ◌≢◌, ◌≤◌, ◌⊎◌, ◌↔◌, arith, true, Option, none,
  some, [], ◌∷◌, int, pos, ok, err, Text,
}
use micro_jbase.Errors.{AppError, domain}
use micro_jbase.Fixtures.{notes, public_schema}
use micro_jbase.Data.Validate.{require_json_data_row, assert_keys_allowed}
use micro_jbase.Data.Service.{own_value, assert_no_foreign_ownership_claim}
use micro_jbase.Data.Values.{
  is_plain_object, Value, Heap, plain, array, scan, pending, is_json_value,
}
use micro_jbase.Data.Values.Spec.{IsJson, uses}
use micro_jbase.Data.Values.Exact.{is_json_value_exact}
use micro_jbase.Data.Values.Fuel.{scan_total}
use micro_jbase.Data.Validate.{Row}
use micro_jbase.Data.Service.{
  RequestIdentity, ExposedTable, DataRepository, row_or_missing, list, create, update,
}
use micro_jbase.Data.Service.Paging.{IsPage, list_bounded}
use micro_jbase.Data.Service.Guards.{Creates, Updates, IsRefusal, create_guarded, update_guarded}

-- { notes: [null, 7] }
abbrev nested : Heap
nested =
    plain ((notes, Value.ref 1) ∷ [])
    ∷ array (some Value.null ∷ some (Value.num (int (pos 7))) ∷ [])
    ∷ []

is_json_value_exact_example :
    (is_json_value nested (Value.ref 0) ≡ true)
    ↔ ((j : IsJson nested (Value.ref 0)) × ((x : ℕ) → uses x j ≤ 1))
is_json_value_exact_example = is_json_value_exact nested (Value.ref 0)

scan_total_example : scan 5 nested [] (Value.ref 0 ∷ []) ≢ none
unfolding pending
scan_total_example = scan_total 5 nested [] (Value.ref 0 ∷ []) (omega arith)

abbrev table : ExposedTable
table = record {
  alias = notes;
  schema = public_schema;
  table = notes;
  primary_key = notes;
  readable_columns = notes ∷ [];
  insertable_columns = notes ∷ [];
  updatable_columns = notes ∷ [];
}

abbrev registry : Text → Option ExposedTable
registry alias = some table

-- a repository that counts its calls
abbrev counting : DataRepository ℕ
counting = record {
  list =
      λ who t limit offset s. (ok (record { items = []; limit = limit; offset = offset }), s + 1);
  find_by_id = λ who t id s. (ok none, s + 1);
  create = λ who t row s. (ok row, s + 1);
  update_by_id = λ who t id row s. (ok (some row), s + 1);
  delete_by_id = λ who t id s. (ok true, s + 1);
}

abbrev caller : RequestIdentity
caller = record { user_id = notes }

create_guarded_example :
    ((x : ExposedTable × Row) × Creates registry nested caller notes (Value.ref 0) x
      × (create registry counting nested caller notes (Value.ref 0) 0
          ≡ counting.create caller x.0 x.1 0))
    ⊎ ((e : AppError) × IsRefusal e
        × (create registry counting nested caller notes (Value.ref 0) 0 ≡ (err (domain e), 0)))
create_guarded_example = create_guarded registry counting nested caller notes (Value.ref 0) 0

update_guarded_example :
    ((x : ExposedTable × Text × Row) × Updates registry nested caller notes notes (Value.ref 0) x
      × (update registry counting nested caller notes notes (Value.ref 0) 0 ≡ (
        row_or_missing (counting.update_by_id caller x.0 x.1 x.2 0).0,
        (counting.update_by_id caller x.0 x.1 x.2 0).1,
      )))
    ⊎ ((e : AppError) × IsRefusal e
        × (update registry counting nested caller notes notes (Value.ref 0) 0
            ≡ (err (domain e), 0)))
update_guarded_example = update_guarded registry counting nested caller notes notes (Value.ref 0) 0

list_bounded_example :
    ((x : ExposedTable × Number × Number) × IsPage registry notes x
      × (list registry counting caller notes (Value.num (int (pos 100))) Value.undefined 0
          ≡ counting.list caller x.0 x.1 x.2 0))
    ⊎ ((e : AppError) × (list registry counting caller notes
            (Value.num (int (pos 100)))
            Value.undefined
            0
          ≡ (err (domain e), 0)))
list_bounded_example =
    list_bounded registry counting caller notes (Value.num (int (pos 100))) Value.undefined 0

-- a row that `create` takes
create_calls_the_repository : (create registry counting nested caller notes (Value.ref 0) 0).1 ≡ 1
unfolding create text_eq includes lit is_json_value require_json_data_row is_plain_object
    assert_keys_allowed own_value assert_no_foreign_ownership_claim
create_calls_the_repository = refl
