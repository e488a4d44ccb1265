-- ===== src/Records/Tests.antt =====
-- A table with one readable column, and a database that answers every statement with one row of two columns.
use micro_jbase.Base.{
  ℕ, ◌≡◌, refl, false, none, some, Option, List, [], ◌∷◌, ◌++◌, ok, Text, lit, Number, Returned,
}
use micro_jbase.Fixtures.{plain_platform, notes, public_schema}
use micro_jbase.Transactions.{Database, Query}
use micro_jbase.Data.Values.{Value}
use micro_jbase.Data.Validate.{Row}
use micro_jbase.Data.Service.{RequestIdentity, ExposedTable}
use micro_jbase.Records.Values.{Raw, JsonValue, JsonItems, RawItems, as_json}
use micro_jbase.Records.Methods.{
  Statement, Answer, list, find_by_id, create_row, update_by_id, insert_statement, update_statement,
  row_values,
}
use micro_jbase.Records.Shown.{IsReadable, IsReadableOption, IsReadablePage, methods-AreReadable}
use micro_jbase.Records.Safety.{IsSafe, writes-AreSafe}

abbrev table : ExposedTable
table = record {
  alias = notes;
  schema = public_schema;
  table = notes;
  primary_key = lit "id";
  readable_columns = notes ∷ [];
  insertable_columns = notes ∷ [];
  updatable_columns = notes ∷ [];
}

abbrev values : Row
values = (notes, Value.str notes) ∷ []

abbrev identity : RequestIdentity
identity = record { user_id = notes }

abbrev types_of : ExposedTable → Option (List (Text × Text))
types_of t = some ((notes, lit "jsonb") ∷ [])

abbrev execute : Statement → Query ℕ Answer
execute statement n = ok (
  record {
    rows = ((notes, Raw.null) ∷ (public_schema, Raw.str notes) ∷ []) ∷ [];
    row_count = some 1;
  },
  n,
)

abbrev database : Database ℕ
database = record {
  committed = 7;
  working = 0;
  identity = none;
  idle = none ∷ [];
  closed = false;
  fates = [];
}

json_array :
    as_json (Raw.array (RawItems.cons (Raw.str notes) RawItems.nil))
    ≡ ok (JsonValue.array (JsonItems.cons (JsonValue.str notes) JsonItems.nil))
unfolding as_json
json_array = refl

methods-AreReadable_example :
    ((limit offset : Number)
      → Returned
          (IsReadablePage plain_platform (λ r. notes) types_of execute table)
          (list plain_platform
            (λ r. notes)
            types_of
            execute
            identity
            table
            limit
            offset
            database).0)
    × ((id : Text)
        → Returned
            (IsReadableOption (notes ∷ []))
            (find_by_id plain_platform (λ r. notes) types_of execute identity table id database).0)
    × ((new : Row)
        → Returned
            (IsReadable (notes ∷ []))
            (create_row plain_platform (λ r. notes) types_of execute identity table new database).0)
    × ((id : Text) (new : Row)
        → Returned
            (IsReadableOption (notes ∷ []))
            (update_by_id plain_platform
              (λ r. notes)
              types_of
              execute
              identity
              table
              id
              new
              database).0)
methods-AreReadable_example =
    methods-AreReadable plain_platform (λ r. notes) types_of execute identity table database

writes-AreSafe_example :
    Returned
      (IsSafe plain_platform (λ n h. refl) (notes ∷ []) values (row_values values))
      (insert_statement plain_platform table values)
    × ((id : Text)
        → Returned
            (IsSafe plain_platform
              (λ n h. refl)
              (notes ∷ [])
              values
              (row_values values ++ (Value.str id ∷ [])))
            (update_statement plain_platform table id values))
writes-AreSafe_example = writes-AreSafe plain_platform (λ n h. refl) table values
