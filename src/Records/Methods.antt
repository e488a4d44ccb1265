-- ===== src/Records/Methods.antt =====
-- src/database/data-repository.ts and src/database/identifier.ts: the statements over an exposed table, each in
-- a transaction of its caller. What the database answers to a statement is a parameter.
use micro_jbase.Base.{
  ℕ, suc, ◌+◌, Bool, false, not, Option, none, some, List, [], ◌∷◌, ◌++◌, map, keep, length, null,
  ltb, if◌then◌else◌, Result, ok, err, guard, ◌>>=◌, Text, lit, includes, concat, join, double,
  Number, int, pos,
}
use micro_jbase.Errors.{app_error, app_error_with, validation_error, internal_error, Detail, Thrown}
use micro_jbase.Platform.{Platform}
use micro_jbase.Faults.{translate_data_error}
use micro_jbase.Transactions.{Query, Block, followed, caught, run_query, with_transaction}
use micro_jbase.Ddl.Identifiers.{is_simple_identifier}
use micro_jbase.Data.Values.{Value, num, str}
use micro_jbase.Data.Validate.{Row}
use micro_jbase.Data.Service.{RequestIdentity, ExposedTable}
use micro_jbase.Auth.Tokens.{plain_error}
use micro_jbase.Records.Values.{Raw, JsonValue, row_to_json}

-- the text of a statement, and its parameters
pub record Statement : Type 0 where
  pub text : Text
  pub values : List Value

pub record Answer : Type 0 where
  pub rows : List (List (Text × Raw))
  pub row_count : Option ℕ

abbrev pub JsonRow : Type 0
JsonRow = List (Text × JsonValue)

pub record JsonPage : Type 0 where
  pub items : List JsonRow
  pub limit : Number
  pub offset : Number

-- quoteIdentifier
unfoldable pub quote_simple_identifier : Text → Result Thrown Text
quote_simple_identifier name =
    if is_simple_identifier name
    then ok (b'"' ∷ (double b'"' name ++ b'"' ∷ []))
    else err (plain_error (concat (lit "Invalid SQL identifier: " ∷ name ∷ [])))

unfoldable pub quote_qualified_name : Text → Text → Result Thrown Text
quote_qualified_name schema table = do
  s ← quote_simple_identifier schema
  t ← quote_simple_identifier table
  ok (concat (s ∷ lit "." ∷ t ∷ []))

unfoldable pub quote_names : List Text → Result Thrown (List Text)
quote_names [] = ok []
quote_names (name ∷ names) = do
  q ← quote_simple_identifier name
  qs ← quote_names names
  ok (q ∷ qs)

-- the columns that a statement returns
unfoldable pub column_list : List Text → Result Thrown Text
column_list columns =
    if null columns
    then ok (lit "NULL")
    else (quote_names columns >>= λ quoted. ok (join (lit ", ") quoted))

-- Object.keys
abbrev pub keys_of : Row → List Text
keys_of [] = []
keys_of ((k, v) ∷ row) = k ∷ keys_of row

abbrev pub row_values : Row → List Value
row_values [] = []
row_values ((k, v) ∷ row) = v ∷ row_values row

abbrev not_allowed : Text → Text × Detail
not_allowed k = (k, Detail.text (lit "Column is not allowed"))

unfoldable pub assert_columns_allowed : Row → List Text → Result Thrown Unit
assert_columns_allowed values allowed =
    let invalid = keep (λ k. not (includes allowed k)) (keys_of values) in
    guard (null invalid) (
      Thrown.app (
        app_error_with validation_error (lit "Request validation failed") 400
          (map not_allowed invalid)))

abbrev no_values : Text → Thrown
no_values message = Thrown.app (app_error validation_error message 400)

-- Object.entries(undefined)
abbrev no_row : Thrown
no_row = plain_error (lit "Cannot convert undefined or null to object")

abbrev quoted_id : Text
quoted_id = lit "\"id\""

module _ (platform : Platform) where
  -- `$n`
  abbrev pub placeholder : ℕ → Text
  placeholder n = b'$' ∷ platform.print_number (int (pos n))

  unfoldable pub placeholders : ℕ → List Text → List Text
  placeholders n [] = []
  placeholders n (k ∷ ks) = placeholder n ∷ placeholders (suc n) ks

  unfoldable pub assignments : ℕ → List Text → Result Thrown (List Text)
  assignments n [] = ok []
  assignments n (k ∷ ks) = do
    q ← quote_simple_identifier k
    rest ← assignments (suc n) ks
    ok (concat (q ∷ lit " = " ∷ placeholder n ∷ []) ∷ rest)

  unfoldable pub list_statement : ExposedTable → Number → Number → Result Thrown Statement
  list_statement table limit offset = do
    quoted_table ← quote_qualified_name table.schema table.table
    columns ← column_list table.readable_columns
    ok (record {
      text = concat (
          lit "\n          SELECT "
          ∷ columns
          ∷ lit "\n          FROM "
          ∷ quoted_table
          ∷ lit "\n          ORDER BY "
          ∷ quoted_id
          ∷ lit " ASC\n          LIMIT $1 OFFSET $2\n        "
          ∷ []);
      values = num limit ∷ num offset ∷ [];
    })

  unfoldable pub find_statement : ExposedTable → Text → Result Thrown Statement
  find_statement table id = do
    quoted_table ← quote_qualified_name table.schema table.table
    columns ← column_list table.readable_columns
    ok (record {
      text = concat (
          lit "\n          SELECT "
          ∷ columns
          ∷ lit "\n          FROM "
          ∷ quoted_table
          ∷ lit "\n          WHERE "
          ∷ quoted_id
          ∷ lit " = $1\n        "
          ∷ []);
      values = str id ∷ [];
    })

  unfoldable pub insert_statement : ExposedTable → Row → Result Thrown Statement
  insert_statement table values = do
    allowed ← assert_columns_allowed values table.insertable_columns
    some_values ← guard (not (null values)) (no_values (lit "No insertable values provided"))
    quoted_table ← quote_qualified_name table.schema table.table
    columns ← quote_names (keys_of values)
    returning ← column_list table.readable_columns
    ok (record {
      text = concat (
          lit "\n          INSERT INTO "
          ∷ quoted_table
          ∷ lit " ("
          ∷ join (lit ", ") columns
          ∷ lit ")\n          VALUES ("
          ∷ join (lit ", ") (placeholders 1 (keys_of values))
          ∷ lit ")\n          RETURNING "
          ∷ returning
          ∷ lit "\n        "
          ∷ []);
      values = row_values values;
    })

  unfoldable pub update_statement : ExposedTable → Text → Row → Result Thrown Statement
  update_statement table id values = do
    allowed ← assert_columns_allowed values table.updatable_columns
    some_values ← guard (not (null values)) (no_values (lit "No updatable values provided"))
    quoted_table ← quote_qualified_name table.schema table.table
    assigned ← assignments 1 (keys_of values)
    returning ← column_list table.readable_columns
    ok (record {
      text = concat (
          lit "\n          UPDATE "
          ∷ quoted_table
          ∷ lit "\n          SET "
          ∷ join (lit ", ") assigned
          ∷ lit "\n          WHERE "
          ∷ quoted_id
          ∷ lit " = "
          ∷ placeholder (length values + 1)
          ∷ lit "\n          RETURNING "
          ∷ returning
          ∷ lit "\n        "
          ∷ []);
      values = row_values values ++ (str id ∷ []);
    })

  unfoldable pub delete_statement : ExposedTable → Text → Result Thrown Statement
  delete_statement table id = do
    quoted_table ← quote_qualified_name table.schema table.table
    ok (record {
      text = concat (
          lit "\n          DELETE FROM "
          ∷ quoted_table
          ∷ lit "\n          WHERE "
          ∷ quoted_id
          ∷ lit " = $1\n        "
          ∷ []);
      values = str id ∷ [];
    })

  -- `print` is String(value), `types_of` is getPrivateMetadata, and `execute` is the database
  module _ {D : Type 0} (print : Raw → Text) (types_of : ExposedTable → Option (List (Text × Text)))
      (execute : Statement → Query D Answer) where
    abbrev verified : Option (List (Text × Text)) → Result Thrown (List (Text × Text))
    verified none =
        err (Thrown.app (app_error internal_error (lit "No verified metadata for table") 500))
    verified (some types) = ok types

    unfoldable pub require_verified_metadata : ExposedTable → Result Thrown (List (Text × Text))
    require_verified_metadata table = verified (types_of table)

    unfoldable pub shown_rows :
        ExposedTable → List (Text × Text) → List (List (Text × Raw)) → Result Thrown (List JsonRow)
    shown_rows table types [] = ok []
    shown_rows table types (row ∷ rows) = do
      shown ← row_to_json platform print table.readable_columns types row
      rest ← shown_rows table types rows
      ok (shown ∷ rest)

    abbrev pub first_or_null :
        ExposedTable
        → List (Text × Text)
        → List (List (Text × Raw))
        → Result Thrown (Option JsonRow)
    first_or_null table types [] = ok none
    first_or_null table types (row ∷ rows) =
        row_to_json platform print table.readable_columns types row >>= λ shown. ok (some shown)

    abbrev pub first_row :
        ExposedTable → List (Text × Text) → List (List (Text × Raw)) → Result Thrown JsonRow
    first_row table types [] = err no_row
    first_row table types (row ∷ rows) = row_to_json platform print table.readable_columns types row

    abbrev some_deleted : Option ℕ → Bool
    some_deleted none = false
    some_deleted (some n) = ltb 0 n

    -- the private withTransaction
    unfoldable pub in_transaction : {A : Type 0} → RequestIdentity → Block D A → Block D A
    in_transaction identity block =
        with_transaction platform
          (λ s. caught (block s) (λ e t. (err (Thrown.app (translate_data_error platform e)), t)))
          (some identity.user_id)

    -- a statement in a transaction, and what is read off its answer
    unfoldable pub run_statement :
        {A : Type 0}
        → RequestIdentity
        → (Answer → Result Thrown A)
        → Result Thrown Statement
        → Block D A
    run_statement identity read (err e) s = (err e, s)
    run_statement identity read (ok statement) s =
        in_transaction identity
          (λ t. followed (run_query (execute statement) t) (λ answer u. (read answer, u))) s

    -- the metadata first, then the statement
    abbrev pub with_metadata :
        {A : Type 0}
        → Result Thrown (List (Text × Text))
        → (List (Text × Text) → Block D A)
        → Block D A
    with_metadata (err e) next s = (err e, s)
    with_metadata (ok types) next s = next types s

    unfoldable pub list : RequestIdentity → ExposedTable → Number → Number → Block D JsonPage
    list identity table limit offset = with_metadata (require_verified_metadata table) λ types.
        run_statement identity
          (λ answer. shown_rows table types answer.rows >>= λ items.
            ok (record { items = items; limit = limit; offset = offset }))
          (list_statement table limit offset)

    unfoldable pub find_by_id : RequestIdentity → ExposedTable → Text → Block D (Option JsonRow)
    find_by_id identity table id = with_metadata (require_verified_metadata table) λ types.
        run_statement identity (λ answer. first_or_null table types answer.rows)
          (find_statement table id)

    unfoldable pub create_row : RequestIdentity → ExposedTable → Row → Block D JsonRow
    create_row identity table values = with_metadata (require_verified_metadata table) λ types.
        run_statement identity (λ answer. first_row table types answer.rows)
          (insert_statement table values)

    unfoldable pub update_by_id :
        RequestIdentity → ExposedTable → Text → Row → Block D (Option JsonRow)
    update_by_id identity table id values = with_metadata (require_verified_metadata table) λ types.
        run_statement identity (λ answer. first_or_null table types answer.rows)
          (update_statement table id values)

    unfoldable pub delete_by_id : RequestIdentity → ExposedTable → Text → Block D Bool
    delete_by_id identity table id = with_metadata (require_verified_metadata table) λ types.
        run_statement identity (λ answer. ok (some_deleted answer.row_count))
          (delete_statement table id)
