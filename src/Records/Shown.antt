-- ===== src/Records/Shown.antt =====
-- What a client sees of a table: rowToJson and the methods of src/database/data-repository.ts that answer rows.
use micro_jbase.Base.{
  arith, ◌≡◌, true, not, Option, none, some, List, [], ◌∷◌, All, Result, ok, err, Text, includes,
  Number, Returned, Returned-bind, Returned-after, Returned-if,
}
use micro_jbase.Errors.{Thrown}
use micro_jbase.Platform.{Platform}
use micro_jbase.Faults.{translate_data_error}
use micro_jbase.Transactions.{
  Database, Query, Block, followed, caught, run_query, begin_transaction, set_identity, commit,
  connect, rollback, rolled_back, settled, transaction, with_transaction,
}
use micro_jbase.Data.Validate.{Row}
use micro_jbase.Data.Service.{RequestIdentity, ExposedTable}
use micro_jbase.Records.Values.{Raw, JsonValue, cell_to_json, row_to_json}
use micro_jbase.Records.Methods.{
  Statement, Answer, JsonRow, JsonPage, shown_rows, first_or_null, first_row, in_transaction,
  run_statement, with_metadata, require_verified_metadata, list, find_by_id, create_row,
  update_by_id, list_statement, find_statement, insert_statement, update_statement,
}

-- Each column of the row is among those given.
abbrev pub IsReadable : List Text → JsonRow → Type 0
IsReadable readable row = All (λ (cell : Text × JsonValue). includes readable cell.0 ≡ true) row

abbrev pub IsReadableOption : List Text → Option JsonRow → Type 0
IsReadableOption readable none = Unit
IsReadableOption readable (some row) = IsReadable readable row

-- a transaction returns what its block returns
module _ {D A : Type 0} (P : A → Type 0) where
  followed-Returned :
      {B : Type 0} (run : Result Thrown B × Database D) (next : B → Block D A)
      → ((b : B) (s : Database D) → Returned P (next b s).0)
      → Returned P (followed run next).0
  followed-Returned (ok b, s) next h = h b s
  followed-Returned (err e, s) next h = tt

  module _ (platform : Platform) where
    rolled_back-Returned :
        (e : Thrown) (run : Result Thrown Unit × Database D)
        → Returned P (rolled_back platform {A = A} e run).0
    unfolding rolled_back
    rolled_back-Returned e (ok done, s) = tt
    rolled_back-Returned e (err failed, s) = tt

    settled-Returned :
        (run : Result Thrown A × Database D)
        → Returned P run.0
        → Returned P (settled platform run).0
    unfolding settled
    settled-Returned (ok a, s) h = h
    settled-Returned (err e, s) h = rolled_back-Returned e (rollback s)

    module _ (block : Block D A) (shows : (s : Database D) → Returned P (block s).0)
        (user : Option Text) where
      transaction-Returned : (s : Database D) → Returned P (transaction platform block user s).0
      unfolding transaction
      transaction-Returned s = followed-Returned (begin_transaction s) _ λ begun s2.
          followed-Returned (set_identity user s2) _ λ known s3. committed (block s3) (shows s3)
        where
          committed :
              (run : Result Thrown A × Database D)
              → Returned P run.0
              → Returned P (followed run (λ a s4. followed (commit s4) (λ done s5. (ok a, s5)))).0
          committed (ok a, s4) h = followed-Returned (commit s4) _ (λ done s5. h)
          committed (err e, s4) h = tt

      with_transaction-Returned :
          (s : Database D) → Returned P (with_transaction platform block user s).0
      unfolding with_transaction
      with_transaction-Returned s =
          followed-Returned (connect platform s) _ λ got s2.
            settled-Returned (transaction platform block user s2) (transaction-Returned s2)

module _ (platform : Platform) (print : Raw → Text) where
  row_to_json-IsReadable :
      (readable : List Text) (types : List (Text × Text)) (row : List (Text × Raw))
      → Returned (IsReadable readable) (row_to_json platform print readable types row)
  unfolding row_to_json
  row_to_json-IsReadable readable types [] = tt
  row_to_json-IsReadable readable types ((key, value) ∷ row) =
      let later = row_to_json-IsReadable readable types row in
      Returned-if (IsReadable readable) (not (includes readable key))
        (row_to_json platform print readable types row) _ (λ hidden. later)
        λ shown.
          Returned-after (IsReadable readable) (cell_to_json platform print types key value) _ λ j.
            Returned-bind (IsReadable readable) (IsReadable readable)
              (row_to_json platform print readable types row) _ later
              λ js rest. (ground arith, rest)

  module _ {D : Type 0} (types_of : ExposedTable → Option (List (Text × Text)))
      (execute : Statement → Query D Answer) where
    module _ {A : Type 0} (P : A → Type 0) (identity : RequestIdentity) where
      run_statement-Returned :
          (read : Answer → Result Thrown A) (statement : Result Thrown Statement) (s : Database D)
          → ((answer : Answer) → Returned P (read answer))
          → Returned P (run_statement platform print types_of execute identity read statement s).0
      unfolding run_statement in_transaction
      run_statement-Returned read (err e) s h = tt
      run_statement-Returned read (ok statement) s h =
          with_transaction-Returned P platform _ (λ t. kept (run_query (execute statement) t))
            (some identity.user_id) s
        where
          kept :
              (run : Result Thrown Answer × Database D)
              → Returned P
                  (caught
                    (followed run (λ answer u. (read answer, u)))
                    (λ e t. (err (Thrown.app (translate_data_error platform e)), t))).0
          kept (ok answer, u) = of_answer (read answer) (h answer)
            where
              of_answer :
                  (r : Result Thrown A)
                  → Returned P r
                  → Returned P
                      (caught
                        (r, u)
                        (λ e t. (err (Thrown.app (translate_data_error platform e)), t))).0
              of_answer (ok a) k = k
              of_answer (err e) k = tt
          kept (err e, u) = tt

      with_metadata-Returned :
          (known : Result Thrown (List (Text × Text))) (next : List (Text × Text) → Block D A)
          (s : Database D)
          → ((types : List (Text × Text)) → Returned P (next types s).0)
          → Returned P (with_metadata platform print types_of execute known next s).0
      with_metadata-Returned (ok types) next s h = h types
      with_metadata-Returned (err e) next s h = tt

    shown_rows-AreReadable :
        (table : ExposedTable) (types : List (Text × Text)) (rows : List (List (Text × Raw)))
        → Returned
            (All (IsReadable table.readable_columns))
            (shown_rows platform print types_of execute table types rows)
    unfolding shown_rows
    shown_rows-AreReadable table types [] = tt
    shown_rows-AreReadable table types (row ∷ rows) =
        let P : List JsonRow → Type 0 = All (IsReadable table.readable_columns) in
        Returned-bind (IsReadable table.readable_columns) P
          (row_to_json platform print table.readable_columns types row) _
          (row_to_json-IsReadable table.readable_columns types row)
          λ first good.
            Returned-bind P P (shown_rows platform print types_of execute table types rows) _
              (shown_rows-AreReadable table types rows) λ rest later. (good, later)

    first_or_null-IsReadable :
        (table : ExposedTable) (types : List (Text × Text)) (rows : List (List (Text × Raw)))
        → Returned
            (IsReadableOption table.readable_columns)
            (first_or_null platform print types_of execute table types rows)
    first_or_null-IsReadable table types [] = tt
    first_or_null-IsReadable table types (row ∷ rows) =
        Returned-bind (IsReadable table.readable_columns) (IsReadableOption table.readable_columns)
          (row_to_json platform print table.readable_columns types row) _
          (row_to_json-IsReadable table.readable_columns types row) λ shown good. good

    first_row-IsReadable :
        (table : ExposedTable) (types : List (Text × Text)) (rows : List (List (Text × Raw)))
        → Returned
            (IsReadable table.readable_columns)
            (first_row platform print types_of execute table types rows)
    first_row-IsReadable table types [] = tt
    first_row-IsReadable table types (row ∷ rows) =
        row_to_json-IsReadable table.readable_columns types row

    abbrev pub IsReadablePage : ExposedTable → JsonPage → Type 0
    IsReadablePage table page = All (IsReadable table.readable_columns) page.items

    -- Whatever the database answers and whichever queries fail, each row that list, find_by_id, create_row and
    -- update_by_id return has readable columns of its table only.
    pub methods-AreReadable :
        (identity : RequestIdentity) (table : ExposedTable) (s : Database D)
        → ((limit offset : Number)
            → Returned
                (IsReadablePage table)
                (list platform print types_of execute identity table limit offset s).0)
          × ((id : Text)
              → Returned
                  (IsReadableOption table.readable_columns)
                  (find_by_id platform print types_of execute identity table id s).0)
          × ((values : Row)
              → Returned
                  (IsReadable table.readable_columns)
                  (create_row platform print types_of execute identity table values s).0)
          × ((id : Text) (values : Row)
              → Returned
                  (IsReadableOption table.readable_columns)
                  (update_by_id platform print types_of execute identity table id values s).0)
    unfolding list find_by_id create_row update_by_id
    methods-AreReadable identity table s =
        let known = require_verified_metadata platform print types_of execute table in
        let ReadableOption = IsReadableOption table.readable_columns in
        let Readable = IsReadable table.readable_columns in
        (
          λ limit offset. with_metadata-Returned (IsReadablePage table) identity known _ s λ types.
              run_statement-Returned (IsReadablePage table) identity _
                (list_statement platform table limit offset) s
                λ answer.
                  Returned-bind (All Readable) (IsReadablePage table)
                    (shown_rows platform print types_of execute table types answer.rows) _
                    (shown_rows-AreReadable table types answer.rows) λ items good. good,
          λ id. with_metadata-Returned ReadableOption identity known _ s λ types.
              run_statement-Returned ReadableOption identity _ (find_statement platform table id) s
                λ answer. first_or_null-IsReadable table types answer.rows,
          λ values. with_metadata-Returned Readable identity known _ s λ types.
              run_statement-Returned Readable identity _ (insert_statement platform table values) s
                λ answer. first_row-IsReadable table types answer.rows,
          λ id values. with_metadata-Returned ReadableOption identity known _ s λ types.
              run_statement-Returned ReadableOption identity _
                (update_statement platform table id values) s
                λ answer. first_or_null-IsReadable table types answer.rows,
        )
