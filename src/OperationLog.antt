-- ===== src/OperationLog.antt =====
-- src/database/schema-operation-log.ts: the durable log of schema operations, by idempotency key.
-- The table of the database is explicit state; before each query other sessions may change it, or
-- the query throws, as the schedule says.
use micro_jbase.Base.{
  ℕ, zero, suc, ◌+◌, Bool, true, false, not, ◌&&◌, ◌||◌, Option, none, some, List, [], ◌∷◌, ◌++◌,
  if◌then◌else◌, ◌==◌, leb, length, null, Result, ok, err, Text, lit, text_eq, concat, int, pos,
  is_lower, is_upper, is_letter, is_digit, matches_head_rest,
}
use micro_jbase.Errors.{
  AppError, app_error, app_error_with, validation_error, internal_error, conflict, Detail, Thrown,
}
use micro_jbase.Platform.{Platform}
use micro_jbase.Faults.{translate_pool_error}
use micro_jbase.OperationLog.Checksum.{
  Json, is_object, compute_operation_checksum, compute_actor_fingerprint,
}
pub mod Checksum
pub mod Statuses
pub mod Kept
pub mod Idempotent
pub mod Recorded
mod Tests

pub data Status : Type 0 where
  running succeeded failed : Status

-- A row of microjbase.schema_operations, less its two timestamps.
pub record OperationRecord : Type 0 where
  pub id : ℕ
  pub idempotency_key : Text
  pub command_type : Text
  pub command : Json
  pub checksum : Text
  pub status : Status
  pub actor_fingerprint : Text
  pub error_code : Option Text
  pub result : Option Json

-- the rows, and the next value of the sequence of ids
pub record OperationTable : Type 0 where
  pub rows : List OperationRecord
  pub next_id : ℕ

-- What happens before a query reaches the table.
pub data Event : Type 0 where
  others : (OperationTable → OperationTable) → Event
  fault : Thrown → Event

-- once the schedule is empty nothing interferes
pub record World : Type 0 where
  pub table : OperationTable
  pub schedule : List Event

abbrev pub is_running : Status → Bool
is_running running = true
is_running _ = false

abbrev pub is_failed : Status → Bool
is_failed failed = true
is_failed _ = false

abbrev pub is_succeeded : Status → Bool
is_succeeded succeeded = true
is_succeeded _ = false

-- the first row for which the test holds
unfoldable pub find_row : (OperationRecord → Bool) → List OperationRecord → Option OperationRecord
find_row test [] = none
find_row test (row ∷ rows) = let rest = find_row test rows in if test row then some row else rest

-- UPDATE ... SET change WHERE test
unfoldable pub update_rows :
    (OperationRecord → Bool)
    → (OperationRecord → OperationRecord)
    → List OperationRecord
    → List OperationRecord
update_rows test change [] = []
update_rows test change (row ∷ rows) =
    (if test row then change row else row) ∷ update_rows test change rows

-- A statement gives its answer and the new table.
abbrev pub Statement : Type 0 → Type 0
Statement A = OperationTable → A × OperationTable

abbrev pub has_key : Text → OperationRecord → Bool
has_key key row = text_eq row.idempotency_key key

abbrev pub has_id_and : (Status → Bool) → ℕ → OperationRecord → Bool
has_id_and test id row = row.id == id && test row.status

abbrev pub restarted : OperationRecord → OperationRecord
restarted row = record row { status = running; error_code = none }

abbrev pub finished : Json → OperationRecord → OperationRecord
finished result row = record row { status = succeeded; result = some result }

abbrev pub broken : Text → OperationRecord → OperationRecord
broken code row = record row { status = failed; error_code = some code }

abbrev pub new_row : ℕ → Text → Text → Json → Text → Text → OperationRecord
new_row id key command_type command checksum fingerprint = record {
  id = id;
  idempotency_key = key;
  command_type = command_type;
  command = command;
  checksum = checksum;
  status = running;
  actor_fingerprint = fingerprint;
  error_code = none;
  result = none;
}

-- the new row takes the next id, and a conflict takes an id from the sequence too
abbrev pub insert_unless :
    OperationRecord
    → OperationTable
    → Option OperationRecord
    → Option OperationRecord × OperationTable
insert_unless row t none =
    (some row, record { rows = t.rows ++ (row ∷ []); next_id = suc t.next_id })
insert_unless row t (some present) = (none, record t { next_id = suc t.next_id })

-- INSERT_SQL
unfoldable pub insert_sql : Text → Text → Json → Text → Text → Statement (Option OperationRecord)
unfolding find_row
insert_sql key command_type command checksum fingerprint t =
    insert_unless (new_row t.next_id key command_type command checksum fingerprint) t
      (find_row (has_key key) t.rows)

-- SELECT_BY_KEY_SQL
unfoldable pub select_by_key_sql : Text → Statement (Option OperationRecord)
unfolding find_row
select_by_key_sql key t = (find_row (has_key key) t.rows, t)

-- SELECT_BY_ID_SQL
unfoldable pub select_by_id_sql : ℕ → Statement (Option OperationRecord)
unfolding find_row
select_by_id_sql id t = (find_row (has_id_and (λ status. true) id) t.rows, t)

abbrev pub update_if :
    (OperationRecord → Bool)
    → (OperationRecord → OperationRecord)
    → OperationTable
    → Option OperationRecord
    → Option OperationRecord × OperationTable
update_if test change t none = (none, t)
update_if test change t (some row) =
    (some (change row), record t { rows = update_rows test change t.rows })

-- UPDATE ... WHERE id AND status RETURNING, the rest of RESTART_FAILED_SQL, SUCCEED_SQL, FAIL_SQL
unfoldable pub transition_sql :
    (Status → Bool) → (OperationRecord → OperationRecord) → ℕ → Statement (Option OperationRecord)
unfolding find_row update_rows
transition_sql test change id t =
    update_if (has_id_and test id) change t (find_row (has_id_and test id) t.rows)

abbrev pub Log : Type 0 → Type 0
Log A = World → Result AppError A × World

abbrev pub and_then :
    {A B : Type 0} → Result AppError A × World → (A → Log B) → Result AppError B × World
and_then (ok a, w) f = f a w
and_then (err e, w) f = (err e, w)

abbrev pub throws : {A : Type 0} → AppError → Log A
throws e w = (err e, w)

abbrev pub returns : {A : Type 0} → A → Log A
returns a w = (ok a, w)

-- by whether there is a row
abbrev pub match_some : {A B : Type 0} → Option A → Log B → (A → Log B) → Log B
match_some none absent present w = absent w
match_some (some a) absent present w = present a w

-- `if (!test) throw`
abbrev pub check : {A : Type 0} → Bool → AppError → Log A → Log A
check true e k w = k w
check false e k w = (err e, w)

abbrev run_statement :
    {A : Type 0} → Statement A → OperationTable → List Event → Result AppError A × World
run_statement statement t rest =
    (ok (statement t).0, record { table = (statement t).1; schedule = rest })

abbrev pub malformed_record : Text → AppError
malformed_record reason =
    app_error internal_error (lit "Malformed schema operation record: " ++ reason) 500

abbrev pub max_safe_integer : ℕ
max_safe_integer = 9_007_199_254_740_991

abbrev pub invalid : Text → AppError
invalid message = app_error validation_error message 400

-- mapOperationRow, of a row whose columns have the types of the table
unfoldable pub map_operation_row : OperationRecord → Result AppError OperationRecord
map_operation_row row =
    if not (leb row.id max_safe_integer)
    then err (malformed_record (lit "id must be an integer"))
    else if not (is_object row.command)
    then err (malformed_record (lit "command must be a JSON object"))
    else if null row.idempotency_key
    then err (malformed_record (lit "idempotency_key must be a non-empty string"))
    else if null row.command_type
    then err (malformed_record (lit "command_type must be a non-empty string"))
    else if null row.checksum
    then err (malformed_record (lit "checksum must be a non-empty string"))
    else if null row.actor_fingerprint
    then err (malformed_record (lit "actor_fingerprint must be a non-empty string"))
    else ok row

pub data BeginOutcome : Type 0 where
  accepted : OperationRecord → Bool → BeginOutcome
  replay : OperationRecord → BeginOutcome
  in_progress : OperationRecord → BeginOutcome

abbrev with_key : Text → AppError → AppError
with_key key e = record e { details = some ((lit "idempotencyKey", Detail.text key) ∷ []) }

pub record BeginOperationInput : Type 0 where
  pub idempotency_key : Text
  pub command_type : Text
  pub command : Json
  pub actor : Text
  pub statements : List Text

-- the patterns of the idempotency key, the command type and the error code
abbrev is_key_unit : ℕ → Bool
is_key_unit c = is_letter c || (is_digit c || (c == b'.' || (c == b'_' || c == b'-')))

unfoldable pub is_idempotency_key : Text → Bool
is_idempotency_key key =
    leb (length key) 200 && matches_head_rest (λ c. is_letter c || is_digit c) is_key_unit key

unfoldable pub is_command_type : Text → Bool
is_command_type t =
    leb (length t) 64
    && matches_head_rest is_lower
        (λ c. is_lower c || (is_digit c || (c == b'_' || (c == b'.' || c == b'-')))) t

unfoldable pub is_stable_code : Text → Bool
is_stable_code t =
    leb (length t) 41 && matches_head_rest is_upper (λ c. is_upper c || (is_digit c || c == b'_')) t

abbrev pub invalid_key : AppError
invalid_key = invalid (
    lit
      "idempotencyKey must start with an alphanumeric character and contain only letters, digits, '.', '_' or '-'")

-- a record that is not restarted, by its status; `none` for a failed one
unfoldable pub settled : OperationRecord → Option BeginOutcome
settled found =
    if is_succeeded found.status
    then some (replay found)
    else if is_running found.status
    then some (in_progress found)
    else none

module _ (platform : Platform) where
  -- the statement reaches the table after the next event of the schedule
  unfoldable pub deliver :
      {A : Type 0} → Statement A → OperationTable → List Event → Result AppError A × World
  unfolding translate_pool_error
  deliver statement t [] = run_statement statement t []
  deliver statement t (others change ∷ rest) = run_statement statement (change t) rest
  deliver statement t (fault e ∷ rest) =
      (err (translate_pool_error platform e), record { table = t; schedule = rest })

  -- queryRow
  unfoldable pub query_row : {A : Type 0} → Statement A → Log A
  unfolding deliver
  query_row statement w = deliver statement w.table w.schedule

  -- the first row of an answer, mapped
  abbrev pub mapped : Option OperationRecord → Log (Option OperationRecord)
  mapped none w = (ok none, w)
  mapped (some row) w =
      and_then (map_operation_row row, w) (λ record_of w2. (ok (some record_of), w2))

  unfoldable pub get : Text → Log (Option OperationRecord)
  unfolding query_row select_by_key_sql map_operation_row is_idempotency_key
  get key =
      check (is_idempotency_key key) invalid_key
        (λ w. and_then (query_row (select_by_key_sql key) w) mapped)

  -- the loop of classifyExisting, with the attempts that are left
  unfoldable pub retry_failed : ℕ → OperationRecord → Log BeginOutcome
  unfolding query_row transition_sql get settled map_operation_row
  retry_failed zero found w =
      throws
        (with_key found.idempotency_key (
          app_error conflict (lit "Operation retry is already being claimed by another caller")
            409))
        w
  retry_failed (suc attempts) found w =
      and_then (query_row (transition_sql is_failed restarted found.id) w) λ answer.
        match_some answer
          (λ w2. and_then (get found.idempotency_key w2) λ latest.
            match_some latest (throws (malformed_record (lit "record disappeared during retry")))
              λ again. match_some (settled again) (retry_failed attempts found) returns)
          (λ row w2.
            and_then (map_operation_row row, w2) λ claimed. returns (accepted claimed true))

  unfoldable pub classify_existing : OperationRecord → Text → Log BeginOutcome
  unfolding settled retry_failed
  classify_existing found checksum =
      check (text_eq found.checksum checksum)
        (with_key found.idempotency_key (
          app_error conflict (lit "Idempotency key was already used with a different operation")
            409))
        (match_some (settled found) (retry_failed 4 found) returns)

  -- `begin` from its first query on
  unfoldable pub claim : BeginOperationInput → Text → Text → Log BeginOutcome
  unfolding query_row insert_sql get classify_existing map_operation_row
  claim input checksum fingerprint w =
      and_then
        (query_row
          (insert_sql input.idempotency_key input.command_type input.command checksum fingerprint)
          w)
        λ answer.
          match_some answer
            (λ w2. and_then (get input.idempotency_key w2) λ existing.
              match_some existing
                (throws (malformed_record (lit "insert conflicted but no record is visible")))
                λ found. classify_existing found checksum)
            (λ row w2.
              and_then (map_operation_row row, w2) λ claimed. returns (accepted claimed false))

  unfoldable pub begin : Text → BeginOperationInput → Log BeginOutcome
  unfolding claim is_idempotency_key is_command_type
  begin secret input = check (is_idempotency_key input.idempotency_key) invalid_key (
      check (is_command_type input.command_type)
        (invalid (lit "commandType must match the typed command naming pattern"))
        (check (is_object input.command) (invalid (lit "command must be a JSON object")) (
          check (not (null (platform.trim input.actor)) && leb (length input.actor) 200)
            (invalid (lit "actor must be a non-empty string"))
            (claim input
              (compute_operation_checksum platform input.command_type input.command
                input.statements)
              (compute_actor_fingerprint platform secret input.actor)))))

  abbrev pub not_running : ℕ → AppError
  not_running id = malformed_record (
      concat (lit "operation " ∷ platform.print_number (int (pos id)) ∷ lit " is not running" ∷ []))

  abbrev pub missing_record : ℕ → AppError
  missing_record id =
      malformed_record
        (concat (lit "operation " ∷ platform.print_number (int (pos id)) ∷ lit " is missing" ∷ []))

  unfoldable pub get_by_id : ℕ → Log OperationRecord
  unfolding query_row select_by_id_sql map_operation_row
  get_by_id id w =
      and_then (query_row (select_by_id_sql id) w) λ answer.
        match_some answer (throws (missing_record id)) λ row w2. (map_operation_row row, w2)

  unfoldable pub succeed : ℕ → Json → Log OperationRecord
  unfolding query_row transition_sql get_by_id
  succeed id result w =
      and_then (query_row (transition_sql is_running (finished result) id) w)
        λ answer. match_some answer (throws (not_running id)) λ row. get_by_id id

  unfoldable pub fail : ℕ → Text → Log OperationRecord
  unfolding query_row transition_sql get_by_id is_stable_code
  fail id code =
      check (is_stable_code code) (invalid (lit "errorCode must be a stable uppercase error code"))
        λ w.
          and_then (query_row (transition_sql is_running (broken code) id) w)
            λ answer. match_some answer (throws (not_running id)) λ row. get_by_id id
