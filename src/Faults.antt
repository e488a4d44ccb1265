-- ===== src/Faults.antt =====
-- The translation of what the database throws: translatePoolError of src/database/pool.ts,
-- translateDataError of src/database/data-repository.ts, translateDdlError and
-- toConcurrentWaitConflict of src/database/schema-ddl.ts. Each takes the platform's case mapping.
use micro_jbase.Base.{
  ℕ, Bool, true, false, ◌&&◌, ◌||◌, Option, none, some, List, [], ◌∷◌, if◌then◌else◌, Text, lit,
  text_eq, includes, starts_with,
}
use micro_jbase.Errors.{
  AppError, app_error, app_error_with, ErrorCode, conflict, table_not_found, internal_error,
  database_unavailable, Detail, Field, ErrorObject, Thrown, thrown_object,
}
use micro_jbase.Platform.{Platform}
pub mod Hiding
mod Tests

-- A query runs, or throws before it has an effect, or has its effect while its answer is lost.
pub data Fate : Type 0 where
  fine : Fate
  fails : Thrown → Fate
  lost : Thrown → Fate

-- text.includes(part)
unfoldable pub includes_text : Text → Text → Bool
unfolding starts_with
includes_text part [] = starts_with part []
includes_text part (c ∷ cs) =
    let later = includes_text part cs in starts_with part (c ∷ cs) || later

-- some element of the list occurs in the text
unfoldable pub includes_some : List Text → Text → Bool
unfolding includes_text
includes_some [] t = false
includes_some (part ∷ parts) t = includes_text part t || includes_some parts t

abbrev pub database_unavailable_codes : List Text
database_unavailable_codes =
    lit "08000"
    ∷ lit "08003"
    ∷ lit "08006"
    ∷ lit "08001"
    ∷ lit "08004"
    ∷ lit "08007"
    ∷ lit "08P01"
    ∷ lit "53300"
    ∷ lit "57000"
    ∷ lit "57014"
    ∷ lit "57P01"
    ∷ lit "57P02"
    ∷ lit "57P03"
    ∷ lit "28P01"
    ∷ lit "28000"
    ∷ []

abbrev pub database_unavailable_node_codes : List Text
database_unavailable_node_codes =
    lit "ECONNREFUSED"
    ∷ lit "ECONNRESET"
    ∷ lit "ENOTFOUND"
    ∷ lit "EAI_AGAIN"
    ∷ lit "ETIMEDOUT"
    ∷ lit "EHOSTUNREACH"
    ∷ lit "ENETUNREACH"
    ∷ lit "EPIPE"
    ∷ []

-- the PG_ constants that translateDataError tells apart, all of them a conflict
abbrev pub conflict_codes : List Text
conflict_codes =
    lit "23505"
    ∷ lit "23P01"
    ∷ lit "23503"
    ∷ lit "23514"
    ∷ lit "23502"
    ∷ lit "23500"
    ∷ lit "22P02"
    ∷ lit "22003"
    ∷ lit "22007"
    ∷ lit "42501"
    ∷ []

-- a property that is a string for which the test holds
unfoldable pub string_and : (Text → Bool) → Field → Bool
string_and test (Field.string t) = test t
string_and test _ = false

abbrev text_of : Field → Text
text_of (Field.string t) = t
text_of _ = []

-- error instanceof Error ? error.message : String(error); an Error's message is a string
unfoldable pub message_of : ErrorObject → Text
message_of o = if o.is_error then text_of o.message else o.printed

module _ (platform : Platform) where
  unfoldable pub is_database_unavailable_error : ErrorObject → Bool
  unfolding string_and message_of includes_some
  is_database_unavailable_error o =
      let upper = platform.to_upper (message_of o) in
      let lower = platform.to_lower (message_of o) in
      string_and (includes database_unavailable_codes) o.code
      || (string_and (includes database_unavailable_node_codes) o.code
          || (string_and (starts_with (lit "08")) o.sql_state
              || (includes_some database_unavailable_node_codes upper
                  || (includes_text (lit "password authentication failed") lower
                      || (includes_text (lit "authentication failed") lower
                          || (includes_text (lit "connect") lower
                                && includes_text (lit "refused") lower
                              || (includes_text (lit "connection terminated") lower
                                  || (includes_text (lit "timeout") lower
                                      && includes_text (lit "database") lower))))))))

  -- the public error of an unavailable database, from the message in lower case
  unfoldable pub unavailable_error : Text → AppError
  unfolding includes_text
  unavailable_error lower =
      if includes_text (lit "password authentication failed") lower
      then app_error database_unavailable (lit "Database authentication failed") 503
      else if includes_text (lit "timeout") lower
      then app_error database_unavailable (lit "Database operation timed out") 503
      else if includes_text (lit "connection terminated") lower
      then app_error database_unavailable (lit "Database connection was terminated unexpectedly")
          503
      else app_error database_unavailable (lit "Database is unavailable") 503

  -- translatePoolError of an object, and of no object
  unfoldable pub translate_pool_object : Option ErrorObject → AppError
  unfolding is_database_unavailable_error unavailable_error
  translate_pool_object none =
      app_error internal_error (lit "An unexpected database error occurred") 500
  translate_pool_object (some o) =
      if is_database_unavailable_error o
      then unavailable_error (platform.to_lower (message_of o))
      else app_error internal_error (lit "An unexpected database error occurred") 500

  unfoldable pub translate_pool_error : Thrown → AppError
  unfolding translate_pool_object thrown_object
  translate_pool_error (Thrown.app e) = e
  translate_pool_error error = translate_pool_object (thrown_object error)

  -- translateDataError of an object, and of no object
  unfoldable pub translate_data_object : Option ErrorObject → AppError
  unfolding string_and translate_pool_object
  translate_data_object none = translate_pool_object none
  translate_data_object (some o) =
      if string_and (includes conflict_codes) o.code
      then app_error conflict (lit "A conflict occurred") 409
      else translate_pool_object (some o)

  unfoldable pub translate_data_error : Thrown → AppError
  unfolding translate_data_object thrown_object
  translate_data_error (Thrown.app e) = e
  translate_data_error error = translate_data_object (thrown_object error)

-- DDL_ERROR_MAP
abbrev pub ddl_error_map : List (Text × AppError)
ddl_error_map =
    (lit "42P07", app_error conflict (lit "Relation already exists") 409)
    ∷ (lit "42P01", app_error table_not_found (lit "Referenced table does not exist") 404)
    ∷ (lit "42704", app_error table_not_found (lit "Referenced object does not exist") 404)
    ∷ (lit "3F000", app_error table_not_found (lit "Referenced schema does not exist") 404)
    ∷ (lit "23505", app_error conflict (lit "Operation conflicts with existing data") 409)
    ∷ (lit "42710", app_error conflict (lit "Object already exists") 409)
    ∷ (
      lit "42501",
      app_error internal_error (lit "Insufficient database privilege for the schema-admin role")
          500,
    )
    ∷ (
      lit "40P01",
      app_error internal_error (lit "Operation conflicted with a concurrent operation") 500,
    )
    ∷ (
      lit "9C001",
      app_error conflict
          (lit "The column type changed after the operation was compiled; retry with a fresh key")
          409,
    )
    ∷ (
      lit "9C002",
      app_error conflict
          (lit "Runtime role retains privileges on the table; revoke them before unexposing") 409,
    )
    ∷ (
      lit "9C003",
      app_error conflict (lit "Table is exposed to the data API and cannot be modified") 409,
    )
    ∷ (
      lit "9C004",
      app_error conflict
          (lit "Table no longer satisfies the exposure prerequisites; retry with a fresh key") 409,
    )
    ∷ []

abbrev pub operation_failed : AppError
operation_failed = app_error internal_error (lit "Schema operation failed") 500

-- the entry of a SQLSTATE in the table, or the error that names no cause
unfoldable pub mapped_or_hidden : Text → List (Text × AppError) → AppError
mapped_or_hidden state [] = operation_failed
mapped_or_hidden state ((key, mapped) ∷ rest) =
    let later = mapped_or_hidden state rest in if text_eq state key then mapped else later

abbrev pub by_state : Field → AppError
by_state (Field.string state) = mapped_or_hidden state ddl_error_map
by_state _ = operation_failed

-- translateDdlError of an object, and of no object
unfoldable pub translate_ddl_object : Option ErrorObject → AppError
unfolding mapped_or_hidden
translate_ddl_object none = operation_failed
translate_ddl_object (some o) = by_state o.code

unfoldable pub translate_ddl_error : Thrown → AppError
unfolding translate_ddl_object thrown_object
translate_ddl_error (Thrown.app e) = e
translate_ddl_error error = translate_ddl_object (thrown_object error)

abbrev pub concurrent_wait_sqlstates : List Text
concurrent_wait_sqlstates = lit "55P03" ∷ lit "57014" ∷ []

abbrev pub driver_query_timeout_message : Text
driver_query_timeout_message = lit "Query read timeout"

-- the wait for the advisory key or for the row of the key has run out
unfoldable pub is_concurrent_wait : ErrorObject → Bool
unfolding string_and
is_concurrent_wait o =
    o.is_error && string_and (λ m. text_eq m driver_query_timeout_message) o.message
    || string_and (includes concurrent_wait_sqlstates) o.code

abbrev pub in_progress_conflict : Text → AppError
in_progress_conflict key =
    app_error_with conflict (lit "An identical operation is already in progress") 409
      ((lit "idempotencyKey", Detail.text key) ∷ [])

unfoldable pub to_concurrent_wait_conflict : Thrown → Text → Option AppError
unfolding is_concurrent_wait thrown_object
to_concurrent_wait_conflict (Thrown.app e) key = none
to_concurrent_wait_conflict error key = elim (thrown_object error) [
  | none ↦ none
  | some o ↦ if is_concurrent_wait o then some (in_progress_conflict key) else none
]

unfoldable pub translate_concurrent_wait_error : Thrown → Text → AppError
unfolding to_concurrent_wait_conflict translate_ddl_error
translate_concurrent_wait_error (Thrown.app e) key = e
translate_concurrent_wait_error error key = elim (to_concurrent_wait_conflict error key) [
  | none ↦ translate_ddl_error error
  | some e ↦ e
]
