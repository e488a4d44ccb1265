-- ===== src/Executor.antt =====
-- src/database/schema-ddl.ts, the executor: compiled plans run in one transaction of the database, with
-- the record of the operation. The database is explicit state: what is committed, and what the open
-- transaction sees. Each query, and the checking out of a client, has a fate.
use micro_jbase.Base.{
  ℕ, zero, suc, ◌-◌, Bool, true, false, not, Option, none, some, List, [], ◌∷◌, ◌++◌, map,
  if◌then◌else◌, length, null, Result, ok, err, guard, ◌>>=◌, ◌>>◌, Text, lit, int, pos,
}
use micro_jbase.Errors.{AppError, validation_error, app_error, Thrown}
use micro_jbase.Platform.{Platform}
pub use micro_jbase.Faults.{Fate, fine, fails, lost}
use micro_jbase.Faults.{
  translate_ddl_error, to_concurrent_wait_conflict, translate_concurrent_wait_error,
  in_progress_conflict,
}
use micro_jbase.Ddl.Plans.{DdlPlan}
use micro_jbase.OperationLog.Checksum.{Json, no_member, member}
use micro_jbase.OperationLog.{
  OperationRecord, OperationTable, Event, others, fault, World, Log, BeginOutcome, accepted, replay,
  in_progress, BeginOperationInput, begin, succeed,
}
pub mod Steps
pub mod Phases
pub mod Posts
pub mod Applied
pub mod Atomic
pub mod Executions
pub mod Outcomes
mod Tests

-- What the statements change, of any type, and the table of operations.
pub record Db (S : Type 0) : Type 0 where
  pub schema : S
  pub operations : OperationTable

pub record Store (S : Type 0) : Type 0 where
  pub committed : Db S
  pub working : Db S

-- the store, the fates of what is asked next, and how many clients of the pool are checked out
pub record Session (S : Type 0) : Type 0 where
  pub store : Store S
  pub fates : List Fate
  pub clients : ℕ

abbrev pub Exec : Type 0 → Type 0 → Type 0
Exec S A = Session S → Result Thrown A × Session S

abbrev pub followed :
    {S A B : Type 0} → Result Thrown A × Session S → (A → Exec S B) → Result Thrown B × Session S
followed (ok a, s) next = next a s
followed (err e, s) next = (err e, s)

-- try { ... } catch (error) { ... }
abbrev pub caught :
    {S A : Type 0} → Result Thrown A × Session S → (Thrown → Exec S A) → Result Thrown A × Session S
caught (ok a, s) handler = (ok a, s)
caught (err e, s) handler = handler e s

-- try { ... } finally { ... }: an error of the cleanup takes the place of what happened
abbrev pub always :
    {S A : Type 0} → Result Thrown A × Session S → Exec S Unit → Result Thrown A × Session S
always (r, s) cleanup = followed (cleanup s) (λ done s2. (r, s2))

abbrev pub yields : {S A : Type 0} → A → Exec S A
yields a s = (ok a, s)

abbrev pub raises : {S A : Type 0} → Thrown → Exec S A
raises e s = (err e, s)

-- what a query does to the store, or the error of the database
abbrev pub Effect : Type 0 → Type 0
Effect S = Store S → Result Thrown (Store S)

abbrev pub landed :
    {S : Type 0}
    → Session S
    → List Fate
    → Result Thrown Unit
    → Result Thrown (Store S)
    → Result Thrown Unit × Session S
landed s rest answer (ok store) = (answer, record s { store = store; fates = rest })
landed s rest answer (err e) = (err e, record s { fates = rest })

abbrev pub deliver_as :
    {S : Type 0} → Effect S → Session S → List Fate → Result Thrown Unit × Session S
deliver_as effect s [] = landed s [] (ok tt) (effect s.store)
deliver_as effect s (fine ∷ rest) = landed s rest (ok tt) (effect s.store)
deliver_as effect s (fails e ∷ rest) = (err e, record s { fates = rest })
deliver_as effect s (lost e ∷ rest) = landed s rest (err e) (effect s.store)

-- client.query(...)
unfoldable pub query : {S : Type 0} → Effect S → Exec S Unit
query effect s = deliver_as effect s s.fates

-- BEGIN and ROLLBACK: the transaction sees what is committed
unfoldable pub reset : {S : Type 0} → Effect S
reset store = ok (record store { working = store.committed })

-- COMMIT
unfoldable pub publish : {S : Type 0} → Effect S
publish store = ok (record store { committed = store.working })

-- the hardening of the transaction, and the advisory lock
unfoldable pub unchanged : {S : Type 0} → Effect S
unchanged store = ok store

abbrev pub with_schema : {S : Type 0} → Store S → Result Thrown S → Result Thrown (Store S)
with_schema store (ok schema) =
    ok (record store { working = record store.working { schema = schema } })
with_schema store (err e) = err e

-- a client is checked out, unless the pool throws
abbrev pub connected : {S : Type 0} → Session S → List Fate → Result Thrown Unit × Session S
connected s [] = (ok tt, record s { clients = suc s.clients })
connected s (fine ∷ rest) = (ok tt, record s { fates = rest; clients = suc s.clients })
connected s (fails e ∷ rest) = (err e, record s { fates = rest })
connected s (lost e ∷ rest) = (err e, record s { fates = rest })

-- pool.connect()
unfoldable pub connect : {S : Type 0} → Exec S Unit
connect s = connected s s.fates

-- client.release()
unfoldable pub release : {S : Type 0} → Exec S Unit
release s = (ok tt, record s { clients = s.clients - 1 })

-- rollbackQuietly
unfoldable pub rollback_quietly : {S : Type 0} → Exec S Unit
unfolding query reset
rollback_quietly s = caught (query reset s) (λ e. yields tt)

abbrev pub refuse : Text → AppError
refuse message = app_error validation_error message 400

abbrev pub not_compiled : AppError
not_compiled = refuse (lit "DDL plans must be compiled by the typed schema DDL compiler")

-- assertPlanSealed
unfoldable pub assert_plan_sealed : DdlPlan → Result AppError Unit
assert_plan_sealed plan = guard plan.is_sealed not_compiled

abbrev pub no_statements : AppError
no_statements = refuse (lit "a compiled DDL plan has no statements")

abbrev pub no_plan : AppError
no_plan = refuse (lit "a DDL execution needs at least one plan")

-- the loop of statementsOf
unfoldable pub collect_statements : List DdlPlan → Result AppError (List Text)
unfolding assert_plan_sealed
collect_statements [] = ok []
collect_statements (plan ∷ plans) =
    assert_plan_sealed plan
    >> (guard (not (null plan.statements)) no_statements
        >> (collect_statements plans >>= λ rest. ok (plan.statements ++ rest)))

-- statementsOf, of the plans as a list
unfoldable pub statements_of : List DdlPlan → Result AppError (List Text)
unfolding collect_statements
statements_of plans = guard (not (null plans)) no_plan >> collect_statements plans

pub record ExecuteOptions : Type 0 where
  pub idempotency_key : Text
  pub command_type : Text
  pub command : Json
  pub actor : Text
  pub dry_run : Bool

pub record ExecuteOutcome : Type 0 where
  pub is_dry_run : Bool
  pub is_replayed : Bool
  pub operation : Option OperationRecord

abbrev pub begin_input : ExecuteOptions → List Text → BeginOperationInput
begin_input options statements = record {
  idempotency_key = options.idempotency_key;
  command_type = options.command_type;
  command = options.command;
  actor = options.actor;
  statements = statements;
}

abbrev pub outcome_of : Bool → Bool → Option OperationRecord → ExecuteOutcome
outcome_of dry replayed operation = record {
  is_dry_run = dry;
  is_replayed = replayed;
  operation = operation;
}

-- the error as the query of the operation log rethrows it
unfoldable pub as_wait_conflict : Text → Thrown → Thrown
unfolding to_concurrent_wait_conflict
as_wait_conflict key e = elim (to_concurrent_wait_conflict e key) [
  | none ↦ e
  | some conflict ↦ Thrown.app conflict
]

-- Behind the advisory lock no other session writes the table.
abbrev pub as_event : Text → Fate → Event
as_event key fine = others (λ t. t)
as_event key (fails e) = fault (as_wait_conflict key e)
as_event key (lost e) = fault (as_wait_conflict key e)

abbrev pub as_thrown : {A : Type 0} → Result AppError A → Result Thrown A
as_thrown (ok a) = ok a
as_thrown (err e) = err (Thrown.app e)

unfoldable pub drop_fates : ℕ → List Fate → List Fate
drop_fates zero fates = fates
drop_fates (suc n) [] = []
drop_fates (suc n) (fate ∷ fates) = drop_fates n fates

abbrev pub rejoined :
    {S A : Type 0} → Session S → Result AppError A × World → Result Thrown A × Session S
rejoined s (r, w) = (
  as_thrown r,
  record s {
    store = record s.store { working = record s.store.working { operations = w.table } };
    fates = drop_fates (length s.fates - length w.schedule) s.fates;
  },
)

-- the operation log, on the client of the transaction
unfoldable pub run_log : {S A : Type 0} → Text → Log A → Exec S A
unfolding drop_fates as_wait_conflict
run_log key log s =
    rejoined s
      (log (record { table = s.store.working.operations; schedule = map (as_event key) s.fates }))

-- `apply` is the database: what a statement does to the schema, or the error that it reports
module _ {S : Type 0} (platform : Platform) (apply : Text → S → Result Thrown S) where
  abbrev pub statement_effect : Text → Effect S
  statement_effect statement store = with_schema store (apply statement store.working.schema)

  -- the loop over runPlanStatement
  unfoldable pub run_statements : List Text → Exec S Unit
  unfolding query
  run_statements [] s = (ok tt, s)
  run_statements (statement ∷ statements) s =
      followed (query (statement_effect statement) s) (λ done. run_statements statements)

  -- the hardening statement and the advisory lock
  unfoldable pub secure : Exec S Unit
  unfolding query unchanged
  secure s = followed (query unchanged s) (λ done. query unchanged)

  -- the rest of a dry run, once it has a client
  unfoldable pub rehearse : List Text → Exec S Unit
  unfolding query reset secure run_statements translate_ddl_error
  rehearse statements s =
      caught
        (followed (query reset s) λ begun s2.
          always (followed (secure s2) λ secured. run_statements statements) (query reset))
        (λ e. raises (Thrown.app (translate_ddl_error e)))

  -- execute with options.dryRun
  unfoldable pub execute_dry_run : List Text → Exec S ExecuteOutcome
  unfolding connect release rehearse
  execute_dry_run statements s = followed (connect s) λ got s2.
      followed (always (rehearse statements s2) release) λ done. yields (outcome_of true false none)

  -- the idempotency phase
  unfoldable pub begin_operation : Text → ExecuteOptions → List Text → Exec S BeginOutcome
  unfolding secure run_log begin rollback_quietly translate_concurrent_wait_error
  begin_operation secret options statements s =
      caught
        (followed (secure s) λ secured.
          run_log options.idempotency_key (begin platform secret (begin_input options statements)))
        (λ e s2.
          followed (rollback_quietly s2)
            λ done. raises (Thrown.app (translate_concurrent_wait_error e options.idempotency_key)))

  abbrev pub statement_count : List Text → Json
  statement_count statements =
      Json.object
        (member (lit "statementCount") (Json.number (int (pos (length statements)))) no_member)

  -- the commit
  unfoldable pub conclude : OperationRecord → Exec S ExecuteOutcome
  unfolding query publish
  conclude finished s =
      followed (query publish s) λ committed. yields (outcome_of false false (some finished))

  -- the record of the success, and the commit
  unfoldable pub record_success :
      ExecuteOptions → List Text → OperationRecord → Exec S ExecuteOutcome
  unfolding run_log succeed conclude
  record_success options statements operation s =
      followed
        (run_log options.idempotency_key
          (succeed platform operation.id (statement_count statements)) s)
        conclude

  -- the statements, the record of the success, and the commit
  unfoldable pub apply_accepted :
      ExecuteOptions → List Text → OperationRecord → Exec S ExecuteOutcome
  unfolding run_statements record_success
  apply_accepted options statements operation s =
      followed (run_statements statements s) λ applied. record_success options statements operation

  -- what follows the idempotency phase
  unfoldable pub settle : ExecuteOptions → List Text → BeginOutcome → Exec S ExecuteOutcome
  unfolding apply_accepted rollback_quietly translate_ddl_error
  settle options statements (accepted operation retry) s =
      caught (apply_accepted options statements operation s)
        (λ e s2. followed (rollback_quietly s2) λ done. raises (Thrown.app (translate_ddl_error e)))
  settle options statements (replay operation) s =
      followed (rollback_quietly s) λ done. yields (outcome_of false true (some operation))
  settle options statements (in_progress operation) s =
      followed (rollback_quietly s)
        λ done. raises (Thrown.app (in_progress_conflict options.idempotency_key))

  -- the transaction of a real run, once it has a client
  unfoldable pub transact : Text → ExecuteOptions → List Text → Exec S ExecuteOutcome
  unfolding query reset begin_operation settle
  transact secret options statements s = followed (query reset s) λ begun s2.
      followed (begin_operation secret options statements s2) (settle options statements)

  unfoldable pub execute_for_real : Text → ExecuteOptions → List Text → Exec S ExecuteOutcome
  unfolding connect release transact
  execute_for_real secret options statements s =
      followed (connect s) λ got s2. always (transact secret options statements s2) release

  unfoldable pub execute_statements :
      Text → ExecuteOptions → Result AppError (List Text) → Exec S ExecuteOutcome
  unfolding execute_dry_run execute_for_real
  execute_statements secret options (err e) s = (err (Thrown.app e), s)
  execute_statements secret options (ok statements) s =
      if options.dry_run
      then execute_dry_run statements s
      else execute_for_real secret options statements s

  unfoldable pub execute : Text → List DdlPlan → ExecuteOptions → Exec S ExecuteOutcome
  unfolding statements_of execute_statements
  execute secret plans options s = execute_statements secret options (statements_of plans) s
