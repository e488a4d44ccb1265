-- ===== src/Executor/Phases.antt =====
-- The phases of an execution in src/database/schema-ddl.ts, and the relation of the stores that a run of
-- each keeps: of what is committed by all but the commit, of the clients by all.
use micro_jbase.Base.{List, [], ◌∷◌, Result, ok, err, Returned, Text, false, true, some}
use micro_jbase.Errors.{Thrown}
use micro_jbase.Platform.{Platform}
use micro_jbase.Faults.{translate_ddl_error, translate_concurrent_wait_error, in_progress_conflict}
use micro_jbase.OperationLog.{
  OperationRecord, OperationTable, BeginOutcome, accepted, replay, in_progress, begin, succeed,
}
use micro_jbase.Executor.{
  Db, Store, Session, Exec, followed, always, yields, raises, query, reset, publish,
  rollback_quietly, with_schema, run_log, run_statements, secure, statement_effect, rehearse,
  begin_operation, begin_input, ExecuteOptions, statement_count, apply_accepted, conclude,
  record_success, outcome_of, settle, transact,
}
use micro_jbase.Executor.Steps.{
  Linked, Linked-refl, followed-Linked, caught-Linked, always-Linked, query-Linked, secure-Linked,
  run_log-Linked, reset-Linked,
}

-- `logged` lets the table of operations of the open transaction change
module _ {S : Type 0} (platform : Platform) (apply : Text → S → Result Thrown S)
    (P : Store S → Store S → Type 0) (stays : (a : Store S) → P a a)
    (joins : (a b c : Store S) → P a b → P b c → P a c)
    (logged : (a : Store S) (t : OperationTable)
      → P a (record a { working = record a.working { operations = t } }))
    (secret : Text) (options : ExecuteOptions) (statements : List Text) where
  -- the idempotency phase up to its first error
  pub claim-Linked :
      (s : Session S)
      → Linked P s
          (followed (secure platform apply s) λ secured.
            run_log options.idempotency_key
              (begin platform secret (begin_input options statements))).1
  claim-Linked s =
      followed-Linked P stays joins s (secure platform apply s)
        (λ secured.
          run_log options.idempotency_key (begin platform secret (begin_input options statements)))
        (secure-Linked P stays joins platform apply s)
        λ secured t.
          run_log-Linked P stays joins options.idempotency_key
            (begin platform secret (begin_input options statements)) t (logged t.store)

-- `free` lets the open transaction see anything
module _ {S : Type 0} (platform : Platform) (apply : Text → S → Result Thrown S)
    (P : Store S → Store S → Type 0) (stays : (a : Store S) → P a a)
    (joins : (a b c : Store S) → P a b → P b c → P a c)
    (free : (a : Store S) (db : Db S) → P a (record a { working = db })) where
  with_schema-Linked : (a : Store S) (r : Result Thrown S) → Returned (P a) (with_schema a r)
  with_schema-Linked a (ok schema) = free a (record a.working { schema = schema })
  with_schema-Linked a (err e) = tt

  pub run_statements-Linked :
      (statements : List Text) (s : Session S)
      → Linked P s (run_statements platform apply statements s).1
  unfolding run_statements
  run_statements-Linked [] s = Linked-refl P stays joins s
  run_statements-Linked (statement ∷ statements) s =
      let effect = statement_effect platform apply statement in
      followed-Linked P stays joins s (query effect s)
        (λ done. run_statements platform apply statements)
        (query-Linked P stays joins effect s
          (with_schema-Linked s.store (apply statement s.store.working.schema)))
        λ done. run_statements-Linked statements

  pub rollback_quietly-Linked : (s : Session S) → Linked P s (rollback_quietly s).1
  unfolding rollback_quietly
  rollback_quietly-Linked s =
      caught-Linked P stays joins s (query reset s) (λ e. yields tt)
        (reset-Linked P stays joins free s) λ e. Linked-refl P stays joins

  -- a rollback and what is then returned or thrown, which leaves the session alone
  pub after_rollback-Linked :
      {A : Type 0} (r : Result Thrown A) (s : Session S)
      → Linked P s (followed (rollback_quietly s) (λ done t. (r, t))).1
  after_rollback-Linked r s =
      followed-Linked P stays joins s (rollback_quietly s) (λ done t. (r, t))
        (rollback_quietly-Linked s) λ done. Linked-refl P stays joins

  pub rehearse-Linked :
      (statements : List Text) (s : Session S) → Linked P s (rehearse platform apply statements s).1
  unfolding rehearse
  rehearse-Linked statements s =
      let steps : Exec S Unit = λ t.
        followed (secure platform apply t) λ secured. run_statements platform apply statements in
      let body : Unit → Exec S Unit = λ begun t. always (steps t) (query reset) in
      caught-Linked P stays joins s (followed (query reset s) body)
        (λ e. raises (Thrown.app (translate_ddl_error e)))
        (followed-Linked P stays joins s (query reset s) body (reset-Linked P stays joins free s)
          λ begun t.
            always-Linked P stays joins t (steps t) (query reset)
              (followed-Linked P stays joins t (secure platform apply t)
                (λ secured. run_statements platform apply statements)
                (secure-Linked P stays joins platform apply t)
                λ secured. run_statements-Linked statements)
              (reset-Linked P stays joins free))
        λ e. Linked-refl P stays joins

  module _ (secret : Text) (options : ExecuteOptions) (statements : List Text) where
    pub begin_operation-Linked :
        (s : Session S) → Linked P s (begin_operation platform apply secret options statements s).1
    unfolding begin_operation
    begin_operation-Linked s =
        caught-Linked P stays joins s
          (followed (secure platform apply s) λ secured.
            run_log options.idempotency_key
              (begin platform secret (begin_input options statements)))
          (λ e t.
            followed (rollback_quietly t) λ done.
              raises (Thrown.app (translate_concurrent_wait_error e options.idempotency_key)))
          (claim-Linked platform apply P stays joins
            (λ a u. free a (record a.working { operations = u })) secret options statements s)
          λ e.
            after_rollback-Linked
              (err (Thrown.app (translate_concurrent_wait_error e options.idempotency_key)))

    -- `published` is the relation of the commit
    module _ (published : (a : Store S) → P a (record a { committed = a.working })) where
      conclude-Linked :
          (finished : OperationRecord) (s : Session S)
          → Linked P s (conclude platform apply finished s).1
      unfolding conclude publish
      conclude-Linked finished s =
          followed-Linked P stays joins s (query publish s)
            (λ committed. yields (outcome_of false false (some finished)))
            (query-Linked P stays joins publish s (published s.store))
            λ committed. Linked-refl P stays joins

      apply_accepted-Linked :
          (operation : OperationRecord) (s : Session S)
          → Linked P s (apply_accepted platform apply options statements operation s).1
      unfolding apply_accepted record_success
      apply_accepted-Linked operation s =
          followed-Linked P stays joins s (run_statements platform apply statements s)
            (λ applied. record_success platform apply options statements operation)
            (run_statements-Linked statements s)
            λ applied t.
              let log = succeed platform operation.id (statement_count platform apply statements) in
              followed-Linked P stays joins t (run_log options.idempotency_key log t)
                (conclude platform apply)
                (run_log-Linked P stays joins options.idempotency_key log t
                  λ u. free t.store (record t.store.working { operations = u }))
                conclude-Linked

      settle-Linked :
          (begun : BeginOutcome) (s : Session S)
          → Linked P s (settle platform apply options statements begun s).1
      unfolding settle
      settle-Linked (accepted operation retry) s =
          caught-Linked P stays joins s
            (apply_accepted platform apply options statements operation s)
            (λ e t.
              followed (rollback_quietly t) λ done. raises (Thrown.app (translate_ddl_error e)))
            (apply_accepted-Linked operation s)
            λ e. after_rollback-Linked (err (Thrown.app (translate_ddl_error e)))
      settle-Linked (replay operation) s =
          after_rollback-Linked (ok (outcome_of false true (some operation))) s
      settle-Linked (in_progress operation) s =
          after_rollback-Linked (err (Thrown.app (in_progress_conflict options.idempotency_key))) s

      pub transact-Linked :
          (s : Session S) → Linked P s (transact platform apply secret options statements s).1
      unfolding transact
      transact-Linked s =
          followed-Linked P stays joins s (query reset s)
            (λ begun t.
              followed (begin_operation platform apply secret options statements t)
                (settle platform apply options statements))
            (reset-Linked P stays joins free s)
            λ begun t.
              followed-Linked P stays joins t
                (begin_operation platform apply secret options statements t)
                (settle platform apply options statements) (begin_operation-Linked t) settle-Linked
