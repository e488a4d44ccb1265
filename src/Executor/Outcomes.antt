-- ===== src/Executor/Outcomes.antt =====
-- What a caller of `execute` of src/database/schema-ddl.ts can rely on, in a dry run and in a real one.
use micro_jbase.Base.{◌≡◌, refl, inl, inr, true, List, Result, ok, err, Text, Bool-cases}
use micro_jbase.Errors.{AppError, Thrown}
use micro_jbase.Platform.{Platform}
use micro_jbase.Ddl.Plans.{DdlPlan}
use micro_jbase.Executor.{
  Session, statements_of, ExecuteOptions, ExecuteOutcome, execute_statements, execute_dry_run,
  execute,
}
use micro_jbase.Executor.Steps.{IsCertain}
use micro_jbase.Executor.Atomic.{IsAtomic}
use micro_jbase.Executor.Executions.{
  execute_for_real-IsAtomic, execute_for_real-clients, execute_dry_run-IsHarmless, IsHarmless,
}

module _ {S : Type 0} (platform : Platform) (apply : Text → S → Result Thrown S) (secret : Text)
    (options : ExecuteOptions) where
  dry_run-IsAtomic :
      (statements : List Text) (s : Session S) (run : Result Thrown ExecuteOutcome × Session S)
      → IsHarmless platform apply statements s run
      → IsAtomic apply statements s.store.committed (IsCertain s.fates) run.0 run.1.store.committed
  unfolding IsAtomic
  dry_run-IsAtomic statements s (ok outcome, t) h = inl (rw h.2 refl, h.0)
  dry_run-IsAtomic statements s (err e, t) h = inl h.0

  -- Of plans that hold these statements, an execution that returns has either changed nothing, and
  -- says that it was a dry run or a replay, or has committed the statements together with the record
  -- that it returns. One that throws has committed nothing, unless the answer to a query was lost, and
  -- then it has committed nothing or all of the statements.
  pub execute-IsAtomic :
      (plans : List DdlPlan) (statements : List Text) (s : Session S)
      → statements_of plans ≡ ok statements
      → IsAtomic apply statements s.store.committed
          (IsCertain s.fates)
          (execute platform apply secret plans options s).0
          (execute platform apply secret plans options s).1.store.committed
  unfolding execute execute_statements
  execute-IsAtomic plans statements s compiled = elim (Bool-cases options.dry_run) [
    | inl dry ↦
        rw (compiled, dry)
          (dry_run-IsAtomic statements s (execute_dry_run platform apply statements s)
            (execute_dry_run-IsHarmless platform apply statements s))
    | inr real ↦
        rw (compiled, real) (execute_for_real-IsAtomic platform apply secret options statements s)
  ]

  answered-dry :
      (compiled : Result AppError (List Text)) (s : Session S)
      → options.dry_run ≡ true
      → (execute_statements platform apply secret options compiled s).1.store.committed
        ≡ s.store.committed
  unfolding execute_statements
  answered-dry (err e) s dry = refl
  answered-dry (ok statements) s dry =
      rw dry (execute_dry_run-IsHarmless platform apply statements s).0

  -- A dry run commits nothing, whatever the plans are and whichever query fails or loses its answer.
  pub execute-dry_run :
      (plans : List DdlPlan) (s : Session S)
      → options.dry_run ≡ true
      → (execute platform apply secret plans options s).1.store.committed ≡ s.store.committed
  unfolding execute
  execute-dry_run plans s dry = answered-dry (statements_of plans) s dry

  answered-clients :
      (compiled : Result AppError (List Text)) (s : Session S)
      → (execute_statements platform apply secret options compiled s).1.clients ≡ s.clients
  unfolding execute_statements
  answered-clients (err e) s = refl
  answered-clients (ok statements) s = elim (Bool-cases options.dry_run) [
    | inl dry ↦ rw dry (execute_dry_run-IsHarmless platform apply statements s).1
    | inr real ↦ rw real (execute_for_real-clients platform apply secret options statements s)
  ]

  -- An execution gives back every client that it takes from the pool, on all of its paths.
  pub execute-clients :
      (plans : List DdlPlan) (s : Session S)
      → (execute platform apply secret plans options s).1.clients ≡ s.clients
  unfolding execute
  execute-clients plans s = answered-clients (statements_of plans) s
