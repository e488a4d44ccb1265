-- ===== src/Executor/Tests.antt =====
-- The executor at work on a schema that records its statements: a real run, a dry run, and a run
-- whose commit has an effect while its answer is lost.
use micro_jbase.Base.{
  ◌≡◌, refl, Bool, true, false, List, [], ◌∷◌, ◌++◌, Result, ok, Text, text_eq, matches_head_rest,
}
use micro_jbase.Errors.{Thrown}
use micro_jbase.Fixtures.{plain_platform, notes, public_schema}
use micro_jbase.Ddl.Plans.{DdlPlan}
use micro_jbase.OperationLog.Checksum.{
  Json, no_member, compute_operation_checksum, compute_actor_fingerprint,
}
use micro_jbase.OperationLog.{OperationTable, begin, succeed}
use micro_jbase.Executor.{
  Db, Fate, fine, fails, lost, Session, ExecuteOptions, execute, statements_of,
}
use micro_jbase.Executor.Steps.{IsCertain}
use micro_jbase.Executor.Atomic.{IsAtomic}
use micro_jbase.Executor.Outcomes.{execute-IsAtomic, execute-dry_run, execute-clients}

abbrev record_statement : Text → List Text → Result Thrown (List Text)
record_statement statement schema = ok (schema ++ (statement ∷ []))

abbrev no_operations : OperationTable
no_operations = record { rows = []; next_id = 1 }

abbrev empty_db : Db (List Text)
empty_db = record { schema = []; operations = no_operations }

abbrev idle : List Fate → Session (List Text)
idle fates = record {
  store = record { committed = empty_db; working = empty_db };
  fates = fates;
  clients = 0;
}

abbrev plans : List DdlPlan
plans =
    record { statements = notes ∷ (public_schema ∷ []); description = notes; is_sealed = true } ∷ []

abbrev statements : List Text
statements = notes ∷ (public_schema ∷ [])

abbrev options : Bool → ExecuteOptions
options dry = record {
  idempotency_key = notes;
  command_type = notes;
  command = Json.object no_member;
  actor = notes;
  dry_run = dry;
}

abbrev timeout : Thrown
timeout = Thrown.primitive notes

-- every query before the COMMIT is fine, and the answer to the COMMIT is lost
abbrev lost_commit : List Fate
lost_commit =
    fine
    ∷ (fine ∷ (fine ∷ (fine ∷ (fine ∷ (fine ∷ (fine ∷ (fine ∷ (fine ∷ (lost timeout ∷ [])))))))))

abbrev committed_by : Bool → List Fate → List Text
committed_by dry fates =
    (execute plain_platform record_statement notes plans (options dry)
      (idle fates)).1.store.committed.schema

real_run_commits : committed_by false [] ≡ statements
unfolding execute begin succeed text_eq matches_head_rest compute_operation_checksum
    compute_actor_fingerprint
real_run_commits = refl

lost_answer_commits : committed_by false lost_commit ≡ statements
unfolding execute begin succeed text_eq matches_head_rest compute_operation_checksum
    compute_actor_fingerprint
lost_answer_commits = refl

failed_start_commits_nothing : committed_by false (fine ∷ (fails timeout ∷ [])) ≡ []
unfolding execute
failed_start_commits_nothing = refl

execute-IsAtomic_example :
    IsAtomic record_statement statements empty_db
      (IsCertain [])
      (execute plain_platform record_statement notes plans (options false) (idle [])).0
      (execute plain_platform record_statement notes plans
        (options false)
        (idle [])).1.store.committed
unfolding statements_of
execute-IsAtomic_example =
    execute-IsAtomic plain_platform record_statement notes (options false) plans statements
      (idle []) refl

execute-dry_run_example :
    (execute plain_platform record_statement notes plans (options true) (idle [])).1.store.committed
    ≡ empty_db
execute-dry_run_example =
    execute-dry_run plain_platform record_statement notes (options true) plans (idle []) refl

execute-clients_example :
    (execute plain_platform record_statement notes plans
      (options false)
      (idle lost_commit)).1.clients
    ≡ 0
execute-clients_example =
    execute-clients plain_platform record_statement notes (options false) plans (idle lost_commit)
