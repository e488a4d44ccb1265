-- ===== src/Executor/Atomic.antt =====
-- An execution of src/database/schema-ddl.ts is one transaction: its statements and the record of its
-- success are committed together, or nothing is.
use micro_jbase.Base.{
  ◌≡◌, refl, sym, subst, ◌∙◌, ap, ◌⊎◌, inl, inr, true, false, ◌||◌, some, List, Result, ok, err,
  ok_subst, Text,
}
use mathlib.Core.List.{Memᴰ}
use micro_jbase.Errors.{Thrown}
use micro_jbase.Platform.{Platform}
use micro_jbase.Faults.{translate_ddl_error, translate_concurrent_wait_error, in_progress_conflict}
use micro_jbase.OperationLog.{
  OperationRecord, OperationTable, BeginOutcome, accepted, replay, in_progress, begin, succeed,
}
use micro_jbase.OperationLog.Recorded.{succeed-IsRecorded}
use micro_jbase.Executor.{
  Db, Store, Session, Exec, followed, yields, raises, query, reset, publish, run_log,
  run_statements, secure, begin_operation, begin_input, ExecuteOptions, ExecuteOutcome,
  statement_count, apply_accepted, conclude, record_success, outcome_of, settle, transact,
  rollback_quietly,
}
use micro_jbase.Executor.Steps.{IsCertain, Linked, Linked-trans, reset-Linked, run_log-Linked}
use micro_jbase.Executor.Posts.{
  Post, Post-followed, Post-caught, Post-weaken, Post-with, Post-always, IsUndone, query-Post,
  after_rollback,
}
use micro_jbase.Executor.Applied.{run_all, IsLogged, run_log-Post, run_statements-run_all}
use micro_jbase.Executor.Phases.{run_statements-Linked, claim-Linked}

abbrev pub SameCommitted : {S : Type 0} → Store S → Store S → Type 0
SameCommitted a b = b.committed ≡ a.committed

-- the schema of the open transaction stays too
abbrev KeptSchema : {S : Type 0} → Store S → Store S → Type 0
KeptSchema a b = (b.committed ≡ a.committed) × (b.working.schema ≡ a.working.schema)

-- a quiet rollback keeps what is committed
after_rollback-Post :
    {S A : Type 0} (R : A → Session S → Type 0) (E : Session S → Type 0) (r : Result Thrown A)
    (s : Session S)
    → ((t : Session S) → Linked SameCommitted s t → Post R E (r, t))
    → Post R E (followed (rollback_quietly s) (λ done t. (r, t)))
after_rollback-Post R E r s h = subst (Post R E) (sym (after_rollback r s)) (
    h (query reset s).1
      (reset-Linked SameCommitted (λ a. refl) (λ a b c h k. k ∙ h) (λ a db. refl) s))

-- the statements, what was committed before, and that no answer is lost
module _ {S : Type 0} (apply : Text → S → Result Thrown S) (statements : List Text) (before : Db S)
    (certain : Type 0) where
  -- The statements were applied to the schema that was committed.
  abbrev pub IsApplied : Db S → Type 0
  IsApplied after = run_all apply statements before.schema ≡ ok after.schema

  -- A replay or a dry run changes nothing. Otherwise the statements are applied, and the record of
  -- the outcome is in the table.
  abbrev pub IsDone : ExecuteOutcome → Db S → Type 0
  IsDone outcome after =
      (((outcome.is_dry_run || outcome.is_replayed) ≡ true) × (after ≡ before))
      ⊎ (((outcome.is_dry_run || outcome.is_replayed) ≡ false)
          × IsApplied after
          × ((operation : OperationRecord) × (outcome.operation ≡ some operation)
              × Memᴰ operation after.operations.rows))

  -- An error changes nothing, unless an answer was lost.
  abbrev pub IsLeft : Db S → Type 0
  IsLeft after = (after ≡ before) ⊎ (IsApplied after × (¬ certain))

  -- What the caller learns, and what is then committed.
  unfoldable pub IsAtomic : Result Thrown ExecuteOutcome → Db S → Type 0
  IsAtomic (ok outcome) after = IsDone outcome after
  IsAtomic (err e) after = IsLeft after

module _ {S : Type 0} (platform : Platform) (apply : Text → S → Result Thrown S)
    (options : ExecuteOptions) (statements : List Text) (start : Session S) where
  -- nothing was committed since the start
  abbrev Since : Session S → Type 0
  Since t = Linked SameCommitted start t

  Since-trans : (t u : Session S) → Since t → Linked SameCommitted t u → Since u
  Since-trans = Linked-trans SameCommitted (λ a. refl) (λ a b c h k. k ∙ h) start

  abbrev Done : ExecuteOutcome → Session S → Type 0
  Done outcome t =
      IsDone apply statements start.store.committed (IsCertain start.fates) outcome
        t.store.committed

  abbrev Left : Session S → Type 0
  Left t = IsLeft apply statements start.store.committed (IsCertain start.fates) t.store.committed

  Since-Left : (t : Session S) → Since t → Left t
  unfolding Linked
  Since-Left t h = inl h.0

  -- The schema of the open transaction comes from the statements.
  abbrev Reached : Db S → Type 0
  Reached db = run_all apply statements start.store.committed.schema ≡ ok db.schema

  conclude-Post :
      (finished : OperationRecord) (s : Session S)
      → Since s
      → Reached s.store.working
      → Memᴰ finished s.store.working.operations.rows
      → Post Done Left (conclude platform apply finished s)
  unfolding conclude Post Linked publish
  conclude-Post finished s since reached recorded =
      let published : Store S = record s.store { committed = s.store.working } in
      Post-followed (λ done t. publish s.store ≡ ok t.store) Left Done (query publish s)
        (λ committed. yields (outcome_of false false (some finished)))
        (Post-weaken (λ done t. publish s.store ≡ ok t.store) (IsUndone publish s)
          (λ done t. publish s.store ≡ ok t.store) Left (query publish s) (query-Post publish s)
          (λ done t e. e)
          λ t undone. elim undone [
            | inl same ↦ inl (ap (λ a. a.committed) same ∙ since.0)
            | inr late ↦ inr (
              ok_subst (λ a. Reached a.committed) published late.0 reached,
              λ certain. late.1 (since.2 certain),
            )
          ])
        λ done t e. inr (
          refl,
          ok_subst (λ a. Reached a.committed) published e reached,
          (
            finished,
            refl,
            ok_subst (λ a. Memᴰ finished a.committed.operations.rows) published e recorded,
          ),
        )

  record_success-Post :
      (operation : OperationRecord) (s : Session S)
      → Since s
      → Reached s.store.working
      → Post Done Left (record_success platform apply options statements operation s)
  unfolding record_success
  record_success-Post operation s since reached =
      let log = succeed platform operation.id (statement_count platform apply statements) in
      let InTable : OperationRecord → OperationTable → Type 0 = λ row t. Memᴰ row t.rows in
      let run = run_log options.idempotency_key log s in
      Post-followed (λ row t. IsLogged InTable s row t × Since t) Left Done run
        (conclude platform apply)
        (Post-weaken (λ row t. IsLogged InTable s row t × Since t) (λ t. Unit × Since t)
          (λ row t. IsLogged InTable s row t × Since t) Left run
          (Post-with (IsLogged InTable s) (λ t. Unit) Since run
            (Since-trans s run.1 since (
              run_log-Linked SameCommitted (λ a. refl) (λ a b c h k. k ∙ h) options.idempotency_key
                log s λ t. refl))
            (run_log-Post InTable s options.idempotency_key log (
              succeed-IsRecorded platform operation.id
                (statement_count platform apply statements))))
          (λ row t h. h) λ t h. Since-Left t h.1)
        λ row t h. conclude-Post row t h.1 (reached ∙ ap ok (sym h.0.1)) h.0.0

  -- the session where the statements start
  abbrev Ready : Session S → Type 0
  Ready t = Since t × (t.store.working.schema ≡ start.store.committed.schema)

  apply_accepted-Post :
      (operation : OperationRecord) (s : Session S)
      → Ready s
      → Post Done Left (apply_accepted platform apply options statements operation s)
  unfolding apply_accepted
  apply_accepted-Post operation s ready =
      let Ran : Unit → Session S → Type 0 =
        λ done t. run_all apply statements s.store.working.schema ≡ ok t.store.working.schema in
      let run = run_statements platform apply statements s in
      Post-followed (λ done t. Ran done t × Since t) Left Done run
        (λ applied. record_success platform apply options statements operation)
        (Post-weaken (λ done t. Ran done t × Since t) (λ t. Unit × Since t)
          (λ done t. Ran done t × Since t) Left run
          (Post-with Ran (λ t. Unit) Since run
            (Since-trans s run.1 ready.0 (
              run_statements-Linked platform apply SameCommitted (λ a. refl) (λ a b c h k. k ∙ h)
                (λ a db. refl) statements s))
            (run_statements-run_all platform apply statements s))
          (λ done t h. h) λ t h. Since-Left t h.1)
        λ done t h.
          record_success-Post operation t h.1 (ap (run_all apply statements) (sym ready.1) ∙ h.0)

  rolled_back :
      {A : Type 0} (R : A → Session S → Type 0) (e : Thrown) (s : Session S)
      → Left s
      → Post R Left (followed {A = Unit} {B = A} (rollback_quietly s) (λ done. raises e))
  unfolding Post Linked
  rolled_back {A} R e s left = after_rollback-Post R Left (err e) s λ t kept.
      subst (λ db. IsLeft apply statements start.store.committed (IsCertain start.fates) db)
        (sym kept.0) left

  settle-Post :
      (begun : BeginOutcome) (s : Session S)
      → Ready s
      → Post Done Left (settle platform apply options statements begun s)
  unfolding settle Post Linked
  settle-Post (accepted operation retry) s ready =
      Post-caught Done Left Left (apply_accepted platform apply options statements operation s)
        (λ e t. followed (rollback_quietly t) λ done. raises (Thrown.app (translate_ddl_error e)))
        (apply_accepted-Post operation s ready)
        λ e. rolled_back Done (Thrown.app (translate_ddl_error e))
  settle-Post (replay operation) s ready =
      after_rollback-Post Done Left (ok (outcome_of false true (some operation))) s
        λ t kept. replayed t (Since-trans s t ready.0 kept)
    where
      replayed :
          (t : Session S)
          → Since t
          → Post Done Left (ok (outcome_of false true (some operation)), t)
      replayed t since = inl (refl, since.0)
  settle-Post (in_progress operation) s ready =
      rolled_back Done (Thrown.app (in_progress_conflict options.idempotency_key)) s
        (Since-Left s ready.0)

  Ready-trans : (s t : Session S) → Ready s → Linked KeptSchema s t → Ready t
  unfolding Linked
  Ready-trans s t ready kept =
      (Since-trans s t ready.0 (kept.0.0, kept.1, kept.2), kept.0.1 ∙ ready.1)

  begin_operation-Post :
      (secret : Text) (s : Session S)
      → Ready s
      → Post (λ begun. Ready) Since (begin_operation platform apply secret options statements s)
  unfolding begin_operation Post
  begin_operation-Post secret s ready =
      let run = followed (secure platform apply s) λ secured.
        run_log options.idempotency_key (begin platform secret (begin_input options statements)) in
      let kept =
        claim-Linked platform apply KeptSchema (λ a. (refl, refl))
          (λ a b c h k. (k.0 ∙ h.0, k.1 ∙ h.1)) (λ a t. (refl, refl)) secret options statements s in
      Post-caught (λ begun. Ready) Ready Since run
        (λ e t.
          followed (rollback_quietly t)
            λ done. raises (Thrown.app (translate_concurrent_wait_error e options.idempotency_key)))
        (Post-always Ready run (Ready-trans s run.1 ready kept))
        λ e t now.
          after_rollback-Post (λ begun. Ready) Since
            (err (Thrown.app (translate_concurrent_wait_error e options.idempotency_key))) t
            λ u. Since-trans t u now.0

  pub transact-Post :
      (secret : Text) → Post Done Left (transact platform apply secret options statements start)
  unfolding transact reset
  transact-Post secret =
      let body : Unit → Exec S ExecuteOutcome = λ begun t.
        followed (begin_operation platform apply secret options statements t)
          (settle platform apply options statements) in
      let run = query reset start in
      Post-followed (λ done t. (reset start.store ≡ ok t.store) × Since t) Left Done run body
        (Post-weaken (λ done t. (reset start.store ≡ ok t.store) × Since t)
          (λ t. IsUndone reset start t × Since t)
          (λ done t. (reset start.store ≡ ok t.store) × Since t) Left run
          (Post-with (λ done t. reset start.store ≡ ok t.store) (IsUndone reset start) Since run
            (reset-Linked SameCommitted (λ a. refl) (λ a b c h k. k ∙ h) (λ a db. refl) start)
            (query-Post reset start))
          (λ done t h. h) λ t h. Since-Left t h.1)
        λ done t h.
          Post-followed (λ begun. Ready) Left Done
            (begin_operation platform apply secret options statements t)
            (settle platform apply options statements)
            (Post-weaken (λ begun. Ready) Since (λ begun. Ready) Left
              (begin_operation platform apply secret options statements t)
              (begin_operation-Post secret t (
                h.1,
                ok_subst (λ a. a.working.schema ≡ start.store.committed.schema)
                    (record start.store { working = start.store.committed }) h.0 refl,
              ))
              (λ begun u k. k) Since-Left)
            settle-Post
