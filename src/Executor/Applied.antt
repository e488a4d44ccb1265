-- ===== src/Executor/Applied.antt =====
-- What the statements and the queries of the log leave to the open transaction, in the executor of
-- src/database/schema-ddl.ts.
use micro_jbase.Base.{
  ◌≡◌, refl, map, List, [], ◌∷◌, Result, ok, err, ok_subst, ◌>>=◌, Returned, Text,
}
use micro_jbase.Errors.{AppError, Thrown}
use micro_jbase.Platform.{Platform}
use micro_jbase.OperationLog.{OperationTable, World, Log}
use micro_jbase.Executor.{
  Store, Session, query, with_schema, run_log, rejoined, run_statements, statement_effect, as_event,
}
use micro_jbase.Executor.Posts.{Post, Post-followed, Post-weaken, IsUndone, query-Post}

-- the statements one after the other, with nothing around them
unfoldable pub run_all :
    {S : Type 0} → (Text → S → Result Thrown S) → List Text → S → Result Thrown S
run_all apply [] schema = ok schema
run_all apply (statement ∷ statements) schema =
    apply statement schema >>= (λ next. run_all apply statements next)

module _ {S : Type 0} (platform : Platform) (apply : Text → S → Result Thrown S) where
  schema_of :
      (store next : Store S) (r : Result Thrown S)
      → with_schema store r ≡ ok next
      → r ≡ ok next.working.schema
  schema_of store next (ok schema) h =
      ok_subst (λ a. ◌≡◌ {A = Result Thrown S} (ok schema) (ok a.working.schema))
        (record store { working = record store.working { schema = schema } }) h refl
  schema_of store next (err e) h = cc

  pub run_statements-run_all :
      (statements : List Text) (s : Session S)
      → Post
          (λ done t. run_all apply statements s.store.working.schema ≡ ok t.store.working.schema)
          (λ t. Unit)
          (run_statements platform apply statements s)
  unfolding Post run_all run_statements
  run_statements-run_all [] s = refl
  run_statements-run_all (statement ∷ statements) s =
      let effect = statement_effect platform apply statement in
      let Runs : Unit → Session S → Type 0 =
        λ done t. apply statement s.store.working.schema ≡ ok t.store.working.schema in
      Post-followed Runs (λ t. Unit)
        (λ done t.
          run_all apply (statement ∷ statements) s.store.working.schema ≡ ok t.store.working.schema)
        (query effect s) (λ done. run_statements platform apply statements)
        (Post-weaken (λ done t. effect s.store ≡ ok t.store) (IsUndone effect s) Runs (λ t. Unit)
          (query effect s) (query-Post effect s)
          (λ done t h. schema_of s.store t.store (apply statement s.store.working.schema) h)
          λ t h. tt)
        λ done t h.
          Post-weaken
            (λ done u. run_all apply statements t.store.working.schema ≡ ok u.store.working.schema)
            (λ u. Unit)
            (λ done u.
              run_all apply (statement ∷ statements) s.store.working.schema
              ≡ ok u.store.working.schema)
            (λ u. Unit) (run_statements platform apply statements t)
            (run_statements-run_all statements t) (λ done u k. rw h k) λ u k. tt

module _ {S A : Type 0} (P : A → OperationTable → Type 0) (s : Session S) where
  -- what holds of the answer of the log and of its table
  abbrev pub IsLogged : A → Session S → Type 0
  IsLogged a t = P a t.store.working.operations × (t.store.working.schema ≡ s.store.working.schema)

  rejoined-Post :
      (run : Result AppError A × World)
      → Returned (λ a. P a run.1.table) run.0
      → Post IsLogged (λ t. Unit) (rejoined s run)
  unfolding Post
  rejoined-Post (ok a, w) h = (h, refl)
  rejoined-Post (err e, w) h = tt

  pub run_log-Post :
      (key : Text) (log : Log A)
      → ((w : World) → Returned (λ a. P a (log w).1.table) (log w).0)
      → Post IsLogged (λ t. Unit) (run_log key log s)
  unfolding run_log
  run_log-Post key log h =
      let w : World = record {
        table = s.store.working.operations;
        schedule = map (as_event key) s.fates;
      } in
      rejoined-Post (log w) (h w)
