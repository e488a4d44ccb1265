-- ===== src/Executor/Executions.antt =====
-- `execute` of src/database/schema-ddl.ts as a whole: one transaction, on a client that is given back.
use micro_jbase.Base.{
  arith, ◌≡◌, refl, subst, ◌∙◌, ap, inl, inr, suc, true, false, none, List, [], ◌∷◌, Result, ok,
  err, Text,
}
use micro_jbase.Errors.{Thrown}
use micro_jbase.Platform.{Platform}
use micro_jbase.Executor.{
  Db, Store, Fate, fine, fails, lost, Session, Exec, followed, always, yields, connect, connected,
  release, rehearse, execute_dry_run, execute_for_real, ExecuteOptions, ExecuteOutcome, outcome_of,
  transact,
}
use micro_jbase.Executor.Steps.{IsCertain, Linked}
use micro_jbase.Executor.Posts.{Post}
use micro_jbase.Executor.Phases.{rehearse-Linked, transact-Linked}
use micro_jbase.Executor.Atomic.{SameCommitted, IsDone, IsLeft, IsAtomic, transact-Post}

abbrev with_client : {S A : Type 0} → Session S → List Fate → Exec S A → Result Thrown A × Session S
with_client s fates body = followed (connected s fates) (λ got t. always (body t) release)

-- what a body does on a client, the whole run does, where only the store is told
module _ {S A : Type 0} (R : Result Thrown A → Db S → Type 0) (s : Session S) (body : Exec S A)
    (refused : (e : Thrown) → R (err e) s.store.committed)
    (works : (t : Session S)
      → t.store ≡ s.store
      → (IsCertain s.fates → IsCertain t.fates)
      → R (body t).0 (body t).1.store.committed) where
  released :
      (run : Result Thrown A × Session S)
      → R run.0 run.1.store.committed
      → R (always run release).0 (always run release).1.store.committed
  unfolding release
  released (r, t) h = h

  on_client :
      (fates : List Fate)
      → (IsCertain s.fates → IsCertain fates)
      → R (with_client s fates body).0 (with_client s fates body).1.store.committed
  on_client [] k =
      let t : Session S = record s { clients = suc s.clients } in
      released (body t) (works t refl λ known. known)
  on_client (fine ∷ rest) k =
      let t : Session S = record s { fates = rest; clients = suc s.clients } in
      released (body t) (works t refl λ known. (k known).1)
  on_client (fails e ∷ rest) k = refused e
  on_client (lost e ∷ rest) k = refused e

  with_client-Atomic :
      R (with_client s s.fates body).0 (with_client s s.fates body).1.store.committed
  with_client-Atomic = on_client s.fates λ known. known

-- a client that was checked out is given back
module _ {S A : Type 0} (s : Session S) (body : Exec S A)
    (works : (t : Session S) → (body t).1.clients ≡ t.clients) where
  given_back :
      (run : Result Thrown A × Session S)
      → run.1.clients ≡ suc s.clients
      → (always run release).1.clients ≡ s.clients
  unfolding release
  given_back (r, t) h = omega arith

  balanced : (fates : List Fate) → (with_client s fates body).1.clients ≡ s.clients
  balanced [] =
      let t : Session S = record s { clients = suc s.clients } in given_back (body t) (works t)
  balanced (fine ∷ rest) =
      let t : Session S = record s { fates = rest; clients = suc s.clients } in
      given_back (body t) (works t)
  balanced (fails e ∷ rest) = refl
  balanced (lost e ∷ rest) = refl

module _ {S : Type 0} (platform : Platform) (apply : Text → S → Result Thrown S) where
  Post-IsAtomic :
      (statements : List Text) (before : Db S) (certain sure : Type 0)
      (run : Result Thrown ExecuteOutcome × Session S)
      → (sure → certain)
      → Post
          (λ o t. IsDone apply statements before certain o t.store.committed)
          (λ t. IsLeft apply statements before certain t.store.committed)
          run
      → IsAtomic apply statements before sure run.0 run.1.store.committed
  unfolding Post IsAtomic
  Post-IsAtomic statements before certain sure (ok o, t) k h = h
  Post-IsAtomic statements before certain sure (err e, t) k h = elim h [
    | inl same ↦ inl same
    | inr late ↦ inr (late.0, λ known. late.1 (k known))
  ]

  pub execute_for_real-IsAtomic :
      (secret : Text) (options : ExecuteOptions) (statements : List Text) (s : Session S)
      → IsAtomic apply statements s.store.committed
          (IsCertain s.fates)
          (execute_for_real platform apply secret options statements s).0
          (execute_for_real platform apply secret options statements s).1.store.committed
  unfolding execute_for_real connect IsAtomic
  execute_for_real-IsAtomic secret options statements s =
      with_client-Atomic (IsAtomic apply statements s.store.committed (IsCertain s.fates)) s
        (transact platform apply secret options statements) (λ e. inl refl)
        λ t same k.
          subst
            (λ (store : Store S).
              IsAtomic apply statements store.committed (IsCertain s.fates)
                (transact platform apply secret options statements t).0
                (transact platform apply secret options statements t).1.store.committed)
            same
            (Post-IsAtomic statements t.store.committed (IsCertain t.fates) (IsCertain s.fates)
              (transact platform apply secret options statements t) k
              (transact-Post platform apply options statements t secret))

  pub execute_for_real-clients :
      (secret : Text) (options : ExecuteOptions) (statements : List Text) (s : Session S)
      → (execute_for_real platform apply secret options statements s).1.clients ≡ s.clients
  unfolding execute_for_real connect Linked
  execute_for_real-clients secret options statements s =
      balanced s (transact platform apply secret options statements)
        (λ t.
          (transact-Linked platform apply (λ a b. Unit) (λ a. tt) (λ a b c h k. tt) (λ a db. tt)
            secret options statements (λ a. tt) t).1)
        s.fates

  module _ (statements : List Text) where
    abbrev rehearsed : Result Thrown Unit × Session S → Result Thrown ExecuteOutcome × Session S
    rehearsed run = followed (always run release) λ done. yields (outcome_of true false none)

    -- the answer of a dry run says that it was one
    abbrev pub IsDry : Result Thrown ExecuteOutcome → Type 0
    IsDry (ok outcome) = outcome ≡ outcome_of true false none
    IsDry (err e) = Unit

    abbrev pub IsHarmless : Session S → Result Thrown ExecuteOutcome × Session S → Type 0
    IsHarmless s run =
        (run.1.store.committed ≡ s.store.committed) × (run.1.clients ≡ s.clients) × IsDry run.0

    rehearsed-IsHarmless :
        (s : Session S) (run : Result Thrown Unit × Session S)
        → run.1.store.committed ≡ s.store.committed
        → run.1.clients ≡ suc s.clients
        → IsHarmless s (rehearsed run)
    unfolding release
    rehearsed-IsHarmless s (ok u, t) same clients = (same, omega arith, refl)
    rehearsed-IsHarmless s (err e, t) same clients = (same, omega arith, tt)

    -- with the client that it got
    got-IsHarmless :
        (s t : Session S)
        → t.store ≡ s.store
        → t.clients ≡ suc s.clients
        → IsHarmless s (rehearsed (rehearse platform apply statements t))
    unfolding Linked
    got-IsHarmless s t same clients =
        let kept =
          rehearse-Linked platform apply SameCommitted (λ a. refl) (λ a b c h k. k ∙ h)
            (λ a db. refl) statements t in
        rehearsed-IsHarmless s (rehearse platform apply statements t)
          (kept.0 ∙ ap (λ a. a.committed) same) (kept.1 ∙ clients)

    on_fates-IsHarmless :
        (s : Session S) (fates : List Fate)
        → IsHarmless s
            (followed (connected s fates) λ got t. rehearsed (rehearse platform apply statements t))
    on_fates-IsHarmless s [] = got-IsHarmless s (record s { clients = suc s.clients }) refl refl
    on_fates-IsHarmless s (fine ∷ rest) =
        got-IsHarmless s (record s { fates = rest; clients = suc s.clients }) refl refl
    on_fates-IsHarmless s (fails e ∷ rest) = (refl, refl, tt)
    on_fates-IsHarmless s (lost e ∷ rest) = (refl, refl, tt)

    pub execute_dry_run-IsHarmless :
        (s : Session S) → IsHarmless s (execute_dry_run platform apply statements s)
    unfolding execute_dry_run connect
    execute_dry_run-IsHarmless s = on_fates-IsHarmless s s.fates
