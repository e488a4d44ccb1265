-- ===== src/Transactions/Kept.antt =====
-- What is committed keeps a predicate, if every query keeps it: through the pool of src/database/pool.ts
-- and through withTransaction of src/database/transaction.ts.
use micro_jbase.Base.{
  subst, sym, inl, inr, Bool, true, false, Option, none, some, List, [], ◌∷◌, All, Result, ok, err,
  Text, Returned, if◌then◌else◌,
}
use micro_jbase.Errors.{Thrown}
use micro_jbase.Platform.{Platform}
use micro_jbase.Faults.{Fate, fine, fails, lost}
use micro_jbase.Transactions.{
  Database, Query, Block, followed, caught, answered, deliver_as, run_query, pool_query,
  pool_closed, or_translated, with_transaction,
}
use micro_jbase.Transactions.Runs.{Ensures, IsNone, Kept, Ran}
use micro_jbase.Transactions.Isolation.{Won, Lost, with_transaction-Ensures}

module _ {D : Type 0} (I : D → Type 0) where
  -- where a query answers, the data that it leaves satisfies the predicate
  abbrev pub QueryKeeps : {A : Type 0} → Query D A → Type 0
  QueryKeeps q = (d : D) → I d → Returned (λ r. I r.1) (q d)

  -- what a block sees satisfies the predicate, before and after
  abbrev pub BlockKeeps : {A : Type 0} → Block D A → Type 0
  BlockKeeps block = (s : Database D) → I s.working → I (block s).1.working

  -- what is committed satisfies the predicate, and no idle client has a user
  abbrev pub IsSound : Database D → Type 0
  IsSound s = I s.committed × All IsNone s.idle

  module _ {A : Type 0} where
    answered-working :
        (t : Database D) (gone : Option Thrown) (r : Result Thrown (A × D))
        → I t.working
        → Returned (λ a. I a.1) r
        → I (answered (λ d. record t { working = d }) t gone r).1.working
    answered-working t none (ok (a, d)) h k = k
    answered-working t (some e) (ok (a, d)) h k = k
    answered-working t none (err e) h k = h
    answered-working t (some f) (err e) h k = h

    working_kept :
        (q : Query D A) (s : Database D) (fates : List Fate)
        → QueryKeeps q
        → I s.working
        → I (deliver_as (λ t d. record t { working = d }) (λ t. q t.working) s fates).1.working
    working_kept q s [] keeps h =
        answered-working (record s { fates = [] }) none (q s.working) h (keeps s.working h)
    working_kept q s (fine ∷ rest) keeps h =
        answered-working (record s { fates = rest }) none (q s.working) h (keeps s.working h)
    working_kept q s (fails e ∷ rest) keeps h = h
    working_kept q s (lost e ∷ rest) keeps h =
        answered-working (record s { fates = rest }) (some e) (q s.working) h (keeps s.working h)

    pub run_query-BlockKeeps : (q : Query D A) → QueryKeeps q → BlockKeeps (run_query q)
    unfolding run_query
    run_query-BlockKeeps q keeps s h = working_kept q s s.fates keeps h

    pub followed-working :
        {B : Type 0} (run : Result Thrown A × Database D) (next : A → Block D B)
        → I run.1.working
        → ((a : A) → BlockKeeps (next a))
        → I (followed run next).1.working
    followed-working (ok a, t) next h k = k a t h
    followed-working (err e, t) next h k = h

    pub caught-working :
        (run : Result Thrown A × Database D) (handler : Thrown → Block D A)
        → I run.1.working
        → ((e : Thrown) → BlockKeeps (handler e))
        → I (caught run handler).1.working
    caught-working (ok a, t) handler h k = h
    caught-working (err e, t) handler h k = k e t h

    answered-IsSound :
        (t : Database D) (gone : Option Thrown) (r : Result Thrown (A × D))
        → IsSound t
        → Returned (λ a. I a.1) r
        → IsSound (answered (λ d. record t { committed = d }) t gone r).1
    answered-IsSound t none (ok (a, d)) h k = (k, h.1)
    answered-IsSound t (some e) (ok (a, d)) h k = (k, h.1)
    answered-IsSound t none (err e) h k = h
    answered-IsSound t (some f) (err e) h k = h

    committed_kept :
        (q : Query D A) (s : Database D) (fates : List Fate)
        → QueryKeeps q
        → IsSound s
        → IsSound (deliver_as (λ t d. record t { committed = d }) (λ t. q t.committed) s fates).1
    committed_kept q s [] keeps h =
        answered-IsSound (record s { fates = [] }) none (q s.committed) h (keeps s.committed h.0)
    committed_kept q s (fine ∷ rest) keeps h =
        answered-IsSound (record s { fates = rest }) none (q s.committed) h (keeps s.committed h.0)
    committed_kept q s (fails e ∷ rest) keeps h = h
    committed_kept q s (lost e ∷ rest) keeps h =
        answered-IsSound (record s { fates = rest }) (some e) (q s.committed) h
          (keeps s.committed h.0)

    module _ (platform : Platform) where
      translated-IsSound :
          (run : Result Thrown A × Database D)
          → IsSound run.1
          → IsSound (or_translated platform run).1
      translated-IsSound (ok a, t) h = h
      translated-IsSound (err e, t) h = h

      gated :
          (gone : Bool) (s : Database D) (run : Result Thrown A × Database D)
          → IsSound s
          → IsSound run.1
          → IsSound
              (if gone then (err (Thrown.app pool_closed), s) else or_translated platform run).1
      gated true s run h k = h
      gated false s run h k = translated-IsSound run k

      pub pool_query-IsSound :
          (q : Query D A) (s : Database D)
          → QueryKeeps q
          → IsSound s
          → IsSound (pool_query platform q s).1
      unfolding pool_query
      pool_query-IsSound q s keeps h =
          gated s.closed s
            (deliver_as (λ t d. record t { committed = d }) (λ t. q t.committed) s s.fates) h
            (committed_kept q s s.fates keeps h)

      module _ (block : Block D A) (user : Option Text) (keeps : BlockKeeps block)
          (stays : (u : Database D) → Kept u (block u).1) where
        ran-kept : (before after : D) (a : A) → I before → Ran block user before a after → I after
        ran-kept before after a h (u, seen, known, answer, left) =
            subst I left (keeps u (subst I (sym seen) h))

        outcome-IsSound :
            (s : Database D) (run : Result Thrown A × Database D)
            → I s.committed
            → Ensures (Won platform block user s) (Lost platform block user s) run
            → IsSound run.1
        unfolding Ensures
        outcome-IsSound s (ok a, t) h k = (ran-kept s.committed t.committed a h k.0, k.1)
        outcome-IsSound s (err e, t) h k = (
          elim k.0 [
            | inl same ↦ subst I (sym same) h
            | inr late ↦ ran-kept s.committed t.committed late.1.0 h late.1.1
          ],
          k.1,
        )

        pub with_transaction-IsSound :
            (s : Database D) → IsSound s → IsSound (with_transaction platform block user s).1
        with_transaction-IsSound s h =
            outcome-IsSound s (with_transaction platform block user s) h.0
              (with_transaction-Ensures platform block user stays s h.1)
