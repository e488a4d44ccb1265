-- ===== src/Transactions/Isolation.antt =====
-- What the caller of withTransaction of src/database/transaction.ts can rely on: the block is committed as
-- a whole or not at all, it runs as its own user, and no user stays with a client of the pool.
use micro_jbase.Base.{
  ◌≡◌, refl, sym, inl, inr, Bool, true, false, Option, none, List, [], ◌∷◌, All, subst, Result, ok,
  err, Text, if◌then◌else◌,
}
use micro_jbase.Errors.{Thrown}
use micro_jbase.Platform.{Platform}
use micro_jbase.Faults.{Fate, fine, fails, lost}
use micro_jbase.Executor.Steps.{IsCertain}
use micro_jbase.Transactions.{
  Database, Block, followed, rollback, borrowed, release, discard, connect_as, connect, rolled_back,
  settled, transaction, with_transaction, pool_closed,
}
use micro_jbase.Transactions.Runs.{
  Ensures, Ensures-weaken, IsNone, Kept, Done, Left, Ended, Stopped, transaction-Ensures, delivered,
}

module _ {D A : Type 0} (platform : Platform) (block : Block D A) (user : Option Text) where
  -- the outcome, and that no idle client has a user
  abbrev pub Won : Database D → A → Database D → Type 0
  Won s a t = Done block user s a t × All IsNone t.idle

  abbrev pub Lost : Database D → Database D → Type 0
  Lost s t = Left block user s t × All IsNone t.idle

  abbrev Cleared : Database D → Unit {0} → Database D → Type 0
  Cleared c done t = Stopped block user c t × (t.identity ≡ none)

  given_up :
      (c : Database D) (e : Thrown) (run : Result Thrown Unit × Database D)
      → All IsNone c.idle
      → Ensures (Cleared c) (Stopped block user c) run
      → Ensures (Won c) (Lost c) (rolled_back platform {A = A} e run)
  unfolding rolled_back Ensures release discard
  given_up c e (ok done, t) idle h = (h.0.1, (h.1, subst (All IsNone) (sym h.0.0) idle))
  given_up c e (err failed, t) idle h = (h.1, subst (All IsNone) (sym h.0) idle)

  recovered :
      (c t : Database D) (e : Thrown)
      → All IsNone c.idle
      → Stopped block user c t
      → Ensures (Won c) (Lost c) (rolled_back platform {A = A} e (rollback t))
  unfolding rollback
  recovered c t e idle h = given_up c e (rollback t) idle (
      delivered (λ u d. record u { working = d; identity = none }) (λ u. u.committed) t (Cleared c)
        (Stopped block user c) (λ rest k. (h, refl)) (λ rest k. h) (λ rest k. h) t.fates λ k. k)

  settled_run :
      (c : Database D) (run : Result Thrown A × Database D)
      → All IsNone c.idle
      → Ensures (Ended block user c) (Stopped block user c) run
      → Ensures (Won c) (Lost c) (settled platform run)
  unfolding settled Ensures release
  settled_run c (ok a, t) idle h = (h.1, (h.2, subst (All IsNone) (sym h.0) idle))
  settled_run c (err e, t) idle h = recovered c t e idle h

  module _ (stays : (u : Database D) → Kept u (block u).1) where
    on_client :
        (c : Database D)
        → c.identity ≡ none
        → All IsNone c.idle
        → Ensures (Won c) (Lost c) (settled platform (transaction platform block user c))
    on_client c clean idle =
        settled_run c (transaction platform block user c) idle
          (transaction-Ensures block user stays c clean platform)

    -- a client of the pool has no user, if no idle client has one
    with_borrowed :
        (s : Database D) (idle : List (Option Text))
        → s.idle ≡ idle
        → All IsNone idle
        → Ensures
            (Won s)
            (Lost s)
            (settled platform (transaction platform block user (borrowed s idle)))
    with_borrowed s [] same clean =
        on_client (record s { identity = none }) refl (subst (All IsNone) (sym same) tt)
    with_borrowed s (first ∷ rest) same clean =
        on_client (record s { identity = first; idle = rest }) clean.0 clean.1

    with_connected :
        (s : Database D) (fates : List Fate)
        → (IsCertain s.fates → IsCertain fates)
        → All IsNone s.idle
        → Ensures (Won s) (Lost s) (
            followed
              (connect_as platform s fates)
              λ got t. settled platform (transaction platform block user t))
    unfolding connect_as Ensures
    with_connected s [] k clean = with_borrowed s s.idle refl clean
    with_connected s (fine ∷ rest) k clean =
        let t : Database D = record s { fates = rest } in
        Ensures-weaken (Won s) (Lost t) (Lost s)
          (settled platform (transaction platform block user (borrowed t s.idle)))
          (with_borrowed t s.idle refl clean)
          λ u h. (
            elim h.0 [
              | inl same ↦ inl same
              | inr late ↦ inr (λ certain. late.0 (k certain).1, late.1)
            ],
            h.1,
          )
    with_connected s (fails e ∷ rest) k clean = (inl refl, clean)
    with_connected s (lost e ∷ rest) k clean = (inl refl, clean)

    gated :
        (s : Database D) (gone : Bool)
        → All IsNone s.idle
        → Ensures (Won s) (Lost s) (
            followed
              (if gone then (err (Thrown.app pool_closed), s) else connect_as platform s s.fates)
              λ got t. settled platform (transaction platform block user t))
    unfolding Ensures
    gated s true clean = (inl refl, clean)
    gated s false clean = with_connected s s.fates (λ k. k) clean

    -- Where no idle client has a user, and the block leaves what is committed and the pool as they are
    -- and brings in no lost answer, as every query in a transaction does: a transaction that returns
    -- has committed what its block left, which ran as the given user on what was committed before, and
    -- returns the block's value; one that throws has committed nothing, unless the answer to a query
    -- was lost, and then nothing or what the block left. Either way no client that goes back to the
    -- pool has a user.
    pub with_transaction-Ensures :
        (s : Database D)
        → All IsNone s.idle
        → Ensures (Won s) (Lost s) (with_transaction platform block user s)
    unfolding with_transaction connect
    with_transaction-Ensures s clean = gated s s.closed clean
