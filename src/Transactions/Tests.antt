-- ===== src/Transactions/Tests.antt =====
-- Transactions over a counter: one that commits, one whose block throws, one whose commit is not answered.
use micro_jbase.Base.{◌≡◌, refl, ℕ, ◌+◌, false, some, none, List, [], ◌∷◌, ok}
use micro_jbase.Errors.{Thrown}
use micro_jbase.Fixtures.{plain_platform, notes}
use micro_jbase.Faults.{Fate, fine, fails, lost}
use micro_jbase.Transactions.{Database, Query, run_query, with_transaction}
use micro_jbase.Transactions.Runs.{Ensures, run_query-Kept}
use micro_jbase.Transactions.Isolation.{Won, Lost, with_transaction-Ensures}

abbrev count : Query ℕ ℕ
count n = ok (n, n + 1)

abbrev counter : List Fate → Database ℕ
counter fates = record {
  committed = 7;
  working = 0;
  identity = none;
  idle = none ∷ [];
  closed = false;
  fates = fates;
}

abbrev counted : List Fate → ℕ
counted fates =
    (with_transaction plain_platform (run_query count) (some notes) (counter fates)).1.committed

commits : counted [] ≡ 8
unfolding with_transaction run_query
commits = refl

-- connect, BEGIN and the identity are fine, and the query fails
keeps_on_error : counted (fine ∷ (fine ∷ (fine ∷ (fails (Thrown.primitive notes) ∷ [])))) ≡ 7
unfolding with_transaction run_query
keeps_on_error = refl

unknown_commit :
    counted (fine ∷ (fine ∷ (fine ∷ (fine ∷ (lost (Thrown.primitive notes) ∷ []))))) ≡ 8
unfolding with_transaction run_query
unknown_commit = refl

with_transaction-Ensures_example :
    Ensures
      (Won plain_platform (run_query count) (some notes) (counter []))
      (Lost plain_platform (run_query count) (some notes) (counter []))
      (with_transaction plain_platform (run_query count) (some notes) (counter []))
with_transaction-Ensures_example =
    with_transaction-Ensures plain_platform (run_query count) (some notes) (run_query-Kept count)
      (counter []) (refl, tt)
