-- ===== src/Transactions.antt =====
-- src/database/transaction.ts, and the pool of src/database/pool.ts that it takes its clients from.
-- The database is explicit state of any type: what is committed, and what the open transaction sees.
-- The setting `microjbase.user_id` belongs to a client; the pool is the list of its idle clients, by
-- that setting. An aborted transaction is not told apart: no block of the program goes on after an error.
use micro_jbase.Base.{
  Bool, true, false, Option, none, some, List, [], ◌∷◌, Result, ok, err, Text, lit, if◌then◌else◌,
}
use micro_jbase.Errors.{AppError, internal_error, app_error, Thrown}
use micro_jbase.Platform.{Platform}
use micro_jbase.Faults.{Fate, fine, fails, lost, translate_pool_error}
pub mod Runs
pub mod Isolation
pub mod Kept
mod Tests

pub record Database (D : Type 0) : Type 0 where
  pub committed : D
  pub working : D
  pub identity : Option Text  -- of the client that is in use
  pub idle : List (Option Text)  -- of the clients in the pool
  pub closed : Bool
  pub fates : List Fate

-- what a query answers and does to the data, or the error of the database
abbrev pub Query : Type 0 → Type 0 → Type 0
Query D A = D → Result Thrown (A × D)

abbrev pub Block : Type 0 → Type 0 → Type 0
Block D A = Database D → Result Thrown A × Database D

abbrev pub followed :
    {D A B : Type 0} → Result Thrown A × Database D → (A → Block D B) → Result Thrown B × Database D
followed (ok a, s) next = next a s
followed (err e, s) next = (err e, s)

-- try { ... } catch (error) { ... }
abbrev pub caught :
    {D A : Type 0}
    → Result Thrown A × Database D
    → (Thrown → Block D A)
    → Result Thrown A × Database D
caught (ok a, s) handler = (ok a, s)
caught (err e, s) handler = handler e s

-- the answer of a query and the data that it leaves; its answer may be lost
abbrev pub answered :
    {D A : Type 0}
    → (D → Database D)
    → Database D
    → Option Thrown
    → Result Thrown (A × D)
    → Result Thrown A × Database D
answered put s none (ok (a, d)) = (ok a, put d)
answered put s (some e) (ok (a, d)) = (err e, put d)
answered put s _ (err e) = (err e, s)

abbrev pub deliver_as :
    {D A : Type 0}
    → (Database D → D → Database D)
    → (Database D → Result Thrown (A × D))
    → Database D
    → List Fate
    → Result Thrown A × Database D
deliver_as put query s [] = let t = record s { fates = [] } in answered (put t) t none (query s)
deliver_as put query s (fine ∷ rest) =
    let t = record s { fates = rest } in answered (put t) t none (query s)
deliver_as put query s (fails e ∷ rest) = (err e, record s { fates = rest })
deliver_as put query s (lost e ∷ rest) =
    let t = record s { fates = rest } in answered (put t) t (some e) (query s)

-- client.query(...) in a transaction
unfoldable pub run_query : {D A : Type 0} → Query D A → Block D A
run_query query s = deliver_as (λ t d. record t { working = d }) (λ t. query t.working) s s.fates

-- BEGIN: the transaction sees what is committed
unfoldable pub begin_transaction : {D : Type 0} → Block D Unit
begin_transaction s =
    deliver_as (λ t d. record t { working = d }) (λ t. ok (tt, t.committed)) s s.fates

-- COMMIT: a setting that is local to the transaction ends with it
unfoldable pub commit : {D : Type 0} → Block D Unit
commit s =
    deliver_as (λ t d. record t { committed = d; identity = none }) (λ t. ok (tt, t.working)) s
      s.fates

-- ROLLBACK
unfoldable pub rollback : {D : Type 0} → Block D Unit
rollback s =
    deliver_as (λ t d. record t { working = d; identity = none }) (λ t. ok (tt, t.committed)) s
      s.fates

-- SELECT set_config('microjbase.user_id', $1, true), if options.userId is given
unfoldable pub set_identity : {D : Type 0} → Option Text → Block D Unit
set_identity none s = (ok tt, s)
set_identity (some user) s =
    deliver_as (λ t d. record t { identity = some user }) (λ t. ok (tt, t.working)) s s.fates

-- a client of the driver's pool, an idle one or a new one
abbrev pub borrowed : {D : Type 0} → Database D → List (Option Text) → Database D
borrowed s [] = record s { identity = none }
borrowed s (client ∷ rest) = record s { identity = client; idle = rest }

-- client.release()
unfoldable pub release : {D : Type 0} → Database D → Database D
release s = record s { idle = s.identity ∷ s.idle; identity = none }

-- client.release(error): the client leaves the pool
unfoldable pub discard : {D : Type 0} → Database D → Database D
discard s = record s { identity = none }

abbrev pub pool_closed : AppError
pool_closed = app_error internal_error (lit "Database pool has already been closed") 500

-- BoundedPool.close
unfoldable pub close : {D : Type 0} → Database D → Database D
close s = record s { closed = true }

abbrev pub translated : Platform → Thrown → Thrown
translated platform e = Thrown.app (translate_pool_error platform e)

module _ {D : Type 0} (platform : Platform) where
  unfoldable pub connect_as : Database D → List Fate → Result Thrown Unit × Database D
  unfolding translate_pool_error
  connect_as s [] = (ok tt, borrowed s s.idle)
  connect_as s (fine ∷ rest) = (ok tt, borrowed (record s { fates = rest }) s.idle)
  connect_as s (fails e ∷ rest) = (err (translated platform e), record s { fates = rest })
  connect_as s (lost e ∷ rest) = (err (translated platform e), record s { fates = rest })

  -- BoundedPool.connect
  unfoldable pub connect : Block D Unit
  unfolding connect_as
  connect s = if s.closed then (err (Thrown.app pool_closed), s) else connect_as s s.fates

  abbrev pub or_translated :
      {A : Type 0} → Result Thrown A × Database D → Result Thrown A × Database D
  or_translated (ok a, s) = (ok a, s)
  or_translated (err e, s) = (err (translated platform e), s)

  -- BoundedPool.query: one statement, which commits by itself
  unfoldable pub pool_query : {A : Type 0} → Query D A → Block D A
  unfolding translate_pool_error
  pool_query query s =
      if s.closed
      then (err (Thrown.app pool_closed), s)
      else or_translated
          (deliver_as (λ t d. record t { committed = d }) (λ t. query t.committed) s s.fates)

  -- the client is given back, unless the rollback failed too
  unfoldable pub rolled_back :
      {A : Type 0} → Thrown → Result Thrown Unit × Database D → Result Thrown A × Database D
  unfolding release discard translate_pool_error
  rolled_back e (ok done, s) = (err (translated platform e), release s)
  rolled_back e (err failed, s) = (err (translated platform failed), discard s)

  unfoldable pub settled :
      {A : Type 0} → Result Thrown A × Database D → Result Thrown A × Database D
  unfolding rolled_back rollback release
  settled (ok a, s) = (ok a, release s)
  settled (err e, s) = rolled_back e (rollback s)

  -- BEGIN, the identity, the block and COMMIT
  unfoldable pub transaction : {A : Type 0} → Block D A → Option Text → Block D A
  unfolding begin_transaction set_identity commit
  transaction block user s = followed (begin_transaction s) λ begun s2.
      followed (set_identity user s2)
        λ known s3. followed (block s3) λ a s4. followed (commit s4) λ done s5. (ok a, s5)

  unfoldable pub with_transaction : {A : Type 0} → Block D A → Option Text → Block D A
  unfolding connect settled transaction
  with_transaction block user s = followed (connect s) λ got s2. settled (transaction block user s2)
