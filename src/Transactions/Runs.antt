-- ===== src/Transactions/Runs.antt =====
-- What withTransaction of src/database/transaction.ts leaves committed, and which clients it leaves in
-- the pool, step by step.
use micro_jbase.Base.{
  ◌≡◌, refl, sym, ◌∙◌, ◌⊎◌, inl, inr, Option, none, some, List, [], ◌∷◌, Result, ok, err, Text,
}
use micro_jbase.Errors.{Thrown}
use micro_jbase.Platform.{Platform}
use micro_jbase.Faults.{Fate, fine, fails, lost}
use micro_jbase.Executor.Steps.{IsCertain}
use micro_jbase.Transactions.{
  Database, Block, Query, followed, caught, answered, deliver_as, run_query, begin_transaction,
  commit, set_identity, transaction,
}

-- one condition for a value that is returned, one for an error
unfoldable pub Ensures :
    {D A : Type 0}
    → (A → Database D → Type 0)
    → (Database D → Type 0)
    → Result Thrown A × Database D
    → Type 0
Ensures P E (ok a, t) = P a t
Ensures P E (err e, t) = E t

abbrev pub IsNone : Option Text → Type 0
IsNone o = o ≡ none

module _ {D A B : Type 0} (P : A → Database D → Type 0) (E : Database D → Type 0) where
  pub Ensures-followed :
      (Q : B → Database D → Type 0) (run : Result Thrown A × Database D) (next : A → Block D B)
      → Ensures P E run
      → ((a : A) (t : Database D) → P a t → Ensures Q E (next a t))
      → Ensures Q E (followed run next)
  unfolding Ensures
  Ensures-followed Q (ok a, t) next h k = k a t h
  Ensures-followed Q (err e, t) next h k = h

pub Ensures-weaken :
    {D A : Type 0} (P : A → Database D → Type 0) (E F : Database D → Type 0)
    (run : Result Thrown A × Database D)
    → Ensures P E run
    → ((t : Database D) → E t → F t)
    → Ensures P F run
unfolding Ensures
Ensures-weaken P E F (ok a, t) h k = h
Ensures-weaken P E F (err e, t) h k = k t h

-- a query that the database always carries out
module _ {D : Type 0} (put : Database D → D → Database D) (value : Database D → D) (s : Database D)
    (P : Unit {0} → Database D → Type 0) (E : Database D → Type 0)
    (done : (rest : List Fate)
      → (IsCertain s.fates → IsCertain rest)
      → P tt (put (record s { fates = rest }) (value s)))
    (failed : (rest : List Fate)
      → (IsCertain s.fates → IsCertain rest)
      → E (record s { fates = rest }))
    (unknown : (rest : List Fate)
      → (¬ IsCertain s.fates)
      → E (put (record s { fates = rest }) (value s))) where
  pub delivered :
      (fates : List Fate)
      → (IsCertain s.fates → IsCertain fates)
      → Ensures P E (deliver_as put (λ t. ok (tt, value t)) s fates)
  unfolding Ensures
  delivered [] k = done [] k
  delivered (fine ∷ rest) k = done rest λ c. (k c).1
  delivered (fails e ∷ rest) k = failed rest λ c. (k c).1
  delivered (lost e ∷ rest) k = unknown rest λ c. cc ((k c).0)

-- What is committed and the pool stay.
abbrev pub Kept : {D : Type 0} → Database D → Database D → Type 0
Kept s t = (t.committed ≡ s.committed) × (t.idle ≡ s.idle) × (IsCertain s.fates → IsCertain t.fates)

-- `block` runs as `user`; it does not touch what is committed, nor the pool.
module _ {D A : Type 0} (block : Block D A) (user : Option Text) where
  -- The block returned this value, on a client of the user and what was committed before.
  abbrev pub Ran : D → A → D → Type 0
  Ran before a after =
      (u : Database D) × (u.working ≡ before)
      × (u.identity ≡ user)
      × ((block u).0 ≡ ok a)
      × ((block u).1.working ≡ after)

  abbrev pub Done : Database D → A → Database D → Type 0
  Done s a t = Ran s.committed a t.committed

  -- An error leaves what is committed, unless an answer was lost.
  abbrev pub Left : Database D → Database D → Type 0
  Left s t =
      (t.committed ≡ s.committed)
      ⊎ ((¬ IsCertain s.fates) × ((a : A) × Ran s.committed a t.committed))

  -- the end of a transaction, before its client is given back
  abbrev pub Ended : Database D → A → Database D → Type 0
  Ended c a t = (t.idle ≡ c.idle) × Done c a t × (t.identity ≡ none)

  abbrev pub Stopped : Database D → Database D → Type 0
  Stopped c t = (t.idle ≡ c.idle) × Left c t

  module _ (stays : (u : Database D) → Kept u (block u).1) (c : Database D)
      (clean : c.identity ≡ none) where
    abbrev Begun : Unit {0} → Database D → Type 0
    Begun done t = Kept c t × (t.working ≡ c.committed) × (t.identity ≡ none)

    abbrev Known : Unit {0} → Database D → Type 0
    Known done t = Kept c t × (t.working ≡ c.committed) × (t.identity ≡ user)

    abbrev Blocked : A → Database D → Type 0
    Blocked a t = Kept c t × Ran c.committed a t.working

    stopped : (t : Database D) → Kept c t → Stopped c t
    stopped t kept = (kept.1, inl kept.0)

    began : Ensures Begun (Stopped c) (begin_transaction c)
    unfolding begin_transaction
    began =
        delivered (λ t d. record t { working = d }) (λ t. t.committed) c Begun (Stopped c)
          (λ rest k. ((refl, refl, k), refl, clean)) (λ rest k. (refl, inl refl))
          (λ rest k. (refl, inl refl)) c.fates λ k. k

    identified :
        (who : Option Text) (t : Database D)
        → who ≡ user
        → Begun tt t
        → Ensures Known (Stopped c) (set_identity who t)
    unfolding set_identity Ensures
    identified none t same h = (h.0, h.1, h.2 ∙ same)
    identified (some name) t same h =
        delivered (λ u d. record u { identity = some name }) (λ u. u.working) t Known (Stopped c)
          (λ rest k. ((h.0.0, h.0.1, λ certain. k (h.0.2 certain)), h.1, same))
          (λ rest k. (h.0.1, inl h.0.0)) (λ rest k. (h.0.1, inl h.0.0)) t.fates λ k. k

    ran_block :
        (t u : Database D) (r : Result Thrown A)
        → Known tt t
        → (block t).0 ≡ r
        → Kept t u
        → u.working ≡ (block t).1.working
        → Ensures Blocked (Stopped c) (r, u)
    unfolding Ensures
    ran_block t u (ok a) h e kept same = (
      (kept.0 ∙ h.0.0, kept.1 ∙ h.0.1, λ certain. kept.2 (h.0.2 certain)),
      (t, h.1, h.2, e, sym same),
    )
    ran_block t u (err e) h same kept work = (kept.1 ∙ h.0.1, inl (kept.0 ∙ h.0.0))

    committed :
        (a : A) (t : Database D)
        → Blocked a t
        → Ensures (Ended c) (Stopped c) (followed (commit t) λ done s. (ok a, s))
    unfolding commit Ensures
    committed a t h =
        let Sent : Unit {0} → Database D → Type 0 = λ done u. Ended c a u in
        Ensures-followed Sent (Stopped c) (Ended c) (commit t) (λ done s. (ok a, s))
          (delivered (λ u d. record u { committed = d; identity = none }) (λ u. u.working) t Sent
            (Stopped c) (λ rest k. (h.0.1, h.1, refl)) (λ rest k. (h.0.1, inl h.0.0))
            (λ rest k. (h.0.1, inr (λ certain. k (h.0.2 certain), (a, h.1)))) t.fates λ k. k)
          λ done u k. k

    ran : (t : Database D) → Known tt t → Ensures Blocked (Stopped c) (block t)
    ran t h = ran_block t (block t).1 (block t).0 h refl (stays t) refl

    pub transaction-Ensures :
        (platform : Platform) → Ensures (Ended c) (Stopped c) (transaction platform block user c)
    unfolding transaction
    transaction-Ensures platform =
        let last : A → Block D A = λ a s4. followed (commit s4) λ done s5. (ok a, s5) in
        let body : Unit {0} → Block D A = λ known s3. followed (block s3) last in
        let whole : Unit {0} → Block D A = λ begun s2. followed (set_identity user s2) body in
        Ensures-followed Begun (Stopped c) (Ended c) (begin_transaction c) whole began λ begun t h.
          Ensures-followed Known (Stopped c) (Ended c) (set_identity user t) body
            (identified user t refl h)
            λ known u k.
              Ensures-followed Blocked (Stopped c) (Ended c) (block u) last (ran u k) committed

module _ {D A : Type 0} where
  answered-Kept :
      (s t : Database D) (gone : Option Thrown) (r : Result Thrown (A × D))
      → Kept s t
      → Kept s (answered (λ d. record t { working = d }) t gone r).1
  answered-Kept s t none (ok (a, d)) h = h
  answered-Kept s t (some e) (ok (a, d)) h = h
  answered-Kept s t none (err e) h = h
  answered-Kept s t (some f) (err e) h = h

  deliver_as-Kept :
      (query : Query D A) (s : Database D) (fates : List Fate)
      → (IsCertain s.fates → IsCertain fates)
      → Kept s (deliver_as (λ t d. record t { working = d }) (λ t. query t.working) s fates).1
  deliver_as-Kept query s [] k =
      answered-Kept s (record s { fates = [] }) none (query s.working) (refl, refl, k)
  deliver_as-Kept query s (fine ∷ rest) k =
      answered-Kept s (record s { fates = rest }) none (query s.working) (refl, refl, λ c. (k c).1)
  deliver_as-Kept query s (fails e ∷ rest) k = (refl, refl, λ c. (k c).1)
  deliver_as-Kept query s (lost e ∷ rest) k =
      answered-Kept s (record s { fates = rest }) (some e) (query s.working)
        (refl, refl, λ c. (k c).1)

  -- a query in a transaction touches what the transaction sees, and nothing else
  pub run_query-Kept : (query : Query D A) (s : Database D) → Kept s (run_query query s).1
  unfolding run_query
  run_query-Kept query s = deliver_as-Kept query s s.fates λ k. k

  pub followed-Kept :
      {B : Type 0} (s : Database D) (run : Result Thrown A × Database D) (next : A → Block D B)
      → Kept s run.1
      → ((a : A) (t : Database D) → Kept t (next a t).1)
      → Kept s (followed run next).1
  followed-Kept s (ok a, t) next h k =
      let later = k a t in (later.0 ∙ h.0, later.1 ∙ h.1, λ certain. later.2 (h.2 certain))
  followed-Kept s (err e, t) next h k = h

  pub caught-Kept :
      (s : Database D) (run : Result Thrown A × Database D) (handler : Thrown → Block D A)
      → Kept s run.1
      → ((e : Thrown) (t : Database D) → Kept t (handler e t).1)
      → Kept s (caught run handler).1
  caught-Kept s (ok a, t) handler h k = h
  caught-Kept s (err e, t) handler h k =
      let later = k e t in (later.0 ∙ h.0, later.1 ∙ h.1, λ certain. later.2 (h.2 certain))
