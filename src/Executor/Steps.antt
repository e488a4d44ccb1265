-- ===== src/Executor/Steps.antt =====
-- The runs of src/database/schema-ddl.ts, step by step: how a run relates the session before it to the
-- session after it, where the relation of the stores is a preorder.
use micro_jbase.Base.{
  ℕ, zero, suc, ◌≡◌, refl, ◌∙◌, ◌-◌, length, List, [], ◌∷◌, All, Result, ok, err, Returned, Bool,
  true, false, map, Text,
}
use micro_jbase.Errors.{AppError, Thrown}
use micro_jbase.Platform.{Platform}
use micro_jbase.OperationLog.{OperationTable, World, Log}
use micro_jbase.Executor.{
  Db, Store, Fate, fine, fails, lost, Session, Exec, followed, caught, always, Effect, landed,
  deliver_as, query, reset, unchanged, drop_fates, as_event, rejoined, run_log, secure,
}

-- The answer is not lost.
abbrev pub is_known : Fate → Bool
is_known (lost e) = false
is_known _ = true

abbrev pub IsKnown : Fate → Type 0
IsKnown fate = is_known fate ≡ true

abbrev pub IsCertain : List Fate → Type 0
IsCertain fates = All IsKnown fates

pub drop_fates-IsCertain :
    (n : ℕ) (fates : List Fate) → IsCertain fates → IsCertain (drop_fates n fates)
unfolding drop_fates
drop_fates-IsCertain zero fates certain = certain
drop_fates-IsCertain (suc n) [] certain = tt
drop_fates-IsCertain (suc n) (fate ∷ fates) certain = drop_fates-IsCertain n fates certain.1

-- The stores are related, the clients that are checked out are as many, and no answer is lost later
-- if none was to be lost before.
unfoldable pub Linked : {S : Type 0} → (Store S → Store S → Type 0) → Session S → Session S → Type 0
Linked P s t = P s.store t.store × (t.clients ≡ s.clients) × (IsCertain s.fates → IsCertain t.fates)

module _ {S : Type 0} (P : Store S → Store S → Type 0) (stays : (a : Store S) → P a a)
    (joins : (a b c : Store S) → P a b → P b c → P a c) where
  pub Linked-refl : (s : Session S) → Linked P s s
  unfolding Linked
  Linked-refl s = (stays s.store, refl, λ certain. certain)

  pub Linked-trans : (s t u : Session S) → Linked P s t → Linked P t u → Linked P s u
  unfolding Linked
  Linked-trans s t u h k =
      (joins s.store t.store u.store h.0 k.0, k.1 ∙ h.1, λ certain. k.2 (h.2 certain))

  pub followed-Linked :
      {A B : Type 0} (s : Session S) (run : Result Thrown A × Session S) (next : A → Exec S B)
      → Linked P s run.1
      → ((a : A) (t : Session S) → Linked P t (next a t).1)
      → Linked P s (followed run next).1
  followed-Linked s (ok a, t) next h k = Linked-trans s t (next a t).1 h (k a t)
  followed-Linked s (err e, t) next h k = h

  pub caught-Linked :
      {A : Type 0} (s : Session S) (run : Result Thrown A × Session S) (handler : Thrown → Exec S A)
      → Linked P s run.1
      → ((e : Thrown) (t : Session S) → Linked P t (handler e t).1)
      → Linked P s (caught run handler).1
  caught-Linked s (ok a, t) handler h k = h
  caught-Linked s (err e, t) handler h k = Linked-trans s t (handler e t).1 h (k e t)

  pub always-Linked :
      {A : Type 0} (s : Session S) (run : Result Thrown A × Session S) (cleanup : Exec S Unit)
      → Linked P s run.1
      → ((t : Session S) → Linked P t (cleanup t).1)
      → Linked P s (always run cleanup).1
  always-Linked s (r, t) cleanup h k =
      followed-Linked s (cleanup t) (λ done u. (r, u)) (Linked-trans s t (cleanup t).1 h (k t))
        λ done u. Linked-refl u

  landed-Linked :
      (s : Session S) (rest : List Fate) (answer : Result Thrown Unit)
      (stored : Result Thrown (Store S))
      → Returned (P s.store) stored
      → (IsCertain s.fates → IsCertain rest)
      → Linked P s (landed s rest answer stored).1
  unfolding Linked
  landed-Linked s rest answer (ok next) h k = (h, refl, k)
  landed-Linked s rest answer (err e) h k = (stays s.store, refl, k)

  deliver_as-Linked :
      (effect : Effect S) (s : Session S) (fates : List Fate)
      → Returned (P s.store) (effect s.store)
      → (IsCertain s.fates → IsCertain fates)
      → Linked P s (deliver_as effect s fates).1
  unfolding Linked
  deliver_as-Linked effect s [] h k = landed-Linked s [] (ok tt) (effect s.store) h k
  deliver_as-Linked effect s (fine ∷ rest) h k =
      landed-Linked s rest (ok tt) (effect s.store) h λ certain. (k certain).1
  deliver_as-Linked effect s (fails e ∷ rest) h k = (stays s.store, refl, λ certain. (k certain).1)
  deliver_as-Linked effect s (lost e ∷ rest) h k =
      landed-Linked s rest (err e) (effect s.store) h λ certain. (k certain).1

  pub query-Linked :
      (effect : Effect S) (s : Session S)
      → Returned (P s.store) (effect s.store)
      → Linked P s (query effect s).1
  unfolding query
  query-Linked effect s h = deliver_as-Linked effect s s.fates h λ certain. certain

  unchanged-Linked : (s : Session S) → Linked P s (query unchanged s).1
  unfolding unchanged
  unchanged-Linked s = query-Linked unchanged s (stays s.store)

  pub secure-Linked :
      (platform : Platform) (apply : Text → S → Result Thrown S) (s : Session S)
      → Linked P s (secure platform apply s).1
  unfolding secure
  secure-Linked platform apply s =
      followed-Linked s (query unchanged s) (λ done. query unchanged) (unchanged-Linked s)
        λ done. unchanged-Linked

  rejoined-Linked :
      {A : Type 0} (s : Session S) (run : Result AppError A × World)
      → P s.store (record s.store { working = record s.store.working { operations = run.1.table } })
      → Linked P s (rejoined s run).1
  unfolding Linked
  rejoined-Linked s (r, w) h =
      (h, refl, drop_fates-IsCertain (length s.fates - length w.schedule) s.fates)

  pub run_log-Linked :
      {A : Type 0} (key : Text) (log : Log A) (s : Session S)
      → ((t : OperationTable)
          → P s.store (record s.store { working = record s.store.working { operations = t } }))
      → Linked P s (run_log key log s).1
  unfolding run_log
  run_log-Linked key log s h =
      let w : World = record {
        table = s.store.working.operations;
        schedule = map (as_event key) s.fates;
      } in
      rejoined-Linked s (log w) (h (log w).1.table)

  pub reset-Linked :
      ((a : Store S) (db : Db S) → P a (record a { working = db }))
      → (s : Session S) → Linked P s (query reset s).1
  unfolding reset
  reset-Linked free s = query-Linked reset s (free s.store s.store.committed)
