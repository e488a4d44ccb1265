-- ===== src/Executor/Posts.antt =====
-- Postconditions of the runs of the executor in src/database/schema-ddl.ts: one for a value that is
-- returned, one for an error.
use micro_jbase.Base.{arith, ◌≡◌, refl, ◌⊎◌, inl, inr, List, [], ◌∷◌, Result, ok, err}
use micro_jbase.Errors.{Thrown}
use micro_jbase.Executor.{
  Store, Fate, fine, fails, lost, Session, Exec, followed, caught, yields, Effect, landed,
  deliver_as, query, reset, rollback_quietly,
}
use micro_jbase.Executor.Steps.{IsCertain}

unfoldable pub Post :
    {S A : Type 0}
    → (A → Session S → Type 0)
    → (Session S → Type 0)
    → Result Thrown A × Session S
    → Type 0
Post R E (ok a, s) = R a s
Post R E (err e, s) = E s

module _ {S A : Type 0} (R : A → Session S → Type 0) (E : Session S → Type 0) where
  pub Post-followed :
      {B : Type 0} (Q : B → Session S → Type 0) (run : Result Thrown A × Session S)
      (next : A → Exec S B)
      → Post R E run
      → ((a : A) (t : Session S) → R a t → Post Q E (next a t))
      → Post Q E (followed run next)
  unfolding Post
  Post-followed Q (ok a, t) next h k = k a t h
  Post-followed Q (err e, t) next h k = h

  pub Post-caught :
      (F : Session S → Type 0) (run : Result Thrown A × Session S) (handler : Thrown → Exec S A)
      → Post R E run
      → ((e : Thrown) (t : Session S) → E t → Post R F (handler e t))
      → Post R F (caught run handler)
  unfolding Post
  Post-caught F (ok a, t) handler h k = h
  Post-caught F (err e, t) handler h k = k e t h

  pub Post-weaken :
      (Q : A → Session S → Type 0) (F : Session S → Type 0) (run : Result Thrown A × Session S)
      → Post R E run
      → ((a : A) (t : Session S) → R a t → Q a t)
      → ((t : Session S) → E t → F t)
      → Post Q F run
  unfolding Post
  Post-weaken Q F (ok a, t) h k l = k a t h
  Post-weaken Q F (err e, t) h k l = l t h

  -- what holds of the session after the run, whatever it returns
  pub Post-with :
      (Q : Session S → Type 0) (run : Result Thrown A × Session S)
      → Q run.1
      → Post R E run
      → Post (λ a t. R a t × Q t) (λ t. E t × Q t) run
  unfolding Post
  Post-with Q (ok a, t) q h = (h, q)
  Post-with Q (err e, t) q h = (h, q)

-- after what holds of the session after a run, whatever it returns
pub Post-always :
    {S A : Type 0} (Q : Session S → Type 0) (run : Result Thrown A × Session S)
    → Q run.1
    → Post (λ a. Q) Q run
unfolding Post
Post-always Q (ok a, t) q = q
Post-always Q (err e, t) q = q

module _ {S : Type 0} (effect : Effect S) (s : Session S) where
  -- An error leaves the store alone, unless an answer was lost.
  abbrev pub IsUndone : Session S → Type 0
  IsUndone t = (t.store ≡ s.store) ⊎ ((effect s.store ≡ ok t.store) × (¬ IsCertain s.fates))

  landed-Post :
      (rest : List Fate) (stored : Result Thrown (Store S))
      → effect s.store ≡ stored
      → Post (λ done t. effect s.store ≡ ok t.store) IsUndone (landed s rest (ok tt) stored)
  unfolding Post
  landed-Post rest (ok next) h = h
  landed-Post rest (err e) h = inl refl

  lost-Post :
      (rest : List Fate) (e : Thrown) (stored : Result Thrown (Store S))
      → effect s.store ≡ stored
      → ¬ IsCertain s.fates
      → Post (λ done t. effect s.store ≡ ok t.store) IsUndone (landed s rest (err e) stored)
  unfolding Post
  lost-Post rest e (ok next) h k = inr (h, k)
  lost-Post rest e (err thrown) h k = inl refl

  deliver_as-Post :
      (fates : List Fate)
      → (IsCertain s.fates → IsCertain fates)
      → Post (λ done t. effect s.store ≡ ok t.store) IsUndone (deliver_as effect s fates)
  unfolding Post
  deliver_as-Post [] certain = landed-Post [] (effect s.store) refl
  deliver_as-Post (fine ∷ rest) certain = landed-Post rest (effect s.store) refl
  deliver_as-Post (fails e ∷ rest) certain = inl refl
  deliver_as-Post (lost e ∷ rest) certain =
      lost-Post rest e (effect s.store) refl λ known. grind (arith, (certain known).0)

  pub query-Post : Post (λ done t. effect s.store ≡ ok t.store) IsUndone (query effect s)
  unfolding query
  query-Post = deliver_as-Post s.fates λ certain. certain

quietly :
    {S A : Type 0} (r : Result Thrown A) (run : Result Thrown Unit × Session S)
    → followed (caught run (λ e. yields tt)) (λ done t. (r, t)) ≡ (r, run.1)
quietly r (ok u, t) = refl
quietly r (err e, t) = refl

-- after a quiet rollback the code goes on, whether the rollback went well or not
pub after_rollback :
    {S A : Type 0} (r : Result Thrown A) (s : Session S)
    → followed (rollback_quietly s) (λ done t. (r, t)) ≡ (r, (query reset s).1)
unfolding rollback_quietly
after_rollback r s = quietly r (query reset s)
