-- ===== src/Auth/Enrolled.antt =====
-- What a registration leaves in the tables of src/database/auth-repository.ts: the account, and a session that
-- its token's hash finds.
use micro_jbase.Base.{
  ℕ, ◌<◌, ◌≡◌, refl, subst, ok_subst, Bool, true, false, Option, none, some, List, [], ◌∷◌, All,
  Result, ok, err, Text, Returned, Returned-if, text_eq_refl, if◌then◌else◌, lt→ltb,
}
use micro_jbase.Errors.{Thrown}
use micro_jbase.Platform.{Platform}
use micro_jbase.Faults.{Fate, fine, fails, lost}
use micro_jbase.Transactions.{
  Database, Block, Query, caught, answered, deliver_as, run_query, with_transaction,
}
use micro_jbase.Transactions.Runs.{Ensures, Ensures-followed, IsNone}
use micro_jbase.Transactions.Isolation.{Won, Lost, with_transaction-Ensures}
use micro_jbase.Auth.{Bytes, User, UserRecord, Session, AuthenticatedUser}
use micro_jbase.Auth.Repository.{
  AuthTables, is_users_email_unique_violation, already_registered, insert_user, insert_session,
  register_user, paired, with_session, registration, create_user_and_session, find_user_by_email,
  find_user_by_id, has_token_hash, find_active, is_live,
}
use micro_jbase.Auth.Repository.Kept.{registration-Kept}
use micro_jbase.Auth.Revoked.{Returned-if_some}

-- a query that is answered leaves what holds of its answers
module _ {D A : Type 0} (P : A × D → Type 0) where
  abbrev Leaves : A → Database D → Type 0
  Leaves a t = P (a, t.working)

  answered-Leaves :
      (t : Database D) (gone : Option Thrown) (r : Result Thrown (A × D))
      → Returned P r
      → Ensures Leaves (λ u. Unit) (answered (λ d. record t { working = d }) t gone r)
  unfolding Ensures
  answered-Leaves t none (ok (a, d)) h = h
  answered-Leaves t (some e) (ok (a, d)) h = tt
  answered-Leaves t none (err e) h = tt
  answered-Leaves t (some f) (err e) h = tt

  delivered-Leaves :
      (q : Query D A) (s : Database D) (fates : List Fate)
      → Returned P (q s.working)
      → Ensures Leaves
          (λ u. Unit)
          (deliver_as (λ t d. record t { working = d }) (λ t. q t.working) s fates)
  unfolding Ensures
  delivered-Leaves q s [] h = answered-Leaves (record s { fates = [] }) none (q s.working) h
  delivered-Leaves q s (fine ∷ rest) h =
      answered-Leaves (record s { fates = rest }) none (q s.working) h
  delivered-Leaves q s (fails e ∷ rest) h = tt
  delivered-Leaves q s (lost e ∷ rest) h =
      answered-Leaves (record s { fates = rest }) (some e) (q s.working) h

  run_query-Leaves :
      (q : Query D A) (s : Database D)
      → Returned P (q s.working)
      → Ensures Leaves (λ u. Unit) (run_query q s)
  unfolding run_query
  run_query-Leaves q s h = delivered-Leaves q s s.fates h

-- the value that a run returned satisfies what the run ensures
pub Ensures-ok :
    {D A : Type 0} (P : A → Database D → Type 0) (E : Database D → Type 0)
    (run : Result Thrown A × Database D) (a : A)
    → Ensures P E run
    → run.0 ≡ ok a
    → P a run.1
unfolding Ensures
Ensures-ok P E (ok b, t) a h e = ok_subst (λ x. P x t) b e h
Ensures-ok P E (err f, t) a h e = cc

module _ {D A : Type 0} (P : A → Database D → Type 0) where
  Ensures-caught :
      (run : Result Thrown A × Database D) (handler : Thrown → Block D A)
      → Ensures P (λ t. Unit) run
      → ((e : Thrown) (t : Database D) → Ensures P (λ u. Unit) (handler e t))
      → Ensures P (λ t. Unit) (caught run handler)
  unfolding Ensures
  Ensures-caught (ok a, t) handler h k = h
  Ensures-caught (err e, t) handler h k = k e t

  Ensures-thrown :
      (b : Bool) (e f : Thrown) (t : Database D)
      → Ensures P (λ u. Unit) (if b then (err e, t) else (err f, t))
  unfolding Ensures
  Ensures-thrown true e f t = tt
  Ensures-thrown false e f t = tt

-- The user is in the table.
abbrev HasUser : User → AuthTables → Type 0
HasUser user d =
    (found : UserRecord) × (find_user_by_id user.id d.users ≡ some found) × (found.user ≡ user)

abbrev Added : Option User × AuthTables → Type 0
Added (none, d) = Unit
Added (some user, d) = HasUser user d

abbrev pub known_as : User → AuthenticatedUser
known_as user = record { id = user.id; email = user.email }

-- The token's hash finds the user until the session expires.
abbrev pub Opens : Bytes → User → Session → AuthTables → Type 0
Opens hash user session d =
    (now : ℕ)
    → now < session.expires_at
    → find_active hash now d.users d.sessions ≡ some (known_as user)

abbrev Opened : Bytes → User → Option Session × AuthTables → Type 0
Opened hash user (none, d) = Unit
Opened hash user (some session, d) = Opens hash user session d

abbrev Enrolled : Bytes → User × Session → Database AuthTables → Type 0
Enrolled hash (user, session) t = Opens hash user session t.working

module _ (platform : Platform) (uuid : ℕ → Text) where
  insert_user-Added :
      (email password_hash : Text) (d : AuthTables)
      → Returned Added (insert_user platform uuid email password_hash d)
  unfolding insert_user find_user_by_id
  insert_user-Added email password_hash d =
      let created : UserRecord = record {
        user = record { id = uuid d.next; email = email; created_at = d.clock };
        password_hash = password_hash;
      } in
      Returned-if_some Added (find_user_by_email email d.users) _ _ tt
        (created, rw (text_eq_refl (uuid d.next)) refl, refl)

  insert_session-Opened :
      (user : User) (hash : Bytes) (expires : ℕ) (d : AuthTables)
      → HasUser user d
      → Returned (Opened hash user) (insert_session platform uuid user.id hash expires d)
  unfolding insert_session
  insert_session-Opened user hash expires d (found, there, same) =
      Returned-if (Opened hash user) (has_token_hash hash d.sessions) _ _ (λ known. tt)
        λ fresh.
          Returned-if_some (Opened hash user) (find_user_by_id user.id d.users) _ _
            (λ now soon.
              unfold find_active is_live in
              rw (text_eq_refl hash, lt→ltb now expires soon, there, same) refl)
            tt

  module _ (email password_hash : Text) (hash : Bytes) (expires : ℕ) where
    with_session-Enrolled :
        (user : Option User) (t : Database AuthTables)
        → Added (user, t.working)
        → Ensures (Enrolled hash) (λ u. Unit) (with_session platform uuid hash expires user t)
    unfolding Ensures
    with_session-Enrolled none t h = tt
    with_session-Enrolled (some user) t h =
        Ensures-followed (Leaves (Opened hash user)) (λ u. Unit) (Enrolled hash)
          (run_query (insert_session platform uuid user.id hash expires) t)
          (paired platform uuid user)
          (run_query-Leaves (Opened hash user) (insert_session platform uuid user.id hash expires) t
            (insert_session-Opened user hash expires t.working h))
          pairs
      where
        pairs :
            (session : Option Session) (v : Database AuthTables)
            → Opened hash user (session, v.working)
            → Ensures (Enrolled hash) (λ u. Unit) (paired platform uuid user session v)
        pairs none v k = tt
        pairs (some session) v k = k

    register_user-Added :
        (t : Database AuthTables)
        → Ensures (Leaves Added) (λ u. Unit) (register_user platform uuid email password_hash t)
    unfolding register_user
    register_user-Added t =
        Ensures-caught (Leaves Added) (run_query (insert_user platform uuid email password_hash) t)
          _
          (run_query-Leaves Added (insert_user platform uuid email password_hash) t
            (insert_user-Added email password_hash t.working))
          λ e u.
            Ensures-thrown (Leaves Added) (is_users_email_unique_violation e)
              (Thrown.app already_registered) e u

    registration-Enrolled :
        (t : Database AuthTables)
        → Ensures
            (Enrolled hash)
            (λ u. Unit)
            (registration platform uuid email password_hash hash expires t)
    unfolding registration
    registration-Enrolled t =
        Ensures-followed (Leaves Added) (λ u. Unit) (Enrolled hash)
          (register_user platform uuid email password_hash t)
          (with_session platform uuid hash expires) (register_user-Added t) with_session-Enrolled

    -- What is committed opens the session, for the user that is returned.
    abbrev pub Committed : User × Session → Database AuthTables → Type 0
    Committed (user, session) t = Opens hash user session t.committed

    outcome-Committed :
        (s : Database AuthTables) (run : Result Thrown (User × Session) × Database AuthTables)
        → Ensures
            (Won platform (registration platform uuid email password_hash hash expires) none s)
            (Lost platform (registration platform uuid email password_hash hash expires) none s)
            run
        → Ensures Committed (λ t. Unit) run
    unfolding Ensures
    outcome-Committed s (ok (user, session), t) ((u, seen, known, answer, left), clean) =
        subst (λ (d : AuthTables). Opens hash user session d) left
          (Ensures-ok (Enrolled hash) (λ t. Unit)
            (registration platform uuid email password_hash hash expires u) (user, session)
            (registration-Enrolled u) answer)
    outcome-Committed s (err e, t) h = tt

    pub create_user_and_session-Committed :
        (s : Database AuthTables)
        → All IsNone s.idle
        → Ensures Committed
            (λ t. Unit)
            (create_user_and_session platform uuid email password_hash hash expires s)
    unfolding create_user_and_session
    create_user_and_session-Committed s clean =
        outcome-Committed s
          (with_transaction platform (registration platform uuid email password_hash hash expires)
            none s)
          (with_transaction-Ensures platform
            (registration platform uuid email password_hash hash expires) none
            (registration-Kept platform uuid email password_hash hash expires) s clean)
