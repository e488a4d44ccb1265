-- ===== src/Auth/Repository/Kept.antt =====
-- What the calls of src/database/auth-repository.ts keep of the database, if its statements keep it.
use micro_jbase.Base.{
  ℕ, refl, Bool, true, false, Option, none, some, Result, ok, err, Text, if◌then◌else◌,
}
use micro_jbase.Errors.{Thrown}
use micro_jbase.Platform.{Platform}
use micro_jbase.Transactions.{Database, followed, run_query, pool_query}
use micro_jbase.Transactions.Runs.{Kept, run_query-Kept, followed-Kept, caught-Kept}
use micro_jbase.Transactions.Kept.{
  QueryKeeps, BlockKeeps, IsSound, run_query-BlockKeeps, followed-working, caught-working,
  pool_query-IsSound, with_transaction-IsSound,
}
use micro_jbase.Auth.{Bytes, User, Session}
use micro_jbase.Auth.Repository.{
  AuthTables, insert_user, insert_session, revoke_sessions, is_users_email_unique_violation,
  already_registered, register_user, paired, with_session, registration, required,
  create_user_and_session, find_by_email, create_session, find_active_user_by_token_hash,
  revoke_by_token_hash, find_user_by_email, find_active,
}

-- both answers of the handler leave the session alone
translated_same :
    (A : Type 0) (P : Database AuthTables → Type 0) (b : Bool) (e f : Thrown)
    (t : Database AuthTables)
    → P t
    → P (
        let run : Result Thrown A × Database AuthTables = if b then (err e, t) else (err f, t) in
        run.1)
translated_same A P true e f t h = h
translated_same A P false e f t h = h

module _ (platform : Platform) (uuid : ℕ → Text) where
  -- nothing in the transaction touches what is committed, nor the pool
  module _ (email password_hash : Text) (hash : Bytes) (expires : ℕ) where
    same-Kept : (t : Database AuthTables) → Kept t t
    same-Kept t = (refl, refl, λ k. k)

    with_session-Kept :
        (user : Option User) (t : Database AuthTables)
        → Kept t (with_session platform uuid hash expires user t).1
    with_session-Kept none t = same-Kept t
    with_session-Kept (some user) t =
        followed-Kept t (run_query (insert_session platform uuid user.id hash expires) t)
          (paired platform uuid user)
          (run_query-Kept (insert_session platform uuid user.id hash expires) t) paired-Kept
      where
        paired-Kept :
            (session : Option Session) (v : Database AuthTables)
            → Kept v (paired platform uuid user session v).1
        paired-Kept none v = same-Kept v
        paired-Kept (some session) v = same-Kept v

    pub registration-Kept :
        (t : Database AuthTables)
        → Kept t (registration platform uuid email password_hash hash expires t).1
    unfolding registration register_user
    registration-Kept t =
        followed-Kept t (register_user platform uuid email password_hash t)
          (with_session platform uuid hash expires)
          (caught-Kept t (run_query (insert_user platform uuid email password_hash) t) _
            (run_query-Kept (insert_user platform uuid email password_hash) t)
            λ e v.
              translated_same (Option User) (λ u. Kept v u) (is_users_email_unique_violation e)
                (Thrown.app already_registered) e v (same-Kept v))
          with_session-Kept

  module _ (I : AuthTables → Type 0)
      (users : (email password_hash : Text)
        → QueryKeeps I (insert_user platform uuid email password_hash))
      (sessions : (user_id : Text) (hash : Bytes) (expires : ℕ)
        → QueryKeeps I (insert_session platform uuid user_id hash expires))
      (revocations : (hash : Bytes) (at : ℕ) → QueryKeeps I (revoke_sessions hash at)) where
    paired-keeps :
        (user : User) (session : Option Session) → BlockKeeps I (paired platform uuid user session)
    paired-keeps user none s h = h
    paired-keeps user (some session) s h = h

    with_session-keeps :
        (hash : Bytes) (expires : ℕ) (user : Option User)
        → BlockKeeps I (with_session platform uuid hash expires user)
    with_session-keeps hash expires none s h = h
    with_session-keeps hash expires (some user) s h =
        followed-working I (run_query (insert_session platform uuid user.id hash expires) s)
          (paired platform uuid user)
          (run_query-BlockKeeps I (insert_session platform uuid user.id hash expires)
            (sessions user.id hash expires) s h)
          (paired-keeps user)

    registration-keeps :
        (email password_hash : Text) (hash : Bytes) (expires : ℕ)
        → BlockKeeps I (registration platform uuid email password_hash hash expires)
    unfolding registration register_user
    registration-keeps email password_hash hash expires s h =
        followed-working I (register_user platform uuid email password_hash s)
          (with_session platform uuid hash expires)
          (caught-working I (run_query (insert_user platform uuid email password_hash) s) _
            (run_query-BlockKeeps I (insert_user platform uuid email password_hash)
              (users email password_hash) s h)
            λ e v k.
              translated_same (Option User) (λ u. I u.working) (is_users_email_unique_violation e)
                (Thrown.app already_registered) e v k)
          (with_session-keeps hash expires)

    pub create_user_and_session-IsSound :
        (email password_hash : Text) (hash : Bytes) (expires : ℕ) (s : Database AuthTables)
        → IsSound I s
        → IsSound I (create_user_and_session platform uuid email password_hash hash expires s).1
    unfolding create_user_and_session
    create_user_and_session-IsSound email password_hash hash expires =
        with_transaction-IsSound I platform
          (registration platform uuid email password_hash hash expires) none
          (registration-keeps email password_hash hash expires)
          (registration-Kept email password_hash hash expires)

    pub find_by_email-IsSound :
        (email : Text) (s : Database AuthTables)
        → IsSound I s
        → IsSound I (find_by_email platform uuid email s).1
    unfolding find_by_email
    find_by_email-IsSound email s =
        pool_query-IsSound I platform (λ t. ok (find_user_by_email email t.users, t)) s λ t h. h

    pub find_active-IsSound :
        (hash : Bytes) (now : ℕ) (s : Database AuthTables)
        → IsSound I s
        → IsSound I (find_active_user_by_token_hash platform uuid hash now s).1
    unfolding find_active_user_by_token_hash
    find_active-IsSound hash now s =
        pool_query-IsSound I platform (λ t. ok (find_active hash now t.users t.sessions, t)) s
          λ t h. h

    pub revoke_by_token_hash-IsSound :
        (hash : Bytes) (at : ℕ) (s : Database AuthTables)
        → IsSound I s
        → IsSound I (revoke_by_token_hash platform uuid hash at s).1
    unfolding revoke_by_token_hash
    revoke_by_token_hash-IsSound hash at s =
        pool_query-IsSound I platform (revoke_sessions hash at) s (revocations hash at)

    required-IsSound :
        (run : Result Thrown (Option Session) × Database AuthTables)
        → IsSound I run.1
        → IsSound I (followed run (required platform uuid)).1
    required-IsSound (ok none, t) h = h
    required-IsSound (ok (some session), t) h = h
    required-IsSound (err e, t) h = h

    pub create_session-IsSound :
        (user_id : Text) (hash : Bytes) (expires : ℕ) (s : Database AuthTables)
        → IsSound I s
        → IsSound I (create_session platform uuid user_id hash expires s).1
    unfolding create_session
    create_session-IsSound user_id hash expires s h =
        let q = insert_session platform uuid user_id hash expires in
        required-IsSound (pool_query platform q s)
          (pool_query-IsSound I platform q s (sessions user_id hash expires) h)
