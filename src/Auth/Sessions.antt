-- ===== src/Auth/Sessions.antt =====
-- Sessions of src/auth/service.ts over their lives: who is authenticated, and that a logout is final.
use micro_jbase.Base.{
  ℕ, ◌≡◌, refl, Option, none, some, List, [], ◌∷◌, All, Result, ok, err, subst, ◌≢◌, Text, Returned,
  if◌then◌else◌, true, false, Bool,
}
use micro_jbase.Errors.{Thrown}
use micro_jbase.Platform.{Platform}
use micro_jbase.Faults.{Fate, fine, fails, lost}
use micro_jbase.Transactions.{
  Database, answered, deliver_as, pool_query, pool_closed, or_translated, close,
}
use micro_jbase.Transactions.Runs.{IsNone}
use micro_jbase.Transactions.Kept.{IsSound}
use micro_jbase.Auth.{Bytes, Crypto, AuthenticatedUser}
use micro_jbase.Auth.Tokens.{hash_raw_token}
use micro_jbase.Auth.Repository.{
  AuthTables, has_token_hash, find_active, find_active_user_by_token_hash, revoke_by_token_hash,
  revoke_sessions,
}
use micro_jbase.Auth.Repository.Kept.{
  create_user_and_session-IsSound, find_by_email-IsSound, find_active-IsSound,
  revoke_by_token_hash-IsSound, create_session-IsSound,
}
use micro_jbase.Auth.Service.{and_then, authenticate, or_unauthenticated, logout}
use micro_jbase.Auth.Service.Keeping.{
  RepositoryKeeps, register-Keeps, login-Keeps, authenticate-Keeps, logout-Keeps,
}
use micro_jbase.Auth.Accounts.{
  postgres_repository, AuthStep, registers, logs_in, authenticates, logs_out, schedules, closes,
  AuthReach, here, next,
}
use micro_jbase.Auth.Revoked.{
  IsRevoked, find_active-none, insert_user-keeps, insert_session-keeps, revoke_sessions-keeps,
  revoke_sessions-IsRevoked,
}

-- what a query answers is of no interest
Returned-any : {A : Type 0} (r : Result Thrown A) → Returned (λ a. Unit {0}) r
Returned-any (ok a) = tt
Returned-any (err e) = tt

-- a query that is answered was carried out on what is committed
module _ {A : Type 0} (platform : Platform) (q : AuthTables → Result Thrown (A × AuthTables))
    (s : Database AuthTables) where
  abbrev pub Answers : Result Thrown A × Database AuthTables → Type 0
  Answers (ok a, t) = q s.committed ≡ ok (a, t.committed)
  Answers (err e, t) = Unit

  answered-Answers :
      (t : Database AuthTables) (gone : Option Thrown) (r : Result Thrown (A × AuthTables))
      → q s.committed ≡ r
      → Answers (answered (λ d. record t { committed = d }) t gone r)
  answered-Answers t none (ok (a, d)) h = h
  answered-Answers t (some e) (ok (a, d)) h = tt
  answered-Answers t none (err e) h = tt
  answered-Answers t (some f) (err e) h = tt

  delivered-Answers :
      (fates : List Fate)
      → Answers (deliver_as (λ t d. record t { committed = d }) (λ t. q t.committed) s fates)
  delivered-Answers [] = answered-Answers (record s { fates = [] }) none (q s.committed) refl
  delivered-Answers (fine ∷ rest) =
      answered-Answers (record s { fates = rest }) none (q s.committed) refl
  delivered-Answers (fails e ∷ rest) = tt
  delivered-Answers (lost e ∷ rest) =
      answered-Answers (record s { fates = rest }) (some e) (q s.committed) refl

  translated-Answers :
      (run : Result Thrown A × Database AuthTables)
      → Answers run
      → Answers (or_translated platform run)
  translated-Answers (ok a, t) h = h
  translated-Answers (err e, t) h = tt

  gated-Answers :
      (gone : Bool) (run : Result Thrown A × Database AuthTables)
      → Answers run
      → Answers (if gone then (err (Thrown.app pool_closed), s) else or_translated platform run)
  gated-Answers true run h = tt
  gated-Answers false run h = translated-Answers run h

  pub pool_query-Answers : Answers (pool_query platform q s)
  unfolding pool_query
  pool_query-Answers =
      gated-Answers s.closed
        (deliver_as (λ t d. record t { committed = d }) (λ t. q t.committed) s s.fates)
        (delivered-Answers s.fates)

module _ (platform : Platform) (uuid : ℕ → Text) (crypto : Crypto) (ttl : ℕ) where
  module _ (hash : Bytes) where
    abbrev pub Ended : Database AuthTables → Type 0
    Ended = IsSound (IsRevoked hash)

    repository_keeps : RepositoryKeeps Ended (postgres_repository platform uuid)
    repository_keeps =
        let users = insert_user-keeps hash platform uuid in
        let sessions = insert_session-keeps hash platform uuid in
        let revocations = revoke_sessions-keeps hash in
        record {
          creates =
              create_user_and_session-IsSound platform uuid (IsRevoked hash) users sessions
                revocations;
          finds = find_by_email-IsSound platform uuid (IsRevoked hash) users sessions revocations;
          opens = create_session-IsSound platform uuid (IsRevoked hash) users sessions revocations;
          looks_up = find_active-IsSound platform uuid (IsRevoked hash) users sessions revocations;
          revokes =
              revoke_by_token_hash-IsSound platform uuid (IsRevoked hash) users sessions
                revocations;
        }

    AuthStep-Ended :
        {s t : Database AuthTables} → AuthStep platform uuid crypto ttl s t → Ended s → Ended t
    unfolding close
    AuthStep-Ended (registers s context email password) h =
        register-Keeps Ended platform crypto ttl (postgres_repository platform uuid)
          repository_keeps context email password s h
    AuthStep-Ended (logs_in s context email password) h =
        login-Keeps Ended platform crypto ttl (postgres_repository platform uuid) repository_keeps
          context email password s h
    AuthStep-Ended (authenticates s now token) h =
        authenticate-Keeps Ended platform crypto ttl (postgres_repository platform uuid)
          repository_keeps now token s h
    AuthStep-Ended (logs_out s now token) h =
        logout-Keeps Ended platform crypto ttl (postgres_repository platform uuid) repository_keeps
          now token s h
    AuthStep-Ended (schedules s fates) h = h
    AuthStep-Ended (closes s) h = h

    AuthReach-Ended :
        {s t : Database AuthTables} → Ended s → AuthReach platform uuid crypto ttl s t → Ended t
    AuthReach-Ended h here = h
    AuthReach-Ended h (next r step) = AuthStep-Ended step (AuthReach-Ended h r)

    revoked_now :
        (now : ℕ) (s : Database AuthTables) (run : Result Thrown Bool × Database AuthTables)
        → has_token_hash hash s.committed.sessions ≡ true
        → Answers platform (revoke_sessions hash now) s run
        → All IsNone run.1.idle
        → (let done : Result Thrown Unit × Database AuthTables =
              and_then {W = Database AuthTables} {A = Bool} {B = Unit} run (λ done v. (ok tt, v)) in
            done.0 ≡ ok tt → Ended done.1)
    revoked_now now s (ok b, t) known answer clean e = (
      subst (Returned (λ r. IsRevoked hash r.1)) answer
          (revoke_sessions-IsRevoked hash now s.committed known),
      clean,
    )
    revoked_now now s (err thrown, t) known answer clean e = cc

    -- a logout that returns has ended the sessions of its token
    logout-Ended :
        (now : ℕ) (token : Text) (s : Database AuthTables)
        → hash_raw_token crypto token ≡ some hash
        → has_token_hash hash s.committed.sessions ≡ true
        → All IsNone s.idle
        → (logout platform crypto ttl (postgres_repository platform uuid) now token s).0 ≡ ok tt
        → Ended (logout platform crypto ttl (postgres_repository platform uuid) now token s).1
    unfolding logout
    logout-Ended now token s hashed known clean =
        let run = revoke_by_token_hash platform uuid hash now s in
        rw hashed (
          revoked_now now s run known
            (unfold revoke_by_token_hash in
              pool_query-Answers platform (revoke_sessions hash now) s)
            (revoke_by_token_hash-IsSound platform uuid (λ t. Unit) (λ e p d h. Returned-any _)
              (λ u g x d h. Returned-any _) (λ g a d h. Returned-any _) hash now s (tt, clean)).1)

    not_found :
        (now : ℕ) (s : Database AuthTables)
        (run : Result Thrown (Option AuthenticatedUser) × Database AuthTables)
        (user : AuthenticatedUser)
        → IsRevoked hash s.committed
        → Answers platform (λ t. ok (find_active hash now t.users t.sessions, t)) s run
        → (and_then run
            (or_unauthenticated platform crypto ttl (postgres_repository platform uuid))).0
          ≢ ok user
    not_found now s (ok none, t) user gone answer e = cc
    not_found now s (ok (some found), t) user gone answer e =
        cc (answer, find_active-none hash now s.committed.users s.committed.sessions gone.1)
    not_found now s (err thrown, t) user gone answer e = cc

    unknown_token :
        (now : ℕ) (token : Text) (s : Database AuthTables) (user : AuthenticatedUser)
        → hash_raw_token crypto token ≡ some hash
        → Ended s
        → (authenticate platform crypto ttl (postgres_repository platform uuid) now token s).0
          ≢ ok user
    unfolding authenticate
    unknown_token now token s user hashed ended = rw hashed (
        not_found now s (find_active_user_by_token_hash platform uuid hash now s) user ended.0 (
          unfold find_active_user_by_token_hash in
          pool_query-Answers platform (λ t. ok (find_active hash now t.users t.sessions, t)) s))

  -- A logout is final: where it returns for a token that has a session, nobody is authenticated by that
  -- token again, at any time, whatever calls of the service follow, with whatever results of their
  -- queries, if no idle client of the pool had a user.
  pub logout_is_final :
      (hash : Bytes) (now later : ℕ) (token : Text) (s t : Database AuthTables)
      (user : AuthenticatedUser)
      → hash_raw_token crypto token ≡ some hash
      → has_token_hash hash s.committed.sessions ≡ true
      → All IsNone s.idle
      → (logout platform crypto ttl (postgres_repository platform uuid) now token s).0 ≡ ok tt
      → AuthReach platform uuid crypto ttl
          (logout platform crypto ttl (postgres_repository platform uuid) now token s).1
          t
      → (authenticate platform crypto ttl (postgres_repository platform uuid) later token t).0
        ≢ ok user
  logout_is_final hash now later token s t user hashed known clean out reached =
      unknown_token hash later token t user hashed
        (AuthReach-Ended hash (logout-Ended hash now token s hashed known clean out) reached)
