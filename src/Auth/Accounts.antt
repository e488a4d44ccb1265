-- ===== src/Auth/Accounts.antt =====
-- The service of src/auth/service.ts on the repository of src/database/auth-repository.ts, as the program
-- composes them, and what may happen to the database one call after the other.
use micro_jbase.Base.{ℕ, List, Text}
use micro_jbase.Platform.{Platform}
use micro_jbase.Faults.{Fate}
use micro_jbase.Transactions.{Database, close}
use micro_jbase.Auth.{Crypto}
use micro_jbase.Auth.Repository.{
  AuthTables, create_user_and_session, find_by_email, create_session,
  find_active_user_by_token_hash, revoke_by_token_hash,
}
use micro_jbase.Auth.Service.{AuthRepository, Context, register, login, authenticate, logout}

module _ (platform : Platform) (uuid : ℕ → Text) where
  abbrev pub postgres_repository : AuthRepository (Database AuthTables)
  postgres_repository = record {
    create_user_and_session = create_user_and_session platform uuid;
    find_by_email = find_by_email platform uuid;
    create_session = create_session platform uuid;
    find_active_user_by_token_hash = find_active_user_by_token_hash platform uuid;
    revoke_by_token_hash = revoke_by_token_hash platform uuid;
  }

  module _ (crypto : Crypto) (ttl : ℕ) where
    -- a call of the service, a choice of what becomes of the queries to come, or the end of the pool
    pub data AuthStep : Database AuthTables → Database AuthTables → Type 0 where
      registers :
          (s : Database AuthTables) (context : Context) (email password : Text)
          → AuthStep s (register platform crypto ttl postgres_repository context email password s).1
      logs_in :
          (s : Database AuthTables) (context : Context) (email password : Text)
          → AuthStep s (login platform crypto ttl postgres_repository context email password s).1
      authenticates :
          (s : Database AuthTables) (now : ℕ) (token : Text)
          → AuthStep s (authenticate platform crypto ttl postgres_repository now token s).1
      logs_out :
          (s : Database AuthTables) (now : ℕ) (token : Text)
          → AuthStep s (logout platform crypto ttl postgres_repository now token s).1
      schedules :
          (s : Database AuthTables) (fates : List Fate) → AuthStep s (record s { fates = fates })
      closes : (s : Database AuthTables) → AuthStep s (close s)

    pub data AuthReach (s : Database AuthTables) : Database AuthTables → Type 0 where
      here : AuthReach s s
      next : {t u : Database AuthTables} → AuthReach s t → AuthStep t u → AuthReach s u
