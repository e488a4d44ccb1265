-- ===== src/Auth/Service/Keeping.antt =====
-- What every call of src/auth/service.ts keeps, if every call of its repository does.
use micro_jbase.Base.{Option, none, some, Result, ok, err, Text, ℕ, if_ind}
use micro_jbase.Errors.{Thrown}
use micro_jbase.Platform.{Platform}
use micro_jbase.Auth.{Bytes, Crypto, User, UserRecord, AuthenticatedUser, AuthResult}
use micro_jbase.Auth.Email.{normalise_email, validate_password}
use micro_jbase.Auth.Tokens.{generate_session_token, hash_raw_token}
use micro_jbase.Auth.Service.{
  AuthRepository, Call, Context, and_then, catching, step, as_auth_error, as_registered, register,
  store_account, registered, login, check_login, open_session, logged_in, authenticate,
  authenticate_hash, logout, logout_hash, verify_password, expiry, or_unauthenticated,
}

-- a call keeps a predicate of the state, whatever it returns
abbrev pub Keeps : {W A : Type 0} → (W → Type 0) → Call W A → Type 0
Keeps {W = W} I call = (w : W) → I w → I (call w).1

pub record RepositoryKeeps {W : Type 0} (I : W → Type 0) (repository : AuthRepository W)
    : Type 0 where
  pub creates :
      (email password_hash : Text) (hash : Bytes) (expires : ℕ)
      → Keeps I (repository.create_user_and_session email password_hash hash expires)
  pub finds : (email : Text) → Keeps I (repository.find_by_email email)
  pub opens :
      (user_id : Text) (hash : Bytes) (expires : ℕ)
      → Keeps I (repository.create_session user_id hash expires)
  pub looks_up :
      (hash : Bytes) (now : ℕ) → Keeps I (repository.find_active_user_by_token_hash hash now)
  pub revokes : (hash : Bytes) (now : ℕ) → Keeps I (repository.revoke_by_token_hash hash now)

module _ {W : Type 0} (I : W → Type 0) where
  and_then-Keeps :
      {A B : Type 0} (run : Result Thrown A × W) (next : A → Call W B)
      → I run.1
      → ((a : A) → Keeps I (next a))
      → I (and_then run next).1
  and_then-Keeps (ok a, w) next h k = k a w h
  and_then-Keeps (err e, w) next h k = h

  catching-Keeps :
      {A : Type 0} (run : Result Thrown A × W) (handler : Thrown → Thrown)
      → I run.1
      → I (catching run handler).1
  catching-Keeps (ok a, w) handler h = h
  catching-Keeps (err e, w) handler h = h

  step-Keeps :
      {A B : Type 0} (r : Result Thrown A) (next : A → Call W B)
      → ((a : A) → Keeps I (next a))
      → Keeps I (step r next)
  step-Keeps (ok a) next k w h = k a w h
  step-Keeps (err e) next k w h = h

  module _ (platform : Platform) (crypto : Crypto) (ttl : ℕ) (repository : AuthRepository W)
      (keeps : RepositoryKeeps I repository) where
    store_account-Keeps :
        (context : Context) (email password_hash : Text) (token : Text × Bytes)
        → Keeps I (store_account platform crypto ttl repository context email password_hash token)
    unfolding store_account
    store_account-Keeps context email password_hash (raw, hash) w h =
        let run =
          repository.create_user_and_session email password_hash hash
            (expiry platform crypto ttl repository context) w in
        and_then-Keeps (catching run as_registered)
          (λ created v. (ok (registered platform crypto ttl repository raw created), v))
          (catching-Keeps run as_registered (keeps.creates email password_hash hash _ w h))
          λ a v k. k

    pub register-Keeps :
        (context : Context) (raw_email password : Text)
        → Keeps I (register platform crypto ttl repository context raw_email password)
    unfolding register
    register-Keeps context raw_email password =
        let stored = λ (email : Text) (password_hash : Text).
          step-Keeps (generate_session_token crypto context.random)
            (store_account platform crypto ttl repository context email password_hash)
            (store_account-Keeps context email password_hash) in
        step-Keeps (as_auth_error (normalise_email platform crypto raw_email)) _ λ email.
          step-Keeps (as_auth_error (validate_password password)) _ λ valid.
            step-Keeps (crypto.argon2_hash context.salt password) _
              λ password_hash. stored email password_hash

    open_session-Keeps :
        (context : Context) (user : User) (token : Text × Bytes)
        → Keeps I (open_session platform crypto ttl repository context user token)
    unfolding open_session
    open_session-Keeps context user (raw, hash) w h =
        and_then-Keeps
          (repository.create_session user.id hash (expiry platform crypto ttl repository context) w)
          (λ session v. (ok (logged_in platform crypto ttl repository user raw session), v))
          (keeps.opens user.id hash _ w h) λ a v k. k

    check_login-Keeps :
        (context : Context) (password : Text) (found : Option UserRecord)
        → Keeps I (check_login platform crypto ttl repository context password found)
    unfolding check_login
    check_login-Keeps context password none w h = h
    check_login-Keeps context password (some found) w h =
        if_ind {A = Result Thrown AuthResult × W} (λ run. I run.1)
          (verify_password platform crypto ttl repository found.password_hash password)
          (step-Keeps (generate_session_token crypto context.random)
            (open_session platform crypto ttl repository context found.user)
            (open_session-Keeps context found.user) w h)
          h

    pub login-Keeps :
        (context : Context) (raw_email password : Text)
        → Keeps I (login platform crypto ttl repository context raw_email password)
    unfolding login
    login-Keeps context raw_email password =
        step-Keeps (as_auth_error (normalise_email platform crypto raw_email)) _ λ email w h.
          and_then-Keeps (repository.find_by_email email w)
            (check_login platform crypto ttl repository context password) (keeps.finds email w h)
            (check_login-Keeps context password)

    on_hash-Keeps :
        (now : ℕ) (hash : Option Bytes)
        → Keeps I (authenticate_hash platform crypto ttl repository now hash)
          × Keeps I (logout_hash platform crypto ttl repository now hash)
    on_hash-Keeps now none = (λ w h. h, λ w h. h)
    on_hash-Keeps now (some hash) = (
      λ w h.
          and_then-Keeps (repository.find_active_user_by_token_hash hash now w) _
            (keeps.looks_up hash now w h) λ a. found a,
      λ w h.
          and_then-Keeps (repository.revoke_by_token_hash hash now w) _ (keeps.revokes hash now w h)
            λ a v k. k,
    )
      where
        found :
            (a : Option AuthenticatedUser)
            → Keeps I (or_unauthenticated platform crypto ttl repository a)
        found none v k = k
        found (some user) v k = k

    pub authenticate-Keeps :
        (now : ℕ) (raw : Text) → Keeps I (authenticate platform crypto ttl repository now raw)
    unfolding authenticate
    authenticate-Keeps now raw = (on_hash-Keeps now (hash_raw_token crypto raw)).0

    pub logout-Keeps :
        (now : ℕ) (raw : Text) → Keeps I (logout platform crypto ttl repository now raw)
    unfolding logout
    logout-Keeps now raw = (on_hash-Keeps now (hash_raw_token crypto raw)).1
