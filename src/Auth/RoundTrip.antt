-- ===== src/Auth/RoundTrip.antt =====
-- From a registration to an authentication: the token that `register` of src/auth/service.ts returns is
-- accepted until the session expires.
use micro_jbase.Base.{
  ℕ, ◌<◌, ◌≡◌, refl, true, false, some, [], All, Result, ok, err, Text, text_eq_refl, &&-true,
  length, ◌==◌, Bool-cases, inl, inr, ==_iff,
}
use micro_jbase.Errors.{Thrown}
use micro_jbase.Platform.{Platform}
use micro_jbase.Transactions.{Database, pool_query}
use micro_jbase.Transactions.Runs.{Ensures, IsNone}
use micro_jbase.Auth.{Bytes, Crypto, User, Session, AuthResult}
use micro_jbase.Auth.Email.{normalise_email, validate_password}
use micro_jbase.Auth.Tokens.{
  hash_raw_token, parse_raw_token, generate_session_token, is_token_shape, hash_token_bytes,
}
use micro_jbase.Auth.Repository.{
  AuthTables, create_user_and_session, find_active, find_active_user_by_token_hash,
}
use micro_jbase.Auth.Service.{
  Context, register, store_account, registered, step, and_then, catching, as_registered,
  as_auth_error, authenticate, expiry,
}
use micro_jbase.Auth.Accounts.{postgres_repository}
use micro_jbase.Auth.Enrolled.{Ensures-ok, known_as, Opens, create_user_and_session-Committed}

-- What the documentation of Node says of base64url, for these 32 bytes: they become 43 units of its
-- alphabet, and decoding gives the bytes back.
pub record IsBase64url (crypto : Crypto) (bytes : Bytes) : Type 0 where
  pub decodes : crypto.from_base64url (crypto.to_base64url bytes) ≡ bytes
  pub shapes : is_token_shape (crypto.to_base64url bytes) ≡ true

hash_raw_token-issued :
    (crypto : Crypto) (bytes : Bytes)
    → IsBase64url crypto bytes
    → length bytes ≡ 32
    → hash_raw_token crypto (crypto.to_base64url bytes) ≡ some (crypto.sha256 bytes)
unfolding hash_raw_token parse_raw_token hash_token_bytes
hash_raw_token-issued crypto bytes laws sized =
    let long : (length (crypto.to_base64url bytes) == 43) ≡ true =
      unfold is_token_shape in (&&-true _ _ (laws.shapes)).0 in
    rw
      (
        laws.shapes,
        laws.decodes,
        (==_iff (length bytes) 32).1 sized,
        text_eq_refl (crypto.to_base64url bytes),
        long,
      )
      refl

-- on a pool that is open, with queries that are all fine
abbrev pub fresh : {D : Type 0} → Database D → Database D
fresh s = record s { fates = []; closed = false }

module _ (platform : Platform) (uuid : ℕ → Text) where
  module _ (crypto : Crypto) (ttl : ℕ) where
    -- The token is the text of some bytes, whose hash opens the session of the account.
    abbrev Issued : Bytes → AuthResult → Database AuthTables → Type 0
    Issued bytes result t =
        (result.token ≡ crypto.to_base64url bytes)
        × (length bytes ≡ 32)
        × ((now : ℕ)
            → now < result.expires_at
            → find_active (crypto.sha256 bytes) now t.committed.users t.committed.sessions
              ≡ some (known_as result.user))

    stored-Issued :
        (bytes : Bytes) (run : Result Thrown (User × Session) × Database AuthTables)
        → length bytes ≡ 32
        → Ensures (λ us t. Opens (crypto.sha256 bytes) us.0 us.1 t.committed) (λ t. Unit) run
        → Ensures
            (Issued bytes)
            (λ t. Unit)
            (and_then (catching run as_registered) λ created v. (
              ok (
                  registered platform crypto ttl
                    (postgres_repository platform uuid)
                    (crypto.to_base64url bytes)
                    created),
              v,
            ))
    unfolding Ensures
    stored-Issued bytes (ok (user, session), t) sized h = (refl, sized, h)
    stored-Issued bytes (err e, t) sized h = tt

    step-Issued :
        {A : Type 0} (bytes : Bytes) (r : Result Thrown A)
        (next : A → Database AuthTables → Result Thrown AuthResult × Database AuthTables)
        (s : Database AuthTables)
        → ((a : A) → Ensures (Issued bytes) (λ t. Unit) (next a s))
        → Ensures (Issued bytes) (λ t. Unit) (step r next s)
    unfolding Ensures
    step-Issued bytes (ok a) next s h = h a
    step-Issued bytes (err e) next s h = tt

    token-Issued :
        (context : Context) (email password_hash : Text) (s : Database AuthTables)
        → All IsNone s.idle
        → Ensures
            (Issued context.random)
            (λ t. Unit)
            (step
              (generate_session_token crypto context.random)
              (store_account platform crypto ttl
                (postgres_repository platform uuid)
                context
                email
                password_hash)
              s)
    unfolding generate_session_token store_account Ensures hash_token_bytes
    token-Issued context email password_hash s clean =
        elim (Bool-cases (length context.random == 32)) [
          | inl sized ↦ rw sized (
              stored-Issued context.random
                (create_user_and_session platform uuid email password_hash
                  (crypto.sha256 context.random)
                  (expiry platform crypto ttl (postgres_repository platform uuid) context) s)
                ((==_iff (length context.random) 32).0 sized)
                (create_user_and_session-Committed platform uuid email password_hash
                  (crypto.sha256 context.random)
                  (expiry platform crypto ttl (postgres_repository platform uuid) context) s clean))
          | inr wrong ↦ rw wrong tt
        ]

    register-Issued :
        (context : Context) (email password : Text) (s : Database AuthTables)
        → All IsNone s.idle
        → Ensures
            (Issued context.random)
            (λ t. Unit)
            (register platform crypto ttl
              (postgres_repository platform uuid)
              context
              email
              password
              s)
    unfolding register
    register-Issued context email password s clean =
        step-Issued context.random (as_auth_error (normalise_email platform crypto email)) _ s
          λ address.
            step-Issued context.random (as_auth_error (validate_password password)) _ s λ valid.
              step-Issued context.random (crypto.argon2_hash context.salt password) _ s
                λ password_hash. token-Issued context address password_hash s clean

    accepted :
        (bytes : Bytes) (result : AuthResult) (t : Database AuthTables) (now : ℕ)
        → IsBase64url crypto bytes
        → Issued bytes result t
        → now < result.expires_at
        → (authenticate platform crypto ttl
            (postgres_repository platform uuid)
            now
            result.token
            (fresh t)).0
          ≡ ok (known_as result.user)
    unfolding authenticate find_active_user_by_token_hash pool_query
    accepted bytes result t now laws (token, sized, found) soon =
        rw (token, hash_raw_token-issued crypto bytes laws sized, found now soon) refl

    -- Where a registration returns, its token authenticates the new user at every time before the session
    -- expires, on a pool that is open and whose queries are answered, if base64url gives the random
    -- bytes back and no idle client of the pool had a user.
    pub register-authenticate :
        (context : Context) (email password : Text) (s : Database AuthTables) (result : AuthResult)
        (now : ℕ)
        → IsBase64url crypto context.random
        → All IsNone s.idle
        → (register platform crypto ttl
            (postgres_repository platform uuid)
            context
            email
            password
            s).0
          ≡ ok result
        → now < result.expires_at
        → (authenticate platform crypto ttl (postgres_repository platform uuid) now result.token (
            fresh
              (register platform crypto ttl
                (postgres_repository platform uuid)
                context
                email
                password
                s).1)).0
          ≡ ok (known_as result.user)
    register-authenticate context email password s result now laws clean returned soon =
        let run =
          register platform crypto ttl (postgres_repository platform uuid) context email password
            s in
        accepted context.random result run.1 now laws
          (Ensures-ok (Issued context.random) (λ t. Unit) run result
            (register-Issued context email password s clean) returned)
          soon
