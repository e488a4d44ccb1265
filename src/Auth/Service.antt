-- ===== src/Auth/Service.antt =====
-- AuthServiceImpl of src/auth/service.ts, over an interface of repositories whose calls change a state of
-- any type. The clock, the random bytes and the salt of argon2 are arguments of each call.
use micro_jbase.Base.{
  ℕ, ◌+◌, ◌*◌, ◌==◌, Bool, true, false, Option, none, some, Result, ok, err, if◌then◌else◌, Text,
  lit, text_eq,
}
use micro_jbase.Errors.{
  AppError, app_error, ErrorCode, invalid_credentials, auth_required, email_already_registered,
  Thrown, Field, ErrorObject, thrown_object, error_object,
}
use micro_jbase.Platform.{Platform}
use micro_jbase.Auth.{Bytes, Crypto, User, UserRecord, Session, AuthenticatedUser, AuthResult}
use micro_jbase.Auth.Email.{normalise_email, validate_password}
use micro_jbase.Auth.Tokens.{generate_session_token, hash_raw_token}
use micro_jbase.Auth.Repository.{already_registered}
pub mod Logins
pub mod Keeping

abbrev pub Call : Type 0 → Type 0 → Type 0
Call W A = W → Result Thrown A × W

-- AuthRepository of the contracts
pub record AuthRepository (W : Type 0) : Type 0 where
  pub create_user_and_session : Text → Text → Bytes → ℕ → Call W (User × Session)
  pub find_by_email : Text → Call W (Option UserRecord)
  pub create_session : Text → Bytes → ℕ → Call W Session
  pub find_active_user_by_token_hash : Bytes → ℕ → Call W (Option AuthenticatedUser)
  pub revoke_by_token_hash : Bytes → ℕ → Call W Bool

abbrev pub and_then : {W A B : Type 0} → Result Thrown A × W → (A → Call W B) → Result Thrown B × W
and_then (ok a, w) next = next a w
and_then (err e, w) next = (err e, w)

abbrev pub catching : {W A : Type 0} → Result Thrown A × W → (Thrown → Thrown) → Result Thrown A × W
catching (ok a, w) handler = (ok a, w)
catching (err e, w) handler = (err (handler e), w)

-- a step that does not call the repository
abbrev pub step : {W A B : Type 0} → Result Thrown A → (A → Call W B) → Call W B
step (ok a) next w = next a w
step (err e) next w = (err e, w)

-- an AuthError
abbrev pub as_auth_error : {A : Type 0} → Result AppError A → Result Thrown A
as_auth_error (ok a) = ok a
as_auth_error (err e) = err (Thrown.domain e)

abbrev is_string : Field → Bool
is_string (Field.string t) = true
is_string _ = false

abbrev is_number : Field → Bool
is_number (Field.number n) = true
is_number _ = false

abbrev is_code : Text → Field → Bool
is_code expected (Field.string t) = text_eq t expected
is_code expected _ = false

-- isAppErrorLike(error) && error.code === "EMAIL_ALREADY_REGISTERED"
abbrev is_registered_object : Option ErrorObject → Bool
is_registered_object none = false
is_registered_object (some o) =
    if is_code (lit "EMAIL_ALREADY_REGISTERED") o.code
    then (if is_string o.message then is_number o.status else false)
    else false

unfoldable pub as_registered : Thrown → Thrown
unfolding thrown_object
as_registered e =
    if is_registered_object (thrown_object e) then Thrown.domain already_registered else e

abbrev pub bad_credentials : Thrown
bad_credentials =
    Thrown.domain (app_error invalid_credentials (lit "Invalid email or password") 401)

abbrev pub unauthenticated : Thrown
unauthenticated = Thrown.domain (app_error auth_required (lit "Authentication required") 401)

-- verifyPassword: an error of argon2 is a password that does not match
abbrev pub or_false : Result Thrown Bool → Bool
or_false (ok b) = b
or_false (err e) = false

-- what a call takes from its surroundings
pub record Context : Type 0 where
  pub now : ℕ
  pub random : Bytes
  pub salt : Text

module _ {W : Type 0} (platform : Platform) (crypto : Crypto) (ttl : ℕ)
    (repository : AuthRepository W) where
  unfoldable pub verify_password : Text → Text → Bool
  verify_password password_hash password = or_false (crypto.argon2_verify password_hash password)

  abbrev pub expiry : Context → ℕ
  expiry context = context.now + ttl * 1000

  abbrev pub registered : Text → User × Session → AuthResult
  registered raw (user, session) = record {
    user = user;
    token = raw;
    expires_at = session.expires_at;
  }

  -- the insertion, with its error
  unfoldable pub store_account : Context → Text → Text → Text × Bytes → Call W AuthResult
  store_account context email password_hash (raw, token_hash) w =
      and_then
        (catching
          (repository.create_user_and_session email password_hash token_hash (expiry context) w)
          as_registered)
        λ created v. (ok (registered raw created), v)

  unfoldable pub register : Context → Text → Text → Call W AuthResult
  register context raw_email password =
      step (as_auth_error (normalise_email platform crypto raw_email)) λ email.
        step (as_auth_error (validate_password password)) λ valid.
          step (crypto.argon2_hash context.salt password) λ password_hash.
            step (generate_session_token crypto context.random)
              (store_account context email password_hash)

  abbrev pub logged_in : User → Text → Session → AuthResult
  logged_in user raw session = record { user = user; token = raw; expires_at = session.expires_at }

  unfoldable pub open_session : Context → User → Text × Bytes → Call W AuthResult
  open_session context user (raw, token_hash) w =
      and_then (repository.create_session user.id token_hash (expiry context) w)
        λ session v. (ok (logged_in user raw session), v)

  -- the login, once the repository has answered; the dummy verification has no effect
  unfoldable pub check_login : Context → Text → Option UserRecord → Call W AuthResult
  check_login context password none w = (err bad_credentials, w)
  check_login context password (some found) w =
      if verify_password found.password_hash password
      then step (generate_session_token crypto context.random) (open_session context found.user) w
      else (err bad_credentials, w)

  unfoldable pub login : Context → Text → Text → Call W AuthResult
  login context raw_email password =
      step (as_auth_error (normalise_email platform crypto raw_email))
        λ email w. and_then (repository.find_by_email email w) (check_login context password)

  abbrev pub or_unauthenticated : Option AuthenticatedUser → Call W AuthenticatedUser
  or_unauthenticated none w = (err unauthenticated, w)
  or_unauthenticated (some user) w = (ok user, w)

  abbrev pub authenticate_hash : ℕ → Option Bytes → Call W AuthenticatedUser
  authenticate_hash now none w = (err unauthenticated, w)
  authenticate_hash now (some hash) w =
      and_then (repository.find_active_user_by_token_hash hash now w) or_unauthenticated

  unfoldable pub authenticate : ℕ → Text → Call W AuthenticatedUser
  authenticate now raw = authenticate_hash now (hash_raw_token crypto raw)

  abbrev pub logout_hash : ℕ → Option Bytes → Call W Unit
  logout_hash now none w = (err unauthenticated, w)
  logout_hash now (some hash) w =
      and_then (repository.revoke_by_token_hash hash now w) λ done v. (ok tt, v)

  unfoldable pub logout : ℕ → Text → Call W Unit
  logout now raw = logout_hash now (hash_raw_token crypto raw)
