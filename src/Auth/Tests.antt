-- ===== src/Auth/Tests.antt =====
-- Accounts at work: a registration, its token, a logout, and addresses.
use micro_jbase.Base.{
  arith, ℕ, ◌≡◌, ◌≢◌, ◌↔◌, refl, true, false, none, some, [], ◌∷◌, replicate, Result, ok, err, Text,
  text_eq,
}
use micro_jbase.Errors.{Thrown}
use micro_jbase.Fixtures.{plain_platform, notes}
use micro_jbase.Transactions.{Database, with_transaction, pool_query, run_query}
use micro_jbase.Auth.{Bytes, Crypto, UserRecord, AuthenticatedUser, AuthResult}
use micro_jbase.Auth.Email.{
  normalise_email, validate_password, is_pragmatic_email, utf8_length, check_email, has_control,
  is_part, is_space, is_domain, dot_then, after_local, code_point_length, trim_start, trim_end,
  invalid_email,
}
use micro_jbase.Auth.Email.Shape.{IsAccepted, normal_form, normalise_email_exact}
use micro_jbase.Auth.Tokens.{
  hash_raw_token, parse_raw_token, is_token_shape, hash_token_bytes, generate_session_token,
}
use micro_jbase.Auth.Repository.{
  AuthTables, has_token_hash, find_active, create_user_and_session, registration, register_user,
  insert_user, insert_session, find_user_by_email, find_user_by_id, find_active_user_by_token_hash,
  is_live, revoke_by_token_hash, revoke_sessions, revokes_some,
}
use micro_jbase.Auth.Service.{
  Context, register, store_account, login, authenticate, logout, bad_credentials,
}
use micro_jbase.Auth.Service.Logins.{IsUnproven, IsProven, login_exact}
use micro_jbase.Auth.Accounts.{postgres_repository, here}
use micro_jbase.Auth.Sessions.{logout_is_final}
use micro_jbase.Auth.RoundTrip.{fresh, register-authenticate}
use micro_jbase.Auth.Active.{IsActive, authenticate-IsActive}

-- random bytes, and a codec for these bytes alone
abbrev bytes : Bytes
bytes = replicate 32 7

abbrev token : Text
token = replicate 43 b'a'

abbrev crypto : Crypto
crypto = record {
  normalize_nfc = λ t. t;
  to_base64url = λ b. token;
  from_base64url = λ t. bytes;
  utf8 = λ t. t;
  from_hex = λ t. t;
  sha256 = λ b. b;
  argon2_hash = λ salt password. ok password;
  argon2_verify = λ hash password. ok (text_eq hash password);
}

abbrev uuid : ℕ → Text
uuid n = n ∷ []

abbrev empty : Database AuthTables
empty = record {
  committed = record { users = []; sessions = []; next = 1; clock = 50 };
  working = record { users = []; sessions = []; next = 1; clock = 50 };
  identity = none;
  idle = none ∷ [];
  closed = false;
  fates = [];
}

abbrev context : Context
context = record { now = 100; random = bytes; salt = notes }

-- a@b.c
abbrev address : Text
address = b'a' ∷ b'@' ∷ b'b' ∷ b'.' ∷ b'c' ∷ []

abbrev password : Text
password = replicate 12 b'x'

abbrev enrolled : Result Thrown AuthResult × Database AuthTables
enrolled =
    register plain_platform crypto 10 (postgres_repository plain_platform uuid) context address
      password empty

abbrev account : AuthResult
account = record {
  user = record { id = 1 ∷ []; email = address; created_at = 50 };
  token = token;
  expires_at = 10100;
}

registers_account : enrolled.0 ≡ ok account
unfolding register normalise_email check_email trim_start trim_end utf8_length has_control
    is_pragmatic_email is_part is_space after_local is_domain dot_then validate_password
    code_point_length generate_session_token hash_token_bytes store_account create_user_and_session
    with_transaction registration register_user run_query insert_user insert_session
    find_user_by_email find_user_by_id has_token_hash text_eq
registers_account = refl

normalise_email_exact_example :
    ((normalise_email plain_platform crypto address
        ≡ ok (normal_form plain_platform crypto address))
      ↔ IsAccepted (normal_form plain_platform crypto address))
    × ((¬ IsAccepted (normal_form plain_platform crypto address))
        → normalise_email plain_platform crypto address ≡ err invalid_email)
normalise_email_exact_example = normalise_email_exact plain_platform crypto address

refuses_two_ats : is_pragmatic_email (b'a' ∷ b'@' ∷ address) ≡ false
unfolding is_pragmatic_email is_part is_space after_local is_domain dot_then
refuses_two_ats = refl

address_normal : normalise_email plain_platform crypto address ≡ ok address
unfolding normalise_email check_email trim_start trim_end utf8_length has_control is_pragmatic_email
    is_part is_space after_local is_domain dot_then
address_normal = refl

login_exact_example :
    ((v : Database AuthTables)
      → IsUnproven plain_platform crypto 10
          (postgres_repository plain_platform uuid)
          context
          address
          password
          address
          empty
          v
      → login plain_platform crypto 10
          (postgres_repository plain_platform uuid)
          context
          address
          password
          empty
        ≡ (err bad_credentials, v))
    × ((result : AuthResult) (end : Database AuthTables)
        → login plain_platform crypto 10
            (postgres_repository plain_platform uuid)
            context
            address
            password
            empty
          ≡ (ok result, end)
        → (found : UserRecord) × (v : Database AuthTables) × IsProven plain_platform crypto 10
            (postgres_repository plain_platform uuid)
            context
            address
            password
            address
            empty
            v
            found
          × (result.user ≡ found.user))
login_exact_example =
    login_exact plain_platform crypto 10 (postgres_repository plain_platform uuid) context address
      password address empty address_normal

token_hash : hash_raw_token crypto token ≡ some bytes
unfolding hash_raw_token parse_raw_token is_token_shape hash_token_bytes text_eq
token_hash = refl

-- what the registration committed
abbrev with_account : Database AuthTables
with_account = record empty {
  committed = record {
    users = record { user = account.user; password_hash = password } ∷ [];
    sessions =
        record {
          id = 2 ∷ [];
          user_id = 1 ∷ [];
          token_hash = bytes;
          expires_at = 10100;
          created_at = 50;
          revoked_at = none;
        }
        ∷ [];
    next = 3;
    clock = 50;
  };
}

abbrev named : AuthenticatedUser
named = record { id = 1 ∷ []; email = address }

accepts_token :
    (authenticate plain_platform crypto 10
      (postgres_repository plain_platform uuid)
      200
      token
      with_account).0
    ≡ ok named
unfolding authenticate hash_raw_token parse_raw_token is_token_shape hash_token_bytes text_eq
    find_active_user_by_token_hash pool_query find_active is_live find_user_by_id
accepts_token = refl

logs_out_account :
    (logout plain_platform crypto 10
      (postgres_repository plain_platform uuid)
      300
      token
      with_account).0
    ≡ ok tt
unfolding logout hash_raw_token parse_raw_token is_token_shape hash_token_bytes text_eq
    revoke_by_token_hash pool_query revoke_sessions revokes_some
logs_out_account = refl

has_session : has_token_hash bytes with_account.committed.sessions ≡ true
unfolding has_token_hash text_eq
has_session = refl

logout_is_final_example :
    (authenticate plain_platform crypto 10
      (postgres_repository plain_platform uuid)
      400
      token
      (logout plain_platform crypto 10
        (postgres_repository plain_platform uuid)
        300
        token
        with_account).1).0
    ≢ ok named
logout_is_final_example =
    logout_is_final plain_platform uuid crypto 10 bytes 300 400 token with_account
      (logout plain_platform crypto 10 (postgres_repository plain_platform uuid) 300 token
        with_account).1
      named token_hash has_session (refl, tt) logs_out_account here

token_shape : is_token_shape token ≡ true
unfolding is_token_shape
token_shape = refl

register-authenticate_example :
    (authenticate plain_platform crypto 10
      (postgres_repository plain_platform uuid)
      200
      token
      (fresh enrolled.1)).0
    ≡ ok named
register-authenticate_example =
    register-authenticate plain_platform uuid crypto 10 context address password empty account 200
      (record { decodes = refl; shapes = token_shape }) (refl, tt) registers_account (omega arith)

authenticate-IsActive_example :
    (hash : Bytes) × (hash_raw_token crypto token ≡ some hash)
    × IsActive hash 200 with_account.committed.users with_account.committed.sessions named
authenticate-IsActive_example =
    authenticate-IsActive plain_platform uuid crypto 10 200 with_account token named accepts_token
