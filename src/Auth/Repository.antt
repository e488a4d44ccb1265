-- ===== src/Auth/Repository.antt =====
-- src/database/auth-repository.ts: users and sessions in the database. A statement is what its SQL does to
-- the two tables, with their unique and foreign keys (migrations/0002 and 0003).
use micro_jbase.Base.{
  ℕ, suc, ltb, Bool, true, false, not, ◌&&◌, Option, none, some, List, [], ◌∷◌, map, if◌then◌else◌,
  Result, ok, err, Text, lit, text_eq,
}
use micro_jbase.Errors.{
  AppError, app_error, internal_error, email_already_registered, Thrown, Field, DetailsField,
  ErrorObject, thrown_object,
}
use micro_jbase.Platform.{Platform}
use micro_jbase.Transactions.{
  Database, Query, Block, followed, caught, run_query, pool_query, with_transaction,
}
use micro_jbase.Auth.{Bytes, User, UserRecord, Session, AuthenticatedUser}
pub mod Kept

-- `next` numbers the generated ids, and `clock` is the time of the database
pub record AuthTables : Type 0 where
  pub users : List UserRecord
  pub sessions : List Session
  pub next : ℕ
  pub clock : ℕ

abbrev pub violation : Text → Text → Thrown
violation sqlstate name = Thrown.object (record {
  code = Field.string sqlstate;
  sql_state = Field.absent;
  message = Field.string name;
  status = Field.absent;
  details = DetailsField.absent;
  is_error = true;
  constraint = Field.string name;
  printed = name;
})

abbrev pub if_some : {A B : Type 0} → Option A → B → B → B
if_some none present absent = absent
if_some (some a) present absent = present

unfoldable pub find_user_by_email : Text → List UserRecord → Option UserRecord
find_user_by_email email [] = none
find_user_by_email email (u ∷ us) =
    if text_eq u.user.email email then some u else find_user_by_email email us

unfoldable pub find_user_by_id : Text → List UserRecord → Option UserRecord
find_user_by_id id [] = none
find_user_by_id id (u ∷ us) = if text_eq u.user.id id then some u else find_user_by_id id us

unfoldable pub has_token_hash : Bytes → List Session → Bool
has_token_hash hash [] = false
has_token_hash hash (s ∷ ss) =
    let later = has_token_hash hash ss in if text_eq s.token_hash hash then true else later

-- s.revoked_at IS NULL AND s.expires_at > $2
abbrev pub is_open : Option ℕ → Bool
is_open none = true
is_open (some t) = false

unfoldable pub is_live : Bytes → ℕ → Session → Bool
is_live hash now s = text_eq s.token_hash hash && (is_open s.revoked_at && ltb now s.expires_at)

abbrev pub authenticated : UserRecord → AuthenticatedUser
authenticated u = record { id = u.user.id; email = u.user.email }

abbrev pub or_later : Option UserRecord → Option AuthenticatedUser → Option AuthenticatedUser
or_later none later = later
or_later (some u) later = some (authenticated u)

-- the first row of the join of the live sessions with their users
unfoldable pub find_active : Bytes → ℕ → List UserRecord → List Session → Option AuthenticatedUser
find_active hash now users [] = none
find_active hash now users (s ∷ ss) =
    let later = find_active hash now users ss in
    if is_live hash now s then or_later (find_user_by_id s.user_id users) later else later

abbrev pub revoked : Bytes → ℕ → Session → Session
revoked hash at s =
    if text_eq s.token_hash hash && is_open s.revoked_at
    then record s { revoked_at = some at }
    else s

unfoldable pub revokes_some : Bytes → List Session → Bool
revokes_some hash [] = false
revokes_some hash (s ∷ ss) =
    let later = revokes_some hash ss in
    if text_eq s.token_hash hash && is_open s.revoked_at then true else later

-- isUsersEmailUniqueViolation
abbrev pub is_text : Field → Text → Bool
is_text (Field.string t) expected = text_eq t expected
is_text _ expected = false

abbrev is_email_violation_object : Option ErrorObject → Bool
is_email_violation_object none = false
is_email_violation_object (some o) =
    is_text o.code (lit "23505") && is_text o.constraint (lit "users_email_key")

unfoldable pub is_users_email_unique_violation : Thrown → Bool
unfolding thrown_object
is_users_email_unique_violation e = is_email_violation_object (thrown_object e)

abbrev pub already_registered : AppError
already_registered = app_error email_already_registered (lit "Email already registered") 409

abbrev pub no_row : Thrown
no_row = Thrown.app (app_error internal_error (lit "An unexpected database error occurred") 500)

unfoldable pub revoke_sessions : Bytes → ℕ → Query AuthTables Bool
revoke_sessions token_hash revoked_at t = ok (
  revokes_some token_hash t.sessions,
  record t { sessions = map (revoked token_hash revoked_at) t.sessions },
)

-- `uuid` is gen_random_uuid()
module _ (platform : Platform) (uuid : ℕ → Text) where
  unfoldable pub insert_user : Text → Text → Query AuthTables (Option User)
  insert_user email password_hash t =
      let created : User = record { id = uuid t.next; email = email; created_at = t.clock } in
      if_some (find_user_by_email email t.users)
        (err (violation (lit "23505") (lit "users_email_key")))
        (ok (
          some created,
          record t {
            users = record { user = created; password_hash = password_hash } ∷ t.users;
            next = suc t.next;
          },
        ))

  unfoldable pub insert_session : Text → Bytes → ℕ → Query AuthTables (Option Session)
  insert_session user_id token_hash expires_at t =
      let created : Session = record {
        id = uuid t.next;
        user_id = user_id;
        token_hash = token_hash;
        expires_at = expires_at;
        created_at = t.clock;
        revoked_at = none;
      } in
      if has_token_hash token_hash t.sessions
      then err (violation (lit "23505") (lit "sessions_token_hash_key"))
      else if_some (find_user_by_id user_id t.users)
          (ok (some created, record t { sessions = created ∷ t.sessions; next = suc t.next }))
          (err (violation (lit "23503") (lit "sessions_user_id_fkey")))

  -- the insertion of the user, with its error translated
  unfoldable pub register_user : Text → Text → Block AuthTables (Option User)
  register_user email password_hash s =
      caught (run_query (insert_user email password_hash) s) λ e t.
        if is_users_email_unique_violation e
        then (err (Thrown.app already_registered), t)
        else (err e, t)

  abbrev pub paired : User → Option Session → Block AuthTables (User × Session)
  paired user none s = (err no_row, s)
  paired user (some session) s = (ok (user, session), s)

  abbrev pub with_session : Bytes → ℕ → Option User → Block AuthTables (User × Session)
  with_session token_hash expires_at none s = (err no_row, s)
  with_session token_hash expires_at (some user) s =
      followed (run_query (insert_session user.id token_hash expires_at) s) (paired user)

  -- the block of createUserAndSession
  unfoldable pub registration : Text → Text → Bytes → ℕ → Block AuthTables (User × Session)
  registration email password_hash token_hash expires_at s =
      followed (register_user email password_hash s) (with_session token_hash expires_at)

  unfoldable pub create_user_and_session :
      Text → Text → Bytes → ℕ → Block AuthTables (User × Session)
  create_user_and_session email password_hash token_hash expires_at =
      with_transaction platform (registration email password_hash token_hash expires_at) none

  unfoldable pub find_by_email : Text → Block AuthTables (Option UserRecord)
  find_by_email email = pool_query platform λ t. ok (find_user_by_email email t.users, t)

  abbrev pub required : Option Session → Block AuthTables Session
  required none s = (err no_row, s)
  required (some session) s = (ok session, s)

  unfoldable pub create_session : Text → Bytes → ℕ → Block AuthTables Session
  create_session user_id token_hash expires_at s =
      followed (pool_query platform (insert_session user_id token_hash expires_at) s) required

  unfoldable pub find_active_user_by_token_hash :
      Bytes → ℕ → Block AuthTables (Option AuthenticatedUser)
  find_active_user_by_token_hash token_hash now =
      pool_query platform λ t. ok (find_active token_hash now t.users t.sessions, t)

  unfoldable pub revoke_by_token_hash : Bytes → ℕ → Block AuthTables Bool
  revoke_by_token_hash token_hash revoked_at =
      pool_query platform (revoke_sessions token_hash revoked_at)
