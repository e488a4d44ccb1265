-- ===== src/Auth.antt =====
-- src/auth/*.ts, src/contracts/auth.ts, src/database/auth-repository.ts and src/http/bearer.ts: accounts,
-- sessions and operator tokens. `Crypto` is what the code calls of Node and of argon2.
use micro_jbase.Base.{ℕ, ◌≡◌, Bool, true, Option, List, Result, Text, length, ◌<◌}
use micro_jbase.Errors.{Thrown}
pub mod Email
pub mod Tokens
pub mod Repository
pub mod Service
pub mod Accounts
pub mod Revoked
pub mod Sessions
pub mod Enrolled
pub mod RoundTrip
pub mod Active
mod Tests

abbrev pub Bytes : Type 0
Bytes = List ℕ

pub record Crypto : Type 0 where
  pub normalize_nfc : Text → Text  -- String.prototype.normalize("NFC")
  pub to_base64url : Bytes → Text  -- buffer.toString("base64url")
  pub from_base64url : Text → Bytes  -- Buffer.from(text, "base64url")
  pub utf8 : Text → Bytes
  pub from_hex : Text → Bytes  -- Buffer.from(text, "hex")
  pub sha256 : Bytes → Bytes
  pub argon2_hash : Text → Text → Result Thrown Text  -- of a salt and a password
  pub argon2_verify : Text → Text → Result Thrown Bool

-- User and UserRecord; UserRecord adds the hash of the password
pub record User : Type 0 where
  pub id : Text
  pub email : Text
  pub created_at : ℕ

pub record UserRecord : Type 0 where
  pub user : User
  pub password_hash : Text

pub record Session : Type 0 where
  pub id : Text
  pub user_id : Text
  pub token_hash : Bytes
  pub expires_at : ℕ
  pub created_at : ℕ
  pub revoked_at : Option ℕ

pub record AuthenticatedUser : Type 0 where
  pub id : Text
  pub email : Text

pub record AuthResult : Type 0 where
  pub user : User
  pub token : Text
  pub expires_at : ℕ
