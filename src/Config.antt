-- ===== src/Config.antt =====
-- src/core/config.ts: the configuration that a start reads from the environment. The environment is a function
-- from names to values; the URL parser of the platform is a parameter.
use micro_jbase.Base.{
  ℕ, ◌==◌, Bool, true, false, not, ◌&&◌, ◌||◌, Option, none, some, List, [], ◌∷◌, length, null, all,
  if◌then◌else◌, Result, ok, err, guard, ◌>>=◌, ◌>>◌, Text, lit, text_eq, includes, concat, is_hex,
  Number, int, pos, is_integer, num_lt, num_gt,
}
use micro_jbase.Errors.{app_error_with, validation_error, Detail, Details, Thrown}
use micro_jbase.Platform.{Platform}
use micro_jbase.Tables.{ExposedTableMapping}
pub mod Mappings
pub mod Accepted
pub mod Start
pub mod RoundTrip
pub mod Registry
mod Tests

abbrev pub Env : Type 0
Env = Text → Option Text

-- a parsed URL, as far as it is read; the port is missing or a number
pub record Url : Type 0 where
  pub protocol : Text
  pub username : Text
  pub hostname : Text
  pub port : Option ℕ
  pub pathname : Text

-- new URL(text), or nothing where it throws, and decodeURIComponent, which may throw a URIError
pub record Urls : Type 0 where
  pub new_url : Text → Option Url
  pub decode_component : Text → Result Thrown Text

pub record Surface : Type 0 where
  pub username : Text
  pub host : Text
  pub port : ℕ
  pub database : Text

pub record AppConfig : Type 0 where
  pub database_url : Text
  pub migration_database_url : Option Text
  pub schema_database_url : Option Text
  pub admin_token_sha256 : Option Text
  pub host : Text
  pub port : Number
  pub log_level : Text
  pub session_ttl_seconds : Number
  pub tables : List ExposedTableMapping
  pub trust_proxy : Bool
  pub max_body_bytes : Number

abbrev pub config_error : List Text → Details → Thrown
config_error message details =
    Thrown.app (app_error_with validation_error (concat message) 400 details)

abbrev pub bad_variable : Text → List Text → Thrown
bad_variable variable message = config_error message ((lit "variable", Detail.text variable) ∷ [])

abbrev pub valid_log_levels : List Text
valid_log_levels =
    lit "fatal" ∷ lit "error" ∷ lit "warn" ∷ lit "info" ∷ lit "debug" ∷ lit "trace" ∷ []

abbrev pub true_words : List Text
true_words = lit "true" ∷ lit "1" ∷ lit "yes" ∷ lit "on" ∷ []

abbrev pub false_words : List Text
false_words = lit "false" ∷ lit "0" ∷ lit "no" ∷ lit "off" ∷ []

-- SHA256_HEX_PATTERN
unfoldable pub is_sha256_hex : Text → Bool
is_sha256_hex t = length t == 64 && all is_hex t

abbrev pub or_default : {A : Type 0} → Option A → A → A
or_default none d = d
or_default (some a) d = a

abbrev pub is_given : Option Text → Bool
is_given none = false
is_given (some t) = true

-- pathname.replace(/^\//, "")
abbrev pub without_slash : Text → Text
without_slash [] = []
without_slash (c ∷ cs) = if c == b'/' then cs else c ∷ cs

unfoldable pub loopback_of : Text → Text
loopback_of host =
    if text_eq host (lit "localhost") || (text_eq host (lit "::1") || text_eq host (lit "[::1]"))
    then lit "127.0.0.1"
    else host

-- the comparison of two normalised URLs, none of them null
unfoldable pub same_parts : Option Surface → Option Surface → Bool
same_parts none b = false
same_parts (some a) none = false
same_parts (some a) (some b) =
    text_eq a.username b.username
    && (text_eq a.host b.host && (a.port == b.port && text_eq a.database b.database))

abbrev pub same_surface_error : Thrown
same_surface_error =
    bad_variable (lit "SCHEMA_DATABASE_URL")
      (lit "SCHEMA_DATABASE_URL must not equal DATABASE_URL (the runtime data role)" ∷ [])

unfoldable pub assert_schema_admin_config_pairing : Option Text → Option Text → Result Thrown Unit
assert_schema_admin_config_pairing schema_database_url admin_token_sha256 =
    if is_given schema_database_url
    then guard (is_given admin_token_sha256) unpaired
    else guard (not (is_given admin_token_sha256)) unpaired
  where
    unpaired : Thrown
    unpaired =
        config_error
          (lit "SCHEMA_DATABASE_URL and MICROJBASE_ADMIN_TOKEN_SHA256 must be configured together"
            ∷ [])
          ((
            lit "variables",
            Detail.texts (lit "SCHEMA_DATABASE_URL" ∷ lit "MICROJBASE_ADMIN_TOKEN_SHA256" ∷ []),
          )
            ∷ [])

module _ (platform : Platform) where
  -- raw, unless it is undefined or blank
  unfoldable pub given : Option Text → Option Text
  given none = none
  given (some raw) = if null (platform.trim raw) then none else some raw

  unfoldable pub optional_non_empty_string : Env → Text → Option Text
  optional_non_empty_string env key = given (env key)

  abbrev pub required : Text → Option Text → Result Thrown Text
  required key none = err (bad_variable key (key ∷ lit " is required" ∷ []))
  required key (some raw) = ok raw

  unfoldable pub require_variable : Env → Text → Result Thrown Text
  require_variable env key = required key (given (env key))

  unfoldable pub parse_admin_token_digest : Option Text → Result Thrown (Option Text)
  parse_admin_token_digest none = ok none
  parse_admin_token_digest (some raw) =
      let normalized = platform.to_lower (platform.trim raw) in
      guard (is_sha256_hex normalized) (
        bad_variable (lit "MICROJBASE_ADMIN_TOKEN_SHA256") (
          lit "MICROJBASE_ADMIN_TOKEN_SHA256 must be a 64-character lowercase SHA-256 hex digest"
          ∷ []))
      >> ok (some normalized)

  -- the number that is read, if it passes the test
  abbrev pub read_number : Option Text → Number → (Number → Bool) → Thrown → Result Thrown Number
  read_number none default test e = ok default
  read_number (some raw) default test e =
      guard (test (platform.to_number raw)) e >> ok (platform.to_number raw)

  abbrev pub is_port : Number → Bool
  is_port value = is_integer value && (not (num_lt value (pos 1)) && not (num_gt value (pos 65535)))

  abbrev pub is_positive_int : Number → Bool
  is_positive_int value = is_integer value && not (num_lt value (pos 1))

  unfoldable pub parse_port : Option Text → Result Thrown Number
  parse_port raw =
      read_number (given raw) (int (pos 3000)) is_port
        (bad_variable (lit "PORT") (lit "PORT must be an integer between 1 and 65535" ∷ []))

  unfoldable pub parse_positive_int : Option Text → Number → Text → Result Thrown Number
  parse_positive_int raw default variable =
      read_number (given raw) default is_positive_int
        (bad_variable variable (variable ∷ lit " must be a positive integer" ∷ []))

  abbrev pub level_of : Option Text → Result Thrown Text
  level_of none = ok (lit "info")
  level_of (some raw) =
      let level = platform.to_lower (platform.trim raw) in
      guard (includes valid_log_levels level) (
        bad_variable (lit "LOG_LEVEL")
          (lit "LOG_LEVEL must be one of fatal, error, warn, info, debug, trace" ∷ []))
      >> ok level

  unfoldable pub parse_log_level : Option Text → Result Thrown Text
  parse_log_level raw = level_of (given raw)

  abbrev pub boolean_of : Option Text → Bool → Result Thrown Bool
  boolean_of none default = ok default
  boolean_of (some raw) default =
      let normalized = platform.to_lower (platform.trim raw) in
      if includes true_words normalized
      then ok true
      else if includes false_words normalized
      then ok false
      else err (
          bad_variable (lit "TRUST_PROXY")
            (lit "TRUST_PROXY must be a boolean (true/false/1/0/yes/no/on/off)" ∷ []))

  unfoldable pub parse_boolean : Option Text → Bool → Result Thrown Bool
  parse_boolean raw default = boolean_of (given raw) default

  module _ (urls : Urls) where
    abbrev pub surface_of : Option Url → Result Thrown (Option Surface)
    surface_of none = ok none
    surface_of (some parsed) =
        if not (text_eq parsed.protocol (lit "postgres:"))
          && not (text_eq parsed.protocol (lit "postgresql:"))
        then ok none
        else (urls.decode_component parsed.username >>= λ username. ok (
            some (record {
              username = username;
              host = loopback_of (platform.to_lower parsed.hostname);
              port = or_default parsed.port 5432;
              database = without_slash parsed.pathname;
            })))

    unfoldable pub normalize_postgres_url : Text → Result Thrown (Option Surface)
    normalize_postgres_url raw = surface_of (urls.new_url raw)

    unfoldable pub assert_schema_admin_url_distinct : Text → Option Text → Result Thrown Unit
    assert_schema_admin_url_distinct database_url none = ok tt
    assert_schema_admin_url_distinct database_url (some schema_database_url) = do
      runtime ← normalize_postgres_url database_url
      admin ← normalize_postgres_url schema_database_url
      guard (not (text_eq schema_database_url database_url || same_parts runtime admin))
          same_surface_error
