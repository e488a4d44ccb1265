-- ===== src/Auth/Tokens.antt =====
-- src/auth/token.ts, src/auth/admin-token.ts and src/http/bearer.ts: session tokens, the operator's token, and
-- the header that carries a token. Lengths are of lists, of bytes or of code units.
use micro_jbase.Base.{
  ℕ, Bool, true, false, not, ◌&&◌, ◌||◌, Option, none, some, List, [], ◌∷◌, if◌then◌else◌, ◌==◌,
  length, null, all, drop, take, Result, ok, err, Text, lit, text_eq, is_letter, is_digit, is_hex,
  starts_with,
}
use micro_jbase.Errors.{Thrown, Field, DetailsField}
use micro_jbase.Platform.{Platform}
use micro_jbase.Auth.{Bytes, Crypto}

abbrev pub token_byte_length : ℕ
token_byte_length = 32

abbrev pub token_transport_length : ℕ
token_transport_length = 43

-- new Error(message)
abbrev pub plain_error : Text → Thrown
plain_error message = Thrown.object (record {
  code = Field.absent;
  sql_state = Field.absent;
  message = Field.string message;
  status = Field.absent;
  details = DetailsField.absent;
  is_error = true;
  constraint = Field.absent;
  printed = message;
})

-- TOKEN_SHAPE
unfoldable pub is_token_shape : Text → Bool
is_token_shape t =
    length t == token_transport_length
    && all (λ c. is_letter c || (is_digit c || (c == b'_' || c == b'-'))) t

module _ (crypto : Crypto) where
  unfoldable pub hash_token_bytes : Bytes → Bytes
  hash_token_bytes bytes = crypto.sha256 bytes

  -- of the bytes that randomBytes(TOKEN_BYTE_LENGTH) returns: the raw token and its hash
  unfoldable pub generate_session_token : Bytes → Result Thrown (Text × Bytes)
  generate_session_token bytes =
      if length bytes == token_byte_length
      then ok (crypto.to_base64url bytes, hash_token_bytes bytes)
      else err (plain_error (lit "randomBytes must return exactly 32 bytes"))

  unfoldable pub parse_raw_token : Text → Option Bytes
  parse_raw_token raw =
      let bytes = crypto.from_base64url raw in
      if not (is_token_shape raw)
      then none
      else if not (length bytes == token_byte_length)
      then none
      else if not (text_eq (crypto.to_base64url bytes) raw)
      then none
      else if not (length raw == token_transport_length)
      then none
      else some bytes

  abbrev hashed : Option Bytes → Option Bytes
  hashed none = none
  hashed (some bytes) = some (hash_token_bytes bytes)

  unfoldable pub hash_raw_token : Text → Option Bytes
  hash_raw_token raw = hashed (parse_raw_token raw)

  unfoldable pub hash_operator_token : Text → Bytes
  hash_operator_token raw = crypto.sha256 (crypto.utf8 raw)

  unfoldable pub decode_admin_token_digest : Text → Option Bytes
  decode_admin_token_digest digest =
      if length digest == 64 && all is_hex digest then some (crypto.from_hex digest) else none

  -- timingSafeEqual of two buffers of one length is their equality
  unfoldable pub verify_operator_token : Option Text → Bytes → Bool
  verify_operator_token none expected = false
  verify_operator_token (some raw) expected =
      if null expected
      then false
      else if not (length (hash_operator_token raw) == length expected)
      then false
      else text_eq (hash_operator_token raw) expected

-- the header of a request: missing, one value, or an array of values
pub data Header : Type 0 where
  missing : Header
  one : Text → Header
  many : List Text → Header

abbrev bearer_prefix : Text
bearer_prefix = lit "Bearer "

abbrev bearer_prefix_lower : Text
bearer_prefix_lower = lit "bearer "

module _ (platform : Platform) where
  abbrev prefix_length : Text → ℕ
  prefix_length value =
      if text_eq (platform.to_lower (take 7 value)) bearer_prefix_lower then 7 else 7

  abbrev or_none : Text → Option Text
  or_none [] = none
  or_none (c ∷ cs) = some (c ∷ cs)

  -- of the header's value
  unfoldable pub bearer_of_value : Text → Option Text
  bearer_of_value raw =
      let value = platform.trim raw in
      if not (starts_with bearer_prefix value) && not (starts_with bearer_prefix_lower value)
      then none
      else or_none (platform.trim (drop (prefix_length value) value))

  unfoldable pub extract_bearer_token : Header → Option Text
  extract_bearer_token missing = none
  extract_bearer_token (one []) = none
  extract_bearer_token (one (c ∷ cs)) = bearer_of_value (c ∷ cs)
  extract_bearer_token (many []) = none
  extract_bearer_token (many (value ∷ [])) = bearer_of_value value
  extract_bearer_token (many (value ∷ other ∷ rest)) = none
