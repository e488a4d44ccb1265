-- ===== src/Fixtures.antt =====
-- Test data that several test modules share.
use micro_jbase.Base.{[], ◌∷◌, Text, int, pos}
use micro_jbase.Platform.{Platform}

-- a platform without letters to map, that prints every number as 7 and hashes to a constant
abbrev pub plain_platform : Platform
plain_platform = record {
  to_lower = λ t. t;
  to_upper = λ t. t;
  print_number = λ n. b'7' ∷ [];
  to_number = λ t. int (pos 7);
  quote_string = λ t. b'"' ∷ [];
  sha256_hex = λ t. b'a' ∷ b'b' ∷ b'c' ∷ b'd' ∷ b'e' ∷ b'f' ∷ b'0' ∷ b'1' ∷ b'2' ∷ b'3' ∷ [];
  hmac_sha256_hex = λ k t. b'a' ∷ b'b' ∷ [];
  trim = λ t. t;
}

abbrev pub notes : Text
notes = b'n' ∷ b'o' ∷ b't' ∷ b'e' ∷ b's' ∷ []

abbrev pub public_schema : Text
public_schema = b'a' ∷ b'p' ∷ b'p' ∷ []
