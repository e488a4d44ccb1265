-- ===== src/Auth/Email.antt =====
-- src/auth/email.ts and the rules of src/auth/password.ts: normalisation of addresses, and which addresses
-- and passwords are accepted.
use micro_jbase.Base.{
  arith, ℕ, suc, ◌+◌, ◌≤◌, ◌≡◌, refl, ap, Bool, true, false, not, ◌&&◌, ◌||◌, Option, List, [], ◌∷◌,
  ◌++◌, if◌then◌else◌, ◌==◌, ltb, leb, length, null, all, Result, ok, err, guard, ◌>>◌, Text, lit,
  includes,
}
use micro_jbase.Errors.{AppError, validation_error, app_error_with, Detail}
use micro_jbase.Platform.{Platform}
use micro_jbase.Auth.{Crypto}
pub mod Shape

-- \s of a regular expression
unfoldable pub is_space : ℕ → Bool
is_space c =
    (leb 9 c && leb c 13)
    || (c == 32
        || (c == 0xa0
            || (c == 0x1680
                || (leb 0x2000 c && leb c 0x200a
                    || (c == 0x2028
                        || (c == 0x2029
                            || (c == 0x202f || (c == 0x205f || (c == 0x3000 || c == 0xfeff)))))))))

-- [^\s@]
unfoldable pub is_part : ℕ → Bool
is_part c = not (c == b'@') && not (is_space c)

-- what follows the first unit of `[^\s@]+\.[^\s@]+$`, once its units are known to be parts
unfoldable pub dot_then : Text → Bool
dot_then [] = false
dot_then (c ∷ cs) = (c == b'.' && not (null cs)) || dot_then cs

unfoldable pub is_domain : Text → Bool
is_domain [] = false
is_domain (c ∷ cs) = all is_part (c ∷ cs) && dot_then cs

-- what follows the first unit of the address
unfoldable pub after_local : Text → Bool
after_local [] = false
after_local (c ∷ cs) = if c == b'@' then is_domain cs else (is_part c && after_local cs)

-- PRAGMATIC_EMAIL
unfoldable pub is_pragmatic_email : Text → Bool
is_pragmatic_email [] = false
is_pragmatic_email (c ∷ cs) = is_part c && after_local cs

-- \p{Cc}
abbrev pub is_control : ℕ → Bool
is_control c = leb c 0x1f || (leb 0x7f c && leb c 0x9f)

unfoldable pub has_control : Text → Bool
has_control [] = false
has_control (c ∷ cs) = is_control c || has_control cs

abbrev pub is_high_surrogate : ℕ → Bool
is_high_surrogate c = leb 0xd800 c && leb c 0xdbff

abbrev pub is_low_surrogate : ℕ → Bool
is_low_surrogate c = leb 0xdc00 c && leb c 0xdfff

abbrev utf8_unit : ℕ → ℕ
utf8_unit c = if ltb c 0x80 then 1 else if ltb c 0x800 then 2 else 3

-- Buffer.byteLength(text, "utf8"): a lone surrogate is replaced by a character of three bytes
unfoldable pub utf8_length : Text → ℕ
utf8_length [] = 0
utf8_length (c ∷ []) = utf8_unit c
utf8_length (c ∷ d ∷ cs) =
    let pair = utf8_length cs in
    let rest = utf8_length (d ∷ cs) in
    if is_high_surrogate c && is_low_surrogate d then 4 + pair else utf8_unit c + rest

-- Array.from(text).length
unfoldable pub code_point_length : Text → ℕ
code_point_length [] = 0
code_point_length (c ∷ []) = 1
code_point_length (c ∷ d ∷ cs) =
    let pair = code_point_length cs in
    let rest = code_point_length (d ∷ cs) in
    if is_high_surrogate c && is_low_surrogate d then suc pair else suc rest

-- the units of ASCII_WHITESPACE_TRIM
abbrev pub is_ascii_space : ℕ → Bool
is_ascii_space c = leb 9 c && leb c 13 || c == 32

unfoldable pub trim_start : Text → Text
trim_start [] = []
trim_start (c ∷ cs) = let rest = trim_start cs in if is_ascii_space c then rest else c ∷ cs

-- the text without its trailing white space
unfoldable pub trim_end : Text → Text
trim_end [] = []
trim_end (c ∷ cs) = let rest = trim_end cs in if is_ascii_space c && null rest then [] else c ∷ rest

abbrev pub max_email_utf8_bytes : ℕ
max_email_utf8_bytes = 254

abbrev pub invalid_email : AppError
invalid_email =
    app_error_with validation_error (lit "Request validation failed") 400
      ((lit "email", Detail.text (lit "Must be a valid email address")) ∷ [])

unfoldable pub check_email : Text → Result AppError Text
check_email email =
    if null email
      || (ltb max_email_utf8_bytes (utf8_length email)
          || (has_control email || not (is_pragmatic_email email)))
    then err invalid_email
    else ok email

unfoldable pub normalise_email : Platform → Crypto → Text → Result AppError Text
normalise_email platform crypto raw =
    check_email (platform.to_lower (crypto.normalize_nfc (trim_end (trim_start raw))))

abbrev pub invalid_password : Text → AppError
invalid_password message =
    app_error_with validation_error (lit "Request validation failed") 400
      ((lit "password", Detail.text message) ∷ [])

unfoldable pub validate_password : Text → Result AppError Unit
unfolding code_point_length has_control
validate_password password =
    guard (not (ltb (code_point_length password) 10 || ltb 128 (code_point_length password)))
      (invalid_password (lit "Must be between 10 and 128 characters"))
    >> guard (not (has_control password))
        (invalid_password (lit "Must not contain control characters"))
