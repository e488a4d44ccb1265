-- ===== src/Ddl/Defaults.antt =====
-- Column types and default templates of src/database/schema-ddl.ts.
use micro_jbase.Base.{
  ℕ, suc, ◌+◌, ◌-◌, ◌%◌, Bool, true, false, not, ◌&&◌, ◌||◌, List, [], ◌∷◌, ◌++◌, if◌then◌else◌,
  ◌==◌, leb, ltb, length, take, drop, replicate, Result, ok, err, ◌>>=◌, Text, lit, is_digit,
  is_any_hex, matches_shape, has_unit, decimal_from, ℤ, pos, negsuc, Number, int, is_integer,
  is_finite, is_safe_integer, num_lt, num_gt,
}
use micro_jbase.Errors.{AppError}
use micro_jbase.Platform.{Platform}
use micro_jbase.Ddl.Identifiers.{invalid_input, quote_literal}

-- TYPE_ALLOWLIST
pub data DdlColumnType : Type 0 where
  text integer bigint boolean uuid timestamp timestamptz date numeric jsonb : DdlColumnType

unfoldable pub type_name : DdlColumnType → Text
type_name text = lit "text"
type_name integer = lit "integer"
type_name bigint = lit "bigint"
type_name boolean = lit "boolean"
type_name uuid = lit "uuid"
type_name timestamp = lit "timestamp"
type_name timestamptz = lit "timestamptz"
type_name date = lit "date"
type_name numeric = lit "numeric"
type_name jsonb = lit "jsonb"

-- JsonPrimitive of the contracts
pub data JsonPrimitive : Type 0 where
  null : JsonPrimitive
  bool : Bool → JsonPrimitive
  num : Number → JsonPrimitive
  str : Text → JsonPrimitive

pub data DdlColumnDefault : Type 0 where
  none current_timestamp random_uuid : DdlColumnDefault
  literal : JsonPrimitive → DdlColumnDefault

abbrev is_unit : ℕ → ℕ → Bool
is_unit c x = x == c

-- UUID_PATTERN, DATE_PATTERN
abbrev pub uuid_pattern : List (ℕ → Bool)
uuid_pattern =
    replicate 8 is_any_hex
    ++ (is_unit b'-' ∷ replicate 4 is_any_hex
        ++ (is_unit b'-' ∷ replicate 4 is_any_hex
            ++ (is_unit b'-' ∷ replicate 4 is_any_hex ++ (is_unit b'-' ∷ replicate 12 is_any_hex))))

abbrev pub date_pattern : List (ℕ → Bool)
date_pattern =
    replicate 4 is_digit
    ++ (is_unit b'-' ∷ replicate 2 is_digit ++ (is_unit b'-' ∷ replicate 2 is_digit))

unfoldable pub is_leap_year : ℕ → Bool
is_leap_year year = year % 4 == 0 && not (year % 100 == 0) || year % 400 == 0

unfoldable pub days_in_month : ℕ → ℕ → ℕ
unfolding is_leap_year
days_in_month year month =
    if month == 2
    then (if is_leap_year year then 29 else 28)
    else if month == 4 || (month == 6 || (month == 9 || month == 11))
    then 30
    else 31

unfoldable pub is_real_date : ℕ → ℕ → ℕ → Bool
unfolding days_in_month
is_real_date year month day =
    if ltb month 1 || (ltb 12 month || ltb day 1) then false else leb day (days_in_month year month)

-- the groups of DATE_PARTS_PATTERN stand at fixed places
unfoldable pub is_valid_date : Text → Bool
unfolding is_real_date
is_valid_date value =
    if matches_shape date_pattern value
    then is_real_date (decimal_from 0 (take 4 value)) (decimal_from 0 (take 2 (drop 5 value)))
        (decimal_from 0 (drop 8 value))
    else false

-- TIMESTAMP_PATTERN from its end: `(Z|[+-]\d{2}:?\d{2})?$`
abbrev is_sign : ℕ → Bool
is_sign c = c == b'+' || c == b'-'

unfoldable pub is_zone : Text → Bool
is_zone t =
    matches_shape [] t
    || (matches_shape (is_unit b'Z' ∷ []) t
        || (matches_shape (is_sign ∷ replicate 4 is_digit) t
            || matches_shape
                (is_sign ∷ replicate 2 is_digit ++ (is_unit b':' ∷ replicate 2 is_digit)) t))

-- `\d{1,n}` and then the zone, for what is left of a fraction
unfoldable pub is_fraction : ℕ → Text → Bool
unfolding is_zone
is_fraction ℕ.zero t = false
is_fraction (suc n) [] = false
is_fraction (suc n) (c ∷ cs) = let more = is_fraction n cs in is_digit c && (is_zone cs || more)

-- `(\.\d{1,6})?` and the zone
unfoldable pub after_seconds : Text → Bool
unfolding is_fraction
after_seconds [] = true
after_seconds (c ∷ cs) = is_zone (c ∷ cs) || (c == b'.' && is_fraction 6 cs)

-- `(:\d{2}(\.\d{1,6})?)?` and the zone
unfoldable pub after_minutes : Text → Bool
unfolding after_seconds
after_minutes (c ∷ d ∷ e ∷ cs) =
    is_zone (c ∷ d ∷ e ∷ cs) || (c == b':' && (is_digit d && (is_digit e && after_seconds cs)))
after_minutes t = is_zone t

abbrev pub minute_pattern : List (ℕ → Bool)
minute_pattern =
    date_pattern
    ++ ((λ c. c == b'T' || c == b' ') ∷ replicate 2 is_digit
        ++ (is_unit b':' ∷ replicate 2 is_digit))

unfoldable pub matches_timestamp : Text → Bool
unfolding after_minutes
matches_timestamp value =
    matches_shape minute_pattern (take 16 value) && after_minutes (drop 16 value)

abbrev pub int4_range : Number → Bool
int4_range n = num_lt n (negsuc 2_147_483_647) || num_gt n (pos 2_147_483_647)

-- text.split("e"): the part before the first `e`, and what follows it up to the next
unfoldable pub before : ℕ → Text → Text
before c [] = []
before c (x ∷ xs) = let rest = before c xs in if x == c then [] else x ∷ rest

unfoldable pub behind : ℕ → Text → Text
behind c [] = []
behind c (x ∷ xs) = let rest = behind c xs in if x == c then xs else rest

abbrev pub drop_sign : Text → Text
drop_sign [] = []
drop_sign (c ∷ cs) = if c == b'-' then cs else c ∷ cs

abbrev pub is_negative : Text → Bool
is_negative [] = false
is_negative (c ∷ cs) = c == b'-'

-- digits with the decimal point `integer_digits + exponent` places from their start
unfoldable pub place_point : Text → ℕ → ℤ → Text
place_point digits integer_digits (pos n) =
    let point = integer_digits + n in
    if point == 0
    then lit "0." ++ digits
    else if leb (length digits) point
    then digits ++ replicate (point - length digits) b'0'
    else take point digits ++ (b'.' ∷ drop point digits)
place_point digits integer_digits (negsuc n) =
    if leb integer_digits (n + 1)
    then lit "0." ++ (replicate (n + 1 - integer_digits) b'0' ++ digits)
    else let point = integer_digits - (n + 1) in
      if leb (length digits) point
      then digits ++ replicate (point - length digits) b'0'
      else take point digits ++ (b'.' ∷ drop point digits)

-- Number(exponentRaw ?? "0") of an exponent is an integer
abbrev pub exponent_of : Number → ℤ
exponent_of (int z) = z
exponent_of _ = pos 0

unfoldable pub expand_exponential : Platform → Text → Text
unfolding place_point before behind
expand_exponential platform rendered =
    let mantissa = before b'e' rendered in
    let exponent =
      (if has_unit b'e' rendered
        then exponent_of (platform.to_number (before b'e' (behind b'e' rendered)))
        else pos 0) in
    let unsigned = drop_sign mantissa in
    let integer_digits = length (before b'.' unsigned) in
    let digits = before b'.' unsigned ++ behind b'.' unsigned in
    let plain = place_point digits integer_digits exponent in
    if is_negative mantissa then b'-' ∷ plain else plain

unfoldable pub render_numeric_default : Platform → Number → Text
unfolding expand_exponential
render_numeric_default platform value =
    let rendered = platform.print_number value in
    if is_safe_integer value
    then rendered
    else if not (has_unit b'e' rendered || has_unit b'E' rendered)
    then rendered
    else expand_exponential platform rendered

abbrev pub quoted_as : Text → Text → Result AppError Text
quoted_as value cast = do quoted ← quote_literal value; ok (quoted ++ cast)

module _ (platform : Platform) where
  unfoldable pub render_literal_default : DdlColumnType → JsonPrimitive → Result AppError Text
  unfolding render_numeric_default
  render_literal_default text (str t) = quoted_as t (lit "::text")
  render_literal_default text _ = err (invalid_input (lit "text literal defaults must be strings"))
  render_literal_default integer (num n) =
      if not (is_integer n)
      then err (invalid_input (lit "integer literal defaults must be whole numbers"))
      else if not (is_safe_integer n) || int4_range n
      then err (invalid_input (lit "integer literal defaults must fit the int4 range"))
      else ok (platform.print_number n)
  render_literal_default integer _ =
      err (invalid_input (lit "integer literal defaults must be whole numbers"))
  render_literal_default bigint (num n) =
      if not (is_integer n)
      then err (invalid_input (lit "bigint literal defaults must be whole numbers"))
      else if not (is_safe_integer n)
      then err (invalid_input (lit "bigint literal defaults must fit the int8 range"))
      else ok (platform.print_number n)
  render_literal_default bigint _ =
      err (invalid_input (lit "bigint literal defaults must be whole numbers"))
  render_literal_default numeric (num n) =
      if not (is_finite n)
      then err (invalid_input (lit "numeric literal defaults must be finite numbers"))
      else ok (render_numeric_default platform n)
  render_literal_default numeric _ =
      err (invalid_input (lit "numeric literal defaults must be finite numbers"))
  render_literal_default boolean (bool b) = ok (if b then lit "TRUE" else lit "FALSE")
  render_literal_default boolean _ =
      err (invalid_input (lit "boolean literal defaults must be true or false"))
  render_literal_default uuid (str t) =
      if matches_shape uuid_pattern t
      then quoted_as (platform.to_lower t) (lit "::uuid")
      else err (invalid_input (lit "uuid literal defaults must be UUID strings"))
  render_literal_default uuid _ =
      err (invalid_input (lit "uuid literal defaults must be UUID strings"))
  render_literal_default date (str t) =
      if not (matches_shape date_pattern t)
      then err (invalid_input (lit "date literal defaults must be YYYY-MM-DD strings"))
      else if not (is_valid_date t)
      then err (invalid_input (lit "date literal defaults must be real calendar dates"))
      else quoted_as t (lit "::date")
  render_literal_default date _ =
      err (invalid_input (lit "date literal defaults must be YYYY-MM-DD strings"))
  render_literal_default timestamp (str t) =
      if matches_timestamp t && is_valid_date (take 10 t)
      then quoted_as t (lit "::timestamp")
      else err (invalid_input (lit "timestamp literal defaults must be ISO-8601 timestamp strings"))
  render_literal_default timestamp _ =
      err (invalid_input (lit "timestamp literal defaults must be ISO-8601 timestamp strings"))
  render_literal_default timestamptz (str t) =
      if matches_timestamp t && is_valid_date (take 10 t)
      then quoted_as t (lit "::timestamptz")
      else err (invalid_input (lit "timestamp literal defaults must be ISO-8601 timestamp strings"))
  render_literal_default timestamptz _ =
      err (invalid_input (lit "timestamp literal defaults must be ISO-8601 timestamp strings"))
  render_literal_default jsonb null = ok (lit "NULL::jsonb")
  render_literal_default jsonb (str t) = quoted_as (platform.quote_string t) (lit "::jsonb")
  render_literal_default jsonb (num n) =
      quoted_as (if is_finite n then platform.print_number n else lit "null") (lit "::jsonb")
  render_literal_default jsonb (bool b) =
      quoted_as (if b then lit "true" else lit "false") (lit "::jsonb")

  unfoldable pub render_default_clause : DdlColumnType → DdlColumnDefault → Result AppError Text
  unfolding render_literal_default
  render_default_clause type DdlColumnDefault.none = ok []
  render_default_clause type (literal value) = do
    rendered ← render_literal_default type value
    ok (lit " DEFAULT " ++ rendered)
  render_default_clause timestamp current_timestamp = ok (lit " DEFAULT CURRENT_TIMESTAMP")
  render_default_clause timestamptz current_timestamp = ok (lit " DEFAULT CURRENT_TIMESTAMP")
  render_default_clause type current_timestamp = err (
      invalid_input
        (lit "current_timestamp defaults are only allowed for timestamp and timestamptz columns"))
  render_default_clause uuid random_uuid = ok (lit " DEFAULT pg_catalog.gen_random_uuid()")
  render_default_clause type random_uuid =
      err (invalid_input (lit "random_uuid defaults are only allowed for uuid columns"))
