-- ===== src/Ddl/Rendering.antt =====
-- Rendered defaults of src/database/schema-ddl.ts are closed SQL text, whatever the value.
use micro_jbase.Base.{
  ℕ, zero, suc, ◌+◌, ◌-◌, ◌≡◌, refl, Bool, true, false, not, ◌&&◌, ◌||◌, [], ◌∷◌, ◌++◌, arith,
  if◌then◌else◌, ◌==◌, leb, length, all, all-append, if_ind, take, drop, replicate, ok, err,
  Returned, Returned-if, Returned-bind, Text, lit, matches_shape, is_digit, has_unit, pos, negsuc,
  ℤ, Number, is_integer, is_finite, is_safe_integer,
}
use micro_jbase.Errors.{AppError}
use micro_jbase.Platform.{Platform}
use micro_jbase.Ddl.Identifiers.{quote_literal, invalid_input}
use micro_jbase.Ddl.Lexing.{lex, IsClosed, append-IsClosed, quote_literal-IsClosed}
use micro_jbase.Ddl.Defaults.{
  DdlColumnType, DdlColumnDefault, JsonPrimitive, text, integer, bigint, boolean, uuid, timestamp,
  timestamptz, date, numeric, jsonb, before, behind, drop_sign, is_negative, place_point,
  expand_exponential, render_numeric_default, quoted_as, render_literal_default,
  render_default_clause, int4_range, uuid_pattern, date_pattern, is_valid_date, matches_timestamp,
}

-- The characters of a printed number: digits, sign, point, exponent.
abbrev pub is_number_unit : ℕ → Bool
is_number_unit c = is_digit c || (c == b'-' || (c == b'+' || (c == b'.' || c == b'e')))

abbrev pub IsNumeral : Text → Type 0
IsNumeral t = all is_number_unit t ≡ true

IsNumeral-IsClosed : (t : Text) → IsNumeral t → IsClosed t
unfolding lex
IsNumeral-IsClosed [] h = refl
IsNumeral-IsClosed (c ∷ t) h = ground (arith, IsNumeral-IsClosed t)

IsNumeral-append : (s t : Text) → IsNumeral s → IsNumeral t → IsNumeral (s ++ t)
IsNumeral-append s t h k = ground (arith, all-append is_number_unit s t)

IsNumeral-before : (c : ℕ) (t : Text) → IsNumeral t → IsNumeral (before c t)
unfolding before
IsNumeral-before c [] h = refl
IsNumeral-before c (x ∷ t) h = ground (arith, IsNumeral-before c t)

IsNumeral-behind : (c : ℕ) (t : Text) → IsNumeral t → IsNumeral (behind c t)
unfolding behind
IsNumeral-behind c [] h = refl
IsNumeral-behind c (x ∷ t) h = ground (arith, IsNumeral-behind c t)

IsNumeral-take : (n : ℕ) (t : Text) → IsNumeral t → IsNumeral (take n t)
IsNumeral-take zero t h = refl
IsNumeral-take (suc n) [] h = refl
IsNumeral-take (suc n) (x ∷ t) h = ground (arith, IsNumeral-take n t)

IsNumeral-drop : (n : ℕ) (t : Text) → IsNumeral t → IsNumeral (drop n t)
IsNumeral-drop zero t h = h
IsNumeral-drop (suc n) [] h = refl
IsNumeral-drop (suc n) (x ∷ t) h = ground (arith, IsNumeral-drop n t)

IsNumeral-zeros : (n : ℕ) → IsNumeral (replicate n b'0')
IsNumeral-zeros zero = refl
IsNumeral-zeros (suc n) = IsNumeral-zeros n

IsNumeral-drop_sign : (t : Text) → IsNumeral t → IsNumeral (drop_sign t)
IsNumeral-drop_sign [] h = refl
IsNumeral-drop_sign (c ∷ t) h = ground arith

IsNumeral-insert_point :
    (n : ℕ) (t : Text) → IsNumeral t → IsNumeral (take n t ++ (b'.' ∷ drop n t))
IsNumeral-insert_point n t h =
    IsNumeral-append (take n t) (b'.' ∷ drop n t) (IsNumeral-take n t h) (IsNumeral-drop n t h)

IsNumeral-pad : (n : ℕ) (t : Text) → IsNumeral t → IsNumeral (t ++ replicate n b'0')
IsNumeral-pad n t h = IsNumeral-append t (replicate n b'0') h (IsNumeral-zeros n)

IsNumeral-place_point : (t : Text) (n : ℕ) (z : ℤ) → IsNumeral t → IsNumeral (place_point t n z)
unfolding place_point lit
IsNumeral-place_point t n (pos m) h = if_ind IsNumeral (n + m == 0) h (
    if_ind IsNumeral (leb (length t) (n + m)) (IsNumeral-pad (n + m - length t) t h)
      (IsNumeral-insert_point (n + m) t h))
IsNumeral-place_point t n (negsuc m) h =
    if_ind IsNumeral (leb n (m + 1))
      (IsNumeral-append (replicate (m + 1 - n) b'0') t (IsNumeral-zeros (m + 1 - n)) h)
      (if_ind IsNumeral (leb (length t) (n - (m + 1))) (IsNumeral-pad (n - (m + 1) - length t) t h)
        (IsNumeral-insert_point (n - (m + 1)) t h))

quoted_as-IsClosed : (t cast : Text) → IsClosed cast → Returned IsClosed (quoted_as t cast)
quoted_as-IsClosed t cast h =
    Returned-bind IsClosed IsClosed (quote_literal t) _ (quote_literal-IsClosed t)
      (λ q closed. append-IsClosed q cast closed h)

module _ (platform : Platform) where
  IsNumeral-expand_exponential :
      (t : Text) → IsNumeral t → IsNumeral (expand_exponential platform t)
  unfolding expand_exponential
  IsNumeral-expand_exponential t h =
      let unsigned = drop_sign (before b'e' t) in
      let h' = IsNumeral-drop_sign (before b'e' t) (IsNumeral-before b'e' t h) in
      let plain =
        IsNumeral-place_point (before b'.' unsigned ++ behind b'.' unsigned)
          (length (before b'.' unsigned)) _
          (IsNumeral-append (before b'.' unsigned) (behind b'.' unsigned)
            (IsNumeral-before b'.' unsigned h') (IsNumeral-behind b'.' unsigned h')) in
      if_ind IsNumeral (is_negative (before b'e' t)) plain plain

  IsNumeral-render_numeric_default :
      (n : Number)
      → IsNumeral (platform.print_number n)
      → IsNumeral (render_numeric_default platform n)
  unfolding render_numeric_default
  IsNumeral-render_numeric_default n h = if_ind IsNumeral (is_safe_integer n) h (
      if_ind IsNumeral
        (not (has_unit b'e' (platform.print_number n) || has_unit b'E' (platform.print_number n))) h
        (IsNumeral-expand_exponential (platform.print_number n) h))

-- What is assumed of `String(x)`: a finite number is printed in digits, sign, point and exponent.
abbrev pub PrintsNumerals : Platform → Type 0
PrintsNumerals platform = (n : Number) → is_finite n ≡ true → IsNumeral (platform.print_number n)

of_not : (b : Bool) → not b ≡ false → b ≡ true
of_not true h = refl
of_not false h = cc

finite_of_integer : (n : Number) → is_integer n ≡ true → is_finite n ≡ true
finite_of_integer n h = ground arith

module _ (platform : Platform) (prints : PrintsNumerals platform) where
  pub number-IsClosed : (n : Number) → is_integer n ≡ true → IsClosed (platform.print_number n)
  number-IsClosed n h = IsNumeral-IsClosed _ (prints n (finite_of_integer n h))

  render_literal_default-IsClosed :
      (type : DdlColumnType) (value : JsonPrimitive)
      → Returned IsClosed (render_literal_default platform type value)
  unfolding render_literal_default lit lex
  render_literal_default-IsClosed text (JsonPrimitive.str t) =
      quoted_as-IsClosed t (lit "::text") refl
  render_literal_default-IsClosed integer (JsonPrimitive.num n) =
      Returned-if {E = AppError} IsClosed (not (is_integer n)) _ _ (λ _. tt)
        λ whole.
          Returned-if {E = AppError} IsClosed (not (is_safe_integer n) || int4_range n)
            (err (invalid_input (lit "integer literal defaults must fit the int4 range")))
            (ok (platform.print_number n)) (λ _. tt)
            (λ _. number-IsClosed n (of_not (is_integer n) whole))
  render_literal_default-IsClosed bigint (JsonPrimitive.num n) =
      Returned-if {E = AppError} IsClosed (not (is_integer n)) _ _ (λ _. tt)
        λ whole.
          Returned-if {E = AppError} IsClosed (not (is_safe_integer n))
            (err (invalid_input (lit "bigint literal defaults must fit the int8 range")))
            (ok (platform.print_number n)) (λ _. tt)
            (λ _. number-IsClosed n (of_not (is_integer n) whole))
  render_literal_default-IsClosed numeric (JsonPrimitive.num n) =
      Returned-if {E = AppError} IsClosed (not (is_finite n)) _ _ (λ _. tt)
        λ finite.
          IsNumeral-IsClosed (render_numeric_default platform n)
            (IsNumeral-render_numeric_default platform n (prints n (of_not (is_finite n) finite)))
  render_literal_default-IsClosed boolean (JsonPrimitive.bool true) = refl
  render_literal_default-IsClosed boolean (JsonPrimitive.bool false) = refl
  render_literal_default-IsClosed uuid (JsonPrimitive.str t) =
      Returned-if {E = AppError} IsClosed (matches_shape uuid_pattern t)
        (quoted_as (platform.to_lower t) (lit "::uuid"))
        (err (invalid_input (lit "uuid literal defaults must be UUID strings")))
        (λ _. quoted_as-IsClosed (platform.to_lower t) (lit "::uuid") refl) (λ _. tt)
  render_literal_default-IsClosed date (JsonPrimitive.str t) =
      Returned-if {E = AppError} IsClosed (not (matches_shape date_pattern t)) _ _ (λ _. tt)
        λ _.
          Returned-if {E = AppError} IsClosed (not (is_valid_date t))
            (err (invalid_input (lit "date literal defaults must be real calendar dates")))
            (quoted_as t (lit "::date")) (λ _. tt) (λ _. quoted_as-IsClosed t (lit "::date") refl)
  render_literal_default-IsClosed timestamp (JsonPrimitive.str t) =
      Returned-if {E = AppError} IsClosed (matches_timestamp t && is_valid_date (take 10 t))
        (quoted_as t (lit "::timestamp"))
        (err (invalid_input (lit "timestamp literal defaults must be ISO-8601 timestamp strings")))
        (λ _. quoted_as-IsClosed t (lit "::timestamp") refl) (λ _. tt)
  render_literal_default-IsClosed timestamptz (JsonPrimitive.str t) =
      Returned-if {E = AppError} IsClosed (matches_timestamp t && is_valid_date (take 10 t))
        (quoted_as t (lit "::timestamptz"))
        (err (invalid_input (lit "timestamp literal defaults must be ISO-8601 timestamp strings")))
        (λ _. quoted_as-IsClosed t (lit "::timestamptz") refl) (λ _. tt)
  render_literal_default-IsClosed jsonb JsonPrimitive.null = refl
  render_literal_default-IsClosed jsonb (JsonPrimitive.str t) =
      quoted_as-IsClosed (platform.quote_string t) (lit "::jsonb") refl
  render_literal_default-IsClosed jsonb (JsonPrimitive.num n) =
      quoted_as-IsClosed (if is_finite n then platform.print_number n else lit "null")
        (lit "::jsonb") refl
  render_literal_default-IsClosed jsonb (JsonPrimitive.bool b) =
      quoted_as-IsClosed (if b then lit "true" else lit "false") (lit "::jsonb") refl
  render_literal_default-IsClosed _ _ = tt

  pub render_default_clause-IsClosed :
      (type : DdlColumnType) (default : DdlColumnDefault)
      → Returned IsClosed (render_default_clause platform type default)
  unfolding render_default_clause lit lex
  render_default_clause-IsClosed type DdlColumnDefault.none = refl
  render_default_clause-IsClosed type (DdlColumnDefault.literal value) =
      Returned-bind IsClosed IsClosed (render_literal_default platform type value) _
        (render_literal_default-IsClosed type value)
        (λ rendered closed. append-IsClosed (lit " DEFAULT ") rendered refl closed)
  render_default_clause-IsClosed timestamp DdlColumnDefault.current_timestamp = refl
  render_default_clause-IsClosed timestamptz DdlColumnDefault.current_timestamp = refl
  render_default_clause-IsClosed uuid DdlColumnDefault.random_uuid = refl
  render_default_clause-IsClosed _ _ = tt
