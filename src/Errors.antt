-- ===== src/Errors.antt =====
-- src/core/errors.ts, src/data/errors.ts and src/auth/errors.ts: the stable error codes, the error
-- value of every module, and the translation of whatever was thrown into a public error.
use micro_jbase.Base.{
  ℕ, Bool, true, ◌&&◌, Option, none, some, List, [], ◌∷◌, leb, if◌then◌else◌, Text, lit, text_eq,
  Number, int, pos,
}

pub data ErrorCode : Type 0 where
  validation_error email_already_registered invalid_credentials auth_required rate_limited
        table_not_found row_not_found conflict database_unavailable internal_error :
      ErrorCode

-- A value in the `details` of an error: a text or a list of texts.
pub data Detail : Type 0 where
  text : Text → Detail
  texts : List Text → Detail

abbrev pub Details : Type 0
Details = List (Text × Detail)

-- `AppError` of the contracts, with the code, the public message, the HTTP status and the details.
pub record AppError : Type 0 where
  pub code : ErrorCode
  pub message : Text
  pub status : ℕ
  pub details : Option Details

abbrev pub app_error : ErrorCode → Text → ℕ → AppError
app_error code message status = record {
  code = code;
  message = message;
  status = status;
  details = none;
}

abbrev pub app_error_with : ErrorCode → Text → ℕ → Details → AppError
app_error_with code message status details = record {
  code = code;
  message = message;
  status = status;
  details = some details;
}

-- A property of a thrown object, as the program tests it.
pub data Field : Type 0 where
  absent : Field
  string : Text → Field
  number : Number → Field
  other : Field

-- The property `details`: missing, an object whose prototype is `Object.prototype`, anything else.
pub data DetailsField : Type 0 where
  absent : DetailsField
  plain : Details → DetailsField
  other : DetailsField

-- A thrown object that is none of the program's errors, such as a driver's; `is_error` says that it
-- is an instance of `Error`, and `printed` is `String(error)`.
pub record ErrorObject : Type 0 where
  pub code : Field
  pub sql_state : Field
  pub message : Field
  pub status : Field
  pub details : DetailsField
  pub is_error : Bool
  pub constraint : Field
  pub printed : Text

-- What a `catch` receives: an `AppError` of the core, an error class of another module that
-- implements the same contract, another object, or a primitive value (by its printed form).
pub data Thrown : Type 0 where
  app : AppError → Thrown
  domain : AppError → Thrown
  object : ErrorObject → Thrown
  primitive : Text → Thrown

-- The constant table ERROR_CODES, and `isErrorCode` as a lookup in it.
abbrev pub error_codes : List (Text × ErrorCode)
error_codes =
    (lit "VALIDATION_ERROR", validation_error)
    ∷ (lit "EMAIL_ALREADY_REGISTERED", email_already_registered)
    ∷ (lit "INVALID_CREDENTIALS", invalid_credentials)
    ∷ (lit "AUTH_REQUIRED", auth_required)
    ∷ (lit "RATE_LIMITED", rate_limited)
    ∷ (lit "TABLE_NOT_FOUND", table_not_found)
    ∷ (lit "ROW_NOT_FOUND", row_not_found)
    ∷ (lit "CONFLICT", conflict)
    ∷ (lit "DATABASE_UNAVAILABLE", database_unavailable)
    ∷ (lit "INTERNAL_ERROR", internal_error)
    ∷ []

-- the text of an error code
unfoldable pub code_text : ErrorCode → Text
code_text validation_error = lit "VALIDATION_ERROR"
code_text email_already_registered = lit "EMAIL_ALREADY_REGISTERED"
code_text invalid_credentials = lit "INVALID_CREDENTIALS"
code_text auth_required = lit "AUTH_REQUIRED"
code_text rate_limited = lit "RATE_LIMITED"
code_text table_not_found = lit "TABLE_NOT_FOUND"
code_text row_not_found = lit "ROW_NOT_FOUND"
code_text conflict = lit "CONFLICT"
code_text database_unavailable = lit "DATABASE_UNAVAILABLE"
code_text internal_error = lit "INTERNAL_ERROR"

unfoldable pub find_code : Text → List (Text × ErrorCode) → Option ErrorCode
find_code t [] = none
find_code t ((name, code) ∷ table) = if text_eq t name then some code else find_code t table

unfoldable pub as_error_code : Field → Option ErrorCode
as_error_code (string t) = find_code t error_codes
as_error_code _ = none

-- isClientErrorStatus
unfoldable pub as_error_status : Field → Option ℕ
as_error_status (number (int (pos n))) = if leb 400 n && leb n 599 then some n else none
as_error_status _ = none

abbrev as_message : Field → Option Text
as_message (string t) = some t
as_message _ = none

-- details !== undefined && !isRecord(details)
abbrev as_details : DetailsField → Option (Option Details)
as_details DetailsField.absent = some none
as_details (plain d) = some (some d)
as_details DetailsField.other = none

-- looksLikeAppError on an object, with the error that it looks like.
unfoldable pub looks_like_app_error : ErrorObject → Option AppError
unfolding as_error_code as_error_status
looks_like_app_error o = elim (as_error_code o.code) [
  | none ↦ none
  | some code ↦ elim (as_message o.message) [
    | none ↦ none
    | some message ↦ elim (as_error_status o.status) [
      | none ↦ none
      | some status ↦ elim (as_details o.details) [
        | none ↦ none
        | some details ↦
            some (record { code = code; message = message; status = status; details = details })
      ]
    ]
  ]
]

abbrev pub unexpected : AppError
unexpected = app_error internal_error (lit "An unexpected error occurred") 500

abbrev pub or_unexpected : Option AppError → AppError
or_unexpected none = unexpected
or_unexpected (some e) = e

unfoldable pub to_public_error : Thrown → AppError
unfolding looks_like_app_error
to_public_error (app e) = e
to_public_error (domain e) = if leb 400 e.status && leb e.status 599 then e else unexpected
to_public_error (object o) = or_unexpected (looks_like_app_error o)
to_public_error (primitive t) = unexpected

-- an error of the program as the object that it is
unfoldable pub error_object : AppError → ErrorObject
unfolding code_text
error_object e = record {
  code = string (code_text e.code);
  sql_state = Field.absent;
  message = string e.message;
  status = number (int (pos e.status));
  details = elim e.details [ none ↦ DetailsField.absent | some d ↦ plain d ];
  is_error = true;
  constraint = Field.absent;
  printed = e.message;
}

-- the properties of a thrown value that the database modules test, `none` for a primitive
unfoldable pub thrown_object : Thrown → Option ErrorObject
unfolding error_object
thrown_object (app e) = some (error_object e)
thrown_object (domain e) = some (error_object e)
thrown_object (object o) = some o
thrown_object (primitive t) = none
