-- ===== src/Faults/Hiding.antt =====
-- What the translated errors of the database can say to a client.
use micro_jbase.Base.{
  ◌≡◌, refl, true, Option, none, some, List, [], ◌∷◌, if_ind, All, Text, lit, text_eq, includes,
}
use micro_jbase.Errors.{
  AppError, ErrorObject, Field, Thrown, thrown_object, code_text, error_object,
}
use micro_jbase.Platform.{Platform}
use micro_jbase.Faults.{
  is_database_unavailable_error, unavailable_error, includes_text, message_of, string_and,
  translate_pool_object, translate_data_object, translate_data_error, mapped_or_hidden,
  ddl_error_map, operation_failed, by_state, conflict_codes, translate_ddl_object,
  translate_ddl_error,
}

-- the messages that name no part of the database
abbrev pub safe_messages : List Text
safe_messages =
    lit "Database authentication failed"
    ∷ lit "Database operation timed out"
    ∷ lit "Database connection was terminated unexpectedly"
    ∷ lit "Database is unavailable"
    ∷ lit "An unexpected database error occurred"
    ∷ lit "A conflict occurred"
    ∷ lit "Relation already exists"
    ∷ lit "Referenced table does not exist"
    ∷ lit "Referenced object does not exist"
    ∷ lit "Referenced schema does not exist"
    ∷ lit "Operation conflicts with existing data"
    ∷ lit "Object already exists"
    ∷ lit "Insufficient database privilege for the schema-admin role"
    ∷ lit "Operation conflicted with a concurrent operation"
    ∷ lit "The column type changed after the operation was compiled; retry with a fresh key"
    ∷ lit "Runtime role retains privileges on the table; revoke them before unexposing"
    ∷ lit "Table is exposed to the data API and cannot be modified"
    ∷ lit "Table no longer satisfies the exposure prerequisites; retry with a fresh key"
    ∷ lit "Schema operation failed"
    ∷ []

-- the message is one of the fixed ones, and there are no details
abbrev pub IsSafe : AppError → Type 0
IsSafe e = (includes safe_messages e.message ≡ true) × (e.details ≡ none)

mapped_or_hidden_ind :
    (P : AppError → Type 0) (state : Text) (table : List (Text × AppError))
    → P operation_failed
    → All (λ row. P row.1) table
    → P (mapped_or_hidden state table)
unfolding mapped_or_hidden
mapped_or_hidden_ind P state [] hidden h = hidden
mapped_or_hidden_ind P state ((key, mapped) ∷ rest) hidden h =
    if_ind P (text_eq state key) h.0 (mapped_or_hidden_ind P state rest hidden h.1)

abbrev pub NotApp : Thrown → Type 0
NotApp (Thrown.app e) = ⊥
NotApp _ = Unit

mapped_or_hidden-IsSafe : (state : Text) → IsSafe (mapped_or_hidden state ddl_error_map)
unfolding lit includes text_eq
mapped_or_hidden-IsSafe state =
    mapped_or_hidden_ind IsSafe state ddl_error_map (refl, refl)
      (
        (refl, refl),
        (
          (refl, refl),
          (
            (refl, refl),
            (
              (refl, refl),
              (
                (refl, refl),
                (
                  (refl, refl),
                  (
                    (refl, refl),
                    (
                      (refl, refl),
                      ((refl, refl), ((refl, refl), ((refl, refl), ((refl, refl), tt)))),
                    ),
                  ),
                ),
              ),
            ),
          ),
        ),
      )

by_state-IsSafe : (code : Field) → IsSafe (by_state code)
unfolding lit includes text_eq
by_state-IsSafe Field.absent = (refl, refl)
by_state-IsSafe (Field.string state) = mapped_or_hidden-IsSafe state
by_state-IsSafe (Field.number n) = (refl, refl)
by_state-IsSafe Field.other = (refl, refl)

-- Whatever is thrown below the schema executor, other than an error that the program made, the
-- translated error has one of the fixed messages, names nothing of the database and has no details.
pub translate_ddl_error-IsSafe :
    (error : Thrown) → NotApp error → IsSafe (translate_ddl_error error)
unfolding translate_ddl_error translate_ddl_object thrown_object error_object lit includes text_eq
translate_ddl_error-IsSafe (Thrown.app e) h = absurd h
translate_ddl_error-IsSafe (Thrown.domain e) h = by_state-IsSafe (Field.string (code_text e.code))
translate_ddl_error-IsSafe (Thrown.object o) h = by_state-IsSafe o.code
translate_ddl_error-IsSafe (Thrown.primitive t) h = (refl, refl)

module _ (platform : Platform) where
  unavailable_error-IsSafe : (lower : Text) → IsSafe (unavailable_error platform lower)
  unfolding unavailable_error lit includes text_eq
  unavailable_error-IsSafe lower =
      if_ind IsSafe (includes_text (lit "password authentication failed") lower) (refl, refl)
        (if_ind IsSafe (includes_text (lit "timeout") lower) (refl, refl)
          (if_ind IsSafe (includes_text (lit "connection terminated") lower) (refl, refl)
            (refl, refl)))

  translate_pool_object-IsSafe :
      (o : Option ErrorObject) → IsSafe (translate_pool_object platform o)
  unfolding translate_pool_object lit includes text_eq
  translate_pool_object-IsSafe none = (refl, refl)
  translate_pool_object-IsSafe (some o) =
      if_ind IsSafe (is_database_unavailable_error platform o)
        (unavailable_error-IsSafe (platform.to_lower (message_of o))) (refl, refl)

  translate_data_object-IsSafe :
      (o : Option ErrorObject) → IsSafe (translate_data_object platform o)
  unfolding translate_data_object lit includes text_eq
  translate_data_object-IsSafe none = translate_pool_object-IsSafe none
  translate_data_object-IsSafe (some o) =
      if_ind IsSafe (string_and (includes conflict_codes) o.code) (refl, refl)
        (translate_pool_object-IsSafe (some o))

  -- Whatever the database throws at the data repository, other than an error that the program made,
  -- the translated error has one of the fixed messages and no details.
  pub translate_data_error-IsSafe :
      (error : Thrown) → NotApp error → IsSafe (translate_data_error platform error)
  unfolding translate_data_error
  translate_data_error-IsSafe (Thrown.app e) h = absurd h
  translate_data_error-IsSafe (Thrown.domain e) h =
      translate_data_object-IsSafe (thrown_object (Thrown.domain e))
  translate_data_error-IsSafe (Thrown.object o) h =
      translate_data_object-IsSafe (thrown_object (Thrown.object o))
  translate_data_error-IsSafe (Thrown.primitive t) h =
      translate_data_object-IsSafe (thrown_object (Thrown.primitive t))
