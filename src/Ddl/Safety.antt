-- ===== src/Ddl/Safety.antt =====
-- Plans of the builders of src/database/schema-ddl.ts that take free values: every statement is one
-- closed command.
use micro_jbase.Base.{
  refl, Bool, true, false, List, [], ◌∷◌, ◌++◌, All, ok, ◌>>=◌, Returned, Returned-bind,
  Returned-after, Returned-if, Text, lit, join, includes,
}
use micro_jbase.Errors.{AppError}
use micro_jbase.Platform.{Platform}
use micro_jbase.Ddl.Identifiers.{
  quote_identifier, quote_each, quote_column_list, assert_manageable_schema,
}
use micro_jbase.Ddl.Defaults.{
  DdlColumnType, text, integer, bigint, boolean, uuid, timestamp, timestamptz, date, numeric, jsonb,
  DdlColumnDefault, type_name, render_default_clause,
}
use micro_jbase.Ddl.Plans.{DdlPlan, quoted_target}
use micro_jbase.Ddl.Compile.{
  DdlColumnSpec, nullability, primary_key_clause, render_column, render_columns,
  compile_create_table, compile_add_column, alter_column, compile_set_column_default,
}
use micro_jbase.Ddl.Lexing.{
  lex, IsClosed, append-IsClosed, concat-IsClosed, join-IsClosed, quote_identifier-IsClosed,
}
use micro_jbase.Ddl.Rendering.{PrintsNumerals, render_default_clause-IsClosed}

-- every statement of the plan is one closed command
abbrev pub HasClosedStatements : DdlPlan → Type 0
HasClosedStatements plan = All IsClosed plan.statements

pub quoted_target-IsClosed : (schema table : Text) → Returned IsClosed (quoted_target schema table)
unfolding quoted_target lit lex
quoted_target-IsClosed schema table =
    Returned-bind IsClosed IsClosed (quote_identifier schema) _ (quote_identifier-IsClosed schema)
      λ s s_closed.
        Returned-bind IsClosed IsClosed (quote_identifier table) _ (quote_identifier-IsClosed table)
          λ t t_closed. concat-IsClosed (s ∷ lit "." ∷ t ∷ []) (s_closed, (refl, (t_closed, tt)))

quote_each-IsClosed : (columns : List Text) → Returned (All IsClosed) (quote_each columns)
unfolding quote_each
quote_each-IsClosed [] = tt
quote_each-IsClosed (column ∷ columns) =
    Returned-bind IsClosed (All IsClosed) (quote_identifier column) _
      (quote_identifier-IsClosed column)
      λ q q_closed.
        Returned-bind (All IsClosed) (All IsClosed) (quote_each columns) _
          (quote_each-IsClosed columns) λ rest rest_closed. (q_closed, rest_closed)

pub quote_column_list-IsClosed :
    (columns : List Text) → Returned IsClosed (quote_column_list columns)
unfolding quote_column_list lit lex
quote_column_list-IsClosed columns =
    Returned-bind (All IsClosed) IsClosed (quote_each columns) _ (quote_each-IsClosed columns)
      λ quoted closed. append-IsClosed (lit "(") (join (lit ", ") quoted ++ lit ")") refl (
        append-IsClosed (join (lit ", ") quoted) (lit ")")
          (join-IsClosed (lit ", ") quoted refl closed) refl)

type_name-IsClosed : (type : DdlColumnType) → IsClosed (type_name type)
unfolding type_name lit lex
type_name-IsClosed text = refl
type_name-IsClosed integer = refl
type_name-IsClosed bigint = refl
type_name-IsClosed boolean = refl
type_name-IsClosed uuid = refl
type_name-IsClosed timestamp = refl
type_name-IsClosed timestamptz = refl
type_name-IsClosed date = refl
type_name-IsClosed numeric = refl
type_name-IsClosed jsonb = refl

nullability-IsClosed : (b : Bool) → IsClosed (nullability b)
unfolding lit lex
nullability-IsClosed true = refl
nullability-IsClosed false = refl

primary_key_clause-IsClosed : (b : Bool) → IsClosed (primary_key_clause b)
unfolding lit lex
primary_key_clause-IsClosed true = refl
primary_key_clause-IsClosed false = refl

module _ (platform : Platform) (prints : PrintsNumerals platform) where
  render_column-IsClosed :
      (column : DdlColumnSpec) → Returned IsClosed (render_column platform column)
  unfolding render_column lit lex
  render_column-IsClosed column =
      Returned-bind IsClosed IsClosed (render_default_clause platform column.type column.default) _
        (render_default_clause-IsClosed platform prints column.type column.default)
        λ clause clause_closed.
          Returned-bind IsClosed IsClosed (quote_identifier column.name) _
            (quote_identifier-IsClosed column.name)
            λ name name_closed.
              concat-IsClosed
                (name
                  ∷ lit " "
                  ∷ type_name column.type
                  ∷ nullability column.nullable
                  ∷ clause
                  ∷ primary_key_clause column.primary_key
                  ∷ [])
                (
                  name_closed,
                  (
                    refl,
                    (
                      type_name-IsClosed column.type,
                      (
                        nullability-IsClosed column.nullable,
                        (clause_closed, (primary_key_clause-IsClosed column.primary_key, tt)),
                      ),
                    ),
                  ),
                )

  render_columns-IsClosed :
      (seen : List Text) (columns : List DdlColumnSpec)
      → Returned (All IsClosed) (render_columns platform seen columns)
  unfolding render_columns
  render_columns-IsClosed seen [] = tt
  render_columns-IsClosed seen (column ∷ columns) =
      Returned-if {E = AppError} (All IsClosed) (includes seen column.name) _
        (do
          rendered ← render_column platform column
          others ← render_columns platform (column.name ∷ seen) columns
          ok (rendered ∷ others))
        (λ _. tt)
        λ _.
          Returned-bind IsClosed (All IsClosed) (render_column platform column) _
            (render_column-IsClosed column)
            λ r r_closed.
              Returned-bind (All IsClosed) (All IsClosed)
                (render_columns platform (column.name ∷ seen) columns) _
                (render_columns-IsClosed (column.name ∷ seen) columns)
                λ rest rest_closed. (r_closed, rest_closed)

  -- A plan that creates a table holds one closed command, whatever names, types and default values
  -- its columns have, where finite numbers are printed in digits, sign, point and exponent.
  pub compile_create_table-IsClosed :
      (schema table : Text) (columns : List DdlColumnSpec)
      → Returned HasClosedStatements (compile_create_table platform schema table columns)
  unfolding compile_create_table lit lex
  compile_create_table-IsClosed schema table columns =
      Returned-after HasClosedStatements (assert_manageable_schema platform schema) _ λ _.
        Returned-after HasClosedStatements _ _ λ _.
          Returned-bind (All IsClosed) HasClosedStatements (render_columns platform [] columns) _
            (render_columns-IsClosed [] columns)
            λ rendered rendered_closed.
              Returned-bind IsClosed HasClosedStatements (quoted_target schema table) _
                (quoted_target-IsClosed schema table)
                λ target target_closed. (
                  concat-IsClosed
                      (lit "CREATE TABLE "
                        ∷ target
                        ∷ lit " (\n  "
                        ∷ join (lit ",\n  ") rendered
                        ∷ lit "\n)"
                        ∷ [])
                      (
                        refl,
                        (
                          target_closed,
                          (
                            refl,
                            (join-IsClosed (lit ",\n  ") rendered refl rendered_closed, (refl, tt)),
                          ),
                        ),
                      ),
                  tt,
                )

  -- A plan that adds a column holds one closed command, whatever the name and the default value are,
  -- where finite numbers are printed in digits, sign, point and exponent.
  pub compile_add_column-IsClosed :
      (schema table : Text) (column : DdlColumnSpec)
      → Returned HasClosedStatements (compile_add_column platform schema table column)
  unfolding compile_add_column lit lex
  compile_add_column-IsClosed schema table column =
      Returned-after HasClosedStatements (assert_manageable_schema platform schema) _ λ _.
        Returned-bind IsClosed HasClosedStatements
          (render_default_clause platform column.type column.default) _
          (render_default_clause-IsClosed platform prints column.type column.default)
          λ clause clause_closed.
            Returned-bind IsClosed HasClosedStatements (quoted_target schema table) _
              (quoted_target-IsClosed schema table)
              λ target target_closed.
                Returned-bind IsClosed HasClosedStatements (quote_identifier column.name) _
                  (quote_identifier-IsClosed column.name)
                  λ name name_closed. (
                    concat-IsClosed
                        (lit "ALTER TABLE "
                          ∷ target
                          ∷ lit " ADD COLUMN "
                          ∷ name
                          ∷ lit " "
                          ∷ type_name column.type
                          ∷ nullability column.nullable
                          ∷ clause
                          ∷ primary_key_clause column.primary_key
                          ∷ [])
                        (
                          refl,
                          (
                            target_closed,
                            (
                              refl,
                              (
                                name_closed,
                                (
                                  refl,
                                  (
                                    type_name-IsClosed column.type,
                                    (
                                      nullability-IsClosed column.nullable,
                                      (
                                        clause_closed,
                                        (primary_key_clause-IsClosed column.primary_key, tt),
                                      ),
                                    ),
                                  ),
                                ),
                              ),
                            ),
                          ),
                        ),
                    tt,
                  )

  -- A plan that sets a default holds one closed command, whatever the value is, where finite numbers
  -- are printed in digits, sign, point and exponent.
  pub compile_set_column_default-IsClosed :
      (schema table column : Text) (type : DdlColumnType) (default : DdlColumnDefault)
      → Returned HasClosedStatements
          (compile_set_column_default platform schema table column type default)
  unfolding compile_set_column_default alter_column lit lex
  compile_set_column_default-IsClosed schema table column type default =
      Returned-after HasClosedStatements (assert_manageable_schema platform schema) _ λ _.
        Returned-bind IsClosed HasClosedStatements (render_default_clause platform type default) _
          (render_default_clause-IsClosed platform prints type default)
          λ clause clause_closed. Returned-after HasClosedStatements _ _ λ _.
            Returned-bind IsClosed HasClosedStatements (quoted_target schema table) _
              (quoted_target-IsClosed schema table)
              λ target target_closed.
                Returned-bind IsClosed HasClosedStatements (quote_identifier column) _
                  (quote_identifier-IsClosed column)
                  λ name name_closed. (
                    concat-IsClosed
                        (lit "ALTER TABLE "
                          ∷ target
                          ∷ lit " ALTER COLUMN "
                          ∷ name
                          ∷ (lit " SET" ++ clause)
                          ∷ [])
                        (
                          refl,
                          (
                            target_closed,
                            (
                              refl,
                              (
                                name_closed,
                                (append-IsClosed (lit " SET") clause refl clause_closed, tt),
                              ),
                            ),
                          ),
                        ),
                    tt,
                  )
