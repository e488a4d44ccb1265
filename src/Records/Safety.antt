-- ===== src/Records/Safety.antt =====
-- The statements that write, in src/database/data-repository.ts: names are quoted, and the values of a request
-- stand in the parameters.
use micro_jbase.Base.{
  ℕ, suc, ◌+◌, ◌≡◌, refl, Bool, true, false, not, Bool-cases, inl, inr, List, [], ◌∷◌, ◌++◌, All,
  keep, null, length, ok, Text, lit, join, includes, int, pos, Returned, Returned-bind,
  Returned-guard, Returned-if,
}
use micro_jbase.Platform.{Platform}
use micro_jbase.Ddl.Identifiers.{is_simple_identifier, quote_identifier}
use micro_jbase.Ddl.Lexing.{
  lex, IsClosed, append-IsClosed, concat-IsClosed, join-IsClosed, quote_identifier-IsClosed,
}
use micro_jbase.Ddl.Rendering.{PrintsNumerals, number-IsClosed}
use micro_jbase.Data.Values.{Value, str}
use micro_jbase.Data.Validate.{Row}
use micro_jbase.Data.Service.{ExposedTable}
use micro_jbase.Records.Methods.{
  Statement, quote_simple_identifier, quote_qualified_name, quote_names, column_list, keys_of,
  row_values, assert_columns_allowed, placeholder, placeholders, assignments, insert_statement,
  update_statement,
}

quote_simple_identifier-IsClosed : (name : Text) → Returned IsClosed (quote_simple_identifier name)
unfolding quote_simple_identifier quote_identifier
quote_simple_identifier-IsClosed name =
    let known = quote_identifier-IsClosed name in
    elim (Bool-cases (is_simple_identifier name)) [
      | inl simple ↦ rw simple (rw simple at known)
      | inr other ↦ rw other tt
    ]

quote_qualified_name-IsClosed :
    (schema table : Text) → Returned IsClosed (quote_qualified_name schema table)
unfolding quote_qualified_name lit lex
quote_qualified_name-IsClosed schema table =
    Returned-bind IsClosed IsClosed (quote_simple_identifier schema) _
      (quote_simple_identifier-IsClosed schema)
      λ s s_closed.
        Returned-bind IsClosed IsClosed (quote_simple_identifier table) _
          (quote_simple_identifier-IsClosed table)
          λ t t_closed. concat-IsClosed (s ∷ lit "." ∷ t ∷ []) (s_closed, (refl, (t_closed, tt)))

quote_names-IsClosed : (names : List Text) → Returned (All IsClosed) (quote_names names)
unfolding quote_names
quote_names-IsClosed [] = tt
quote_names-IsClosed (name ∷ names) =
    Returned-bind IsClosed (All IsClosed) (quote_simple_identifier name) _
      (quote_simple_identifier-IsClosed name)
      λ q q_closed.
        Returned-bind (All IsClosed) (All IsClosed) (quote_names names) _
          (quote_names-IsClosed names) λ qs qs_closed. (q_closed, qs_closed)

column_list-IsClosed : (columns : List Text) → Returned IsClosed (column_list columns)
unfolding column_list lit lex
column_list-IsClosed columns =
    Returned-if IsClosed (null columns) (ok (lit "NULL")) _ (λ none_left. refl)
      λ full.
        Returned-bind (All IsClosed) IsClosed (quote_names columns) _ (quote_names-IsClosed columns)
          λ quoted closed. join-IsClosed (lit ", ") quoted refl closed

abbrev AreAllowed : List Text → Row → Type 0
AreAllowed allowed values = All (λ k. includes allowed k ≡ true) (keys_of values)

nothing_refused :
    (allowed keys : List Text)
    → null (keep (λ k. not (includes allowed k)) keys) ≡ true
    → All (λ k. includes allowed k ≡ true) keys
nothing_refused allowed [] h = tt
nothing_refused allowed (k ∷ ks) h = elim (Bool-cases (includes allowed k)) [
  | inl known ↦ (known, nothing_refused allowed ks (rw known at h))
  | inr unknown ↦ absurd (cc (rw unknown at h))
]

assert_columns-AreAllowed :
    (values : Row) (allowed : List Text)
    → Returned (λ u. AreAllowed allowed values) (assert_columns_allowed values allowed)
unfolding assert_columns_allowed
assert_columns-AreAllowed values allowed =
    only_allowed (null (keep (λ k. not (includes allowed k)) (keys_of values))) refl
  where
    only_allowed :
        (b : Bool)
        → null (keep (λ k. not (includes allowed k)) (keys_of values)) ≡ b
        → Returned (λ u. AreAllowed allowed values) (assert_columns_allowed values allowed)
    only_allowed true h = rw h (nothing_refused allowed (keys_of values) h)
    only_allowed false h = rw h tt

module _ (platform : Platform) (prints : PrintsNumerals platform) where
  placeholder-IsClosed : (n : ℕ) → IsClosed (placeholder platform n)
  unfolding lex
  placeholder-IsClosed n =
      append-IsClosed (b'$' ∷ []) (platform.print_number (int (pos n))) refl
        (number-IsClosed platform prints (int (pos n)) refl)

  placeholders-IsClosed : (n : ℕ) (keys : List Text) → All IsClosed (placeholders platform n keys)
  unfolding placeholders
  placeholders-IsClosed n [] = tt
  placeholders-IsClosed n (k ∷ ks) = (placeholder-IsClosed n, placeholders-IsClosed (suc n) ks)

  assignments-IsClosed :
      (n : ℕ) (keys : List Text) → Returned (All IsClosed) (assignments platform n keys)
  unfolding assignments lit lex
  assignments-IsClosed n [] = tt
  assignments-IsClosed n (k ∷ ks) =
      Returned-bind IsClosed (All IsClosed) (quote_simple_identifier k) _
        (quote_simple_identifier-IsClosed k)
        λ q q_closed.
          Returned-bind (All IsClosed) (All IsClosed) (assignments platform (suc n) ks) _
            (assignments-IsClosed (suc n) ks)
            λ rest closed. (
              concat-IsClosed (q ∷ lit " = " ∷ placeholder platform n ∷ [])
                  (q_closed, (refl, (placeholder-IsClosed n, tt))),
              closed,
            )

  -- The text is one closed command, the parameters are these, and the columns are allowed.
  abbrev pub IsSafe : List Text → Row → List Value → Statement → Type 0
  IsSafe allowed values parameters statement =
      IsClosed statement.text × (statement.values ≡ parameters) × AreAllowed allowed values

  insert-IsSafe :
      (table : ExposedTable) (values : Row)
      → Returned
          (IsSafe table.insertable_columns values (row_values values))
          (insert_statement platform table values)
  unfolding insert_statement lit lex
  insert-IsSafe table values =
      let P = IsSafe table.insertable_columns values (row_values values) in
      Returned-bind (λ u. AreAllowed table.insertable_columns values) P
        (assert_columns_allowed values table.insertable_columns) _
        (assert_columns-AreAllowed values table.insertable_columns)
        λ u allowed. Returned-guard P (not (null values)) _ _ λ full.
          Returned-bind IsClosed P (quote_qualified_name table.schema table.table) _
            (quote_qualified_name-IsClosed table.schema table.table)
            λ t t_closed.
              Returned-bind (All IsClosed) P (quote_names (keys_of values)) _
                (quote_names-IsClosed (keys_of values))
                λ columns c_closed.
                  Returned-bind IsClosed P (column_list table.readable_columns) _
                    (column_list-IsClosed table.readable_columns)
                    λ returning r_closed.
                      let names = join-IsClosed (lit ", ") columns refl c_closed in
                      let marks =
                        join-IsClosed (lit ", ") (placeholders platform 1 (keys_of values)) refl
                          (placeholders-IsClosed 1 (keys_of values)) in
                      (
                        concat-IsClosed
                            (lit "\n          INSERT INTO "
                              ∷ t
                              ∷ lit " ("
                              ∷ join (lit ", ") columns
                              ∷ lit ")\n          VALUES ("
                              ∷ join (lit ", ") (placeholders platform 1 (keys_of values))
                              ∷ lit ")\n          RETURNING "
                              ∷ returning
                              ∷ lit "\n        "
                              ∷ [])
                            (
                              refl,
                              (
                                t_closed,
                                (refl, (names, (refl, (marks, (refl, (r_closed, (refl, tt))))))),
                              ),
                            ),
                        refl,
                        allowed,
                      )

  update-IsSafe :
      (table : ExposedTable) (values : Row) (id : Text)
      → Returned
          (IsSafe table.updatable_columns values (row_values values ++ (str id ∷ [])))
          (update_statement platform table id values)
  unfolding update_statement lit lex
  update-IsSafe table values id =
      let P = IsSafe table.updatable_columns values (row_values values ++ (str id ∷ [])) in
      Returned-bind (λ u. AreAllowed table.updatable_columns values) P
        (assert_columns_allowed values table.updatable_columns) _
        (assert_columns-AreAllowed values table.updatable_columns)
        λ u allowed. Returned-guard P (not (null values)) _ _ λ full.
          Returned-bind IsClosed P (quote_qualified_name table.schema table.table) _
            (quote_qualified_name-IsClosed table.schema table.table)
            λ t t_closed.
              Returned-bind (All IsClosed) P (assignments platform 1 (keys_of values)) _
                (assignments-IsClosed 1 (keys_of values))
                λ assigned a_closed.
                  Returned-bind IsClosed P (column_list table.readable_columns) _
                    (column_list-IsClosed table.readable_columns)
                    λ returning r_closed.
                      let pairs = join-IsClosed (lit ", ") assigned refl a_closed in
                      let mark = placeholder-IsClosed (length values + 1) in
                      (
                        concat-IsClosed
                            (lit "\n          UPDATE "
                              ∷ t
                              ∷ lit "\n          SET "
                              ∷ join (lit ", ") assigned
                              ∷ lit "\n          WHERE "
                              ∷ lit "\"id\""
                              ∷ lit " = "
                              ∷ placeholder platform (length values + 1)
                              ∷ lit "\n          RETURNING "
                              ∷ returning
                              ∷ lit "\n        "
                              ∷ [])
                            (
                              refl,
                              (
                                t_closed,
                                (
                                  refl,
                                  (
                                    pairs,
                                    (refl, (refl, (refl, (mark, (refl, (r_closed, (refl, tt))))))),
                                  ),
                                ),
                              ),
                            ),
                        refl,
                        allowed,
                      )

  -- Whatever the names and values are, an INSERT or UPDATE that is sent is one closed command, the values of the
  -- request and the id are its parameters, in their order, and it writes allowed columns only, where finite
  -- numbers are printed in digits, sign, point and exponent.
  pub writes-AreSafe :
      (table : ExposedTable) (values : Row)
      → Returned
          (IsSafe table.insertable_columns values (row_values values))
          (insert_statement platform table values)
        × ((id : Text)
            → Returned
                (IsSafe table.updatable_columns values (row_values values ++ (str id ∷ [])))
                (update_statement platform table id values))
  writes-AreSafe table values = (insert-IsSafe table values, update-IsSafe table values)
