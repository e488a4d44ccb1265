-- ===== src/Tables/Verified.antt =====
-- What the registry of src/database/table-registry.ts guarantees of each table that it exposes.
use micro_jbase.Base.{
  ◌≡◌, refl, Bool, true, false, not, Option, none, some, List, [], ◌∷◌, null, All, inl, inr,
  Bool-cases, arith, Result, ok, ◌>>=◌, Returned, Returned-eq, Returned-bind, Returned-after,
  Returned-guard, ap, ◌∙◌, sym, Text, lit, text_eq, text_eq→eq, includes, concat,
}
use micro_jbase.Errors.{Thrown}
use micro_jbase.Platform.{Platform}
use micro_jbase.Data.Service.{ExposedTable}
use micro_jbase.Tables.{
  ExposedTableMapping, Catalogue, TableVerification, ColumnMetadata, normalize_type, single_key,
  verify_table, names_where, is_updatable, assert_identifier, expose_verified, expose_table,
  build_table_registry, target_of, is_set, required, is_insertable, missing_usage, missing_table,
  unknown_delete, no_row_security, no_forced_security, no_policy, no_key, key_not_id, key_not_uuid,
  no_delete, no_readable, no_insertable, no_updatable,
}

-- `if (row === undefined) throw ...`
Returned-required :
    {A B : Type 0} (P : B → Type 0) (r : Option A) (e : Thrown) (f : A → Result Thrown B)
    → ((a : A) → r ≡ some a → Returned P (f a))
    → Returned P (required r e >>= f)
Returned-required P none e f k = tt
Returned-required P (some a) e f k = k a refl

not-true : (b : Bool) → not b ≡ true → b ≡ false
not-true false h = refl
not-true true h = cc

or_key : Text × Text → Option (Text × Text) → Text × Text
or_key k none = k
or_key k (some j) = j

is_set-eq : (o : Option Bool) → is_set o ≡ true → o ≡ some true
is_set-eq none h = cc
is_set-eq (some b) h = rw h refl

-- The primary key of the catalogue is the one column "id", of a type that normalises to uuid.
abbrev pub HasUuidKey : Platform → List (Text × Text) → Type 0
HasUuidKey platform keys =
    (type : Text) × (keys ≡ (lit "id", type) ∷ []) × (normalize_type platform type ≡ lit "uuid")

single_key-HasUuidKey :
    (platform : Platform) (keys : List (Text × Text)) (key : Text × Text)
    → single_key platform keys ≡ some key
    → key.0 ≡ lit "id"
    → key.1 ≡ lit "uuid"
    → HasUuidKey platform keys
unfolding single_key or_key lit
single_key-HasUuidKey platform [] key h name type = cc
single_key-HasUuidKey platform ((column, t) ∷ []) key h name type =
    let same = ap (or_key key) h in
    (t, ap (λ c. (c, t) ∷ []) (ap (λ k. k.0) same ∙ name), ap (λ k. k.1) same ∙ type)
single_key-HasUuidKey platform (_ ∷ _ ∷ _) key h name type = cc

-- "id" is not a column that may be updated
id_not_updatable :
    (columns : List ColumnMetadata) → includes (names_where is_updatable columns) (lit "id") ≡ false
unfolding includes names_where
id_not_updatable [] = refl
id_not_updatable (column ∷ columns) = elim (Bool-cases (text_eq column.name (lit "id"))) [
  | inl key ↦ ground (arith, key, id_not_updatable columns)
  | inr plain ↦ ground (arith, plain, id_not_updatable columns)
]

module _ (platform : Platform) (catalogue : Catalogue) where
  -- the fields of a verified table are the answers of the catalogue
  abbrev IsVerified : ExposedTableMapping → TableVerification → Type 0
  IsVerified mapping verified =
      (catalogue.row_security mapping.schema mapping.table
        ≡ ok (some (verified.has_rls, verified.has_force_rls)))
      × (catalogue.can_delete (target_of mapping) ≡ ok (some verified.has_delete))
      × ((policy : Option Bool) × (catalogue.applicable_policy mapping.schema mapping.table
            ≡ ok policy)
          × (verified.applicable_policy ≡ is_set policy))
      × ((keys : List (Text × Text)) × (catalogue.primary_key mapping.schema mapping.table
            ≡ ok keys)
          × (verified.primary_key ≡ single_key platform keys))

  verify_table-IsVerified :
      (mapping : ExposedTableMapping)
      → Returned (IsVerified mapping) (verify_table platform catalogue mapping)
  unfolding verify_table
  verify_table-IsVerified mapping =
      Returned-after (IsVerified mapping) (catalogue.schema_usage mapping.schema) _ λ usage.
        Returned-guard (IsVerified mapping) (is_set usage) (missing_usage mapping) _ λ _.
          Returned-after (IsVerified mapping) (catalogue.table_exists mapping.schema mapping.table)
            _
            λ exists.
              Returned-guard (IsVerified mapping) (is_set exists) (missing_table mapping) _ λ _.
                Returned-eq (IsVerified mapping)
                  (catalogue.row_security mapping.schema mapping.table) _
                  λ security s.
                    Returned-required (IsVerified mapping) security (missing_table mapping) _
                      λ flags f.
                        Returned-eq (IsVerified mapping) (catalogue.can_delete (target_of mapping))
                          _
                          λ deletion d.
                            Returned-required (IsVerified mapping) deletion (unknown_delete mapping)
                              _
                              λ may_delete m.
                                Returned-eq (IsVerified mapping)
                                  (catalogue.applicable_policy mapping.schema mapping.table) _
                                  λ policy p.
                                    Returned-eq (IsVerified mapping)
                                      (catalogue.primary_key mapping.schema mapping.table) _
                                      λ keys k.
                                        Returned-after (IsVerified mapping)
                                          (catalogue.columns mapping.schema mapping.table) _
                                          λ rows.
                                            Returned-after (IsVerified mapping)
                                              (catalogue.column_privileges mapping.schema
                                                mapping.table)
                                              _
                                              λ privileges. (
                                                s ∙ ap ok f,
                                                d ∙ ap ok m,
                                                (policy, p, refl),
                                                (keys, k, refl),
                                              )

  -- The catalogue grants what an exposed table needs, and the columns are usable.
  abbrev pub IsExposable : ExposedTable → Type 0
  IsExposable t =
      (catalogue.row_security t.schema t.table ≡ ok (some (true, true)))
      × (catalogue.applicable_policy t.schema t.table ≡ ok (some true))
      × (catalogue.can_delete (concat (t.schema ∷ lit "." ∷ t.table ∷ [])) ≡ ok (some true))
      × ((keys : List (Text × Text)) × (catalogue.primary_key t.schema t.table ≡ ok keys)
          × HasUuidKey platform keys)
      × (null t.readable_columns ≡ false)
      × (null t.insertable_columns ≡ false)
      × (null t.updatable_columns ≡ false)
      × (includes t.updatable_columns (lit "id") ≡ false)

  expose_verified-IsExposable :
      (mapping : ExposedTableMapping) (verified : TableVerification)
      → IsVerified mapping verified
      → Returned IsExposable (expose_verified mapping verified)
  unfolding expose_verified
  expose_verified-IsExposable mapping verified h =
      Returned-guard IsExposable verified.has_rls (no_row_security mapping) _ λ rls.
        Returned-guard IsExposable verified.has_force_rls (no_forced_security mapping) _ λ force.
          Returned-guard IsExposable verified.applicable_policy (no_policy mapping) _ λ policy.
            Returned-required IsExposable verified.primary_key (no_key mapping) _ λ key k.
              Returned-guard IsExposable (text_eq key.0 (lit "id")) (key_not_id mapping) _ λ name.
                Returned-guard IsExposable (text_eq key.1 (lit "uuid")) (key_not_uuid mapping) _
                  λ type.
                    Returned-guard IsExposable verified.has_delete (no_delete mapping) _ λ deletes.
                      Returned-guard IsExposable
                        (not (null (names_where (λ column. column.has_select) verified.columns)))
                        (no_readable mapping) _
                        λ readable.
                          Returned-guard IsExposable
                            (not (null (names_where is_insertable verified.columns)))
                            (no_insertable mapping) _
                            λ insertable.
                              Returned-guard IsExposable verified.has_delete (no_delete mapping) _
                                λ _.
                                  Returned-guard IsExposable
                                    (not (null (names_where is_updatable verified.columns)))
                                    (no_updatable mapping) _
                                    λ updatable. (
                                      h.0 ∙ rw (rls, force) refl,
                                      h.2.1 ∙ ap ok (is_set-eq h.2.0 (sym h.2.2 ∙ policy)),
                                      h.1 ∙ rw deletes refl,
                                      (
                                        h.3.0,
                                        h.3.1,
                                        single_key-HasUuidKey platform h.3.0 key (sym h.3.2 ∙ k)
                                            (text_eq→eq key.0 (lit "id") name)
                                            (text_eq→eq key.1 (lit "uuid") type),
                                      ),
                                      not-true
                                          (null (
                                            names_where (λ column. column.has_select)
                                              verified.columns))
                                          readable,
                                      not-true (null (names_where is_insertable verified.columns))
                                          insertable,
                                      not-true (null (names_where is_updatable verified.columns))
                                          updatable,
                                      id_not_updatable verified.columns,
                                    )

  expose_table-IsExposable :
      (mapping : ExposedTableMapping)
      → Returned IsExposable (expose_table platform catalogue mapping)
  unfolding expose_table
  expose_table-IsExposable mapping =
      Returned-after IsExposable (assert_identifier mapping.schema (lit "schema")) _ λ _.
        Returned-after IsExposable (assert_identifier mapping.table (lit "table")) _ λ _.
          Returned-bind (IsVerified mapping) IsExposable (verify_table platform catalogue mapping) _
            (verify_table-IsVerified mapping)
            λ verified h. expose_verified-IsExposable mapping verified h

  -- Of every table of a registry that was built the catalogue has answered that row security is enabled and
  -- forced, that a policy applies to the role, and that "id", of type uuid, is the one column of the primary key;
  -- and it has answered yes to the question for DELETE, which names the table by the text schema.table without
  -- quotes. The table has readable, insertable and updatable columns, and "id" is not one of the updatable.
  pub build_table_registry-IsExposable :
      (mappings : List ExposedTableMapping)
      → Returned (All IsExposable) (build_table_registry platform catalogue mappings)
  unfolding build_table_registry
  build_table_registry-IsExposable [] = tt
  build_table_registry-IsExposable (mapping ∷ mappings) =
      Returned-bind IsExposable (All IsExposable) (expose_table platform catalogue mapping) _
        (expose_table-IsExposable mapping)
        λ table h.
          Returned-bind (All IsExposable) (All IsExposable)
            (build_table_registry platform catalogue mappings) _
            (build_table_registry-IsExposable mappings) λ rest k. (h, k)
