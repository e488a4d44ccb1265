-- ===== src/Exposure/Agreed.antt =====
-- The two validations of the import: buildImportPayload of src/database/exposure-registry.ts, and the function
-- microjbase.import_exposure_registry of migrations/0006_exposure_registry.sql.
use micro_jbase.Base.{
  arith, ◌≡◌, refl, ==_iff, Bool, true, false, &&-true, List, [], ◌∷◌, ◌++◌, lit, starts_with,
  subst, map, ap, ◌↔◌, All, all, length, ok, Text, text_eq, includes,
}
use micro_jbase.Platform.{Platform}
use micro_jbase.Tables.{ExposedTableMapping}
use micro_jbase.Exposure.{
  RegistryTables, is_alias, forbidden_schemas, mapping_target, distinct, build_import_payload,
}
use micro_jbase.Exposure.Import.{
  import_function, is_importable, is_sql_name, all_distinct, imported, is_initialized, row_of,
}
use micro_jbase.Exposure.Imported.{import_function-IsImported}
use micro_jbase.Exposure.Payload.{IsMapping, AreDistinct, build_import_payload_exact}
use micro_jbase.Exposure.Sets.{NoRepeat, NoRepeat-full, distinct_full}
use micro_jbase.Exposure.Names.{
  IsLowercase, Begins, is_sql_name-is_simple_identifier, is_sql_name-IsLowercase,
  lowercase-is_sql_name, starts_with-Begins, Begins-starts_with,
}

text_eq_sym : (a b : Text) → text_eq a b ≡ text_eq b a
unfolding text_eq
text_eq_sym [] [] = refl
text_eq_sym [] (y ∷ ys) = refl
text_eq_sym (x ∷ xs) [] = refl
text_eq_sym (x ∷ xs) (y ∷ ys) = ground (arith, text_eq_sym xs ys)

module _ (name : ExposedTableMapping → Text) where
  -- the names are not among those given
  abbrev AreNew : List Text → List ExposedTableMapping → Type 0
  AreNew seen ms = All (λ n. includes seen (name n) ≡ false) ms

  none_new : (ms : List ExposedTableMapping) → AreNew [] ms
  unfolding includes
  none_new [] = tt
  none_new (m ∷ ms) = (refl, none_new ms)

  still_new :
      (x : Text) (seen : List Text) (ms : List ExposedTableMapping)
      → includes (map name ms) x ≡ false
      → AreNew seen ms
      → AreNew (x ∷ seen) ms
  unfolding includes
  still_new x seen [] h k = tt
  still_new x seen (m ∷ ms) h k =
      (ground (arith, text_eq_sym x (name m), k.0), still_new x seen ms (ground arith) k.1)

  new_parts :
      (x : Text) (seen : List Text) (ms : List ExposedTableMapping)
      → AreNew (x ∷ seen) ms
      → (includes (map name ms) x ≡ false) × AreNew seen ms
  unfolding includes
  new_parts x seen [] h = (refl, tt)
  new_parts x seen (m ∷ ms) h =
      let rest = new_parts x seen ms h.1 in
      (ground (arith, text_eq_sym x (name m), h.0, rest.0), (ground (arith, h.0), rest.1))

abbrev alias_of : ExposedTableMapping → Text
alias_of m = m.alias

module _ (platform : Platform) where
  NoRepeat-AreDistinct :
      (aliases targets : List Text) (ms : List ExposedTableMapping)
      → NoRepeat (map alias_of ms)
      → NoRepeat (map mapping_target ms)
      → AreNew alias_of aliases ms
      → AreNew mapping_target targets ms
      → AreDistinct platform aliases targets ms
  NoRepeat-AreDistinct aliases targets [] a t h k = tt
  NoRepeat-AreDistinct aliases targets (m ∷ ms) a t h k = (
    h.0,
    k.0,
    NoRepeat-AreDistinct (m.alias ∷ aliases) (mapping_target m ∷ targets) ms a.1 t.1
        (still_new alias_of m.alias aliases ms a.0 h.1)
        (still_new mapping_target (mapping_target m) targets ms t.0 k.1),
  )

  -- no name is among those given, and none occurs twice
  abbrev AreOnce : List Text → List Text → List ExposedTableMapping → Type 0
  AreOnce aliases targets ms =
      (AreNew alias_of aliases ms × NoRepeat (map alias_of ms))
      × (AreNew mapping_target targets ms × NoRepeat (map mapping_target ms))

  AreDistinct-AreOnce :
      (aliases targets : List Text) (ms : List ExposedTableMapping)
      → AreDistinct platform aliases targets ms
      → AreOnce aliases targets ms
  AreDistinct-AreOnce aliases targets [] h = ((tt, tt), (tt, tt))
  AreDistinct-AreOnce aliases targets (m ∷ ms) h =
      let rest = AreDistinct-AreOnce (m.alias ∷ aliases) (mapping_target m ∷ targets) ms h.2 in
      let a = new_parts alias_of m.alias aliases ms rest.0.0 in
      let t = new_parts mapping_target (mapping_target m) targets ms rest.1.0 in
      (((h.0, a.1), (a.0, rest.0.1)), ((h.1, t.1), (t.0, rest.1.1)))

-- The schema and the table are of ASCII without capitals, and the schema does not begin with pg_.
abbrev pub IsImportedName : ExposedTableMapping → Type 0
IsImportedName m =
    All IsLowercase m.schema × All IsLowercase m.table × (¬ Begins (lit "pg_") m.schema)

module _ (platform : Platform)
    (lowers : (t : Text) → All IsLowercase t → platform.to_lower t ≡ t) where
  is_importable-IsMapping :
      (m : ExposedTableMapping) → is_importable m ≡ true → IsMapping platform m
  unfolding is_importable
  is_importable-IsMapping m h =
      let a = &&-true (is_alias m.alias) _ h in
      let s = &&-true (is_sql_name m.schema) _ a.1 in
      let t = &&-true (is_sql_name m.table) _ s.1 in
      let free : includes forbidden_schemas m.schema ≡ false = ground (arith, t.1) in
      record {
        alias_form = a.0;
        schema_form = is_sql_name-is_simple_identifier m.schema s.0;
        table_form = is_sql_name-is_simple_identifier m.table t.0;
        allowed = rw (lowers m.schema (is_sql_name-IsLowercase m.schema s.0)) free;
      }

  all_mappings :
      (ms : List ExposedTableMapping) → all is_importable ms ≡ true → All (IsMapping platform) ms
  all_mappings [] h = tt
  all_mappings (m ∷ ms) h =
      let tests = &&-true (is_importable m) (all is_importable ms) h in
      (is_importable-IsMapping m tests.0, all_mappings ms tests.1)

  no_repeat : (texts : List Text) → all_distinct texts ≡ true → NoRepeat texts
  no_repeat texts h = distinct_full texts ((==_iff (length (distinct texts)) (length texts)).0 h)

  imported_build :
      (ms : List ExposedTableMapping) (t u : RegistryTables)
      → import_function ms t ≡ ok (tt, u)
      → build_import_payload platform ms ≡ ok ms
  imported_build ms t u h =
      let passed = import_function-IsImported ms t u h in
      let once =
        &&-true (all_distinct (map alias_of ms)) (all_distinct (map mapping_target ms))
          passed.once in
      (build_import_payload_exact platform ms).0.1 (
        all_mappings ms passed.forms,
        NoRepeat-AreDistinct platform [] [] ms (no_repeat (map alias_of ms) once.0)
            (no_repeat (map mapping_target ms) once.1) (none_new alias_of ms)
            (none_new mapping_target ms),
      )

  importable-IsImportedName : (m : ExposedTableMapping) → is_importable m ≡ true → IsImportedName m
  unfolding is_importable
  importable-IsImportedName m h =
      let a = &&-true (is_alias m.alias) _ h in
      let s = &&-true (is_sql_name m.schema) _ a.1 in
      let t = &&-true (is_sql_name m.table) _ s.1 in
      (
        is_sql_name-IsLowercase m.schema s.0,
        is_sql_name-IsLowercase m.table t.0,
        λ begins.
            let prefixed = Begins-starts_with (lit "pg_") m.schema begins in
            ground (arith, prefixed, t.1),
      )

  all_imported_names :
      (ms : List ExposedTableMapping) → all is_importable ms ≡ true → All IsImportedName ms
  all_imported_names [] h = tt
  all_imported_names (m ∷ ms) h =
      let tests = &&-true (is_importable m) (all is_importable ms) h in
      (importable-IsImportedName m tests.0, all_imported_names ms tests.1)

  false_unless : (b : Bool) → ¬ (b ≡ true) → b ≡ false
  false_unless true h = absurd (h refl)
  false_unless false h = refl

  IsMapping-is_importable :
      (m : ExposedTableMapping) → IsMapping platform m → IsImportedName m → is_importable m ≡ true
  unfolding is_importable
  IsMapping-is_importable m good named =
      let free : includes forbidden_schemas m.schema ≡ false =
        subst (λ t. includes forbidden_schemas t ≡ false) (lowers m.schema named.0) good.allowed in
      let plain : starts_with (lit "pg_") m.schema ≡ false =
        false_unless (starts_with (lit "pg_") m.schema)
          (λ h. named.2 (starts_with-Begins (lit "pg_") m.schema h)) in
      rw
        (
          good.alias_form,
          lowercase-is_sql_name m.schema named.0 good.schema_form,
          lowercase-is_sql_name m.table named.1 good.table_form,
          free,
          plain,
        )
        refl

  all_importable :
      (ms : List ExposedTableMapping)
      → All (IsMapping platform) ms
      → All IsImportedName ms
      → all is_importable ms ≡ true
  all_importable [] good named = refl
  all_importable (m ∷ ms) good named =
      rw (IsMapping-is_importable m good.0 named.0) (all_importable ms good.1 named.1)

  distinct_of : (texts : List Text) → NoRepeat texts → all_distinct texts ≡ true
  distinct_of texts h = (==_iff (length (distinct texts)) (length texts)).1 (NoRepeat-full texts h)

  rows_of :
      (name : ExposedTableMapping → Text) (ms : List ExposedTableMapping)
      → map (λ row. name row.entry) (map row_of ms ++ []) ≡ map name ms
  rows_of name [] = refl
  rows_of name (m ∷ ms) = ap (λ r. name m ∷ r) (rows_of name ms)

  -- On tables without rows that are not initialized, the SQL function imports the mappings exactly where
  -- buildImportPayload accepts them, as they are, their schemas and tables are of ASCII without capitals, and no
  -- schema begins with pg_, if toLowerCase leaves a text of ASCII without capitals as it is.
  pub import_function-build_import_payload :
      (ms : List ExposedTableMapping) (t : RegistryTables)
      → t.rows ≡ []
      → is_initialized t.state ≡ false
      → (import_function ms t ≡ ok (tt, imported ms t))
        ↔ ((build_import_payload platform ms ≡ ok ms) × All IsImportedName ms)
  unfolding import_function
  import_function-build_import_payload ms t no_rows off = (
    (λ h.
        let passed = import_function-IsImported ms t (imported ms t) h in
        (imported_build ms t (imported ms t) h, all_imported_names ms passed.forms)),
    (λ h.
        let good = (build_import_payload_exact platform ms).0.0 h.0 in
        let once = AreDistinct-AreOnce platform [] [] ms good.1 in
        let aliases = distinct_of (map alias_of ms) once.0.1 in
        let targets = distinct_of (map mapping_target ms) once.1.1 in
        rw
          (
            all_importable ms good.0 h.1,
            aliases,
            targets,
            off,
            no_rows,
            rows_of alias_of ms,
            rows_of mapping_target ms,
            aliases,
            targets,
          )
          refl),
  )
