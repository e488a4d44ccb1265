-- ===== src/Exposure/Payload.antt =====
-- The acceptance of mappings by buildImportPayload of src/database/exposure-registry.ts.
use micro_jbase.Base.{
  arith, ◌≡◌, ◌↔◌, refl, ap, subst, Returned-bind, Bool, true, false, not, ◌||◌, List, [], ◌∷◌, All,
  ok, guard, Text, includes, Returned, Returned-guard,
}
use micro_jbase.Errors.{AppError}
use micro_jbase.Platform.{Platform}
use micro_jbase.Ddl.Identifiers.{is_simple_identifier}
use micro_jbase.Tables.{ExposedTableMapping}
use micro_jbase.Exposure.{
  duplicates, is_alias, forbidden_schemas, mapping_target, validate_mapping, build_payload,
  build_import_payload,
}

module _ (platform : Platform) where
  -- The names have their forms, and the schema may be exposed.
  pub record IsMapping (m : ExposedTableMapping) : Type 0 where
    pub alias_form : is_alias m.alias ≡ true
    pub schema_form : is_simple_identifier m.schema ≡ true
    pub table_form : is_simple_identifier m.table ≡ true
    pub allowed : includes forbidden_schemas (platform.to_lower m.schema) ≡ false

  -- No alias and no target occurs twice, nor among those given.
  abbrev pub AreDistinct : List Text → List Text → List ExposedTableMapping → Type 0
  AreDistinct aliases targets [] = Unit
  AreDistinct aliases targets (m ∷ ms) =
      (includes aliases m.alias ≡ false)
      × (includes targets (mapping_target m) ≡ false)
      × AreDistinct (m.alias ∷ aliases) (mapping_target m ∷ targets) ms

  unless :
      (P : Unit {0} → Type 0) (b : Bool) (e : AppError)
      → (b ≡ false → P tt)
      → Returned P (guard (not b) e)
  unless P true e h = tt
  unless P false e h = h refl

  validate_mapping-IsMapping :
      (m : ExposedTableMapping) → Returned (λ u. IsMapping m) (validate_mapping platform m)
  unfolding validate_mapping
  validate_mapping-IsMapping m =
      Returned-guard (λ u. IsMapping m) (is_alias m.alias) _ _
        λ a.
          Returned-guard (λ u. IsMapping m) (is_simple_identifier m.schema) _ _
            λ s.
              Returned-guard (λ u. IsMapping m) (is_simple_identifier m.table) _ _
                λ t.
                  unless (λ u. IsMapping m)
                    (includes forbidden_schemas (platform.to_lower m.schema)) _
                    λ f. record { alias_form = a; schema_form = s; table_form = t; allowed = f }

  validate_mapping_complete :
      (m : ExposedTableMapping) → IsMapping m → validate_mapping platform m ≡ ok tt
  unfolding validate_mapping
  validate_mapping_complete m h = rw (h.alias_form, h.schema_form, h.table_form, h.allowed) refl

  -- The names have their forms, and no alias and no target occurs twice.
  abbrev pub AreImportable : List Text → List Text → List ExposedTableMapping → Type 0
  AreImportable aliases targets ms = All IsMapping ms × AreDistinct aliases targets ms

  both_new : (a b : Bool) → not (a || b) ≡ true → (a ≡ false) × (b ≡ false)
  both_new a b h = ground arith

  build_payload-AreImportable :
      (aliases targets : List Text) (ms : List ExposedTableMapping)
      → Returned
          (λ payload. (payload ≡ ms) × AreImportable aliases targets ms)
          (build_payload platform aliases targets ms)
  unfolding build_payload
  build_payload-AreImportable aliases targets [] = (refl, (tt, tt))
  build_payload-AreImportable aliases targets (m ∷ ms) =
      let P : List ExposedTableMapping → Type 0 =
        λ payload. (payload ≡ m ∷ ms) × AreImportable aliases targets (m ∷ ms) in
      let rest = build_payload platform (m.alias ∷ aliases) (mapping_target m ∷ targets) ms in
      Returned-bind (λ u. IsMapping m) P (validate_mapping platform m) _
        (validate_mapping-IsMapping m)
        λ u good.
          Returned-guard P (not (includes aliases m.alias || includes targets (mapping_target m)))
            duplicates _
            λ new.
              Returned-bind
                (λ payload.
                  (payload ≡ ms)
                  × AreImportable (m.alias ∷ aliases) (mapping_target m ∷ targets) ms)
                P rest (λ payload. ok (m ∷ payload))
                (build_payload-AreImportable (m.alias ∷ aliases) (mapping_target m ∷ targets) ms)
                λ payload later.
                  let fresh =
                    both_new (includes aliases m.alias) (includes targets (mapping_target m)) new in
                  (ap (λ r. m ∷ r) later.0, ((good, later.1.0), (fresh.0, fresh.1, later.1.1)))

  build_payload_complete :
      (aliases targets : List Text) (ms : List ExposedTableMapping)
      → AreImportable aliases targets ms
      → build_payload platform aliases targets ms ≡ ok ms
  unfolding build_payload
  build_payload_complete aliases targets [] h = refl
  build_payload_complete aliases targets (m ∷ ms) h =
      rw
        (
          validate_mapping_complete m h.0.0,
          h.1.0,
          h.1.1,
          build_payload_complete (m.alias ∷ aliases) (mapping_target m ∷ targets) ms (h.0.1, h.1.2),
        )
        refl

  -- acceptance as predicates on the mappings
  pub build_import_payload_exact :
      (ms : List ExposedTableMapping)
      → ((build_import_payload platform ms ≡ ok ms) ↔ AreImportable [] [] ms)
        × ((payload : List ExposedTableMapping)
            → build_import_payload platform ms ≡ ok payload
            → payload ≡ ms)
  unfolding build_import_payload
  build_import_payload_exact ms =
      let known = build_payload-AreImportable [] [] ms in
      let Q : List ExposedTableMapping → Type 0 =
        λ payload. (payload ≡ ms) × AreImportable [] [] ms in
      (
        (λ h. (subst (Returned Q) h known).1, build_payload_complete [] [] ms),
        λ payload h. (subst (Returned Q) h known).0,
      )
