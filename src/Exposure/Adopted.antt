-- ===== src/Exposure/Adopted.antt =====
-- What a start that goes on can rely on, by importInitialExposure of src/database/exposure-registry.ts.
use micro_jbase.Base.{
  arith, ℕ, ◌≡◌, refl, subst, ap, ◌∙◌, ok_subst, ◌==◌, Bool, true, false, ◌&&◌, &&-true, Bool-cases,
  ◌⊎◌, inl, inr, Option, none, some, List, [], ◌∷◌, All, ◌||◌, leb, length, is_lower, is_letter,
  is_digit, if◌then◌else◌, Result, ok, err, Text, matches_head_rest, matches_head_rest-All,
}
use micro_jbase.Errors.{AppError, Thrown}
use micro_jbase.Platform.{Platform}
use micro_jbase.Ddl.Identifiers.{is_simple_identifier}
use micro_jbase.Tables.{ExposedTableMapping}
use micro_jbase.Exposure.{
  RegistryTables, Event, others, fault, lost, World, ExposureRegistryState, is_alias,
  exposed_sets_equal, build_import_payload, and_then, Statement, carried_out, deliver,
  query_translated, read_exposure_registry_state,
}
use micro_jbase.Exposure.Import.{
  other_winner, imported, is_initialized, import_function, decided, conclude_import, import_payload,
  import_unless, import_initial_exposure,
}
use micro_jbase.Exposure.Imported.{import_function-IsImported}
use micro_jbase.Exposure.Payload.{IsMapping, build_import_payload_exact}
use micro_jbase.Exposure.Sets.{IsPlain, IsPlainMapping, AreSame, exposed_sets_equal_iff}

-- the names of a mapping that was accepted hold no NUL
abbrev NotNul : ℕ → Type 0
NotNul c = (c == 0) ≡ false

is_simple_identifier-IsPlain : (t : Text) → is_simple_identifier t ≡ true → IsPlain t
unfolding is_simple_identifier
is_simple_identifier-IsPlain t h =
    matches_head_rest-All (λ c. is_letter c || c == b'_')
      (λ c. is_letter c || (is_digit c || c == b'_')) NotNul t (λ c k. ground arith)
      (λ c k. ground arith) h

is_alias-IsPlain : (t : Text) → is_alias t ≡ true → IsPlain t
unfolding is_alias
is_alias-IsPlain t h =
    matches_head_rest-All is_lower (λ c. is_lower c || (is_digit c || c == b'_')) NotNul t
      (λ c k. ground arith) (λ c k. ground arith)
      (&&-true (leb (length t) 63)
        (matches_head_rest is_lower (λ c. is_lower c || (is_digit c || c == b'_')) t) h).1

module _ (platform : Platform) where
  mappings-IsPlain :
      (ms : List ExposedTableMapping) → All (IsMapping platform) ms → All IsPlainMapping ms
  mappings-IsPlain [] h = tt
  mappings-IsPlain (m ∷ ms) h = (
    (
      is_alias-IsPlain m.alias h.0.alias_form,
      is_simple_identifier-IsPlain m.schema h.0.schema_form,
      is_simple_identifier-IsPlain m.table h.0.table_form,
    ),
    mappings-IsPlain ms h.1,
  )

  -- a statement that is answered was carried out on some tables
  module _ {A : Type 0} (statement : Statement platform A) where
    abbrev Carried : Result AppError A × World → Type 0
    Carried (ok a, w) = (t : RegistryTables) × (statement t ≡ ok (a, w.tables))
    Carried (err e, w) = Unit

    carried_out-Carried :
        (gone : Option Thrown) (rest : List Event) (t : RegistryTables)
        (answer : Result Thrown (A × RegistryTables))
        → statement t ≡ answer
        → Carried (carried_out platform gone rest t answer)
    carried_out-Carried none rest t (ok (a, u)) h = (t, h)
    carried_out-Carried (some e) rest t (ok (a, u)) h = tt
    carried_out-Carried none rest t (err e) h = tt
    carried_out-Carried (some f) rest t (err e) h = tt

    deliver-Carried :
        (t : RegistryTables) (schedule : List Event)
        → Carried (deliver platform statement t schedule)
    unfolding deliver
    deliver-Carried t [] = carried_out-Carried none [] t (statement t) refl
    deliver-Carried t (others change ∷ rest) =
        carried_out-Carried none rest (change t) (statement (change t)) refl
    deliver-Carried t (fault e ∷ rest) = tt
    deliver-Carried t (lost e ∷ rest) = carried_out-Carried (some e) rest t (statement t) refl

    query_translated-Carried : (w : World) → Carried (query_translated platform statement w)
    unfolding query_translated
    query_translated-Carried w = deliver-Carried w.tables w.schedule

  module _ (order : List ExposedTableMapping → List ExposedTableMapping)
      (state : ExposureRegistryState) where
    -- What was read after the attempt `tried` to import is returned. The attempt failed, and what was read is
    -- an initialized registry with the same mappings; or it succeeded, on tables that were not initialized, and
    -- left what the import makes of them.
    abbrev pub IsConcluded :
        (List ExposedTableMapping → Type 0)
        → List ExposedTableMapping
        → Result AppError Unit × World
        → Type 0
    IsConcluded Same payload tried =
        ((read_exposure_registry_state platform order tried.1).0 ≡ ok state)
        × (((e : AppError) × (tried.0 ≡ err e) × (state.initialized ≡ true) × Same payload)
            ⊎ ((tried.0 ≡ ok tt)
                × (t : RegistryTables) × (is_initialized t.state ≡ false)
                × (tried.1.tables ≡ imported payload t)))

    -- The first read found the registry not initialized, and the attempt to import came next.
    abbrev pub IsJustified :
        (List ExposedTableMapping → Type 0)
        → List ExposedTableMapping
        → Result AppError ExposureRegistryState × World
        → Type 0
    IsJustified Same mappings found =
        (before : ExposureRegistryState) × (found.0 ≡ ok before)
        × (before.initialized ≡ false)
        × IsConcluded Same mappings (query_translated platform (import_function mappings) found.1)

    abbrev Tested : List ExposedTableMapping → Type 0
    Tested payload = exposed_sets_equal state.exposed payload ≡ true

    decided_same :
        (e : AppError) (payload : List ExposedTableMapping) (found : ExposureRegistryState)
        → decided platform order e payload found ≡ ok state
        → (found ≡ state) × (state.initialized ≡ true) × Tested payload
    decided_same e payload found h =
        elim (Bool-cases (found.initialized && exposed_sets_equal found.exposed payload)) [
          | inl same ↦
              let known =
                &&-true found.initialized (exposed_sets_equal found.exposed payload) same in
              ok_subst
                (λ (s : ExposureRegistryState).
                  (found ≡ s)
                  × (s.initialized ≡ true)
                  × (exposed_sets_equal s.exposed payload ≡ true))
                found (rw same at h) (refl, known.0, known.1)
          | inr other ↦ let refused = rw other at h in refuted found.initialized refused
        ]
      where
        refuted :
            (b : Bool)
            → (if b then err other_winner else err e) ≡ ok state
            → (found ≡ state) × (state.initialized ≡ true) × Tested payload
        refuted true k = cc
        refuted false k = cc

    concluded :
        (payload : List ExposedTableMapping) (tried : Result AppError Unit × World)
        → Carried (import_function payload) tried
        → (conclude_import platform order payload tried).0 ≡ ok state
        → IsConcluded Tested payload tried
    unfolding conclude_import
    concluded payload (ok done, v) carried h =
        let done_by = import_function-IsImported payload carried.0 v.tables carried.1 in
        (h, inr (refl, carried.0, done_by.first, done_by.left))
    concluded payload (err e, v) carried h =
        reread (read_exposure_registry_state platform order v) refl h
      where
        reread :
            (found : Result AppError ExposureRegistryState × World)
            → read_exposure_registry_state platform order v ≡ found
            → (and_then platform found (λ s u. (decided platform order e payload s, u))).0
              ≡ ok state
            → IsConcluded Tested payload (err e, v)
        reread (ok s, u) known k =
            let same = decided_same e payload s k in
            (ap (λ r. r.0) known ∙ ap ok same.0, inl (e, refl, same.1, same.2))
        reread (err f, u) known k = cc

    module _ (mappings : List ExposedTableMapping) where
      payload-IsConcluded :
          (payload : Result AppError (List ExposedTableMapping)) (w : World)
          → build_import_payload platform mappings ≡ payload
          → (import_payload platform order payload w).0 ≡ ok state
          → (build_import_payload platform mappings ≡ ok mappings)
            × IsConcluded Tested mappings (query_translated platform (import_function mappings) w)
      unfolding import_payload
      payload-IsConcluded (err e) w built h = cc
      payload-IsConcluded (ok payload) w built h =
          let same = (build_import_payload_exact platform mappings).1 payload built in
          (
            built ∙ ap ok same,
            subst (λ p. IsConcluded Tested p (query_translated platform (import_function p) w)) same
                (concluded payload (query_translated platform (import_function payload) w)
                  (query_translated-Carried (import_function payload) w) h),
          )

      unless-IsJustified :
          (before : ExposureRegistryState) (initialized : Bool) (w : World)
          → before.initialized ≡ initialized
          → (import_unless platform order mappings before w).0 ≡ ok state
          → (build_import_payload platform mappings ≡ ok mappings)
            × IsJustified Tested mappings (ok before, w)
      unfolding import_unless
      unless-IsJustified before true w known h = absurd (cc (rw known at h))
      unless-IsJustified before false w known h =
          let end =
            payload-IsConcluded (build_import_payload platform mappings) w refl (rw known at h) in
          (end.0, (before, refl, known, end.1))

      started-IsJustified :
          (found : Result AppError ExposureRegistryState × World)
          → (and_then platform found (import_unless platform order mappings)).0 ≡ ok state
          → (build_import_payload platform mappings ≡ ok mappings)
            × IsJustified Tested mappings found
      started-IsJustified (ok before, w) h = unless-IsJustified before before.initialized w refl h
      started-IsJustified (err e, w) h = cc

      same_exposed :
          (found : Result AppError ExposureRegistryState × World)
          → build_import_payload platform mappings ≡ ok mappings
          → All IsPlainMapping state.exposed
          → IsJustified Tested mappings found
          → IsJustified (AreSame state.exposed) mappings found
      same_exposed found built plain (before, ready, off, (shown, inl (e, failed, on, tested))) =
          let good = ((build_import_payload_exact platform mappings).0.0 built).0 in
          let same =
            (exposed_sets_equal_iff state.exposed plain mappings (mappings-IsPlain mappings good)).0
              tested in
          (before, ready, off, (shown, inl (e, failed, on, same)))
      same_exposed found built plain (before, ready, off, (shown, inr ours)) =
          (before, ready, off, (shown, inr ours))

      -- Where the import returns a registry whose names hold no NUL, whatever other sessions do and whichever
      -- queries fail meanwhile, the given mappings passed the validation, the first read found the registry not
      -- initialized, and the registry that is returned was read after the attempt to import. Either the attempt
      -- failed, and that registry is initialized, with the given mappings and no other; or the attempt succeeded,
      -- on tables that were not initialized, and left them with the given mappings added, and initialized if they
      -- have the row of the state.
      pub import_initial_exposure-IsJustified :
          (w : World)
          → All IsPlainMapping state.exposed
          → (import_initial_exposure platform order mappings w).0 ≡ ok state
          → (build_import_payload platform mappings ≡ ok mappings)
            × IsJustified
                (AreSame state.exposed)
                mappings
                (read_exposure_registry_state platform order w)
      unfolding import_initial_exposure
      import_initial_exposure-IsJustified w plain h =
          let found = read_exposure_registry_state platform order w in
          let known = started-IsJustified found h in
          (known.0, same_exposed found known.0 plain known.1)
