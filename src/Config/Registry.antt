-- ===== src/Config/Registry.antt =====
-- parseMappings of src/database/table-registry.ts: the mappings of MICROJBASE_TABLES once more, where the alias
-- is tested before the target, and no target may occur twice.
use micro_jbase.Base.{
  arith, ◌≡◌, refl, Bool, true, false, not, ◌||◌, Option, none, some, List, [], ◌∷◌, ◌++◌, null,
  Result, ok, err, guard, ◌>>=◌, ◌>>◌, Text, lit, includes, Returned, Returned-guard, Returned-bind,
  Returned-eq,
}
use micro_jbase.Errors.{Thrown}
use micro_jbase.Platform.{Platform}
use micro_jbase.Tables.{ExposedTableMapping}
use micro_jbase.Exposure.{is_alias, mapping_target}
use micro_jbase.Config.{given}
use micro_jbase.Config.Mappings.{
  bad_tables, bad_entry, split_on, cut_at, parse_table_target, mapping_of_parts, parse_entry,
  parse_entries, mappings_of, parse_table_mappings,
}

abbrev bad_mapping : Text → Text → Text → Thrown
bad_mapping what name message =
    bad_tables (lit "MICROJBASE_TABLES " ∷ what ∷ lit " \"" ∷ name ∷ lit "\" " ∷ message ∷ [])

-- No target occurs twice, nor among those given.
abbrev pub HaveTargets : List Text → List ExposedTableMapping → Type 0
HaveTargets seen [] = Unit
HaveTargets seen (m ∷ ms) =
    (includes seen (mapping_target m) ≡ false) × HaveTargets (mapping_target m ∷ seen) ms

module _ (platform : Platform) where
  -- the mapping, if its target is new
  abbrev with_new_target : List Text → ExposedTableMapping → Result Thrown ExposedTableMapping
  with_new_target targets m =
      guard (not (includes targets (mapping_target m)))
        (bad_mapping (lit "target") (mapping_target m) (lit "is mapped more than once"))
      >> ok m

  abbrev registered_of_parts :
      List Text → List Text → Text → Option (Text × Text) → Result Thrown ExposedTableMapping
  registered_of_parts aliases targets entry none = err (bad_entry entry)
  registered_of_parts aliases targets entry (some (before, after)) =
      guard (not (null before || null after)) (bad_entry entry)
      >> (guard (is_alias (platform.trim before)) (
            bad_mapping (lit "alias") (platform.trim before)
              (lit "must match ^[a-z][a-z0-9_]{0,62}$"))
          >> (parse_table_target platform (platform.trim after) >>= λ parsed.
              guard (not (includes aliases (platform.trim before)))
                (bad_mapping (lit "alias") (platform.trim before) (lit "is defined more than once"))
              >> with_new_target targets
                  (record { alias = platform.trim before; schema = parsed.0; table = parsed.1 })))

  unfoldable pub parse_registered : List Text → List Text → Text → Result Thrown ExposedTableMapping
  parse_registered aliases targets entry =
      guard (not (null entry)) (bad_tables (lit "MICROJBASE_TABLES contains an empty entry" ∷ []))
      >> registered_of_parts aliases targets entry (cut_at b'=' entry)

  -- the loop, with the aliases and targets that it has seen
  unfoldable pub parse_registrations :
      List Text → List Text → List Text → Result Thrown (List ExposedTableMapping)
  parse_registrations aliases targets [] = ok []
  parse_registrations aliases targets (entry ∷ entries) = do
    mapping ← parse_registered aliases targets (platform.trim entry)
    rest ← parse_registrations (mapping.alias ∷ aliases) (mapping_target mapping ∷ targets) entries
    ok (mapping ∷ rest)

  abbrev registered_mappings : Option Text → Result Thrown (List ExposedTableMapping)
  registered_mappings none = ok []
  registered_mappings (some raw) = parse_registrations [] [] (split_on b',' raw)

  unfoldable pub parse_mappings : Option Text → Result Thrown (List ExposedTableMapping)
  parse_mappings raw = registered_mappings (given platform raw)

  abbrev IsBoth :
      List Text → List Text → Result Thrown ExposedTableMapping → ExposedTableMapping → Type 0
  IsBoth aliases targets other m = (other ≡ ok m) × (includes targets (mapping_target m) ≡ false)

  false_of_not : (b : Bool) → not b ≡ true → b ≡ false
  false_of_not b h = ground arith

  parts-AreBoth :
      (aliases targets : List Text) (entry : Text) (cut : Option (Text × Text))
      → Returned
          (IsBoth aliases targets (mapping_of_parts platform aliases entry cut))
          (registered_of_parts aliases targets entry cut)
  parts-AreBoth aliases targets entry none = tt
  parts-AreBoth aliases targets entry (some (before, after)) =
      let P =
        IsBoth aliases targets (mapping_of_parts platform aliases entry (some (before, after))) in
      Returned-guard P (not (null before || null after)) _ _ λ full.
        Returned-guard P (is_alias (platform.trim before)) _ _ λ form.
          Returned-eq P (parse_table_target platform (platform.trim after)) _ λ parsed target.
            Returned-guard P (not (includes aliases (platform.trim before))) _ _ λ new.
              Returned-guard P (not (includes targets (parsed.0 ++ (b'.' ∷ parsed.1)))) _ _
                λ free. (rw (full, target, form, new) refl, false_of_not _ free)

  abbrev AreBoth :
      List Text
      → List Text
      → Result Thrown (List ExposedTableMapping)
      → List ExposedTableMapping
      → Type 0
  AreBoth aliases targets other ms = (other ≡ ok ms) × HaveTargets targets ms

  entry-IsBoth :
      (aliases targets : List Text) (entry : Text)
      → Returned
          (IsBoth aliases targets (parse_entry platform aliases entry))
          (parse_registered aliases targets entry)
  unfolding parse_registered parse_entry
  entry-IsBoth aliases targets entry =
      let P = IsBoth aliases targets (parse_entry platform aliases entry) in
      Returned-guard P (not (null entry)) _ _
        λ full. rw full (parts-AreBoth aliases targets entry (cut_at b'=' entry))

  entries-AreBoth :
      (aliases targets entries : List Text)
      → Returned
          (AreBoth aliases targets (parse_entries platform aliases entries))
          (parse_registrations aliases targets entries)
  unfolding parse_registrations parse_entries
  entries-AreBoth aliases targets [] = (refl, tt)
  entries-AreBoth aliases targets (entry ∷ entries) =
      let P = AreBoth aliases targets (parse_entries platform aliases (entry ∷ entries)) in
      Returned-bind (IsBoth aliases targets (parse_entry platform aliases (platform.trim entry))) P
        (parse_registered aliases targets (platform.trim entry)) _
        (entry-IsBoth aliases targets (platform.trim entry))
        λ m known.
          Returned-bind
            (AreBoth (m.alias ∷ aliases) (mapping_target m ∷ targets)
              (parse_entries platform (m.alias ∷ aliases) entries))
            P (parse_registrations (m.alias ∷ aliases) (mapping_target m ∷ targets) entries) _
            (entries-AreBoth (m.alias ∷ aliases) (mapping_target m ∷ targets) entries)
            λ ms later. (rw (known.0, later.0) refl, (known.1, later.1))

  -- The mappings that the registry's parser accepts are those that the parser of the configuration returns for
  -- the same text, and no target occurs twice among them.
  pub parse_mappings-parse_table_mappings :
      (raw : Option Text)
      → Returned
          (λ ms. (parse_table_mappings platform raw ≡ ok ms) × HaveTargets [] ms)
          (parse_mappings raw)
  unfolding parse_mappings parse_table_mappings
  parse_mappings-parse_table_mappings raw = of_given (given platform raw)
    where
      of_given :
          (text : Option Text)
          → Returned
              (λ ms. (mappings_of platform text ≡ ok ms) × HaveTargets [] ms)
              (registered_mappings text)
      of_given none = (refl, tt)
      of_given (some t) = entries-AreBoth [] [] (split_on b',' t)
