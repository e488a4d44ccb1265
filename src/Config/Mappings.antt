-- ===== src/Config/Mappings.antt =====
-- The mappings of MICROJBASE_TABLES: parseTableMappings and parseTableTarget of src/core/config.ts.
use micro_jbase.Base.{
  ℕ, ◌==◌, arith, ◌≡◌, true, false, not, Returned, Returned-guard, Returned-bind, ◌||◌, Option,
  none, some, List, [], ◌∷◌, null, if◌then◌else◌, Result, ok, err, guard, ◌>>=◌, ◌>>◌, Text, lit,
  includes,
}
use micro_jbase.Errors.{Thrown}
use micro_jbase.Platform.{Platform}
use micro_jbase.Tables.{ExposedTableMapping}
use micro_jbase.Exposure.{is_alias, forbidden_schemas}
use micro_jbase.Config.{bad_variable, given}

abbrev pub bad_tables : List Text → Thrown
bad_tables message = bad_variable (lit "MICROJBASE_TABLES") message

abbrev onto_first : ℕ → List Text → List Text
onto_first c [] = (c ∷ []) ∷ []
onto_first c (part ∷ parts) = (c ∷ part) ∷ parts

-- text.split(c), for one code unit
unfoldable pub split_on : ℕ → Text → List Text
split_on s [] = [] ∷ []
split_on s (c ∷ cs) = let rest = split_on s cs in if c == s then [] ∷ rest else onto_first c rest

abbrev onto_before : ℕ → Option (Text × Text) → Option (Text × Text)
onto_before c none = none
onto_before c (some (before, after)) = some (c ∷ before, after)

-- what stands before and after the first occurrence, text.indexOf(c)
unfoldable pub cut_at : ℕ → Text → Option (Text × Text)
cut_at s [] = none
cut_at s (c ∷ cs) = let rest = cut_at s cs in if c == s then some ([], cs) else onto_before c rest

abbrev pub bad_target : Text → Thrown
bad_target target =
    bad_tables (lit "MICROJBASE_TABLES target \"" ∷ target ∷ lit "\" must be schema.table" ∷ [])

abbrev pub bad_entry : Text → Thrown
bad_entry entry = bad_tables (
    lit "MICROJBASE_TABLES entry \"" ∷ entry ∷ lit "\" must be in the form alias=schema.table" ∷ [])

module _ (platform : Platform) where
  abbrev pub target_of_parts : Text → List Text → Result Thrown (Text × Text)
  target_of_parts target (schema ∷ table ∷ []) =
      guard (not (null schema || null table)) (bad_target target)
      >> (guard (not (includes forbidden_schemas (platform.to_lower schema))) (
            bad_tables
              (lit "MICROJBASE_TABLES schema \"" ∷ schema ∷ lit "\" cannot be exposed" ∷ []))
          >> ok (schema, table))
  target_of_parts target _ = err (bad_target target)

  unfoldable pub parse_table_target : Text → Result Thrown (Text × Text)
  parse_table_target target = target_of_parts target (split_on b'.' target)

  -- an entry, cut at its first `=`
  abbrev pub mapping_of_parts :
      List Text → Text → Option (Text × Text) → Result Thrown ExposedTableMapping
  mapping_of_parts seen entry none = err (bad_entry entry)
  mapping_of_parts seen entry (some (before, after)) =
      guard (not (null before || null after)) (bad_entry entry)
      >> (parse_table_target (platform.trim after) >>= λ parsed.
          guard (is_alias (platform.trim before)) (
            bad_tables (
              lit "MICROJBASE_TABLES alias \""
              ∷ platform.trim before
              ∷ lit "\" must match ^[a-z][a-z0-9_]{0,62}$"
              ∷ []))
          >> (guard (not (includes seen (platform.trim before))) (
                bad_tables (
                  lit "MICROJBASE_TABLES alias \""
                  ∷ platform.trim before
                  ∷ lit "\" is defined more than once"
                  ∷ []))
              >> ok (record { alias = platform.trim before; schema = parsed.0; table = parsed.1 })))

  unfoldable pub parse_entry : List Text → Text → Result Thrown ExposedTableMapping
  parse_entry seen entry =
      guard (not (null entry)) (bad_tables (lit "MICROJBASE_TABLES contains an empty entry" ∷ []))
      >> mapping_of_parts seen entry (cut_at b'=' entry)

  -- the loop, with the aliases that it has seen
  unfoldable pub parse_entries : List Text → List Text → Result Thrown (List ExposedTableMapping)
  parse_entries seen [] = ok []
  parse_entries seen (entry ∷ entries) = do
    mapping ← parse_entry seen (platform.trim entry)
    rest ← parse_entries (mapping.alias ∷ seen) entries
    ok (mapping ∷ rest)

  abbrev pub mappings_of : Option Text → Result Thrown (List ExposedTableMapping)
  mappings_of none = ok []
  mappings_of (some raw) = parse_entries [] (split_on b',' raw)

  unfoldable pub parse_table_mappings : Option Text → Result Thrown (List ExposedTableMapping)
  parse_table_mappings raw = mappings_of (given platform raw)

  -- The alias has its form, the names are not empty, and the schema may be exposed.
  abbrev pub IsUsable : ExposedTableMapping → Type 0
  IsUsable m =
      (is_alias m.alias ≡ true)
      × (null m.schema ≡ false)
      × (null m.table ≡ false)
      × (includes forbidden_schemas (platform.to_lower m.schema) ≡ false)

  -- No alias occurs twice, nor among those given.
  abbrev pub HaveAliases : List Text → List ExposedTableMapping → Type 0
  HaveAliases seen [] = Unit
  HaveAliases seen (m ∷ ms) =
      IsUsable m × (includes seen m.alias ≡ false) × HaveAliases (m.alias ∷ seen) ms

  abbrev IsTarget : Text × Text → Type 0
  IsTarget t =
      (null t.0 ≡ false)
      × (null t.1 ≡ false)
      × (includes forbidden_schemas (platform.to_lower t.0) ≡ false)

  target_of_parts-IsTarget :
      (target : Text) (parts : List Text) → Returned IsTarget (target_of_parts target parts)
  target_of_parts-IsTarget target [] = tt
  target_of_parts-IsTarget target (schema ∷ []) = tt
  target_of_parts-IsTarget target (schema ∷ table ∷ []) =
      Returned-guard IsTarget (not (null schema || null table)) _ _ λ full.
        Returned-guard IsTarget (not (includes forbidden_schemas (platform.to_lower schema))) _ _
          λ allowed. (ground arith, ground arith, ground arith)
  target_of_parts-IsTarget target (schema ∷ table ∷ other ∷ parts) = tt

  abbrev IsNew : List Text → ExposedTableMapping → Type 0
  IsNew seen m = IsUsable m × (includes seen m.alias ≡ false)

  mapping_of_parts-IsNew :
      (seen : List Text) (entry : Text) (cut : Option (Text × Text))
      → Returned (IsNew seen) (mapping_of_parts seen entry cut)
  mapping_of_parts-IsNew seen entry none = tt
  mapping_of_parts-IsNew seen entry (some (before, after)) =
      Returned-guard (IsNew seen) (not (null before || null after)) _ _ λ full.
        Returned-bind IsTarget (IsNew seen) (parse_table_target (platform.trim after)) _
          (unfold parse_table_target in
            target_of_parts-IsTarget (platform.trim after) (split_on b'.' (platform.trim after)))
          λ parsed good. Returned-guard (IsNew seen) (is_alias (platform.trim before)) _ _ λ form.
            Returned-guard (IsNew seen) (not (includes seen (platform.trim before))) _ _
              λ new. ((form, good.0, good.1, good.2), ground arith)

  parse_entries-HaveAliases :
      (seen entries : List Text) → Returned (HaveAliases seen) (parse_entries seen entries)
  unfolding parse_entries
  parse_entries-HaveAliases seen [] = tt
  parse_entries-HaveAliases seen (entry ∷ entries) =
      Returned-bind (IsNew seen) (HaveAliases seen) (parse_entry seen (platform.trim entry)) _
        (unfold parse_entry in
          Returned-guard (IsNew seen) (not (null (platform.trim entry))) _ _ λ full.
            mapping_of_parts-IsNew seen (platform.trim entry) (cut_at b'=' (platform.trim entry)))
        λ m good.
          Returned-bind (HaveAliases (m.alias ∷ seen)) (HaveAliases seen)
            (parse_entries (m.alias ∷ seen) entries) _
            (parse_entries-HaveAliases (m.alias ∷ seen) entries) λ ms later. (good.0, good.1, later)

  mappings_of-HaveAliases : (raw : Option Text) → Returned (HaveAliases []) (mappings_of raw)
  mappings_of-HaveAliases none = tt
  mappings_of-HaveAliases (some raw) = parse_entries-HaveAliases [] (split_on b',' raw)

  pub parse_table_mappings-HaveAliases :
      (raw : Option Text) → Returned (HaveAliases []) (parse_table_mappings raw)
  unfolding parse_table_mappings
  parse_table_mappings-HaveAliases raw = mappings_of-HaveAliases (given platform raw)
