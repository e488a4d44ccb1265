-- ===== src/Ddl/Plans.antt =====
-- Compiled plans of src/database/schema-ddl.ts, and the parts that the builders share. A builder
-- takes the fields of its spec as arguments, in the order of the spec's declaration.
use micro_jbase.Base.{Bool, true, List, [], ◌∷◌, Result, ok, ◌>>=◌, Text, lit, concat}
use micro_jbase.Errors.{AppError}
use micro_jbase.Ddl.Identifiers.{quote_identifier, quote_literal}

-- `is_sealed`: the plan is in the set SEALED_PLANS.
pub record DdlPlan : Type 0 where
  pub statements : List Text
  pub description : Text
  pub is_sealed : Bool

abbrev pub seal_plan : List Text → Text → DdlPlan
seal_plan statements description = record {
  statements = statements;
  description = description;
  is_sealed = true;
}

-- `${quoteIdentifier(schema)}.${quoteIdentifier(table)}`
unfoldable pub quoted_target : Text → Text → Result AppError Text
unfolding quote_identifier
quoted_target schema table = do
  s ← quote_identifier schema
  t ← quote_identifier table
  ok (concat (s ∷ lit "." ∷ t ∷ []))

abbrev pub qualified : Text → Text → Text
qualified schema table = concat (schema ∷ lit "." ∷ table ∷ [])

abbrev pub exposed_mutation_guard_sqlstate : Text
exposed_mutation_guard_sqlstate = lit "9C003"

unfoldable pub exposed_guard_statement : Text → Text → Result AppError Text
unfolding quote_literal
exposed_guard_statement schema table = do
  s ← quote_literal schema
  t ← quote_literal table
  ok (
      concat (
        lit
          "DO $microjbase$\nBEGIN\n  IF EXISTS (\n    SELECT 1\n    FROM microjbase.exposure_registry\n    WHERE schema_name = "
        ∷ s
        ∷ lit "\n      AND table_name = "
        ∷ t
        ∷ lit
            "\n      AND exposed = TRUE\n  ) THEN\n    RAISE EXCEPTION 'table is exposed to the data API and cannot be modified'\n      USING ERRCODE = '"
        ∷ exposed_mutation_guard_sqlstate
        ∷ lit "';\n  END IF;\nEND\n$microjbase$"
        ∷ []))
