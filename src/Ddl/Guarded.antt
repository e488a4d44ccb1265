-- ===== src/Ddl/Guarded.antt =====
-- The plans of src/database/schema-ddl.ts that are led by the guards against exposed tables.
use micro_jbase.Base.{◌≡◌, ◌⊎◌, List, [], ◌∷◌, ok, Text, lit, concat}
use micro_jbase.Platform.{Platform}
use micro_jbase.Ddl.Identifiers.{quote_literal}
use micro_jbase.Ddl.Plans.{DdlPlan}
use micro_jbase.Ddl.Constraints.{ForeignKeyAction, cascade, set_null}

-- The action rewrites rows of the referencing table.
abbrev pub IsRewriting : ForeignKeyAction → Type 0
IsRewriting a = (a ≡ cascade) ⊎ (a ≡ set_null)

-- The statement asks the registry for an exposed row of this schema and table, the names quoted, and raises
-- an exception if there is one.
abbrev pub IsGuard : Text → Text → Text → Type 0
IsGuard schema table statement =
    (front : Text) × (back : Text) × (s : Text) × (t : Text) × (quote_literal schema ≡ ok s)
    × (quote_literal table ≡ ok t)
    × (statement
        ≡ concat (
            front
            ∷ lit "FROM microjbase.exposure_registry\n    WHERE schema_name = "
            ∷ s
            ∷ lit "\n      AND table_name = "
            ∷ t
            ∷ lit "\n      AND exposed = TRUE\n  ) THEN\n    RAISE EXCEPTION "
            ∷ back
            ∷ []))

-- The plan has three statements, of which the guards of the two tables come first.
abbrev pub IsGuarded : Text → Text → Text → Text → DdlPlan → Type 0
IsGuarded schema table ref_schema ref_table plan =
    (own : Text) × (other : Text) × IsGuard schema table own
    × IsGuard ref_schema ref_table other
    × ((alter : Text) × (plan.statements ≡ own ∷ other ∷ alter ∷ []))

abbrev AreGuards : Text → Text → Text → Text → List Text → Type 0
AreGuards schema table ref_schema ref_table guards =
    (own : Text) × (other : Text) × IsGuard schema table own
    × IsGuard ref_schema ref_table other
    × (guards ≡ own ∷ other ∷ [])
