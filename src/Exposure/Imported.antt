-- ===== src/Exposure/Imported.antt =====
-- What has been tested and done where microjbase.import_exposure_registry of
-- migrations/0006_exposure_registry.sql returns.
use micro_jbase.Base.{
  arith, ◌≡◌, refl, subst, Bool, true, false, not, ◌&&◌, List, ◌++◌, map, all, ok, err, lit,
  Returned, Returned-if,
}
use micro_jbase.Errors.{Thrown}
use micro_jbase.Tables.{ExposedTableMapping}
use micro_jbase.Exposure.{RegistryTables, mapping_target}
use micro_jbase.Exposure.Import.{
  import_function, imported, raised, row_of, row_alias, row_target, is_importable, is_initialized,
  all_distinct,
}

pub record IsImported (payload : List ExposedTableMapping) (t u : RegistryTables) : Type 0 where
  pub forms : all is_importable payload ≡ true
  pub once :
      (all_distinct (map (λ m. m.alias) payload) && all_distinct (map mapping_target payload))
      ≡ true
  pub first : is_initialized t.state ≡ false
  pub left : u ≡ imported payload t

true_of_not : (b : Bool) → not b ≡ false → b ≡ true
true_of_not b h = ground arith

module _ (payload : List ExposedTableMapping) (t : RegistryTables) where
  abbrev Answer : Unit {0} × RegistryTables → Type 0
  Answer answer = IsImported payload t answer.1

  answer-IsImported : Returned Answer (import_function payload t)
  unfolding import_function
  answer-IsImported =
      Returned-if Answer (not (all is_importable payload)) _ _ (λ _. tt)
        λ forms.
          Returned-if Answer
            (not (
              all_distinct (map (λ m. m.alias) payload)
              && all_distinct (map mapping_target payload)))
            _ _ (λ _. tt)
            λ once.
              Returned-if Answer (is_initialized t.state) _ _ (λ _. tt)
                λ first.
                  Returned-if {E = Thrown} Answer
                    (not (
                      all_distinct (map row_alias (map row_of payload ++ t.rows))
                      && all_distinct (map row_target (map row_of payload ++ t.rows))))
                    (err (raised (lit "23505") (lit "exposure_registry")))
                    (ok (tt, imported payload t)) (λ _. tt)
                    λ _. record {
                      forms = true_of_not _ forms;
                      once = true_of_not _ once;
                      first = first;
                      left = refl;
                    }

  pub import_function-IsImported :
      (u : RegistryTables) → import_function payload t ≡ ok (tt, u) → IsImported payload t u
  import_function-IsImported u h = subst (Returned Answer) h answer-IsImported
