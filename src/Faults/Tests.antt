-- ===== src/Faults/Tests.antt =====
-- The theorems on translated errors at concrete inputs.
use micro_jbase.Base.{true, [], ◌∷◌}
use micro_jbase.Errors.{Field, DetailsField, Thrown}
use micro_jbase.Fixtures.{plain_platform, notes}
use micro_jbase.Faults.{translate_ddl_error, translate_data_error}
use micro_jbase.Faults.Hiding.{IsSafe, translate_ddl_error-IsSafe, translate_data_error-IsSafe}

-- a unique violation whose message names a table
abbrev duplicate : Thrown
duplicate = Thrown.object (record {
  code = Field.string (b'2' ∷ b'3' ∷ b'5' ∷ b'0' ∷ b'5' ∷ []);
  sql_state = Field.absent;
  message = Field.string notes;
  status = Field.absent;
  details = DetailsField.absent;
  is_error = true;
  constraint = Field.absent;
  printed = notes;
})

translate_ddl_error-IsSafe_example : IsSafe (translate_ddl_error duplicate)
translate_ddl_error-IsSafe_example = translate_ddl_error-IsSafe duplicate tt

translate_data_error-IsSafe_example : IsSafe (translate_data_error plain_platform duplicate)
translate_data_error-IsSafe_example = translate_data_error-IsSafe plain_platform duplicate tt
