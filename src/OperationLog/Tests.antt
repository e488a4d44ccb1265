-- ===== src/OperationLog/Tests.antt =====
-- The log at work: an operation is accepted, found in progress, finished and replayed.
use micro_jbase.Base.{
  true, map, false, ◌≡◌, refl, [], ◌∷◌, Result, ok, err, ℕ, text_eq, matches_head_rest,
}
use micro_jbase.Errors.{AppError}
use micro_jbase.Fixtures.{plain_platform, notes, public_schema}
use micro_jbase.OperationLog.Checksum.{
  Json, no_member, compute_operation_checksum, compute_actor_fingerprint,
}
use micro_jbase.OperationLog.{
  is_succeeded, World, BeginOutcome, accepted, replay, in_progress, BeginOperationInput, begin,
  succeed, fail,
}
use micro_jbase.OperationLog.Statuses.{Ends, HasStatus, begin-HasStatus}
use micro_jbase.OperationLog.Idempotent.{new_record, begin_twice}
use micro_jbase.OperationLog.{find_row, is_idempotency_key, is_command_type, map_operation_row}
use micro_jbase.OperationLog.Kept.{Keeps, succeeded_is_final}

abbrev empty_world : World
empty_world = record { table = record { rows = []; next_id = 1 }; schedule = [] }

abbrev input : BeginOperationInput
input = record {
  idempotency_key = notes;
  command_type = notes;
  command = Json.object no_member;
  actor = notes;
  statements = notes ∷ [];
}

abbrev begun : World
begun = (begin plain_platform notes input empty_world).1

-- 0 for accepted, 1 for in progress, 2 for a replay, 3 for an error
abbrev kind : Result AppError BeginOutcome → ℕ
kind (ok (accepted r retry)) = 0
kind (ok (in_progress r)) = 1
kind (ok (replay r)) = 2
kind (err e) = 3

first_is_accepted : kind (begin plain_platform notes input empty_world).0 ≡ 0
unfolding begin matches_head_rest compute_operation_checksum compute_actor_fingerprint
first_is_accepted = refl

second_is_in_progress : kind (begin plain_platform notes input begun).0 ≡ 1
unfolding begin text_eq matches_head_rest compute_operation_checksum compute_actor_fingerprint
second_is_in_progress = refl

finished_is_replayed :
    kind (begin plain_platform notes input (succeed plain_platform 1 input.command begun).1).0 ≡ 2
unfolding begin succeed text_eq matches_head_rest compute_operation_checksum
    compute_actor_fingerprint
finished_is_replayed = refl

failed_is_restarted :
    kind (begin plain_platform notes input (fail plain_platform 1 (b'E' ∷ []) begun).1).0 ≡ 0
unfolding begin fail text_eq matches_head_rest compute_operation_checksum compute_actor_fingerprint
failed_is_restarted = refl

begin-HasStatus_example : Ends HasStatus (begin plain_platform notes input begun)
begin-HasStatus_example = begin-HasStatus plain_platform notes input begun

-- the operation has succeeded, and begin, succeed and fail are run again
abbrev finished_world : World
finished_world = (succeed plain_platform 1 input.command begun).1

finished_has_succeeded : map (λ r. is_succeeded r.status) finished_world.table.rows ≡ true ∷ []
unfolding begin succeed text_eq matches_head_rest compute_operation_checksum
    compute_actor_fingerprint
finished_has_succeeded = refl

succeeded_is_final_example :
    Keeps finished_world.table (begin plain_platform notes input finished_world).1.table
    × Keeps finished_world.table (succeed plain_platform 1 input.command finished_world).1.table
    × Keeps finished_world.table (fail plain_platform 1 notes finished_world).1.table
unfolding begin succeed matches_head_rest compute_operation_checksum compute_actor_fingerprint
succeeded_is_final_example =
    succeeded_is_final plain_platform notes notes input 1 input.command finished_world tt

begin_twice_example :
    ((begin plain_platform notes input empty_world).0
      ≡ ok (accepted (new_record plain_platform input notes empty_world.table) false))
    × ((begin plain_platform public_schema input (begin plain_platform notes input empty_world).1).0
        ≡ ok (in_progress (new_record plain_platform input notes empty_world.table)))
unfolding find_row is_idempotency_key is_command_type map_operation_row matches_head_rest
    compute_operation_checksum compute_actor_fingerprint
begin_twice_example =
    begin_twice plain_platform input notes public_schema empty_world.table refl
      (refl, refl, refl, refl) refl
