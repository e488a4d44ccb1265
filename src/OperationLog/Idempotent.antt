-- ===== src/OperationLog/Idempotent.antt =====
-- A second `begin` with the key of an operation that was accepted, in src/database/schema-operation-log.ts.
use micro_jbase.Base.{
  ◌≡◌, refl, inl, inr, Bool, true, false, Bool-cases, none, some, List, [], ◌∷◌, ◌++◌, ok, Text, ap,
  ◌∙◌, lit, text_eq_refl, arith, not, ◌&&◌, null, leb, length,
}
use micro_jbase.Platform.{Platform}
use micro_jbase.OperationLog.Checksum.{
  is_object, compute_operation_checksum, compute_actor_fingerprint,
}
use micro_jbase.Errors.{AppError}
use micro_jbase.OperationLog.{
  Log, check, invalid, invalid_key, OperationRecord, OperationTable, World, find_row, has_key,
  new_row, insert_sql, select_by_key_sql, deliver, query_row, map_operation_row, is_idempotency_key,
  get, settled, classify_existing, claim, begin, is_command_type, accepted, in_progress,
  BeginOperationInput,
}

missed_head :
    (test : OperationRecord → Bool) (x : OperationRecord) (rows : List OperationRecord)
    → find_row test (x ∷ rows) ≡ none
    → (test x ≡ false) × (find_row test rows ≡ none)
unfolding find_row
missed_head test x rows h = elim (Bool-cases (test x)) [
  | inl found ↦ ground (arith, found)
  | inr missed ↦ (missed, rw missed at h)
]

-- the row that is put last is found by its key, if no other has it
find_row-append :
    (test : OperationRecord → Bool) (rows : List OperationRecord) (row : OperationRecord)
    → find_row test rows ≡ none
    → test row ≡ true
    → find_row test (rows ++ (row ∷ [])) ≡ some row
unfolding find_row
find_row-append test [] row h k = rw k refl
find_row-append test (x ∷ rows) row h k =
    let parts = missed_head test x rows h in
    rw (parts.0, find_row-append test rows row parts.1 k) refl

module _ (platform : Platform) (input : BeginOperationInput) (checksum first second : Text)
    (t : OperationTable) where
  abbrev pub claimed_row : OperationRecord
  claimed_row =
      new_row t.next_id input.idempotency_key input.command_type input.command checksum first

  abbrev pub quiet : OperationTable → World
  quiet u = record { table = u; schedule = [] }

  -- the same of the claims alone, where the second has the same checksum
  claim_twice :
      find_row (has_key input.idempotency_key) t.rows ≡ none
      → is_idempotency_key input.idempotency_key ≡ true
      → map_operation_row claimed_row ≡ ok claimed_row
      → ((claim platform input checksum first (quiet t)).0 ≡ ok (accepted claimed_row false))
        × ((claim platform input checksum second
              (claim platform input checksum first (quiet t)).1).0
            ≡ ok (in_progress claimed_row))
  unfolding claim query_row deliver insert_sql select_by_key_sql get classify_existing settled
  claim_twice new good whole =
      let again =
        find_row-append (has_key input.idempotency_key) t.rows claimed_row new
          (text_eq_refl input.idempotency_key) in
      (simp (new, whole), simp (new, whole, again, good, text_eq_refl checksum))

-- the checks of `begin` before its first query
abbrev pub IsAcceptable : Platform → BeginOperationInput → Type 0
IsAcceptable platform input =
    (is_idempotency_key input.idempotency_key ≡ true)
    × (is_command_type input.command_type ≡ true)
    × (is_object input.command ≡ true)
    × ((not (null (platform.trim input.actor)) && leb (length input.actor) 200) ≡ true)

-- four checks that hold lead to what they guard
checked :
    {A : Type 0} (a b c d : Bool) (e f g h : AppError) (m : Log A) (w : World)
    → a ≡ true
    → b ≡ true
    → c ≡ true
    → d ≡ true
    → check a e (check b f (check c g (check d h m))) w ≡ m w
checked true true true true e f g h m w _ _ _ _ = refl
checked false b c d e f g h m w p _ _ _ = cc
checked true false c d e f g h m w _ p _ _ = cc
checked true true false d e f g h m w _ _ p _ = cc
checked true true true false e f g h m w _ _ _ p = cc

begin-claim :
    (platform : Platform) (input : BeginOperationInput) (secret : Text) (w : World)
    → IsAcceptable platform input
    → begin platform secret input w
      ≡ claim platform input
          (compute_operation_checksum platform input.command_type input.command input.statements)
          (compute_actor_fingerprint platform secret input.actor)
          w
unfolding begin
begin-claim platform input secret w good =
    checked (is_idempotency_key input.idempotency_key) (is_command_type input.command_type)
      (is_object input.command)
      (not (null (platform.trim input.actor)) && leb (length input.actor) 200) invalid_key
      (invalid (lit "commandType must match the typed command naming pattern"))
      (invalid (lit "command must be a JSON object"))
      (invalid (lit "actor must be a non-empty string"))
      (claim platform input
        (compute_operation_checksum platform input.command_type input.command input.statements)
        (compute_actor_fingerprint platform secret input.actor))
      w good.0 good.1 good.2 good.3

-- the record of a command that is new to the table
abbrev pub new_record : Platform → BeginOperationInput → Text → OperationTable → OperationRecord
new_record platform input secret t =
    new_row t.next_id input.idempotency_key input.command_type input.command
      (compute_operation_checksum platform input.command_type input.command input.statements)
      (compute_actor_fingerprint platform secret input.actor)

-- Where no record has the key of a valid command, `begin` accepts it, and a second `begin` with the
-- same command, from any process, finds it in progress. No other session interferes, and the new
-- record is well formed.
pub begin_twice :
    (platform : Platform) (input : BeginOperationInput) (secret other_secret : Text)
    (t : OperationTable)
    → find_row (has_key input.idempotency_key) t.rows ≡ none
    → IsAcceptable platform input
    → map_operation_row (new_record platform input secret t)
      ≡ ok (new_record platform input secret t)
    → ((begin platform secret input (record { table = t; schedule = [] })).0
        ≡ ok (accepted (new_record platform input secret t) false))
      × ((begin platform other_secret input
            (begin platform secret input (record { table = t; schedule = [] })).1).0
          ≡ ok (in_progress (new_record platform input secret t)))
begin_twice platform input secret other_secret t new good whole =
    let checksum =
      compute_operation_checksum platform input.command_type input.command input.statements in
    let fingerprint = compute_actor_fingerprint platform secret input.actor in
    let w : World = record { table = t; schedule = [] } in
    let twice =
      claim_twice platform input checksum fingerprint
        (compute_actor_fingerprint platform other_secret input.actor) t new good.0 whole in
    let first = begin-claim platform input secret w good in
    let second =
      begin-claim platform input other_secret (claim platform input checksum fingerprint w).1
        good in
    (
      ap (λ run. run.0) first ∙ twice.0,
      ap (λ run. (begin platform other_secret input run.1).0) first
          ∙ (ap (λ run. run.0) second ∙ twice.1),
    )
