-- ===== src/OperationLog/Recorded.antt =====
-- The record that `succeed` of src/database/schema-operation-log.ts returns is in the table.
use micro_jbase.Base.{
  refl, Bool, true, Option, none, some, List, [], ◌∷◌, if_ind, Result, ok, err, Returned, ℕ,
}
use mathlib.Core.List.{Memᴰ}
use mathlib.Core.List.Memᴰ.{head, tail}
use micro_jbase.Errors.{AppError}
use micro_jbase.Platform.{Platform}
use micro_jbase.OperationLog.Checksum.{Json}
use micro_jbase.OperationLog.Statuses.{IfSome, map_operation_row-Returned}
use micro_jbase.OperationLog.{
  OperationRecord, OperationTable, Event, others, fault, World, and_then, match_some, throws,
  find_row, has_id_and, deliver, query_row, select_by_id_sql, get_by_id, missing_record, succeed,
  map_operation_row, transition_sql, is_running, finished, not_running,
}

-- the record that is returned is in the table that is left
abbrev pub IsRecorded : Result AppError OperationRecord × World → Type 0
IsRecorded run = Returned (λ row. Memᴰ row run.1.table.rows) run.0

later :
    (row : OperationRecord) (rows : List OperationRecord) (o : Option OperationRecord)
    → IfSome (λ found. Memᴰ found rows) o
    → IfSome (λ found. Memᴰ found (row ∷ rows)) o
later row rows none h = tt
later row rows (some found) h = tail h

found-Mem :
    (test : OperationRecord → Bool) (rows : List OperationRecord)
    → IfSome (λ row. Memᴰ row rows) (find_row test rows)
unfolding find_row
found-Mem test [] = tt
found-Mem test (row ∷ rows) =
    if_ind (IfSome λ found. Memᴰ found (row ∷ rows)) (test row) (head refl)
      (later row rows (find_row test rows) (found-Mem test rows))

module _ (platform : Platform) (id : ℕ) where
  mapped-IsRecorded :
      (o : Option OperationRecord) (w : World)
      → IfSome (λ row. Memᴰ row w.table.rows) o
      → IsRecorded (
          match_some o
            (throws (missing_record platform id))
            (λ row w2. (map_operation_row row, w2))
            w)
  mapped-IsRecorded none w h = tt
  mapped-IsRecorded (some row) w h = map_operation_row-Returned (λ row. Memᴰ row w.table.rows) row h

  deliver-IsRecorded :
      (t : OperationTable) (schedule : List Event)
      → IsRecorded (
          and_then (deliver platform (select_by_id_sql id) t schedule) λ answer.
            match_some answer
              (throws (missing_record platform id))
              λ row w2. (map_operation_row row, w2))
  unfolding deliver select_by_id_sql
  deliver-IsRecorded t [] =
      mapped-IsRecorded (find_row (has_id_and (λ status. true) id) t.rows)
        (record { table = t; schedule = [] }) (found-Mem (has_id_and (λ status. true) id) t.rows)
  deliver-IsRecorded t (others change ∷ rest) =
      mapped-IsRecorded (find_row (has_id_and (λ status. true) id) (change t).rows)
        (record { table = change t; schedule = rest })
        (found-Mem (has_id_and (λ status. true) id) (change t).rows)
  deliver-IsRecorded t (fault e ∷ rest) = tt

  get_by_id-IsRecorded : (w : World) → IsRecorded (get_by_id platform id w)
  unfolding get_by_id query_row
  get_by_id-IsRecorded w = deliver-IsRecorded w.table w.schedule

  after-IsRecorded :
      (run : Result AppError (Option OperationRecord) × World)
      → IsRecorded (
          and_then run λ answer.
            match_some answer (throws (not_running platform id)) λ row. get_by_id platform id)
  after-IsRecorded (ok none, w) = tt
  after-IsRecorded (ok (some row), w) = get_by_id-IsRecorded w
  after-IsRecorded (err e, w) = tt

  pub succeed-IsRecorded : (result : Json) (w : World) → IsRecorded (succeed platform id result w)
  unfolding succeed
  succeed-IsRecorded result w =
      after-IsRecorded (query_row platform (transition_sql is_running (finished result) id) w)
