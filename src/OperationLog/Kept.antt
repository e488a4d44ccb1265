-- ===== src/OperationLog/Kept.antt =====
-- A succeeded operation of src/database/schema-operation-log.ts is final: no query of the log changes
-- or removes its record.
use micro_jbase.Base.{
  ℕ, zero, suc, ◌≡◌, refl, sym, ap, arith, not, null, length, leb, All, text_eq, ◌∙◌, Bool, true,
  false, ◌&&◌, Option, none, some, List, [], ◌∷◌, ◌++◌, if◌then◌else◌, ◌==◌, Result, ok, err, Text,
}
use mathlib.Core.List.{Memᴰ}
use mathlib.Core.List.Memᴰ.{head, tail}
use micro_jbase.Errors.{AppError}
use micro_jbase.Platform.{Platform}
use micro_jbase.OperationLog.Checksum.{Json, is_object}
use micro_jbase.OperationLog.{
  Status, succeeded, OperationRecord, OperationTable, Event, others, fault, World, is_running,
  is_failed, find_row, update_rows, update_if, has_id_and, has_key, finished, broken, restarted,
  Statement, Log, and_then, check, match_some, deliver, query_row, transition_sql, insert_sql,
  insert_unless, new_row, select_by_key_sql, select_by_id_sql, get, settled, retry_failed,
  classify_existing, claim, begin, mapped, map_operation_row, get_by_id, succeed, fail, returns,
  throws, not_running, missing_record, accepted, is_idempotency_key, is_command_type,
  is_stable_code, BeginOperationInput,
}

-- every succeeded record of the first table is in the second
abbrev pub Keeps : OperationTable → OperationTable → Type 0
Keeps t u = (row : OperationRecord) → row.status ≡ succeeded → Memᴰ row t.rows → Memᴰ row u.rows

Keeps-trans : (t u v : OperationTable) → Keeps t u → Keeps u v → Keeps t v
Keeps-trans t u v h k row s m = k row s (h row s m)

append-keeps :
    (row : OperationRecord) (rows more : List OperationRecord)
    → Memᴰ row rows
    → Memᴰ row (rows ++ more)
append-keeps row [] more m = elim m [ ]
append-keeps row (_ ∷ rows) more (head e) = head e
append-keeps row (_ ∷ rows) more (tail m) = tail (append-keeps row rows more m)

changed_if : (b : Bool) (x y : OperationRecord) → b ≡ false → x ≡ (if b then y else x)
changed_if true x y h = cc
changed_if false x y h = refl

-- a record for which the test fails stays as it is
update_rows-keeps :
    (test : OperationRecord → Bool) (change : OperationRecord → OperationRecord)
    (rows : List OperationRecord) (row : OperationRecord)
    → test row ≡ false
    → Memᴰ row rows
    → Memᴰ row (update_rows test change rows)
unfolding update_rows
update_rows-keeps test change [] row h m = elim m [ ]
update_rows-keeps test change (x ∷ rows) row h (head e) =
    head (e ∙ changed_if (test x) x (change x) (ap test (sym e) ∙ h))
update_rows-keeps test change (x ∷ rows) row h (tail m) =
    tail (update_rows-keeps test change rows row h m)

-- The status test of an update does not hold for succeeded records.
abbrev SparesSucceeded : (Status → Bool) → Type 0
SparesSucceeded test = test succeeded ≡ false

and_false : (a b : Bool) → b ≡ false → (a && b) ≡ false
and_false a b h = ground arith

update_if-Keeps :
    (test : Status → Bool) (change : OperationRecord → OperationRecord) (id : ℕ)
    (t : OperationTable) (o : Option OperationRecord)
    → SparesSucceeded test
    → Keeps t (update_if (has_id_and test id) change t o).1
update_if-Keeps test change id t none h row s m = m
update_if-Keeps test change id t (some found) h row s m =
    update_rows-keeps (has_id_and test id) change t.rows row
      (and_false (row.id == id) (test row.status) (ap test s ∙ h)) m

insert_unless-Keeps :
    (new : OperationRecord) (t : OperationTable) (o : Option OperationRecord)
    → Keeps t (insert_unless new t o).1
insert_unless-Keeps new t none row s m = append-keeps row t.rows (new ∷ []) m
insert_unless-Keeps new t (some present) row s m = m

-- other sessions keep the succeeded records too
abbrev pub EventKeeps : Event → Type 0
EventKeeps (others change) = (t : OperationTable) → Keeps t (change t)
EventKeeps (fault e) = Unit

abbrev pub IsCalm : List Event → Type 0
IsCalm schedule = All EventKeeps schedule

-- a run of the log keeps the succeeded records, where the other sessions do
unfoldable pub KeepsLog : {A : Type 0} → Log A → Type 0
KeepsLog m = (w : World) → IsCalm w.schedule → Keeps w.table (m w).1.table × IsCalm (m w).1.schedule

KeepsLog-pure : {A : Type 0} (r : Result AppError A) → KeepsLog (λ w. (r, w))
unfolding KeepsLog
KeepsLog-pure r w calm = (λ row s m. m, calm)

KeepsLog-throws : (A : Type 0) (e : AppError) → KeepsLog {A = A} (throws e)
unfolding KeepsLog
KeepsLog-throws A e w calm = (λ row s m. m, calm)

KeepsLog-returns : {A : Type 0} (a : A) → KeepsLog (returns a)
unfolding KeepsLog
KeepsLog-returns a w calm = (λ row s m. m, calm)

KeepsLog-from :
    {A B : Type 0} (t : OperationTable) (run : Result AppError A × World) (f : A → Log B)
    → Keeps t run.1.table
    → IsCalm run.1.schedule
    → ((a : A) → KeepsLog (f a))
    → Keeps t (and_then run f).1.table × IsCalm (and_then run f).1.schedule
unfolding KeepsLog
KeepsLog-from t (ok a, w) f k calm h = (λ row s m. (h a w calm).0 row s (k row s m), (h a w calm).1)
KeepsLog-from t (err e, w) f k calm h = (k, calm)

KeepsLog-then :
    {A B : Type 0} (m : Log A) (f : A → Log B)
    → KeepsLog m
    → ((a : A) → KeepsLog (f a))
    → KeepsLog (λ w. and_then (m w) f)
unfolding KeepsLog
KeepsLog-then m f h k w calm = KeepsLog-from w.table (m w) f (h w calm).0 (h w calm).1 k

KeepsLog-match_some :
    {A B : Type 0} (o : Option A) (absent : Log B) (present : A → Log B)
    → KeepsLog absent
    → ((a : A) → KeepsLog (present a))
    → KeepsLog (match_some o absent present)
KeepsLog-match_some none absent present h k = h
KeepsLog-match_some (some a) absent present h k = k a

KeepsLog-check :
    {A : Type 0} (test : Bool) (e : AppError) (m : Log A) → KeepsLog m → KeepsLog (check test e m)
unfolding KeepsLog
KeepsLog-check {A = A} true e m h = h
KeepsLog-check {A = A} false e m h = KeepsLog-throws A e

module _ (platform : Platform) where
  deliver-Keeps :
      {A : Type 0} (statement : Statement A) (t : OperationTable) (schedule : List Event)
      → ((u : OperationTable) → Keeps u (statement u).1)
      → IsCalm schedule
      → Keeps t (deliver platform statement t schedule).1.table
        × IsCalm (deliver platform statement t schedule).1.schedule
  unfolding deliver
  deliver-Keeps statement t [] h calm = (h t, calm)
  deliver-Keeps statement t (others change ∷ rest) h calm =
      (λ row s m. h (change t) row s (calm.0 t row s m), calm.1)
  deliver-Keeps statement t (fault e ∷ rest) h calm = (λ row s m. m, calm.1)

  query_row-Keeps :
      {A : Type 0} (statement : Statement A)
      → ((u : OperationTable) → Keeps u (statement u).1)
      → KeepsLog (query_row platform statement)
  unfolding query_row KeepsLog
  query_row-Keeps statement h w calm = deliver-Keeps statement w.table w.schedule h calm

  transition-Keeps :
      (test : Status → Bool) (change : OperationRecord → OperationRecord) (id : ℕ)
      → SparesSucceeded test
      → KeepsLog (query_row platform (transition_sql test change id))
  unfolding transition_sql
  transition-Keeps test change id h =
      query_row-Keeps (transition_sql test change id)
        λ t. update_if-Keeps test change id t (find_row (has_id_and test id) t.rows) h

  mapped-Keeps : (o : Option OperationRecord) → KeepsLog (mapped platform o)
  mapped-Keeps none = KeepsLog-returns {A = Option OperationRecord} none
  mapped-Keeps (some row) =
      KeepsLog-then (λ w. (map_operation_row row, w)) _ (KeepsLog-pure (map_operation_row row))
        λ a. KeepsLog-returns (some a)

  get-Keeps : (key : Text) → KeepsLog (get platform key)
  unfolding get select_by_key_sql
  get-Keeps key = KeepsLog-check (is_idempotency_key key) _ _ (
      KeepsLog-then (query_row platform (select_by_key_sql key)) (mapped platform)
        (query_row-Keeps (select_by_key_sql key) λ t row s m. m) mapped-Keeps)

  accept-Keeps :
      (row : OperationRecord) (retry : Bool)
      → KeepsLog
          (λ w. and_then (map_operation_row row, w) λ claimed. returns (accepted claimed retry))
  accept-Keeps row retry =
      KeepsLog-then (λ w. (map_operation_row row, w)) _ (KeepsLog-pure (map_operation_row row))
        λ claimed. KeepsLog-returns (accepted claimed retry)

  retry_failed-Keeps :
      (attempts : ℕ) (found : OperationRecord) → KeepsLog (retry_failed platform attempts found)
  unfolding retry_failed
  retry_failed-Keeps zero found = KeepsLog-throws _ _
  retry_failed-Keeps (suc attempts) found =
      KeepsLog-then (query_row platform (transition_sql is_failed restarted found.id)) _
        (transition-Keeps is_failed restarted found.id refl)
        λ answer.
          KeepsLog-match_some answer _ _
            (KeepsLog-then (get platform found.idempotency_key) _ (get-Keeps found.idempotency_key)
              λ latest. KeepsLog-match_some latest _ _ (KeepsLog-throws _ _) λ again.
                KeepsLog-match_some (settled again) _ _ (retry_failed-Keeps attempts found)
                  λ outcome. KeepsLog-returns outcome)
            λ row. accept-Keeps row true

  classify_existing-Keeps :
      (found : OperationRecord) (checksum : Text)
      → KeepsLog (classify_existing platform found checksum)
  unfolding classify_existing
  classify_existing-Keeps found checksum = KeepsLog-check (text_eq found.checksum checksum) _ _ (
      KeepsLog-match_some (settled found) _ _ (retry_failed-Keeps 4 found)
        λ outcome. KeepsLog-returns outcome)

  claim-Keeps :
      (input : BeginOperationInput) (checksum fingerprint : Text)
      → KeepsLog (claim platform input checksum fingerprint)
  unfolding claim insert_sql
  claim-Keeps input checksum fingerprint =
      let insert =
        insert_sql input.idempotency_key input.command_type input.command checksum fingerprint in
      KeepsLog-then (query_row platform insert) _
        (query_row-Keeps insert λ t.
          insert_unless-Keeps
            (new_row t.next_id input.idempotency_key input.command_type input.command checksum
              fingerprint)
            t (find_row (has_key input.idempotency_key) t.rows))
        λ answer.
          KeepsLog-match_some answer _ _
            (KeepsLog-then (get platform input.idempotency_key) _ (get-Keeps input.idempotency_key)
              λ existing.
                KeepsLog-match_some existing _ _ (KeepsLog-throws _ _)
                  λ found. classify_existing-Keeps found checksum)
            λ row. accept-Keeps row false

  begin-Keeps :
      (secret : Text) (input : BeginOperationInput) → KeepsLog (begin platform secret input)
  unfolding begin
  begin-Keeps secret input = KeepsLog-check (is_idempotency_key input.idempotency_key) _ _ (
      KeepsLog-check (is_command_type input.command_type) _ _ (
        KeepsLog-check (is_object input.command) _ _ (
          KeepsLog-check (not (null (platform.trim input.actor)) && leb (length input.actor) 200) _
            _ (claim-Keeps input _ _))))

  get_by_id-Keeps : (id : ℕ) → KeepsLog (get_by_id platform id)
  unfolding get_by_id select_by_id_sql
  get_by_id-Keeps id =
      KeepsLog-then (query_row platform (select_by_id_sql id)) _
        (query_row-Keeps (select_by_id_sql id) λ t row s m. m)
        λ answer.
          KeepsLog-match_some answer _ _ (KeepsLog-throws _ (missing_record platform id))
            λ row. KeepsLog-pure (map_operation_row row)

  succeed-Keeps : (id : ℕ) (result : Json) → KeepsLog (succeed platform id result)
  unfolding succeed
  succeed-Keeps id result =
      KeepsLog-then (query_row platform (transition_sql is_running (finished result) id)) _
        (transition-Keeps is_running (finished result) id refl)
        λ answer.
          KeepsLog-match_some answer _ _ (KeepsLog-throws _ (not_running platform id))
            λ row. get_by_id-Keeps id

  fail-Keeps : (id : ℕ) (code : Text) → KeepsLog (fail platform id code)
  unfolding fail
  fail-Keeps id code = KeepsLog-check (is_stable_code code) _ _ (
      KeepsLog-then (query_row platform (transition_sql is_running (broken code) id)) _
        (transition-Keeps is_running (broken code) id refl)
        λ answer.
          KeepsLog-match_some answer _ _ (KeepsLog-throws _ (not_running platform id))
            λ row. get_by_id-Keeps id)

  -- A succeeded record is final: where the other sessions keep the succeeded records, so does every
  -- run of `begin`, `succeed` and `fail`, whatever it returns or throws.
  pub succeeded_is_final :
      (secret code : Text) (input : BeginOperationInput) (id : ℕ) (result : Json) (w : World)
      → IsCalm w.schedule
      → Keeps w.table (begin platform secret input w).1.table
        × Keeps w.table (succeed platform id result w).1.table
        × Keeps w.table (fail platform id code w).1.table
  unfolding KeepsLog
  succeeded_is_final secret code input id result w calm = (
    (begin-Keeps secret input w calm).0,
    (succeed-Keeps id result w calm).0,
    (fail-Keeps id code w calm).0,
  )
