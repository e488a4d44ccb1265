-- ===== src/OperationLog/Statuses.antt =====
-- The outcomes of `begin` of src/database/schema-operation-log.ts and the status of their records,
-- whatever other sessions do meanwhile.
use micro_jbase.Base.{
  ℕ, zero, suc, ◌≡◌, refl, inl, inr, Bool, true, false, not, ◌&&◌, Option, none, some, List, [],
  ◌∷◌, leb, length, null, Bool-cases, Result, ok, err, Returned, if_ind, Text, text_eq,
}
use micro_jbase.Errors.{AppError}
use micro_jbase.Platform.{Platform}
use micro_jbase.OperationLog.Checksum.{is_object}
use micro_jbase.OperationLog.{
  Status, running, succeeded, failed, OperationRecord, OperationTable, Event, others, fault, World,
  is_failed, find_row, Statement, Log, and_then, check, returns, match_some, deliver,
  is_idempotency_key, is_command_type, map_operation_row, BeginOutcome, accepted, replay,
  in_progress, BeginOperationInput, has_key, has_id_and, restarted, insert_sql, transition_sql,
  update_if, insert_unless, new_row, claim, query_row, get, settled, retry_failed,
  classify_existing, begin,
}

-- the value that the run returns, if it returns one, satisfies the predicate
abbrev pub Ends : {A : Type 0} → (A → Type 0) → Result AppError A × World → Type 0
Ends P run = Returned P run.0

Ends-and_then :
    {A B : Type 0} (Q : A → Type 0) (P : B → Type 0) (run : Result AppError A × World)
    (f : A → Log B)
    → Ends Q run
    → ((a : A) (w : World) → Q a → Ends P (f a w))
    → Ends P (and_then run f)
Ends-and_then Q P (ok a, w) f q k = k a w q
Ends-and_then Q P (err e, w) f q k = tt

Ends-check :
    {A : Type 0} (P : A → Type 0) (test : Bool) (e : AppError) (k : Log A) (w : World)
    → Ends P (k w)
    → Ends P (check test e k w)
Ends-check P true e k w h = h
Ends-check P false e k w h = tt

-- the predicate on a row, if there is one
abbrev pub IfSome : {A : Type 0} → (A → Type 0) → Option A → Type 0
IfSome P none = Unit
IfSome P (some a) = P a

pub find_row-IfSome :
    (P : OperationRecord → Type 0) (test : OperationRecord → Bool) (rows : List OperationRecord)
    → ((row : OperationRecord) → test row ≡ true → P row)
    → IfSome P (find_row test rows)
unfolding find_row
find_row-IfSome P test [] h = tt
find_row-IfSome P test (row ∷ rows) h = elim (Bool-cases (test row)) [
  | inl found ↦ rw found (h row found)
  | inr missed ↦ rw missed (find_row-IfSome P test rows h)
]

pub map_operation_row-Returned :
    (P : OperationRecord → Type 0) (row : OperationRecord)
    → P row
    → Returned P (map_operation_row row)
unfolding map_operation_row
map_operation_row-Returned P row p =
    if_ind (Returned P) (not (leb row.id 9_007_199_254_740_991)) tt (
      if_ind (Returned P) (not (is_object row.command)) tt (
        if_ind (Returned P) (null row.idempotency_key) tt (
          if_ind (Returned P) (null row.command_type) tt (
            if_ind (Returned P) (null row.checksum) tt
              (if_ind (Returned P) (null row.actor_fingerprint) tt p)))))

Ends-match_some :
    {A B : Type 0} (Q : A → Type 0) (P : B → Type 0) (o : Option A) (absent : Log B)
    (present : A → Log B) (w : World)
    → IfSome Q o
    → Ends P (absent w)
    → ((a : A) → Q a → Ends P (present a w))
    → Ends P (match_some o absent present w)
Ends-match_some Q P none absent present w q h k = h
Ends-match_some Q P (some a) absent present w q h k = k a q

-- the outcome's record has the status that its kind says
abbrev pub HasStatus : BeginOutcome → Type 0
HasStatus (accepted r retry) = r.status ≡ running
HasStatus (replay r) = r.status ≡ succeeded
HasStatus (in_progress r) = r.status ≡ running

abbrev IsRunning : OperationRecord → Type 0
IsRunning row = row.status ≡ running

always : {A : Type 0} → (o : Option A) → IfSome (λ _. Unit {0}) o
always none = tt
always (some a) = tt

Ends-any :
    {A : Type 0} (run : Result AppError (Option A) × World) → Ends (IfSome (λ _. Unit {0})) run
Ends-any (ok none, w) = tt
Ends-any (ok (some a), w) = tt
Ends-any (err e, w) = tt

settled_by :
    (found : OperationRecord) (s : Status) → found.status ≡ s → IfSome HasStatus (settled found)
unfolding settled
settled_by found running h = rw h refl
settled_by found succeeded h = rw h refl
settled_by found failed h = rw h tt

settled-HasStatus : (found : OperationRecord) → IfSome HasStatus (settled found)
unfolding settled
settled-HasStatus found = settled_by found found.status refl

update_if-IsRunning :
    (test : OperationRecord → Bool) (t : OperationTable) (o : Option OperationRecord)
    → IfSome IsRunning (update_if test restarted t o).0
update_if-IsRunning test t none = tt
update_if-IsRunning test t (some row) = refl

restart-IsRunning :
    (id : ℕ) (t : OperationTable) → IfSome IsRunning (transition_sql is_failed restarted id t).0
unfolding transition_sql
restart-IsRunning id t =
    update_if-IsRunning (has_id_and is_failed id) t (find_row (has_id_and is_failed id) t.rows)

insert_unless-IsRunning :
    (row : OperationRecord) (t : OperationTable) (o : Option OperationRecord)
    → IsRunning row
    → IfSome IsRunning (insert_unless row t o).0
insert_unless-IsRunning row t none h = h
insert_unless-IsRunning row t (some present) h = tt

module _ (platform : Platform) where
  deliver-Ends :
      {A : Type 0} (Q : A → Type 0) (statement : Statement A) (t : OperationTable)
      (schedule : List Event)
      → ((u : OperationTable) → Q (statement u).0)
      → Ends Q (deliver platform statement t schedule)
  unfolding deliver
  deliver-Ends Q statement t [] h = h t
  deliver-Ends Q statement t (others change ∷ rest) h = h (change t)
  deliver-Ends Q statement t (fault e ∷ rest) h = tt

  query_row-Ends :
      {A : Type 0} (Q : A → Type 0) (statement : Statement A) (w : World)
      → ((u : OperationTable) → Q (statement u).0)
      → Ends Q (query_row platform statement w)
  unfolding query_row
  query_row-Ends Q statement w h = deliver-Ends Q statement w.table w.schedule h

  accept-Ends :
      (row : OperationRecord) (retry : Bool) (w : World)
      → IsRunning row
      → Ends HasStatus
          (and_then (map_operation_row row, w) λ claimed. returns (accepted claimed retry))
  accept-Ends row retry w h =
      Ends-and_then IsRunning HasStatus (map_operation_row row, w)
        (λ claimed. returns (accepted claimed retry)) (map_operation_row-Returned IsRunning row h)
        λ claimed w2 k. k

  retry_failed-HasStatus :
      (attempts : ℕ) (found : OperationRecord) (w : World)
      → Ends HasStatus (retry_failed platform attempts found w)
  unfolding retry_failed
  retry_failed-HasStatus zero found w = tt
  retry_failed-HasStatus (suc attempts) found w =
      Ends-and_then (IfSome IsRunning) HasStatus
        (query_row platform (transition_sql is_failed restarted found.id) w) _
        (query_row-Ends (IfSome IsRunning) (transition_sql is_failed restarted found.id) w
          (restart-IsRunning found.id))
        λ answer w2 q.
          Ends-match_some IsRunning HasStatus answer _ _ w2 q
            (Ends-and_then (IfSome (λ _. Unit {0})) HasStatus
              (get platform found.idempotency_key w2) _
              (Ends-any (get platform found.idempotency_key w2))
              λ latest w3 _.
                Ends-match_some (λ _. Unit {0}) HasStatus latest _ _ w3 (always latest) tt
                  λ again _.
                    Ends-match_some HasStatus HasStatus (settled again) _ _ w3
                      (settled-HasStatus again) (retry_failed-HasStatus attempts found w3)
                      λ outcome h. h)
            λ row h. accept-Ends row true w2 h

  classify_existing-HasStatus :
      (found : OperationRecord) (checksum : Text) (w : World)
      → Ends HasStatus (classify_existing platform found checksum w)
  unfolding classify_existing
  classify_existing-HasStatus found checksum w =
      Ends-check HasStatus (text_eq found.checksum checksum) _ _ w (
        Ends-match_some HasStatus HasStatus (settled found) _ _ w (settled-HasStatus found)
          (retry_failed-HasStatus 4 found w) λ outcome h. h)

  claim-HasStatus :
      (input : BeginOperationInput) (checksum fingerprint : Text) (w : World)
      → Ends HasStatus (claim platform input checksum fingerprint w)
  unfolding claim insert_sql
  claim-HasStatus input checksum fingerprint w =
      let insert =
        insert_sql input.idempotency_key input.command_type input.command checksum fingerprint in
      Ends-and_then (IfSome IsRunning) HasStatus (query_row platform insert w) _
        (query_row-Ends (IfSome IsRunning) insert w λ t.
          insert_unless-IsRunning
            (new_row t.next_id input.idempotency_key input.command_type input.command checksum
              fingerprint)
            t (find_row (has_key input.idempotency_key) t.rows) refl)
        λ answer w2 q.
          Ends-match_some IsRunning HasStatus answer _ _ w2 q
            (Ends-and_then (IfSome (λ _. Unit {0})) HasStatus
              (get platform input.idempotency_key w2) _
              (Ends-any (get platform input.idempotency_key w2))
              λ existing w3 _.
                Ends-match_some (λ _. Unit {0}) HasStatus existing _ _ w3 (always existing) tt
                  λ found _. classify_existing-HasStatus found checksum w3)
            λ row h. accept-Ends row false w2 h

  -- `begin` hands out an accepted operation only with a running record, replays only a succeeded one
  -- and reports only a running one as in progress, whatever other sessions do between its queries and
  -- whichever of its queries fail.
  pub begin-HasStatus :
      (secret : Text) (input : BeginOperationInput) (w : World)
      → Ends HasStatus (begin platform secret input w)
  unfolding begin
  begin-HasStatus secret input w =
      Ends-check HasStatus (is_idempotency_key input.idempotency_key) _ _ w (
        Ends-check HasStatus (is_command_type input.command_type) _ _ w (
          Ends-check HasStatus (is_object input.command) _ _ w (
            Ends-check HasStatus
              (not (null (platform.trim input.actor)) && leb (length input.actor) 200) _ _ w
              (claim-HasStatus input _ _ w))))
