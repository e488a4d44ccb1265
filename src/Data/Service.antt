-- ===== src/Data/Service.antt =====
-- src/data/service.ts: the domain service behind the data API. The registry is a function from an
-- alias to a table; the repository is an interface over a state of its own, and each method of it
-- may throw anything.
pub mod Guards
pub mod Paging
use micro_jbase.Base.{
  ℕ, ◌≡◌, Bool, true, false, not, ◌&&◌, ◌||◌, Option, none, some, List, [], ◌∷◌, if◌then◌else◌,
  Result, ok, err, Text, lit, text_eq, Number, ◌>>=◌, ◌>>◌, guard,
}
use micro_jbase.Errors.{
  AppError, Thrown, domain, app_error, table_not_found, row_not_found, conflict,
}
use micro_jbase.Data.Values.{Value, Heap, str}
use micro_jbase.Data.Validate.{
  Row, Kind, insertable, updatable, failed_at, is_canonical_uuid, require_canonical_uuid,
  resolve_limit, resolve_offset, require_json_data_row, assert_keys_allowed,
}

pub record RequestIdentity : Type 0 where
  pub user_id : Text

pub record ExposedTable : Type 0 where
  pub alias : Text
  pub schema : Text
  pub table : Text
  pub primary_key : Text
  pub readable_columns : List Text
  pub insertable_columns : List Text
  pub updatable_columns : List Text

pub record Page : Type 0 where
  pub items : List Row
  pub limit : Number
  pub offset : Number

-- A call that reads and changes the state of the repository, and returns or throws.
abbrev pub Call : Type 0 → Type 0 → Type 0
Call S A = S → Result Thrown A × S

-- `DataRepository` of the contracts.
pub record DataRepository (S : Type 0) : Type 0 where
  pub list : RequestIdentity → ExposedTable → Number → Number → Call S Page
  pub find_by_id : RequestIdentity → ExposedTable → Text → Call S (Option Row)
  pub create : RequestIdentity → ExposedTable → Row → Call S Row
  pub update_by_id : RequestIdentity → ExposedTable → Text → Row → Call S (Option Row)
  pub delete_by_id : RequestIdentity → ExposedTable → Text → Call S Bool

-- values[key]; `none` where the object has no such own key
unfoldable pub own_value : Text → Row → Option Value
own_value k [] = none
own_value k ((j, v) ∷ m) = if text_eq j k then some v else own_value k m

-- value === t for a text t
abbrev pub is_text : Value → Text → Bool
is_text (str s) t = text_eq s t
is_text _ t = false

abbrev pub ownership_conflict : AppError
ownership_conflict = app_error conflict (lit "A conflict occurred") 409

abbrev pub claims_other : Option Value → Text → Bool
claims_other none user = false
claims_other (some v) user = not (is_text v user)

unfoldable pub assert_no_foreign_ownership_claim :
    Row → RequestIdentity → Result AppError (Unit {0})
assert_no_foreign_ownership_claim values identity =
    guard (not (claims_other (own_value (lit "user_id") values) identity.user_id))
      ownership_conflict

-- the check that `create` makes of a supplied id
abbrev pub bad_id : Option Value → Bool
bad_id none = false
bad_id (some (str t)) = not (is_canonical_uuid t)
bad_id (some _) = true

abbrev pub has_key : Option Value → Bool
has_key none = false
has_key (some v) = true

-- the id that the body of a `create` may carry, and that of an `update` may not
abbrev pub assert_id_canonical : Row → Result AppError (Unit {0})
assert_id_canonical values =
    guard (not (bad_id (own_value (lit "id") values)))
      (failed_at (lit "id") (lit "Must be a canonical UUID"))

abbrev pub assert_id_absent : Row → Result AppError (Unit {0})
assert_id_absent values =
    guard (not (has_key (own_value (lit "id") values)))
      (failed_at (lit "id") (lit "Primary key is immutable"))

abbrev pub table_or_error : Option ExposedTable → Result AppError ExposedTable
table_or_error none = err (app_error table_not_found (lit "Table not found") 404)
table_or_error (some t) = ok t

abbrev pub row_missing : AppError
row_missing = app_error row_not_found (lit "Row not found") 404

-- what a method throws before it calls the repository; the state is as it was
abbrev pub after : {A B S : Type 0} → Result AppError A → (A → Call S B) → Call S B
after (ok a) f s = f a s
after (err e) f s = (err (domain e), s)

-- `if (row === null) throw ...; return row`
abbrev pub row_or_missing : Result Thrown (Option Row) → Result Thrown Row
row_or_missing (ok none) = err (domain row_missing)
row_or_missing (ok (some r)) = ok r
row_or_missing (err e) = err e

abbrev pub deleted_or_missing : Result Thrown Bool → Result Thrown (Unit {0})
deleted_or_missing (ok true) = ok tt
deleted_or_missing (ok false) = err (domain row_missing)
deleted_or_missing (err e) = err e

-- The checks of each method, in the order of the source, with the values that they hand on.
unfoldable pub check_list :
    (Text → Option ExposedTable)
    → Text
    → Value
    → Value
    → Result AppError (ExposedTable × Number × Number)
check_list registry alias limit offset = do
  table ← table_or_error (registry alias)
  limit' ← resolve_limit limit
  offset' ← resolve_offset offset
  ok (table, limit', offset')

unfoldable pub check_target :
    (Text → Option ExposedTable) → Text → Text → Result AppError (ExposedTable × Text)
check_target registry alias id = do
  table ← table_or_error (registry alias)
  id' ← require_canonical_uuid id (lit "id")
  ok (table, id')

unfoldable pub check_create :
    (Text → Option ExposedTable)
    → Heap
    → RequestIdentity
    → Text
    → Value
    → Result AppError (ExposedTable × Row)
check_create registry h identity alias body = do
  table ← table_or_error (registry alias)
  values ← require_json_data_row h body
  assert_keys_allowed values table.insertable_columns insertable
  assert_id_canonical values
  assert_no_foreign_ownership_claim values identity
  ok (table, values)

unfoldable pub check_update :
    (Text → Option ExposedTable)
    → Heap
    → RequestIdentity
    → Text
    → Text
    → Value
    → Result AppError (ExposedTable × Text × Row)
check_update registry h identity alias id body = do
  table ← table_or_error (registry alias)
  id' ← require_canonical_uuid id (lit "id")
  values ← require_json_data_row h body
  assert_id_absent values
  assert_keys_allowed values table.updatable_columns updatable
  assert_no_foreign_ownership_claim values identity
  ok (table, id', values)

module _ {S : Type 0} (registry : Text → Option ExposedTable) (repository : DataRepository S) where
  unfoldable pub list : RequestIdentity → Text → Value → Value → Call S Page
  unfolding check_list
  list identity alias limit offset =
      after (check_list registry alias limit offset)
        (λ (table, limit', offset'). repository.list identity table limit' offset')

  unfoldable pub get : RequestIdentity → Text → Text → Call S Row
  unfolding check_target
  get identity alias id = after (check_target registry alias id) (λ (table, id') s.
      let (row, s') = repository.find_by_id identity table id' s in (row_or_missing row, s'))

  unfoldable pub create : Heap → RequestIdentity → Text → Value → Call S Row
  unfolding check_create
  create h identity alias body =
      after (check_create registry h identity alias body)
        (λ (table, values). repository.create identity table values)

  unfoldable pub update : Heap → RequestIdentity → Text → Text → Value → Call S Row
  unfolding check_update
  update h identity alias id body =
      after (check_update registry h identity alias id body) (λ (table, id', values) s.
        let (row, s') = repository.update_by_id identity table id' values s in
        (row_or_missing row, s'))

  unfoldable pub delete : RequestIdentity → Text → Text → Call S (Unit {0})
  unfolding check_target
  delete identity alias id = after (check_target registry alias id) (λ (table, id') s.
      let (deleted, s') = repository.delete_by_id identity table id' s in
      (deleted_or_missing deleted, s'))
