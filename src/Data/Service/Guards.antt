-- ===== src/Data/Service/Guards.antt =====
-- What the service of src/data/service.ts lets through to the repository, and what it throws
-- otherwise.
use micro_jbase.Base.{
  ℕ, ◌≡◌, ◌≢◌, ◌⊎◌, refl, inl, inr, true, false, not, ◌≤◌, Option, none, some, List, [], ◌∷◌, arith,
  ok, err, All, Text, lit, text_eq→eq, includes, guard, >>=-eq-ok, ok_subst, if_ind, Throws,
  Throws-bind, Throws-guard, Result-cases,
}
use micro_jbase.Errors.{AppError, Details, domain, table_not_found, conflict, validation_error}
use micro_jbase.Data.Values.{Value, Heap, str, is_plain_object, is_json_value}
use micro_jbase.Data.Values.Spec.{IsJson, uses}
use micro_jbase.Data.Values.Exact.{is_json_value_exact}
use micro_jbase.Data.Validate.{
  Row, Kind, insertable, updatable, is_canonical_uuid, require_canonical_uuid,
  require_json_data_row, require_non_empty_plain_object, assert_keys_allowed, invalid_entries,
  json_validation_error, non_empty, none_invalid,
}
use micro_jbase.Data.Service.{
  RequestIdentity, ExposedTable, DataRepository, own_value, claims_other,
  assert_no_foreign_ownership_claim, bad_id, assert_id_canonical, assert_id_absent, table_or_error,
  row_or_missing, check_create, check_update, create, update,
}

-- every key of the row is one of the allowed columns
abbrev pub KeysAllowed : List Text → Row → Type 0
KeysAllowed allowed = All (λ (p : Text × Value). includes allowed p.0 ≡ true)

pub assert_keys_allowed-ok :
    (values : Row) (allowed : List Text) (kind : Kind) {u : Unit {0}}
    → assert_keys_allowed values allowed kind ≡ ok u
    → KeysAllowed allowed values
unfolding assert_keys_allowed invalid_entries
assert_keys_allowed-ok [] allowed kind h = tt
assert_keys_allowed-ok ((k, v) ∷ m) allowed kind h =
    (ground arith, assert_keys_allowed-ok m allowed kind {u = tt} (ground arith))

-- A row of JSON values, not empty, that is the plain object `body`, within the allowed columns, and
-- that claims no other owner than the caller.
pub record IsClean (h : Heap) (identity : RequestIdentity) (body : Value) (allowed : List Text)
    (values : Row) : Type 0 where
  pub plain : is_plain_object h body ≡ some values
  pub filled : values ≢ []
  pub json : (j : IsJson h body) × ((x : ℕ) → uses x j ≤ 1)
  pub keys : KeysAllowed allowed values
  pub owner : (v : Value) → own_value (lit "user_id") values ≡ some v → v ≡ str identity.user_id

pub require_json_data_row-ok :
    (h : Heap) (body : Value) {values : Row}
    → require_json_data_row h body ≡ ok values
    → (is_plain_object h body ≡ some values) × (values ≢ []) × (is_json_value h body ≡ true)
unfolding require_json_data_row
require_json_data_row-ok h body e = (ground arith, ground arith, ground arith)

claims-own :
    (o : Option Value) (user : Text)
    → claims_other o user ≡ false
    → (v : Value) → o ≡ some v
    → v ≡ str user
claims-own (some (str t)) user h v e = ground (arith, text_eq→eq t user)
claims-own none user h v e = absurd (cc)
claims-own _ user h v e = absurd (ground arith)

clean :
    (h : Heap) (identity : RequestIdentity) (body : Value) (values : Row) (allowed : List Text)
    (kind : Kind) {u w : Unit {0}}
    → require_json_data_row h body ≡ ok values
    → assert_keys_allowed values allowed kind ≡ ok u
    → assert_no_foreign_ownership_claim values identity ≡ ok w
    → IsClean h identity body allowed values
unfolding assert_no_foreign_ownership_claim
clean h identity body values allowed kind row keys owner =
    let (plain, filled, json) = require_json_data_row-ok h body row in
    record {
      plain = plain;
      filled = filled;
      json = (is_json_value_exact h body).0 json;
      keys = assert_keys_allowed-ok values allowed kind keys;
      owner = claims-own (own_value (lit "user_id") values) identity.user_id (ground arith);
    }

-- a supplied id is a canonical UUID
abbrev pub HasGoodId : Row → Type 0
HasGoodId values =
    (v : Value)
    → own_value (lit "id") values ≡ some v
    → (t : Text) × (v ≡ str t) × (is_canonical_uuid t ≡ true)

good_id :
    (o : Option Value)
    → bad_id o ≡ false
    → (v : Value) → o ≡ some v
    → (t : Text) × (v ≡ str t) × (is_canonical_uuid t ≡ true)
good_id (some (str t)) h v e = (t, ground arith, ground arith)
good_id none h v e = absurd (cc)
good_id _ h v e = absurd (ground arith)

module _ (registry : Text → Option ExposedTable) (h : Heap) (identity : RequestIdentity)
    (alias : Text) where
  table_or_error-ok :
      (t : ExposedTable) → table_or_error (registry alias) ≡ ok t → registry alias ≡ some t
  table_or_error-ok t e = ground arith

  -- what `create` has established when it calls the repository
  abbrev pub Creates : Value → ExposedTable × Row → Type 0
  Creates body (t, values) =
      (registry alias ≡ some t)
      × IsClean h identity body t.insertable_columns values
      × HasGoodId values

  pub check_create-ok :
      (body : Value) (x : ExposedTable × Row)
      → check_create registry h identity alias body ≡ ok x
      → Creates body x
  unfolding check_create
  check_create-ok body x e =
      let (t, found, e₁) = >>=-eq-ok (table_or_error (registry alias)) _ e in
      let (values, row, e₂) = >>=-eq-ok (require_json_data_row h body) _ e₁ in
      let (u, keys, e₃) =
        >>=-eq-ok (assert_keys_allowed values t.insertable_columns insertable) _ e₂ in
      let (v, id, e₄) = >>=-eq-ok (assert_id_canonical values) _ e₃ in
      let (w, owner, e₅) = >>=-eq-ok (assert_no_foreign_ownership_claim values identity) _ e₄ in
      ok_subst (Creates body) (t, values) e₅
        (
          table_or_error-ok t found,
          clean h identity body values _ insertable row keys owner,
          good_id (own_value (lit "id") values) (ground arith),
        )

  -- what `update` has established when it calls the repository
  abbrev pub Updates : Text → Value → ExposedTable × Text × Row → Type 0
  Updates id body (t, id', values) =
      (registry alias ≡ some t)
      × (id' ≡ id)
      × (is_canonical_uuid id ≡ true)
      × IsClean h identity body t.updatable_columns values
      × (own_value (lit "id") values ≡ none)

  pub check_update-ok :
      (id : Text) (body : Value) (x : ExposedTable × Text × Row)
      → check_update registry h identity alias id body ≡ ok x
      → Updates id body x
  unfolding check_update
  check_update-ok id body x e =
      let (t, found, e₁) = >>=-eq-ok (table_or_error (registry alias)) _ e in
      let (id', target, e₂) = >>=-eq-ok (require_canonical_uuid id (lit "id")) _ e₁ in
      let (values, row, e₃) = >>=-eq-ok (require_json_data_row h body) _ e₂ in
      let (v, fixed, e₄) = >>=-eq-ok (assert_id_absent values) _ e₃ in
      let (u, keys, e₅) =
        >>=-eq-ok (assert_keys_allowed values t.updatable_columns updatable) _ e₄ in
      let (w, owner, e₆) = >>=-eq-ok (assert_no_foreign_ownership_claim values identity) _ e₅ in
      ok_subst (Updates id body) (t, id', values) e₆
        (
          table_or_error-ok t found,
          unfold require_canonical_uuid in ground arith,
          unfold require_canonical_uuid in ground arith,
          clean h identity body values _ updatable row keys owner,
          ground arith,
        )

-- an error that a check of the service throws
abbrev pub IsRefusal : AppError → Type 0
IsRefusal e =
    ((e.code ≡ validation_error) × (e.status ≡ 400))
    ⊎ (((e.code ≡ table_not_found) × (e.status ≡ 404)) ⊎ ((e.code ≡ conflict) × (e.status ≡ 409)))

module _ (registry : Text → Option ExposedTable) (h : Heap) (identity : RequestIdentity)
    (alias : Text) where
  table-Throws : Throws IsRefusal (table_or_error (registry alias))
  table-Throws = go (registry alias)
    where
      go : (o : Option ExposedTable) → Throws IsRefusal (table_or_error o)
      go none = inr (inl (refl, refl))
      go (some t) = tt

  uuid-Throws : (id : Text) → Throws IsRefusal (require_canonical_uuid id (lit "id"))
  unfolding require_canonical_uuid
  uuid-Throws id = if_ind (Throws IsRefusal) (not (is_canonical_uuid id)) (inl (refl, refl)) tt

  row-Throws : (body : Value) → Throws IsRefusal (require_json_data_row h body)
  unfolding require_json_data_row
  row-Throws body =
      Throws-bind IsRefusal (require_non_empty_plain_object h body) _ (go (is_plain_object h body))
        (λ o.
          Throws-bind IsRefusal (guard (is_json_value h body) json_validation_error) _
            (Throws-guard IsRefusal _ _ (inl (refl, refl))) (λ _. tt))
    where
      go : (o : Option Row) → Throws IsRefusal (non_empty o)
      go none = inl (refl, refl)
      go (some []) = inl (refl, refl)
      go (some (e ∷ m)) = tt

  keys-Throws :
      (values : Row) (allowed : List Text) (kind : Kind)
      → Throws IsRefusal (assert_keys_allowed values allowed kind)
  unfolding assert_keys_allowed
  keys-Throws values allowed kind = go (invalid_entries values allowed kind)
    where
      go : (d : Details) → Throws IsRefusal (none_invalid d)
      go [] = tt
      go (e ∷ es) = inl (refl, refl)

  owner-Throws :
      (values : Row) → Throws IsRefusal (assert_no_foreign_ownership_claim values identity)
  unfolding assert_no_foreign_ownership_claim
  owner-Throws values = Throws-guard IsRefusal _ _ (inr (inr (refl, refl)))

  check_create-Throws :
      (body : Value) → Throws IsRefusal (check_create registry h identity alias body)
  unfolding check_create
  check_create-Throws body =
      Throws-bind IsRefusal (table_or_error (registry alias)) _ table-Throws λ t.
        Throws-bind IsRefusal (require_json_data_row h body) _ (row-Throws body) λ values.
          Throws-bind IsRefusal (assert_keys_allowed values t.insertable_columns insertable) _
            (keys-Throws values _ _)
            λ _.
              Throws-bind IsRefusal (assert_id_canonical values) _
                (Throws-guard IsRefusal _ _ (inl (refl, refl)))
                λ _.
                  Throws-bind IsRefusal (assert_no_foreign_ownership_claim values identity) _
                    (owner-Throws values) λ _. tt

  check_update-Throws :
      (id : Text) (body : Value) → Throws IsRefusal (check_update registry h identity alias id body)
  unfolding check_update
  check_update-Throws id body =
      Throws-bind IsRefusal (table_or_error (registry alias)) _ table-Throws λ t.
        Throws-bind IsRefusal (require_canonical_uuid id (lit "id")) _ (uuid-Throws id) λ id'.
          Throws-bind IsRefusal (require_json_data_row h body) _ (row-Throws body) λ values.
            Throws-bind IsRefusal (assert_id_absent values) _
              (Throws-guard IsRefusal _ _ (inl (refl, refl)))
              λ _.
                Throws-bind IsRefusal (assert_keys_allowed values t.updatable_columns updatable) _
                  (keys-Throws values _ _)
                  λ _.
                    Throws-bind IsRefusal (assert_no_foreign_ownership_claim values identity) _
                      (owner-Throws values) λ _. tt

module _ {S : Type 0} (registry : Text → Option ExposedTable) (repository : DataRepository S)
    (h : Heap) (identity : RequestIdentity) (alias : Text) where
  -- Whatever the body, `create` either hands the repository, once, a row that the table of the alias
  -- accepts, or throws a refusal and leaves the repository as it was. The row is the body itself: a
  -- plain object, not empty, a finite tree of JSON values in which no object stands twice, with
  -- insertable columns only, a canonical UUID for an `id`, and the caller for a `user_id`.
  pub create_guarded :
      (body : Value) (s : S)
      → ((x : ExposedTable × Row) × Creates registry h identity alias body x
          × (create registry repository h identity alias body s
              ≡ repository.create identity x.0 x.1 s))
        ⊎ ((e : AppError) × IsRefusal e
            × (create registry repository h identity alias body s ≡ (err (domain e), s)))
  unfolding create
  create_guarded body s = elim (Result-cases (check_create registry h identity alias body)) [
    | inl (x, passed) ↦
        inl (x, check_create-ok registry h identity alias body x passed, rw (passed, create))
    | inr (e, failed) ↦
        inr (
          e,
          rw failed at (check_create-Throws registry h identity alias body),
          rw (failed, create),
        )
  ]

  -- The same of `update`, with updatable columns and no `id` in the body; the row to change is named
  -- by the canonical UUID of the request, and a repository that finds no row makes a 404.
  pub update_guarded :
      (id : Text) (body : Value) (s : S)
      → ((x : ExposedTable × Text × Row) × Updates registry h identity alias id body x
          × (update registry repository h identity alias id body s ≡ (
            row_or_missing (repository.update_by_id identity x.0 x.1 x.2 s).0,
            (repository.update_by_id identity x.0 x.1 x.2 s).1,
          )))
        ⊎ ((e : AppError) × IsRefusal e
            × (update registry repository h identity alias id body s ≡ (err (domain e), s)))
  unfolding update
  update_guarded id body s = elim (Result-cases (check_update registry h identity alias id body)) [
    | inl (x, passed) ↦
        inl (x, check_update-ok registry h identity alias id body x passed, rw (passed, update))
    | inr (e, failed) ↦ inr (
      e,
      rw failed at (check_update-Throws registry h identity alias id body),
      rw (failed, update),
    )
  ]
