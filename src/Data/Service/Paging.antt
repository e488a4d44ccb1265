-- ===== src/Data/Service/Paging.antt =====
-- The page that `list` of src/data/service.ts asks the repository for.
use micro_jbase.Base.{
  ℕ, ◌≡◌, ◌⊎◌, ◌≤◌, refl, inl, inr, false, Option, if◌then◌else◌, arith, ok, err, Result-cases,
  Returned, Returned-eq, Returned-bind, Returned-if, if_ind, Number, int, pos, negsuc, Text,
}
use micro_jbase.Errors.{AppError, domain}
use micro_jbase.Data.Values.{Value}
use micro_jbase.Data.Validate.{is_undefined, outside, number_of, resolve_limit, resolve_offset}
use micro_jbase.Data.Service.{
  RequestIdentity, ExposedTable, DataRepository, table_or_error, check_list, list,
}

-- a whole number between the bounds
abbrev pub IsBetween : ℕ → ℕ → Number → Type 0
IsBetween low high n = (k : ℕ) × (n ≡ int (pos k)) × (low ≤ k) × (k ≤ high)

within : (low high : ℕ) (v : Value) → outside v low high ≡ false → IsBetween low high (number_of v)
within low high (Value.num (int (pos k))) h = (k, refl, ground arith, ground arith)
within low high (Value.num (int (negsuc k))) h = cc
within low high (Value.num (Number.between z)) h = cc
within low high (Value.num Number.pos_inf) h = cc
within low high (Value.num Number.neg_inf) h = cc
within low high (Value.num Number.nan) h = cc
within low high Value.undefined h = cc
within low high Value.null h = cc
within low high Value.opaque h = cc
within low high (Value.bool b) h = cc
within low high (Value.str t) h = cc
within low high (Value.ref a) h = cc

bounded_or_refused :
    (low high : ℕ) (v : Value) (e : AppError)
    → Returned (IsBetween low high) (if outside v low high then err e else ok (number_of v))
bounded_or_refused low high v e =
    Returned-if {E = AppError} (IsBetween low high) (outside v low high) (err e) (ok (number_of v))
      (λ _. tt) (within low high v)

resolve_limit-IsBetween : (limit : Value) → Returned (IsBetween 1 100) (resolve_limit limit)
unfolding resolve_limit
resolve_limit-IsBetween limit =
    if_ind (Returned (IsBetween 1 100)) (is_undefined limit) (50, refl, omega arith, omega arith)
      (bounded_or_refused 1 100 limit _)

resolve_offset-IsBetween : (offset : Value) → Returned (IsBetween 0 100_000) (resolve_offset offset)
unfolding resolve_offset
resolve_offset-IsBetween offset =
    if_ind (Returned (IsBetween 0 100_000)) (is_undefined offset)
      (0, refl, omega arith, omega arith) (bounded_or_refused 0 100_000 offset _)

-- the table of the alias and a page within the bounds
abbrev pub IsPage : (Text → Option ExposedTable) → Text → ExposedTable × Number × Number → Type 0
IsPage registry alias (table, limit, offset) =
    (table_or_error (registry alias) ≡ ok table)
    × IsBetween 1 100 limit
    × IsBetween 0 100_000 offset

module _ {S : Type 0} (registry : Text → Option ExposedTable) (repository : DataRepository S) where
  check_list-IsPage :
      (alias : Text) (limit offset : Value)
      → Returned (IsPage registry alias) (check_list registry alias limit offset)
  unfolding check_list
  check_list-IsPage alias limit offset =
      Returned-eq (IsPage registry alias) (table_or_error (registry alias)) _ λ table found.
        Returned-bind (IsBetween 1 100) (IsPage registry alias) (resolve_limit limit) _
          (resolve_limit-IsBetween limit)
          λ l l_fits.
            Returned-bind (IsBetween 0 100_000) (IsPage registry alias) (resolve_offset offset) _
              (resolve_offset-IsBetween offset) λ o o_fits. (found, l_fits, o_fits)

  -- Whatever limit and offset are asked for, `list` either asks the repository for one page of the
  -- alias's table, with a whole limit from 1 to 100 and a whole offset up to 100000, or throws and
  -- leaves the repository as it was.
  pub list_bounded :
      (identity : RequestIdentity) (alias : Text) (limit offset : Value) (s : S)
      → ((x : ExposedTable × Number × Number) × IsPage registry alias x
          × (list registry repository identity alias limit offset s
              ≡ repository.list identity x.0 x.1 x.2 s))
        ⊎ ((e : AppError) × (list registry repository identity alias limit offset s
              ≡ (err (domain e), s)))
  unfolding list
  list_bounded identity alias limit offset s =
      elim (Result-cases (check_list registry alias limit offset)) [
        | inl (x, passed) ↦
            inl (x, rw passed at (check_list-IsPage alias limit offset), rw (passed, list))
        | inr (e, failed) ↦ inr (e, rw (failed, list))
      ]
