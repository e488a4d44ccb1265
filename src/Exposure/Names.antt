-- ===== src/Exposure/Names.antt =====
-- The names that microjbase.import_exposure_registry of migrations/0006_exposure_registry.sql accepts, beside the
-- identifiers of src/database/exposure-registry.ts.
use micro_jbase.Base.{
  arith, ℕ, ◌≡◌, starts_with-append, refl, ◌==◌, ==_iff, leb, Bool, true, not, ◌&&◌, ◌||◌, &&-true,
  [], ◌∷◌, ◌++◌, All, all, Text, starts_with, is_lower, is_upper, is_letter, is_digit,
  matches_head_rest, matches_head_rest-All,
}
use micro_jbase.Ddl.Identifiers.{is_simple_identifier}
use micro_jbase.Exposure.Import.{is_sql_name}

all_wider :
    (p q : ℕ → Bool) (t : Text)
    → ((c : ℕ) → p c ≡ true → q c ≡ true)
    → all p t ≡ true
    → all q t ≡ true
all_wider p q [] f h = refl
all_wider p q (c ∷ cs) f h =
    let tests = &&-true (p c) (all p cs) h in rw (f c tests.0) (all_wider p q cs f tests.1)

pub is_sql_name-is_simple_identifier :
    (t : Text) → is_sql_name t ≡ true → is_simple_identifier t ≡ true
unfolding is_sql_name is_simple_identifier matches_head_rest
is_sql_name-is_simple_identifier [] h = h
is_sql_name-is_simple_identifier (c ∷ cs) h =
    let narrow : ℕ → Bool = λ d. is_lower d || (is_digit d || d == b'_') in
    let wide : ℕ → Bool = λ d. is_letter d || (is_digit d || d == b'_') in
    let tests = &&-true (is_lower c || c == b'_') (all narrow cs) h in
    let first : (is_letter c || c == b'_') ≡ true = ground (arith, tests.0) in
    rw first (all_wider narrow wide cs (λ d k. ground arith) tests.1)

-- a character of ASCII that is no capital
abbrev pub IsLowercase : ℕ → Type 0
IsLowercase c = (leb c 127 && not (is_upper c)) ≡ true

pub is_sql_name-IsLowercase : (t : Text) → is_sql_name t ≡ true → All IsLowercase t
unfolding is_sql_name
is_sql_name-IsLowercase t h =
    matches_head_rest-All (λ c. is_lower c || c == b'_')
      (λ c. is_lower c || (is_digit c || c == b'_')) IsLowercase t (λ c k. ground arith)
      (λ c k. ground arith) h

narrow_all :
    (t : Text)
    → All IsLowercase t
    → all (λ c. is_letter c || (is_digit c || c == b'_')) t ≡ true
    → all (λ c. is_lower c || (is_digit c || c == b'_')) t ≡ true
narrow_all [] l h = refl
narrow_all (c ∷ cs) l h =
    let wide : ℕ → Bool = λ d. is_letter d || (is_digit d || d == b'_') in
    let tests = &&-true (wide c) (all wide cs) h in
    let first : (is_lower c || (is_digit c || c == b'_')) ≡ true = ground (arith, l.0, tests.0) in
    rw first (narrow_all cs l.1 tests.1)

pub lowercase-is_sql_name :
    (t : Text) → All IsLowercase t → is_simple_identifier t ≡ true → is_sql_name t ≡ true
unfolding is_sql_name is_simple_identifier matches_head_rest
lowercase-is_sql_name [] l h = h
lowercase-is_sql_name (c ∷ cs) l h =
    let wide : ℕ → Bool = λ d. is_letter d || (is_digit d || d == b'_') in
    let tests = &&-true (is_letter c || c == b'_') (all wide cs) h in
    let first : (is_lower c || c == b'_') ≡ true = ground (arith, l.0, tests.0) in
    rw first (narrow_all cs l.1 tests.1)

-- The text begins with the prefix.
abbrev pub Begins : Text → Text → Type 0
Begins prefix t = (rest : Text) × (t ≡ prefix ++ rest)

pub starts_with-Begins : (prefix t : Text) → starts_with prefix t ≡ true → Begins prefix t
unfolding starts_with
starts_with-Begins [] t h = (t, refl)
starts_with-Begins (c ∷ cs) [] h = cc
starts_with-Begins (c ∷ cs) (d ∷ ds) h =
    let tests = &&-true (c == d) (starts_with cs ds) h in
    let later = starts_with-Begins cs ds tests.1 in
    let same : c ≡ d = (==_iff c d).0 tests.0 in (later.0, cc (same, later.1))

pub Begins-starts_with : (prefix t : Text) → Begins prefix t → starts_with prefix t ≡ true
Begins-starts_with prefix t (rest, same) = rw same (starts_with-append prefix rest)
