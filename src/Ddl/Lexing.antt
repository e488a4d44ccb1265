-- ===== src/Ddl/Lexing.antt =====
-- SQL text as PostgreSQL splits it: outside of quotes, in a quoted identifier, in a literal. A
-- statement that `lex` takes back to the outside has its quotes closed and no `;` between them.
use micro_jbase.Base.{
  ℕ, ◌≡◌, refl, inl, inr, Option, none, some, List, [], ◌∷◌, ◌++◌, arith, if◌then◌else◌, ◌==◌, All,
  ok, err, Returned, Returned-if, Bool-cases, Text, concat, double, has_unit, join,
}
use micro_jbase.Errors.{AppError}
use micro_jbase.Ddl.Identifiers.{
  quote_identifier, quote_literal, is_simple_identifier, invalid_identifier,
}

pub data Mode : Type 0 where
  outside identifier literal : Mode

unfoldable pub lex_unit : Mode → ℕ → Option Mode
lex_unit outside c =
    if c == b'"'
    then some identifier
    else if c == 39
    then some literal
    else if c == b';'
    then none
    else some outside
lex_unit identifier c = if c == b'"' then some outside else some identifier
lex_unit literal c = if c == 39 then some outside else some literal

abbrev pub then_lex : Option Mode → ℕ → Option Mode
then_lex none c = none
then_lex (some m) c = lex_unit m c

-- `none` once a `;` has stood outside of quotes
unfoldable pub lex : Option Mode → Text → Option Mode
unfolding lex_unit
lex m [] = m
lex m (c ∷ cs) = lex (then_lex m c) cs

-- one command, with its quotes closed
abbrev pub IsClosed : Text → Type 0
IsClosed t = lex (some outside) t ≡ some outside

pub lex-append : (m : Option Mode) (s t : Text) → lex m (s ++ t) ≡ lex (lex m s) t
unfolding lex
lex-append m [] t = refl
lex-append m (c ∷ s) t = lex-append (then_lex m c) s t

pub append-IsClosed : (s t : Text) → IsClosed s → IsClosed t → IsClosed (s ++ t)
append-IsClosed s t h k = rw lex-append (rw h k)

pub concat-IsClosed : (parts : List Text) → All IsClosed parts → IsClosed (concat parts)
unfolding lex
concat-IsClosed [] h = refl
concat-IsClosed (s ∷ parts) h = append-IsClosed s (concat parts) h.0 (concat-IsClosed parts h.1)

pub join-IsClosed :
    (sep : Text) (parts : List Text) → IsClosed sep → All IsClosed parts → IsClosed (join sep parts)
unfolding lex join
join-IsClosed sep [] h k = refl
join-IsClosed sep (s ∷ []) h k = k.0
join-IsClosed sep (s ∷ t ∷ parts) h k =
    append-IsClosed s (sep ++ join sep (t ∷ parts)) k.0
      (append-IsClosed sep (join sep (t ∷ parts)) h (join-IsClosed sep (t ∷ parts) h k.1))

lex-double_literal : (v : Text) → lex (some literal) (double 39 v) ≡ some literal
unfolding lex double
lex-double_literal [] = refl
lex-double_literal (c ∷ v) = elim (Bool-cases (c == 39)) [
  | inl quote ↦ rw quote (lex-double_literal v)
  | inr plain ↦ ground (arith, plain, lex-double_literal v)
]

lex-double_identifier : (v : Text) → lex (some identifier) (double b'"' v) ≡ some identifier
unfolding lex double
lex-double_identifier [] = refl
lex-double_identifier (c ∷ v) = elim (Bool-cases (c == b'"')) [
  | inl quote ↦ rw quote (lex-double_identifier v)
  | inr plain ↦ ground (arith, plain, lex-double_identifier v)
]

-- A quoted literal is closed, whatever the text holds.
pub quote_literal-IsClosed : (v : Text) → Returned IsClosed (quote_literal v)
unfolding quote_literal lex
quote_literal-IsClosed v =
    Returned-if IsClosed (has_unit 0 v) _ _ (λ _. tt)
      λ _.
        Returned-if IsClosed (has_unit 92 v) _ _ (λ _. tt)
          λ _. rw (lex-append (some literal) (double 39 v) (39 ∷ []), lex-double_literal v)

pub quote_identifier-IsClosed : (name : Text) → Returned IsClosed (quote_identifier name)
unfolding quote_identifier lex
quote_identifier-IsClosed name =
    Returned-if {E = AppError} IsClosed (is_simple_identifier name)
      (ok (b'"' ∷ (double b'"' name ++ b'"' ∷ []))) (err invalid_identifier)
      (λ _.
        rw
          (lex-append (some identifier) (double b'"' name) (b'"' ∷ []), lex-double_identifier name))
      (λ _. tt)
