-- ===== src/Config/RoundTrip.antt =====
-- Mappings that are written as MICROJBASE_TABLES expects them are read back: parseTableMappings of
-- src/core/config.ts.
use micro_jbase.Base.{
  arith, ℕ, ◌≡◌, refl, ap, ◌∙◌, ◌==◌, leb, true, false, not, ◌&&◌, ◌||◌, some, List, [], ◌∷◌, ◌++◌,
  map, null, All, All-append, ok, Text, includes, join, is_lower, is_letter, is_digit, length,
  &&-true, matches_head_rest, matches_head_rest-All,
}
use micro_jbase.Platform.{Platform}
use micro_jbase.Ddl.Identifiers.{is_simple_identifier}
use micro_jbase.Tables.{ExposedTableMapping}
use micro_jbase.Exposure.{is_alias}
use micro_jbase.Exposure.Payload.{IsMapping}
use micro_jbase.Config.{given}
use micro_jbase.Config.Mappings.{
  split_on, cut_at, parse_table_target, parse_entry, parse_entries, parse_table_mappings,
  HaveAliases,
}

-- alias=schema.table, and these joined by commas
abbrev pub print_mapping : ExposedTableMapping → Text
print_mapping m = m.alias ++ (b'=' ∷ (m.schema ++ (b'.' ∷ m.table)))

abbrev pub print_mappings : List ExposedTableMapping → Text
print_mappings ms = join (b',' ∷ []) (map print_mapping ms)

-- a visible character of ASCII
abbrev pub IsVisible : ℕ → Type 0
IsVisible c = (leb 33 c && leb c 126) ≡ true

abbrev Free : ℕ → Text → Type 0
Free s t = All (λ c. (c == s) ≡ false) t

split_on_whole : (s : ℕ) (t : Text) → Free s t → split_on s t ≡ t ∷ []
unfolding split_on
split_on_whole s [] h = refl
split_on_whole s (c ∷ cs) h = rw (h.0, split_on_whole s cs h.1) refl

split_on-append : (s : ℕ) (a b : Text) → Free s a → split_on s (a ++ (s ∷ b)) ≡ a ∷ split_on s b
unfolding split_on
split_on-append s [] b h = ground arith
split_on-append s (c ∷ cs) b h = rw (h.0, split_on-append s cs b h.1) refl

cut_at-append : (s : ℕ) (a b : Text) → Free s a → cut_at s (a ++ (s ∷ b)) ≡ some (a, b)
unfolding cut_at
cut_at-append s [] b h = ground arith
cut_at-append s (c ∷ cs) b h = rw (h.0, cut_at-append s cs b h.1) refl

-- parts without the separator come back
split_on-join :
    (s : ℕ) (x : Text) (xs : List Text)
    → All (Free s) (x ∷ xs)
    → split_on s (join (s ∷ []) (x ∷ xs)) ≡ x ∷ xs
unfolding join
split_on-join s x [] h = split_on_whole s x h.0
split_on-join s x (y ∷ ys) h =
    split_on-append s x (join (s ∷ []) (y ∷ ys)) h.0 ∙ ap (λ r. x ∷ r) (split_on-join s y ys h.1)

-- a character of a name: visible, and none of the separators
abbrev IsPlainChar : ℕ → Type 0
IsPlainChar c =
    (leb 33 c && (leb c 126 && (not (c == b',') && (not (c == b'=') && not (c == b'.'))))) ≡ true

abbrev IsName : Text → Type 0
IsName t = All IsPlainChar t

is_simple_identifier-IsName : (t : Text) → is_simple_identifier t ≡ true → IsName t
unfolding is_simple_identifier
is_simple_identifier-IsName t h =
    matches_head_rest-All (λ c. is_letter c || c == b'_')
      (λ c. is_letter c || (is_digit c || c == b'_')) IsPlainChar t (λ c k. ground arith)
      (λ c k. ground arith) h

is_alias-IsName : (t : Text) → is_alias t ≡ true → IsName t
unfolding is_alias
is_alias-IsName t h =
    matches_head_rest-All is_lower (λ c. is_lower c || (is_digit c || c == b'_')) IsPlainChar t
      (λ c k. ground arith) (λ c k. ground arith)
      (&&-true (leb (length t) 63)
        (matches_head_rest is_lower (λ c. is_lower c || (is_digit c || c == b'_')) t) h).1

weaken-All : (P Q : ℕ → Type 0) (t : Text) → ((c : ℕ) → P c → Q c) → All P t → All Q t
weaken-All P Q [] f h = tt
weaken-All P Q (c ∷ cs) f h = (f c h.0, weaken-All P Q cs f h.1)

simple_not_null : (t : Text) → is_simple_identifier t ≡ true → null t ≡ false
unfolding is_simple_identifier matches_head_rest
simple_not_null [] h = cc
simple_not_null (c ∷ cs) h = refl

alias_not_null : (t : Text) → is_alias t ≡ true → null t ≡ false
unfolding is_alias matches_head_rest
alias_not_null [] h = cc
alias_not_null (c ∷ cs) h = refl

null-append : (a b : Text) → null b ≡ false → null (a ++ b) ≡ false
null-append [] b h = h
null-append (c ∷ cs) b h = refl

abbrev target_text : ExposedTableMapping → Text
target_text m = m.schema ++ (b'.' ∷ m.table)

module _ (platform : Platform) (trims : (t : Text) → All IsVisible t → platform.trim t ≡ t) where
  name-IsVisible : (t : Text) → IsName t → All IsVisible t
  name-IsVisible t h = weaken-All IsPlainChar IsVisible t (λ c k. ground arith) h

  module _ (m : ExposedTableMapping) (good : IsMapping platform m) where
    alias-IsName : IsName m.alias
    alias-IsName = is_alias-IsName m.alias good.alias_form

    schema-IsName : IsName m.schema
    schema-IsName = is_simple_identifier-IsName m.schema good.schema_form

    table-IsName : IsName m.table
    table-IsName = is_simple_identifier-IsName m.table good.table_form

    target-IsVisible : All IsVisible (target_text m)
    target-IsVisible =
        All-append IsVisible m.schema (b'.' ∷ m.table) (name-IsVisible m.schema schema-IsName)
          (ground arith, name-IsVisible m.table table-IsName)

    print_mapping-IsVisible : All IsVisible (print_mapping m)
    print_mapping-IsVisible =
        All-append IsVisible m.alias (b'=' ∷ target_text m) (name-IsVisible m.alias alias-IsName)
          (ground arith, target-IsVisible)

    print_mapping-Free : Free b',' (print_mapping m)
    print_mapping-Free =
        All-append (λ c. (c == b',') ≡ false) m.alias (b'=' ∷ target_text m)
          (weaken-All IsPlainChar (λ c. (c == b',') ≡ false) m.alias (λ c k. ground arith)
            alias-IsName)
          (
            ground arith,
            All-append (λ c. (c == b',') ≡ false) m.schema (b'.' ∷ m.table)
                (weaken-All IsPlainChar (λ c. (c == b',') ≡ false) m.schema (λ c k. ground arith)
                  schema-IsName)
                (
                  ground arith,
                  weaken-All IsPlainChar (λ c. (c == b',') ≡ false) m.table (λ c k. ground arith)
                      table-IsName,
                ),
          )

    parse_table_target-target_text :
        parse_table_target platform (target_text m) ≡ ok (m.schema, m.table)
    unfolding parse_table_target
    parse_table_target-target_text =
        let dotless : (t : Text) → IsName t → Free b'.' t =
          λ t h. weaken-All IsPlainChar (λ c. (c == b'.') ≡ false) t (λ c k. ground arith) h in
        rw
          (
            split_on-append b'.' m.schema m.table (dotless m.schema schema-IsName),
            split_on_whole b'.' m.table (dotless m.table table-IsName),
            simple_not_null m.schema good.schema_form,
            simple_not_null m.table good.table_form,
            good.allowed,
          )
          refl

    parse_entry-print_mapping :
        (seen : List Text)
        → includes seen m.alias ≡ false
        → parse_entry platform seen (print_mapping m) ≡ ok m
    unfolding parse_entry
    parse_entry-print_mapping seen new =
        rw
          (
            null-append m.alias (b'=' ∷ target_text m) refl,
            cut_at-append b'=' m.alias (target_text m) (
                weaken-All IsPlainChar (λ c. (c == b'=') ≡ false) m.alias (λ c k. ground arith)
                  alias-IsName),
            alias_not_null m.alias good.alias_form,
            null-append m.schema (b'.' ∷ m.table) refl,
            trims (target_text m) target-IsVisible,
            parse_table_target-target_text,
            trims m.alias (name-IsVisible m.alias alias-IsName),
            good.alias_form,
            new,
          )
          refl

  parse_entries-print :
      (seen : List Text) (ms : List ExposedTableMapping)
      → All (IsMapping platform) ms
      → HaveAliases platform seen ms
      → parse_entries platform seen (map print_mapping ms) ≡ ok ms
  unfolding parse_entries
  parse_entries-print seen [] good new = refl
  parse_entries-print seen (m ∷ ms) good new =
      rw
        (
          trims (print_mapping m) (print_mapping-IsVisible m good.0),
          parse_entry-print_mapping m good.0 seen new.1,
          parse_entries-print (m.alias ∷ seen) ms good.1 new.2,
        )
        refl

  without_commas :
      (ms : List ExposedTableMapping)
      → All (IsMapping platform) ms
      → All (Free b',') (map print_mapping ms)
  without_commas [] good = tt
  without_commas (m ∷ ms) good = (print_mapping-Free m good.0, without_commas ms good.1)

  print_mappings-IsVisible :
      (ms : List ExposedTableMapping)
      → All (IsMapping platform) ms
      → All IsVisible (print_mappings ms)
  unfolding join
  print_mappings-IsVisible [] good = tt
  print_mappings-IsVisible (m ∷ []) good = print_mapping-IsVisible m good.0
  print_mappings-IsVisible (m ∷ n ∷ ms) good =
      All-append IsVisible (print_mapping m) (b',' ∷ print_mappings (n ∷ ms))
        (print_mapping-IsVisible m good.0) (ground arith, print_mappings-IsVisible (n ∷ ms) good.1)

  print_not_null :
      (m : ExposedTableMapping) (ms : List ExposedTableMapping)
      → null (print_mappings (m ∷ ms)) ≡ false
  unfolding join
  print_not_null m [] = null-append m.alias (b'=' ∷ target_text m) refl
  print_not_null m (n ∷ ms) = null-append (print_mapping m) (b',' ∷ print_mappings (n ∷ ms)) refl

  -- Mappings whose names have their forms, whose schemas may be exposed and whose aliases are distinct are read
  -- back from the text alias=schema.table,..., if trimming leaves a text of visible ASCII characters as it is.
  pub parse_table_mappings-print_mappings :
      (ms : List ExposedTableMapping)
      → All (IsMapping platform) ms
      → HaveAliases platform [] ms
      → parse_table_mappings platform (some (print_mappings ms)) ≡ ok ms
  unfolding parse_table_mappings given
  parse_table_mappings-print_mappings [] good new = unfold join in rw (trims [] tt) refl
  parse_table_mappings-print_mappings (m ∷ ms) good new =
      rw
        (
          trims (print_mappings (m ∷ ms)) (print_mappings-IsVisible (m ∷ ms) good),
          print_not_null m ms,
          split_on-join b',' (print_mapping m) (map print_mapping ms)
              (without_commas (m ∷ ms) good),
        )
        (parse_entries-print [] (m ∷ ms) good new)
