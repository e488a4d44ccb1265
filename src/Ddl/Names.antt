-- ===== src/Ddl/Names.antt =====
-- The names that src/database/schema-ddl.ts derives for indexes, constraints and policies: they
-- are identifiers, and fit in 63 characters.
use micro_jbase.Base.{
  ℕ, zero, suc, ◌+◌, ◌-◌, ◌≤◌, ◌≡◌, refl, inl, inr, Bool, true, ◌||◌, List, [], ◌∷◌, ◌++◌, arith,
  ◌==◌, leb, length, length-append, length-take, all, All, all-append, &&-true, Bool-cases, take,
  Text, lit, join, is_letter, is_digit, is_hex, matches_head_rest,
}
use micro_jbase.Platform.{Platform}
use micro_jbase.Ddl.Identifiers.{
  deterministic_object_name, is_simple_identifier, max_identifier_length,
}

-- a letter, a digit or `_`
abbrev is_word_unit : ℕ → Bool
is_word_unit c = is_letter c || (is_digit c || c == b'_')

abbrev IsWord : Text → Type 0
IsWord t = all is_word_unit t ≡ true

IsWord-append : (s t : Text) → IsWord s → IsWord t → IsWord (s ++ t)
IsWord-append s t h k = ground (arith, all-append is_word_unit s t)

IsWord-take : (n : ℕ) (t : Text) → IsWord t → IsWord (take n t)
IsWord-take zero t h = refl
IsWord-take (suc n) [] h = refl
IsWord-take (suc n) (c ∷ t) h = ground (arith, IsWord-take n t)

head_is_word : (a b c : Bool) → (a || c) ≡ true → (a || (b || c)) ≡ true
head_is_word a b c h = ground arith

identifier-IsWord : (t : Text) → is_simple_identifier t ≡ true → IsWord t
unfolding is_simple_identifier matches_head_rest
identifier-IsWord [] h = cc
identifier-IsWord (c ∷ t) h =
    let parts = &&-true (is_letter c || c == b'_') (all is_word_unit t) h in
    rw (head_is_word (is_letter c) (is_digit c) (c == b'_') parts.0) parts.1

hex-IsWord : (t : Text) → all is_hex t ≡ true → IsWord t
hex-IsWord [] h = refl
hex-IsWord (c ∷ t) h = ground (arith, hex-IsWord t)

join-IsWord : (ts : List Text) → All IsWord ts → IsWord (join (lit "_") ts)
unfolding join lit
join-IsWord [] h = refl
join-IsWord (t ∷ []) h = h.0
join-IsWord (t ∷ u ∷ ts) h =
    IsWord-append t (lit "_" ++ join (lit "_") (u ∷ ts)) h.0 (join-IsWord (u ∷ ts) h.1)

-- a word that `m` leads is a simple identifier
led-IsIdentifier : (t : Text) → IsWord t → is_simple_identifier (b'm' ∷ t) ≡ true
unfolding is_simple_identifier matches_head_rest
led-IsIdentifier t h = h

fits :
    (readable digest : Text)
    → length digest ≤ 8
    → length (take (63 - length digest - 1) readable ++ (b'_' ∷ digest)) ≤ 63
fits readable digest h = omega (
  arith,
  length-append (take (63 - length digest - 1) readable) (b'_' ∷ digest),
  length-take (63 - length digest - 1) readable,
)

short :
    (readable digest : Text)
    → leb (length readable + length digest + 1) 63 ≡ true
    → length (readable ++ (b'_' ∷ digest)) ≤ 63
short readable digest h = ground (arith, length-append readable (b'_' ∷ digest))

digest_fits : (hash : Text) → length (take 8 hash) ≤ 8
digest_fits hash = omega (arith, length-take 8 hash)

-- A derived name has at most the 63 characters that PostgreSQL keeps, whatever it is derived from.
pub length-deterministic_object_name :
    (platform : Platform) (kind table : Text) (columns : List Text)
    → length (deterministic_object_name platform kind table columns) ≤ max_identifier_length
unfolding deterministic_object_name lit
length-deterministic_object_name platform kind table columns =
    let digest =
      take 8 (platform.sha256_hex (table ++ (0 ∷ (join (0 ∷ []) columns ++ (0 ∷ kind))))) in
    let readable =
      lit "mjb_" ++ (table ++ (lit "_" ++ (join (lit "_") columns ++ (lit "_" ++ kind)))) in
    elim (Bool-cases (leb (length readable + length digest + 1) 63)) [
      | inl within ↦ rw within (short readable digest within)
      | inr beyond ↦ rw beyond (fits readable digest (digest_fits _))
    ]
