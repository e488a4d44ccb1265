-- ===== src/Base/Strings.antt =====
-- JavaScript strings as lists of UTF-16 code units, with the string operations that the program
-- calls. `lit` turns a literal of the source into such a list; it is shut, so that a proof does
-- not read the letters of an error message unless it asks for them.
use Prim.Native.Char.{code}
use Prim.Native.String.{String}
use micro_jbase.Base.Tests.{&&-true, ◌==◌, leb, if◌then◌else◌}
use micro_jbase.Base.Lists.{all, All, all-All}
use Prim.Native.Nat.{ℕ, ◌+◌, ◌*◌, ◌-◌}
use mathlib.Core.Path.{◌≡◌, refl}
use mathlib.Core.Logic.{◌↔◌}
use mathlib.Core.Bool.{Bool, true, false, ◌&&◌, ◌||◌}
use mathlib.Core.List.{List, [], ◌∷◌, ◌++◌}
use native.Mathlib.Omega.{arith}

abbrev pub Text : Type 0
Text = List ℕ

abbrev pub codes : String → Text
codes String.[] = []
codes (String.◌∷◌ c s) = code c ∷ codes s

unfoldable pub lit : String → Text
lit s = codes s

-- a === b
unfoldable pub text_eq : Text → Text → Bool
text_eq [] [] = true
text_eq [] (y ∷ ys) = false
text_eq (x ∷ xs) [] = false
text_eq (x ∷ xs) (y ∷ ys) = x == y && text_eq xs ys

pub text_eq→eq : (a b : Text) → text_eq a b ≡ true → a ≡ b
unfolding text_eq
text_eq→eq [] [] h = refl
text_eq→eq [] (y ∷ ys) h = ground arith
text_eq→eq (x ∷ xs) [] h = ground arith
text_eq→eq (x ∷ xs) (y ∷ ys) h = ground (arith, text_eq→eq xs ys)

pub text_eq_refl : (a : Text) → text_eq a a ≡ true
unfolding text_eq
text_eq_refl [] = refl
text_eq_refl (x ∷ xs) = ground (arith, text_eq_refl xs)

pub text_eq_iff : (a b : Text) → (text_eq a b ≡ true) ↔ (a ≡ b)
text_eq_iff a b = (text_eq→eq a b, λ e. rw e (text_eq_refl b))

-- set.has(t), list.includes(t)
unfoldable pub includes : List Text → Text → Bool
includes [] t = false
includes (x ∷ xs) t = text_eq x t || includes xs t

-- [0-9a-f] and [0-9]
abbrev pub is_digit : ℕ → Bool
is_digit c = leb b'0' c && leb c b'9'

abbrev pub is_hex : ℕ → Bool
is_hex c = is_digit c || (leb b'a' c && leb c b'f')

-- A regular expression that gives each position its class of characters: `^...$` with no repetition
-- of variable length.
unfoldable pub matches_shape : List (ℕ → Bool) → Text → Bool
matches_shape [] [] = true
matches_shape [] (c ∷ cs) = false
matches_shape (p ∷ ps) [] = false
matches_shape (p ∷ ps) (c ∷ cs) = p c && matches_shape ps cs

-- [a-z], [A-Z], [A-Za-z] and [0-9A-Fa-f]
abbrev pub is_lower : ℕ → Bool
is_lower c = leb b'a' c && leb c b'z'

abbrev pub is_upper : ℕ → Bool
is_upper c = leb b'A' c && leb c b'Z'

abbrev pub is_letter : ℕ → Bool
is_letter c = is_lower c || is_upper c

abbrev pub is_any_hex : ℕ → Bool
is_any_hex c = is_hex c || (leb b'A' c && leb c b'F')

-- `^first rest*$`
unfoldable pub matches_head_rest : (ℕ → Bool) → (ℕ → Bool) → Text → Bool
matches_head_rest first rest [] = false
matches_head_rest first rest (c ∷ cs) = first c && all rest cs

pub matches_head_rest-All {κ} :
    (first rest : ℕ → Bool) (P : ℕ → Type κ) (t : Text)
    → ((c : ℕ) → first c ≡ true → P c)
    → ((c : ℕ) → rest c ≡ true → P c)
    → matches_head_rest first rest t ≡ true
    → All P t
unfolding matches_head_rest
matches_head_rest-All first rest P [] f g h = tt
matches_head_rest-All first rest P (c ∷ cs) f g h =
    let tests = &&-true (first c) (all rest cs) h in (f c tests.0, all-All rest P cs g tests.1)

-- text.replace(/c/g, cc): each `c` is doubled
unfoldable pub double : ℕ → Text → Text
double c [] = []
double c (x ∷ xs) = let rest = double c xs in if x == c then c ∷ (c ∷ rest) else x ∷ rest

-- text.includes(c) for one code unit
unfoldable pub has_unit : ℕ → Text → Bool
has_unit c [] = false
has_unit c (x ∷ xs) = x == c || has_unit c xs

-- parts.join(separator)
unfoldable pub join : Text → List Text → Text
join sep [] = []
join sep (x ∷ []) = x
join sep (x ∷ y ∷ ys) = x ++ (sep ++ join sep (y ∷ ys))

unfoldable pub starts_with : Text → Text → Bool
starts_with [] t = true
starts_with (p ∷ ps) [] = false
starts_with (p ∷ ps) (c ∷ cs) = p == c && starts_with ps cs

pub starts_with-append : (prefix rest : Text) → starts_with prefix (prefix ++ rest) ≡ true
unfolding starts_with
starts_with-append [] rest = refl
starts_with-append (c ∷ cs) rest = ground (arith, starts_with-append cs rest)

-- the number that a text of decimal digits denotes
unfoldable pub decimal_from : ℕ → Text → ℕ
decimal_from acc [] = acc
decimal_from acc (c ∷ cs) = decimal_from (acc * 10 + (c - 48)) cs

-- a template literal, from its parts
abbrev pub concat : List Text → Text
concat [] = []
concat (x ∷ xs) = x ++ concat xs
