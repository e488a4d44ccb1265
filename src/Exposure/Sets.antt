-- ===== src/Exposure/Sets.antt =====
-- The comparison of exposed sets in src/database/exposure-registry.ts: keys joined by NUL do not collide, and
-- two sets are equal where each mapping of one is in the other and both are as large.
use micro_jbase.Base.{
  arith, ℕ, suc, ◌≤◌, ◌≡◌, ◌↔◌, ◌==◌, ==_iff, refl, ap, sym, subst, length-map, ◌∙◌, Bool, true,
  false, ◌||◌, &&-true, Bool-cases, inl, inr, List, [], ◌∷◌, ◌++◌, map, length, All, Text, text_eq,
  text_eq→eq, text_eq_refl, includes,
}
use mathlib.Core.List.{Memᴰ}
use micro_jbase.Tables.{ExposedTableMapping}
use micro_jbase.Exposure.{exposed_set_key, distinct, has_all, exposed_sets_equal}

-- no NUL in a text, as in every text of PostgreSQL
abbrev pub IsPlain : Text → Type 0
IsPlain t = All (λ (c : ℕ). (c == 0) ≡ false) t

abbrev pub IsPlainMapping : ExposedTableMapping → Type 0
IsPlainMapping m = IsPlain m.alias × IsPlain m.schema × IsPlain m.table

-- a text up to the first NUL is determined
split_at_nul :
    (a b : Text) (x y : Text)
    → IsPlain a
    → IsPlain b
    → a ++ (0 ∷ x) ≡ b ++ (0 ∷ y)
    → (a ≡ b) × (x ≡ y)
split_at_nul [] [] x y p q h = (refl, cc)
split_at_nul [] (c ∷ b) x y p q h = ground arith
split_at_nul (c ∷ a) [] x y p q h = ground arith
split_at_nul (c ∷ a) (d ∷ b) x y p q h =
    let same : a ++ (0 ∷ x) ≡ b ++ (0 ∷ y) = cc in
    let heads : c ≡ d = cc in
    let rest = split_at_nul a b x y p.1 q.1 same in (cc (heads, rest.0), rest.1)

exposed_set_key_injective :
    (m n : ExposedTableMapping)
    → IsPlainMapping m
    → IsPlainMapping n
    → exposed_set_key m ≡ exposed_set_key n
    → m ≡ n
exposed_set_key_injective m n p q h =
    let first = split_at_nul m.alias n.alias _ _ p.0 q.0 h in
    let second = split_at_nul m.schema n.schema m.table n.table p.1 q.1 first.1 in
    λ i. record { alias = first.0 i; schema = second.0 i; table = second.1 i }

includes_mem :
    (m : ExposedTableMapping) (ms : List ExposedTableMapping)
    → IsPlainMapping m
    → All IsPlainMapping ms
    → includes (map exposed_set_key ms) (exposed_set_key m) ≡ true
    → Memᴰ m ms
unfolding includes
includes_mem m [] p q h = cc
includes_mem m (n ∷ ms) p q h =
    elim (Bool-cases (text_eq (exposed_set_key n) (exposed_set_key m))) [
      | inl same ↦ Memᴰ.head (
          exposed_set_key_injective m n p q.0
            (sym (text_eq→eq (exposed_set_key n) (exposed_set_key m) same)))
      | inr other ↦ Memᴰ.tail (includes_mem m ms p q.1 (rw other at h))
    ]

mem_includes :
    (m : ExposedTableMapping) (ms : List ExposedTableMapping)
    → Memᴰ m ms
    → includes (map exposed_set_key ms) (exposed_set_key m) ≡ true
unfolding includes
mem_includes m [] h = elim h [ ]
mem_includes m (n ∷ ms) (Memᴰ.head e) = rw (e, text_eq_refl (exposed_set_key n)) refl
mem_includes m (n ∷ ms) (Memᴰ.tail h) = ground (arith, mem_includes m ms h)

includes-distinct : (xs : List Text) (t : Text) → includes (distinct xs) t ≡ includes xs t
unfolding includes distinct
includes-distinct [] t = refl
includes-distinct (x ∷ xs) t = elim (Bool-cases (includes (distinct xs) x)) [
  | inl again ↦ rw again (elim (Bool-cases (text_eq x t)) [
    | inl same ↦
        rw (same) (subst (λ u. includes (distinct xs) u ≡ true) (text_eq→eq x t same) again)
    | inr other ↦ rw other (includes-distinct xs t)
  ])
  | inr new ↦ rw new (ap (λ b. text_eq x t || b) (includes-distinct xs t))
]

length-distinct : (xs : List Text) → length (distinct xs) ≤ length xs
unfolding distinct
length-distinct [] = omega arith
length-distinct (x ∷ xs) = ground (arith, length-distinct xs)

-- no text stands twice
abbrev pub NoRepeat : List Text → Type 0
NoRepeat [] = Unit
NoRepeat (x ∷ xs) = (includes xs x ≡ false) × NoRepeat xs

pub distinct_full : (xs : List Text) → length (distinct xs) ≡ length xs → NoRepeat xs
unfolding distinct
distinct_full [] h = tt
distinct_full (x ∷ xs) h = elim (Bool-cases (includes (distinct xs) x)) [
  | inl again ↦
      let short : length (distinct xs) ≡ suc (length xs) = rw again at h in
      absurd (omega (arith, length-distinct xs))
  | inr new ↦
      let full : suc (length (distinct xs)) ≡ suc (length xs) = rw new at h in
      (sym (includes-distinct xs x) ∙ new, distinct_full xs (omega arith))
]

pub NoRepeat-full : (xs : List Text) → NoRepeat xs → length (distinct xs) ≡ length xs
unfolding distinct
NoRepeat-full [] h = refl
NoRepeat-full (x ∷ xs) h = rw (includes-distinct xs x ∙ h.0) (ap suc (NoRepeat-full xs h.1))

-- No mapping stands twice.
abbrev pub AreUnique : List ExposedTableMapping → Type 0
AreUnique [] = Unit
AreUnique (m ∷ ms) = (¬ Memᴰ m ms) × AreUnique ms

false_of : (b : Bool) → ¬ (b ≡ true) → b ≡ false
false_of true h = absurd (h refl)
false_of false h = refl

NoRepeat-AreUnique :
    (ms : List ExposedTableMapping) → NoRepeat (map exposed_set_key ms) → AreUnique ms
NoRepeat-AreUnique [] h = tt
NoRepeat-AreUnique (m ∷ ms) h =
    (λ again. cc (mem_includes m ms again, h.0), NoRepeat-AreUnique ms h.1)

AreUnique-NoRepeat :
    (ms : List ExposedTableMapping)
    → All IsPlainMapping ms
    → AreUnique ms
    → NoRepeat (map exposed_set_key ms)
AreUnique-NoRepeat [] p h = tt
AreUnique-NoRepeat (m ∷ ms) p h = (
  false_of (includes (map exposed_set_key ms) (exposed_set_key m))
      (λ again. h.0 (includes_mem m ms p.0 p.1 again)),
  AreUnique-NoRepeat ms p.1 h.1,
)

-- As many mappings, each of the exposed ones once, and among them each of the payload.
abbrev pub AreSame : List ExposedTableMapping → List ExposedTableMapping → Type 0
AreSame exposed payload =
    (length exposed ≡ length payload) × AreUnique exposed × All (λ m. Memᴰ m exposed) payload

module _ (exposed : List ExposedTableMapping) (plain : All IsPlainMapping exposed) where
  has_all_sound :
      (payload : List ExposedTableMapping)
      → All IsPlainMapping payload
      → has_all (distinct (map exposed_set_key exposed)) payload ≡ true
      → All (λ m. Memᴰ m exposed) payload
  unfolding has_all
  has_all_sound [] p h = tt
  has_all_sound (m ∷ ms) p h =
      let tests =
        &&-true (includes (distinct (map exposed_set_key exposed)) (exposed_set_key m)) _ h in
      (
        includes_mem m exposed p.0 plain
            (sym (includes-distinct (map exposed_set_key exposed) (exposed_set_key m)) ∙ tests.0),
        has_all_sound ms p.1 tests.1,
      )

  has_all_complete :
      (payload : List ExposedTableMapping)
      → All (λ m. Memᴰ m exposed) payload
      → has_all (distinct (map exposed_set_key exposed)) payload ≡ true
  unfolding has_all
  has_all_complete [] h = refl
  has_all_complete (m ∷ ms) h =
      rw
        (
          includes-distinct (map exposed_set_key exposed) (exposed_set_key m)
              ∙ mem_includes m exposed h.0,
          has_all_complete ms h.1,
        )
        refl

  sizes :
      (payload : List ExposedTableMapping)
      → exposed_sets_equal exposed payload ≡ true
      → (length exposed ≡ length payload)
        × (length (distinct (map exposed_set_key exposed)) ≡ length exposed)
        × (has_all (distinct (map exposed_set_key exposed)) payload ≡ true)
  unfolding exposed_sets_equal
  sizes payload h = ground arith

  -- Of mappings without NUL, the sets are equal to the code exactly where there are as many exposed
  -- mappings as in the payload, none of them twice, and each mapping of the payload is among them.
  pub exposed_sets_equal_iff :
      (payload : List ExposedTableMapping)
      → All IsPlainMapping payload
      → (exposed_sets_equal exposed payload ≡ true) ↔ AreSame exposed payload
  exposed_sets_equal_iff payload p = (
    λ h.
        let s = sizes payload h in
        (
          s.0,
          NoRepeat-AreUnique exposed (
              distinct_full (map exposed_set_key exposed)
                (s.1 ∙ sym (length-map exposed_set_key exposed))),
          has_all_sound payload p s.2,
        ),
    λ h.
        unfold exposed_sets_equal in
        rw
          (
            (==_iff (length exposed) (length payload)).1 h.0,
            (==_iff (length (distinct (map exposed_set_key exposed))) (length exposed)).1 (
                NoRepeat-full (map exposed_set_key exposed) (AreUnique-NoRepeat exposed plain h.1)
                ∙ length-map exposed_set_key exposed),
          )
          (has_all_complete payload h.2),
  )
