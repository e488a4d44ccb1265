-- ===== src/RateLimiter/Entries.antt =====
-- Laws of the limiter's map: the entries of src/http/rate-limiter.ts and their eviction.
use micro_jbase.Base.{
  ◌+◌, ◌≡◌, refl, inl, inr, true, false, none, some, [], ◌∷◌, arith, if◌then◌else◌, length, Text,
  text_eq, text_eq_iff, Bool-cases,
}
use micro_jbase.RateLimiter.{Entry, Entries, lookup, is_some, put, delete}

-- Each key stands once, as in a `Map`.
abbrev pub Unique : Entries → Type 0
Unique [] = Unit
Unique ((k, e) ∷ m) = (lookup k m ≡ none) × Unique m

pub lookup-put :
    (k j : Text) (e : Entry) (m : Entries)
    → lookup j (put k e m) ≡ (if text_eq k j then some e else lookup j m)
unfolding lookup put
lookup-put k j e [] = refl
lookup-put k j e ((i, f) ∷ m) =
    ground (arith, text_eq_iff k j, text_eq_iff i k, text_eq_iff i j, lookup-put k j e m)

pub length-put :
    (k : Text) (e : Entry) (m : Entries)
    → length (put k e m) ≡ (if is_some (lookup k m) then length m else length m + 1)
unfolding lookup put
length-put k e [] = omega arith
length-put k e ((i, f) ∷ m) = ground (arith, length-put k e m)

pub put-Unique : (k : Text) (e : Entry) (m : Entries) → Unique m → Unique (put k e m)
unfolding lookup put
put-Unique k e [] u = (refl, tt)
put-Unique k e ((i, f) ∷ m) u = elim (Bool-cases (text_eq i k)) [
  | inl same ↦ rw same (u.0, u.1)
  | inr other ↦
      rw other
        (ground (arith, lookup-put k i e m, text_eq_iff k i, text_eq_iff i k), put-Unique k e m u.1)
]

pub lookup-delete_ne :
    (k j : Text) (m : Entries) → text_eq k j ≡ false → lookup j (delete k m) ≡ lookup j m
unfolding lookup delete
lookup-delete_ne k j [] h = refl
lookup-delete_ne k j ((i, f) ∷ m) h =
    ground (arith, text_eq_iff i k, text_eq_iff i j, text_eq_iff k j, lookup-delete_ne k j m h)

pub delete-Unique : (k : Text) (m : Entries) → Unique m → Unique (delete k m)
unfolding lookup delete
delete-Unique k [] u = tt
delete-Unique k ((i, f) ∷ m) u = elim (Bool-cases (text_eq i k)) [
  | inl same ↦ rw same u.1
  | inr other ↦ rw other (
    ground (arith, lookup-delete_ne k i m, text_eq_iff k i, text_eq_iff i k, u.0),
    delete-Unique k m u.1,
  )
]

pub length-delete :
    (k : Text) (m : Entries) → is_some (lookup k m) ≡ true → length (delete k m) + 1 ≡ length m
unfolding lookup delete
length-delete k [] h = ground arith
length-delete k ((i, f) ∷ m) h = ground (arith, length-delete k m)
