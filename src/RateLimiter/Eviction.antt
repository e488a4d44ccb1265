-- ===== src/RateLimiter/Eviction.antt =====
-- What `evictExpired` and `evictOldest` of src/http/rate-limiter.ts leave in the map.
use mathlib.Core.Path.{subst}
use micro_jbase.Base.{
  ℕ, ◌+◌, ◌≤◌, ◌<◌, ◌≡◌, refl, ◌⊎◌, inl, inr, true, Option, none, some, [], ◌∷◌, arith, ltb, leb,
  if◌then◌else◌, length, All, Text, text_eq, text_eq_iff, text_eq_refl, Bool-cases,
}
use micro_jbase.RateLimiter.{
  Entry, Entries, lookup, is_some, put, delete, evict_expired, oldest_from, evict_oldest,
}
use micro_jbase.RateLimiter.Entries.{Unique, length-delete, delete-Unique}

-- `P` holds of each entry.
abbrev pub AllEntries : (Entry → Type 0) → Entries → Type 0
AllEntries P = All (λ (p : Text × Entry). P p.1)

module _ (P : Entry → Type 0) where
  pub put-AllEntries :
      (k : Text) (e : Entry) (m : Entries) → P e → AllEntries P m → AllEntries P (put k e m)
  unfolding put
  put-AllEntries k e [] p h = (p, tt)
  put-AllEntries k e ((i, f) ∷ m) p h = elim (Bool-cases (text_eq i k)) [
    | inl same ↦ rw same (p, h.1)
    | inr other ↦ rw other (h.0, put-AllEntries k e m p h.1)
  ]

  pub delete-AllEntries : (k : Text) (m : Entries) → AllEntries P m → AllEntries P (delete k m)
  unfolding delete
  delete-AllEntries k [] h = tt
  delete-AllEntries k ((i, f) ∷ m) h = elim (Bool-cases (text_eq i k)) [
    | inl same ↦ rw same h.1
    | inr other ↦ rw other (h.0, delete-AllEntries k m h.1)
  ]

  pub lookup-AllEntries :
      (k : Text) (m : Entries) (e : Entry) → AllEntries P m → lookup k m ≡ some e → P e
  unfolding lookup
  lookup-AllEntries k [] e h q = absurd (cc)
  lookup-AllEntries k ((i, f) ∷ m) e h q = elim (Bool-cases (text_eq i k)) [
    | inl same ↦ (let here : f ≡ e = ground arith in subst P here h.0)
    | inr other ↦ lookup-AllEntries k m e h.1 (ground arith)
  ]

  pub evict_expired-AllEntries :
      (now : ℕ) (m : Entries) → AllEntries P m → AllEntries P (evict_expired now m)
  unfolding evict_expired
  evict_expired-AllEntries now [] h = tt
  evict_expired-AllEntries now ((i, f) ∷ m) h = elim (Bool-cases (leb f.reset_at now)) [
    | inl over ↦ rw over (evict_expired-AllEntries now m h.1)
    | inr live ↦ rw live (h.0, evict_expired-AllEntries now m h.1)
  ]

abbrev pub IsLive : ℕ → Entry → Type 0
IsLive now e = now < e.reset_at

pub evict_expired-IsLive : (now : ℕ) (m : Entries) → AllEntries (IsLive now) (evict_expired now m)
unfolding evict_expired
evict_expired-IsLive now [] = tt
evict_expired-IsLive now ((i, f) ∷ m) = elim (Bool-cases (leb f.reset_at now)) [
  | inl over ↦ rw over (evict_expired-IsLive now m)
  | inr live ↦ rw live (ground arith, evict_expired-IsLive now m)
]

-- the entry that a lookup finds after the expired ones are gone
abbrev pub when_live : ℕ → Option Entry → Option Entry
when_live now none = none
when_live now (some e) = if leb e.reset_at now then none else some e

pub lookup-evict_expired :
    (k : Text) (now : ℕ) (m : Entries)
    → Unique m
    → lookup k (evict_expired now m) ≡ when_live now (lookup k m)
unfolding lookup evict_expired
lookup-evict_expired k now [] u = refl
lookup-evict_expired k now ((i, f) ∷ m) u =
    ground (arith, text_eq_iff i k, u.0, lookup-evict_expired k now m u.1)

pub evict_expired-Unique : (now : ℕ) (m : Entries) → Unique m → Unique (evict_expired now m)
unfolding evict_expired
evict_expired-Unique now [] u = tt
evict_expired-Unique now ((i, f) ∷ m) u = elim (Bool-cases (leb f.reset_at now)) [
  | inl over ↦ rw over (evict_expired-Unique now m u.1)
  | inr live ↦
      rw live
        (ground (arith, lookup-evict_expired i now m u.1, u.0), evict_expired-Unique now m u.1)
]

pub length-evict_expired : (now : ℕ) (m : Entries) → length (evict_expired now m) ≤ length m
unfolding evict_expired
length-evict_expired now [] = omega arith
length-evict_expired now ((i, f) ∷ m) = ground (arith, length-evict_expired now m)

-- the key that the loop ends with is in the map, or was there before it
oldest_from-present :
    (b : Text) (t : ℕ) (m : Entries) (k : Text) (u : ℕ)
    → oldest_from (some (b, t)) m ≡ some (k, u)
    → (k ≡ b) ⊎ (is_some (lookup k m) ≡ true)
unfolding oldest_from lookup
oldest_from-present b t [] k u h = inl (ground arith)
oldest_from-present b t ((i, f) ∷ m) k u h = elim (Bool-cases (ltb f.reset_at t)) [
  | inl older ↦
      ground (arith, oldest_from-present i f.reset_at m k u (rw older at h), text_eq_iff i k)
  | inr newer ↦ ground (arith, oldest_from-present b t m k u (rw newer at h))
]

-- nothing in the map, or before it, ends earlier than the entry that the loop ends with
oldest_from-least :
    (b : Text) (t : ℕ) (m : Entries) (k : Text) (u : ℕ)
    → oldest_from (some (b, t)) m ≡ some (k, u)
    → (u ≤ t) × AllEntries (λ e. u ≤ e.reset_at) m
unfolding oldest_from
oldest_from-least b t [] k u h = (ground arith, tt)
oldest_from-least b t ((i, f) ∷ m) k u h = elim (Bool-cases (ltb f.reset_at t)) [
  | inl older ↦
      (let r = oldest_from-least i f.reset_at m k u (rw older at h) in
        (ground arith, (ground arith, r.1)))
  | inr newer ↦ (let r = oldest_from-least b t m k u (rw newer at h) in (r.0, (ground arith, r.1)))
]

oldest_from-found :
    (b : Text) (t : ℕ) (m : Entries)
    → (k : Text) × (u : ℕ) × (oldest_from (some (b, t)) m ≡ some (k, u))
unfolding oldest_from
oldest_from-found b t [] = (b, t, refl)
oldest_from-found b t ((i, f) ∷ m) = elim (Bool-cases (ltb f.reset_at t)) [
  | inl older ↦ rw older (oldest_from-found i f.reset_at m)
  | inr newer ↦ rw newer (oldest_from-found b t m)
]

-- In a map that is not empty, `evictOldest` deletes a key of the map whose entry ends first.
evict_oldest_lem :
    (m : Entries)
    → 0 < length m
    → (k : Text) × (u : ℕ) × (is_some (lookup k m) ≡ true)
      × (evict_oldest m ≡ delete k m)
      × AllEntries (λ e. u ≤ e.reset_at) m
unfolding evict_oldest lookup
evict_oldest_lem [] h = absurd (omega arith)
evict_oldest_lem ((i, f) ∷ m) h =
    let (k, u, found) = oldest_from-found i f.reset_at m in
    let least = oldest_from-least i f.reset_at m k u found in
    (
      k,
      u,
      ground (arith, oldest_from-present i f.reset_at m k u found, text_eq_refl i),
      rw (found, evict_oldest) refl,
      least,
    )

pub length-evict_oldest : (m : Entries) → 0 < length m → length (evict_oldest m) + 1 ≡ length m
length-evict_oldest m h =
    let (k, u, there, same, least) = evict_oldest_lem m h in rw same (length-delete k m there)

pub evict_oldest-AllEntries :
    (P : Entry → Type 0) (m : Entries) → AllEntries P m → AllEntries P (evict_oldest m)
unfolding evict_oldest
evict_oldest-AllEntries P [] h = tt
evict_oldest-AllEntries P (p ∷ m) h =
    let (k, u, there, same, least) = evict_oldest_lem (p ∷ m) (omega arith) in
    rw same (delete-AllEntries P k (p ∷ m) h)

pub evict_oldest-Unique : (m : Entries) → Unique m → Unique (evict_oldest m)
unfolding evict_oldest
evict_oldest-Unique [] u = tt
evict_oldest-Unique (p ∷ m) u =
    let (k, t, there, same, least) = evict_oldest_lem (p ∷ m) (omega arith) in
    rw same (delete-Unique k (p ∷ m) u)
