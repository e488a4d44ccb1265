-- ===== src/RateLimiter/Bounds.antt =====
-- The bounds that src/http/rate-limiter.ts promises: a map with room never outgrows `maxEntries`, and no
-- counter passes the limit of attempts, where a limit of 0 counts as 1.
use micro_jbase.Base.{
  ℕ, ◌+◌, ◌≤◌, ◌≡◌, refl, inl, inr, Option, none, some, arith, leb, length, Text, Bool-cases,
  if_ind, Option-cases, max,
}
use micro_jbase.RateLimiter.{
  Entry, Entries, Limiter, lookup, put, evict_expired, evict_oldest, insert, fresh, check_live,
  check,
}
use micro_jbase.RateLimiter.Entries.{Unique, length-put, put-Unique}
use micro_jbase.RateLimiter.Eviction.{
  AllEntries, put-AllEntries, lookup-AllEntries, evict_expired-AllEntries, evict_expired-Unique,
  length-evict_expired, length-evict_oldest, evict_oldest-AllEntries, evict_oldest-Unique,
}

-- A counter that has begun, is within the limit, and ends one window after it began.
pub record IsCounter (limit window : ℕ) (e : Entry) : Type 0 where
  pub begun : 1 ≤ e.attempts
  pub within : e.attempts ≤ max 1 limit
  pub ends : e.reset_at ≡ e.window_start + window

pub record IsValid (l : Limiter) : Type 0 where
  pub bounded : length l.entries ≤ l.max_entries
  pub unique : Unique l.entries
  pub counters : AllEntries (IsCounter l.attempts_per_window l.window_ms) l.entries

module _ (l : Limiter) (k : Text) (e : Entry) (m : Entries) where
  pub length-insert :
      1 ≤ l.max_entries → length m ≤ l.max_entries → length (insert l k e m) ≤ l.max_entries
  unfolding insert
  length-insert p h = elim (Option-cases (lookup k m)) [
    | inl absent ↦ elim (Bool-cases (leb l.max_entries (length m))) [
      | inl full ↦ ground (arith, length-put k e (evict_oldest m), length-evict_oldest m)
      | inr room ↦ ground (arith, length-put k e m)
    ]
    | inr (f, present) ↦ ground (arith, length-put k e m)
  ]

  pub insert-Unique : Unique m → Unique (insert l k e m)
  unfolding insert
  insert-Unique u = put-Unique k e _ (if_ind Unique _ (evict_oldest-Unique m u) u)

  pub insert-AllEntries :
      (P : Entry → Type 0) → P e → AllEntries P m → AllEntries P (insert l k e m)
  unfolding insert
  insert-AllEntries P p h =
      put-AllEntries P k e _ p (if_ind (AllEntries P) _ (evict_oldest-AllEntries P m h) h)

module _ (l : Limiter) (k : Text) (now : ℕ) (m : Entries) where
  fresh-IsCounter : IsCounter l.attempts_per_window l.window_ms (fresh l now)
  fresh-IsCounter = omega arith

  -- the body of `check` below `evictExpired`
  check_live-IsValid :
      1 ≤ l.max_entries
      → IsValid (record l { entries = m })
      → IsValid (check_live l k now m (lookup k m)).0
  unfolding check_live
  check_live-IsValid p v = go (lookup k m) refl
    where
      go : (o : Option Entry) → lookup k m ≡ o → IsValid (check_live l k now m o).0
      go none absent = record {
        bounded = length-insert l k (fresh l now) m p v.bounded;
        unique = insert-Unique l k (fresh l now) m v.unique;
        counters = insert-AllEntries l k (fresh l now) m _ fresh-IsCounter v.counters;
      }
      go (some e) present =
          let counter = lookup-AllEntries _ k m e v.counters present in
          let keeps = λ (e' : Entry) (good : IsCounter l.attempts_per_window l.window_ms e').
            let w : IsValid (record l { entries = put k e' m }) = record {
              bounded = ground (arith, length-put k e' m, v.bounded);
              unique = put-Unique k e' m v.unique;
              counters = put-AllEntries _ k e' m good v.counters;
            } in
            w in
          elim (Bool-cases (leb e.reset_at now)) [
            | inl over ↦ rw over (keeps (fresh l now) fresh-IsCounter)
            | inr live ↦ elim (Bool-cases (leb l.attempts_per_window e.attempts)) [
              | inl full ↦ rw (live, full) v
              | inr room ↦
                  rw (live, room)
                    (keeps (record e { attempts = e.attempts + 1 }) (ground (arith, counter)))
            ]
          ]

-- Where maxEntries is at least 1 and the limiter is valid, `check` leaves it valid, whatever the key and the
-- time: the map is within maxEntries, its keys are distinct, and each counter is positive, within the limit of
-- attempts, where a limit of 0 counts as 1, and ends one window after it began.
pub check-IsValid :
    (l : Limiter) (k : Text) (now : ℕ) → 1 ≤ l.max_entries → IsValid l → IsValid (check l k now).0
unfolding check
check-IsValid l k now p v = check_live-IsValid l k now (evict_expired now l.entries) p (record {
  bounded = omega (arith, length-evict_expired now l.entries, v.bounded);
  unique = evict_expired-Unique now l.entries v.unique;
  counters = evict_expired-AllEntries _ now l.entries v.counters;
})
