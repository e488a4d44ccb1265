-- ===== src/RateLimiter.antt =====
-- src/http/rate-limiter.ts: the bounded fixed-window limiter in front of the auth and admin
-- routes. The `Map` is the list of its entries in insertion order: writing a key that is present
-- keeps its place, a new key goes last. The clock `nowMs` is an argument of `check`.
mod Entries
mod Eviction
pub mod Bounds
pub mod Window
mod Tests
use micro_jbase.Base.{
  ℕ, ◌+◌, ◌-◌, ◌*◌, ◌/◌, Bool, true, false, not, ◌&&◌, Option, none, some, List, [], ◌∷◌, ltb, leb,
  if◌then◌else◌, length, keep, Text, text_eq,
}

pub record Entry : Type 0 where
  pub attempts : ℕ
  pub window_start : ℕ
  pub reset_at : ℕ

pub record RateLimitResult : Type 0 where
  pub allowed : Bool
  pub retry_after_seconds : ℕ
  pub state : Entry

abbrev pub Entries : Type 0
Entries = List (Text × Entry)

pub record Limiter : Type 0 where
  pub attempts_per_window : ℕ
  pub window_ms : ℕ
  pub max_entries : ℕ
  pub entries : Entries

-- this.state.get(key)
unfoldable pub lookup : Text → Entries → Option Entry
lookup k [] = none
lookup k ((j, e) ∷ m) = if text_eq j k then some e else lookup k m

-- this.state.has(key)
abbrev pub is_some : Option Entry → Bool
is_some none = false
is_some (some _) = true

-- this.state.set(key, entry)
unfoldable pub put : Text → Entry → Entries → Entries
put k e [] = (k, e) ∷ []
put k e ((j, f) ∷ m) = if text_eq j k then (j, e) ∷ m else (j, f) ∷ put k e m

-- this.state.delete(key)
unfoldable pub delete : Text → Entries → Entries
delete k [] = []
delete k ((j, f) ∷ m) = if text_eq j k then m else (j, f) ∷ delete k m

unfoldable pub evict_expired : ℕ → Entries → Entries
evict_expired now [] = []
evict_expired now ((k, e) ∷ m) =
    let rest = evict_expired now m in if leb e.reset_at now then rest else (k, e) ∷ rest

-- The loop of `evictOldest`: the key and the reset time of the oldest entry so far; `none` stands
-- for the initial null key and infinite time.
unfoldable pub oldest_from : Option (Text × ℕ) → Entries → Option (Text × ℕ)
oldest_from best [] = best
oldest_from none ((k, e) ∷ m) = oldest_from (some (k, e.reset_at)) m
oldest_from (some (b, t)) ((k, e) ∷ m) =
    oldest_from (if ltb e.reset_at t then some (k, e.reset_at) else some (b, t)) m

unfoldable pub evict_oldest : Entries → Entries
unfolding oldest_from
evict_oldest m = elim (oldest_from none m) [ none ↦ m | some (k, t) ↦ delete k m ]

unfoldable pub insert : Limiter → Text → Entry → Entries → Entries
insert l k e m =
    put k e
      (if leb l.max_entries (length m) && not (is_some (lookup k m)) then evict_oldest m else m)

abbrev pub fresh : Limiter → ℕ → Entry
fresh l now = record { attempts = 1; window_start = now; reset_at = now + l.window_ms }

abbrev pub accept : Entry → RateLimitResult
accept e = record { allowed = true; retry_after_seconds = 0; state = e }

-- Math.ceil(ms / 1000)
abbrev pub ceil_seconds : ℕ → ℕ
ceil_seconds ms = (ms + 999) / 1000

-- The body of `check` below `evictExpired`, on the map that it leaves.
unfoldable pub check_live : Limiter → Text → ℕ → Entries → Option Entry → Limiter × RateLimitResult
check_live l k now m none =
    (record l { entries = insert l k (fresh l now) m }, accept (fresh l now))
check_live l k now m (some e) =
    if leb e.reset_at now
    then (record l { entries = put k (fresh l now) m }, accept (fresh l now))
    else if leb l.attempts_per_window e.attempts
    then (
      record l { entries = m },
      record { allowed = false; retry_after_seconds = ceil_seconds (e.reset_at - now); state = e },
    )
    else let e' = record e { attempts = e.attempts + 1 } in
      (record l { entries = put k e' m }, accept e')

unfoldable pub check : Limiter → Text → ℕ → Limiter × RateLimitResult
check l k now = let m = evict_expired now l.entries in check_live l k now m (lookup k m)
