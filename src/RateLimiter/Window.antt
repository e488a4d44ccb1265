-- ===== src/RateLimiter/Window.antt =====
-- What a client of src/http/rate-limiter.ts sees: which attempts are allowed, how many in one
-- window, and when a refused client may come back.
use mathlib.Core.Path.{subst}
use micro_jbase.Base.{
  ℕ, suc, ◌+◌, ◌*◌, ◌-◌, ◌≤◌, ◌<◌, ◌≡◌, refl, inl, inr, Bool, true, false, Option, none, some, List,
  [], ◌∷◌, arith, leb, ltb, if◌then◌else◌, length, All, Text, text_eq, text_eq_iff, text_eq→eq,
  text_eq_refl, Bool-cases, ◌&&◌,
}
use micro_jbase.RateLimiter.{
  Entry, Entries, Limiter, RateLimitResult, lookup, evict_expired, insert, fresh, accept,
  ceil_seconds, check_live, check,
}
use micro_jbase.RateLimiter.Entries.{Unique, length-put, lookup-put, put-Unique}
use micro_jbase.RateLimiter.Eviction.{
  when_live, lookup-evict_expired, evict_expired-Unique, length-evict_expired,
}
use micro_jbase.RateLimiter.Bounds.{insert-Unique}
use micro_jbase.Base.{if_ind, ◌-◌, min, max}

-- The decision, from the live entry of the key alone. There is no branch for a window that has
-- rolled over: an entry that has ended was evicted before it is looked up.
pub decide : Limiter → ℕ → Option Entry → RateLimitResult
decide l now none = accept (fresh l now)
decide l now (some e) =
    if leb l.attempts_per_window e.attempts
    then record {
      allowed = false;
      retry_after_seconds = ceil_seconds (e.reset_at - now);
      state = e;
    }
    else accept (record e { attempts = e.attempts + 1 })

-- The result of `check` is the decision on the key's entry if that is still live at this time,
-- whatever else the map holds. The keys are distinct.
pub check-decide :
    (l : Limiter) (k : Text) (now : ℕ)
    → Unique l.entries
    → (check l k now).1 ≡ decide l now (when_live now (lookup k l.entries))
unfolding check check_live decide
check-decide l k now u = ground (arith, lookup-evict_expired k now l.entries u)

lookup-check_live :
    (l : Limiter) (k j : Text) (now : ℕ) (m : Entries) (o : Option Entry)
    → lookup k m ≡ o
    → length m < l.max_entries
    → lookup j (check_live l k now m o).0.entries
      ≡ (if text_eq k j then some (check_live l k now m o).1.state else lookup j m)
unfolding check_live insert
lookup-check_live l k j now m none h room = ground (arith, lookup-put k j (fresh l now) m)
lookup-check_live l k j now m (some e) h room = ground (
  arith,
  text_eq_iff k j,
  lookup-put k j (fresh l now) m,
  lookup-put k j (record e { attempts = e.attempts + 1 }) m,
)

length-check_live :
    (l : Limiter) (k : Text) (now : ℕ) (m : Entries) (o : Option Entry)
    → lookup k m ≡ o
    → length m < l.max_entries
    → length (check_live l k now m o).0.entries ≤ length m + 1
unfolding check_live insert
length-check_live l k now m none h room = ground (arith, length-put k (fresh l now) m)
length-check_live l k now m (some e) h room =
    ground
      (arith, length-put k (fresh l now) m, length-put k (record e { attempts = e.attempts + 1 }) m)

module _ (l : Limiter) (k : Text) (now : ℕ) (room : length l.entries < l.max_entries) where
  length-check : length (check l k now).0.entries ≤ length l.entries + 1
  unfolding check
  length-check =
      let shorter = length-evict_expired now l.entries in
      omega (
        arith,
        shorter,
        length-check_live l k now (evict_expired now l.entries) _ refl (omega (arith, shorter)),
      )

  -- With room in the map, `check` changes the entry of its own key only, up to entries that have
  -- ended; the own entry becomes the one that the result reports.
  lookup-check :
      (j : Text)
      → Unique l.entries
      → lookup j (check l k now).0.entries
        ≡ (if text_eq k j then some (check l k now).1.state else when_live now (lookup j l.entries))
  unfolding check
  lookup-check j u = rw (← lookup-evict_expired j now l.entries u) (
      lookup-check_live l k j now (evict_expired now l.entries) _ refl
        (omega (arith, length-evict_expired now l.entries)))

-- The limiter after a sequence of calls `check(key)` at given times, with the number of calls for
-- the key `k` that it allowed.
abbrev pub Calls : Type 0
Calls = List (Text × ℕ)

abbrev pub tally : Bool → ℕ
tally b = if b then 1 else 0

unfoldable pub allowed_calls : Text → Limiter → Calls → ℕ
allowed_calls k l [] = 0
allowed_calls k l ((j, now) ∷ calls) =
    tally (text_eq j k && (check l j now).1.allowed) + allowed_calls k (check l j now).0 calls

unfoldable pub calls_of : Text → Calls → ℕ
calls_of k [] = 0
calls_of k ((j, now) ∷ calls) = tally (text_eq j k) + calls_of k calls

check_live-Unique :
    (l : Limiter) (k : Text) (now : ℕ) (m : Entries) (o : Option Entry)
    → Unique m
    → Unique (check_live l k now m o).0.entries
unfolding check_live
check_live-Unique l k now m none u = insert-Unique l k (fresh l now) m u
check_live-Unique l k now m (some e) u =
    if_ind P (leb e.reset_at now) (put-Unique k (fresh l now) m u) (
      if_ind P (leb l.attempts_per_window e.attempts) u
        (put-Unique k (record e { attempts = e.attempts + 1 }) m u))
  where
    P : Limiter × RateLimitResult → Type 0
    P r = Unique r.0.entries

check-Unique :
    (l : Limiter) (k : Text) (now : ℕ) → Unique l.entries → Unique (check l k now).0.entries
unfolding check
check-Unique l k now u = check_live-Unique l k now _ _ (evict_expired-Unique now l.entries u)

-- `check` leaves the limits alone.
check_limits :
    (l : Limiter) (k : Text) (now : ℕ)
    → ((check l k now).0.max_entries ≡ l.max_entries)
      × ((check l k now).0.attempts_per_window ≡ l.attempts_per_window)
      × ((check l k now).0.window_ms ≡ l.window_ms)
unfolding check check_live
check_limits l k now = ground arith

-- the step of the counting below: the answer to the key itself, and the entry that is left
check_own :
    (l : Limiter) (k : Text) (now : ℕ) (e : Entry)
    → Unique l.entries
    → length l.entries < l.max_entries
    → lookup k l.entries ≡ some e
    → now < e.reset_at
    → let e' =
        (if leb l.attempts_per_window e.attempts
          then e
          else record e { attempts = e.attempts + 1 }) in
      ((check l k now).1.allowed ≡ ltb e.attempts l.attempts_per_window)
      × (lookup k (check l k now).0.entries ≡ some e')
check_own l k now e u room found live = (
  unfold decide in ground (arith, check-decide l k now u),
  unfold decide in
      ground (arith, check-decide l k now u, lookup-check l k now room k u, text_eq_refl k),
)

check_other :
    (l : Limiter) (j k : Text) (now : ℕ) (e : Entry)
    → text_eq j k ≡ false
    → Unique l.entries
    → length l.entries < l.max_entries
    → lookup k l.entries ≡ some e
    → now < e.reset_at
    → lookup k (check l j now).0.entries ≡ some e
check_other l j k now e other u room found live = ground (arith, lookup-check l j now room k u)

-- From a live counter on, as many calls for the key are allowed as the limit leaves.
counted :
    (k : Text) (l : Limiter) (e : Entry) (calls : Calls)
    → Unique l.entries
    → lookup k l.entries ≡ some e
    → All (λ c. c.1 < e.reset_at) calls
    → length l.entries + length calls ≤ l.max_entries
    → allowed_calls k l calls ≡ min (calls_of k calls) (l.attempts_per_window - e.attempts)
unfolding allowed_calls calls_of
counted k l e [] u found times room = omega arith
counted k l e ((j, now) ∷ calls) u found times room = elim (Bool-cases (text_eq j k)) [
  | inl own ↦
      (let same = text_eq→eq j k own in
        let step = check_own l j now e u (omega arith) (rw same found) times.0 in
        let left = check_limits l j now in
        let rest =
          λ (e' : Entry) (q : lookup j (check l j now).0.entries ≡ some e')
              (t : All (λ (c : Text × ℕ). c.1 < e'.reset_at) calls).
            counted k (check l j now).0 e' calls (check-Unique l j now u)
              (subst (λ x. lookup x (check l j now).0.entries ≡ some e') same q) t
              (omega (arith, length-check l j now (omega arith), left)) in
        elim (Bool-cases (leb l.attempts_per_window e.attempts)) [
          | inl full ↦ ground (arith, own, full, step.0, left.1, rest e (rw full at step.1) times.1)
          | inr free ↦ ground (
            arith,
            own,
            free,
            step.0,
            left.1,
            rest (record e { attempts = e.attempts + 1 }) (rw free at step.1) times.1,
          )
        ])
  | inr other ↦ ground (
    arith,
    other,
    check_limits l j now,
    counted k (check l j now).0 e calls (check-Unique l j now u)
        (check_other l j k now e other u (omega arith) found times.0) times.1
        (omega (arith, length-check l j now (omega arith), check_limits l j now)),
  )
]

-- the first call is allowed, and of the later ones as many as the limit leaves
first_and_later :
    (l : Limiter) (k : Text) (now : ℕ) (calls : Calls)
    → Unique l.entries
    → when_live now (lookup k l.entries) ≡ none
    → All (λ c. c.1 < now + l.window_ms) calls
    → length l.entries + suc (length calls) ≤ l.max_entries
    → allowed_calls k l ((k, now) ∷ calls) ≡ 1 + min (calls_of k calls) (l.attempts_per_window - 1)
unfolding allowed_calls decide
first_and_later l k now calls u new times room =
    let same = check-decide l k now u in
    let left = check_limits l k now in
    ground (
      arith,
      text_eq_refl k,
      same,
      left.1,
      counted k (check l k now).0 (fresh l now) calls (check-Unique l k now u)
          (ground (arith, same, text_eq_refl k, lookup-check l k now (omega arith) k u)) times
          (omega (arith, length-check l k now (omega arith), left)),
    )

-- In a map with distinct keys, a client with no live counter makes a call, and then `calls` arrive, from it and
-- from others, all before its window ends and within the capacity of the map. Of the client's calls as many are
-- allowed as there are, but at most the limit, where a limit of 0 counts as 1.
pub window_limit :
    (l : Limiter) (k : Text) (now : ℕ) (calls : Calls)
    → Unique l.entries
    → when_live now (lookup k l.entries) ≡ none
    → All (λ c. c.1 < now + l.window_ms) calls
    → length l.entries + suc (length calls) ≤ l.max_entries
    → allowed_calls k l ((k, now) ∷ calls)
      ≡ min (calls_of k ((k, now) ∷ calls)) (max 1 l.attempts_per_window)
window_limit l k now calls u new times room =
    let counts : calls_of k ((k, now) ∷ calls) ≡ 1 + calls_of k calls =
      unfold calls_of in rw (text_eq_refl k) refl in
    omega (arith, first_and_later l k now calls u new times room, counts)

-- a refusal leaves the counter in the map, and reports it with the seconds that it has left
check_live_refused :
    (l : Limiter) (k : Text) (now : ℕ) (m : Entries) (o : Option Entry)
    → lookup k m ≡ o
    → (check_live l k now m o).1.allowed ≡ false
    → (lookup k (check_live l k now m o).0.entries ≡ some (check_live l k now m o).1.state)
      × ((check_live l k now m o).1.retry_after_seconds
          ≡ ceil_seconds ((check_live l k now m o).1.state.reset_at - now))
unfolding check_live
check_live_refused l k now m none found refused = absurd (cc)
check_live_refused l k now m (some e) found refused = (ground arith, ground arith)

check_refused :
    (l : Limiter) (k : Text) (now : ℕ)
    → Unique l.entries
    → (check l k now).1.allowed ≡ false
    → (lookup k (check l k now).0.entries ≡ some (check l k now).1.state)
      × ((check l k now).1.retry_after_seconds
          ≡ ceil_seconds ((check l k now).1.state.reset_at - now))
unfolding check
check_refused l k now u refused = check_live_refused l k now _ _ refl refused

check_refused_live :
    (l : Limiter) (k : Text) (now : ℕ)
    → Unique l.entries
    → (check l k now).1.allowed ≡ false
    → now < (check l k now).1.state.reset_at
unfolding decide
check_refused_live l k now u refused = ground (arith, check-decide l k now u)

-- The answer to a refused call names a wait of at least one second, and a call of the same client
-- after that wait is allowed, if no other call comes between.
pub retry_after_suffices :
    (l : Limiter) (k : Text) (now : ℕ)
    → Unique l.entries
    → (check l k now).1.allowed ≡ false
    → let (l', r) = check l k now in
      (1 ≤ r.retry_after_seconds)
      × ((check l' k (now + 1000 * r.retry_after_seconds)).1.allowed ≡ true)
retry_after_suffices l k now u refused =
    let (held, wait) = check_refused l k now u refused in
    let live = check_refused_live l k now u refused in
    let again = now + 1000 * (check l k now).1.retry_after_seconds in
    let over : (check l k now).1.state.reset_at ≤ again = omega (arith, wait, live) in
    (
      omega (arith, wait, live),
      unfold decide in
          ground
            (arith, check-decide (check l k now).0 k again (check-Unique l k now u), held, over),
    )
