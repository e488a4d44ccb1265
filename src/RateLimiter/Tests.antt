-- ===== src/RateLimiter/Tests.antt =====
-- Tests of the limiter, and its theorems at concrete inputs.
use micro_jbase.Base.{◌+◌, ◌*◌, ◌≡◌, ◌≤◌, refl, arith, true, [], ◌∷◌, min, max, Text, text_eq}
use micro_jbase.RateLimiter.{Limiter, lookup, check, check_live, evict_expired}
use micro_jbase.RateLimiter.Eviction.{when_live}
use micro_jbase.RateLimiter.Bounds.{IsValid, check-IsValid}
use micro_jbase.RateLimiter.Window.{
  decide, check-decide, allowed_calls, calls_of, window_limit, retry_after_suffices,
}

abbrev key_a : Text
key_a = b'a' ∷ []

abbrev key_b : Text
key_b = b'b' ∷ []

-- two attempts in a window of a second, for at most ten clients
abbrev idle : Limiter
idle = record { attempts_per_window = 2; window_ms = 1000; max_entries = 10; entries = [] }

-- client `a` has used up its attempts
abbrev spent : Limiter
spent = record idle {
  entries = (key_a, record { attempts = 2; window_start = 5; reset_at = 1005 }) ∷ [];
}

check-IsValid_example : IsValid (check idle key_a 5).0
check-IsValid_example =
    check-IsValid idle key_a 5 (omega arith)
      (record { bounded = omega arith; unique = tt; counters = tt })

check-decide_example :
    (check spent key_a 10).1 ≡ decide spent 10 (when_live 10 (lookup key_a spent.entries))
unfolding lookup
check-decide_example = check-decide spent key_a 10 (refl, tt)

window_limit_example :
    allowed_calls key_a idle ((key_a, 5) ∷ (key_b, 6) ∷ (key_a, 7) ∷ (key_a, 8) ∷ [])
    ≡ min (calls_of key_a ((key_a, 5) ∷ (key_b, 6) ∷ (key_a, 7) ∷ (key_a, 8) ∷ [])) (max 1 2)
unfolding lookup
window_limit_example =
    window_limit idle key_a 5 ((key_b, 6) ∷ (key_a, 7) ∷ (key_a, 8) ∷ []) tt refl
      (omega arith, (omega arith, (omega arith, tt))) (omega arith)

retry_after_suffices_example :
    let (l', r) = check spent key_a 10 in
    (1 ≤ r.retry_after_seconds)
    × ((check l' key_a (10 + 1000 * r.retry_after_seconds)).1.allowed ≡ true)
unfolding lookup check check_live evict_expired text_eq
retry_after_suffices_example = retry_after_suffices spent key_a 10 (refl, tt) refl
