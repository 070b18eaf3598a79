-- ===== src/RateLimit/Tests.antt =====
-- Tests and witnesses for backend/app/middleware/rate_limit.py.
use k_aikei.Prelude.{◌≤◌, ◌≡◌, refl, true, false, [], ◌∷◌, arith}
use k_aikei.RateLimit.{
  Limits, Requests, times_of, forget, cleanup, is_stale, drop_stale, evict_stale, admit, dispatch,
}
use k_aikei.RateLimit.Window.{passed}
use k_aikei.RateLimit.Limit.{Served, begins, serves, Served-within_limit}

abbrev two_a_minute : Limits
two_a_minute = record { max_requests = 2; window = 60; max_tracked_keys = 1 }

abbrev full : Requests
full = (7, 10 ∷ 20 ∷ []) ∷ []

third_refused : dispatch two_a_minute 30 7 full ≡ (false, full)
unfolding dispatch evict_stale cleanup times_of forget admit
third_refused = refl

later_passed : dispatch two_a_minute 75 7 full ≡ (true, (7, 20 ∷ 75 ∷ []) ∷ [])
unfolding dispatch evict_stale cleanup times_of forget admit
later_passed = refl

others_dropped : dispatch two_a_minute 200 9 ((8, 100 ∷ []) ∷ full) ≡ (true, (9, 200 ∷ []) ∷ [])
unfolding dispatch evict_stale drop_stale is_stale cleanup times_of forget admit
others_dropped = refl

history : Served two_a_minute 30 full ((7, 20) ∷ (7, 10) ∷ [])
unfolding dispatch evict_stale cleanup times_of forget admit
history = serves 30 7 (serves 20 7 (serves 10 7 begins (omega arith)) (omega arith)) (omega arith)

Served-within_limit_example : passed 60 40 7 ((7, 20) ∷ (7, 10) ∷ []) ≤ 2
Served-within_limit_example = Served-within_limit two_a_minute history 7 40 (omega arith)
