-- ===== src/RateLimit.antt =====
-- backend/app/middleware/rate_limit.py: how many requests an address may make in a window of time.
-- Addresses are numbers and times are ticks of the clock. The dict from addresses to the times of
-- their requests is a list of pairs.
pub mod Window
pub mod Bound
pub mod Limit
mod Tests
use k_aikei.Prelude.{
  ℕ, ◌+◌, Bool, true, false, not, ◌&&◌, ◌||◌, List, [], ◌∷◌, ◌++◌, leb, ltb, ◌==◌, length, keep_if,
  if◌then◌else◌,
}

-- the settings of the middleware
pub record Limits : Type 0 where
  pub max_requests : ℕ
  pub window : ℕ
  pub max_tracked_keys : ℕ

abbrev pub Requests : Type 0
Requests = List (ℕ × List ℕ)

-- `self._requests.get(key, [])`
unfoldable pub times_of : ℕ → Requests → List ℕ
times_of key [] = []
times_of key ((k, ts) ∷ rest) = if k == key then ts else times_of key rest

-- `del self._requests[key]`
unfoldable pub forget : ℕ → Requests → Requests
forget key [] = []
forget key ((k, ts) ∷ rest) = if k == key then forget key rest else (k, ts) ∷ forget key rest

-- `self._requests[key] = times`
abbrev pub put : ℕ → List ℕ → Requests → Requests
put key ts requests = (key, ts) ∷ forget key requests

-- `t > now - window_seconds`
abbrev pub is_recent : ℕ → ℕ → ℕ → Bool
is_recent window now t = ltb now (t + window)

abbrev pub recent : ℕ → ℕ → List ℕ → List ℕ
recent window now ts = keep_if (is_recent window now) ts

abbrev pub put_or_forget : ℕ → List ℕ → Requests → Requests
put_or_forget key [] requests = forget key requests
put_or_forget key (t ∷ ts) requests = put key (t ∷ ts) requests

-- `_cleanup`
unfoldable pub cleanup : ℕ → ℕ → ℕ → Requests → Requests
cleanup window now key requests =
    put_or_forget key (recent window now (times_of key requests)) requests

-- `not times or times[-1] <= cutoff`
unfoldable pub is_stale : ℕ → ℕ → List ℕ → Bool
is_stale window now [] = true
is_stale window now (t ∷ []) = not (is_recent window now t)
is_stale window now (t ∷ u ∷ ts) = is_stale window now (u ∷ ts)

unfoldable pub drop_stale : ℕ → ℕ → Requests → Requests
drop_stale window now [] = []
drop_stale window now ((k, ts) ∷ rest) =
    if is_stale window now ts
    then drop_stale window now rest
    else (k, ts) ∷ drop_stale window now rest

-- `_evict_stale`
unfoldable pub evict_stale : Limits → ℕ → Requests → Requests
evict_stale l now requests =
    if leb (length requests) l.max_tracked_keys then requests else drop_stale l.window now requests

-- the last part of `dispatch`: whether the request is passed on, and the table
unfoldable pub admit : Limits → ℕ → ℕ → Requests → Bool × Requests
admit l now key requests =
    let times = times_of key requests in
    if leb l.max_requests (length times)
    then (false, requests)
    else (true, put key (times ++ now ∷ []) requests)

-- `dispatch` of a request from `key` at `now`, to a path that is not skipped
unfoldable pub dispatch : Limits → ℕ → ℕ → Requests → Bool × Requests
dispatch l now key requests =
    admit l now key (cleanup l.window now key (evict_stale l now requests))
