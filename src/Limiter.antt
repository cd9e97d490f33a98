-- ===== src/Limiter.antt =====
-- The limit on the rate of requests: RateLimiter in internal/server/interceptors.go. Times are numbers
-- of nanoseconds.
use enxame.Base.{
  ℕ, ◌+◌, String, Bool, true, false, List, [], ◌∷◌, ◌++◌, Option, none, some, ltb, leb,
  if◌then◌else◌, length, filter_by,
}
use enxame.Base.Dict.{Dict, lookup, insert}
pub mod Window
mod Tests

pub record RateLimiter : Type 0 where
  pub requests : Dict (List ℕ)
  pub limit : ℕ
  pub window : ℕ

unfoldable pub new_rate_limiter : ℕ → ℕ → RateLimiter
new_rate_limiter limit window = record { requests = []; limit = limit; window = window }

-- t.After(now.Add(-window))
abbrev pub is_recent : ℕ → ℕ → ℕ → Bool
is_recent now window t = ltb now (t + window)

abbrev pub recent : ℕ → ℕ → List ℕ → List ℕ
recent now window = filter_by (is_recent now window)

-- A missing key is an empty slice.
abbrev pub or_empty : Option (List ℕ) → List ℕ
or_empty none = []
or_empty (some ts) = ts

abbrev pub times : String → RateLimiter → List ℕ
times key rl = or_empty (lookup key rl.requests)

unfoldable pub allow : ℕ → String → RateLimiter → Bool × RateLimiter
allow now key rl =
    let left = recent now rl.window (times key rl) in
    if leb rl.limit (length left)
    then (false, rl)
    else (true, record rl { requests = insert key (left ++ now ∷ []) rl.requests })

-- A key of which no request is left is deleted.
abbrev keep : String → List ℕ → Dict (List ℕ) → Dict (List ℕ)
keep key [] rest = rest
keep key (t ∷ ts) rest = (key, t ∷ ts) ∷ rest

unfoldable pub clean : ℕ → ℕ → Dict (List ℕ) → Dict (List ℕ)
clean now window [] = []
clean now window ((key, ts) ∷ rest) = keep key (recent now window ts) (clean now window rest)

-- One tick of cleanup.
unfoldable pub cleanup : ℕ → RateLimiter → RateLimiter
unfolding clean
cleanup now rl = record rl { requests = clean now rl.window rl.requests }
