-- ===== src/Limiter/Tests.antt =====
-- A limiter of two requests in a hundred nanoseconds.
use enxame.Base.{◌≤◌, ◌≡◌, refl, false, List, [], ◌∷◌, arith}
use enxame.Base.Dict.{lookup, insert}
use enxame.Limiter.{new_rate_limiter, allow, cleanup, clean}
use enxame.Limiter.Window.{
  Event, asks, cleans, run, step, grant, granted, count, allow_lem, granted_bound,
}

abbrev events : List Event
events = asks 10 "a" ∷ asks 20 "b" ∷ asks 30 "a" ∷ asks 40 "a" ∷ cleans 115 ∷ asks 120 "a" ∷ []

granted_test : granted "a" (new_rate_limiter 2 100) events ≡ 10 ∷ 30 ∷ 120 ∷ []
unfolding granted grant new_rate_limiter allow cleanup clean step lookup insert
granted_test = refl

allow_lem_example : (allow 125 "a" (run (new_rate_limiter 2 100) events)).0 ≡ false
unfolding granted grant new_rate_limiter allow cleanup clean step lookup insert
allow_lem_example =
    allow_lem 2 100 "a" events 125
      (omega arith, (omega arith, (omega arith, (omega arith, (omega arith, (omega arith, tt))))))

granted_bound_example : count 125 100 (granted "a" (new_rate_limiter 2 100) events) ≤ 2
granted_bound_example =
    granted_bound 2 100 "a" events 125
      (omega arith, (omega arith, (omega arith, (omega arith, (omega arith, (omega arith, tt))))))
