-- ===== src/Limiter/Window.antt =====
-- The limiter against the window of time that it stands for.
use enxame.Base.{
  ℕ, ◌+◌, ◌≤◌, String, ◌≡◌, refl, subst, ◌∙◌, false, ◌&&◌, List, [], ◌∷◌, ◌++◌, arith, eq_iff, ltb,
  leb, if◌then◌else◌, length, length-append, All, Bool-cases, inl, inr,
}
use enxame.Base.Text.{◌==◌}
use enxame.Base.Dict.{Dict, lookup, has, Distinct, lookup-insert, insert-Distinct}
use enxame.Limiter.{
  RateLimiter, new_rate_limiter, recent, or_empty, times, allow, keep, clean, cleanup,
}

-- How many of the times lie in the window that ends now.
abbrev pub count : ℕ → ℕ → List ℕ → ℕ
count now window ts = length (recent now window ts)

count-append :
    (now w : ℕ) (xs ys : List ℕ) → count now w (xs ++ ys) ≡ count now w xs + count now w ys
count-append now w [] ys = omega arith
count-append now w (x ∷ xs) ys = ground (arith, count-append now w xs ys)

count-recent :
    (now later w : ℕ) (xs : List ℕ)
    → now ≤ later
    → count later w (recent now w xs) ≡ count later w xs
count-recent now later w [] h = refl
count-recent now later w (x ∷ xs) h = ground (arith, count-recent now later w xs h)

count_bound : (now w : ℕ) (xs : List ℕ) → count now w xs ≤ length xs
count_bound now w [] = omega arith
count_bound now w (x ∷ xs) = ground (arith, count_bound now w xs)

has-keep :
    (j key : String) (left : List ℕ) (d : Dict (List ℕ))
    → (j == key) ≡ false
    → has key d ≡ false
    → has key (keep j left d) ≡ false
unfolding lookup
has-keep j key [] d e h = h
has-keep j key (t ∷ left) d e h = ground (arith, e, h)

has-clean :
    (now w : ℕ) (key : String) (d : Dict (List ℕ))
    → has key d ≡ false
    → has key (clean now w d) ≡ false
unfolding clean lookup
has-clean now w key [] h = refl
has-clean now w key ((j, ts) ∷ d) h =
    has-keep j key (recent now w ts) (clean now w d) (ground (arith, h))
      (has-clean now w key d (ground (arith, h)))

keep-Distinct :
    (j : String) (left : List ℕ) (d : Dict (List ℕ))
    → has j d ≡ false
    → Distinct d
    → Distinct (keep j left d)
keep-Distinct j [] d h v = v
keep-Distinct j (t ∷ left) d h v = (h, v)

clean-Distinct : (now w : ℕ) (d : Dict (List ℕ)) → Distinct d → Distinct (clean now w d)
unfolding clean
clean-Distinct now w [] h = tt
clean-Distinct now w ((j, ts) ∷ d) h =
    keep-Distinct j (recent now w ts) (clean now w d) (has-clean now w j d h.0)
      (clean-Distinct now w d h.1)

lookup-keep :
    (j key : String) (left : List ℕ) (d : Dict (List ℕ))
    → has j d ≡ false
    → or_empty (lookup key (keep j left d)) ≡ (if j == key then left else or_empty (lookup key d))
unfolding lookup
lookup-keep j key [] d h = ground (arith, h, eq_iff j key)
lookup-keep j key (t ∷ left) d h = ground arith

-- Cleaning keeps the recent times of each key.
lookup-clean :
    (now w : ℕ) (key : String) (d : Dict (List ℕ))
    → Distinct d
    → or_empty (lookup key (clean now w d)) ≡ recent now w (or_empty (lookup key d))
unfolding clean lookup
lookup-clean now w key [] h = refl
lookup-clean now w key ((j, ts) ∷ d) h =
    rw (lookup-keep j key (recent now w ts) (clean now w d) (has-clean now w j d h.0))
      (elim (Bool-cases (j == key)) [
        | inl same ↦ rw same refl
        | inr other ↦ rw other (lookup-clean now w key d h.1)
      ])

-- What happens to a limiter: a request at a time, or a tick of the cleanup.
pub data Event : Type 0 where
  asks : ℕ → String → Event
  cleans : ℕ → Event

abbrev pub at : Event → ℕ
at (asks now key) = now
at (cleans now) = now

abbrev pub NotAfter : ℕ → Event → Type 0
NotAfter now e = at e ≤ now

unfoldable pub step : RateLimiter → Event → RateLimiter
step rl (asks now key) = (allow now key rl).1
step rl (cleans now) = cleanup now rl

unfoldable pub run : RateLimiter → List Event → RateLimiter
run rl [] = rl
run rl (e ∷ es) = run (step rl e) es

-- The time of the request, if this event is one of this key and is granted.
unfoldable pub grant : String → RateLimiter → Event → List ℕ
grant key rl (asks now k) = if (k == key) && (allow now k rl).0 then now ∷ [] else []
grant key rl (cleans now) = []

-- The times at which requests of the key are granted.
unfoldable pub granted : String → RateLimiter → List Event → List ℕ
granted key rl [] = []
granted key rl (e ∷ es) = grant key rl e ++ granted key (step rl e) es

step-Distinct :
    (rl : RateLimiter) (e : Event) → Distinct rl.requests → Distinct (step rl e).requests
unfolding step allow cleanup
step-Distinct rl (asks now key) v =
    ground (
      arith,
      v,
      insert-Distinct key (recent now rl.window (times key rl) ++ now ∷ []) rl.requests v,
    )
step-Distinct rl (cleans now) v = clean-Distinct now rl.window rl.requests v

step_window :
    (rl : RateLimiter) (e : Event)
    → ((step rl e).window ≡ rl.window) × ((step rl e).limit ≡ rl.limit)
unfolding step allow cleanup
step_window rl (asks now key) = ground arith
step_window rl (cleans now) = (refl, refl)

count-step :
    (later : ℕ) (key : String) (rl : RateLimiter) (e : Event)
    → Distinct rl.requests
    → at e ≤ later
    → count later rl.window (times key (step rl e))
      ≡ count later rl.window (times key rl) + count later rl.window (grant key rl e)
unfolding step grant allow cleanup
count-step later key rl (asks now k) v h =
    let left = recent now rl.window (times k rl) in
    let after = lookup-insert k key (left ++ now ∷ []) rl.requests in
    elim (Bool-cases (leb rl.limit (length left))) [
      | inl full ↦ ground (arith, full)
      | inr room ↦ elim (Bool-cases (k == key)) [
        | inl same ↦ ground (
          arith,
          room,
          same,
          after,
          eq_iff k key,
          count-append later rl.window left (now ∷ []),
          count-recent now later rl.window (times k rl) h,
        )
        | inr other ↦ ground (arith, room, other, after)
      ]
    ]
count-step later key rl (cleans now) v h =
    rw (lookup-clean now rl.window key rl.requests v)
      (omega (arith, count-recent now later rl.window (times key rl) h))

-- The requests that are kept count in the window like those that were granted.
count-run :
    (later : ℕ) (key : String) (rl : RateLimiter) (es : List Event)
    → Distinct rl.requests
    → All (NotAfter later) es
    → count later rl.window (times key (run rl es))
      ≡ count later rl.window (times key rl) + count later rl.window (granted key rl es)
unfolding run granted
count-run later key rl [] v h = omega arith
count-run later key rl (e ∷ es) v h =
    let ih = count-run later key (step rl e) es (step-Distinct rl e v) h.1 in
    let moved =
      subst
        (λ w.
          count later w (times key (run (step rl e) es))
          ≡ count later w (times key (step rl e)) + count later w (granted key (step rl e) es))
        (step_window rl e).0 ih in
    omega (
      arith,
      moved,
      count-step later key rl e v h.0,
      count-append later rl.window (grant key rl e) (granted key (step rl e) es),
    )

run_window :
    (rl : RateLimiter) (es : List Event)
    → ((run rl es).window ≡ rl.window) × ((run rl es).limit ≡ rl.limit)
unfolding run
run_window rl [] = (refl, refl)
run_window rl (e ∷ es) = (
  (run_window (step rl e) es).0 ∙ (step_window rl e).0,
  (run_window (step rl e) es).1 ∙ (step_window rl e).1,
)

step_bound :
    (key : String) (rl : RateLimiter) (e : Event)
    → Distinct rl.requests
    → length (times key rl) ≤ rl.limit
    → length (times key (step rl e)) ≤ rl.limit
unfolding step allow cleanup
step_bound key rl (asks now k) v h =
    let left = recent now rl.window (times k rl) in
    let after = lookup-insert k key (left ++ now ∷ []) rl.requests in
    elim (Bool-cases (leb rl.limit (length left))) [
      | inl full ↦ ground (arith, full)
      | inr room ↦ ground (arith, room, after, length-append left (now ∷ []))
    ]
step_bound key rl (cleans now) v h =
    rw (lookup-clean now rl.window key rl.requests v)
      (omega (arith, count_bound now rl.window (times key rl)))

run_bound :
    (key : String) (rl : RateLimiter) (es : List Event)
    → Distinct rl.requests
    → length (times key rl) ≤ rl.limit
    → length (times key (run rl es)) ≤ rl.limit
unfolding run
run_bound key rl [] v h = h
run_bound key rl (e ∷ es) v h =
    let kept = (step_window rl e).1 in
    let bound = step_bound key rl e v h in
    omega (
      arith,
      kept,
      run_bound key (step rl e) es (step-Distinct rl e v) (omega (arith, kept, bound)),
    )

module _ (limit window : ℕ) (key : String) (es : List Event) where
  -- After any events up to the present, a request is granted exactly if fewer than the limit have been
  -- granted to its key in the window that ends now; the ticks of the cleanup play no part.
  pub allow_lem :
      (now : ℕ)
      → All (NotAfter now) es
      → (allow now key (run (new_rate_limiter limit window) es)).0
        ≡ ltb (count now window (granted key (new_rate_limiter limit window) es)) limit
  unfolding allow new_rate_limiter lookup
  allow_lem now h =
      let same = run_window (new_rate_limiter limit window) es in
      ground (arith, same, count-run now key (new_rate_limiter limit window) es tt h)

  -- In the window that ends at any time after the events, no more requests of a key have been granted
  -- than the limit.
  pub granted_bound :
      (later : ℕ)
      → All (NotAfter later) es
      → count later window (granted key (new_rate_limiter limit window) es) ≤ limit
  unfolding new_rate_limiter lookup
  granted_bound later h =
      let rl = new_rate_limiter limit window in
      omega (
        arith,
        count-run later key rl es tt h,
        count_bound later window (times key (run rl es)),
        run_bound key rl es tt (omega arith),
      )
