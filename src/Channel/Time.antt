-- ===== src/Channel/Time.antt =====
-- The window of time of a governance signature, as the operations test it.
use enxame.Base.{ℕ, ◌+◌, ◌-◌, ◌<◌, ◌≡◌, false, arith, ltb}
use enxame.Channel.{elapsed, is_expired}

-- For times that are not negative, a signature is expired exactly if its time stamp is more than sixty
-- seconds away from the present, before or after it.
pub is_expired_lem :
    (now ts : ℕ)
    → now < 9223372036854775808
    → ts < 9223372036854775808
    → is_expired now ts ≡ ltb 60000000000 ((now - ts) + (ts - now))
unfolding is_expired elapsed
is_expired_lem now ts h k = ground arith

-- At every time that is not negative there is a negative time stamp, 2^63 nanoseconds away, whose
-- signature is not expired: the difference overflows, and so does its negation.
pub is_expired_overflow :
    (now : ℕ) → now < 9223372036854775808 → is_expired now (now + 9223372036854775808) ≡ false
unfolding is_expired elapsed
is_expired_overflow now h = ground arith
