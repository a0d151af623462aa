-- ===== src/Satellite/Times.antt =====
-- The times of SetAttr: time.Time through UnixNano and NsecToTimespec to a timespec.
use dockerfuse.Base.{
  true, false, refl, ℕ, ◌≡◌, ◌∙◌, ap, ◌<◌, ◌+◌, ◌*◌, ◌-◌, ◌/◌, ◌%◌, ◌^◌, suc, arith,
}
use dockerfuse.Base.Int.{ℤ, pos, negsuc, to_i64-to_u64}
use dockerfuse.RpcCommon.SetAttr.{utime_omit}
use dockerfuse.RpcCommon.Types.{Time}
use dockerfuse.Satellite.Attributes.{second, unix_nano, nsec_to_timespec, timespec_of}

-- The times whose nanoseconds since 1970 are an int64: from 1677 to 2262.
abbrev pub FitsNano : ℤ → ℕ → Type 0
FitsNano (pos s) n = s * second + n < 2 ^ 63
FitsNano (negsuc s) n = suc s * second - n - 1 < 2 ^ 63

after_epoch :
    (s n : ℕ)
    → n < second
    → nsec_to_timespec (pos (s * second + n)) ≡ record { sec = pos s; nsec = pos n }
unfolding nsec_to_timespec
after_epoch s n h =
    let q : (s * second + n) / second ≡ s = omega arith in
    let r : (s * second + n) % second ≡ n = omega arith in rw (q, r)

before_epoch :
    (s n : ℕ)
    → n < second
    → nsec_to_timespec (negsuc (suc s * second - n - 1)) ≡ record { sec = negsuc s; nsec = pos n }
unfolding nsec_to_timespec
before_epoch s n h =
    let q : (suc s * second - n - 1) / second ≡ s = omega arith in
    let r : second - 1 - (suc s * second - n - 1) % second ≡ n = omega arith in rw (q, r)

by_sign :
    (z : ℤ) (n : ℕ)
    → n < second
    → FitsNano z n
    → nsec_to_timespec (unix_nano (record { sec = z; nsec = n })) ≡ record { sec = z; nsec = pos n }
unfolding unix_nano
by_sign (pos s) n h k = ap nsec_to_timespec (to_i64-to_u64 _ k) ∙ after_epoch s n h
by_sign (negsuc s) n h k = ap nsec_to_timespec (to_i64-to_u64 _ k) ∙ before_epoch s n h

-- A marked time whose nanoseconds fit an int64 reaches utimensat to the nanosecond, also before
-- 1970, and a time that is not marked is left as it is.
pub timespec_of_lem :
    (t : Time)
    → t.nsec < second
    → FitsNano t.sec t.nsec
    → (timespec_of (t, true) ≡ record { sec = t.sec; nsec = pos t.nsec })
      × ((u : Time) → timespec_of (u, false) ≡ record { sec = pos 0; nsec = pos utime_omit })
unfolding timespec_of
timespec_of_lem t h k = (by_sign t.sec t.nsec h k, λ u. refl)
