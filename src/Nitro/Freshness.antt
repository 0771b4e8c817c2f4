-- ===== src/Nitro/Freshness.antt =====
-- The freshness of an attestation document, with the arithmetic on i64.
use pzd.Base.{ℕ, ◌+◌, ◌*◌, ◌≤◌, ◌<◌, ◌≡◌, ◌↔◌, arith, ltb, if◌then◌else◌}
use pzd.Base.Int.{ℤ, pos, negsuc, ◌-ℤ◌, abs, quot, as_i64, as_usize, IsI64}
use pzd.Base.Result.{Result, ok, err}
use pzd.Nitro.Attestation.{
  VerifiedAttestation, NitroError, expired, assert_fresh, delta_secs, exceeds,
}

-- The rounded distance in seconds.
pub delta_secs_small :
    (a : VerifiedAttestation) (now bound : ℕ)
    → IsI64 a.timestamp_ms
    → now < 4611686018427387904
    → bound * 1000 ≤ 4611686018427387904
    → (abs (delta_secs a (pos now)) < bound) ↔ (abs (pos now -ℤ a.timestamp_ms) < bound * 1000)
unfolding delta_secs ◌-ℤ◌ quot as_i64 as_usize
delta_secs_small a now bound i n b = distance a.timestamp_ms i
  where
    distance :
        (t : ℤ)
        → IsI64 t
        → (abs (quot (as_i64 (pos now -ℤ t)) 1000) < bound) ↔ (abs (pos now -ℤ t) < bound * 1000)
    distance (pos t) i = ground arith
    distance (negsuc t) i = ground arith

-- A document of any time is fresh exactly if it lies less than the skew and one second from now, into the
-- past or into the future, for a clock below 2^62 milliseconds and a skew that is not negative and below that
-- too: no wrap of the difference makes another document fresh. Any other one expired, and the error says its
-- time in seconds and the skew.
pub assert_fresh_iff :
    (a : VerifiedAttestation) (now skew : ℕ)
    → IsI64 a.timestamp_ms
    → now < 4611686018427387904
    → (skew + 1) * 1000 ≤ 4611686018427387904
    → ((assert_fresh a (pos now) (pos skew) ≡ ok tt)
        ↔ (abs (pos now -ℤ a.timestamp_ms) < (skew + 1) * 1000))
      × ((assert_fresh a (pos now) (pos skew) ≡ err (expired (quot a.timestamp_ms 1000) (pos skew)))
          ↔ ((skew + 1) * 1000 ≤ abs (pos now -ℤ a.timestamp_ms)))
unfolding assert_fresh exceeds
assert_fresh_iff a now skew i n s =
    let small = delta_secs_small a now (skew + 1) i n s in
    verdict (abs (delta_secs a (pos now))) (abs (pos now -ℤ a.timestamp_ms)) small
  where
    verdict :
        (d m : ℕ)
        → (d < skew + 1) ↔ (m < (skew + 1) * 1000)
        → ((Path
              (Result NitroError (Unit {0}))
              (if ltb skew d then err (expired (quot a.timestamp_ms 1000) (pos skew)) else ok tt)
              (ok tt))
            ↔ (m < (skew + 1) * 1000))
          × ((Path
                (Result NitroError (Unit {0}))
                (if ltb skew d then err (expired (quot a.timestamp_ms 1000) (pos skew)) else ok tt)
                (err (expired (quot a.timestamp_ms 1000) (pos skew))))
              ↔ ((skew + 1) * 1000 ≤ m))
    verdict d m small = ground (arith, small.0, small.1)
